-- ===== src/Admin/Laws/Sayable.antt =====
-- src/admin.rs: the spelling of commands, and what the parser makes of it.
use text.Mathlib.Text.{starts_with}
use sms_irc.Base.{
  ◌≡◌, refl, String, Bool, true, false, List, [], ◌∷◌, none, some, ok, arith, String_Eq,
  to_lowercase, join,
}
use sms_irc.Extern.{Libs}
use sms_irc.Admin.{
  GhostCommand, change_nick, set_whatsapp, presence_subscribe, remove, ModemCommand, get_csq,
  get_reg, reinit, temp_path, new_sms, new_whatsapp, WhatsappCommand, setup, logon, chat_list,
  update_all, print_acks, bridge_whatsapp, unbridge, InspCommand, raw, query_uuid, query_nick_uuid,
  AdminCommand, ghost, contact, whatsapp, modem, group, insp, help, parse, admin_command,
  parse_ghost, ghost_command, parse_modem, modem_command, parse_whatsapp, whatsapp_command,
  parse_contact, contact_command, parse_group, group_command, parse_insp, insp_command,
}

abbrev bool_word : Bool → String
bool_word true = "true"
bool_word false = "false"

abbrev ghost_words : GhostCommand → List String
ghost_words (change_nick n) = "RENAME" ∷ n ∷ []
ghost_words (set_whatsapp b) = "WHATSAPP" ∷ bool_word b ∷ []
ghost_words presence_subscribe = "PRESUB" ∷ []
ghost_words remove = "REMOVE" ∷ []

abbrev modem_words : ModemCommand → List String
modem_words get_csq = "SIGNAL" ∷ []
modem_words get_reg = "REGISTRATION" ∷ []
modem_words reinit = "RESTART" ∷ []
modem_words (temp_path none) = "PATH" ∷ []
modem_words (temp_path (some p)) = "PATH" ∷ p ∷ []

abbrev whatsapp_words : WhatsappCommand → List String
whatsapp_words setup = "SETUP" ∷ []
whatsapp_words logon = "LOGON" ∷ []
whatsapp_words chat_list = "CHATS" ∷ []
whatsapp_words update_all = "REBUILD" ∷ []
whatsapp_words print_acks = "RECEIPTS" ∷ []

-- The parser drops the word behind RAW, so a line is said with one more in front.
abbrev insp_words : InspCommand → List String
insp_words (raw line) = "RAW" ∷ ":" ∷ line ∷ []
insp_words (query_uuid u) = "UUQUERY" ∷ u ∷ []
insp_words (query_nick_uuid n) = "NICKQUERY" ∷ n ∷ []

abbrev pub verb : AdminCommand → String
verb (ghost nick c) = "GHOST"
verb (contact c) = "CONTACT"
verb (whatsapp c) = "WHATSAPP"
verb (modem c) = "MODEM"
verb (group c) = "GROUP"
verb (insp c) = "INSP"
verb (help page) = "HELP"

abbrev pub arguments : Libs → AdminCommand → List String
arguments l (ghost nick c) = nick ∷ ghost_words c
arguments l (contact (new_sms a)) = "SMS" ∷ l.show_address a ∷ []
arguments l (contact (new_whatsapp a)) = "WHATSAPP" ∷ l.show_address a ∷ []
arguments l (whatsapp c) = whatsapp_words c
arguments l (modem c) = modem_words c
arguments l (group (bridge_whatsapp j chan)) = "BRIDGE" ∷ l.show_jid j ∷ chan ∷ []
arguments l (group (unbridge chan)) = "UNBRIDGE" ∷ chan ∷ []
arguments l (insp c) = insp_words c
arguments l (help none) = []
arguments l (help (some page)) = page ∷ []

-- The spelling of the help texts, where JIDs and numbers stand as they are printed.
abbrev pub words : Libs → AdminCommand → List String
words l c = verb c ∷ arguments l c

-- A printed number or JID reads back as itself, and a channel's name starts with #.
abbrev pub IsSayable : Libs → AdminCommand → Type 0
IsSayable l (contact (new_sms a)) = l.parse_address (l.show_address a) ≡ some a
IsSayable l (contact (new_whatsapp a)) = l.parse_address (l.show_address a) ≡ some a
IsSayable l (group (bridge_whatsapp j chan)) =
    (l.parse_jid (l.show_jid j) ≡ some j) × (starts_with chan "#" ≡ true)
IsSayable l (group (unbridge chan)) = starts_with chan "#" ≡ true
IsSayable l _ = Unit

parse_ghost-words : (c : GhostCommand) → parse_ghost (ghost_words c) ≡ some c
unfolding parse_ghost ghost_command to_lowercase
parse_ghost-words (change_nick n) = refl
parse_ghost-words (set_whatsapp true) = refl
parse_ghost-words (set_whatsapp false) = refl
parse_ghost-words presence_subscribe = refl
parse_ghost-words remove = refl

parse_modem-words : (c : ModemCommand) → parse_modem (modem_words c) ≡ some c
unfolding parse_modem modem_command to_lowercase
parse_modem-words get_csq = refl
parse_modem-words get_reg = refl
parse_modem-words reinit = refl
parse_modem-words (temp_path none) = refl
parse_modem-words (temp_path (some p)) = refl

parse_whatsapp-words : (c : WhatsappCommand) → parse_whatsapp (whatsapp_words c) ≡ some c
unfolding parse_whatsapp whatsapp_command to_lowercase
parse_whatsapp-words setup = refl
parse_whatsapp-words _ = refl

parse_insp-words : (c : InspCommand) → parse_insp (insp_words c) ≡ ok (some c)
unfolding parse_insp insp_command to_lowercase join
parse_insp-words (raw line) = refl
parse_insp-words _ = refl

-- Every administrator's command whose arguments are sayable is what the parser makes of its spelling
-- in the help texts, but that a raw line needs an extra word before it.
pub parse-words : (l : Libs) (c : AdminCommand) → IsSayable l c → parse l (words l c) ≡ ok (some c)
unfolding parse admin_command parse_contact contact_command parse_group group_command to_lowercase
parse-words l (ghost nick (change_nick n)) s = rw (parse_ghost-words (change_nick n))
parse-words l (ghost nick (set_whatsapp b)) s = rw (parse_ghost-words (set_whatsapp b))
parse-words l (ghost nick presence_subscribe) s = rw (parse_ghost-words presence_subscribe)
parse-words l (ghost nick remove) s = rw (parse_ghost-words remove)
parse-words l (contact (new_sms a)) s = rw s
parse-words l (contact (new_whatsapp a)) s = rw s
parse-words l (whatsapp c) s = rw (parse_whatsapp-words c)
parse-words l (modem c) s = rw (parse_modem-words c)
parse-words l (group (bridge_whatsapp j chan)) s = ground (arith, s.0, s.1)
parse-words l (group (unbridge chan)) s = rw s
parse-words l (insp c) s = rw (parse_insp-words c)
parse-words l (help none) s = refl
parse-words l (help (some page)) s = refl
