-- ===== src/IrcServer/Greeting.antt =====
-- src/irc_s2c.rs: what a client is told when it has registered.
pub mod Names
use sms_irc.Base.{
  ℕ, zero, suc, String, Bool, true, false, List, [], ◌∷◌, ◌++◌, map, Option, none, some, ok, M,
  ◌>>=◌, ◌>>◌, pure, done, fail, modify, for_each, if◌then◌else◌, ◌<>◌, contains, ℕ_Eq, String_Eq,
  insert,
}
use sms_irc.Models.{Recipient, Group}
use sms_irc.Registration.{server_name}
use sms_irc.Store.{get_all_groups, get_all_recipients, get_recipient_by_id_opt}
use sms_irc.IrcServer.{
  IrcConnection, Env, on_store, reply_s2c, reply_from_user, motd, user_modes, channel_modes,
}

-- `chunks(5)`: `room` is what the chunk in front may still take.
unfoldable pub chunks_from {ℓ} : {A : Type ℓ} → ℕ → List A → List A → List (List A)
chunks_from room [] [] = []
chunks_from room (c ∷ cur) [] = (c ∷ cur) ∷ []
chunks_from zero cur (x ∷ xs) = cur ∷ chunks_from 4 (x ∷ []) xs
chunks_from (suc room) cur (x ∷ xs) = chunks_from room (cur ++ x ∷ []) xs

unfoldable pub chunks {ℓ} : {A : Type ℓ} → List A → List (List A)
unfolding chunks_from
chunks xs = chunks_from 5 [] xs

-- `collect::<String>()`
unfoldable pub concat : List String → String
concat [] = ""
concat (s ∷ ss) = s <> concat ss

abbrev pub group_nick : Group → Recipient → String
group_nick grp r = (if contains grp.admins r.id then "@" else "") <> r.nick <> " "

abbrev pub plain_nick : Recipient → String
plain_nick r = r.nick <> " "

module _ {Message : Type 0} (e : Env Message) where
  -- A line for every five recipients.
  unfoldable pub name_lines :
      String → (Recipient → String) → List Recipient → M (IrcConnection Message) (Unit {0})
  name_lines chan nick recips =
      for_each (chunks recips)
        λ some_of. reply_s2c e "353" ("@" ∷ chan ∷ []) (some (concat (map nick some_of)))

  abbrev pub member_of : Option Recipient → M (IrcConnection Message) Recipient
  member_of none = fail "recipient group wat"
  member_of (some r) = pure r

  unfoldable pub members : List ℕ → List Recipient → M (IrcConnection Message) (List Recipient)
  members [] recips = pure recips
  members (id ∷ ids) recips = do
    found ← on_store (get_recipient_by_id_opt id)
    r ← member_of found
    members ids (recips ++ r ∷ [])

  unfoldable pub setup_group : Group → M (IrcConnection Message) (Unit {0})
  setup_group grp = do
    reply_from_user e "JOIN" (grp.channel ∷ []) none
    reply_s2c e "332" (grp.channel ∷ []) (some grp.topic)
    λ c. reply_s2c e "353" ("=" ∷ grp.channel ∷ []) (some ("&" <> c.reginfo.nick)) c
    recips ← members grp.participants []
    name_lines grp.channel (group_nick grp) recips
    reply_s2c e "366" (grp.channel ∷ []) (some "End of /NAMES list.")
    modify λ c. record c { joined_groups = insert grp.channel grp c.joined_groups }

  unfoldable pub setup_control_channel : M (IrcConnection Message) (Unit {0})
  setup_control_channel = do
    reply_from_user e "JOIN" ("&smsirc" ∷ []) none
    reply_s2c e "332" ("&smsirc" ∷ []) (some "sms-irc admin channel")
    λ c. reply_s2c e "353" ("@" ∷ "&smsirc" ∷ []) (some ("&" <> c.reginfo.nick <> " ~root")) c
    recips ← on_store get_all_recipients
    name_lines "&smsirc" plain_nick recips
    reply_s2c e "366" ("&smsirc" ∷ []) (some "End of /NAMES list.")
    reply_s2c e "324" ("&smsirc" ∷ []) none

  unfoldable pub send_motd : M (IrcConnection Message) (Unit {0})
  send_motd = do
    reply_s2c e "375" [] (some "- Message of the day -")
    for_each motd λ line. reply_s2c e "372" [] (some line)
    reply_s2c e "376" [] (some "End of /MOTD command.")

  unfoldable pub on_new : M (IrcConnection Message) (Unit {0})
  on_new = do
    reply_s2c e "001" [] (some "Welcome to sms-irc, a SMS/WhatsApp to IRC bridge!")
    reply_s2c e "002" []
        (some ("This is sms-irc version " <> e.version <> ", running in IRC server mode."))
    reply_s2c e "003" []
        (some "(This server doesn't keep creation timestamp information at present.)")
    reply_s2c e "004" (server_name ∷ ("sms-irc-" <> e.version) ∷ user_modes ∷ channel_modes ∷ [])
        none
    reply_s2c e "005"
        ("AWAYLEN=200" ∷ "CASEMAPPING=ascii" ∷ "NETWORK=sms-irc" ∷ "NICKLEN=100"
          ∷ "PREFIX=(qaohv)~&@%+" ∷ [])
        (some "are supported by this server")
    send_motd
    setup_control_channel
    groups ← on_store get_all_groups
    for_each groups setup_group
