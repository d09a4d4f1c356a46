-- ===== src/Admin.antt =====
-- src/admin.rs: the administrator's commands, and their parsers.
pub mod Help
pub mod Laws
use text.Mathlib.Text.{starts_with}
use sms_irc.Base.{
  String, Bool, true, false, ◌||◌, List, [], ◌∷◌, Option, none, some, Result, ok, panic,
  if◌then◌else◌, ◌==◌, String_Eq, to_lowercase, join,
}
use sms_irc.Extern.{PduAddress, Jid, Libs}

pub data GhostCommand : Type 0 where
  change_nick : String → GhostCommand
  set_whatsapp : Bool → GhostCommand
  presence_subscribe remove : GhostCommand

pub data ModemCommand : Type 0 where
  get_csq get_reg reinit : ModemCommand
  temp_path : Option String → ModemCommand

pub data ContactCommand : Type 0 where
  new_sms new_whatsapp : PduAddress → ContactCommand

pub data WhatsappCommand : Type 0 where
  setup logon chat_list update_all print_acks : WhatsappCommand

pub data GroupCommand : Type 0 where
  bridge_whatsapp : Jid → String → GroupCommand
  unbridge : String → GroupCommand

pub data InspCommand : Type 0 where
  raw query_uuid query_nick_uuid : String → InspCommand

pub data AdminCommand : Type 0 where
  ghost : String → GhostCommand → AdminCommand
  contact : ContactCommand → AdminCommand
  whatsapp : WhatsappCommand → AdminCommand
  modem : ModemCommand → AdminCommand
  group : GroupCommand → AdminCommand
  insp : InspCommand → AdminCommand
  help : Option String → AdminCommand

-- The pattern `&[x]`: an arm that takes exactly one word.
abbrev pub one_word {ℓ} : {A : Type ℓ} → List String → (String → Option A) → Option A
one_word (x ∷ []) f = f x
one_word _ f = none

-- `str::parse::<bool>`
abbrev pub parse_bool : String → Option Bool
parse_bool s = if s == "true" then some true else if s == "false" then some false else none

abbrev pub map_some {ℓ κ} : {A : Type ℓ} {B : Type κ} → (A → B) → Option A → Option B
map_some f none = none
map_some f (some a) = some (f a)

unfoldable pub ghost_command : String → List String → Option GhostCommand
ghost_command cmd rest =
    if cmd == "rename"
    then one_word rest (λ nick. some (change_nick nick))
    else if cmd == "whatsapp"
    then one_word rest (λ value. map_some set_whatsapp (parse_bool value))
    else if cmd == "presub"
    then some presence_subscribe
    else if cmd == "die" || cmd == "kill" || cmd == "remove"
    then some remove
    else none

unfoldable pub parse_ghost : List String → Option GhostCommand
parse_ghost [] = none
parse_ghost (word ∷ rest) = ghost_command (to_lowercase word) rest

-- `("path", &[path])`, else `("path", _)`
abbrev pub path_of : List String → Option String
path_of (path ∷ []) = some path
path_of _ = none

unfoldable pub modem_command : String → List String → Option ModemCommand
modem_command cmd rest =
    if cmd == "signal" || cmd == "csq"
    then some get_csq
    else if cmd == "registration" || cmd == "reg"
    then some get_reg
    else if cmd == "restart"
    then some reinit
    else if cmd == "path"
    then some (temp_path (path_of rest))
    else none

unfoldable pub parse_modem : List String → Option ModemCommand
parse_modem [] = none
parse_modem (word ∷ rest) = modem_command (to_lowercase word) rest

unfoldable pub whatsapp_command : String → Option WhatsappCommand
whatsapp_command cmd =
    if cmd == "setup"
    then some setup
    else if cmd == "logon"
    then some logon
    else if cmd == "chats"
    then some chat_list
    else if cmd == "rebuild"
    then some update_all
    else if cmd == "receipts" || cmd == "acks"
    then some print_acks
    else none

unfoldable pub parse_whatsapp : List String → Option WhatsappCommand
parse_whatsapp [] = none
parse_whatsapp (word ∷ rest) = whatsapp_command (to_lowercase word)

module _ (l : Libs) where
  unfoldable pub contact_command : String → List String → Option ContactCommand
  contact_command cmd rest =
      if cmd == "whatsapp" || cmd == "sms"
      then one_word rest (λ num.
        map_some (λ a. if cmd == "whatsapp" then new_whatsapp a else new_sms a)
          (l.parse_address num))
      else none

  unfoldable pub parse_contact : List String → Option ContactCommand
  parse_contact [] = none
  parse_contact (word ∷ rest) = contact_command (to_lowercase word) rest

  -- `&[jid, chan]`
  abbrev pub bridge_of : List String → Option GroupCommand
  bridge_of (jid ∷ chan ∷ []) = elim (l.parse_jid jid) [
    | none ↦ none
    | some j ↦ if starts_with chan "#" then some (bridge_whatsapp j chan) else none
  ]
  bridge_of _ = none

  unfoldable pub group_command : String → List String → Option GroupCommand
  group_command cmd rest =
      if cmd == "bridge"
      then bridge_of rest
      else if cmd == "unbridge"
      then one_word rest (λ chan. if starts_with chan "#" then some (unbridge chan) else none)
      else none

  unfoldable pub parse_group : List String → Option GroupCommand
  parse_group [] = none
  parse_group (word ∷ rest) = group_command (to_lowercase word) rest

-- `args[1..].join(" ")`; the slice of an empty list panics.
abbrev pub raw_line : List String → Result (Option InspCommand)
raw_line [] = panic
raw_line (_ ∷ args) = ok (some (raw (join " " args)))

unfoldable pub insp_command : String → List String → Result (Option InspCommand)
insp_command cmd rest =
    if cmd == "raw"
    then raw_line rest
    else if cmd == "uuquery"
    then ok (one_word rest (λ uuid. some (query_uuid uuid)))
    else if cmd == "nickquery"
    then ok (one_word rest (λ nick. some (query_nick_uuid nick)))
    else ok none

unfoldable pub parse_insp : List String → Result (Option InspCommand)
parse_insp [] = ok none
parse_insp (word ∷ rest) = insp_command (to_lowercase word) rest

abbrev pub map_insp : Result (Option InspCommand) → Result (Option AdminCommand)
map_insp (ok c) = ok (map_some insp c)
map_insp (Result.err e) = Result.err e
map_insp panic = panic

-- `inp[1]` and `inp[2..]`, where there are three words at least.
abbrev pub ghost_of : List String → Option AdminCommand
ghost_of (tgt ∷ word ∷ rest) = map_some (ghost tgt) (parse_ghost (word ∷ rest))
ghost_of _ = none

-- `inp.get(1)`
abbrev pub first_word : List String → Option String
first_word [] = none
first_word (x ∷ xs) = some x

module _ (l : Libs) where
  unfoldable pub admin_command : String → List String → Result (Option AdminCommand)
  admin_command cmd rest =
      if cmd == "contact"
      then ok (map_some contact (parse_contact l rest))
      else if cmd == "whatsapp"
      then ok (map_some whatsapp (parse_whatsapp rest))
      else if cmd == "group"
      then ok (map_some group (parse_group l rest))
      else if cmd == "modem"
      then ok (map_some modem (parse_modem rest))
      else if cmd == "insp"
      then map_insp (parse_insp rest)
      else if cmd == "ghost"
      then ok (ghost_of rest)
      else if cmd == "help"
      then ok (some (help (first_word rest)))
      else ok none

  unfoldable pub parse : List String → Result (Option AdminCommand)
  parse [] = ok none
  parse (word ∷ rest) = admin_command (to_lowercase word) rest
