-- ===== src/Insp/Users.antt =====
-- src/insp_s2s.rs: the users that the link knows, their nicks and ids, and the lines that speak for them.
use text.Mathlib.Text.{starts_with}
use sms_irc.Base.{
  ℕ, zero, suc, ◌+◌, ◌-◌, String, len, Bool, not, ◌||◌, List, [], ◌∷◌, Option, none, some, Result,
  ok, err, M, ◌>>=◌, ◌>>◌, pure, ltb, if◌then◌else◌, ◌<>◌, ◌==◌, String_Eq, show, show_i64, length,
  any, is_none, find?, lookup, insert,
}
use sms_irc.InspUser.{InspUser}
use sms_irc.Insp.{InspLink, Env, push}

abbrev pub has_nick : String → String × InspUser → Bool
has_nick nick entry = entry.1.nick == nick

-- `{:05}`
unfoldable pub zeros : ℕ → String
zeros zero = ""
zeros (suc n) = "0" <> zeros n

unfoldable pub pad5 : ℕ → String
pad5 n = zeros (5 - len (show n)) <> show n

unfoldable pub uuid_of : String → ℕ → String
uuid_of sid n = sid <> "Z" <> pad5 n

abbrev pub max_user_id : ℕ
max_user_id = 99999

abbrev pub key_of : Option (String × InspUser) → Option String
key_of none = none
key_of (some entry) = some entry.0

abbrev pub uid_args : String → InspUser → List String
uid_args uid user =
    uid
    ∷ show_i64 user.ts
    ∷ user.nick
    ∷ user.hostname
    ∷ user.displayed_hostname
    ∷ user.ident
    ∷ user.ip
    ∷ show_i64 user.signon_time
    ∷ user.modes
    ∷ []

module _ {Message : Type 0} where
  unfoldable pub host_for_wa : Bool → InspLink Message → String
  host_for_wa wa s = if wa then "wa." <> s.cfg.server_name else "s." <> s.cfg.server_name

  unfoldable pub nick_exists : String → InspLink Message → Bool
  nick_exists nick s = any (has_nick nick) s.users || (nick == s.cfg.admin_nick)

  -- The `while` loop from `idx` on. Where the fuel is out, the nick is not tried.
  unfoldable pub first_free : ℕ → String → ℕ → InspLink Message → String
  first_free zero nick idx s = nick <> show idx
  first_free (suc fuel) nick idx s =
      let newnick = nick <> show idx in
      let next = first_free fuel nick (idx + 1) s in if nick_exists newnick s then next else newnick

  unfoldable pub check_nick_for_collisions : String → InspLink Message → Option String
  check_nick_for_collisions nick s =
      if nick_exists nick s then some (first_free (length s.users + 2) nick 0 s) else none

  unfoldable pub admin_uuid : InspLink Message → Option String
  admin_uuid s = key_of (find? (has_nick s.cfg.admin_nick) s.users)

  unfoldable pub get_uuid : M (InspLink Message) String
  get_uuid s =
      if ltb max_user_id s.next_user_id
      then (err "UUIDs exhausted", s)
      else (ok (uuid_of s.cfg.sid s.next_user_id), record s { next_user_id = s.next_user_id + 1 })

  abbrev pub uid_line : Env Message → String → String → Option InspUser → Result Message
  uid_line e sid uid none = err "no user found in make_uid_line()"
  uid_line e sid uid (some user) =
      e.new_message (some sid) "UID" (uid_args uid user) (some user.gecos)

  unfoldable pub make_uid_line : Env Message → String → InspLink Message → Result Message
  make_uid_line e uid s = uid_line e s.cfg.sid uid (lookup uid s.users)

  abbrev pub add_user : String → InspUser → M (InspLink Message) (Unit {0})
  add_user uuid user s = (ok tt, record s { users = insert uuid user s.users })

  -- `let line = self.make_uid_line(&uuid)?; self.send(line);`
  abbrev pub announce : Env Message → String → M (InspLink Message) (Unit {0})
  announce e uuid s = push (make_uid_line e uuid s) s

  unfoldable pub new_user : Env Message → InspUser → M (InspLink Message) String
  new_user e user = do uuid ← get_uuid; add_user uuid user; announce e uuid; pure uuid

  unfoldable pub contact_message :
      Env Message → String → String → String → String → M (InspLink Message) (Unit {0})
  contact_message e uid kind target message s =
      if is_none (lookup uid s.users)
      then (err ("contact_message called with unknown uid " <> uid), s)
      else if not (starts_with uid s.cfg.sid)
      then (err ("Got contact_message for uid " <> uid <> " that isn't owned by us"), s)
      else push (e.new_message (some uid) kind (target ∷ []) (some message)) s
