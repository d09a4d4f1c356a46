-- ===== src/InspUser.antt =====
-- src/insp_user.rs: what the InspIRCd link keeps of a user, and the line that announces one.
pub mod Line
use sms_irc.Base.{
  ℕ, String, Bool, true, false, List, [], ◌∷◌, map, Option, none, some, ℤ, Result, ok, err, panic,
  ltb, if◌then◌else◌, ◌<>◌, join, length, parse_i64,
}
use sms_irc.Extern.{Libs, PduAddress}
use sms_irc.Util.{string_to_irc_nick}

pub record InspUser : Type 0 where
  pub ts : ℤ
  pub nick : String
  pub hostname : String
  pub displayed_hostname : String
  pub ident : String
  pub ip : String
  pub signon_time : ℤ
  pub modes : String
  pub gecos : String
  pub ours : Bool

-- `{:?}` of a Vec<String>; `debug` is that of a text.
abbrev pub debug_args : (String → String) → List String → String
debug_args debug args = "[" <> join ", " (map debug args) <> "]"

abbrev pub build :
    String → String → String → String → String → List String → String → ℤ → ℤ → InspUser
build nick hostname displayed ident ip modes gecos ts signon_time = record {
  ts = ts;
  nick = nick;
  hostname = hostname;
  displayed_hostname = displayed;
  ident = ident;
  ip = ip;
  signon_time = signon_time;
  modes = join " " modes;
  gecos = gecos;
  ours = false;
}

-- The two `parse()?`, in the order of the fields.
abbrev pub with_times :
    String → (ℤ → ℤ → InspUser) → Result ℤ → Result ℤ → Result (String × InspUser)
with_times uuid user (ok ts) (ok signon) = ok (uuid, user ts signon)
with_times uuid user (ok ts) (err e) = err e
with_times uuid user (ok ts) panic = panic
with_times uuid user (err e) r = err e
with_times uuid user panic r = panic

-- The iterator's `next().unwrap()`s, and what is left of it for the modes.
abbrev pub read_args : List String → String → Result (String × InspUser)
read_args (uuid ∷ ts ∷ nick ∷ hostname ∷ displayed ∷ ident ∷ ip ∷ signon ∷ modes) gecos =
    with_times uuid (build nick hostname displayed ident ip modes gecos) (parse_i64 ts)
      (parse_i64 signon)
read_args _ gecos = panic

abbrev pub with_gecos : List String → Option String → Result (String × InspUser)
with_gecos args none = err "UID with no suffix"
with_gecos args (some gecos) = read_args args gecos

unfoldable pub new_from_uid_line :
    (String → String) → List String → Option String → Result (String × InspUser)
new_from_uid_line debug args suffix =
    if ltb (length args) 9
    then err ("UID with invalid args: " <> debug_args debug args)
    else with_gecos args suffix

-- `now` is chrono's clock.
unfoldable pub new_for_controlbot : ℤ → String → String → InspUser
new_for_controlbot now nick hostname = record {
  ts = now;
  nick = nick;
  hostname = hostname;
  displayed_hostname = hostname;
  ident = "~control";
  ip = "0.0.0.0";
  signon_time = now;
  modes = "+i";
  gecos = "sms-irc control bot";
  ours = true;
}

unfoldable pub new_from_recipient : Libs → ℤ → PduAddress → String → String → InspUser
new_from_recipient l now a nick hostname = record {
  ts = now;
  nick = nick;
  hostname = hostname;
  displayed_hostname = hostname;
  ident = string_to_irc_nick l (l.show_address a);
  ip = "0.0.0.0";
  signon_time = now;
  modes = "+i";
  gecos = l.show_address a;
  ours = true;
}
