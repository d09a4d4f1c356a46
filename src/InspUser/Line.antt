-- ===== src/InspUser/Line.antt =====
-- src/insp_user.rs and make_uid_line of src/insp_s2s.rs: the line that announces a user, made and read.
use sms_irc.Base.{
  ◌≡◌, refl, String, false, List, [], ◌∷◌, Option, none, some, ℤ, Result, ok, err, panic, is_panic,
  arith, ltb, length, if_intro, parse_i64, parse_i64-show_i64, parse_i64-calm, IsI64, join,
}
use sms_irc.InspUser.{InspUser, new_from_uid_line, with_gecos, with_times, build}
use sms_irc.Insp.Users.{uid_args}

-- The line that announces a user is read as the same user, who is then another server's, if the times are
-- numbers of 64 bits.
pub new_from_uid_line-uid_args :
    (debug : String → String) (uuid : String) (user : InspUser)
    → IsI64 user.ts
    → IsI64 user.signon_time
    → new_from_uid_line debug (uid_args uuid user) (some user.gecos)
      ≡ ok (uuid, record user { ours = false })
unfolding new_from_uid_line join
new_from_uid_line-uid_args debug uuid user t u =
    rw (parse_i64-show_i64 user.ts t, parse_i64-show_i64 user.signon_time u) refl

with_times-calm :
    (uuid : String) (user : ℤ → ℤ → InspUser) (a b : Result ℤ)
    → is_panic a ≡ false
    → is_panic b ≡ false
    → is_panic (with_times uuid user a b) ≡ false
with_times-calm uuid user (ok t) (ok u) p q = refl
with_times-calm uuid user (ok t) (err e) p q = refl
with_times-calm uuid user (ok t) panic p q = cc
with_times-calm uuid user (err e) r p q = refl
with_times-calm uuid user panic r p q = cc

with_gecos-calm :
    (args : List String) (suffix : Option String)
    → ltb (length args) 9 ≡ false
    → is_panic (with_gecos args suffix) ≡ false
with_gecos-calm args none h = refl
with_gecos-calm (a ∷ t ∷ c ∷ d ∷ e ∷ f ∷ g ∷ u ∷ modes) (some gecos) h =
    with_times-calm a (build c d e f g modes gecos) (parse_i64 t) (parse_i64 u) (parse_i64-calm t)
      (parse_i64-calm u)
with_gecos-calm [] (some gecos) h = cc
with_gecos-calm (a ∷ []) (some gecos) h = absurd (ground arith)
with_gecos-calm (a ∷ b ∷ []) (some gecos) h = absurd (ground arith)
with_gecos-calm (a ∷ b ∷ c ∷ []) (some gecos) h = absurd (ground arith)
with_gecos-calm (a ∷ b ∷ c ∷ d ∷ []) (some gecos) h = absurd (ground arith)
with_gecos-calm (a ∷ b ∷ c ∷ d ∷ e ∷ []) (some gecos) h = absurd (ground arith)
with_gecos-calm (a ∷ b ∷ c ∷ d ∷ e ∷ f ∷ []) (some gecos) h = absurd (ground arith)
with_gecos-calm (a ∷ b ∷ c ∷ d ∷ e ∷ f ∷ g ∷ []) (some gecos) h = absurd (ground arith)

-- Reading a line never panics, whatever arguments and description it has: too few are an error.
pub new_from_uid_line-calm :
    (debug : String → String) (args : List String) (suffix : Option String)
    → is_panic (new_from_uid_line debug args suffix) ≡ false
unfolding new_from_uid_line
new_from_uid_line-calm debug args suffix =
    if_intro (λ (r : Result (String × InspUser)). is_panic r ≡ false) (ltb (length args) 9) _ _
      (λ t. refl) (with_gecos-calm args suffix)
