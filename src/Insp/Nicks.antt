-- ===== src/Insp/Nicks.antt =====
-- src/insp_s2s.rs, check_nick_for_collisions: the nicks that are free.
use text.Mathlib.TextLemmas.{append_cancel_left}
use sms_irc.Base.{
  ℕ, zero, suc, ◌+◌, ◌≤◌, ◌<◌, ◌≡◌, refl, ap, String, true, false, not, ◌||◌, List, [], ◌∷◌, Option,
  none, some, arith, ◌==◌, String_Eq, any, keep, contains, length, Bool-cases, inl, inr, ◌<>◌, show,
  show_inj,
}
use sms_irc.InspUser.{InspUser}
use sms_irc.Insp.{InspLink}
use sms_irc.Insp.Users.{has_nick, nick_exists, first_free, check_nick_for_collisions}

contains-keep :
    (x y : String) (ms : List String)
    → (x == y) ≡ false
    → contains ms x ≡ true
    → contains (keep (λ m. not (m == y)) ms) x ≡ true
contains-keep x y [] d h = cc
contains-keep x y (m ∷ ms) d h = ground (
  arith,
  String_Eq.decides m x,
  String_Eq.decides m y,
  String_Eq.decides x y,
  contains-keep x y ms d,
)

length-keep-le : (y : String) (ms : List String) → length (keep (λ m. not (m == y)) ms) ≤ length ms
length-keep-le y [] = omega arith
length-keep-le y (m ∷ ms) = ground (arith, length-keep-le y ms)

length-keep-lt :
    (y : String) (ms : List String)
    → contains ms y ≡ true
    → length (keep (λ m. not (m == y)) ms) < length ms
length-keep-lt y [] h = cc
length-keep-lt y (m ∷ ms) h = ground (arith, length-keep-le y ms, length-keep-lt y ms)

candidate-ne : (nick : String) (i j : ℕ) → i < j → ((nick <> show j) == (nick <> show i)) ≡ false
candidate-ne nick i j lt = elim (Bool-cases ((nick <> show j) == (nick <> show i))) [
  | inr f ↦ f
  | inl t ↦
      let same : show j ≡ show i =
        append_cancel_left nick (show j) (show i)
          ((String_Eq.decides (nick <> show j) (nick <> show i)).0 t) in
      absurd (omega (arith, show_inj j i same))
]

names_of : List (String × InspUser) → List String
names_of [] = []
names_of ((uuid, user) ∷ users) = user.nick ∷ names_of users

length-names_of : (users : List (String × InspUser)) → length (names_of users) ≡ length users
unfolding names_of
length-names_of [] = refl
length-names_of ((uuid, user) ∷ users) = omega (arith, length-names_of users)

contains-names_of :
    (nick : String) (users : List (String × InspUser))
    → contains (names_of users) nick ≡ any (has_nick nick) users
unfolding names_of
contains-names_of nick [] = refl
contains-names_of nick ((uuid, user) ∷ users) =
    ap (λ b. (user.nick == nick) || b) (contains-names_of nick users)

-- The nick that a contact takes.
abbrev pub chosen : String → Option String → String
chosen nick none = nick
chosen nick (some n) = n

module _ {Message : Type 0} (s : InspLink Message) where
  -- `ms` holds every nick that exists and may still be tried.
  nick_exists-first_free :
      (fuel : ℕ) (nick : String) (idx : ℕ) (ms : List String)
      → ((j : ℕ)
          → idx ≤ j
          → nick_exists (nick <> show j) s ≡ true
          → contains ms (nick <> show j) ≡ true)
      → length ms < fuel
      → nick_exists (first_free fuel nick idx s) s ≡ false
  unfolding first_free
  nick_exists-first_free zero nick idx ms h lt = absurd (omega arith)
  nick_exists-first_free (suc fuel) nick idx ms h lt =
      elim (Bool-cases (nick_exists (nick <> show idx) s)) [
        | inr free ↦ rw free free
        | inl exists ↦ rw exists (
            nick_exists-first_free fuel nick (idx + 1) (keep (λ m. not (m == nick <> show idx)) ms)
              (λ j le e.
                contains-keep (nick <> show j) (nick <> show idx) ms
                  (candidate-ne nick idx j (omega arith)) (h j (omega arith) e))
              (omega (arith, length-keep-lt (nick <> show idx) ms (h idx (omega arith) exists))))
      ]

  known_names : List String
  known_names = s.cfg.admin_nick ∷ names_of s.users

  contains-known_names :
      (nick : String) → nick_exists nick s ≡ true → contains known_names nick ≡ true
  unfolding nick_exists known_names
  contains-known_names nick h = ground (
    arith,
    contains-names_of nick s.users,
    String_Eq.decides nick s.cfg.admin_nick,
    String_Eq.decides s.cfg.admin_nick nick,
  )

  length-known_names : length known_names < length s.users + 2
  unfolding known_names
  length-known_names = omega (arith, length-names_of s.users)

  -- The nick that the search for collisions settles on is neither the administrator's nor any user's:
  -- the loop finds one before it has tried as many as there are users.
  pub nick_exists-check_nick_for_collisions :
      (nick : String) → nick_exists (chosen nick (check_nick_for_collisions nick s)) s ≡ false
  unfolding check_nick_for_collisions
  nick_exists-check_nick_for_collisions nick = elim (Bool-cases (nick_exists nick s)) [
    | inr free ↦ rw free free
    | inl exists ↦ rw exists (
        nick_exists-first_free (length s.users + 2) nick 0 known_names
          (λ j le e. contains-known_names (nick <> show j) e) length-known_names)
  ]
