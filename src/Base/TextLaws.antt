-- ===== src/Base/TextLaws.antt =====
-- Splitting and joining texts.
use Prim.Native.String.{String, len, ◌∷◌, []}
use Prim.Native.Nat.{◌≤◌}
use Prim.Native.Char.{Char}
use mathlib.Core.Path.{◌≡◌, ap, ◌∙◌}
use mathlib.Core.Bool.{false}
use mathlib.Core.Logic.{inl, inr}
use mathlib.Core.List.{List}
use std.HLevel.{hedberg}
use text.Mathlib.Text.{◌==◌ as text_eq}
use text.Mathlib.TextEquality.{eq_iff}
use native.Mathlib.Omega.{arith}
use text.Mathlib.TextLemmas.{cons-append, nil-append, append_assoc, append-nil}
use text.Mathlib.TextPositions.{len-append}
use sms_irc.Base.Lists.{All}
use sms_irc.Base.Tests.{Bool-cases}
use sms_irc.Base.Text.{◌<>◌, char_eq, split, split_from, join, AllChars}

-- A word has no space in it.
abbrev pub IsWord : String → Type 0
IsWord s = AllChars (λ c. char_eq c " " ≡ false) s

pub push-append : (s t : String) (c : Char) → (s <> (c ∷ [])) <> t ≡ s <> (c ∷ t)
push-append s t c =
    append_assoc s (c ∷ []) t
    ∙ ap (λ x. s <> x) (cons-append c [] t ∙ ap (λ x. c ∷ x) (nil-append t))

split_from-word : (cur w : String) → IsWord w → split_from " " cur w ≡ List.◌∷◌ (cur <> w) List.[]
unfolding split_from
split_from-word cur [] h = rw (append-nil cur)
split_from-word cur (c ∷ w) h =
    rw (h.0)
      (split_from-word (cur <> (c ∷ [])) w h.1 ∙ ap (λ x. List.◌∷◌ x List.[]) (push-append cur w c))

split_from-space :
    (cur w rest : String)
    → IsWord w
    → split_from " " cur (w <> " " <> rest) ≡ List.◌∷◌ (cur <> w) (split_from " " [] rest)
unfolding split_from
split_from-space cur [] rest h =
    rw (nil-append (" " <> rest), cons-append " " [] rest, nil-append rest, append-nil cur)
split_from-space cur (c ∷ w) rest h =
    rw (cons-append c w (" " <> rest), h.0)
      (split_from-space (cur <> (c ∷ [])) w rest h.1
        ∙ ap (λ x. List.◌∷◌ x (split_from " " [] rest)) (push-append cur w c))

-- Words joined by spaces split into the same words.
pub split-join :
    (w : String) (ws : List String)
    → All IsWord (List.◌∷◌ w ws)
    → split " " (join " " (List.◌∷◌ w ws)) ≡ List.◌∷◌ w ws
unfolding split join
split-join w List.[] h = rw (split_from-word "" w h.0, nil-append w)
split-join w (List.◌∷◌ v ws) h =
    rw (split_from-space "" w (join " " (List.◌∷◌ v ws)) h.0, nil-append w)
      (ap (λ x. List.◌∷◌ w x) (split-join v ws h.1))

pub len-le-join : (w : String) (ws : List String) → len w ≤ len (join " " (List.◌∷◌ w ws))
unfolding join
len-le-join w List.[] = omega arith
len-le-join w (List.◌∷◌ v ws) = omega (arith, len-append w (" " <> join " " (List.◌∷◌ v ws)))

String-discrete : Discrete String
String-discrete s t = elim (Bool-cases (text_eq s t)) [
  | inl e ↦ yes ((eq_iff s t).0 e)
  | inr n ↦ no (λ e. ground (arith, n, (eq_iff s t).1 e))
]

pub String-set : IsSet String
String-set = hedberg String-discrete
