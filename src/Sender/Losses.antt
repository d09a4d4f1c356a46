-- ===== src/Sender/Losses.antt =====
-- src/sender_common.rs: lines that are sent whole, and lines that are not.
use Prim.Native.Char.{len_utf8}
use Prim.Native.String.{slice}
use text.Mathlib.TextLemmas.{cons-append, nil-append, append-nil}
use text.Mathlib.TextPositions.{len-append, slice-append_left, slice_all}
use sms_irc.Base.{
  ℕ, ◌+◌, ◌≤◌, ◌<◌, ◌≡◌, refl, ap, ◌∙◌, Char, String, len, true, false, List, [], ◌∷◌, arith, leb,
  ◌<>◌, All,
}
use sms_irc.Sender.{message_max_len, fragments_from, fragments}
use sms_irc.Sender.Fragments.{
  width_bounds, sent_text, len-cons, fragments_from-empty, sent_text-empty,
}

sent_text-cons-empty :
    (f : String) (fs : List String) → All (λ g. g ≡ "") fs → sent_text (f ∷ fs) ≡ f
unfolding sent_text
sent_text-cons-empty f fs h = rw (sent_text-empty fs h) (append-nil f)

-- A line within the limit is sent whole, and nothing else is.
pub fragments-short :
    (line : String) → len line ≤ message_max_len → sent_text (fragments line) ≡ line
unfolding fragments fragments_from sent_text
fragments-short String.[] h = refl
fragments-short (String.◌∷◌ c rest) h =
    let line : String = String.◌∷◌ c rest in
    let whole : leb (len line) (0 + message_max_len) ≡ true = ground (arith, h) in
    rw whole (
      sent_text-cons-empty _ _
        (fragments_from-empty line rest (0 + len_utf8 c) (omega (arith, len-cons c rest)))
      ∙ slice_all line)

fragments_from-step :
    (line : String) (c : Char) (rest : String) (i : ℕ)
    → i < message_max_len
    → message_max_len < len line
    → fragments_from line (String.◌∷◌ c rest) i 0 ≡ fragments_from line rest (i + len_utf8 c) 0
unfolding fragments_from
fragments_from-step line c rest i h long =
    let more : leb (0 + message_max_len) i ≡ false = ground (arith, h) in
    let goes : leb (len line) (0 + message_max_len) ≡ false = ground (arith, long) in
    rw (more, goes)

len-concat : (p : String) (c : Char) → len (p <> (String.◌∷◌ c String.[])) ≡ len p + len_utf8 c
len-concat p c = len-append p (String.◌∷◌ c String.[]) ∙ omega (arith, len-cons c String.[])

-- Nothing is sent while the scan is within the limit and the line is not.
fragments_from-skip :
    (line p : String) (c : Char) (i : ℕ)
    → i + len p ≤ message_max_len
    → message_max_len < len line
    → fragments_from line (p <> (String.◌∷◌ c String.[])) i 0
      ≡ fragments_from line (String.◌∷◌ c String.[]) (i + len p) 0
fragments_from-skip line String.[] c i h long =
    rw (nil-append (String.◌∷◌ c String.[]))
      (ap (λ j. fragments_from line (String.◌∷◌ c String.[]) j 0) (omega arith))
fragments_from-skip line (String.◌∷◌ d p) c i h long =
    rw (cons-append d p (String.◌∷◌ c String.[])) (
      fragments_from-step line d (p <> (String.◌∷◌ c String.[])) i
        (omega (arith, len-cons d p, width_bounds d)) long
      ∙ fragments_from-skip line p c (i + len_utf8 d) (omega (arith, len-cons d p)) long
      ∙ ap (λ j. fragments_from line (String.◌∷◌ c String.[]) j 0) (omega (arith, len-cons d p)))

fragments_from-last :
    (line : String) (c : Char) (i : ℕ)
    → message_max_len ≤ i
    → fragments_from line (String.◌∷◌ c String.[]) i 0 ≡ slice line 0 i ∷ []
unfolding fragments_from
fragments_from-last line c i h =
    let cut : leb (0 + message_max_len) i ≡ true = ground (arith, h) in rw cut

-- The end of a line of more than 350 bytes is lost with its last character, where that begins at
-- byte 350: a line of 351 ASCII characters arrives without the last one.
pub fragments-loses_last :
    (p : String) (c : Char)
    → len p ≡ message_max_len
    → fragments (p <> (String.◌∷◌ c String.[])) ≡ p ∷ []
unfolding fragments
fragments-loses_last p c h =
    let line : String = p <> (String.◌∷◌ c String.[]) in
    fragments_from-skip line p c 0 (omega (arith, h))
      (omega (arith, h, len-concat p c, width_bounds c))
    ∙ fragments_from-last line c (0 + len p) (omega (arith, h))
    ∙ ap (λ k. slice line 0 k ∷ []) (omega arith)
    ∙ ap (λ f. f ∷ []) (slice-append_left p (String.◌∷◌ c String.[]))

-- A line whose last character begins within the first 350 bytes and ends past them is not sent at
-- all: 349 ASCII characters and one of two bytes are lost together.
pub fragments-loses_all :
    (p : String) (c : Char)
    → len p < message_max_len
    → message_max_len < len p + len_utf8 c
    → fragments (p <> (String.◌∷◌ c String.[])) ≡ []
unfolding fragments fragments_from
fragments-loses_all p c h long =
    let line : String = p <> (String.◌∷◌ c String.[]) in
    fragments_from-skip line p c 0 (omega arith) (omega (arith, long, len-concat p c))
    ∙ fragments_from-step line c String.[] (0 + len p) (omega arith)
        (omega (arith, long, len-concat p c))
