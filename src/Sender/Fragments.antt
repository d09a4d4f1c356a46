-- ===== src/Sender/Fragments.antt =====
-- src/sender_common.rs: what the fragments of a line are, and what they leave out.
use Prim.Native.Char.{len_utf8, len_utf8_def}
use Prim.Native.String.{slice}
use Prim.Native.String.len
use text.Mathlib.TextLemmas.{cons-append, nil-append, append_assoc, append-nil}
use text.Mathlib.TextPositions.{len-append, slice-append_middle, slice-append_right}
use sms_irc.Base.{
  ℕ, ◌+◌, ◌≤◌, ◌≡◌, refl, sym, ap, ◌∙◌, Char, String, len, true, false, List, [], ◌∷◌, arith, leb,
  if_intro, ◌<>◌, All, leb→le, leb-false→lt, push-append, subst,
}
use sms_irc.Sender.{message_max_len, fragments_from, fragments}

pub width_bounds : (c : Char) → (1 ≤ len_utf8 c) × (len_utf8 c ≤ 4)
width_bounds c = ground (arith, len_utf8_def c)

-- The fragments, one after another.
unfoldable pub sent_text : List String → String
sent_text [] = ""
sent_text (f ∷ fs) = f <> sent_text fs

slice-end : (line : String) → slice line (len line) (len line) ≡ ""
slice-end line =
    ap (λ k. slice line (len line) k) (omega arith)
    ∙ ap (λ s. slice s (len line) (len line + len "")) (sym (append-nil line))
    ∙ slice-append_right line ""

slice-tail : (gone t : String) → slice (gone <> t) (len gone) (len (gone <> t)) ≡ t
slice-tail gone t = rw (len-append gone t) (slice-append_right gone t)

pub len-cons : (c : Char) (s : String) → len (String.◌∷◌ c s) ≡ len_utf8 c + len s
len-cons c s = len.cons c s

-- Once the end of the line has been sent, what comes is empty.
pub fragments_from-empty :
    (line rest : String) (i : ℕ)
    → i + len rest ≡ len line
    → All (λ f. f ≡ "") (fragments_from line rest i (len line))
unfolding fragments_from
fragments_from-empty line String.[] i e = tt
fragments_from-empty line (String.◌∷◌ c rest) i e =
    let not_cut : leb (len line + message_max_len) i ≡ false = ground (arith, e) in
    let ends : leb (len line) (len line + message_max_len) ≡ true = ground arith in
    rw (not_cut, ends)
      (
        slice-end line,
        fragments_from-empty line rest (i + len_utf8 c) (omega (arith, e, len-cons c rest)),
      )

pub sent_text-empty : (fs : List String) → All (λ f. f ≡ "") fs → sent_text fs ≡ ""
unfolding sent_text
sent_text-empty [] h = refl
sent_text-empty (f ∷ fs) h = rw (h.0, sent_text-empty fs h.1)

All-empty-short : (fs : List String) → All (λ f. f ≡ "") fs → All (λ f. len f ≤ 353) fs
All-empty-short [] h = tt
All-empty-short (f ∷ fs) h = (rw (h.0) (omega arith), All-empty-short fs h.1)

-- The fragments are the text, in order, but for an end of at most 353 bytes that is lost, and none
-- is longer than that.
abbrev pub Covers : List String → String → Type 0
Covers fs text =
    (lost : String) × (sent_text fs <> lost ≡ text) × (len lost ≤ 353) × All (λ f. len f ≤ 353) fs

Covers-cons :
    (f t : String) (fs : List String) → len f ≤ 353 → Covers fs t → Covers (f ∷ fs) (f <> t)
unfolding sent_text
Covers-cons f t fs short (lost, eq, bound, sizes) =
    (lost, append_assoc f (sent_text fs) lost ∙ ap (λ x. f <> x) eq, bound, (short, sizes))

Covers-last :
    (f : String) (fs : List String) → len f ≤ 353 → All (λ f. f ≡ "") fs → Covers (f ∷ fs) f
Covers-last f fs short h =
    let nothing : Covers fs "" =
      ("", rw (sent_text-empty fs h) (nil-append ""), omega arith, All-empty-short fs h) in
    subst (Covers (f ∷ fs)) (append-nil f) (Covers-cons f "" fs short nothing)

cons-append_nil : (c : Char) (s : String) → String.◌∷◌ c String.[] <> s ≡ String.◌∷◌ c s
cons-append_nil c s = rw (cons-append c String.[] s, nil-append s)

slice-at :
    (line gone cur rest : String) (i last : ℕ)
    → line ≡ gone <> (cur <> rest)
    → last ≡ len gone
    → i ≡ last + len cur
    → slice line last i ≡ cur
slice-at line gone cur rest i last e el ei = rw (e, ei, el) (slice-append_middle gone cur rest)

slice-rest :
    (line gone t : String) (last : ℕ)
    → line ≡ gone <> t
    → last ≡ len gone
    → slice line last (len line) ≡ t
slice-rest line gone t last e el = rw (e, el) (slice-tail gone t)

len-line :
    (line gone cur rest : String)
    → line ≡ gone <> (cur <> rest)
    → len line ≡ len gone + (len cur + len rest)
len-line line gone cur rest e = rw (e, len-append gone (cur <> rest), len-append cur rest)

-- `gone` has been sent, and `cur` is the text since the last cut.
fragments_from-Covers :
    (line gone cur rest : String) (i last : ℕ)
    → line ≡ gone <> (cur <> rest)
    → last ≡ len gone
    → i ≡ last + len cur
    → len cur ≤ 353
    → Covers (fragments_from line rest i last) (cur <> rest)
unfolding fragments_from sent_text
fragments_from-Covers line gone cur String.[] i last e el ei short =
    (cur, nil-append cur ∙ sym (append-nil cur), short, tt)
fragments_from-Covers line gone cur (String.◌∷◌ c rest) i last e el ei short =
    if_intro (λ fs. Covers fs (cur <> (String.◌∷◌ c rest))) (leb (last + message_max_len) i)
      (slice line last i ∷ fragments_from line rest (i + len_utf8 c) i) _
      (λ cut. rw (slice-at line gone cur (String.◌∷◌ c rest) i last e el ei) (
        Covers-cons cur (String.◌∷◌ c rest) _ short (
          subst (Covers (fragments_from line rest (i + len_utf8 c) i)) (cons-append_nil c rest) (
            fragments_from-Covers line (gone <> cur) (String.◌∷◌ c String.[]) rest (i + len_utf8 c)
              i again (omega (arith, len-append gone cur, el)) (omega (arith, len_c))
              (omega (arith, len_c, width_bounds c))))))
      λ more.
        if_intro (λ fs. Covers fs (cur <> (String.◌∷◌ c rest)))
          (leb (len line) (last + message_max_len))
          (slice line last (len line) ∷ fragments_from line rest (i + len_utf8 c) (len line))
          (fragments_from line rest (i + len_utf8 c) last)
          (λ ends. rw (slice-rest line gone (cur <> (String.◌∷◌ c rest)) last e el) (
            Covers-last (cur <> (String.◌∷◌ c rest)) _
              (omega (arith, leb→le (len line) _ ends, total, len-append cur (String.◌∷◌ c rest)))
              (fragments_from-empty line rest (i + len_utf8 c)
                (omega (arith, total, len-cons c rest)))))
          λ goes.
            subst (Covers (fragments_from line rest (i + len_utf8 c) last)) (push-append cur rest c)
              (fragments_from-Covers line gone (cur <> (String.◌∷◌ c String.[])) rest
                (i + len_utf8 c) last (e ∙ ap (λ t. gone <> t) (sym (push-append cur rest c))) el
                (omega (arith, len-append cur (String.◌∷◌ c String.[]), len_c))
                (omega (
                  arith,
                  len-append cur (String.◌∷◌ c String.[]),
                  len_c,
                  width_bounds c,
                  leb-false→lt _ i more,
                )))
  where
    total : len line ≡ len gone + (len cur + len (String.◌∷◌ c rest))
    total = len-line line gone cur (String.◌∷◌ c rest) e

    len_c : len (String.◌∷◌ c String.[]) ≡ len_utf8 c
    len_c = len-cons c String.[] ∙ omega arith

    again : line ≡ (gone <> cur) <> (String.◌∷◌ c String.[] <> rest)
    again =
        e
        ∙ sym (append_assoc gone cur (String.◌∷◌ c rest))
        ∙ ap (λ t. (gone <> cur) <> t) (sym (cons-append_nil c rest))

-- The fragments of a line are the line in order, but for an end of at most 353 bytes that is lost;
-- none is longer than 353 bytes, three more than the limit, since a cut waits for a character's end.
pub fragments-Covers : (line : String) → Covers (fragments line) line
unfolding fragments
fragments-Covers line = subst (Covers (fragments_from line line 0 0)) (nil-append line) (
    fragments_from-Covers line "" "" line 0 0 (sym (nil-append ("" <> line) ∙ nil-append line)) refl
      (omega arith) (omega arith))
