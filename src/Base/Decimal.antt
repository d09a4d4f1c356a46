-- ===== src/Base/Decimal.antt =====
-- Rust's decimal printing of an `i64`, and its `str::parse::<i64>`.
use Prim.Native.Nat.{ℕ, zero, suc, ◌+◌, ◌*◌, ◌-◌, ◌/◌, ◌%◌, ◌^◌, ◌≤◌, ◌<◌}
use Prim.Native.Char.{code, len_utf8_def}
use Prim.Native.String.{String, len, [], ◌∷◌}
use Prim.Native.String.len
use text.Mathlib.TextPositions.{len-append}
use mathlib.Core.Path.{◌≡◌, refl, sym, ap, ◌∙◌}
use mathlib.Core.Bool.{false}
use mathlib.Core.Logic.{inl, inr}
use native.Mathlib.Omega.{arith}
use text.Mathlib.TextLemmas.{cons-append, nil-append, append-nil}
use sms_irc.Base.Tests.{if◌then◌else◌, leb, ltb, Bool-cases, if_intro}
use sms_irc.Base.Text.{◌<>◌, char_eq, is_ascii_digit, digit, show, show_fuel}
use sms_irc.Base.TextLaws.{push-append}
use sms_irc.Base.Int.{ℤ, pos, negsuc}
use sms_irc.Base.Outcome.{Result, ok, err, panic, is_panic}

-- The digits after `acc`, of a number that is `limit` at most.
unfoldable pub parse_digits : ℕ → ℕ → String → Result ℕ
parse_digits limit acc [] = ok acc
parse_digits limit acc (c ∷ s) =
    let next = acc * 10 + (code c - b'0') in
    let rest = parse_digits limit next s in
    if is_ascii_digit c
    then (if leb next limit then rest else err "number out of range")
    else err "invalid digit found in string"

unfoldable pub parse_unsigned : ℕ → String → Result ℕ
unfolding parse_digits
parse_unsigned limit [] = err "invalid digit found in string"
parse_unsigned limit (c ∷ s) = parse_digits limit 0 (c ∷ s)

abbrev pub negated : Result ℕ → Result ℤ
negated (ok zero) = ok (pos 0)
negated (ok (suc n)) = ok (negsuc n)
negated (err e) = err e
negated panic = panic

abbrev pub positive : Result ℕ → Result ℤ
positive (ok n) = ok (pos n)
positive (err e) = err e
positive panic = panic

unfoldable pub parse_i64 : String → Result ℤ
unfolding parse_unsigned
parse_i64 [] = err "cannot parse integer from empty string"
parse_i64 (c ∷ s) =
    if char_eq c "-"
    then negated (parse_unsigned (2 ^ 63) s)
    else if char_eq c "+"
    then positive (parse_unsigned (2 ^ 63 - 1) s)
    else positive (parse_unsigned (2 ^ 63 - 1) (c ∷ s))

unfoldable pub show_i64 : ℤ → String
show_i64 (pos n) = show n
show_i64 (negsuc n) = "-" <> show (suc n)

abbrev pub IsI64 : ℤ → Type 0
IsI64 (pos n) = n < 2 ^ 63
IsI64 (negsuc n) = n < 2 ^ 63

code-digit : (n : ℕ) → code (digit n) ≡ n % 10 + b'0'
unfolding digit
code-digit n = ground arith

pub parse_digits-digit :
    (limit acc n : ℕ) (t : String)
    → acc * 10 + n % 10 ≤ limit
    → parse_digits limit acc (digit n ∷ t) ≡ parse_digits limit (acc * 10 + n % 10) t
unfolding parse_digits
parse_digits-digit limit acc n t h = ground (arith, code-digit n)

parse_digits-show_fuel :
    (f n limit : ℕ) (t : String)
    → n < f
    → n ≤ limit
    → parse_digits limit 0 (show_fuel f n <> t) ≡ parse_digits limit n t
unfolding show_fuel
parse_digits-show_fuel zero n limit t h le = absurd (omega arith)
parse_digits-show_fuel (suc f) n limit t h le = elim (Bool-cases (ltb n 10)) [
  | inl small ↦
      rw (small, cons-append (digit n) [] t, nil-append t)
        (parse_digits-digit limit 0 n t (ground arith)
          ∙ ap (λ k. parse_digits limit k t) (ground arith))
  | inr big ↦
      rw (big, push-append (show_fuel f (n / 10)) t (digit n))
        (parse_digits-show_fuel f (n / 10) limit (digit n ∷ t) (ground arith) (ground arith)
          ∙ parse_digits-digit limit (n / 10) n t (ground arith)
          ∙ ap (λ k. parse_digits limit k t) (ground arith))
]

pub parse_digits-zero :
    (limit : ℕ) (s : String) → parse_digits limit 0 ("0" <> s) ≡ parse_digits limit 0 s
unfolding parse_digits
parse_digits-zero limit s =
    ap (parse_digits limit 0) (cons-append "0" [] s ∙ ap (λ t. "0" ∷ t) (nil-append s))
    ∙ ground arith

pub parse_digits-nil : (limit n : ℕ) → parse_digits limit n [] ≡ ok n
unfolding parse_digits
parse_digits-nil limit n = refl

-- Printed digits are read again, whatever follows.
pub parse_digits-show :
    (n limit : ℕ) (t : String)
    → n ≤ limit
    → parse_digits limit 0 (show n <> t) ≡ parse_digits limit n t
unfolding show
parse_digits-show n limit t h = parse_digits-show_fuel (suc n) n limit t (omega arith) h

show_fuel-head : (f n : ℕ) → n < f → (m : ℕ) × (t : String) × (show_fuel f n ≡ (digit m ∷ t))
unfolding show_fuel
show_fuel-head zero n h = absurd (omega arith)
show_fuel-head (suc f) n h = elim (Bool-cases (ltb n 10)) [
  | inl small ↦ (n, [], rw small)
  | inr big ↦
      let (m, t, e) = show_fuel-head f (n / 10) (ground arith) in
      (m, t <> (digit n ∷ []), rw (big, e) (cons-append (digit m) t (digit n ∷ [])))
]

pub show-head : (n : ℕ) → (m : ℕ) × (t : String) × (show n ≡ (digit m ∷ t))
unfolding show
show-head n = show_fuel-head (suc n) n (omega arith)

parse_unsigned-show : (n limit : ℕ) → n ≤ limit → parse_unsigned limit (show n) ≡ ok n
unfolding parse_unsigned
parse_unsigned-show n limit h =
    let (m, t, e) = show-head n in
    let read : parse_digits limit 0 (show n) ≡ ok n =
      rw (← append-nil (show n)) (parse_digits-show n limit [] h ∙ parse_digits-nil limit n) in
    rw e (rw e at read)

parse_i64-digit :
    (m n : ℕ) (t s : String)
    → s ≡ (digit m ∷ t)
    → parse_unsigned (2 ^ 63 - 1) s ≡ ok n
    → parse_i64 s ≡ ok (pos n)
unfolding parse_i64
parse_i64-digit m n t s e h = rw e (ground (arith, code-digit m, rw e at h))

-- What is printed of a number is read as that number.
pub parse_i64-show_i64 : (z : ℤ) → IsI64 z → parse_i64 (show_i64 z) ≡ ok z
unfolding parse_i64 show_i64
parse_i64-show_i64 (pos n) h =
    let (m, t, e) = show-head n in
    parse_i64-digit m n t (show n) e (parse_unsigned-show n (2 ^ 63 - 1) (omega arith))
parse_i64-show_i64 (negsuc n) h =
    rw
      (
        cons-append "-" [] (show (suc n)),
        nil-append (show (suc n)),
        parse_unsigned-show (suc n) (2 ^ 63) (omega arith),
      )
      refl

ok_inj : {m n : ℕ} → ok m ≡ ok n → m ≡ n
ok_inj h = cc

pub show_inj : (m n : ℕ) → show m ≡ show n → m ≡ n
show_inj m n h = ok_inj (
    sym (parse_unsigned-show m (m + n) (omega arith))
    ∙ ap (parse_unsigned (m + n)) h
    ∙ parse_unsigned-show n (m + n) (omega arith))

parse_digits-calm : (limit acc : ℕ) (s : String) → is_panic (parse_digits limit acc s) ≡ false
unfolding parse_digits
parse_digits-calm limit acc [] = refl
parse_digits-calm limit acc (c ∷ s) =
    ground (arith, parse_digits-calm limit (acc * 10 + (code c - b'0')) s)

parse_unsigned-calm : (limit : ℕ) (s : String) → is_panic (parse_unsigned limit s) ≡ false
unfolding parse_unsigned
parse_unsigned-calm limit [] = refl
parse_unsigned-calm limit (c ∷ s) = parse_digits-calm limit 0 (c ∷ s)

negated-calm : (r : Result ℕ) → is_panic r ≡ false → is_panic (negated r) ≡ false
negated-calm (ok zero) h = refl
negated-calm (ok (suc n)) h = refl
negated-calm (err e) h = refl
negated-calm panic h = cc

positive-calm : (r : Result ℕ) → is_panic r ≡ false → is_panic (positive r) ≡ false
positive-calm (ok n) h = refl
positive-calm (err e) h = refl
positive-calm panic h = cc

-- Reading a number does not panic.
pub parse_i64-calm : (s : String) → is_panic (parse_i64 s) ≡ false
unfolding parse_i64
parse_i64-calm [] = refl
parse_i64-calm (c ∷ s) =
    let Calm : Result ℤ → Type 0 = λ r. is_panic r ≡ false in
    if_intro Calm (char_eq c "-") _ _ (λ t. negated-calm _ (parse_unsigned-calm (2 ^ 63) s))
      (λ f.
        if_intro Calm (char_eq c "+") _ _
          (λ t. positive-calm _ (parse_unsigned-calm (2 ^ 63 - 1) s))
          (λ g. positive-calm _ (parse_unsigned-calm (2 ^ 63 - 1) (c ∷ s))))

len-digit : (n : ℕ) → len (digit n ∷ []) ≡ 1
unfolding digit
len-digit n = ground (arith, len.cons (digit n) [], len_utf8_def (digit n))

-- Numbers below `bound` have at most `k` digits.
abbrev Digits : ℕ → ℕ → Type 0
Digits k bound = (f n : ℕ) → n < f → n < bound → len (show_fuel f n) ≤ k

Digits-step : (k bound : ℕ) → Digits k bound → Digits (k + 1) (10 * bound)
unfolding show_fuel
Digits-step k bound prev zero n h b = absurd (omega arith)
Digits-step k bound prev (suc f) n h b = elim (Bool-cases (ltb n 10)) [
  | inl small ↦ rw small (omega (arith, len-digit n))
  | inr big ↦
      rw (big, len-append (show_fuel f (n / 10)) (digit n ∷ []), len-digit n)
        (omega (arith, prev f (n / 10) (ground arith) (omega arith)))
]

Digits-one : Digits 1 10
unfolding show_fuel
Digits-one zero n h b = absurd (omega arith)
Digits-one (suc f) n h b = elim (Bool-cases (ltb n 10)) [
  | inl small ↦ rw small (omega (arith, len-digit n))
  | inr big ↦ absurd (ground arith)
]

Digits-five : Digits 5 100000
Digits-five =
    Digits-step 4 10000 (Digits-step 3 1000 (Digits-step 2 100 (Digits-step 1 10 Digits-one)))

pub len-show : (n : ℕ) → n < 100000 → len (show n) ≤ 5
unfolding show
len-show n h = Digits-five (suc n) n (omega arith) h
