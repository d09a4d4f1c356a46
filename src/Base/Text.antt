-- ===== src/Base/Text.antt =====
-- Texts: Rust's `str`, over the native String, whose lengths and positions count bytes as Rust's do.
use Prim.Native.Nat.{ℕ, zero, suc, ◌+◌, ◌/◌, ◌%◌, ◌≤◌}
use Prim.Native.Char.{Char, char, code, IsScalar}
use Prim.Native.String
use Prim.Native.String.{String, [], ◌∷◌}
use mathlib.Core.Bool.{Bool, true, ◌||◌, ◌&&◌}
use mathlib.Core.List.{List}
use native.Mathlib.Omega.{arith}
use native.Mathlib.Decide.{dec_le}
use mathlib.Core.Path.{◌≡◌, refl}
use sms_irc.Base.Tests.{if◌then◌else◌, if_intro, leb, ltb, nat_eq}

infixr 65 ◌<>◌
abbrev pub ◌<>◌ : String → String → String
s <> t = String.◌++◌ s t

abbrev pub char_eq : Char → Char → Bool
char_eq a b = nat_eq (code a) (code b)

abbrev pub in_range : ℕ → ℕ → Char → Bool
in_range lo hi c = leb lo (code c) && leb (code c) hi

abbrev pub is_ascii_alphabetic : Char → Bool
is_ascii_alphabetic c = in_range b'A' b'Z' c || in_range b'a' b'z' c

abbrev pub is_ascii_digit : Char → Bool
is_ascii_digit c = in_range b'0' b'9' c

abbrev pub is_ascii_alphanumeric : Char → Bool
is_ascii_alphanumeric c = is_ascii_alphabetic c || is_ascii_digit c

pub lower-IsScalar : (n : ℕ) → n ≤ b'Z' → IsScalar (n + 32)
lower-IsScalar n h = ground arith

-- `char::to_lowercase`, as far as a comparison with an ASCII text can tell: the capitals of ASCII,
-- and the Kelvin sign, the one other character whose lower case is a single ASCII letter.
abbrev lower_by : (c : Char) → Dec (code c ≤ b'Z') → Char
lower_by c (yes h) = if leb b'A' (code c) then char (code c + 32) (lower-IsScalar (code c) h) else c
lower_by c (no _) = if nat_eq (code c) 0x212A then "k" else c

unfoldable pub lower_char : Char → Char
unfolding dec_le
lower_char c = lower_by c (dec_le (code c) b'Z')

abbrev pub is_small : Char → Bool
is_small c = in_range b'a' b'z' c || is_ascii_digit c

lower_by-small :
    (c : Char) (d : Dec (code c ≤ b'Z'))
    → is_ascii_alphanumeric c ≡ true
    → is_small (lower_by c d) ≡ true
lower_by-small c (yes h) a =
    if_intro (λ x. is_small x ≡ true) (leb b'A' (code c)) _ c (λ t. ground arith)
      (λ f. ground arith)
lower_by-small c (no h) a =
    if_intro (λ x. is_small x ≡ true) (nat_eq (code c) 0x212A) "k" c (λ t. refl) (λ f. ground arith)

-- A letter or digit of ASCII becomes a small letter or a digit.
pub lower_char-small : (c : Char) → is_ascii_alphanumeric c ≡ true → is_small (lower_char c) ≡ true
unfolding lower_char
lower_char-small c a = lower_by-small c (dec_le (code c) b'Z') a

unfoldable pub to_lowercase : String → String
unfolding lower_char
to_lowercase [] = []
to_lowercase (c ∷ s) = lower_char c ∷ to_lowercase s

-- `split(sep)` for a one-character separator: the parts, the empty ones too.
unfoldable pub split_from : Char → String → String → List String
split_from sep cur [] = List.◌∷◌ cur List.[]
split_from sep cur (c ∷ s) =
    let closed = List.◌∷◌ cur (split_from sep [] s) in
    let longer = split_from sep (String.◌++◌ cur (c ∷ [])) s in
    if char_eq c sep then closed else longer

unfoldable pub split : Char → String → List String
unfolding split_from
split sep s = split_from sep [] s

-- `join(sep)`
unfoldable pub join : String → List String → String
join sep List.[] = ""
join sep (List.◌∷◌ s List.[]) = s
join sep (List.◌∷◌ s (List.◌∷◌ t rest)) = s <> sep <> join sep (List.◌∷◌ t rest)

pub digit-IsScalar : (n : ℕ) → IsScalar (n % 10 + b'0')
digit-IsScalar n = ground arith

-- The last decimal digit.
unfoldable pub digit : ℕ → Char
digit n = char (n % 10 + b'0') (digit-IsScalar n)

pub hex-IsScalar : (n : ℕ) → IsScalar (n % 16 + (if ltb (n % 16) 10 then b'0' else 55))
hex-IsScalar n = ground arith

-- The last digit in upper-case hexadecimal.
unfoldable pub hex_digit : ℕ → Char
hex_digit n = char (n % 16 + (if ltb (n % 16) 10 then b'0' else 55)) (hex-IsScalar n)

-- The fuel is more than the number of digits.
unfoldable pub show_fuel : ℕ → ℕ → String
show_fuel zero n = ""
show_fuel (suc f) n =
    let more = show_fuel f (n / 10) <> (digit n ∷ []) in if ltb n 10 then digit n ∷ [] else more

-- Decimal `to_string()` of an unsigned number.
unfoldable pub show : ℕ → String
unfolding show_fuel digit
show n = show_fuel (suc n) n

-- `chars().all(P)`
abbrev pub AllChars {ℓ} : (Char → Type ℓ) → String → Type ℓ
AllChars P [] = Unit
AllChars P (c ∷ s) = P c × AllChars P s

-- `\r` at the end of a line that `\n` ends.
strip_return : String → String
strip_return [] = []
strip_return (c ∷ []) = if char_eq c "\r" then [] else c ∷ []
strip_return (c ∷ (d ∷ s)) = c ∷ strip_return (d ∷ s)

lines_from : String → String → List String
lines_from [] [] = List.[]
lines_from (c ∷ cur) [] = List.◌∷◌ (c ∷ cur) List.[]
lines_from cur (c ∷ s) =
    let ended = List.◌∷◌ (strip_return cur) (lines_from [] s) in
    let longer = lines_from (String.◌++◌ cur (c ∷ [])) s in if char_eq c "\n" then ended else longer

-- `str::lines`
unfoldable pub lines : String → List String
unfolding lines_from strip_return
lines s = lines_from [] s
