-- ===== src/Base/Keys.antt =====
-- Lists whose elements have distinct keys, as a UNIQUE column has them.
use mathlib.Core.Path.{◌≡◌, refl}
use mathlib.Core.Bool.{Bool, false, ◌||◌}
use mathlib.Core.List.{List, [], ◌∷◌, ◌++◌, map}
use native.Mathlib.Omega.{arith}
use sms_irc.Base.Tests.{PartialEq, ◌==◌}
use sms_irc.Base.Lists.{any, keep}

pub any-append {ℓ} :
    {A : Type ℓ} (p : A → Bool) (xs ys : List A) → any p (xs ++ ys) ≡ (any p xs || any p ys)
any-append p [] ys = refl
any-append p (x ∷ xs) ys = ground (arith, any-append p xs ys)

pub any-keep {ℓ} :
    {A : Type ℓ} (p q : A → Bool) (xs : List A) → any p xs ≡ false → any p (keep q xs) ≡ false
any-keep p q [] h = refl
any-keep p q (x ∷ xs) h = ground (arith, any-keep p q xs)

module _ {ℓ κ} {A : Type ℓ} {K : Type κ} ⦃e : PartialEq K⦄ (key : A → K) where
  abbrev pub taken : K → List A → Bool
  taken k xs = any (λ x. key x == k) xs

  abbrev pub Distinct : List A → Type 0
  Distinct [] = Unit
  Distinct (x ∷ xs) = (taken (key x) xs ≡ false) × Distinct xs

  pub Distinct-keep : (q : A → Bool) (xs : List A) → Distinct xs → Distinct (keep q xs)
  Distinct-keep q [] d = tt
  Distinct-keep q (x ∷ xs) d =
      ground (arith, any-keep (λ (y : A). key y == key x) q xs, Distinct-keep q xs d.1)

  taken-map :
      (f : A → A)
      → ((a : A) → key (f a) ≡ key a)
      → (k : K) (xs : List A) → taken k (map f xs) ≡ taken k xs
  taken-map f h k [] = refl
  taken-map f h k (x ∷ xs) = rw (h x, taken-map f h k xs)

  -- Changes that leave the keys alone keep them distinct.
  pub Distinct-map :
      (f : A → A)
      → ((a : A) → key (f a) ≡ key a)
      → (xs : List A) → Distinct xs
      → Distinct (map f xs)
  Distinct-map f h [] d = tt
  Distinct-map f h (x ∷ xs) d = (rw (h x, taken-map f h (key x) xs) d.0, Distinct-map f h xs d.1)
