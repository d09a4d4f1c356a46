-- ===== src/Base/Outcome.antt =====
-- Results, and state with failure. A Rust method `fn f(&mut self) -> Result<A>` keeps what it has
-- written to `self` when it returns an error, so a computation returns the state on every branch.
use mathlib.Core.List.{List, [], ◌∷◌}
use Prim.Native.String.{String}
use mathlib.Core.Path.{◌≡◌, refl}
use mathlib.Core.Bool.{Bool, true, false}
use native.Mathlib.Omega.{arith}
use sms_irc.Base.Lists.{All}

-- `panic` is a failed `unwrap`, `expect` or index: it unwinds through `?` and through handlers of `Err`.
pub data Result {ℓ} (A : Type ℓ) : Type ℓ where
  ok : A → Result A
  err : String → Result A
  panic : Result A

abbrev pub M : Type 0 → Type 0 → Type 0
M S A = S → Result A × S

abbrev pub continue : {S A B : Type 0} → (A → M S B) → Result A × S → Result B × S
continue f (ok a, s) = f a s
continue f (err e, s) = (err e, s)
continue f (panic, s) = (panic, s)

infixl 5 ◌>>=◌ ◌>>◌
abbrev pub ◌>>=◌ : {S A B : Type 0} → M S A → (A → M S B) → M S B
◌>>=◌ m f s = continue f (m s)

abbrev pub ◌>>◌ : {S A B : Type 0} → M S A → M S B → M S B
◌>>◌ m k s = continue (λ _. k) (m s)

abbrev pub pure : {S A : Type 0} → A → M S A
pure a s = (ok a, s)

abbrev pub done : {S : Type 0} → M S (Unit {0})
done s = (ok tt, s)

abbrev pub fail : {S A : Type 0} → String → M S A
fail e s = (err e, s)

abbrev pub panics : {S A : Type 0} → M S A
panics s = (panic, s)

abbrev pub gets : {S A : Type 0} → (S → A) → M S A
gets f s = (ok (f s), s)

abbrev pub modify : {S : Type 0} → (S → S) → M S (Unit {0})
modify f s = (ok tt, f s)

-- `for x in xs { body(x)?; }`
abbrev pub for_each : {S A : Type 0} → List A → (A → M S (Unit {0})) → M S (Unit {0})
for_each [] body = done
for_each (x ∷ xs) body = body x >>= λ _. for_each xs body

abbrev pub is_panic {ℓ} : {A : Type ℓ} → Result A → Bool
is_panic panic = true
is_panic _ = false

abbrev pub is_ok {ℓ} : {A : Type ℓ} → Result A → Bool
is_ok (ok a) = true
is_ok _ = false

abbrev pub is_err {ℓ} : {A : Type ℓ} → Result A → Bool
is_err (err e) = true
is_err _ = false

-- From a state in which `P` holds, the computation does not panic, and `P` holds after it on every
-- branch, errors included.
abbrev pub Safe {ℓ} : {S A : Type 0} → (S → Type ℓ) → M S A → Type ℓ
Safe P m = (s : _) → P s → P (m s).1 × (is_panic (m s).0 ≡ false)

module _ {ℓ} {S : Type 0} (P : S → Type ℓ) where
  continue-Safe :
      {A B : Type 0} (f : A → M S B) (r : Result A × S)
      → ((a : A) → Safe P (f a))
      → P r.1
      → is_panic r.0 ≡ false
      → P (continue f r).1 × (is_panic (continue f r).0 ≡ false)
  continue-Safe f (ok a, s) h p n = h a s p
  continue-Safe f (err e, s) h p n = (p, refl)
  continue-Safe f (panic, s) h p n = ground arith

  pub bind-Safe :
      {A B : Type 0} (m : M S A) (f : A → M S B)
      → Safe P m
      → ((a : A) → Safe P (f a))
      → Safe P (m >>= f)
  bind-Safe m f hm hf s p = continue-Safe f (m s) hf (hm s p).0 (hm s p).1

  pub for_each-Safe :
      {A : Type 0} (body : A → M S (Unit {0})) (Q : A → Type 0)
      → ((a : A) → Q a → Safe P (body a))
      → (xs : List A) → All Q xs
      → Safe P (for_each xs body)
  for_each-Safe body Q h [] q s p = (p, refl)
  for_each-Safe body Q h (x ∷ xs) q s p =
      bind-Safe (body x) (λ _. for_each xs body) (h x q.0) (λ _. for_each-Safe body Q h xs q.1) s p

-- Where `P` holds before the computation it holds after it, on every branch; it may panic.
abbrev pub Keeps {ℓ} : {S A : Type 0} → (S → Type ℓ) → M S A → Type ℓ
Keeps P m = (s : _) → P s → P (m s).1

module _ {ℓ} {S : Type 0} (P : S → Type ℓ) where
  continue-Keeps :
      {A B : Type 0} (f : A → M S B) (r : Result A × S)
      → ((a : A) → Keeps P (f a))
      → P r.1
      → P (continue f r).1
  continue-Keeps f (ok a, s) h p = h a s p
  continue-Keeps f (err e, s) h p = p
  continue-Keeps f (panic, s) h p = p

  pub bind-Keeps :
      {A B : Type 0} (m : M S A) (f : A → M S B)
      → Keeps P m
      → ((a : A) → Keeps P (f a))
      → Keeps P (m >>= f)
  bind-Keeps m f hm hf s p = continue-Keeps f (m s) hf (hm s p)

  pub seq-Keeps : {A B : Type 0} (m : M S A) (k : M S B) → Keeps P m → Keeps P k → Keeps P (m >> k)
  seq-Keeps m k hm hk = bind-Keeps m (λ _. k) hm (λ _. hk)

  pub for_each-Keeps :
      {A : Type 0} (body : A → M S (Unit {0}))
      → ((a : A) → Keeps P (body a))
      → (xs : List A) → Keeps P (for_each xs body)
  for_each-Keeps body h [] s p = p
  for_each-Keeps body h (x ∷ xs) s p =
      bind-Keeps (body x) (λ _. for_each xs body) (h x) (λ _. for_each-Keeps body h xs) s p

-- The computation returns or panics, but gives no error.
abbrev pub Flawless : {S A : Type 0} → M S A → Type 0
Flawless m = (s : _) → is_err (m s).0 ≡ false

module _ {S : Type 0} where
  continue-Flawless :
      {A B : Type 0} (f : A → M S B) (r : Result A × S)
      → ((a : A) → Flawless (f a))
      → is_err r.0 ≡ false
      → is_err (continue f r).0 ≡ false
  continue-Flawless f (ok a, s) h n = h a s
  continue-Flawless f (err e, s) h n = ground arith
  continue-Flawless f (panic, s) h n = refl

  pub seq-Flawless :
      {A B : Type 0} (m : M S A) (k : M S B) → Flawless m → Flawless k → Flawless (m >> k)
  seq-Flawless m k hm hk s = continue-Flawless (λ _. k) (m s) (λ _. hk) (hm s)

  pub for_each-Flawless :
      {A : Type 0} (body : A → M S (Unit {0})) (Q : A → Type 0)
      → ((a : A) → Q a → Flawless (body a))
      → (xs : List A) → All Q xs
      → Flawless (for_each xs body)
  for_each-Flawless body Q h [] q s = refl
  for_each-Flawless body Q h (x ∷ xs) q s =
      seq-Flawless (body x) (for_each xs body) (h x q.0) (for_each-Flawless body Q h xs q.1) s

  -- What the last step of a chain that succeeds ensures holds after the chain.
  pub seq_ensures :
      {A B : Type 0} (P : S → Type 0) (m : M S A) (k : M S B)
      → ((s : S) → is_ok (k s).0 ≡ true → P (k s).1)
      → (s : S) → is_ok ((m >> k) s).0 ≡ true
      → P ((m >> k) s).1
  seq_ensures {A = A} {B = B} P m k h s = from (m s)
    where
      from : (r : Result A × S) → is_ok (continue (λ _. k) r).0 ≡ true → P (continue (λ _. k) r).1
      from (ok a, st) n = h st n
      from (err e, st) n = ground arith
      from (panic, st) n = ground arith
