-- ===== src/Base/Dict.antt =====
-- Rust's HashMap, as an association list. Its order stands for the one that iteration would take.
use mathlib.Core.Path.{◌≡◌, refl}
use mathlib.Core.Bool.{Bool}
use mathlib.Core.List.{List, [], ◌∷◌}
use mathlib.Core.Logic.{inl, inr}
use mathlib.Core.Option.{Option, none, some}
use native.Mathlib.Omega.{arith}
use sms_irc.Base.Tests.{if◌then◌else◌, PartialEq, ◌==◌, Option-cases}

abbrev pub map_value {ℓ} : {V : Type ℓ} → (V → V) → Option V → Option V
map_value f none = none
map_value f (some v) = some (f v)

module _ {ℓ κ} {K : Type ℓ} {V : Type κ} ⦃e : PartialEq K⦄ where
  abbrev pub lookup : K → List (K × V) → Option V
  lookup k [] = none
  lookup k ((j, v) ∷ d) = if j == k then some v else lookup k d

  unfoldable pub insert : K → V → List (K × V) → List (K × V)
  insert k v [] = (k, v) ∷ []
  insert k v ((j, w) ∷ d) = if j == k then (k, v) ∷ d else (j, w) ∷ insert k v d

  -- `remove(k)`, where a key stands once at most
  unfoldable pub erase : K → List (K × V) → List (K × V)
  erase k [] = []
  erase k ((j, w) ∷ d) = let rest = erase k d in if j == k then rest else (j, w) ∷ rest

  -- `if let Some(v) = d.get_mut(k) { *v = f(v) }`
  unfoldable pub adjust : K → (V → V) → List (K × V) → List (K × V)
  adjust k f [] = []
  adjust k f ((j, w) ∷ d) = if j == k then (j, f w) ∷ d else (j, w) ∷ adjust k f d

  -- `retain(|k, _| p(k))`
  unfoldable pub keep_keys : (K → Bool) → List (K × V) → List (K × V)
  keep_keys p [] = []
  keep_keys p ((j, w) ∷ d) = let rest = keep_keys p d in if p j then (j, w) ∷ rest else rest

  pub lookup-insert :
      (k j : K) (v : V) (d : List (K × V))
      → lookup j (insert k v d) ≡ (if k == j then some v else lookup j d)
  unfolding insert
  lookup-insert k j v [] = refl
  lookup-insert k j v ((i, w) ∷ d) =
      ground (arith, e.decides i k, e.decides i j, e.decides k j, lookup-insert k j v d)

  pub lookup-erase :
      (k j : K) (d : List (K × V)) → lookup j (erase k d) ≡ (if k == j then none else lookup j d)
  unfolding erase
  lookup-erase k j [] = ground arith
  lookup-erase k j ((i, w) ∷ d) =
      ground (arith, e.decides i k, e.decides i j, e.decides k j, lookup-erase k j d)

  pub lookup-adjust :
      (k j : K) (f : V → V) (d : List (K × V))
      → lookup j (adjust k f d) ≡ (if k == j then map_value f (lookup j d) else lookup j d)
  unfolding adjust
  lookup-adjust k j f [] = ground arith
  lookup-adjust k j f ((i, w) ∷ d) =
      ground (arith, e.decides i k, e.decides i j, e.decides k j, lookup-adjust k j f d)

  pub lookup-keep_keys :
      (p : K → Bool) (j : K) (d : List (K × V))
      → lookup j (keep_keys p d) ≡ (if p j then lookup j d else none)
  unfolding keep_keys
  lookup-keep_keys p j [] = ground arith
  lookup-keep_keys p j ((i, w) ∷ d) = ground (arith, e.decides i j, lookup-keep_keys p j d)

  pub lookup-one : (k j : K) (v w : V) → lookup j ((k, v) ∷ []) ≡ some w → (k ≡ j) × (v ≡ w)
  lookup-one k j v w h = (ground (arith, e.decides k j), ground (arith, e.decides k j))

  abbrev pub NodupKeys : List (K × V) → Type κ
  NodupKeys [] = Unit
  NodupKeys ((k, v) ∷ d) = (lookup k d ≡ none) × NodupKeys d

  pub insert-NodupKeys : (k : K) (v : V) (d : List (K × V)) → NodupKeys d → NodupKeys (insert k v d)
  unfolding insert
  insert-NodupKeys k v [] u = (refl, tt)
  insert-NodupKeys k v ((j, w) ∷ d) u =
      ground
        (arith, e.decides j k, e.decides k j, lookup-insert k j v d, insert-NodupKeys k v d u.1)

  pub erase-NodupKeys : (k : K) (d : List (K × V)) → NodupKeys d → NodupKeys (erase k d)
  unfolding erase
  erase-NodupKeys k [] u = tt
  erase-NodupKeys k ((j, w) ∷ d) u = ground (arith, lookup-erase k j d, erase-NodupKeys k d u.1)

  -- What `f` leaves alone of a value is the same before and after, in both directions.
  module _ {B : Type κ} (g : V → B) (f : V → V) (same : (v : V) → g (f v) ≡ g v) (k j : K)
      (d : List (K × V)) where
    pub lookup-adjust_inv :
        (v' : V)
        → lookup j (adjust k f d) ≡ some v'
        → (v : V) × (lookup j d ≡ some v) × (g v' ≡ g v)
    lookup-adjust_inv v' h = elim (Option-cases (lookup j d)) [
      | inl missing ↦ absurd (ground (arith, lookup-adjust k j f d))
      | inr (v, held) ↦ (v, held, ground (arith, lookup-adjust k j f d, same v))
    ]

    pub lookup-adjust_back :
        (v : V)
        → lookup j d ≡ some v
        → (v' : V) × (lookup j (adjust k f d) ≡ some v') × (g v' ≡ g v)
    lookup-adjust_back v h = elim (Option-cases (lookup j (adjust k f d))) [
      | inl missing ↦ absurd (ground (arith, lookup-adjust k j f d))
      | inr (v', held) ↦ (v', held, ground (arith, lookup-adjust k j f d, same v))
    ]
