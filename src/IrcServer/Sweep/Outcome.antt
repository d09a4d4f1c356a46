-- ===== src/IrcServer/Sweep/Outcome.antt =====
-- src/irc_s2c.rs: what the loops of IrcServer.poll leave in a vector, and that none makes an error.
use sms_irc.Base.{
  is_err, ◌≡◌, refl, ℕ, suc, Bool, true, false, List, [], ◌∷◌, Result, ok, err, panic, arith, All,
}
use sms_irc.IrcServer.Sweep.{visited, each, and_kept, swept, sweep}

-- Of a vector that a loop returns.
abbrev pub AllOf : {A : Type 0} → (A → Type 0) → Result (List A) → Type 0
AllOf P (ok xs) = All P xs
AllOf P _ = Unit

module _ {A S : Type 0} where
  -- Where no step is an error, nor are the loop and the removal.
  module _ (step : ℕ → A → S → Result Bool × A × S)
      (flawless : (i : ℕ) (x : A) (s : S) → is_err (step i x s).0 ≡ false) where
    visited-flawless :
        (rest : S → Result (List ℕ) × List A × S) (i : ℕ) (xs : List A) (v : Result Bool × A × S)
        → ((s : S) → is_err (rest s).0 ≡ false)
        → is_err v.0 ≡ false
        → is_err (visited rest i xs v).0 ≡ false
    visited-flawless rest i xs (ok false, x, s) h n = h s
    visited-flawless rest i xs (ok true, x, s) h n = ground (arith, h s)
    visited-flawless rest i xs (err e, x, s) h n = n
    visited-flawless rest i xs (panic, x, s) h n = refl

    pub each-flawless : (i : ℕ) (xs : List A) (s : S) → is_err (each step i xs s).0 ≡ false
    unfolding each
    each-flawless i [] s = refl
    each-flawless i (x ∷ xs) s =
        visited-flawless (each step (suc i) xs) i xs (step i x s) (each-flawless (suc i) xs)
          (flawless i x s)

    swept-flawless :
        (rest : S → Result (List A) × S) (v : Result Bool × A × S)
        → ((s : S) → is_err (rest s).0 ≡ false)
        → is_err v.0 ≡ false
        → is_err (swept rest v).0 ≡ false
    swept-flawless rest (ok true, x, s) h n = h s
    swept-flawless rest (ok false, x, s) h n = ground (arith, h s)
    swept-flawless rest (err e, x, s) h n = n
    swept-flawless rest (panic, x, s) h n = refl

    pub sweep-flawless : (i : ℕ) (xs : List A) (s : S) → is_err (sweep step i xs s).0 ≡ false
    unfolding sweep
    sweep-flawless i [] s = refl
    sweep-flawless i (x ∷ xs) s =
        swept-flawless (sweep step (suc i) xs) (step i x s) (sweep-flawless (suc i) xs)
          (flawless i x s)

  module _ (P : A → Type 0) (step : ℕ → A → S → Result Bool × A × S) where
    -- What a step leaves of an element, if it is not to be removed.
    abbrev pub Leaves : Result Bool × A × S → Type 0
    Leaves (ok closed, x, s) = P x
    Leaves _ = Unit

    swept-All :
        (rest : S → Result (List A) × S) (v : Result Bool × A × S)
        → ((s : S) → AllOf P (rest s).0)
        → Leaves v
        → AllOf P (swept rest v).0
    swept-All rest (ok true, x, s) h p = h s
    swept-All rest (ok false, x, s) h p = front (rest s) (h s)
      where
        front : (u : Result (List A) × S) → AllOf P u.0 → AllOf P (and_kept x u).0
        front (ok xs, st) q = (p, q)
        front (err e, st) q = tt
        front (panic, st) q = tt
    swept-All rest (err e, x, s) h p = tt
    swept-All rest (panic, x, s) h p = tt

    pub sweep-All :
        ((i : ℕ) (x : A) (s : S) → Leaves (step i x s))
        → (i : ℕ) (xs : List A) (s : S) → AllOf P (sweep step i xs s).0
    unfolding sweep
    sweep-All h i [] s = tt
    sweep-All h i (x ∷ xs) s =
        swept-All (sweep step (suc i) xs) (step i x s) (sweep-All h (suc i) xs) (h i x s)
