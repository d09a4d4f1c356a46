-- ===== src/IrcServer/Sweep.antt =====
-- src/irc_s2c.rs: the loops of IrcServer.poll over a vector, which collect the indices of what is to be
-- removed, and the removal that follows.
pub mod Once
pub mod Outcome
use sms_irc.Base.{
  is_err, ◌≡◌, refl, ◌∙◌, sym, ap, subst, ℕ, zero, suc, Bool, true, false, List, [], ◌∷◌, ◌++◌,
  Result, ok, err, panic, arith, length, length-append,
}
use mathlib.Core.List.{append_assoc}

abbrev pub noted : Bool → ℕ → Result (List ℕ) → Result (List ℕ)
noted true i (ok is) = ok (i ∷ is)
noted true i (err e) = err e
noted true i panic = panic
noted false i r = r

module _ {A : Type 0} where
  abbrev pub and_front : A → Result (List A) → Result (List A)
  and_front x (ok xs) = ok (x ∷ xs)
  and_front x (err e) = err e
  and_front x panic = panic

  -- `Vec::remove`
  unfoldable pub remove_at : ℕ → List A → Result (List A)
  remove_at i [] = panic
  remove_at zero (x ∷ xs) = ok xs
  remove_at (suc i) (x ∷ xs) = and_front x (remove_at i xs)

  abbrev pub removed : ℕ → Result (List A) → Result (List A)
  removed i (ok xs) = remove_at i xs
  removed i (err e) = err e
  removed i panic = panic

  -- `while let Some(i) = to_remove.pop() { xs.remove(i); }`
  unfoldable pub remove_all : List ℕ → List A → Result (List A)
  remove_all [] xs = ok xs
  remove_all (i ∷ is) xs = removed i (remove_all is xs)

module _ {A S : Type 0} where
  abbrev pub and_visited :
      Bool → ℕ → A → Result (List ℕ) × List A × S → Result (List ℕ) × List A × S
  and_visited closed i x (r, xs, s) = (noted closed i r, x ∷ xs, s)

  abbrev pub visited :
      (S → Result (List ℕ) × List A × S)
      → ℕ
      → List A
      → Result Bool × A × S
      → Result (List ℕ) × List A × S
  visited rest i xs (ok closed, x, s) = and_visited closed i x (rest s)
  visited rest i xs (err e, x, s) = (err e, x ∷ xs, s)
  visited rest i xs (panic, x, s) = (panic, x ∷ xs, s)

  -- `for (i, x) in xs.iter_mut().enumerate()`: `step` answers whether `i` is put into `to_remove`.
  unfoldable pub each :
      (ℕ → A → S → Result Bool × A × S) → ℕ → List A → S → Result (List ℕ) × List A × S
  each step i [] s = (ok [], [], s)
  each step i (x ∷ xs) s = visited (each step (suc i) xs) i xs (step i x s)

  abbrev pub close : Result (List ℕ) × List A × S → Result (List A) × S
  close (ok is, xs, s) = (remove_all is xs, s)
  close (err e, xs, s) = (err e, s)
  close (panic, xs, s) = (panic, s)

  -- What the two loops are for: one pass that keeps what is not to be removed.
  abbrev pub and_kept : A → Result (List A) × S → Result (List A) × S
  and_kept x (r, s) = (and_front x r, s)

  abbrev pub swept : (S → Result (List A) × S) → Result Bool × A × S → Result (List A) × S
  swept rest (ok true, x, s) = rest s
  swept rest (ok false, x, s) = and_kept x (rest s)
  swept rest (err e, x, s) = (err e, s)
  swept rest (panic, x, s) = (panic, s)

  unfoldable pub sweep : (ℕ → A → S → Result Bool × A × S) → ℕ → List A → S → Result (List A) × S
  sweep step i [] s = (ok [], s)
  sweep step i (x ∷ xs) s = swept (sweep step (suc i) xs) (step i x s)
