-- ===== src/IrcServer/Sweep/Once.antt =====
-- src/irc_s2c.rs: the loops that collect indices and then remove them, against one pass.
use sms_irc.Base.{
  ◌≡◌, refl, ◌∙◌, sym, ap, subst, ℕ, suc, Bool, true, false, List, [], ◌∷◌, ◌++◌, Result, ok, err,
  panic, arith, length, length-append,
}
use mathlib.Core.List.{append_assoc}
use sms_irc.IrcServer.Sweep.{
  and_visited, visited, each, and_front, remove_at, removed, remove_all, close, and_kept, swept,
  sweep,
}

module _ {A : Type 0} where
  snoc_append : (pre : List A) (x : A) (xs : List A) → (pre ++ x ∷ []) ++ xs ≡ pre ++ x ∷ xs
  snoc_append pre x xs = append_assoc pre (x ∷ []) xs

  remove_at-length :
      (pre : List A) (x : A) (xs : List A) → remove_at (length pre) (pre ++ x ∷ xs) ≡ ok (pre ++ xs)
  unfolding remove_at
  remove_at-length [] x xs = refl
  remove_at-length (y ∷ pre) x xs = ap (and_front y) (remove_at-length pre x xs)

module _ {A S : Type 0} where
  -- What stands in front of the entries that a loop has still to visit.
  abbrev before : List A → Result (List ℕ) × List A × S → Result (List ℕ) × List A × S
  before pre (r, xs, s) = (r, pre ++ xs, s)

  abbrev after : List A → Result (List A) × S → Result (List A) × S
  after pre (ok xs, s) = (ok (pre ++ xs), s)
  after pre (err e, s) = (err e, s)
  after pre (panic, s) = (panic, s)

  abbrev without : ℕ → Result (List A) × S → Result (List A) × S
  without i (r, s) = (removed i r, s)

  before-and_visited :
      (pre : List A) (x : A) (i : ℕ) (t : Result (List ℕ) × List A × S)
      → before pre (and_visited false i x t) ≡ before (pre ++ x ∷ []) t
  before-and_visited pre x i (r, xs, s) = ap (λ ys. (r, ys, s)) (sym (snoc_append pre x xs))

  after-and_kept :
      (pre : List A) (x : A) (u : Result (List A) × S)
      → after (pre ++ x ∷ []) u ≡ after pre (and_kept x u)
  after-and_kept pre x (ok xs, s) = ap (λ ys. (ok ys, s)) (snoc_append pre x xs)
  after-and_kept pre x (err e, s) = refl
  after-and_kept pre x (panic, s) = refl

  close-without :
      (pre : List A) (x : A) (i : ℕ) (t : Result (List ℕ) × List A × S)
      → close (before pre (and_visited true i x t)) ≡ without i (close (before (pre ++ x ∷ []) t))
  unfolding remove_all
  close-without pre x i (ok is, xs, s) =
      ap (λ ys. (removed i (remove_all is ys), s)) (sym (snoc_append pre x xs))
  close-without pre x i (err e, xs, s) = refl
  close-without pre x i (panic, xs, s) = refl

  without-after :
      (pre : List A) (x : A) (u : Result (List A) × S)
      → without (length pre) (after (pre ++ x ∷ []) u) ≡ after pre u
  without-after pre x (ok xs, s) =
      ap (λ r. (r, s))
        (ap (remove_at (length pre)) (snoc_append pre x xs) ∙ remove_at-length pre x xs)
  without-after pre x (err e, s) = refl
  without-after pre x (panic, s) = refl

  module _ (step : ℕ → A → S → Result Bool × A × S) where
    visited-swept :
        (pre : List A) (xs : List A) (v : Result Bool × A × S)
        → ((x : A) (s : S)
            → close (before (pre ++ x ∷ []) (each step (suc (length pre)) xs s))
              ≡ after (pre ++ x ∷ []) (sweep step (suc (length pre)) xs s))
        → close (before pre (visited (each step (suc (length pre)) xs) (length pre) xs v))
          ≡ after pre (swept (sweep step (suc (length pre)) xs) v)
    visited-swept pre xs (ok true, x, s) h =
        close-without pre x (length pre) (each step (suc (length pre)) xs s)
        ∙ ap (without (length pre)) (h x s)
        ∙ without-after pre x (sweep step (suc (length pre)) xs s)
    visited-swept pre xs (ok false, x, s) h =
        ap close (before-and_visited pre x (length pre) (each step (suc (length pre)) xs s))
        ∙ h x s
        ∙ after-and_kept pre x (sweep step (suc (length pre)) xs s)
    visited-swept pre xs (err e, x, s) h = refl
    visited-swept pre xs (panic, x, s) h = refl

    each-sweep :
        (pre xs : List A) (s : S)
        → close (before pre (each step (length pre) xs s))
          ≡ after pre (sweep step (length pre) xs s)
    unfolding each sweep remove_all
    each-sweep pre [] s = refl
    each-sweep pre (x ∷ xs) s = visited-swept pre xs (step (length pre) x s) λ y st.
        subst
          (λ n.
            close (before (pre ++ y ∷ []) (each step n xs st))
            ≡ after (pre ++ y ∷ []) (sweep step n xs st))
          (length-append pre (y ∷ []) ∙ omega arith) (each-sweep (pre ++ y ∷ []) xs st)

    after-none : (u : Result (List A) × S) → after [] u ≡ u
    after-none (ok xs, s) = refl
    after-none (err e, s) = refl
    after-none (panic, s) = refl

    pub close-sweep : (xs : List A) (s : S) → close (each step 0 xs s) ≡ sweep step 0 xs s
    close-sweep xs s = each-sweep [] xs s ∙ after-none (sweep step 0 xs s)
