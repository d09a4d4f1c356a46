-- ===== src/Util/Outbox.antt =====
-- src/util.rs, the macro sink_outbox: the messages of an outbox, given to a connection.
use mathlib.Core.List.{Perm}
use mathlib.Core.List.Perm
use mathlib.Core.List.{perm_middle}
use sms_irc.Base.{◌≡◌, Bool, true, false, List, [], ◌∷◌, ◌++◌, Result, ok, err, panic}

-- `result` is that of the macro's `?`s, and `kept` the outbox after it.
pub record Sunk (Message : Type 0) : Type 0 where
  pub result : Result (Unit {0})
  pub sent : List Message
  pub kept : List Message

abbrev pub replace {ℓ} : {A : Type ℓ} → Result (Unit {0}) → A → Result A
replace (ok u) a = ok a
replace (err e) a = err e
replace panic a = panic

module _ {Message : Type 0} where
  abbrev pub and_sent : Message → Sunk Message → Sunk Message
  and_sent m r = record r { sent = m ∷ r.sent }

  abbrev pub and_kept : Message → Sunk Message → Sunk Message
  and_kept m r = record r { kept = m ∷ r.kept }

  abbrev pub stopped : Result (Unit {0}) → Sunk Message
  stopped r = record { result = r; sent = []; kept = [] }

  -- `answers` is what `start_send` says to one message after another, whether it takes it; it takes
  -- none beyond their end. `flushed` is what `poll_complete` says. An error loses what is not tried.
  unfoldable pub sink : List Message → List (Result Bool) → Result (Unit {0}) → Sunk Message
  sink [] answers flushed = stopped flushed
  sink (m ∷ ms) [] flushed = and_kept m (sink ms [] flushed)
  sink (m ∷ ms) (ok true ∷ answers) flushed = and_sent m (sink ms answers flushed)
  sink (m ∷ ms) (ok false ∷ answers) flushed = and_kept m (sink ms answers flushed)
  sink (m ∷ ms) (err e ∷ answers) flushed = stopped (err e)
  sink (m ∷ ms) (panic ∷ answers) flushed = stopped panic

  -- Where nothing fails, what has been sent and what is kept is what was in the outbox, in some order.
  pub sink-flushed :
      (ms : List Message) (answers : List (Result Bool)) (flushed : Result (Unit {0}))
      → (sink ms answers flushed).result ≡ ok tt
      → Perm ((sink ms answers flushed).sent ++ (sink ms answers flushed).kept) ms
  unfolding sink
  sink-flushed [] answers flushed h = Perm.nil
  sink-flushed (m ∷ ms) [] flushed h =
      Perm.trans (perm_middle _ _) (Perm.cons m (sink-flushed ms [] flushed h))
  sink-flushed (m ∷ ms) (ok true ∷ answers) flushed h =
      Perm.cons m (sink-flushed ms answers flushed h)
  sink-flushed (m ∷ ms) (ok false ∷ answers) flushed h =
      Perm.trans (perm_middle _ _) (Perm.cons m (sink-flushed ms answers flushed h))
  sink-flushed (m ∷ ms) (err e ∷ answers) flushed h = cc
  sink-flushed (m ∷ ms) (panic ∷ answers) flushed h = cc
