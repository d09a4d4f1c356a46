-- ===== src/Modem/Inner.antt =====
-- src/modem.rs, ModemInner: the states that the modem goes through between polls.
use sms_irc.Base.{
  ◌≡◌, refl, ap, ◌∙◌, ℕ, suc, ◌≤◌, length, arith, String, Bool, true, false, ◌||◌, List, [], ◌∷◌,
  Option, none, some,
}
use sms_irc.Modem.{
  ModemInner, Answer, report_error, first_turn, leave_uninitialized, poll_inner, poll,
}

-- Attempts to open the modem that fail, each after its delay.
abbrev pub attempts : {Device : Type 0} → List String → List (Answer Device) → List (Answer Device)
attempts [] answers = answers
attempts (e ∷ es) answers = Answer.delay_ready ∷ Answer.init_failed e ∷ attempts es answers

abbrev pub is_uninitialized : {Device : Type 0} → ModemInner Device → Bool
is_uninitialized ModemInner.uninitialized = true
is_uninitialized _ = false

abbrev pub is_running : {Device : Type 0} → ModemInner Device → Bool
is_running (ModemInner.running modem) = true
is_running _ = false

le_step : {m n : ℕ} → m ≤ n → m ≤ suc n
le_step h = omega (arith, h)

leave_uninitialized-stopped :
    (Device : Type 0) (path : Option String)
    → (is_uninitialized (leave_uninitialized {Device = Device} path) ≡ false)
      × (is_running (leave_uninitialized {Device = Device} path) ≡ false)
leave_uninitialized-stopped Device none = (refl, refl)
leave_uninitialized-stopped Device (some p) = (refl, refl)

module _ {Device : Type 0} where
  -- A poll from `inner` has answered `fresh` and left `inner'`.
  abbrev pub Settles : ModemInner Device → Bool → ModemInner Device → Type 0
  Settles inner fresh inner' =
      (is_uninitialized inner' ≡ false) × (is_running inner' ≡ (fresh || is_running inner))

  module _ (modem_path : Option String) (delay_ms : ℕ) where
    poll_inner-Settles :
        (answers : List (Answer Device)) (inner : ModemInner Device)
        → is_uninitialized inner ≡ false
        → let r = poll_inner modem_path delay_ms answers inner in
          Settles inner r.0 r.1 × (length r.2 ≤ length answers)
    unfolding poll_inner
    poll_inner-Settles [] ModemInner.uninitialized h = ((h, refl), omega arith)
    poll_inner-Settles (Answer.delay_ready ∷ rest) ModemInner.uninitialized h =
        ((h, refl), omega arith)
    poll_inner-Settles (Answer.delay_failed e ∷ rest) ModemInner.uninitialized h =
        ((h, refl), omega arith)
    poll_inner-Settles (Answer.initialized m' ∷ rest) ModemInner.uninitialized h =
        ((h, refl), omega arith)
    poll_inner-Settles (Answer.init_failed e ∷ rest) ModemInner.uninitialized h =
        ((h, refl), omega arith)
    poll_inner-Settles (Answer.urc c ∷ rest) ModemInner.uninitialized h = ((h, refl), omega arith)
    poll_inner-Settles (Answer.urc_closed ∷ rest) ModemInner.uninitialized h =
        ((h, refl), omega arith)
    poll_inner-Settles [] ModemInner.disabled h = ((refl, refl), omega arith)
    poll_inner-Settles (Answer.delay_ready ∷ rest) ModemInner.disabled h =
        ((refl, refl), omega arith)
    poll_inner-Settles (Answer.delay_failed e ∷ rest) ModemInner.disabled h =
        ((refl, refl), omega arith)
    poll_inner-Settles (Answer.initialized m' ∷ rest) ModemInner.disabled h =
        ((refl, refl), omega arith)
    poll_inner-Settles (Answer.init_failed e ∷ rest) ModemInner.disabled h =
        ((refl, refl), omega arith)
    poll_inner-Settles (Answer.urc c ∷ rest) ModemInner.disabled h = ((refl, refl), omega arith)
    poll_inner-Settles (Answer.urc_closed ∷ rest) ModemInner.disabled h =
        ((refl, refl), omega arith)
    poll_inner-Settles [] (ModemInner.waiting d) h = ((refl, refl), omega arith)
    poll_inner-Settles (Answer.delay_ready ∷ rest) (ModemInner.waiting d) h =
        let stopped = leave_uninitialized-stopped Device modem_path in
        let later = poll_inner-Settles rest (leave_uninitialized modem_path) stopped.0 in
        (
          (
            later.0.0,
            later.0.1
                ∙ ap
                    (λ b.
                      (poll_inner modem_path delay_ms rest (leave_uninitialized modem_path)).0 || b)
                    stopped.1,
          ),
          le_step later.1,
        )
    poll_inner-Settles (Answer.delay_failed e ∷ rest) (ModemInner.waiting d) h =
        let later = poll_inner-Settles rest (ModemInner.waiting delay_ms) refl in
        (later.0, le_step later.1)
    poll_inner-Settles (Answer.initialized m' ∷ rest) (ModemInner.waiting d) h =
        ((refl, refl), omega arith)
    poll_inner-Settles (Answer.init_failed e ∷ rest) (ModemInner.waiting d) h =
        ((refl, refl), omega arith)
    poll_inner-Settles (Answer.urc c ∷ rest) (ModemInner.waiting d) h = ((refl, refl), omega arith)
    poll_inner-Settles (Answer.urc_closed ∷ rest) (ModemInner.waiting d) h =
        let later = poll_inner-Settles rest (ModemInner.waiting d) refl in
        (later.0, le_step later.1)
    poll_inner-Settles [] (ModemInner.initializing p) h = ((refl, refl), omega arith)
    poll_inner-Settles (Answer.delay_ready ∷ rest) (ModemInner.initializing p) h =
        ((refl, refl), omega arith)
    poll_inner-Settles (Answer.delay_failed e ∷ rest) (ModemInner.initializing p) h =
        ((refl, refl), omega arith)
    poll_inner-Settles (Answer.initialized m' ∷ rest) (ModemInner.initializing p) h =
        ((refl, refl), omega arith)
    poll_inner-Settles (Answer.init_failed e ∷ rest) (ModemInner.initializing p) h =
        let later = poll_inner-Settles rest (ModemInner.waiting delay_ms) refl in
        (later.0, le_step later.1)
    poll_inner-Settles (Answer.urc c ∷ rest) (ModemInner.initializing p) h =
        ((refl, refl), omega arith)
    poll_inner-Settles (Answer.urc_closed ∷ rest) (ModemInner.initializing p) h =
        let later = poll_inner-Settles rest (ModemInner.initializing p) refl in
        (later.0, le_step later.1)
    poll_inner-Settles [] (ModemInner.running m) h = ((refl, refl), omega arith)
    poll_inner-Settles (Answer.delay_ready ∷ rest) (ModemInner.running m) h =
        ((refl, refl), omega arith)
    poll_inner-Settles (Answer.delay_failed e ∷ rest) (ModemInner.running m) h =
        ((refl, refl), omega arith)
    poll_inner-Settles (Answer.initialized m' ∷ rest) (ModemInner.running m) h =
        ((refl, refl), omega arith)
    poll_inner-Settles (Answer.init_failed e ∷ rest) (ModemInner.running m) h =
        ((refl, refl), omega arith)
    poll_inner-Settles (Answer.urc c ∷ rest) (ModemInner.running m) h = ((refl, refl), omega arith)
    poll_inner-Settles (Answer.urc_closed ∷ rest) (ModemInner.running m) h =
        ((refl, refl), omega arith)

    first_turn-stopped :
        (inner : ModemInner Device)
        → (is_uninitialized (first_turn modem_path inner) ≡ false)
          × (is_running (first_turn modem_path inner) ≡ is_running inner)
    first_turn-stopped ModemInner.uninitialized = leave_uninitialized-stopped Device modem_path
    first_turn-stopped ModemInner.disabled = (refl, refl)
    first_turn-stopped (ModemInner.waiting d) = (refl, refl)
    first_turn-stopped (ModemInner.initializing p) = (refl, refl)
    first_turn-stopped (ModemInner.running m) = (refl, refl)

    -- No poll leaves the modem uninitialized, and the modem runs after a poll exactly when it ran before
    -- or the poll answers that it was freshly initialized.
    pub poll-Settles :
        (answers : List (Answer Device)) (inner : ModemInner Device)
        → let r = poll modem_path delay_ms answers inner in Settles inner r.0 r.1
    poll-Settles answers inner =
        let first = first_turn-stopped inner in
        let later = (poll_inner-Settles answers (first_turn modem_path inner) first.0).0 in
        (later.0, later.1 ∙ ap (λ b. (poll modem_path delay_ms answers inner).0 || b) first.1)

    pub length-poll :
        (answers : List (Answer Device)) (inner : ModemInner Device)
        → length (poll modem_path delay_ms answers inner).2 ≤ length answers
    length-poll answers inner =
        (poll_inner-Settles answers (first_turn modem_path inner) (first_turn-stopped inner).0).1

  -- A modem that is told to start again is dropped, and its stopped receiver with it.
  pub report_error-passes :
      (path : Option String) (delay_ms wait : ℕ) (inner : ModemInner Device)
      (rest : List (Answer Device))
      → length (poll path delay_ms (Answer.urc_closed ∷ rest) (report_error wait inner)).2
        ≤ length rest
  unfolding poll_inner report_error
  report_error-passes path delay_ms wait inner rest =
      (poll_inner-Settles path delay_ms rest (ModemInner.waiting wait) refl).1

  -- A modem that is told to start again, with a path, runs again once its delay has passed and it can be
  -- opened, however many attempts fail before.
  pub report_error-restarts :
      (path : String) (delay_ms wait : ℕ) (failures : List String) (modem : Device)
      (inner : ModemInner Device)
      → poll
          (some path)
          delay_ms
          (attempts failures (Answer.delay_ready ∷ Answer.initialized modem ∷ []))
          (report_error wait inner)
        ≡ (true, ModemInner.running modem, [])
  unfolding poll_inner report_error
  report_error-restarts path delay_ms wait [] modem inner = refl
  report_error-restarts path delay_ms wait (e ∷ es) modem inner =
      report_error-restarts path delay_ms delay_ms es modem inner
