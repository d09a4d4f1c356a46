-- ===== src/Modem/Manager/Fuel.antt =====
-- src/modem.rs: the fuel of poll_modem.
use sms_irc.Base.{
  ℕ, zero, suc, ◌≡◌, ◌≤◌, ◌<◌, refl, Bool, true, false, List, [], ◌∷◌, Option, none, some, ok, err,
  panic, length, is_some, arith, if_intro, ◌||◌, String,
}
use sms_irc.Extern.{Libs}
use sms_irc.Comm.{ModemCommand}
use sms_irc.Modem.{ModemManager, Answer, get_modem}
use sms_irc.Modem.Inner.{length-poll, report_error-passes}
use sms_irc.Modem.Manager.{
  poll_urcs, urcs_of, urcs_done, poll_urc_rx, refresh, poll_modem, failed, update_path,
  reinit_modem, command_timeout, report_modem_error, cmgl_failed, Turn, polled_ok, handle,
  handle_all, continue_with, poll_manager,
}

module _ {Device : Type 0} where
  -- The receiver of the URCs has stopped.
  abbrev is_closed : List (Answer Device) → Bool
  is_closed (Answer.urc_closed ∷ answers) = true
  is_closed _ = false

  poll_urcs-closed :
      (answers : List (Answer Device)) (b : Bool)
      → (poll_urcs answers b).0 ≡ true
      → is_closed (poll_urcs answers b).2 ≡ true
  unfolding poll_urcs
  poll_urcs-closed [] b h = ground arith
  poll_urcs-closed (Answer.urc c ∷ answers) b h = poll_urcs-closed answers (c || b) h
  poll_urcs-closed (Answer.urc_closed ∷ answers) b h = refl
  poll_urcs-closed (Answer.delay_ready ∷ answers) b h = ground arith
  poll_urcs-closed (Answer.delay_failed e ∷ answers) b h = ground arith
  poll_urcs-closed (Answer.initialized m ∷ answers) b h = ground arith
  poll_urcs-closed (Answer.init_failed e ∷ answers) b h = ground arith

  urcs_done-closed :
      (s : ModemManager Device) (r : Bool × Bool × List (Answer Device))
      → (r.0 ≡ true → is_closed r.2 ≡ true)
      → (urcs_done s r).0 ≡ true
      → is_closed (urcs_done s r).2 ≡ true
  urcs_done-closed s (true, b, rest) k h = k h
  urcs_done-closed s (false, b, rest) k h = ground arith

  -- The poll of the URCs fails only where their receiver has stopped.
  urcs_of-closed :
      (d : Option Device) (answers : List (Answer Device)) (s : ModemManager Device)
      → (urcs_of d answers s).0 ≡ true
      → is_closed (urcs_of d answers s).2 ≡ true
  urcs_of-closed none answers s h = ground arith
  urcs_of-closed (some modem) answers s h =
      urcs_done-closed s (poll_urcs answers false) (poll_urcs-closed answers false) h

  length-poll_urcs-le :
      (answers : List (Answer Device)) (b : Bool) → length (poll_urcs answers b).2 ≤ length answers
  unfolding poll_urcs
  length-poll_urcs-le [] b = omega arith
  length-poll_urcs-le (Answer.urc c ∷ answers) b =
      omega (arith, length-poll_urcs-le answers (c || b))
  length-poll_urcs-le (Answer.urc_closed ∷ answers) b = omega arith
  length-poll_urcs-le (Answer.delay_ready ∷ answers) b = omega arith
  length-poll_urcs-le (Answer.delay_failed e ∷ answers) b = omega arith
  length-poll_urcs-le (Answer.initialized m ∷ answers) b = omega arith
  length-poll_urcs-le (Answer.init_failed e ∷ answers) b = omega arith

  urcs_done-le :
      (n : ℕ) (s : ModemManager Device) (r : Bool × Bool × List (Answer Device))
      → length r.2 ≤ n
      → length (urcs_done s r).2 ≤ n
  urcs_done-le n s (true, b, rest) k = k
  urcs_done-le n s (false, b, rest) k = k

  urcs_of-le :
      (d : Option Device) (answers : List (Answer Device)) (s : ModemManager Device)
      → length (urcs_of d answers s).2 ≤ length answers
  urcs_of-le none answers s = omega arith
  urcs_of-le (some modem) answers s =
      urcs_done-le (length answers) s (poll_urcs answers false) (length-poll_urcs-le answers false)

  -- A result is given, and at most `n` answers are left.
  abbrev Ends : ℕ → Option (ModemManager Device × List (Answer Device)) → Type 0
  Ends n none = ⊥
  Ends n (some (s, answers)) = length answers ≤ n

  Ends-mono :
      (m n : ℕ) (o : Option (ModemManager Device × List (Answer Device)))
      → m ≤ n
      → Ends m o
      → Ends n o
  Ends-mono m n none h e = e
  Ends-mono m n (some (s, answers)) h e = omega (arith, h, e)

  -- After a failure, the stopped receiver is dropped with its modem.
  failed-less :
      (answers : List (Answer Device)) (delay_ms : ℕ) (s : ModemManager Device)
      → is_closed answers ≡ true
      → length (refresh answers (failed delay_ms s)).1 < length answers
  failed-less [] d s h = ground arith
  failed-less (Answer.urc c ∷ answers) d s h = ground arith
  failed-less (Answer.urc_closed ∷ answers) d s h =
      omega (arith, report_error-passes s.modem_path s.delay_ms d s.inner answers)
  failed-less (Answer.delay_ready ∷ answers) d s h = ground arith
  failed-less (Answer.delay_failed e ∷ answers) d s h = ground arith
  failed-less (Answer.initialized m ∷ answers) d s h = ground arith
  failed-less (Answer.init_failed e ∷ answers) d s h = ground arith

  -- Between two calls of poll_modem, the answers that the poll of the modem leaves become fewer.
  refreshed-Ends :
      (fuel : ℕ) (answers : List (Answer Device)) (s : ModemManager Device)
      → length (refresh answers s).1 < fuel
      → Ends (length (refresh answers s).1) (poll_modem fuel answers s)
  unfolding poll_modem
  refreshed-Ends zero answers s h = ground arith
  refreshed-Ends (suc fuel) answers s h =
      let (polled, rest) = refresh answers s in
      let (failing, after, left) = poll_urc_rx rest polled in
      let again = failed after.delay_ms after in
      let le = urcs_of-le (get_modem polled.inner) rest polled in
      if_intro (Ends (length rest)) failing (poll_modem fuel left again) (some (after, left))
        (λ f.
          let less =
            failed-less left after.delay_ms after
              (urcs_of-closed (get_modem polled.inner) rest polled f) in
          Ends-mono (length (refresh left again).1) (length rest) (poll_modem fuel left again)
            (omega (arith, less, le)) (refreshed-Ends fuel left again (omega (arith, h, less, le))))
        (λ f. le)

  poll_modem-Ends :
      (fuel : ℕ) (answers : List (Answer Device)) (s : ModemManager Device)
      → length answers < fuel
      → Ends (length answers) (poll_modem fuel answers s)
  poll_modem-Ends fuel answers s h =
      let fewer = length-poll s.modem_path s.delay_ms answers s.inner in
      Ends-mono (length (refresh answers s).1) (length answers) (poll_modem fuel answers s) fewer
        (refreshed-Ends fuel answers s (omega (arith, h, fewer)))

  -- The same of a turn.
  abbrev TurnEnds : ℕ → Option (Turn Device) → Type 0
  TurnEnds n none = ⊥
  TurnEnds n (some (r, s, answers)) = length answers ≤ n

  polled_ok-TurnEnds :
      (n : ℕ) (o : Option (ModemManager Device × List (Answer Device)))
      → Ends n o
      → TurnEnds n (polled_ok o)
  polled_ok-TurnEnds n none e = e
  polled_ok-TurnEnds n (some (s, answers)) e = e

  module _ (l : Libs) (encode : String → List (List ℕ)) (clock : ℕ → ℕ) (fuel : ℕ) where
    handle-TurnEnds :
        (c : ModemCommand) (answers : List (Answer Device)) (s : ModemManager Device)
        → length answers < fuel
        → TurnEnds (length answers) (handle l encode clock fuel c answers s)
    unfolding handle cmgl_failed report_modem_error reinit_modem update_path command_timeout
    handle-TurnEnds ModemCommand.do_cmgl answers s h = omega arith
    handle-TurnEnds (ModemCommand.cmgl_complete msgs) answers s h = omega arith
    handle-TurnEnds (ModemCommand.cmgl_failed e) answers s h =
        polled_ok-TurnEnds _ _ (poll_modem-Ends fuel answers (failed s.delay_ms s) h)
    handle-TurnEnds (ModemCommand.send_message addr msg) answers s h = omega arith
    handle-TurnEnds ModemCommand.request_csq answers s h = omega arith
    handle-TurnEnds ModemCommand.request_reg answers s h = omega arith
    handle-TurnEnds ModemCommand.force_reinit answers s h =
        polled_ok-TurnEnds _ _ (poll_modem-Ends fuel answers (failed 0 s) h)
    handle-TurnEnds (ModemCommand.update_path p) answers s h =
        polled_ok-TurnEnds _ _
          (poll_modem-Ends fuel answers (failed 0 (record s { modem_path = p })) h)
    handle-TurnEnds ModemCommand.command_timeout answers s h =
        polled_ok-TurnEnds _ _ (poll_modem-Ends fuel answers (failed 0 s) h)
    handle-TurnEnds (ModemCommand.make_contact a) answers s h = omega arith

    continue_with-ends :
        (n : ℕ) (o : Option (Turn Device))
        (f : List (Answer Device) → ModemManager Device → Option (Turn Device))
        → TurnEnds n o
        → ((answers : List (Answer Device)) (s : ModemManager Device)
            → length answers ≤ n
            → is_some (f answers s) ≡ true)
        → is_some (continue_with o f) ≡ true
    continue_with-ends n none f e k = absurd e
    continue_with-ends n (some (ok u, s, answers)) f e k = k answers s e
    continue_with-ends n (some (err x, s, answers)) f e k = refl
    continue_with-ends n (some (panic, s, answers)) f e k = refl

    handle_all-ends :
        (cs : List ModemCommand) (answers : List (Answer Device)) (s : ModemManager Device)
        → length answers < fuel
        → is_some (handle_all l encode clock fuel cs answers s) ≡ true
    handle_all-ends [] answers s h = refl
    handle_all-ends (c ∷ cs) answers s h =
        continue_with-ends (length answers) (handle l encode clock fuel c answers s)
          (handle_all l encode clock fuel cs) (handle-TurnEnds c answers s h)
          (λ left s' k. handle_all-ends cs left s' (omega (arith, h, k)))

    -- A poll of the modem manager ends, whatever the futures of the modem answer and whichever
    -- commands are ready: a fuel of more than the number of answers is enough for every restart of
    -- the modem on the way. A receiver that has stopped answers so at every poll, until
    -- report_error drops it with its modem.
    pub poll_manager-ends :
        (cs : List ModemCommand) (answers : List (Answer Device)) (s : ModemManager Device)
        → length answers < fuel
        → is_some (poll_manager l encode clock fuel cs answers s) ≡ true
    unfolding poll_manager
    poll_manager-ends cs answers s h =
        continue_with-ends (length answers) (polled_ok (poll_modem fuel answers s))
          (handle_all l encode clock fuel cs)
          (polled_ok-TurnEnds _ _ (poll_modem-Ends fuel answers s h))
          (λ left s' k. handle_all-ends cs left s' (omega (arith, h, k)))
