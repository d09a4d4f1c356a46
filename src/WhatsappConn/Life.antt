-- ===== src/WhatsappConn/Life.antt =====
-- src/whatsapp_conn.rs: the states that a connection goes through between polls.
use sms_irc.Base.{ℕ, ◌≡◌, refl, String, Bool, true, false, ◌||◌, List, [], ◌∷◌, subst, sym, ap}
use sms_irc.WhatsappConn.{
  WrapperState, WebConnectionWrapper, Answer, Polled, state_is_disabled, is_disabled, is_connected,
  with_inner, disable, poll_state, poll,
}

-- An error of the timer, or the `unreachable!()`.
abbrev pub gives_up : {Event : Type 0} → Polled Event → Bool
gives_up (Polled.poll_failed e) = true
gives_up Polled.unreachable = true
gives_up _ = false

-- Attempts to connect that fail, each after its delay.
abbrev pub retries :
    {Connection Event : Type 0}
    → List String
    → List (Answer Connection Event)
    → List (Answer Connection Event)
retries [] answers = answers
retries (e ∷ es) answers = Answer.delay_ready ∷ Answer.connect_failed e ∷ retries es answers

module _ {Session Connection Event : Type 0} where
  -- What a poll's answer says of the state that it leaves.
  abbrev pub Leaves : Polled Event → WebConnectionWrapper Session Connection → Type 0
  Leaves Polled.not_ready w = Unit
  Leaves (Polled.item x) w = is_connected w ≡ true
  Leaves (Polled.item_failed e) w = w.inner ≡ WrapperState.waiting w.backoff_time_ms
  Leaves (Polled.poll_failed e) w = is_disabled w ≡ true
  Leaves Polled.unreachable w = is_disabled w ≡ true

  -- From `state`, with the rest of the wrapper `w`.
  abbrev pub Outcome :
      WrapperState Session Connection
      → WebConnectionWrapper Session Connection
      → Polled Event
      → WebConnectionWrapper Session Connection
      → Type 0
  Outcome state w p w' =
      Leaves p w'
      × (is_disabled w' ≡ (state_is_disabled state || gives_up p))
      × (w'.persist ≡ w.persist)
      × (w'.backoff_time_ms ≡ w.backoff_time_ms)

  poll_state-Outcome :
      (answers : List (Answer Connection Event)) (state : WrapperState Session Connection)
      (w : WebConnectionWrapper Session Connection)
      → is_disabled w ≡ true
      → let r = poll_state answers state w in Outcome state w r.0 r.1
  unfolding poll_state
  poll_state-Outcome answers WrapperState.disabled w h = (tt, h, refl, refl)
  poll_state-Outcome [] (WrapperState.waiting d) w h = (tt, refl, refl, refl)
  poll_state-Outcome (Answer.delay_ready ∷ rest) (WrapperState.waiting d) w h =
      poll_state-Outcome rest (WrapperState.initializing w.persist) (disable w) refl
  poll_state-Outcome (Answer.delay_failed e ∷ rest) (WrapperState.waiting d) w h =
      (h, h, refl, refl)
  poll_state-Outcome (Answer.connected c ∷ rest) (WrapperState.waiting d) w h =
      (tt, refl, refl, refl)
  poll_state-Outcome (Answer.connect_failed e ∷ rest) (WrapperState.waiting d) w h =
      (tt, refl, refl, refl)
  poll_state-Outcome (Answer.event x ∷ rest) (WrapperState.waiting d) w h = (tt, refl, refl, refl)
  poll_state-Outcome (Answer.ended ∷ rest) (WrapperState.waiting d) w h = (tt, refl, refl, refl)
  poll_state-Outcome (Answer.failed e ∷ rest) (WrapperState.waiting d) w h = (tt, refl, refl, refl)
  poll_state-Outcome [] (WrapperState.initializing s) w h = (tt, refl, refl, refl)
  poll_state-Outcome (Answer.connected c ∷ rest) (WrapperState.initializing s) w h =
      poll_state-Outcome rest (WrapperState.running c) (disable w) refl
  poll_state-Outcome (Answer.connect_failed e ∷ rest) (WrapperState.initializing s) w h =
      poll_state-Outcome rest (WrapperState.waiting w.backoff_time_ms) (disable w) refl
  poll_state-Outcome (Answer.delay_ready ∷ rest) (WrapperState.initializing s) w h =
      (tt, refl, refl, refl)
  poll_state-Outcome (Answer.delay_failed e ∷ rest) (WrapperState.initializing s) w h =
      (tt, refl, refl, refl)
  poll_state-Outcome (Answer.event x ∷ rest) (WrapperState.initializing s) w h =
      (tt, refl, refl, refl)
  poll_state-Outcome (Answer.ended ∷ rest) (WrapperState.initializing s) w h =
      (tt, refl, refl, refl)
  poll_state-Outcome (Answer.failed e ∷ rest) (WrapperState.initializing s) w h =
      (tt, refl, refl, refl)
  poll_state-Outcome [] (WrapperState.running k) w h = (tt, refl, refl, refl)
  poll_state-Outcome (Answer.event x ∷ rest) (WrapperState.running k) w h = (refl, refl, refl, refl)
  poll_state-Outcome (Answer.ended ∷ rest) (WrapperState.running k) w h = (h, h, refl, refl)
  poll_state-Outcome (Answer.failed e ∷ rest) (WrapperState.running k) w h =
      (refl, refl, refl, refl)
  poll_state-Outcome (Answer.connected c ∷ rest) (WrapperState.running k) w h =
      (tt, refl, refl, refl)
  poll_state-Outcome (Answer.connect_failed e ∷ rest) (WrapperState.running k) w h =
      (tt, refl, refl, refl)
  poll_state-Outcome (Answer.delay_ready ∷ rest) (WrapperState.running k) w h =
      (tt, refl, refl, refl)
  poll_state-Outcome (Answer.delay_failed e ∷ rest) (WrapperState.running k) w h =
      (tt, refl, refl, refl)

  -- After any poll: an event is returned only while connected, a failure of the connection leaves the
  -- wrapper waiting for its backoff time, and the wrapper is disabled only if it was so before, if the
  -- timer failed, or if the connection's stream ended. The session to resume is never changed.
  pub poll-Outcome :
      (answers : List (Answer Connection Event)) (w : WebConnectionWrapper Session Connection)
      → let r = poll answers w in Outcome w.inner w r.0 r.1
  poll-Outcome answers w = poll_state-Outcome answers w.inner (disable w) refl

  -- The attempts that fail are over, and one more begins.
  poll_state-retries :
      (errors : List String) (delay : ℕ) (w : WebConnectionWrapper Session Connection)
      → poll_state {Event = Event}
          (retries errors (Answer.delay_ready ∷ []))
          (WrapperState.waiting delay)
          w
        ≡ (Polled.not_ready, with_inner (WrapperState.initializing w.persist) w, [])
  unfolding poll_state
  poll_state-retries [] delay w = refl
  poll_state-retries (e ∷ es) delay w = poll_state-retries es w.backoff_time_ms (disable w)

  -- After the connection fails, it is resumed however many attempts fail: each attempt, the first
  -- and the one after any number of failures, is a connection with the session that the wrapper
  -- has, and when one succeeds the next event is delivered and the wrapper is connected again.
  pub poll-reconnects :
      (failure : String) (errors : List String) (old c : Connection) (x : Event)
      (w : WebConnectionWrapper Session Connection)
      → w.inner ≡ WrapperState.running old
      → let r = poll {Event = Event} (Answer.failed failure ∷ []) w in
        let attempt = poll {Event = Event} (retries errors (Answer.delay_ready ∷ [])) r.1 in
        (r.0 ≡ Polled.item_failed failure)
        × (attempt ≡ (Polled.not_ready, with_inner (WrapperState.initializing w.persist) w, []))
        × (poll (Answer.connected c ∷ Answer.event x ∷ []) attempt.1
            ≡ (Polled.item x, with_inner (WrapperState.running c) w, []))
  unfolding poll_state
  poll-reconnects failure errors old c x w h =
      let began = poll_state-retries errors w.backoff_time_ms (disable w) in
      subst
        (λ state.
          let r = poll_state {Event = Event} (Answer.failed failure ∷ []) state (disable w) in
          let attempt = poll {Event = Event} (retries errors (Answer.delay_ready ∷ [])) r.1 in
          (r.0 ≡ Polled.item_failed failure)
          × (attempt ≡ (Polled.not_ready, with_inner (WrapperState.initializing w.persist) w, []))
          × (poll (Answer.connected c ∷ Answer.event x ∷ []) attempt.1
              ≡ (Polled.item x, with_inner (WrapperState.running c) w, [])))
        (sym h)
        (
          refl,
          began,
          ap
              (λ (r : Polled Event
                  × WebConnectionWrapper Session Connection
                  × List (Answer Connection Event)).
                poll (Answer.connected c ∷ Answer.event x ∷ []) r.1)
              began,
        )
