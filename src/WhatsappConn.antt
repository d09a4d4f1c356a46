-- ===== src/WhatsappConn.antt =====
-- src/whatsapp_conn.rs: connecting to WhatsApp Web, and connecting again after a failure.
pub mod Life
use sms_irc.Base.{ℕ, String, Bool, true, false, List, [], ◌∷◌, Option, none, some}

-- `Session`, `Connection` and `Event` stand for whatsappweb's PersistentSession, WebConnection and
-- WaEvent. A Delay is the time that it waits for, in milliseconds from its start, and the connecting
-- future is the session that it was given.
pub data WrapperState (Session Connection : Type 0) : Type 0 where
  disabled : WrapperState Session Connection
  waiting : ℕ → WrapperState Session Connection
  initializing : Option Session → WrapperState Session Connection
  running : Connection → WrapperState Session Connection

pub record WebConnectionWrapper (Session Connection : Type 0) : Type 0 where
  pub inner : WrapperState Session Connection
  pub persist : Option Session
  pub backoff_time_ms : ℕ

-- What the futures answer to a poll, in the order in which they do. A future that is polled while the
-- next answer is not its own is not ready.
pub data Answer (Connection Event : Type 0) : Type 0 where
  delay_ready : Answer Connection Event
  delay_failed : String → Answer Connection Event
  connected : Connection → Answer Connection Event
  connect_failed : String → Answer Connection Event
  event : Event → Answer Connection Event
  ended : Answer Connection Event
  failed : String → Answer Connection Event

-- What `poll` returns: NotReady, an item of the stream, or its error.
pub data Polled (Event : Type 0) : Type 0 where
  not_ready : Polled Event
  item : Event → Polled Event
  item_failed : String → Polled Event
  poll_failed : String → Polled Event
  unreachable : Polled Event

-- What `start_send` and `poll_complete` return; `panicked` is their `panic!`.
pub data Sent (Answered : Type 0) : Type 0 where
  sent : Answered → Sent Answered
  send_failed : String → Sent Answered
  panicked : Sent Answered

module _ {Session Connection : Type 0} where
  unfoldable pub new : ℕ → WebConnectionWrapper Session Connection
  new backoff_time_ms = record {
    inner = WrapperState.disabled;
    persist = none;
    backoff_time_ms = backoff_time_ms;
  }

  abbrev pub state_is_disabled : WrapperState Session Connection → Bool
  state_is_disabled WrapperState.disabled = true
  state_is_disabled _ = false

  abbrev pub is_disabled : WebConnectionWrapper Session Connection → Bool
  is_disabled w = state_is_disabled w.inner

  abbrev pub state_is_connected : WrapperState Session Connection → Bool
  state_is_connected (WrapperState.running c) = true
  state_is_connected _ = false

  abbrev pub is_connected : WebConnectionWrapper Session Connection → Bool
  is_connected w = state_is_connected w.inner

  abbrev pub with_inner :
      WrapperState Session Connection
      → WebConnectionWrapper Session Connection
      → WebConnectionWrapper Session Connection
  with_inner state w = record w { inner = state }

  abbrev pub disable :
      WebConnectionWrapper Session Connection → WebConnectionWrapper Session Connection
  disable w = with_inner WrapperState.disabled w

  abbrev pub set_persistent :
      Option Session
      → WebConnectionWrapper Session Connection
      → WebConnectionWrapper Session Connection
  set_persistent persist w = record w { persist = persist }

  abbrev pub initialize :
      WebConnectionWrapper Session Connection → WebConnectionWrapper Session Connection
  initialize w = with_inner (WrapperState.initializing w.persist) w

  abbrev pub backoff :
      WebConnectionWrapper Session Connection → WebConnectionWrapper Session Connection
  backoff w = with_inner (WrapperState.waiting w.backoff_time_ms) w

  unfoldable pub connect_new :
      WebConnectionWrapper Session Connection → WebConnectionWrapper Session Connection
  connect_new w = initialize (set_persistent none w)

  unfoldable pub connect_persistent :
      Session → WebConnectionWrapper Session Connection → WebConnectionWrapper Session Connection
  connect_persistent persist w = initialize (set_persistent (some persist) w)

  -- The loop: `poll_state` has taken the state out of `inner`, and left Disabled there.
  module _ {Event : Type 0} where
    unfoldable pub poll_state :
        List (Answer Connection Event)
        → WrapperState Session Connection
        → WebConnectionWrapper Session Connection
        → Polled Event × WebConnectionWrapper Session Connection × List (Answer Connection Event)
    poll_state answers WrapperState.disabled w = (Polled.not_ready, w, answers)
    poll_state (Answer.delay_ready ∷ answers) (WrapperState.waiting delay) w =
        let w' = initialize w in poll_state answers w'.inner (disable w')
    poll_state (Answer.delay_failed e ∷ answers) (WrapperState.waiting delay) w =
        (Polled.poll_failed e, w, answers)
    poll_state (Answer.connected c ∷ answers) (WrapperState.initializing session) w =
        let w' = with_inner (WrapperState.running c) w in poll_state answers w'.inner (disable w')
    poll_state (Answer.connect_failed e ∷ answers) (WrapperState.initializing session) w =
        let w' = backoff w in poll_state answers w'.inner (disable w')
    poll_state (Answer.event x ∷ answers) (WrapperState.running c) w =
        (Polled.item x, with_inner (WrapperState.running c) w, answers)
    poll_state (Answer.ended ∷ answers) (WrapperState.running c) w =
        (Polled.unreachable, w, answers)
    poll_state (Answer.failed e ∷ answers) (WrapperState.running c) w =
        (Polled.item_failed e, backoff w, answers)
    poll_state answers state w = (Polled.not_ready, with_inner state w, answers)

    abbrev pub poll :
        List (Answer Connection Event)
        → WebConnectionWrapper Session Connection
        → Polled Event × WebConnectionWrapper Session Connection × List (Answer Connection Event)
    poll answers w = poll_state answers w.inner (disable w)

  -- `send` is the connection's own start_send or poll_complete.
  module _ {Answered : Type 0} where
    abbrev pub start_send_on :
        (Connection → Sent Answered)
        → WrapperState Session Connection
        → WebConnectionWrapper Session Connection
        → Sent Answered × WebConnectionWrapper Session Connection
    start_send_on send (WrapperState.running c) w = elim (send c) [
      | Sent.send_failed e ↦ (Sent.send_failed e, backoff w)
      | Sent.sent a ↦ (Sent.sent a, w)
      | Sent.panicked ↦ (Sent.panicked, w)
    ]
    start_send_on send _ w = (Sent.panicked, w)

    unfoldable pub start_send :
        (Connection → Sent Answered)
        → WebConnectionWrapper Session Connection
        → Sent Answered × WebConnectionWrapper Session Connection
    start_send send w = start_send_on send w.inner w

    abbrev pub poll_complete_on :
        (Connection → Sent Answered) → WrapperState Session Connection → Sent Answered
    poll_complete_on send (WrapperState.running c) = send c
    poll_complete_on send _ = Sent.panicked

    unfoldable pub poll_complete :
        (Connection → Sent Answered) → WebConnectionWrapper Session Connection → Sent Answered
    poll_complete send w = poll_complete_on send w.inner
