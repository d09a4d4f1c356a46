-- ===== src/Modem/Manager.antt =====
-- src/modem.rs, ModemManager: polling the modem, and the loop over the manager's commands.
pub mod Fuel
use sms_irc.Base.{
  ℕ, zero, suc, if◌then◌else◌, String, Bool, true, false, ◌||◌, List, [], ◌∷◌, Option, none, some,
  Result, ok, err, panic, M,
}
use sms_irc.Extern.{Libs}
use sms_irc.Store.{Store}
use sms_irc.Comm.{ModemCommand}
use sms_irc.Modem.{
  ModemInner, ModemManager, Answer, poll, report_error, get_modem, cmgl, cmgl_complete, request_csq,
  request_reg, send_message, make_contact,
}

-- The loop over the URCs that are ready: whether the receiver has stopped, whether a message is
-- announced, and the answers that are left: a stopped receiver has stopped for good.
unfoldable pub poll_urcs :
    {Device : Type 0} → List (Answer Device) → Bool → Bool × Bool × List (Answer Device)
poll_urcs (Answer.urc cmti ∷ answers) do_cmgl = poll_urcs answers (cmti || do_cmgl)
poll_urcs (Answer.urc_closed ∷ answers) do_cmgl = (true, do_cmgl, Answer.urc_closed ∷ answers)
poll_urcs answers do_cmgl = (false, do_cmgl, answers)

abbrev delay_or : Option ℕ → ℕ
delay_or none = 5000
delay_or (some ms) = ms

-- A turn's result: the handler's, the manager, and the answers that are left.
abbrev pub Turn : Type 0 → Type 0
Turn Device = Result (Unit {0}) × ModemManager Device × List (Answer Device)

module _ {Device : Type 0} where
  -- The first listing is asked for at once; the timer asks for the others as commands that are ready.
  unfoldable pub new : Option String → Option ℕ → Store → ModemManager Device
  new modem_path restart_delay_ms store = record {
    modem_path = modem_path;
    delay_ms = delay_or restart_delay_ms;
    inner = ModemInner.uninitialized;
    store = store;
    cf = [];
    int = ModemCommand.do_cmgl ∷ [];
    cb = [];
    jobs = [];
  }

  abbrev pub cmgl_if : Bool → ModemManager Device → ModemManager Device
  cmgl_if true s = (cmgl s).1
  cmgl_if false s = s

  -- Whether it fails, the manager, and the answers that are left. On a failure no listing is started.
  abbrev pub urcs_done :
      ModemManager Device
      → Bool × Bool × List (Answer Device)
      → Bool × ModemManager Device × List (Answer Device)
  urcs_done s (true, do_cmgl, answers) = (true, s, answers)
  urcs_done s (false, do_cmgl, answers) = (false, cmgl_if do_cmgl s, answers)

  abbrev pub urcs_of :
      Option Device
      → List (Answer Device)
      → ModemManager Device
      → Bool × ModemManager Device × List (Answer Device)
  urcs_of none answers s = (false, s, answers)
  urcs_of (some modem) answers s = urcs_done s (poll_urcs answers false)

  abbrev pub poll_urc_rx :
      List (Answer Device) → ModemManager Device → Bool × ModemManager Device × List (Answer Device)
  poll_urc_rx answers s = urcs_of (get_modem s.inner) answers s

  -- A poll of the modem, before its URCs are polled.
  abbrev pub refresh :
      List (Answer Device) → ModemManager Device → ModemManager Device × List (Answer Device)
  refresh answers s =
      let (fresh, inner, rest) = poll s.modem_path s.delay_ms answers s.inner in
      (cmgl_if fresh (record s { inner = inner }), rest)

  abbrev pub failed : ℕ → ModemManager Device → ModemManager Device
  failed delay_ms s = record s { inner = report_error delay_ms s.inner }

  -- `none` is that the fuel has run out. It bounds the calls that poll_modem and report_modem_error
  -- make of each other.
  unfoldable pub poll_modem :
      ℕ
      → List (Answer Device)
      → ModemManager Device
      → Option (ModemManager Device × List (Answer Device))
  poll_modem zero answers s = none
  poll_modem (suc fuel) answers s =
      let (polled, rest) = refresh answers s in
      let (failing, after, left) = poll_urc_rx rest polled in
      let again = poll_modem fuel left (failed after.delay_ms after) in
      if failing then again else some (after, left)

  module _ (fuel : ℕ) (answers : List (Answer Device)) where
    unfoldable pub reinit_modem :
        ModemManager Device → Option (ModemManager Device × List (Answer Device))
    reinit_modem s = poll_modem fuel answers (failed 0 s)

    unfoldable pub command_timeout :
        ModemManager Device → Option (ModemManager Device × List (Answer Device))
    command_timeout s = poll_modem fuel answers (failed 0 s)

    unfoldable pub report_modem_error :
        ModemManager Device → Option (ModemManager Device × List (Answer Device))
    report_modem_error s = poll_modem fuel answers (failed s.delay_ms s)

    unfoldable pub cmgl_failed :
        ModemManager Device → Option (ModemManager Device × List (Answer Device))
    cmgl_failed s = report_modem_error s

    unfoldable pub update_path :
        Option String → ModemManager Device → Option (ModemManager Device × List (Answer Device))
    update_path path s = reinit_modem (record s { modem_path = path })

  abbrev pub polled_ok : Option (ModemManager Device × List (Answer Device)) → Option (Turn Device)
  polled_ok none = none
  polled_ok (some (s, answers)) = some (ok tt, s, answers)

  abbrev pub handled :
      List (Answer Device) → Result (Unit {0}) × ModemManager Device → Option (Turn Device)
  handled answers (r, s) = some (r, s, answers)

  abbrev pub continue_with :
      Option (Turn Device)
      → (List (Answer Device) → ModemManager Device → Option (Turn Device))
      → Option (Turn Device)
  continue_with none f = none
  continue_with (some (ok u, s, answers)) f = f answers s
  continue_with (some (err e, s, answers)) f = some (err e, s, answers)
  continue_with (some (panic, s, answers)) f = some (panic, s, answers)

  -- `encode` is GsmMessageData::encode_message, and `clock` as for cmgl_complete.
  module _ (l : Libs) (encode : String → List (List ℕ)) (clock : ℕ → ℕ) (fuel : ℕ) where
    unfoldable pub handle :
        ModemCommand → List (Answer Device) → ModemManager Device → Option (Turn Device)
    handle ModemCommand.do_cmgl answers s = handled answers (cmgl s)
    handle (ModemCommand.cmgl_complete msgs) answers s =
        handled answers (cmgl_complete l clock msgs s)
    handle (ModemCommand.cmgl_failed e) answers s = polled_ok (cmgl_failed fuel answers s)
    handle (ModemCommand.send_message addr msg) answers s =
        handled answers (send_message encode addr msg s)
    handle ModemCommand.request_csq answers s = handled answers (request_csq s)
    handle ModemCommand.request_reg answers s = handled answers (request_reg s)
    handle ModemCommand.force_reinit answers s = polled_ok (reinit_modem fuel answers s)
    handle (ModemCommand.update_path p) answers s = polled_ok (update_path fuel answers p s)
    handle ModemCommand.command_timeout answers s = polled_ok (command_timeout fuel answers s)
    handle (ModemCommand.make_contact a) answers s = handled answers (make_contact l a s)

    -- The commands that are ready, until one fails.
    abbrev pub handle_all :
        List ModemCommand → List (Answer Device) → ModemManager Device → Option (Turn Device)
    handle_all [] answers s = some (ok tt, s, answers)
    handle_all (c ∷ cs) answers s = continue_with (handle c answers s) (handle_all cs)

    unfoldable pub poll_manager :
        List ModemCommand → List (Answer Device) → ModemManager Device → Option (Turn Device)
    poll_manager cs answers s =
        continue_with (polled_ok (poll_modem fuel answers s)) (handle_all cs)
