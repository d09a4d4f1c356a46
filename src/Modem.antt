-- ===== src/Modem.antt =====
-- src/modem.rs: the modem's states, and what the manager does with messages and commands.
pub mod Inner
pub mod Incoming
pub mod Manager
pub mod Contacts
use sms_irc.Base.{
  ℕ, String, Bool, true, false, List, [], ◌∷◌, ◌++◌, Option, none, some, Result, ok, err, panic, M,
  ◌>>=◌, ◌>>◌, pure, done, fail, modify, gets, ◌<>◌, if◌then◌else◌, is_none, show, ℤ, pos,
}
use sms_irc.Extern.{Libs, PduAddress, SmsMessage, DecodedMessage, ConcatenatedSmsData}
use sms_irc.Util.{make_nick_for_address}
use sms_irc.Models.{Recipient, Message}
use sms_irc.Store.{Store, store_sms_message, store_recipient, get_recipient_by_addr_opt}
use sms_irc.Comm.{ModemCommand, ContactFactoryCommand, ControlBotCommand}

-- `Device` stands for a HuaweiModem with the receiver of its URCs. A Delay is the time that it waits
-- for, in milliseconds, and the initializing future the path that it opens.
pub data ModemInner (Device : Type 0) : Type 0 where
  uninitialized : ModemInner Device
  disabled : ModemInner Device
  waiting : ℕ → ModemInner Device
  initializing : String → ModemInner Device
  running : Device → ModemInner Device

-- What the futures answer, in the order in which they do; the one that is polled while the next
-- answer is not its own is not ready. `urc cmti` is a URC, and says whether it is an information
-- response with the parameter +CMTI. The receiver of a running modem that has stopped (`urc_closed`)
-- answers so at every poll, as long as the modem is kept; when the modem has been dropped, nothing
-- polls it.
pub data Answer (Device : Type 0) : Type 0 where
  delay_ready : Answer Device
  delay_failed : String → Answer Device
  initialized : Device → Answer Device
  init_failed : String → Answer Device
  urc : Bool → Answer Device
  urc_closed : Answer Device

module _ {Device : Type 0} where
  unfoldable pub report_error : ℕ → ModemInner Device → ModemInner Device
  report_error delay_ms inner = ModemInner.waiting delay_ms

  abbrev pub get_modem : ModemInner Device → Option Device
  get_modem (ModemInner.running modem) = some modem
  get_modem _ = none

  -- The turn of the loop that finds Uninitialized.
  abbrev pub leave_uninitialized : Option String → ModemInner Device
  leave_uninitialized none = ModemInner.disabled
  leave_uninitialized (some path) = ModemInner.initializing path

  abbrev pub first_turn : Option String → ModemInner Device → ModemInner Device
  first_turn path ModemInner.uninitialized = leave_uninitialized path
  first_turn path inner = inner

  module _ (modem_path : Option String) (delay_ms : ℕ) where
    unfoldable pub poll_inner :
        List (Answer Device) → ModemInner Device → Bool × ModemInner Device × List (Answer Device)
    poll_inner (Answer.delay_ready ∷ answers) (ModemInner.waiting delay) =
        poll_inner answers (leave_uninitialized modem_path)
    poll_inner (Answer.delay_failed e ∷ answers) (ModemInner.waiting delay) =
        poll_inner answers (ModemInner.waiting delay_ms)
    poll_inner (Answer.initialized modem ∷ answers) (ModemInner.initializing path) =
        (true, ModemInner.running modem, answers)
    poll_inner (Answer.init_failed e ∷ answers) (ModemInner.initializing path) =
        poll_inner answers (ModemInner.waiting delay_ms)
    poll_inner (Answer.urc_closed ∷ answers) (ModemInner.waiting delay) =
        poll_inner answers (ModemInner.waiting delay)
    poll_inner (Answer.urc_closed ∷ answers) (ModemInner.initializing path) =
        poll_inner answers (ModemInner.initializing path)
    poll_inner answers inner = (false, inner, answers)

    -- Whether the modem was just freshly initialized, and the state.
    abbrev pub poll :
        List (Answer Device) → ModemInner Device → Bool × ModemInner Device × List (Answer Device)
    poll answers inner = poll_inner answers (first_turn modem_path inner)

-- The futures that the manager spawns.
pub data Job : Type 0 where
  list_sms_pdu : Job
  del_sms_pdu : Job
  get_registration : Job
  get_signal_quality : Job
  send_sms_pdus : PduAddress → List (List ℕ) → Job

-- What it sends on cf_tx, int_tx and cb_tx, and spawns, is listed oldest first.
pub record ModemManager (Device : Type 0) : Type 0 where
  pub modem_path : Option String
  pub delay_ms : ℕ
  pub inner : ModemInner Device
  pub store : Store
  pub cf : List ContactFactoryCommand
  pub int : List ModemCommand
  pub cb : List ControlBotCommand
  pub jobs : List Job

-- The reference of a part of a longer message; a message that is not understood has none here.
abbrev pub reference_of : Option ConcatenatedSmsData → Option ℤ
reference_of none = none
reference_of (some cd) = some (pos cd.reference)

-- A message that cannot be decoded has none; a panic of the decoder goes on.
abbrev pub csms_data : Result DecodedMessage → Result (Option ℤ)
csms_data (ok m) = ok (reference_of m.concatenated)
csms_data (err e) = ok none
csms_data panic = panic

-- `clock n` is the database's time when the row n is inserted.
module _ (l : Libs) (clock : ℕ → ℕ) where
  abbrev pub store_unread : SmsMessage → M Store Message
  store_unread msg = (λ st. (csms_data (l.decode_message msg.pdu), st)) >>= λ csms st.
      store_sms_message l (clock st.next_message) msg.pdu.originating_address msg.raw_pdu csms st

  unfoldable pub store_all : List SmsMessage → M Store (Unit {0})
  store_all [] = done
  store_all (msg ∷ msgs) =
      (if msg.unread then (store_unread msg >> done) else done) >> store_all msgs

module _ {Device : Type 0} where
  abbrev pub cf_send : ContactFactoryCommand → M (ModemManager Device) (Unit {0})
  cf_send c = modify λ s. record s { cf = s.cf ++ c ∷ [] }

  abbrev pub int_send : ModemCommand → M (ModemManager Device) (Unit {0})
  int_send c = modify λ s. record s { int = s.int ++ c ∷ [] }

  abbrev pub cb_send : ControlBotCommand → M (ModemManager Device) (Unit {0})
  cb_send c = modify λ s. record s { cb = s.cb ++ c ∷ [] }

  abbrev pub spawn : Job → M (ModemManager Device) (Unit {0})
  spawn j = modify λ s. record s { jobs = s.jobs ++ j ∷ [] }

  abbrev pub on_store : {A : Type 0} → M Store A → M (ModemManager Device) A
  on_store m s = let (r, st) = m s.store in (r, record s { store = st })

  abbrev pub if_running :
      Option Device
      → M (ModemManager Device) (Unit {0})
      → M (ModemManager Device) (Unit {0})
      → M (ModemManager Device) (Unit {0})
  if_running none yes' no' = no'
  if_running (some modem) yes' no' = yes'

  abbrev pub with_modem : String → Job → M (ModemManager Device) (Unit {0})
  with_modem desc job s =
      if_running (get_modem s.inner) (spawn job)
        (cb_send (ControlBotCommand.report_failure (desc <> " failed: Modem is not initialized"))) s

  unfoldable pub request_reg : M (ModemManager Device) (Unit {0})
  request_reg = with_modem "Getting registration" Job.get_registration

  unfoldable pub request_csq : M (ModemManager Device) (Unit {0})
  request_csq = with_modem "Getting signal quality" Job.get_signal_quality

  -- `encode` is GsmMessageData::encode_message.
  unfoldable pub send_message :
      (String → List (List ℕ)) → PduAddress → String → M (ModemManager Device) (Unit {0})
  send_message encode addr msg = with_modem "Sending message" (Job.send_sms_pdus addr (encode msg))

  unfoldable pub cmgl : M (ModemManager Device) (Unit {0})
  cmgl s = if_running (get_modem s.inner) (spawn Job.list_sms_pdu) done s

  module _ (l : Libs) where
    abbrev pub contact_missing : PduAddress → Option Recipient → M (ModemManager Device) (Unit {0})
    contact_missing addr (some r) = done
    contact_missing addr none = do
      on_store (store_recipient l addr (make_nick_for_address l addr))
      cf_send (ContactFactoryCommand.setup_contact addr)
      cf_send ContactFactoryCommand.process_messages

    unfoldable pub make_contact : PduAddress → M (ModemManager Device) (Unit {0})
    make_contact addr = on_store (get_recipient_by_addr_opt l addr) >>= contact_missing addr

    unfoldable pub cmgl_complete : (ℕ → ℕ) → List SmsMessage → M (ModemManager Device) (Unit {0})
    cmgl_complete clock msgs = do
      on_store (store_all l clock msgs)
      cf_send ContactFactoryCommand.process_messages
      λ s. if_running (get_modem s.inner) (spawn Job.del_sms_pdu) done s

  -- What the spawned futures do when they end. command_timeout! turns every error into a timeout.
  unfoldable pub listed : Result (List SmsMessage) → M (ModemManager Device) (Unit {0})
  listed (ok results) = int_send (ModemCommand.cmgl_complete results)
  listed _ =
      int_send ModemCommand.command_timeout
      >> int_send (ModemCommand.cmgl_failed "Modem command timeout reached")

  unfoldable pub registration_got : Result String → M (ModemManager Device) (Unit {0})
  registration_got (ok res) =
      cb_send (ControlBotCommand.command_response ("Registration state: \u{2}" <> res <> "\u{f}"))
  registration_got _ = int_send ModemCommand.command_timeout

  unfoldable pub signal_quality_got : Result (ℕ × ℕ) → M (ModemManager Device) (Unit {0})
  signal_quality_got (ok (rssi, ber)) = cb_send (
      ControlBotCommand.command_response
        ("RSSI: \u{2}" <> show rssi <> "\u{f} | BER: \u{2}" <> show ber <> "\u{f}"))
  signal_quality_got _ = int_send ModemCommand.command_timeout

  unfoldable pub deleted : Result (Unit {0}) → M (ModemManager Device) (Unit {0})
  deleted (ok u) = done
  deleted _ = int_send ModemCommand.command_timeout

  unfoldable pub message_sent :
      Libs → PduAddress → Result (Unit {0}) → M (ModemManager Device) (Unit {0})
  message_sent l addr (err e) = cb_send (
      ControlBotCommand.report_failure
        ("Failed to send message to " <> l.show_address addr <> ": " <> e))
  message_sent l addr _ = done
