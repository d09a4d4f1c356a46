-- ===== src/Tests/Modems.antt =====
-- src/modem.rs: the theorems at concrete inputs.
use sms_irc.Base.{is_some, arith, refl, ℕ, ◌≡◌, Bool, true, false, List, [], ◌∷◌, some}
use sms_irc.Extern.{SmsMessage}
use sms_irc.Modem
use sms_irc.Modem.{
  make_contact, ModemInner, ModemManager, Answer, get_modem, cmgl_complete, report_error,
}
use sms_irc.Modem.Inner.{Settles, attempts, poll-Settles, report_error-restarts}
use sms_irc.Modem.Incoming.{Completes, cmgl_complete-Completes}
use sms_irc.Comm.{ModemCommand}
use sms_irc.Modem.Manager.{poll_manager}
use sms_irc.Modem.Manager.Fuel.{poll_manager-ends}
use sms_irc.Modem.Contacts.{Made, make_contact-Made}
use sms_irc.Tests.World.{libs, address, store}

abbrev opened : List (Answer ℕ)
opened = Answer.init_failed "busy" ∷ Answer.delay_ready ∷ Answer.initialized 7 ∷ []

poll-Settles_example :
    let r = Modem.poll (some "/dev/modem") 5000 opened ModemInner.uninitialized in
    Settles {Device = ℕ} ModemInner.uninitialized r.0 r.1
poll-Settles_example = poll-Settles (some "/dev/modem") 5000 opened ModemInner.uninitialized

report_error-restarts_example :
    Modem.poll {Device = ℕ}
      (some "/dev/modem")
      5000
      (attempts ("busy" ∷ "busy" ∷ []) (Answer.delay_ready ∷ Answer.initialized 7 ∷ []))
      (report_error 0 (ModemInner.running 6))
    ≡ (true, ModemInner.running 7, [])
report_error-restarts_example =
    report_error-restarts "/dev/modem" 5000 0 ("busy" ∷ "busy" ∷ []) 7 (ModemInner.running 6)

abbrev sms : Bool → SmsMessage
sms unread = record {
  unread = unread;
  pdu = record { originating_address = address; message_data = [] };
  raw_pdu = 1 ∷ 2 ∷ [];
}

abbrev manager : ModemManager ℕ
manager = record {
  modem_path = some "/dev/modem";
  delay_ms = 5000;
  inner = ModemInner.running 7;
  store = record store { faults = [] };
  cf = [];
  int = [];
  cb = [];
  jobs = [];
}

abbrev listing : List SmsMessage
listing = sms true ∷ sms false ∷ sms true ∷ []

cmgl_complete-Completes_example :
    Completes libs listing (some 7) manager (cmgl_complete libs (λ n. n) listing manager)
cmgl_complete-Completes_example =
    cmgl_complete-Completes libs (λ n. n) (λ pdu. refl) listing manager

abbrev turned_off : List (Answer ℕ)
turned_off =
    Answer.urc true
    ∷ Answer.urc_closed
    ∷ Answer.delay_ready
    ∷ Answer.initialized 8
    ∷ Answer.urc_closed
    ∷ []

poll_manager-ends_example :
    is_some (
      poll_manager libs
        (λ s. [])
        (λ n. n)
        6
        (ModemCommand.force_reinit ∷ ModemCommand.make_contact address ∷ [])
        turned_off
        manager)
    ≡ true
poll_manager-ends_example =
    poll_manager-ends libs (λ s. []) (λ n. n) 6
      (ModemCommand.force_reinit ∷ ModemCommand.make_contact address ∷ []) turned_off manager
      (ground arith)

make_contact-Made_example : Made libs address manager (make_contact libs address manager)
make_contact-Made_example = make_contact-Made libs address manager
