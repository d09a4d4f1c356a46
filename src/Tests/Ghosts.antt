-- ===== src/Tests/Ghosts.antt =====
-- src/contact.rs, src/contact_factory.rs, src/control.rs: the theorems at a contact, a factory and a bot.
use sms_irc.Factory.{ContactFactory, handle, process_groups}
use sms_irc.Factory.Poll
use sms_irc.Factory.Poll.{Turn, drain, start_each, poll_starting, poll_each, poll_contacts, retry}
use sms_irc.Factory.Poll.Keeps.{IsSingle}
use sms_irc.Factory.Poll.Single.{poll-IsSingle}
use sms_irc.Sender.{Clock}
use sms_irc.Base.{
  is_panic, insert, adjust, erase, arith, ◌≡◌, ◌>>◌, refl, false, [], ◌∷◌, none, some, ok, pos,
}
use sms_irc.Models.{Recipient}
use sms_irc.Comm.{ContactManagerCommand, ContactFactoryCommand}
use sms_irc.ControlBot
use sms_irc.ControlBot.{ControlBot, clear_log_backlog}
use sms_irc.ControlBot.Backlog.{log_all, log_all-clear_log_backlog}
use sms_irc.Contact.{
  Sent, send, handle_int_rx, process_messages, update_away, ContactManager, new, add_command,
}
use sms_irc.Contact.Remote.{drain_rx, Command, Received, poll}
use sms_irc.Contact.Keeps.{Waiting}
use sms_irc.Contact.Quiet.{poll-Waiting}
use sms_irc.Tests.World.{libs, address, store}

abbrev world_clock : Clock
world_clock = record { now = 0; local_date = λ n. "date"; local_time = λ n. "time" }

abbrev ann : Recipient
ann = record {
  id = 1;
  phone_number = "9144";
  nick = "Ann";
  whatsapp = false;
  avatar_url = none;
  notify = none;
  nicksrc = pos 0;
}

abbrev contact : ContactManager
contact =
    add_command ContactManagerCommand.process_messages (new "admin" none "Ann" address ann store)

waits : Waiting store.messages contact
unfolding new add_command
waits = (refl, refl)

-- The server has not ended its MOTD, and the administrator writes to the contact.
poll-Waiting_example :
    Waiting store.messages
      (poll libs world_clock
        (ok tt)
        (Received.message
            (record { prefix = some "admin!a@b"; command = Command.privmsg "Ann" "hi" })
          ∷ [])
        (ok tt)
        contact).1
poll-Waiting_example =
    poll-Waiting libs world_clock store.messages (ok tt) _ (ok tt) contact (refl, tt) waits

abbrev bot : ControlBot
bot = ControlBot.new "#sms" "admin" none store

quiet : (bot.connected ≡ false) × (bot.answers ≡ [])
unfolding ControlBot.new
quiet = (refl, refl)

log_all-clear_log_backlog_example : (log_all ("one" ∷ "two" ∷ []) >> clear_log_backlog) bot ≡ (
  ok tt,
  record bot { log_backlog = []; sent = Sent.notice "#sms" "one" ∷ Sent.notice "#sms" "two" ∷ [] },
)
unfolding ControlBot.new
log_all-clear_log_backlog_example =
    log_all-clear_log_backlog ("one" ∷ "two" ∷ []) bot quiet.0 quiet.1

abbrev factory : ContactFactory
factory = record {
  rx = ContactFactoryCommand.process_groups ∷ [];
  cb = [];
  wa = [];
  m = [];
  contacts_starting = (address, ann) ∷ [];
  contacts = [];
  contacts_presence = (address, some "away") ∷ [];
  failed_contacts = [];
  messages_processed = [];
  store = store;
}

-- The contact has started.
abbrev turn : Turn
turn = record {
  starting = λ a. ok (some contact);
  contacts = λ a. record { before = ok tt; received = []; after = ok tt };
  ticks = [];
}

single : IsSingle factory
single a = ground arith

turned : is_panic (Poll.poll libs world_clock turn factory).0 ≡ false
unfolding Poll.poll drain handle process_groups start_each poll_starting poll_each poll_contacts
    retry insert adjust erase poll send add_command new handle_int_rx process_messages update_away
    drain_rx
turned = refl

poll-IsSingle_example : IsSingle (Poll.poll libs world_clock turn factory).1
poll-IsSingle_example = poll-IsSingle libs world_clock turn factory single turned
