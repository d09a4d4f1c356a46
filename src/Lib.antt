-- ===== src/Lib.antt =====
-- sms-irc: a bridge that brings SMS messages (through a Huawei modem) and WhatsApp messages (through
-- WhatsApp Web) to IRC, where each correspondent is a ghost user and each group a channel.
--
-- The parts and how they interact. The modem and WhatsApp managers write what they receive to the
-- database and tell the contact factory, whose contact managers (or the InspIRCd link, or the IRC
-- server) read it back, send it over IRC in fragments, and delete it. The administrator's messages
-- are parsed into commands, which are forwarded to those parts over their channels.
--
-- Files (paths are from the repository's root):
--   Base         the shared names: tests, lists, texts, results, and the state monad
--   Extern       the data and functions of other crates; the functions are the parameter Libs
--   Util         src/util.rs: names for IRC and the normal form of addresses
--     Util/Outbox the macro sink_outbox; Util/Names, Util/Address: laws
--   Models       src/models.rs: the rows of the tables
--   Store        src/store.rs, migrations/: Tables is the database, Recipients, Messages and Groups hold
--                one function for each method of Store; Laws: Recipients
--                (what is known after a history of Calls, row by row in Rows) and Listed
--   Comm         src/comm.rs: the commands that the parts send one another
--   Admin        src/admin.rs: the commands and their parsers; Admin/Help the pages; Admin/Laws
--   Control      src/control_common.rs: ControlCommon is the record of the trait's required methods, and
--                process_admin_command, with its arms run_command, the provided one; Typed
--   Sender       src/sender_common.rs: Sender is the record of the required methods, and
--                send_raw_message, process_msg_plain and process_msg_pdu the provided ones;
--                Fragments, Losses, Parts
--   Contacts     src/contact_common.rs: ContactManagerManager is the record of the required methods, and
--                setup_recipient and the functions after it the provided ones; Setup
--   Contact      src/contact.rs: ContactManager with its handlers; Remote the messages of the IRC server
--                and the poll; Keeps, Quiet
--   Factory      src/contact_factory.rs: ContactFactory with its handlers and its
--                ContactManagerManager; Poll the poll; Poll/Keeps, Poll/Single
--   ControlBot   src/control.rs: ControlBot with its handlers, its ControlCommon and its poll; Backlog
--   WhatsappAck  src/whatsapp_ack.rs: WaAckTracker with its methods, print_acks in Print; Alerts,
--                Retention, Replay
--   WhatsappConn src/whatsapp_conn.rs: WebConnectionWrapper with its methods and its poll; Life
--   Modem        src/modem.rs: ModemInner with its poll, and ModemManager with its handlers; a spawned
--                future is a Job, and listed, deleted, message_sent, registration_got and
--                signal_quality_got are what they do when they end; Modem/Manager its poll,
--                with one arm of `handle` for each command; Inner, Incoming,
--                Contacts, Manager/Fuel
--   IrcV3        src/irc_s2c_v3.rs
--   Registration src/irc_s2c_registration.rs: PendingIrcConnection, handle_remote_message, is_done and
--                the poll of its wrapper; Steps, Handshake, Waits
--   IrcServer    src/irc_s2c.rs: IrcConnection and what it replies; Greeting has on_new and the lines of
--                names, Client the handlers, the ControlCommon and the Sender, Sweep the loops over a
--                vector, Accept the server and its pending clients, Poll the two polls; Greeting/Names,
--                Sweep/Once, Sweep/Outcome, Poll/Apart, Poll/Emptied
--   InspUser     src/insp_user.rs: the users that the link knows of; Line
--   Insp         src/insp_s2s.rs: InspLink and what it sends; Users has the nicks and ids, Groups the
--                channels, Holder the ContactManagerManager, Messages the Sender, Commands the
--                ControlCommon and the commands of the other parts, Burst the handshake, Remote the
--                messages of the remote server, Poll the poll; Keeps says which writes the handlers are
--                made of, Consistent, Handshake, Calm, Nicks, Uuids, Queues and Setup what follows
--   Tests        the theorems at concrete inputs; World has concrete functions in the place of Libs
--
-- How the code is modelled. A method on `&mut self` is a function of the state that returns the state
-- on every branch, with Result's ok, err and panic (a failed unwrap, expect or index). A channel's
-- output is a list, oldest first; its receiver lives as long as the sender. A hash map is an
-- association list with one entry for each key, in the order that its iterator takes. Futures, sockets
-- and timers are the sequences of what they answer, and one that has no answer left is not ready; an irc
-- client takes what it is given once its answers have ended. Times are natural numbers, in the unit that
-- the file names; a cast to u64 wraps at 2^64. The database refuses statements by a schedule
-- of faults, and by its own constraints. Log lines are left out.
--
-- Bounds and fuel. A loop is a structural recursion, over a list or over the answers of a future, but
-- for four: the decimal printing of a number has a fuel of one more than the number, which is more
-- than its digits, and poll_modem, which report_modem_error calls again, has a fuel that is enough
-- when it exceeds the number of answers (Modem.Manager.Fuel), since every call again drops a receiver
-- that has stopped. The search for a nick has a fuel of two
-- more than the users (Insp.Nicks), and the link's loops over its commands the length of the queue that
-- they begin with (Insp.Queues).
--
-- Not modelled: the start of the program and its configuration, logging, the connection to the database
-- with its migrations, and the WhatsApp manager with its messages and media (src/whatsapp.rs,
-- src/whatsapp_msg.rs, src/whatsapp_media.rs).
pub mod Base
pub mod Extern
pub mod Util
pub mod Models
pub mod Store
pub mod Comm
pub mod Admin
pub mod Control
pub mod Sender
pub mod WhatsappAck
pub mod WhatsappConn
pub mod IrcV3
pub mod Registration
pub mod Insp
pub mod InspUser
pub mod IrcServer
pub mod Contact
pub mod ControlBot
pub mod Contacts
pub mod Factory
pub mod Modem
pub mod Tests
