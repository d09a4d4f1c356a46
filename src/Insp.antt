-- ===== src/Insp.antt =====
-- src/insp_s2s.rs: the link to an InspIRCd server, its state, and what it sends. The sockets and the
-- tasks are not modelled; the outbox and the channels to the other parts are lists of what they carry.
pub mod Users
pub mod Groups
pub mod Holder
pub mod Messages
pub mod Commands
pub mod Burst
pub mod Remote
pub mod Poll
pub mod Keeps
pub mod Uuids
pub mod Consistent
pub mod Handshake
pub mod Calm
pub mod Nicks
pub mod Queues
pub mod Setup
use sms_irc.Base.{
  ℕ, String, Bool, true, false, List, [], ◌∷◌, ◌++◌, Option, none, some, ℤ, Result, ok, err, panic,
  M, ◌<>◌,
}
use sms_irc.Extern.{Libs, PduAddress}
use sms_irc.Sender.{Clock}
use sms_irc.Store.{Store}
use sms_irc.Comm.{WhatsappCommand, ModemCommand, ContactFactoryCommand, ControlBotCommand}
use sms_irc.InspUser.{InspUser}

-- src/config.rs; the port is only used to connect.
pub record InspConfig : Type 0 where
  pub sid : String
  pub control_nick : String
  pub admin_nick : String
  pub sendpass : String
  pub recvpass : String
  pub server_desc : String
  pub server_name : String
  pub log_chan : String
  pub set_topics : Bool
  pub clobber_topics : Bool
  pub ensure_joined : Bool

pub record InspContact : Type 0 where
  pub uuid : String
  pub channels : List String
  pub wa_mode : Bool

pub data LinkState : Type 0 where
  tcp_connected server_sent burst_sent linked : LinkState

abbrev pub is_linked : LinkState → Bool
is_linked linked = true
is_linked _ = false

abbrev pub is_connected_only : LinkState → Bool
is_connected_only tcp_connected = true
is_connected_only _ = false

-- The commands of the irc crate that the link tells apart.
pub data Command : Type 0 where
  error : String → Command
  privmsg kill squit : String → String → Command
  quit : Option String → Command
  ping : String → Option String → Command
  raw : String → List String → Option String → Command
  other : String → Command

pub record RemoteMessage : Type 0 where
  pub prefix : Option String
  pub command : Command

-- What the link takes from elsewhere: the libraries, the clocks, the irc crate's Message::new and
-- its FromStr, and the standard library's Debug, of a text and of
-- what `users.get` answers. `info` says whether the log's level lets lines at Info through: the
-- arguments of other lines are not computed.
pub record Env (Message : Type 0) : Type 0 where
  pub libs : Libs
  pub clock : Clock
  pub timestamp : ℤ
  pub new_message : Option String → String → List String → Option String → Result Message
  pub parse_message : String → Result Message
  pub info : Bool
  pub debug : String → String
  pub debug_user : Option InspUser → String

-- A HashSet of channels is a list without repetitions. `cf` and `cb` are the link's own channels,
-- from which it takes what itself and the other parts have put in.
pub record InspLink (Message : Type 0) : Type 0 where
  pub cfg : InspConfig
  pub control_uuid : String
  pub next_user_id : ℕ
  pub remote_sid : String
  pub cf : List ContactFactoryCommand
  pub cb : List ControlBotCommand
  pub wa : List WhatsappCommand
  pub m : List ModemCommand
  pub users : List (String × InspUser)
  pub contacts : List (PduAddress × InspContact)
  pub contacts_uuid_pdua : List (String × PduAddress)
  pub channel_topics : List (String × String)
  pub store : Store
  pub outbox : List Message
  pub channels : List String
  pub state : LinkState

module _ {Message : Type 0} where
  unfoldable pub new : InspConfig → Store → InspLink Message
  new cfg store = record {
    cfg = cfg;
    control_uuid = cfg.sid <> "A00000";
    next_user_id = 1;
    remote_sid = "XXX";
    cf = [];
    cb = [];
    wa = [];
    m = [];
    users = [];
    contacts = [];
    contacts_uuid_pdua = [];
    channel_topics = [];
    store = store;
    outbox = [];
    channels = [];
    state = tcp_connected;
  }

  unfoldable pub send : Message → M (InspLink Message) (Unit {0})
  send msg s = (ok tt, record s { outbox = s.outbox ++ msg ∷ [] })

  -- `self.outbox.push(Message::new(…)?)`
  unfoldable pub push : Result Message → M (InspLink Message) (Unit {0})
  unfolding send
  push (ok msg) s = send msg s
  push (err e) s = (err e, s)
  push panic s = (panic, s)

  -- `self.store.f(…)?`
  unfoldable pub on_store : {A : Type 0} → M Store A → M (InspLink Message) A
  on_store f s = let (r, st) = f s.store in (r, record s { store = st })

  unfoldable pub send_sid_line :
      Env Message → String → List String → Option String → M (InspLink Message) (Unit {0})
  send_sid_line e cmd args suffix s = push (e.new_message (some s.cfg.sid) cmd args suffix) s
