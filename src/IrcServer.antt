-- ===== src/IrcServer.antt =====
-- src/irc_s2c.rs: the server for registered clients, a client's connection and what it replies. The
-- sockets are not modelled; the store is the one database that all connections share.
pub mod Greeting
pub mod Client
pub mod Sweep
pub mod Accept
pub mod Poll
use sms_irc.Base.{
  ℕ, zero, suc, String, Bool, true, false, List, [], ◌∷◌, ◌++◌, Option, none, some, Result, ok, err,
  panic, M, ◌<>◌,
}
use sms_irc.Extern.{Libs}
use sms_irc.Models.{Group}
use sms_irc.Sender.{Clock}
use sms_irc.Store.{Store}
use sms_irc.Comm.{WhatsappCommand, ModemCommand, ContactFactoryCommand}
use sms_irc.Registration.{RegistrationInformation, server_name}

abbrev pub user_modes : String
user_modes = "i"

abbrev pub channel_modes : String
channel_modes = "nt"

abbrev pub motd : List String
motd =
    "Welcome to sms-irc!" ∷ "" ∷ "This is the experimental IRC server backend."
    ∷ "Please refer to https://git.theta.eu.org/sms-irc.git/about/"
    ∷ "for more information about sms-irc." ∷ ""
    ∷ "Alternatively, come and chat to us in #sms-irc on chat.freenode.net"
    ∷ "if you have comments or want help using the software!" ∷ []

-- The libraries, the clock, the irc crate's Message::new, and the package's version.
pub record Env (Message : Type 0) : Type 0 where
  pub libs : Libs
  pub clock : Clock
  pub new_message : Option String → String → List String → Option String → Result Message
  pub version : String

-- `ip` is the text of the client's address. A queue is a list, oldest first.
pub record IrcConnection (Message : Type 0) : Type 0 where
  pub ip : String
  pub reginfo : RegistrationInformation
  pub outbox : List Message
  pub store : Store
  pub joined_groups : List (String × Group)
  pub wa_outbox : List WhatsappCommand
  pub m_outbox : List ModemCommand
  pub cf_outbox : List ContactFactoryCommand
  pub new : Bool

module _ {Message : Type 0} where
  unfoldable pub from_pending : String → Store → RegistrationInformation → IrcConnection Message
  from_pending ip store reginfo = record {
    ip = ip;
    reginfo = reginfo;
    outbox = [];
    store = store;
    joined_groups = [];
    wa_outbox = [];
    m_outbox = [];
    cf_outbox = [];
    new = true;
  }

  -- `self.outbox.push(Message::new(…)?)`
  unfoldable pub push : Result Message → M (IrcConnection Message) (Unit {0})
  push (ok msg) c = (ok tt, record c { outbox = c.outbox ++ msg ∷ [] })
  push (err e) c = (err e, c)
  push panic c = (panic, c)

  -- `self.store.f(…)?`
  unfoldable pub on_store : {A : Type 0} → M Store A → M (IrcConnection Message) A
  on_store f c = let (r, st) = f c.store in (r, record c { store = st })

module _ {Message : Type 0} (e : Env Message) where
  unfoldable pub reply_s2c :
      String → List String → Option String → M (IrcConnection Message) (Unit {0})
  reply_s2c cmd args suffix c =
      push (e.new_message (some server_name) cmd (c.reginfo.nick ∷ args) suffix) c

  unfoldable pub reply_from_user :
      String → List String → Option String → M (IrcConnection Message) (Unit {0})
  reply_from_user cmd args suffix c =
      let host = c.reginfo.nick <> "!" <> c.reginfo.user <> "@" <> c.ip in
      push (e.new_message (some host) cmd args suffix) c

  unfoldable pub reply_from_nick :
      String → String → List String → Option String → M (IrcConnection Message) (Unit {0})
  reply_from_nick from cmd args suffix =
      push (e.new_message (some (from <> "!" <> from <> "@sms-irc.")) cmd args suffix)

  -- What the bridge says in the administrator's channel.
  unfoldable pub say_root : String → M (IrcConnection Message) (Unit {0})
  say_root text = push (e.new_message (some "root") "PRIVMSG" ("&smsirc" ∷ []) (some text))
