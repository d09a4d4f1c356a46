-- ===== src/IrcServer/Poll.antt =====
-- src/irc_s2c.rs: the polls of a client's connection and of the server.
pub mod Apart
pub mod Emptied
use sms_irc.Base.{
  ℕ, String, Bool, true, false, List, [], ◌∷◌, ◌++◌, Option, none, some, Result, ok, err, panic, M,
  ◌>>=◌, ◌>>◌, done, fail, modify, for_each,
}
use sms_irc.Util.Outbox.{Sunk, sink, replace}
use sms_irc.Store.{Store}
use sms_irc.Comm.{WhatsappCommand, ModemCommand, ContactFactoryCommand, ControlBotCommand}
use sms_irc.Registration
use sms_irc.Registration.{PendingIrcConnection, RegistrationInformation, from_incoming}
use sms_irc.IrcServer.{IrcConnection, Env, from_pending}
use sms_irc.IrcServer.Greeting.{on_new}
use sms_irc.IrcServer.Client.{Command, handle_control, handle_remote_message, process_messages}
use sms_irc.IrcServer.Sweep.{each, close}
use sms_irc.IrcServer.Accept.{IrcServer, Incoming, PendingTurn, accept, poll_pending}

-- What a poll of a client's socket gives: a message, the end of the stream, or its error.
pub data Received : Type 0 where
  message : Command → Received
  disconnected : Received
  broken : String → Received

-- What the socket of a client gives until it is not ready, and what it says to the messages of the
-- outbox.
pub record ClientTurn : Type 0 where
  pub received : List Received
  pub answers : List (Result Bool)
  pub flushed : Result (Unit {0})

-- The client at each position of the two vectors has its own turn.
pub record Turn : Type 0 where
  pub incoming : List Incoming
  pub pending : ℕ → PendingTurn
  pub clients : ℕ → ClientTurn

-- Whether a client's poll makes the server forget it.
abbrev pub closes {ℓ} : {A : Type ℓ} → Result A → Result Bool
closes (ok a) = ok false
closes (err e) = ok true
closes panic = panic

abbrev pub forget {ℓ} : {A : Type ℓ} → Result A → Result (Unit {0})
forget (ok a) = ok tt
forget (err e) = err e
forget panic = panic

module _ {Message : Type 0} (e : Env Message) where
  abbrev pub received : Received → M (IrcConnection Message) (Unit {0})
  received (Received.message msg) = handle_remote_message e msg
  received Received.disconnected = fail "Socket disconnected"
  received (Received.broken x) = fail x

  abbrev pub greet : Bool → M (IrcConnection Message) (Unit {0})
  greet true = modify (λ c. record c { new = false }) >> on_new e
  greet false = done

  abbrev pub send_client : ClientTurn → M (IrcConnection Message) (List Message)
  send_client t c =
      let sunk = sink c.outbox t.answers t.flushed in
      (replace sunk.result sunk.sent, record c { outbox = sunk.kept })

  -- The result is what has been sent.
  unfoldable pub poll_client : ClientTurn → M (IrcConnection Message) (List Message)
  poll_client t c = (greet c.new >> for_each t.received received >> send_client t) c

  -- The vector is written back where no client's poll panics; a panic ends the program.
  abbrev pub keep_clients :
      Result (List (IrcConnection Message)) × IrcServer Message
      → Result (Unit {0}) × IrcServer Message
  keep_clients (ok cs, s) = (ok tt, record s { connections = cs })
  keep_clients (err x, s) = (err x, s)
  keep_clients (panic, s) = (panic, s)

  -- The connections share the database of the server.
  abbrev pub told :
      Result (Unit {0}) × IrcConnection Message
      → IrcServer Message
      → Result Bool × IrcConnection Message × IrcServer Message
  told (r, c) s = (closes r, c, record s { store = c.store })

  abbrev pub tell_one :
      M (IrcConnection Message) (Unit {0})
      → ℕ
      → IrcConnection Message
      → IrcServer Message
      → Result Bool × IrcConnection Message × IrcServer Message
  tell_one f i c s = told (f (record c { store = s.store })) s

  abbrev pub all_told :
      Result (List ℕ) × List (IrcConnection Message) × IrcServer Message
      → Result (Unit {0}) × IrcServer Message
  all_told (r, cs, s) = (forget r, record s { connections = cs })

  -- `for c in self.connections.iter_mut() { if let Err(e) = f(c) { warn!(…); } }`
  unfoldable pub tell_all : M (IrcConnection Message) (Unit {0}) → M (IrcServer Message) (Unit {0})
  tell_all f s = all_told (each (tell_one f) 0 s.connections s)

  abbrev pub control_all : ControlBotCommand → M (IrcServer Message) (Unit {0})
  control_all cmd = tell_all (handle_control e cmd)

  abbrev pub handle_contact : ContactFactoryCommand → M (IrcServer Message) (Unit {0})
  handle_contact ContactFactoryCommand.process_messages = tell_all (process_messages e)
  handle_contact _ = done

  unfoldable pub drain_controls : List ControlBotCommand → M (IrcServer Message) (Unit {0})
  drain_controls [] = done
  drain_controls (c ∷ cs) = modify (λ s. record s { cb = cs }) >> control_all c >> drain_controls cs

  unfoldable pub drain_contacts : List ContactFactoryCommand → M (IrcServer Message) (Unit {0})
  drain_contacts [] = done
  drain_contacts (c ∷ cs) =
      modify (λ s. record s { cf = cs }) >> handle_contact c >> drain_contacts cs

  abbrev pub drain_cb : M (IrcServer Message) (Unit {0})
  drain_cb s = drain_controls s.cb s

  abbrev pub drain_cf : M (IrcServer Message) (Unit {0})
  drain_cf s = drain_contacts s.cf s

  abbrev pub passed_on :
      Result Bool
      → IrcConnection Message
      → IrcServer Message
      → Result Bool × IrcConnection Message × IrcServer Message
  passed_on closed c s = (
    closed,
    record c { wa_outbox = []; m_outbox = [] },
    record s { store = c.store; wa = s.wa ++ c.wa_outbox; m = s.m ++ c.m_outbox },
  )

  -- The outboxes are passed on whether or not the poll fails; a panic comes before that.
  abbrev pub polled :
      Result (List Message) × IrcConnection Message
      → IrcServer Message
      → Result Bool × IrcConnection Message × IrcServer Message
  polled (ok msgs, c) s = passed_on (ok false) c s
  polled (err x, c) s = passed_on (ok true) c s
  polled (panic, c) s = (panic, c, record s { store = c.store })

  unfoldable pub visit_client :
      (ℕ → ClientTurn)
      → ℕ
      → IrcConnection Message
      → IrcServer Message
      → Result Bool × IrcConnection Message × IrcServer Message
  visit_client turns i c s = polled (poll_client (turns i) (record c { store = s.store })) s

  unfoldable pub poll_clients : (ℕ → ClientTurn) → M (IrcServer Message) (Unit {0})
  poll_clients turns s = keep_clients (close (each (visit_client turns) 0 s.connections s))

  unfoldable pub poll : Turn → M (IrcServer Message) (Unit {0})
  poll t =
      for_each t.incoming (accept e)
      >> poll_pending e t.pending
      >> drain_cb
      >> drain_cf
      >> poll_clients t.clients
