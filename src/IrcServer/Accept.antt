-- ===== src/IrcServer/Accept.antt =====
-- src/irc_s2c.rs: the state of the server, and how a client gets to be one of its connections.
use sms_irc.Base.{
  ℕ, String, Bool, true, false, List, [], ◌∷◌, ◌++◌, Option, none, some, Result, ok, err, panic, M,
  fail, modify,
}
use sms_irc.Util.Outbox.{sink}
use sms_irc.Store.{Store}
use sms_irc.Comm.{WhatsappCommand, ModemCommand, ContactFactoryCommand, ControlBotCommand}
use sms_irc.Registration
use sms_irc.Registration.{PendingIrcConnection, RegistrationInformation, from_incoming}
use sms_irc.IrcServer.{IrcConnection, Env, from_pending}
use sms_irc.IrcServer.Sweep.{each, close}

-- A client that has not registered yet, with the text of its address.
pub record PendingClient (Message : Type 0) : Type 0 where
  pub ip : String
  pub inner : PendingIrcConnection Message

-- The listener's incoming connections are an argument of `poll`. `cf` and `cb` hold what is queued on
-- cf_rx and cb_rx, `wa` and `m` what was sent on wa_tx and m_tx, oldest first. A sender of each of the
-- four is alive as long as the server, so neither `unwrap` nor "stopped" happens.
pub record IrcServer (Message : Type 0) : Type 0 where
  pub cf : List ContactFactoryCommand
  pub cb : List ControlBotCommand
  pub wa : List WhatsappCommand
  pub m : List ModemCommand
  pub store : Store
  pub connections : List (IrcConnection Message)
  pub pending : List (PendingClient Message)

-- What the socket of a pending client gives until it is not ready, and what it says to the messages of
-- the outbox; `complete` is the last `poll_complete`.
pub record PendingTurn : Type 0 where
  pub received : List Registration.Received
  pub answers : List (Result Bool)
  pub flushed : Result (Unit {0})
  pub complete : Result Bool

-- What the listener gives: the address of a client, its end, or the error of the codec or of itself.
pub data Incoming : Type 0 where
  accepted : String → Incoming
  stopped : Incoming
  refused : String → Incoming

module _ {Message : Type 0} (e : Env Message) where
  abbrev pub send_pending : PendingTurn → M (PendingIrcConnection Message) (Unit {0})
  send_pending t conn =
      let sunk = sink conn.outbox t.answers t.flushed in
      (sunk.result, record conn { outbox = sunk.kept })

  abbrev pub accept : Incoming → M (IrcServer Message) (Unit {0})
  accept (Incoming.accepted ip) = modify λ s. record s {
    pending = s.pending ++ record { ip = ip; inner = from_incoming e.new_message } ∷ [];
  }
  accept Incoming.stopped = fail "TCP listener stopped"
  accept (Incoming.refused x) = fail x

  -- A client that completes its registration joins the connections, and is to leave the pending ones.
  abbrev pub registered :
      String
      → Result (Option RegistrationInformation) × PendingIrcConnection Message
      → IrcServer Message
      → Result Bool × PendingClient Message × IrcServer Message
  registered ip (ok (some reginfo), conn) s = (
    ok true,
    record { ip = ip; inner = conn },
    record s { connections = s.connections ++ from_pending ip s.store reginfo ∷ [] },
  )
  registered ip (ok none, conn) s = (ok false, record { ip = ip; inner = conn }, s)
  registered ip (err x, conn) s = (ok true, record { ip = ip; inner = conn }, s)
  registered ip (panic, conn) s = (panic, record { ip = ip; inner = conn }, s)

  unfoldable pub visit_pending :
      (ℕ → PendingTurn)
      → ℕ
      → PendingClient Message
      → IrcServer Message
      → Result Bool × PendingClient Message × IrcServer Message
  visit_pending turns i p s =
      let t = turns i in
      registered p.ip
        (Registration.poll e.new_message t.received (send_pending t) t.complete p.inner) s

  -- The vector is written back where no client's poll panics; a panic ends the program.
  abbrev pub keep_pending :
      Result (List (PendingClient Message)) × IrcServer Message
      → Result (Unit {0}) × IrcServer Message
  keep_pending (ok ps, s) = (ok tt, record s { pending = ps })
  keep_pending (err x, s) = (err x, s)
  keep_pending (panic, s) = (panic, s)

  unfoldable pub poll_pending : (ℕ → PendingTurn) → M (IrcServer Message) (Unit {0})
  poll_pending turns s = keep_pending (close (each (visit_pending turns) 0 s.pending s))
