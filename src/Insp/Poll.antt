-- ===== src/Insp/Poll.antt =====
-- src/insp_s2s.rs, poll: the loop over the messages of the remote server and over the commands.
use sms_irc.Base.{
  ℕ, zero, suc, String, Bool, List, [], ◌∷◌, Option, none, some, Result, ok, M, ◌>>=◌, ◌>>◌, done,
  fail, for_each, if◌then◌else◌, String_Eq, length,
}
use sms_irc.Extern.{PduAddress_Eq}
use sms_irc.Comm.{ContactFactoryCommand, ControlBotCommand}
use sms_irc.Util.Outbox.{sink, replace}
use sms_irc.Insp.{InspLink, Env, RemoteMessage, LinkState, is_linked, is_connected_only}
use sms_irc.Insp.Commands.{handle_cf_command, handle_cb_command}
use sms_irc.Insp.Burst.{set_state, do_capab_and_server}
use sms_irc.Insp.Remote.{handle_remote_message}

-- What a poll of the connection gives: a message, its end, or its error.
pub data Received : Type 0 where
  message : RemoteMessage → Received
  disconnected : Received
  broken : String → Received

module _ {Message : Type 0} where
  abbrev pub next_cb : List ControlBotCommand → M (InspLink Message) (Option ControlBotCommand)
  next_cb [] s = (ok none, s)
  next_cb (c ∷ cs) s = (ok (some c), record s { cb = cs })

  abbrev pub take_cb : M (InspLink Message) (Option ControlBotCommand)
  take_cb s = next_cb s.cb s

  abbrev pub next_cf :
      List ContactFactoryCommand → M (InspLink Message) (Option ContactFactoryCommand)
  next_cf [] s = (ok none, s)
  next_cf (c ∷ cs) s = (ok (some c), record s { cf = cs })

  abbrev pub take_cf : M (InspLink Message) (Option ContactFactoryCommand)
  take_cf s = next_cf s.cf s

  abbrev pub handled :
      {C : Type 0}
      → (C → M (InspLink Message) (Unit {0}))
      → M (InspLink Message) (Unit {0})
      → Option C
      → M (InspLink Message) (Unit {0})
  handled handle rest none = done
  handled handle rest (some c) = handle c >> rest

  -- `while let Async::Ready(c) = self.rx.poll().unwrap() { self.handle(c)?; }`
  unfoldable pub drain :
      {C : Type 0}
      → M (InspLink Message) (Option C)
      → (C → M (InspLink Message) (Unit {0}))
      → ℕ
      → M (InspLink Message) (Unit {0})
  drain take handle zero = done
  drain take handle (suc fuel) = let rest = drain take handle fuel in take >>= handled handle rest

  -- `sink_outbox!(self, outbox, conn, "")`
  unfoldable pub send_outbox :
      List (Result Bool) → Result (Unit {0}) → M (InspLink Message) (List Message)
  send_outbox answers flushed s =
      let sunk = sink s.outbox answers flushed in
      (replace sunk.result sunk.sent, record s { outbox = sunk.kept })

module _ {Message : Type 0} (e : Env Message) where
  abbrev pub received : Received → M (InspLink Message) (Unit {0})
  received (Received.message msg) = handle_remote_message e msg
  received Received.disconnected = fail "disconnected"
  received (Received.broken x) = fail x

  abbrev pub greet : M (InspLink Message) (Unit {0})
  greet s =
      if is_connected_only s.state
      then (do_capab_and_server e >> set_state LinkState.server_sent) s
      else (ok tt, s)

  -- What is queued when the loop begins bounds its rounds.
  abbrev pub drain_cb : M (InspLink Message) (Unit {0})
  drain_cb s = drain take_cb (handle_cb_command e) (length s.cb) s

  abbrev pub drain_cf : M (InspLink Message) (Unit {0})
  drain_cf s = drain take_cf (handle_cf_command e) (length s.cf) s

  abbrev pub serve : M (InspLink Message) (Unit {0})
  serve s = if is_linked s.state then (drain_cb >> drain_cf) s else (ok tt, s)

  -- `rs` is what the connection gives until it is not ready, and `answers` and `flushed` what it says
  -- to the messages of the outbox. The result is what has been sent.
  unfoldable pub poll :
      List Received → List (Result Bool) → Result (Unit {0}) → M (InspLink Message) (List Message)
  poll rs answers flushed = greet >> for_each rs received >> serve >> send_outbox answers flushed
