-- ===== src/Tests/Parts.antt =====
-- src/whatsapp_ack.rs, src/whatsapp_conn.rs, src/irc_s2c_registration.rs, src/sender_common.rs: the
-- theorems at concrete inputs.
use Prim.Native.String.{String}
use mathlib.Core.Logic.{◌≢◌, ∥∥₁_elim}
use mathlib.Core.List.{Memᴰ, Permᴰ, Nodup, Pairwise, not-mem-nil}
use sms_irc.Base.{
  ℕ, ◌≡◌, ◌≤◌, refl, true, false, List, [], ◌∷◌, map, Option, none, some, Result, ok, arith, length,
  is_panic, done, ◌++◌,
}
use sms_irc.Extern.{Jid}
use sms_irc.Sender.{concat_texts, sort_parts}
use sms_irc.Sender.Parts.{sequences, concat_texts-Perm}
use sms_irc.WhatsappAck.{MessageAckLevel, MessageSendStatus, WaAckTracker, lookup}
use sms_irc.WhatsappAck.Alerts.{AckOp, run, run-reports}
use sms_irc.WhatsappAck.Replay.{replay, run-replay}
use sms_irc.WhatsappAck.Retention.{run-remembers}
use sms_irc.WhatsappConn
use sms_irc.WhatsappConn.{WebConnectionWrapper, WrapperState, Answer, Polled, with_inner}
use sms_irc.WhatsappConn.Life.{Outcome, poll-Outcome, retries, poll-reconnects}
use sms_irc.Registration
use sms_irc.Registration.{PendingIrcConnection, Received, Command, CapSubCommand, from_incoming}
use sms_irc.Registration.Steps.{Paired}
use sms_irc.Registration.Handshake.{completes, poll-Safe}
use sms_irc.Registration.Waits.{Turn, polls, polls_ls-Waits}

abbrev parts : List (ℕ × String)
parts = (2, "lo") ∷ (1, "hel") ∷ []

abbrev parts_in_order : List (ℕ × String)
parts_in_order = (1, "hel") ∷ (2, "lo") ∷ []

two-not-in : (a : ℕ) → Memᴰ a (1 ∷ []) → 2 ≢ a
two-not-in a (Memᴰ.head e) h = ground (arith, e, h)
two-not-in a (Memᴰ.tail d) h = absurd (not-mem-nil ∣ d ∣₁)

parts-Nodup : Nodup (sequences parts)
parts-Nodup =
    Pairwise.cons (λ a m. λ h. ∥∥₁_elim {P = ⊥} m (λ x y. absurd x) (λ d. two-not-in a d h))
      (Pairwise.cons (λ a m. absurd (not-mem-nil m)) Pairwise.nil)

concat_texts-Perm_example :
    concat_texts (sort_parts parts) ≡ concat_texts (sort_parts parts_in_order)
concat_texts-Perm_example =
    concat_texts-Perm parts parts_in_order ∣ Permᴰ.swap refl refl ∣₁ parts-Nodup

abbrev ann : Jid
ann = record { id = "ann"; is_group = false }

abbrev waiting_message : MessageSendStatus String
waiting_message = record {
  ack_level = none;
  sent_ts = 1000;
  content = "hi";
  destination = ann;
  unsent = true;
  alerted = false;
  alerted_pending = false;
}

abbrev tracker : WaAckTracker String
tracker = record {
  cb = [];
  outgoing_messages = ("m1", waiting_message) ∷ [];
  ack_warn = 5000;
  ack_warn_pending = 10000;
  ack_expiry = 60000;
}

abbrev late : ℕ
late = 90000000000

abbrev ops : List (AckOp String)
ops =
    AckOp.tick late
    ∷ AckOp.tick late
    ∷ AckOp.acked "m1" MessageAckLevel.error
    ∷ AckOp.tick late
    ∷ []

run-reports_example : length (run ops tracker).cb ≤ 3
run-reports_example = run-reports ops tracker

run-replay_example :
    lookup "m1" (run ops tracker).outgoing_messages
    ≡ replay (5000, 10000, 60000) "m1" ops (some waiting_message)
run-replay_example = run-replay ops "m1" tracker (refl, tt)

run-remembers_example :
    (mss' : MessageSendStatus String) × (lookup "m1"
        (run (map AckOp.tick (late ∷ late ∷ [])) tracker).outgoing_messages
      ≡ some mss')
    × (mss'.ack_level ≡ none)
    × (mss'.content ≡ "hi")
    × (mss'.destination ≡ ann)
run-remembers_example =
    run-remembers (late ∷ late ∷ []) "m1" tracker waiting_message (refl, tt) refl refl

abbrev wrapper : WebConnectionWrapper String ℕ
wrapper = record {
  inner = WrapperState.running 1;
  persist = some "session";
  backoff_time_ms = 5000;
}

abbrev answers : List (Answer ℕ String)
answers = Answer.event "message" ∷ []

poll-Outcome_example :
    let r = WhatsappConn.poll answers wrapper in Outcome wrapper.inner wrapper r.0 r.1
poll-Outcome_example = poll-Outcome answers wrapper

poll-reconnects_example :
    let r = WhatsappConn.poll {Event = String} (Answer.failed "gone" ∷ []) wrapper in
    let attempt =
      WhatsappConn.poll {Event = String}
        (retries ("refused" ∷ "refused" ∷ []) (Answer.delay_ready ∷ []))
        r.1 in
    (r.0 ≡ Polled.item_failed "gone")
    × (attempt
        ≡ (Polled.not_ready, with_inner (WrapperState.initializing (some "session")) wrapper, []))
    × (WhatsappConn.poll {Event = String}
          (Answer.connected 2 ∷ Answer.event "message" ∷ [])
          attempt.1
        ≡ (Polled.item "message", with_inner (WrapperState.running 2) wrapper, []))
poll-reconnects_example =
    poll-reconnects "gone" ("refused" ∷ "refused" ∷ []) 1 2 "message" wrapper refl

-- A message as its command and its last argument.
abbrev new_message :
    Option String → String → List String → Option String → Result (String × Option String)
new_message source cmd args suffix = ok (cmd, suffix)

abbrev fresh : PendingIrcConnection (String × Option String)
fresh = from_incoming new_message

abbrev greetings : List Received
greetings =
    Received.command (Command.nick "ann")
    ∷ Received.command (Command.raw "USER" ("ann" ∷ "0" ∷ []) none)
    ∷ []

poll-Safe_example :
    let r = Registration.poll new_message greetings done (ok true) fresh in
    Paired r.1 × (is_panic r.0 ≡ false)
poll-Safe_example =
    poll-Safe new_message (λ p c a s. refl) done (ok true) greetings fresh (λ s p. (p, refl)) refl
      refl

abbrev asks : Received
asks = Received.command (Command.cap none CapSubCommand.ls none none)

abbrev first_poll : Turn (String × Option String)
first_poll = record { received = greetings ++ asks ∷ greetings; send = done; flushed = ok true }

abbrev next_poll : Turn (String × Option String)
next_poll = record { received = greetings; send = done; flushed = ok true }

polls_ls-Waits_example : completes (polls new_message (first_poll ∷ next_poll ∷ []) fresh) ≡ false
polls_ls-Waits_example =
    polls_ls-Waits new_message (λ p c a s. refl) greetings greetings none none none first_poll
      (next_poll ∷ []) fresh refl (refl, (refl, tt)) (λ s p. (p, refl))
      (((λ s p. (p, refl)), (refl, (refl, tt))), tt)
