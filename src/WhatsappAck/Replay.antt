-- ===== src/WhatsappAck/Replay.antt =====
-- src/whatsapp_ack.rs: the tracker against one automaton for each message id.
use sms_irc.Base.{
  ◌≡◌, refl, sym, ap, ◌∙◌, ℕ, String, Bool, false, not, List, [], ◌∷◌, Option, none, some, arith,
  if◌then◌else◌, keep, map, map_value, ◌==◌, String_Eq, Distinct, eq_iff,
}
use sms_irc.WhatsappAck.{
  MessageAckLevel, MessageSendStatus, WaAckTracker, insert, register_send, is_unsent,
  extract_unsent, lookup, set_level, ack_known, on_message_ack, check_acks, retained, entry_after,
}
use sms_irc.WhatsappAck.Alerts.{AckOp, apply, run}
use sms_irc.WhatsappAck.Retention.{IsMap, Entries, apply-IsMap, updated, lookup-absent}

-- The thresholds of a tracker: those of the two alerts, and the expiry.
abbrev pub Limits : Type 0
Limits = ℕ × ℕ × ℕ

module _ {C : Type 0} where
  abbrev pub limits : WaAckTracker C → Limits
  limits t = (t.ack_warn, t.ack_warn_pending, t.ack_expiry)

  abbrev kept_if : Bool → MessageSendStatus C → Option (MessageSendStatus C)
  kept_if b mss = if b then some mss else none

  abbrev after :
      (MessageSendStatus C → MessageSendStatus C)
      → (MessageSendStatus C → Bool)
      → Option (MessageSendStatus C)
      → Option (MessageSendStatus C)
  after f p none = none
  after f p (some mss) = kept_if (p (f mss)) (f mss)

  -- What happens to one message: it is registered, it is handed back if it is unsent, its acks are
  -- noted, and a tick marks its alerts and forgets it when it is acknowledged and expired.
  abbrev pub step :
      Limits → String → AckOp C → Option (MessageSendStatus C) → Option (MessageSendStatus C)
  step c mid (AckOp.register now to content key unsent) o =
      if key == mid
      then some (record {
        ack_level = none;
        sent_ts = now;
        content = content;
        destination = to;
        unsent = unsent;
        alerted = false;
        alerted_pending = false;
      })
      else o
  step c mid AckOp.extract o = after (λ m. m) (λ m. not m.unsent) o
  step c mid (AckOp.acked key level) o =
      if key == mid then map_value (λ m. record m { ack_level = some level }) o else o
  step (warn, warn_pending, expiry) mid (AckOp.tick now) o =
      after (entry_after warn warn_pending now) (retained expiry now) o

  abbrev pub replay :
      Limits → String → List (AckOp C) → Option (MessageSendStatus C) → Option (MessageSendStatus C)
  replay c mid [] o = o
  replay c mid (op ∷ ops) o = replay c mid ops (step c mid op o)

  lookup-insert :
      (mid key : String) (mss : MessageSendStatus C) (es : Entries C)
      → lookup mid (insert key mss es) ≡ (if key == mid then some mss else lookup mid es)
  unfolding insert
  lookup-insert mid key mss [] = refl
  lookup-insert mid key mss (e ∷ es) =
      ground (arith, lookup-insert mid key mss es, eq_iff e.0 key, eq_iff e.0 mid, eq_iff key mid)

  lookup-set_level :
      (mid key : String) (level : MessageAckLevel) (es : Entries C)
      → lookup mid (set_level key level es) ≡ (
          if key == mid
          then map_value (λ m. record m { ack_level = some level }) (lookup mid es)
          else lookup mid es)
  lookup-set_level mid key level [] = ground arith
  lookup-set_level mid key level (e ∷ es) =
      ground
        (arith, lookup-set_level mid key level es, eq_iff e.0 key, eq_iff e.0 mid, eq_iff key mid)

  module _ (f : MessageSendStatus C → MessageSendStatus C) (p : MessageSendStatus C → Bool) where
    lookup-after :
        (mid : String) (es : Entries C)
        → Distinct (λ e. e.0) es
        → lookup mid (updated f p es) ≡ after f p (lookup mid es)
    lookup-after mid [] d = refl
    lookup-after mid (e ∷ es) d =
        ground (arith, lookup-after mid es d.1, lookup-absent f p mid es, eq_iff e.0 mid)

  map-same : (es : Entries C) → map (λ e. (e.0, e.1)) es ≡ es
  map-same [] = refl
  map-same (e ∷ es) = ap (λ xs. e ∷ xs) (map-same es)

  ack_known-lookup :
      (mid key : String) (level : MessageAckLevel) (t : WaAckTracker C)
      (o : Option (MessageSendStatus C))
      → lookup key t.outgoing_messages ≡ o
      → lookup mid (ack_known key level t o).outgoing_messages
        ≡ step (limits t) mid (AckOp.acked key level) (lookup mid t.outgoing_messages)
  ack_known-lookup mid key level t none h = ground (arith, eq_iff key mid, h)
  ack_known-lookup mid key level t (some mss) h =
      ap (λ es. lookup mid es) (noted level) ∙ lookup-set_level mid key level t.outgoing_messages
    where
      noted :
          (v : MessageAckLevel)
          → (ack_known key v t (some mss)).outgoing_messages ≡ set_level key v t.outgoing_messages
      noted MessageAckLevel.error = refl
      noted MessageAckLevel.pending_send = refl
      noted (MessageAckLevel.other s) = refl

  ack_known-limits :
      (key : String) (level : MessageAckLevel) (t : WaAckTracker C)
      (o : Option (MessageSendStatus C))
      → limits (ack_known key level t o) ≡ limits t
  ack_known-limits key level t none = refl
  ack_known-limits key MessageAckLevel.error t (some mss) = refl
  ack_known-limits key MessageAckLevel.pending_send t (some mss) = refl
  ack_known-limits key (MessageAckLevel.other s) t (some mss) = refl

  apply-limits : (op : AckOp C) (t : WaAckTracker C) → limits (apply op t) ≡ limits t
  unfolding register_send extract_unsent on_message_ack check_acks
  apply-limits (AckOp.register now to content key unsent) t = refl
  apply-limits AckOp.extract t = refl
  apply-limits (AckOp.acked key level) t =
      ack_known-limits key level t (lookup key t.outgoing_messages)
  apply-limits (AckOp.tick now) t = refl

  lookup-apply :
      (mid : String) (op : AckOp C) (t : WaAckTracker C)
      → IsMap t
      → lookup mid (apply op t).outgoing_messages
        ≡ step (limits t) mid op (lookup mid t.outgoing_messages)
  unfolding register_send extract_unsent on_message_ack check_acks
  lookup-apply mid (AckOp.register now to content key unsent) t d =
      lookup-insert mid key _ t.outgoing_messages
  lookup-apply mid AckOp.extract t d =
      ap (λ es. lookup mid (keep (λ e. not (is_unsent e)) es)) (sym (map-same t.outgoing_messages))
      ∙ lookup-after (λ m. m) (λ m. not m.unsent) mid t.outgoing_messages d
  lookup-apply mid (AckOp.acked key level) t d =
      ack_known-lookup mid key level t (lookup key t.outgoing_messages) refl
  lookup-apply mid (AckOp.tick now) t d =
      lookup-after (entry_after t.ack_warn t.ack_warn_pending now) (retained t.ack_expiry now) mid
        t.outgoing_messages d

  -- The table of a tracker implements one automaton for each message id: after any run, what it
  -- remembers of an id is what that automaton makes of the run, so no message is affected by what
  -- happens to another.
  pub run-replay :
      (ops : List (AckOp C)) (mid : String) (t : WaAckTracker C)
      → IsMap t
      → lookup mid (run ops t).outgoing_messages
        ≡ replay (limits t) mid ops (lookup mid t.outgoing_messages)
  run-replay [] mid t d = refl
  run-replay (op ∷ ops) mid t d =
      run-replay ops mid (apply op t) (apply-IsMap op t d)
      ∙ ap (λ c. replay c mid ops (lookup mid (apply op t).outgoing_messages)) (apply-limits op t)
      ∙ ap (replay (limits t) mid ops) (lookup-apply mid op t d)
