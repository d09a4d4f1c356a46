-- ===== src/WhatsappAck/Alerts.antt =====
-- src/whatsapp_ack.rs: how many alerts the tracker raises over its life.
use sms_irc.Base.{
  ℕ, ◌+◌, ◌≤◌, ◌≡◌, refl, String, Bool, List, [], ◌∷◌, Option, none, some, arith, if◌then◌else◌,
  keep, map, length, length-append, String_Eq, not,
}
use sms_irc.Extern.{Jid}
use sms_irc.Comm.{ControlBotCommand}
use sms_irc.WhatsappAck.{
  entry_checked, error_text, MessageAckLevel, MessageSendStatus, WaAckTracker, insert,
  register_send, is_unsent, extract_unsent, lookup, set_level, ack_known, on_message_ack,
  check_acks, alerts, entry_after, entry_alerts, retained,
}

-- What happens to a tracker.
pub data AckOp (C : Type 0) : Type 0 where
  register : ℕ → Jid → C → String → Bool → AckOp C
  extract : AckOp C
  acked : String → MessageAckLevel → AckOp C
  tick : ℕ → AckOp C

module _ {C : Type 0} where
  abbrev pub apply : AckOp C → WaAckTracker C → WaAckTracker C
  apply (AckOp.register now to content mid unsent) t = register_send now to content mid unsent t
  apply AckOp.extract t = (extract_unsent t).1
  apply (AckOp.acked mid level) t = on_message_ack mid level t
  apply (AckOp.tick now) t = check_acks now t

  abbrev pub run : List (AckOp C) → WaAckTracker C → WaAckTracker C
  run [] t = t
  run (op ∷ ops) t = run ops (apply op t)

  -- The reports that an operation can pay for: two alerts for a registered message, one for an ack.
  abbrev pub allowance : List (AckOp C) → ℕ
  allowance [] = 0
  allowance (AckOp.register now to content mid unsent ∷ ops) = 2 + allowance ops
  allowance (AckOp.extract ∷ ops) = allowance ops
  allowance (AckOp.acked mid level ∷ ops) = 1 + allowance ops
  allowance (AckOp.tick now ∷ ops) = allowance ops

  -- The alerts that an entry can still raise.
  abbrev left : MessageSendStatus C → ℕ
  left mss = (if mss.alerted then 0 else 1) + (if mss.alerted_pending then 0 else 1)

  abbrev pub budget : List (String × MessageSendStatus C) → ℕ
  budget [] = 0
  budget (e ∷ es) = left e.1 + budget es

  left-le : (mss : MessageSendStatus C) → left mss ≤ 2
  left-le mss = ground arith

  budget-keep :
      (p : String × MessageSendStatus C → Bool) (es : List (String × MessageSendStatus C))
      → budget (keep p es) ≤ budget es
  budget-keep p [] = omega arith
  budget-keep p (e ∷ es) = ground (arith, budget-keep p es)

  budget-insert :
      (mid : String) (mss : MessageSendStatus C) (es : List (String × MessageSendStatus C))
      → budget (insert mid mss es) ≤ 2 + budget es
  unfolding insert
  budget-insert mid mss [] = omega (arith, left-le mss)
  budget-insert mid mss (e ∷ es) = ground (arith, budget-insert mid mss es, left-le mss)

  budget-set_level :
      (mid : String) (level : MessageAckLevel) (es : List (String × MessageSendStatus C))
      → budget (set_level mid level es) ≡ budget es
  budget-set_level mid level [] = refl
  budget-set_level mid level (e ∷ es) = ground (arith, budget-set_level mid level es)

  module _ (warn warn_pending now : ℕ) where
    entry_alerts-left :
        (e : String × MessageSendStatus C)
        → length (entry_alerts warn warn_pending now e)
            + left (entry_after warn warn_pending now e.1)
          ≤ left e.1
    entry_alerts-left e = ground arith

    alerts-budget :
        (es : List (String × MessageSendStatus C))
        → length (alerts warn warn_pending now es)
            + budget (map (entry_checked warn warn_pending now) es)
          ≤ budget es
    unfolding alerts
    alerts-budget [] = omega arith
    alerts-budget (e ∷ es) = omega (
      arith,
      length-append (entry_alerts warn warn_pending now e) (alerts warn warn_pending now es),
      entry_alerts-left e,
      alerts-budget es,
    )

  check_acks-budget :
      (now : ℕ) (t : WaAckTracker C)
      → length (check_acks now t).cb + budget (check_acks now t).outgoing_messages
        ≤ length t.cb + budget t.outgoing_messages
  unfolding check_acks
  check_acks-budget now t =
      let checked = map (entry_checked t.ack_warn t.ack_warn_pending now) t.outgoing_messages in
      omega (
        arith,
        length-append t.cb (alerts t.ack_warn t.ack_warn_pending now t.outgoing_messages),
        alerts-budget t.ack_warn t.ack_warn_pending now t.outgoing_messages,
        budget-keep (λ e. retained t.ack_expiry now e.1) checked,
      )

  ack_known-budget :
      (mid : String) (level : MessageAckLevel) (t : WaAckTracker C)
      (o : Option (MessageSendStatus C))
      → length (ack_known mid level t o).cb + budget (ack_known mid level t o).outgoing_messages
        ≤ 1 + length t.cb + budget t.outgoing_messages
  ack_known-budget mid level t none = omega arith
  ack_known-budget mid MessageAckLevel.error t (some mss) = omega (
    arith,
    length-append t.cb (ControlBotCommand.report_failure (error_text mid) ∷ []),
    budget-set_level mid MessageAckLevel.error t.outgoing_messages,
  )
  ack_known-budget mid MessageAckLevel.pending_send t (some mss) =
      omega (arith, budget-set_level mid MessageAckLevel.pending_send t.outgoing_messages)
  ack_known-budget mid (MessageAckLevel.other s) t (some mss) =
      omega (arith, budget-set_level mid (MessageAckLevel.other s) t.outgoing_messages)

  on_message_ack-budget :
      (mid : String) (level : MessageAckLevel) (t : WaAckTracker C)
      → length (on_message_ack mid level t).cb
          + budget (on_message_ack mid level t).outgoing_messages
        ≤ 1 + length t.cb + budget t.outgoing_messages
  unfolding on_message_ack
  on_message_ack-budget mid level t = ack_known-budget mid level t (lookup mid t.outgoing_messages)

  -- Over any run, the reports sent are at most two for each message registered (and for those that were
  -- there) and one for each ack: the ticks of the timer, however many, repeat no alert.
  pub run-reports :
      (ops : List (AckOp C)) (t : WaAckTracker C)
      → length (run ops t).cb ≤ length t.cb + budget t.outgoing_messages + allowance ops
  unfolding register_send extract_unsent
  run-reports [] t = omega arith
  run-reports (AckOp.register now to content mid unsent ∷ ops) t = omega (
    arith,
    run-reports ops (register_send now to content mid unsent t),
    budget-insert mid _ t.outgoing_messages,
  )
  run-reports (AckOp.extract ∷ ops) t = omega (
    arith,
    run-reports ops (extract_unsent t).1,
    budget-keep (λ e. not (is_unsent e)) t.outgoing_messages,
  )
  run-reports (AckOp.acked mid level ∷ ops) t =
      omega (arith, run-reports ops (on_message_ack mid level t), on_message_ack-budget mid level t)
  run-reports (AckOp.tick now ∷ ops) t =
      omega (arith, run-reports ops (check_acks now t), check_acks-budget now t)
