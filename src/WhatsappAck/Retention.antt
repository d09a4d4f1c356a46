-- ===== src/WhatsappAck/Retention.antt =====
-- src/whatsapp_ack.rs: which messages the tracker remembers, and what it hands back to be sent.
use sms_irc.Base.{
  ℕ, ◌+◌, ◌≡◌, refl, String, Bool, true, false, List, [], ◌∷◌, Option, none, some, arith,
  if◌then◌else◌, keep, map, length, ◌==◌, String_Eq, All, Distinct, Distinct-keep, Distinct-map,
  taken, any, not, if_intro, subst, eq_iff,
}
use sms_irc.WhatsappAck.{
  MessageAckLevel, MessageSendStatus, WaAckTracker, insert, register_send, is_unsent,
  extract_unsent, lookup, set_level, ack_known, on_message_ack, check_acks, retained, is_failure,
  entry_checked, entry_after,
}
use sms_irc.WhatsappAck.Alerts.{AckOp, apply, run}

-- A HashMap has one entry for each key.
abbrev pub IsMap : {C : Type 0} → WaAckTracker C → Type 0
IsMap t = Distinct (λ e. e.0) t.outgoing_messages

abbrev pub Entries : Type 0 → Type 0
Entries C = List (String × MessageSendStatus C)

module _ {C : Type 0} where
  taken-insert :
      (k mid : String) (mss : MessageSendStatus C) (es : Entries C)
      → (mid == k) ≡ false
      → taken (λ e. e.0) k es ≡ false
      → taken (λ e. e.0) k (insert mid mss es) ≡ false
  unfolding insert
  taken-insert k mid mss [] n h = ground arith
  taken-insert k mid mss (e ∷ es) n h = ground (arith, taken-insert k mid mss es n)

  Distinct-insert :
      (mid : String) (mss : MessageSendStatus C) (es : Entries C)
      → Distinct (λ e. e.0) es
      → Distinct (λ e. e.0) (insert mid mss es)
  unfolding insert
  Distinct-insert mid mss [] d = (refl, tt)
  Distinct-insert mid mss (e ∷ es) d =
      if_intro (λ r. Distinct (λ x. x.0) r) (e.0 == mid) ((mid, mss) ∷ es) (e ∷ insert mid mss es)
        (λ t. (subst (λ k. taken (λ x. x.0) k es ≡ false) ((eq_iff e.0 mid).0 t) d.0, d.1))
        (λ n. (
          taken-insert e.0 mid mss es (ground (arith, n, eq_iff e.0 mid, eq_iff mid e.0)) d.0,
          Distinct-insert mid mss es d.1,
        ))

  module _ (f : MessageSendStatus C → MessageSendStatus C) (p : MessageSendStatus C → Bool) where
    abbrev pub updated : Entries C → Entries C
    updated es = keep (λ e. p e.1) (map (λ e. (e.0, f e.1)) es)

    pub lookup-absent :
        (mid : String) (es : Entries C)
        → taken (λ e. e.0) mid es ≡ false
        → lookup mid (updated es) ≡ none
    lookup-absent mid [] h = refl
    lookup-absent mid (e ∷ es) h = ground (arith, lookup-absent mid es)

    pub lookup-updated :
        (mid : String) (es : Entries C) (mss : MessageSendStatus C)
        → Distinct (λ e. e.0) es
        → lookup mid es ≡ some mss
        → lookup mid (updated es) ≡ (if p (f mss) then some (f mss) else none)
    lookup-updated mid [] mss d h = ground arith
    lookup-updated mid (e ∷ es) mss d h =
        ground (arith, lookup-updated mid es mss d.1, lookup-absent mid es, eq_iff e.0 mid)

  set_level-keys :
      (k mid : String) (level : MessageAckLevel) (es : Entries C)
      → taken (λ e. e.0) k (set_level mid level es) ≡ taken (λ e. e.0) k es
  set_level-keys k mid level [] = refl
  set_level-keys k mid level (e ∷ es) = ground (arith, set_level-keys k mid level es)

  Distinct-set_level :
      (mid : String) (level : MessageAckLevel) (es : Entries C)
      → Distinct (λ e. e.0) es
      → Distinct (λ e. e.0) (set_level mid level es)
  Distinct-set_level mid level [] d = tt
  Distinct-set_level mid level (e ∷ es) d =
      ground (arith, Distinct-set_level mid level es d.1, set_level-keys e.0 mid level es)

  ack_known-IsMap :
      (mid : String) (level : MessageAckLevel) (t : WaAckTracker C)
      (o : Option (MessageSendStatus C))
      → IsMap t
      → IsMap (ack_known mid level t o)
  ack_known-IsMap mid level t none d = d
  ack_known-IsMap mid MessageAckLevel.error t (some mss) d =
      Distinct-set_level mid MessageAckLevel.error t.outgoing_messages d
  ack_known-IsMap mid MessageAckLevel.pending_send t (some mss) d =
      Distinct-set_level mid MessageAckLevel.pending_send t.outgoing_messages d
  ack_known-IsMap mid (MessageAckLevel.other s) t (some mss) d =
      Distinct-set_level mid (MessageAckLevel.other s) t.outgoing_messages d

  pub apply-IsMap : (op : AckOp C) (t : WaAckTracker C) → IsMap t → IsMap (apply op t)
  unfolding register_send extract_unsent on_message_ack check_acks
  apply-IsMap (AckOp.register now to content mid unsent) t d =
      Distinct-insert mid _ t.outgoing_messages d
  apply-IsMap AckOp.extract t d =
      Distinct-keep (λ e. e.0) (λ e. not (is_unsent e)) t.outgoing_messages d
  apply-IsMap (AckOp.acked mid level) t d =
      ack_known-IsMap mid level t (lookup mid t.outgoing_messages) d
  apply-IsMap (AckOp.tick now) t d =
      Distinct-keep (λ e. e.0) (λ e. retained t.ack_expiry now e.1) _
        (Distinct-map (λ e. e.0) (entry_checked t.ack_warn t.ack_warn_pending now) (λ e. refl)
          t.outgoing_messages d)

  -- What a tick does to a message that is remembered: it is forgotten exactly when it was acknowledged
  -- beyond PendingSend and its time has expired.
  pub check_acks-lookup :
      (now : ℕ) (mid : String) (t : WaAckTracker C) (mss : MessageSendStatus C)
      → IsMap t
      → lookup mid t.outgoing_messages ≡ some mss
      → lookup mid (check_acks now t).outgoing_messages ≡ (
          if retained t.ack_expiry now mss
          then some (entry_after t.ack_warn t.ack_warn_pending now mss)
          else none)
  unfolding check_acks
  check_acks-lookup now mid t mss d h =
      lookup-updated (entry_after t.ack_warn t.ack_warn_pending now) (retained t.ack_expiry now) mid
        t.outgoing_messages mss d h

  -- A message that WhatsApp has not acknowledged beyond PendingSend is never forgotten, however often
  -- and however late the timer ticks.
  pub run-remembers :
      (times : List ℕ) (mid : String) (t : WaAckTracker C) (mss : MessageSendStatus C)
      → IsMap t
      → lookup mid t.outgoing_messages ≡ some mss
      → is_failure mss.ack_level ≡ true
      → (mss' : MessageSendStatus C) × (lookup mid (run (map AckOp.tick times) t).outgoing_messages
          ≡ some mss')
        × (mss'.ack_level ≡ mss.ack_level)
        × (mss'.content ≡ mss.content)
        × (mss'.destination ≡ mss.destination)
  run-remembers [] mid t mss d h f = (mss, h, refl, refl, refl)
  run-remembers (now ∷ times) mid t mss d h f =
      let kept = check_acks-lookup now mid t mss d h in
      run-remembers times mid (check_acks now t) (entry_after t.ack_warn t.ack_warn_pending now mss)
        (apply-IsMap (AckOp.tick now) t d) (ground (arith, kept)) f

  -- Extracting splits the remembered messages: all that it returns were unsent, all that it leaves are
  -- not, and none is lost.
  pub extract_unsent-splits :
      (t : WaAckTracker C)
      → All (λ m. m.unsent ≡ true) (extract_unsent t).0
        × (any is_unsent (extract_unsent t).1.outgoing_messages ≡ false)
        × (length (extract_unsent t).0 + length (extract_unsent t).1.outgoing_messages
            ≡ length t.outgoing_messages)
  unfolding extract_unsent
  extract_unsent-splits t =
      (extracted t.outgoing_messages, kept t.outgoing_messages, counted t.outgoing_messages)
    where
      extracted : (es : Entries C) → All (λ m. m.unsent ≡ true) (map (λ e. e.1) (keep is_unsent es))
      extracted [] = tt
      extracted (e ∷ es) = ground (arith, extracted es)

      kept : (es : Entries C) → any is_unsent (keep (λ e. not (is_unsent e)) es) ≡ false
      kept [] = refl
      kept (e ∷ es) = ground (arith, kept es)

      counted :
          (es : Entries C)
          → length (map (λ e. e.1) (keep is_unsent es)) + length (keep (λ e. not (is_unsent e)) es)
            ≡ length es
      counted [] = refl
      counted (e ∷ es) = ground (arith, counted es)

  -- The table of outgoing messages keeps one entry for each message id, whatever happens.
  pub run-IsMap : (ops : List (AckOp C)) (t : WaAckTracker C) → IsMap t → IsMap (run ops t)
  run-IsMap [] t d = d
  run-IsMap (op ∷ ops) t d = run-IsMap ops (apply op t) (apply-IsMap op t d)
