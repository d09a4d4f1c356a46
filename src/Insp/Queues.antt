-- ===== src/Insp/Queues.antt =====
-- src/insp_s2s.rs, poll: the loops over the commands of the other parts.
use sms_irc.Base.{
  ◌≡◌, refl, sym, subst, List, [], ◌∷◌, arith, length, M, Result, ok, err, panic, continue,
}
use sms_irc.Comm.{ContactFactoryCommand, ControlBotCommand}
use sms_irc.Insp.{InspLink, Env}
use sms_irc.Insp.Commands.{handle_cf_command, handle_cb_command}
use sms_irc.Insp.Poll.{drain, take_cb, take_cf, drain_cb, drain_cf}
use sms_irc.Insp.Keeps.{KeepsQuiet}
use sms_irc.Insp.Keeps.Writes.{KeepsContacts}
use sms_irc.Insp.Keeps.Commands.{handle_cf_command-Keeps, handle_cb_command-Keeps}

-- A computation that succeeds ends in a state with the property.
abbrev Ends : {S : Type 0} → (S → Type 0) → Result (Unit {0}) × S → Type 0
Ends P r = r.0 ≡ ok tt → P r.1

continue-Ends :
    {S : Type 0} (P Q : S → Type 0) (m : M S (Unit {0})) (r : Result (Unit {0}) × S)
    → P r.1
    → ((s : S) → P s → Ends Q (m s))
    → Ends Q (continue (λ _. m) r)
continue-Ends P Q m (ok tt, s) p h = h s p
continue-Ends P Q m (err e, s) p h = λ x. absurd (ground arith)
continue-Ends P Q m (panic, s) p h = λ x. absurd (ground arith)

module _ {Message : Type 0} where
  abbrev CfIs : List ContactFactoryCommand → InspLink Message → Type 0
  CfIs q s = s.cf ≡ q

  abbrev CbIs : List ControlBotCommand → InspLink Message → Type 0
  CbIs q s = s.cb ≡ q

  keeps_cf : (q : List ContactFactoryCommand) → KeepsContacts (CfIs q)
  keeps_cf q = record {
    quiet = record {
      outbox = λ o s p. p;
      stored = λ st s p. p;
      channels = λ c s p. p;
      topics = λ t s p. p;
      contact = λ a f same s p. p;
    };
    wa = λ c s p. p;
    m = λ c s p. p;
    cb = λ c s p. p;
    user = λ uuid f s p. p;
    minted = λ user s small p. p;
    added = λ user a wa o s small new p. p;
    dropped = λ uuid s p. p;
    removed = λ a s p. p;
  }

  keeps_cb : (q : List ControlBotCommand) → KeepsQuiet (CbIs q)
  keeps_cb q = record {
    outbox = λ o s p. p;
    stored = λ st s p. p;
    channels = λ c s p. p;
    topics = λ t s p. p;
    contact = λ a f same s p. p;
  }

module _ {Message : Type 0} (e : Env Message) where
  drain_cf_from :
      (q : List ContactFactoryCommand) (s : InspLink Message)
      → Ends (CfIs []) (drain take_cf (handle_cf_command e) (length q) (record s { cf = q }))
  unfolding drain
  drain_cf_from [] s = λ h. refl
  drain_cf_from (c ∷ cs) s =
      continue-Ends (CfIs cs) (CfIs []) (drain take_cf (handle_cf_command e) (length cs))
        (handle_cf_command e c (record s { cf = cs }))
        (handle_cf_command-Keeps (CfIs cs) (keeps_cf cs) e c (record s { cf = cs }) refl)
        (λ t p.
          subst
            (λ x.
              Ends (CfIs [])
                (drain take_cf (handle_cf_command e) (length cs) (record t { cf = x })))
            (sym p) (drain_cf_from cs t))

  drain_cb_from :
      (q : List ControlBotCommand) (s : InspLink Message)
      → Ends (CbIs []) (drain take_cb (handle_cb_command e) (length q) (record s { cb = q }))
  unfolding drain
  drain_cb_from [] s = λ h. refl
  drain_cb_from (c ∷ cs) s =
      continue-Ends (CbIs cs) (CbIs []) (drain take_cb (handle_cb_command e) (length cs))
        (handle_cb_command e c (record s { cb = cs }))
        (handle_cb_command-Keeps (CbIs cs) (keeps_cb cs) e c (record s { cb = cs }) refl)
        (λ t p.
          subst
            (λ x.
              Ends (CbIs [])
                (drain take_cb (handle_cb_command e) (length cs) (record t { cb = x })))
            (sym p) (drain_cb_from cs t))

  -- The rounds that the loops over the queued commands are given are enough: where no command fails, each
  -- ends with its queue empty, since no handler puts into the queue that it serves.
  pub drain_empty :
      (s : InspLink Message)
      → (drain_cb e s).0 ≡ ok tt
      → (drain_cf e s).0 ≡ ok tt
      → ((drain_cb e s).1.cb ≡ []) × ((drain_cf e s).1.cf ≡ [])
  drain_empty s hb hf = (drain_cb_from s.cb s hb, drain_cf_from s.cf s hf)
