-- ===== src/IrcServer/Poll/Apart.antt =====
-- src/irc_s2c.rs: that the clients of the server do not disturb one another.
use sms_irc.Base.{
  ◌≡◌, refl, ap, sym, subst, Option, none, some, ℕ, String, false, List, [], ◌∷◌, Result, ok, err,
  panic, M, ◌>>◌, is_err, Flawless, seq-Flawless, for_each-Flawless, for_each, All,
}
use sms_irc.Comm.{ControlBotCommand, ContactFactoryCommand}
use sms_irc.Registration.{PendingIrcConnection, RegistrationInformation}
use sms_irc.IrcServer.{IrcConnection, Env}
use sms_irc.IrcServer.Client.{handle_control, process_messages}
use sms_irc.IrcServer.Sweep.{each, sweep}
use sms_irc.IrcServer.Sweep.Once.{close-sweep}
use sms_irc.IrcServer.Sweep.Outcome.{each-flawless, sweep-flawless}
use sms_irc.IrcServer.Accept.{
  IrcServer, PendingTurn, PendingClient, Incoming, accept, registered, visit_pending, keep_pending,
  poll_pending,
}
use sms_irc.IrcServer.Poll.{
  ClientTurn, Turn, closes, forget, tell_one, tell_all, handle_contact, drain_controls,
  drain_contacts, drain_cb, drain_cf, polled, visit_client, keep_clients, poll_clients, poll,
  poll_client, control_all,
}

abbrev pub IsAccepted : Incoming → Type 0
IsAccepted i = (ip : String) × i ≡ Incoming.accepted ip

-- A turn in which no client's socket gives anything.
abbrev idle : ℕ → ClientTurn
idle i = record { received = []; answers = []; flushed = ok tt }

abbrev pub quiet : ℕ → PendingTurn
quiet i = record { received = []; answers = []; flushed = ok tt; complete = ok false }

forget-flawless : {A : Type 0} (r : Result A) → is_err r ≡ false → is_err (forget r) ≡ false
forget-flawless (ok a) h = refl
forget-flawless (err e) h = h
forget-flawless panic h = refl

module _ {Message : Type 0} (e : Env Message) where
  -- Collecting the indices of the clients whose polls fail and removing them afterwards, from the last
  -- one, leaves the same as one pass that keeps each client whose poll succeeds: in their order, none
  -- removed for another, and no index out of range. The same holds of the pending clients.
  pub poll_clients-sweep :
      (clients : ℕ → ClientTurn) (pending : ℕ → PendingTurn) (s : IrcServer Message)
      → (poll_clients e clients s
          ≡ keep_clients e (sweep (visit_client e clients) 0 s.connections s))
        × (poll_pending e pending s
            ≡ keep_pending e (sweep (visit_pending e pending) 0 s.pending s))
  unfolding poll_clients poll_pending
  poll_clients-sweep clients pending s = (
    ap (keep_clients e) (close-sweep (visit_client e clients) s.connections s),
    ap (keep_pending e) (close-sweep (visit_pending e pending) s.pending s),
  )

  registered-flawless :
      (ip : String) (r : Result (Option RegistrationInformation) × PendingIrcConnection Message)
      (s : IrcServer Message)
      → is_err (registered e ip r s).0 ≡ false
  registered-flawless ip (ok (some i), c) s = refl
  registered-flawless ip (ok none, c) s = refl
  registered-flawless ip (err x, c) s = refl
  registered-flawless ip (panic, c) s = refl

  visit_pending-flawless :
      (pending : ℕ → PendingTurn) (i : ℕ) (p : PendingClient Message) (s : IrcServer Message)
      → is_err (visit_pending e pending i p s).0 ≡ false
  unfolding visit_pending
  visit_pending-flawless pending i p s = registered-flawless p.ip _ s

  keep_pending-flawless :
      (r : Result (List (PendingClient Message)) × IrcServer Message)
      → is_err r.0 ≡ false
      → is_err (keep_pending e r).0 ≡ false
  keep_pending-flawless (ok ps, s) h = refl
  keep_pending-flawless (err x, s) h = h
  keep_pending-flawless (panic, s) h = refl

  poll_pending-Flawless : (pending : ℕ → PendingTurn) → Flawless (poll_pending e pending)
  poll_pending-Flawless pending s =
      subst (λ r. is_err r.0 ≡ false) (sym (poll_clients-sweep idle pending s).1)
        (keep_pending-flawless (sweep (visit_pending e pending) 0 s.pending s)
          (sweep-flawless (visit_pending e pending) (visit_pending-flawless pending) 0 s.pending s))

  tell_one-flawless :
      (f : M (IrcConnection Message) (Unit {0})) (i : ℕ) (c : IrcConnection Message)
      (s : IrcServer Message)
      → is_err (tell_one e f i c s).0 ≡ false
  tell_one-flawless f i c s = from (f (record c { store = s.store })).0
    where
      from : (r : Result (Unit {0})) → is_err (closes r) ≡ false
      from (ok u) = refl
      from (err x) = refl
      from panic = refl

  tell_all-Flawless : (f : M (IrcConnection Message) (Unit {0})) → Flawless (tell_all e f)
  unfolding tell_all
  tell_all-Flawless f s =
      forget-flawless (each (tell_one e f) 0 s.connections s).0
        (each-flawless (tell_one e f) (tell_one-flawless f) 0 s.connections s)

  handle_contact-Flawless : (cfc : ContactFactoryCommand) → Flawless (handle_contact e cfc)
  handle_contact-Flawless ContactFactoryCommand.process_messages =
      tell_all-Flawless (process_messages e)
  handle_contact-Flawless _ = λ s. refl

  drain_controls-Flawless : (cs : List ControlBotCommand) → Flawless (drain_controls e cs)
  unfolding drain_controls
  drain_controls-Flawless [] s = refl
  drain_controls-Flawless (c ∷ cs) s =
      seq-Flawless (control_all e c) (drain_controls e cs) (tell_all-Flawless (handle_control e c))
        (drain_controls-Flawless cs) (record s { cb = cs })

  drain_contacts-Flawless : (cs : List ContactFactoryCommand) → Flawless (drain_contacts e cs)
  unfolding drain_contacts
  drain_contacts-Flawless [] s = refl
  drain_contacts-Flawless (c ∷ cs) s =
      seq-Flawless (handle_contact e c) (drain_contacts e cs) (handle_contact-Flawless c)
        (drain_contacts-Flawless cs) (record s { cf = cs })

  visit_client-flawless :
      (clients : ℕ → ClientTurn) (i : ℕ) (c : IrcConnection Message) (s : IrcServer Message)
      → is_err (visit_client e clients i c s).0 ≡ false
  unfolding visit_client
  visit_client-flawless clients i c s =
      from (poll_client e (clients i) (record c { store = s.store }))
    where
      from : (r : Result (List Message) × IrcConnection Message) → is_err (polled e r s).0 ≡ false
      from (ok ms, d) = refl
      from (err x, d) = refl
      from (panic, d) = refl

  keep_clients-flawless :
      (r : Result (List (IrcConnection Message)) × IrcServer Message)
      → is_err r.0 ≡ false
      → is_err (keep_clients e r).0 ≡ false
  keep_clients-flawless (ok cs, s) h = refl
  keep_clients-flawless (err x, s) h = h
  keep_clients-flawless (panic, s) h = refl

  poll_clients-Flawless : (clients : ℕ → ClientTurn) → Flawless (poll_clients e clients)
  poll_clients-Flawless clients s =
      subst (λ r. is_err r.0 ≡ false) (sym (poll_clients-sweep clients quiet s).0)
        (keep_clients-flawless (sweep (visit_client e clients) 0 s.connections s) (
          sweep-flawless (visit_client e clients) (visit_client-flawless clients) 0 s.connections
            s))

  accept-Flawless : (i : Incoming) → IsAccepted i → Flawless (accept e i)
  accept-Flawless (Incoming.accepted ip) h s = refl
  accept-Flawless Incoming.stopped h s = cc
  accept-Flawless (Incoming.refused x) h s = cc

  -- The poll of the server returns an error only where the listener ends or fails: the errors of
  -- the clients, of their sockets and of the handling of their messages remove the client they come
  -- from or are dropped, and do not end the server, nor does a command that is queued. A panic is
  -- not ruled out.
  pub poll-is_err :
      (t : Turn) (s : IrcServer Message) → All IsAccepted t.incoming → is_err (poll e t s).0 ≡ false
  unfolding poll
  poll-is_err t s h =
      let taken = for_each t.incoming (accept e) in
      let joined = taken >> poll_pending e t.pending in
      let controlled = joined >> drain_cb e in
      let contacted = controlled >> drain_cf e in
      seq-Flawless contacted (poll_clients e t.clients)
        (seq-Flawless controlled (drain_cf e)
          (seq-Flawless joined (drain_cb e)
            (seq-Flawless taken (poll_pending e t.pending)
              (for_each-Flawless (accept e) IsAccepted accept-Flawless t.incoming h)
              (poll_pending-Flawless t.pending))
            (λ st. drain_controls-Flawless st.cb st))
          (λ st. drain_contacts-Flawless st.cf st))
        (poll_clients-Flawless t.clients) s
