-- ===== src/IrcServer/Poll/Emptied.antt =====
-- src/irc_s2c.rs: what the poll of the server leaves in the outboxes of the clients.
use sms_irc.Base.{
  ◌≡◌, refl, sym, subst, ℕ, true, List, [], Result, ok, err, panic, is_ok, seq_ensures, All, arith,
}
use sms_irc.IrcServer.{IrcConnection, Env}
use sms_irc.IrcServer.Sweep.{sweep}
use sms_irc.IrcServer.Sweep.Outcome.{sweep-All, AllOf, Leaves}
use sms_irc.IrcServer.Accept.{IrcServer}
use sms_irc.IrcServer.Poll.{
  ClientTurn, Turn, polled, visit_client, keep_clients, poll_clients, poll, poll_client,
}
use sms_irc.IrcServer.Poll.Apart.{quiet, poll_clients-sweep}

abbrev pub IsEmptied : {Message : Type 0} → IrcConnection Message → Type 0
IsEmptied c = (c.wa_outbox ≡ []) × (c.m_outbox ≡ [])

module _ {Message : Type 0} (e : Env Message) where
  kept-IsEmptied :
      (r : Result (List (IrcConnection Message)) × IrcServer Message)
      → AllOf IsEmptied r.0
      → is_ok (keep_clients e r).0 ≡ true
      → All IsEmptied (keep_clients e r).1.connections
  kept-IsEmptied (ok cs, s) h n = h
  kept-IsEmptied (err x, s) h n = ground arith
  kept-IsEmptied (panic, s) h n = ground arith

  visit_client-IsEmptied :
      (clients : ℕ → ClientTurn) (i : ℕ) (c : IrcConnection Message) (s : IrcServer Message)
      → Leaves IsEmptied (visit_client e clients) (visit_client e clients i c s)
  unfolding visit_client
  visit_client-IsEmptied clients i c s =
      from (poll_client e (clients i) (record c { store = s.store }))
    where
      from :
          (r : Result (List Message) × IrcConnection Message)
          → Leaves IsEmptied (visit_client e clients) (polled e r s)
      from (ok ms, d) = (refl, refl)
      from (err x, d) = (refl, refl)
      from (panic, d) = tt

  -- After a poll of the server, the WhatsApp and modem commands of each of its clients have been passed
  -- on: none is left in the outbox of a connection.
  pub poll-IsEmptied :
      (t : Turn) (s : IrcServer Message)
      → is_ok (poll e t s).0 ≡ true
      → All IsEmptied (poll e t s).1.connections
  unfolding poll
  poll-IsEmptied t =
      seq_ensures (λ s. All IsEmptied s.connections) _ (poll_clients e t.clients)
        λ s.
          subst
            (λ (r : Result (Unit {0}) × IrcServer Message).
              is_ok r.0 ≡ true → All IsEmptied r.1.connections)
            (sym (poll_clients-sweep e t.clients quiet s).0)
            (kept-IsEmptied (sweep (visit_client e t.clients) 0 s.connections s) (
              sweep-All IsEmptied (visit_client e t.clients) (visit_client-IsEmptied t.clients) 0
                s.connections s))
