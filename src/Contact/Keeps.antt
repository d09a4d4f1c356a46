-- ===== src/Contact/Keeps.antt =====
-- src/contact.rs: what the handlers of a contact that may not deliver leave as it is.
use sms_irc.Base.{
  ◌≡◌, String, Bool, true, false, ◌&&◌, List, [], ◌∷◌, ◌++◌, Option, none, some, Result, ok, err,
  panic, M, done, arith, if_intro, ◌==◌, String_Eq, Keeps, bind-Keeps, seq-Keeps, for_each-Keeps,
  contains, ℤ, sym, subst,
}
use sms_irc.Extern.{Libs, PduAddress}
use sms_irc.Models
use sms_irc.Models.{Recipient, Group}
use sms_irc.Comm.{ContactManagerCommand}
use sms_irc.Sender.{Clock}
use sms_irc.Store.{
  Store, connect, connect_by, update_recipient_wa, update_recipient_nick, get_groups_for_recipient,
  get_recipient_by_addr_opt, groups_of,
}
use sms_irc.Contact.{
  ContactManager, Sent, answered, send, on_store, join_groups, part_left, change_channels,
  update_away, follow_groups, process_groups, process_messages, change_nick, handle_int_rx,
}
use sms_irc.Contact.Remote.{handle_nick, handle_privmsg, sender_of, direct, drain_rx}

abbrev HasMessages : List Models.Message → Store → Type 0
HasMessages msgs st = st.messages ≡ msgs

module _ (l : Libs) (msgs : List Models.Message) where
  pub connect-Keeps : Keeps (HasMessages msgs) connect
  unfolding connect
  connect-Keeps st p = by (st.faults)
    where
      by : (faults : List Bool) → HasMessages msgs (connect_by faults st).1
      by [] = p
      by (true ∷ rest) = p
      by (false ∷ rest) = p

  pub update_recipient_wa-Keeps :
      (a : PduAddress) (b : Bool) → Keeps (HasMessages msgs) (update_recipient_wa l a b)
  unfolding update_recipient_wa
  update_recipient_wa-Keeps a b = seq-Keeps (HasMessages msgs) connect _ connect-Keeps (λ st p. p)

  pub update_recipient_nick-Keeps :
      (a : PduAddress) (n : String) (src : ℤ)
      → Keeps (HasMessages msgs) (update_recipient_nick l a n src)
  unfolding update_recipient_nick
  update_recipient_nick-Keeps a n src =
      seq-Keeps (HasMessages msgs) connect _ connect-Keeps (λ st p. p)

  pub get_groups_for_recipient-Keeps :
      (a : PduAddress) → Keeps (HasMessages msgs) (get_groups_for_recipient l a)
  unfolding get_groups_for_recipient get_recipient_by_addr_opt
  get_groups_for_recipient-Keeps a =
      bind-Keeps (HasMessages msgs) (get_recipient_by_addr_opt l a) groups_of
        (seq-Keeps (HasMessages msgs) connect _ connect-Keeps (λ st p. p)) found
    where
      found : (o : Option Recipient) → Keeps (HasMessages msgs) (groups_of o)
      found none st p = p
      found (some r) st p = seq-Keeps (HasMessages msgs) connect _ connect-Keeps (λ t q. q) st p

-- The contact may not deliver, and the database has these messages.
abbrev pub Waiting : List Models.Message → ContactManager → Type 0
Waiting msgs s = ((s.connected && s.admin_is_online) ≡ false) × HasMessages msgs s.store

module _ (l : Libs) (k : Clock) (msgs : List Models.Message) where
  pub on_store-Keeps :
      {A : Type 0} (f : M Store A) → Keeps (HasMessages msgs) f → Keeps (Waiting msgs) (on_store f)
  unfolding on_store
  on_store-Keeps f h s p = (p.0, h s.store p.1)

  pub send-Keeps : (msg : Sent) → Keeps (Waiting msgs) (send msg)
  unfolding send
  send-Keeps msg s p = by s.answers
    where
      by : (rs : List (Result (Unit {0}))) → Waiting msgs (answered msg rs s).1
      by [] = p
      by (ok u ∷ rs) = p
      by (err e ∷ rs) = p
      by (panic ∷ rs) = p

  pub join_groups-Keeps :
      (groups : List Group) (chans : List String) → Keeps (Waiting msgs) (join_groups groups chans)
  unfolding join_groups
  join_groups-Keeps [] chans s p = p
  join_groups-Keeps (grp ∷ groups) chans s p =
      seq-Keeps (Waiting msgs) (send (Sent.join grp.channel)) _ (send-Keeps (Sent.join grp.channel))
        (join_groups-Keeps groups (chans ++ grp.channel ∷ [])) s p

  pub part_left-Keeps : (old chans : List String) → Keeps (Waiting msgs) (part_left old chans)
  part_left-Keeps old chans =
      for_each-Keeps (Waiting msgs) _
        (λ ch.
          if_intro (Keeps (Waiting msgs)) (contains chans ch) done (send (Sent.part ch))
            (λ t s p. p) (λ f. send-Keeps (Sent.part ch)))
        old

  pub follow_groups-Keeps : Keeps (Waiting msgs) (follow_groups l k)
  follow_groups-Keeps s =
      bind-Keeps (Waiting msgs) (on_store (get_groups_for_recipient l s.addr)) _
        (on_store-Keeps _ (get_groups_for_recipient-Keeps l msgs s.addr))
        (λ groups.
          bind-Keeps (Waiting msgs) (join_groups groups []) change_channels
            (join_groups-Keeps groups [])
            (λ chans t p. part_left-Keeps t.channels chans (record t { channels = chans }) p))
        s

  pub process_groups-Keeps : Keeps (Waiting msgs) (process_groups l k)
  unfolding process_groups
  process_groups-Keeps s p =
      if_intro (λ (r : Result (Unit {0}) × ContactManager). Waiting msgs r.1) s.connected
        (follow_groups l k s) (ok tt, s) (λ t. follow_groups-Keeps s p) (λ f. p)

  -- No stored message is looked at.
  process_messages-waits :
      (s : ContactManager)
      → (s.connected && s.admin_is_online) ≡ false
      → process_messages l k s ≡ (ok tt, s)
  unfolding process_messages
  process_messages-waits s h = ground (arith, h)

  pub process_messages-Keeps : Keeps (Waiting msgs) (process_messages l k)
  process_messages-Keeps s p =
      subst (λ (r : Result (Unit {0}) × ContactManager). Waiting msgs r.1)
        (sym (process_messages-waits s p.0)) p

  pub update_away-Keeps : Keeps (Waiting msgs) update_away
  unfolding update_away
  update_away-Keeps s p =
      if_intro (λ (r : Result (Unit {0}) × ContactManager). Waiting msgs r.1) s.connected
        (send (Sent.away s.presence) s) (ok tt, s) (λ t. send-Keeps (Sent.away s.presence) s p)
        (λ f. p)

  pub handle_int_rx-Keeps :
      (cmc : ContactManagerCommand) → Keeps (Waiting msgs) (handle_int_rx l k cmc)
  unfolding handle_int_rx change_nick
  handle_int_rx-Keeps ContactManagerCommand.process_messages s p = process_messages-Keeps s p
  handle_int_rx-Keeps ContactManagerCommand.process_groups s p = process_groups-Keeps s p
  handle_int_rx-Keeps (ContactManagerCommand.update_away msg) s p =
      update_away-Keeps (record s { presence = msg }) p
  handle_int_rx-Keeps (ContactManagerCommand.change_nick new src) s p =
      seq-Keeps (Waiting msgs) (on_store (update_recipient_nick l s.addr new src))
        (send (Sent.nick new))
        (on_store-Keeps _ (update_recipient_nick-Keeps l msgs s.addr new src))
        (send-Keeps (Sent.nick new)) s p
  handle_int_rx-Keeps (ContactManagerCommand.set_whatsapp wam) s p =
      on_store-Keeps _ (update_recipient_wa-Keeps l msgs s.addr wam) (record s { wa_mode = wam }) p

  pub drain_rx-Keeps :
      (cmcs : List ContactManagerCommand) → Keeps (Waiting msgs) (drain_rx l k cmcs)
  unfolding drain_rx
  drain_rx-Keeps [] s p = p
  drain_rx-Keeps (cmc ∷ cmcs) s p =
      seq-Keeps (Waiting msgs) (handle_int_rx l k cmc) (drain_rx l k cmcs) (handle_int_rx-Keeps cmc)
        (drain_rx-Keeps cmcs) (record s { rx = cmcs }) p

  pub handle_nick-Waiting :
      (new : String) (from : Option String) (s : ContactManager)
      → Waiting msgs s
      → Waiting msgs (handle_nick new from s)
  unfolding handle_nick
  handle_nick-Waiting new none s p = p
  handle_nick-Waiting new (some from) s p =
      if_intro (Waiting msgs) (sender_of from == s.nick) (record s { nick = new }) s (λ t. p)
        (λ f. p)

  pub handle_privmsg-Keeps :
      (target mesg : String) (from : Option String)
      → Keeps (Waiting msgs) (handle_privmsg target mesg from)
  unfolding handle_privmsg
  handle_privmsg-Keeps target mesg none s p = p
  handle_privmsg-Keeps target mesg (some from) s p =
      if_intro (λ (r : Result (Unit {0}) × ContactManager). Waiting msgs r.1)
        (sender_of from == s.admin) _ _
        (λ t.
          if_intro (λ (r : Result (Unit {0}) × ContactManager). Waiting msgs r.1) (target == s.nick)
            (ok tt, direct mesg s) (ok tt, s)
            (λ u. if_intro (Waiting msgs) s.wa_mode _ _ (λ v. p) (λ v. p)) (λ u. p))
        (λ f. send-Keeps _ s p)
