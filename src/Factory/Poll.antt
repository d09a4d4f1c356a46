-- ===== src/Factory/Poll.antt =====
-- src/contact_factory.rs: the poll of the factory.
pub mod Keeps
pub mod Single
use sms_irc.Base.{
  String, Bool, true, false, List, [], ◌∷◌, ◌++◌, Option, none, some, Result, ok, err, panic, M,
  ◌>>=◌, ◌>>◌, pure, done, modify, for_each, lookup, insert, adjust, erase,
}
use sms_irc.Extern.{Libs, PduAddress, PduAddress_Eq}
use sms_irc.Models.{Recipient}
use sms_irc.Comm.{ContactManagerCommand, ContactFactoryCommand}
use sms_irc.Sender.{Clock}
use sms_irc.Contact.{ContactManager, add_command}
use sms_irc.Contact.Remote
use sms_irc.Contact.Remote.{Received}
use sms_irc.Factory.{ContactFactory, set_add, process_failures, handle}

-- What a contact's IRC client gives in a turn.
pub record ContactTurn : Type 0 where
  pub before : Result (Unit {0})
  pub received : List Received
  pub after : Result (Unit {0})

-- What the future of each starting contact answers, what each contact's client gives, and what the
-- failure timer answers until it is not ready.
pub record Turn : Type 0 where
  pub starting : PduAddress → Result (Option ContactManager)
  pub contacts : PduAddress → ContactTurn
  pub ticks : List (Result (Unit {0}))

abbrev pub fail_contact : PduAddress → ContactFactory → ContactFactory
fail_contact a s = record s { failed_contacts = set_add a s.failed_contacts }

-- The presence that was asked for while the contact was starting.
abbrev pub with_presence : Option (Option String) → ContactManager → ContactManager
with_presence none c = c
with_presence (some away) c = add_command (ContactManagerCommand.update_away away) c

-- Whether the contact has ended its start.
abbrev pub start : PduAddress → Result (Option ContactManager) → M ContactFactory Bool
start a (ok (some c)) s =
    let present = with_presence (lookup a s.contacts_presence) c in
    (ok true, record s { contacts = insert a present s.contacts })
start a (ok none) s = (ok false, s)
start a (err e) s = (ok true, fail_contact a s)
start a panic s = (panic, s)

abbrev pub noted : PduAddress → Bool → List PduAddress → List PduAddress
noted a true addrs = a ∷ addrs
noted a false addrs = addrs

abbrev pub and_noted :
    PduAddress → Bool → M ContactFactory (List PduAddress) → M ContactFactory (List PduAddress)
and_noted a ended rest = do addrs ← rest; pure (noted a ended addrs)

-- The loop over contacts_starting: the addresses to remove.
unfoldable pub start_each :
    (PduAddress → Result (Option ContactManager))
    → List (PduAddress × Recipient)
    → M ContactFactory (List PduAddress)
start_each answer [] = pure []
start_each answer ((a, recip) ∷ rest) =
    let others = start_each answer rest in start a (answer a) >>= λ ended. and_noted a ended others

abbrev pub drop_starting : PduAddress → ContactFactory → ContactFactory
drop_starting a s = record s { contacts_starting = erase a s.contacts_starting }

unfoldable pub poll_starting :
    (PduAddress → Result (Option ContactManager)) → M ContactFactory (Unit {0})
poll_starting answer s =
    (do ended ← start_each answer s.contacts_starting; for_each ended λ a. modify (drop_starting a))
      s

-- What a contact has sent goes to the channels that it shares with the factory, as does its database.
abbrev pub shared : PduAddress → ContactManager → ContactFactory → ContactFactory
shared a c s = record s {
  contacts = adjust a (λ old. record c { wa = []; m = [] }) s.contacts;
  wa = s.wa ++ c.wa;
  m = s.m ++ c.m;
  store = c.store;
}

abbrev pub polled : PduAddress → Result (Unit {0}) × ContactManager → M ContactFactory Bool
polled a (ok u, c) s = (ok false, shared a c s)
polled a (err e, c) s = (ok true, fail_contact a (shared a c s))
polled a (panic, c) s = (panic, shared a c s)

abbrev pub drop_failed : PduAddress → ContactFactory → ContactFactory
drop_failed a s = record s { contacts = erase a s.contacts }

-- The handlers put nothing into the queue that they serve.
unfoldable pub drain : Libs → List ContactFactoryCommand → M ContactFactory (Unit {0})
drain l [] = done
drain l (c ∷ cs) = modify (λ s. record s { rx = cs }) >> handle l c >> drain l cs

unfoldable pub retry : Libs → List (Result (Unit {0})) → M ContactFactory (Unit {0})
retry l [] s = (ok tt, s)
retry l (ok u ∷ ticks) s = (process_failures l >> retry l ticks) s
retry l (err e ∷ ticks) s = (err e, s)
retry l (panic ∷ ticks) s = (panic, s)

module _ (l : Libs) (k : Clock) where
  abbrev pub poll_contact :
      (PduAddress → ContactTurn) → PduAddress → ContactManager → M ContactFactory Bool
  poll_contact turns a c s =
      let t = turns a in
      polled a (Remote.poll l k t.before t.received t.after (record c { store = s.store })) s

  -- The loop over contacts: the addresses to remove.
  unfoldable pub poll_each :
      (PduAddress → ContactTurn)
      → List (PduAddress × ContactManager)
      → M ContactFactory (List PduAddress)
  poll_each turns [] = pure []
  poll_each turns ((a, c) ∷ rest) =
      let others = poll_each turns rest in
      poll_contact turns a c >>= λ ended. and_noted a ended others

  unfoldable pub poll_contacts : (PduAddress → ContactTurn) → M ContactFactory (Unit {0})
  poll_contacts turns s =
      (do ended ← poll_each turns s.contacts; for_each ended λ a. modify (drop_failed a)) s

  unfoldable pub poll : Turn → M ContactFactory (Unit {0})
  poll t =
      (λ s. drain l s.rx s)
      >> poll_starting t.starting
      >> poll_contacts t.contacts
      >> retry l t.ticks
