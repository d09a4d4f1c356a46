-- ===== src/Factory/Poll/Single.antt =====
-- src/contact_factory.rs: that no address has two contacts.
use sms_irc.Base.{
  ◌≡◌, refl, Bool, true, false, not, ◌&&◌, ◌||◌, List, [], ◌∷◌, Option, none, some, Result, ok, err,
  panic, is_panic, M, ◌>>◌, pure, continue, modify, for_each, arith, lookup, lookup-insert,
  lookup-erase, insert, contains, ◌==◌, Keeps, bind-Keeps, seq-Keeps, for_each-Keeps,
}
use sms_irc.Extern.{Libs, PduAddress, PduAddress_Eq}
use sms_irc.Models.{Recipient}
use sms_irc.Sender.{Clock}
use sms_irc.Contact.{ContactManager}
use sms_irc.Factory.{ContactFactory, is_starting, is_contact, process_failures, remove_contact_for}
use sms_irc.Factory.Poll.{
  ContactTurn, Turn, with_presence, start, noted, and_noted, start_each, drop_starting,
  fail_contact, poll_starting, shared, polled, poll_contact, poll_each, drop_failed, poll_contacts,
  drain, retry, poll,
}
use sms_irc.Factory.Poll.Keeps.{
  IsSingle, is_some-adjust, remove_contact_for-IsSingle, drain-Keeps, process_failures-Keeps,
}

abbrev both : PduAddress → ContactFactory → Bool
both b s = is_starting b s && is_contact b s

-- Only the addresses that the loop returns may have come to have two contacts; it makes no error.
abbrev Ended : ContactFactory → Result (List PduAddress) × ContactFactory → Type 0
Ended s (ok addrs, s') =
    (b : PduAddress) → (both b s' && not (both b s || contains addrs b)) ≡ false
Ended s (err e, s') = true ≡ false
Ended s (panic, s') = Unit

combine :
    (a : PduAddress) (ended : Bool) (s s1 : ContactFactory)
    (r : Result (List PduAddress) × ContactFactory)
    → ((b : PduAddress) → (both b s1 && not (both b s || (ended && (a == b)))) ≡ false)
    → Ended s1 r
    → Ended s (continue (λ addrs. pure (noted a ended addrs)) r)
combine a true s s1 (ok addrs, s2) h p = λ b. ground (arith, h b, p b)
combine a false s s1 (ok addrs, s2) h p = λ b. ground (arith, h b, p b)
combine a ended s s1 (err e, s2) h p = p
combine a ended s s1 (panic, s2) h p = tt

started :
    (a : PduAddress) (s : ContactFactory) (others : M ContactFactory (List PduAddress))
    (v : Result (Option ContactManager))
    → ((s1 : ContactFactory) → Ended s1 (others s1))
    → Ended s (continue (λ ended. and_noted a ended others) (start a v s))
started a s others (ok (some c)) h =
    let present = with_presence (lookup a s.contacts_presence) c in
    let s1 = record s { contacts = insert a present s.contacts } in
    combine a true s s1 (others s1)
      (λ b. ground (arith, lookup-insert a b present s.contacts, PduAddress_Eq.decides a b)) (h s1)
started a s others (ok none) h = combine a false s s (others s) (λ b. ground arith) (h s)
started a s others (err e) h =
    let s1 = fail_contact a s in combine a true s s1 (others s1) (λ b. ground arith) (h s1)
started a s others panic h = tt

start_each-Ended :
    (answer : PduAddress → Result (Option ContactManager)) (es : List (PduAddress × Recipient))
    (s : ContactFactory)
    → Ended s (start_each answer es s)
unfolding start_each
start_each-Ended answer [] s = λ b. ground arith
start_each-Ended answer ((a, recip) ∷ rest) s =
    started a s (start_each answer rest) (answer a) (start_each-Ended answer rest)

-- The addresses that have been removed have no starting contact, and no address has come to have two.
drop_each :
    (addrs : List PduAddress) (s : ContactFactory) (b : PduAddress)
    → let r = for_each addrs (λ a. modify (drop_starting a)) s in
      ((both b r.1 && contains addrs b) ≡ false) × ((both b r.1 && not (both b s)) ≡ false)
drop_each [] s b = (ground arith, ground arith)
drop_each (a ∷ addrs) s b =
    let rest = drop_each addrs (drop_starting a s) b in
    (
      ground (arith, rest.0, rest.1, lookup-erase a b s.contacts_starting),
      ground (arith, rest.0, rest.1, lookup-erase a b s.contacts_starting),
    )

removed-IsSingle :
    (s : ContactFactory) (r : Result (List PduAddress) × ContactFactory)
    → Ended s r
    → IsSingle s
    → let t = continue (λ ended. for_each ended (λ a. modify (drop_starting a))) r in
      is_panic t.0 ≡ false → IsSingle t.1
removed-IsSingle s (ok addrs, s1) h p n =
    λ b. let dropped = drop_each addrs s1 b in ground (arith, dropped.0, dropped.1, h b, p b)
removed-IsSingle s (err e, s1) h p n = ground (arith, h)
removed-IsSingle s (panic, s1) h p n = ground (arith, n)

poll_starting-IsSingle :
    (answer : PduAddress → Result (Option ContactManager)) (s : ContactFactory)
    → IsSingle s
    → is_panic (poll_starting answer s).0 ≡ false
    → IsSingle (poll_starting answer s).1
unfolding poll_starting
poll_starting-IsSingle answer s p =
    removed-IsSingle s (start_each answer s.contacts_starting s)
      (start_each-Ended answer s.contacts_starting s) p

abbrev Sound : M ContactFactory (Unit {0}) → Type 0
Sound m = (s : ContactFactory) → IsSingle s → is_panic (m s).0 ≡ false → IsSingle (m s).1

seq-Sound : (m n : M ContactFactory (Unit {0})) → Sound m → Sound n → Sound (m >> n)
seq-Sound m n hm hn s p = from (m s) (hm s p)
  where
    from :
        (r : Result (Unit {0}) × ContactFactory)
        → (is_panic r.0 ≡ false → IsSingle r.1)
        → is_panic (continue (λ _. n) r).0 ≡ false
        → IsSingle (continue (λ _. n) r).1
    from (ok u, t) h = hn t (h refl)
    from (err e, t) h = h
    from (panic, t) h = h

shared-IsSingle :
    (a : PduAddress) (c : ContactManager) (s : ContactFactory)
    → IsSingle s
    → IsSingle (shared a c s)
shared-IsSingle a c s p =
    λ b. ground (arith, is_some-adjust a b (λ old. record c { wa = []; m = [] }) s.contacts, p b)

polled-IsSingle :
    (a : PduAddress) (r : Result (Unit {0}) × ContactManager) → Keeps IsSingle (polled a r)
polled-IsSingle a (ok u, c) s p = shared-IsSingle a c s p
polled-IsSingle a (err e, c) s p = shared-IsSingle a c s p
polled-IsSingle a (panic, c) s p = shared-IsSingle a c s p

module _ (l : Libs) (k : Clock) where
  poll_each-Keeps :
      (turns : PduAddress → ContactTurn) (es : List (PduAddress × ContactManager))
      → Keeps IsSingle (poll_each l k turns es)
  unfolding poll_each
  poll_each-Keeps turns [] s p = p
  poll_each-Keeps turns ((a, c) ∷ rest) s p =
      bind-Keeps IsSingle (poll_contact l k turns a c)
        (λ ended. and_noted a ended (poll_each l k turns rest)) (λ t q. polled-IsSingle a _ t q)
        (λ ended.
          bind-Keeps IsSingle (poll_each l k turns rest) (λ addrs. pure (noted a ended addrs))
            (poll_each-Keeps turns rest) (λ addrs t q. q))
        s p

  poll_contacts-Keeps :
      (turns : PduAddress → ContactTurn) → Keeps IsSingle (poll_contacts l k turns)
  unfolding poll_contacts remove_contact_for
  poll_contacts-Keeps turns s p =
      bind-Keeps IsSingle (poll_each l k turns s.contacts)
        (λ ended. for_each ended (λ a. modify (drop_failed a))) (poll_each-Keeps turns s.contacts)
        (for_each-Keeps IsSingle (λ a. modify (drop_failed a)) remove_contact_for-IsSingle) s p

  retry-Keeps : (ticks : List (Result (Unit {0}))) → Keeps IsSingle (retry l ticks)
  unfolding retry
  retry-Keeps [] s p = p
  retry-Keeps (ok u ∷ ticks) s p =
      seq-Keeps IsSingle (process_failures l) (retry l ticks) (process_failures-Keeps l)
        (retry-Keeps ticks) s p
  retry-Keeps (err e ∷ ticks) s p = p
  retry-Keeps (panic ∷ ticks) s p = p

  -- A poll of the factory that does not panic leaves every address with one contact at most, whether it
  -- is starting or there: whatever commands are queued, whichever contacts start, fail or are tried
  -- again, and also where the poll fails.
  pub poll-IsSingle :
      (t : Turn) (s : ContactFactory)
      → IsSingle s
      → is_panic (poll l k t s).0 ≡ false
      → IsSingle (poll l k t s).1
  unfolding poll
  poll-IsSingle t =
      let served : M ContactFactory (Unit {0}) = λ s. drain l s.rx s in
      let started_all = served >> poll_starting t.starting in
      let polled_all = started_all >> poll_contacts l k t.contacts in
      seq-Sound polled_all (retry l t.ticks)
        (seq-Sound started_all (poll_contacts l k t.contacts)
          (seq-Sound served (poll_starting t.starting) (λ s p n. drain-Keeps l s.rx s p)
            (poll_starting-IsSingle t.starting))
          (λ s p n. poll_contacts-Keeps t.contacts s p))
        (λ s p n. retry-Keeps t.ticks s p)
