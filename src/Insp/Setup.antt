-- ===== src/Insp/Setup.antt =====
-- src/insp_s2s.rs, setup_contact_for: a contact that has been set up is there.
use sms_irc.Base.{
  ◌≡◌, subst, String, true, Option, arith, M, Result, ok, err, panic, continue, if_intro, is_some,
  lookup, lookup-insert, lookup-adjust,
}
use sms_irc.Extern.{PduAddress, PduAddress_Eq}
use sms_irc.Models.{Recipient}
use sms_irc.Contacts.{setup_recipient}
use sms_irc.Contacts.Setup.{Remembers, setup_recipient-again}
use sms_irc.Insp.{InspLink, Env, is_linked}
use sms_irc.Insp.Users.{host_for_wa, check_nick_for_collisions, new_user}
use sms_irc.Insp.Groups.{process_groups_for_recipient}
use sms_irc.Insp.Holder.{
  new_contact, settle_nick, join_if_linked, setup_with, setup_contact_for, holder,
}
use sms_irc.Insp.Keeps.{KeepsQuiet, process_groups_for_recipient-Keeps}

-- A success whose state has the property.
abbrev HasAfter : {S A : Type 0} → (S → Type 0) → Result A × S → Type 0
HasAfter P (ok a, s) = P s
HasAfter P (err e, s) = Unit
HasAfter P (panic, s) = Unit

continue-HasAfter :
    {S A B : Type 0} (P : S → Type 0) (f : A → M S B) (r : Result A × S)
    → ((a : A) (s : S) → HasAfter P (f a s))
    → HasAfter P (continue f r)
continue-HasAfter P f (ok a, s) h = h a s
continue-HasAfter P f (err e, s) h = tt
continue-HasAfter P f (panic, s) h = tt

HasAfter-Keeps : {S A : Type 0} (P : S → Type 0) (r : Result A × S) → P r.1 → HasAfter P r
HasAfter-Keeps P (ok a, s) p = p
HasAfter-Keeps P (err e, s) p = tt
HasAfter-Keeps P (panic, s) p = tt

HasAfter-ok :
    {S : Type 0} (P : S → Type 0) (r : Result (Unit {0}) × S) (s' : S)
    → HasAfter P r
    → r ≡ (ok tt, s')
    → P s'
HasAfter-ok P r s' h e = subst (HasAfter P) e h

module _ {Message : Type 0} (e : Env Message) (a : PduAddress) where
  abbrev Has : InspLink Message → Type 0
  Has s = is_some (lookup a s.contacts) ≡ true

  keeps_contact : KeepsQuiet Has
  keeps_contact = record {
    outbox = λ o s p. p;
    stored = λ st s p. p;
    channels = λ c s p. p;
    topics = λ t s p. p;
    contact = λ b f same s p. ground (arith, lookup-adjust b a f s.contacts);
  }

  join_if_linked-Has : (s : InspLink Message) → Has s → HasAfter Has (join_if_linked e a s)
  join_if_linked-Has s p =
      if_intro (HasAfter {A = Unit {0}} Has) (is_linked s.state) _ _
        (λ t.
          HasAfter-Keeps Has (process_groups_for_recipient e a s)
            (process_groups_for_recipient-Keeps Has keeps_contact e a s p))
        (λ f. p)

  setup_with-Has :
      (recip : Recipient) (host : String) (free : Option String) (s : InspLink Message)
      → HasAfter Has (setup_with e recip a host free s)
  setup_with-Has recip host free s =
      continue-HasAfter Has _ (settle_nick e a recip.nick free s) λ nick t.
        continue-HasAfter Has _ (new_user e _ t) λ uuid u. join_if_linked-Has _ (
          ground (
            arith,
            lookup-insert a a (new_contact uuid recip.whatsapp) u.contacts,
            PduAddress_Eq.decides a a,
          ))

module _ {Message : Type 0} (e : Env Message) where
  holder-Remembers : Remembers (holder e)
  unfolding setup_contact_for
  holder-Remembers recip a s s' h =
      HasAfter-ok (Has e a) (setup_contact_for e recip a s) s'
        (setup_with-Has e a recip (host_for_wa recip.whatsapp s)
          (check_nick_for_collisions recip.nick s) s)
        h

  -- The link is a holder that has the contacts that it has set up, so setting a recipient up again does
  -- nothing once it has succeeded.
  pub setup_recipient-twice :
      (recip : Recipient) (s s' : InspLink Message)
      → setup_recipient e.libs (holder e) recip s ≡ (ok tt, s')
      → setup_recipient e.libs (holder e) recip s' ≡ (ok tt, s')
  setup_recipient-twice = setup_recipient-again e.libs (holder e) holder-Remembers
