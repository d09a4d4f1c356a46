-- ===== src/Contacts/Setup.antt =====
-- src/contact_common.rs: setting contacts up more than once.
use sms_irc.Base.{
  ◌≡◌, Bool, true, Result, ok, err, panic, if◌then◌else◌, Bool-cases, inl, inr, subst, ap,
}
use sms_irc.Extern.{Libs, PduAddress}
use sms_irc.Models.{Recipient, recipient_addr}
use sms_irc.Contacts.{ContactManagerManager, setup_addressed, setup_recipient}

-- What the shared code relies on: an implementation that has set up a contact has it.
abbrev pub Remembers : {S : Type 0} → ContactManagerManager S → Type 0
Remembers {S} i =
    (recip : Recipient) (addr : PduAddress) (s s' : S)
    → i.setup_contact_for recip addr s ≡ (ok tt, s')
    → i.has_contact addr s' ≡ true

module _ {S : Type 0} (l : Libs) (i : ContactManagerManager S) (remembers : Remembers i) where
  setup_known :
      (recip : Recipient) (addr : PduAddress) (s : S)
      → i.has_contact addr s ≡ true
      → setup_addressed l i recip (ok addr) s ≡ (ok tt, s)
  setup_known recip addr s h = rw h

  setup_addressed-again :
      (recip : Recipient) (r : Result PduAddress) (s s' : S)
      → setup_addressed l i recip r s ≡ (ok tt, s')
      → setup_addressed l i recip r s' ≡ (ok tt, s')
  setup_addressed-again recip (ok addr) s s' h =
      let branch : Bool → Result (Unit {0}) × S =
        λ b. if b then (ok tt, s) else i.setup_contact_for recip addr s in
      elim (Bool-cases (i.has_contact addr s)) [
        | inl known ↦
            let same : s ≡ s' = ap (λ p. p.1) (subst (λ b. branch b ≡ (ok tt, s')) known h) in
            setup_known recip addr s' (subst (λ x. i.has_contact addr x ≡ true) same known)
        | inr new ↦
            setup_known recip addr s'
              (remembers recip addr s s' (subst (λ b. branch b ≡ (ok tt, s')) new h))
      ]
  setup_addressed-again recip (err e) s s' h = ap (λ p. (p.0, s')) h
  setup_addressed-again recip panic s s' h = ap (λ p. (p.0, s')) h

  -- Setting a recipient up again does nothing, once it has succeeded, for an implementation that has the
  -- contacts that it has set up.
  pub setup_recipient-again :
      (recip : Recipient) (s s' : S)
      → setup_recipient l i recip s ≡ (ok tt, s')
      → setup_recipient l i recip s' ≡ (ok tt, s')
  unfolding setup_recipient
  setup_recipient-again recip = setup_addressed-again recip (recipient_addr l recip)
