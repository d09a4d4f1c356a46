-- ===== src/Modem/Contacts.antt =====
-- src/modem.rs, make_contact: new correspondents.
use mathlib.Core.List.{append-nil, append_assoc}
use sms_irc.Base.{
  ◌≡◌, refl, sym, Bool, true, false, List, [], ◌∷◌, ◌++◌, Option, none, some, Result, ok, err,
  panic, continue, gets, arith, any, any-append, find?, ◌==◌, String_Eq, eq_refl,
}
use sms_irc.Extern.{Libs, PduAddress}
use sms_irc.Util.{normalize_address}
use sms_irc.Models.{Recipient}
use sms_irc.Store.{
  Store, connect, connect_by, insert_recipient, store_recipient, get_recipient_by_addr_opt,
}
use sms_irc.Comm.{ContactFactoryCommand}
use sms_irc.Modem.{ModemManager, make_contact, contact_missing, on_store}

abbrev pub has_recipient : Libs → PduAddress → Store → Bool
has_recipient l addr st = any (λ r. r.phone_number == normalize_address l addr) st.recipients

abbrev pub news : PduAddress → Bool → List ContactFactoryCommand
news addr true = []
news addr false =
    ContactFactoryCommand.setup_contact addr ∷ ContactFactoryCommand.process_messages ∷ []

-- What make_contact has done, by its result.
abbrev pub Made :
    {Device : Type 0}
    → Libs
    → PduAddress
    → ModemManager Device
    → Result (Unit {0}) × ModemManager Device
    → Type 0
Made l addr s (ok u, s') =
    (has_recipient l addr s'.store ≡ true)
    × (s'.cf ≡ s.cf ++ news addr (has_recipient l addr s.store))
Made l addr s (err e, s') = s'.cf ≡ s.cf
Made l addr s (panic, s') = ⊥

module _ {A : Type 0} (p : A → Bool) where
  find?-some : (xs : List A) (a : A) → find? p xs ≡ some a → any p xs ≡ true
  find?-some [] a h = ground arith
  find?-some (x ∷ xs) a h = ground (arith, find?-some xs a)

  find?-none : (xs : List A) → find? p xs ≡ none → any p xs ≡ false
  find?-none [] h = refl
  find?-none (x ∷ xs) h = ground (arith, find?-none xs)

module _ {Device : Type 0} (l : Libs) (addr : PduAddress) (s : ModemManager Device) where
  abbrev matches : Recipient → Bool
  matches r = r.phone_number == normalize_address l addr

  -- The row that is added has the address.
  known-after :
      (row : Recipient) → matches row ≡ true → any matches (s.store.recipients ++ row ∷ []) ≡ true
  known-after row h = ground (arith, any-append matches s.store.recipients (row ∷ []), h)

  told-after :
      any matches s.store.recipients ≡ false
      → (s.cf ++ ContactFactoryCommand.setup_contact addr ∷ [])
          ++ ContactFactoryCommand.process_messages ∷ []
        ≡ s.cf ++ news addr (any matches s.store.recipients)
  told-after h = rw h (
      append_assoc s.cf (ContactFactoryCommand.setup_contact addr ∷ [])
        (ContactFactoryCommand.process_messages ∷ []))

  looked-Made :
      (faults : List Bool) (o : Option Recipient)
      → find? matches s.store.recipients ≡ o
      → Made l addr s
          (contact_missing l addr o (record s { store = record s.store { faults = faults } }))
  unfolding store_recipient connect insert_recipient
  looked-Made faults (some r) h =
      let known = find?-some matches s.store.recipients r h in
      (known, rw known (sym (append-nil s.cf)))
  looked-Made [] none h =
      let unknown = find?-none matches s.store.recipients h in
      rw unknown (known-after _ (eq_refl (normalize_address l addr)), told-after unknown)
  looked-Made (true ∷ rest) none h = refl
  looked-Made (false ∷ rest) none h =
      let unknown = find?-none matches s.store.recipients h in
      rw unknown (known-after _ (eq_refl (normalize_address l addr)), told-after unknown)

  answered-Made :
      (fs : List Bool)
      → Made l addr s (
          continue (contact_missing l addr) (
            on_store
              (λ st. continue (λ _. gets (λ st'. find? matches st'.recipients)) (connect_by fs st))
              s))
  answered-Made [] = looked-Made s.store.faults (find? matches s.store.recipients) refl
  answered-Made (true ∷ rest) = refl
  answered-Made (false ∷ rest) = looked-Made rest (find? matches s.store.recipients) refl

  -- Making a contact never panics. When it succeeds, the address has a recipient, and the contact factory
  -- is told to set it up and to process its messages exactly when it had none before. When a statement
  -- is refused, the factory is told nothing.
  pub make_contact-Made : Made l addr s (make_contact l addr s)
  unfolding make_contact get_recipient_by_addr_opt connect
  make_contact-Made = answered-Made s.store.faults
