-- ===== src/Tests/Holders.antt =====
-- src/contact_common.rs: the theorems at a holder that keeps a list of addresses.
use sms_irc.Base.{◌≡◌, refl, true, false, List, [], ◌∷◌, none, ok, arith, contains, subst, ap, pos}
use sms_irc.Extern.{PduAddress, PduAddress_Eq, address_eq_iff}
use sms_irc.Models.{Recipient, recipient_addr}
use sms_irc.Util.{un_normalize_address}
use sms_irc.Store.{Store}
use sms_irc.Contacts.{ContactManagerManager, setup_recipient}
use sms_irc.Contacts.Setup.{Remembers, setup_recipient-again}
use sms_irc.Tests.World.{libs, store}

record Holder : Type 0 where
  database : Store
  contacts : List PduAddress

abbrev holder : ContactManagerManager Holder
holder = record {
  wa_send = λ c s. (ok tt, s);
  m_send = λ c s. (ok tt, s);
  cb_send = λ c s. (ok tt, s);
  setup_contact_for = λ recip addr s. (ok tt, record s { contacts = addr ∷ s.contacts });
  remove_contact_for = λ addr s. (ok tt, s);
  has_contact = λ addr s. contains s.contacts addr;
  store = λ s. s.database;
  with_store = λ st s. record s { database = st };
  forward_cmd = λ addr c s. (ok tt, s);
  resolve_nick = λ nick s. none;
}

holder-Remembers : Remembers holder
holder-Remembers recip addr s s' h =
    subst (λ x. contains x.contacts addr ≡ true) (ap (λ p. p.1) h)
      (ground (arith, (address_eq_iff addr addr).1 refl))

abbrev ann : Recipient
ann = record {
  id = 1;
  phone_number = "9144";
  nick = "Ann";
  whatsapp = false;
  avatar_url = none;
  notify = none;
  nicksrc = pos 0;
}

abbrev before : Holder
before = record { database = store; contacts = [] }

abbrev after : Holder
after = record { database = store; contacts = record { type_addr = 145; number = 68 ∷ [] } ∷ [] }

set_up : setup_recipient libs holder ann before ≡ (ok tt, after)
unfolding setup_recipient recipient_addr un_normalize_address
set_up = refl

setup_recipient-again_example : setup_recipient libs holder ann after ≡ (ok tt, after)
setup_recipient-again_example =
    setup_recipient-again libs holder holder-Remembers ann before after set_up
