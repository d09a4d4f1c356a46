-- ===== src/Insp/Consistent.antt =====
-- src/insp_s2s.rs: the three maps of the link, which speak of the same contacts.
pub mod Added
pub mod Dropped
pub mod Writes
pub mod Kept
use text.Mathlib.Text.{starts_with}
use sms_irc.Base.{
  ℕ, ◌+◌, ◌<◌, ◌≤◌, ◌≡◌, refl, sym, ap, ◌∙◌, subst, String, Bool, true, false, not, List, [], ◌∷◌,
  Option, none, some, arith, if◌then◌else◌, ◌==◌, PartialEq, String_Eq, is_some, lookup, insert,
  erase, adjust, keep_keys, lookup-insert, lookup-erase, lookup-adjust, lookup-keep_keys,
  lookup-adjust_inv, lookup-adjust_back, NodupKeys, insert-NodupKeys, erase-NodupKeys, Option-cases,
  Bool-cases, inl, inr, ltb,
}
use sms_irc.Extern.{PduAddress, PduAddress_Eq}
use sms_irc.InspUser.{InspUser}
use sms_irc.Insp.{InspLink, InspContact}
use sms_irc.Insp.Users.{uuid_of, max_user_id}
use sms_irc.Insp.Uuids.{uuid_of_inj}
use sms_irc.Insp.Holder.{drop_address, new_contact, drop_user}
use sms_irc.Insp.Keeps.{KeepsQuiet}
use sms_irc.Insp.Keeps.Writes.{KeepsContacts, mint, add_minted}

-- Every contact's id leads back to its address and is a user; every id in the map is a contact's, and
-- has been given out.
pub record Agree (contacts : List (PduAddress × InspContact)) (ids : List (String × PduAddress))
    (users : List (String × InspUser)) (next_user_id : ℕ) (sid : String) : Type 0 where
  pub forward :
      (a : PduAddress) (ct : InspContact)
      → lookup a contacts ≡ some ct
      → lookup ct.uuid ids ≡ some a
  pub backward :
      (uuid : String) (a : PduAddress)
      → lookup uuid ids ≡ some a
      → (ct : InspContact) × (lookup a contacts ≡ some ct) × (ct.uuid ≡ uuid)
  pub known :
      (a : PduAddress) (ct : InspContact)
      → lookup a contacts ≡ some ct
      → is_some (lookup ct.uuid users) ≡ true
  pub given :
      (uuid : String) (a : PduAddress)
      → lookup uuid ids ≡ some a
      → (n : ℕ) × (n < next_user_id) × (uuid ≡ uuid_of sid n)
  pub once : NodupKeys ids

abbrev pub IsConsistent : {Message : Type 0} → InspLink Message → Type 0
IsConsistent s = Agree s.contacts s.contacts_uuid_pdua s.users s.next_user_id s.cfg.sid

module _ {Message : Type 0} (s : InspLink Message) (p : IsConsistent s) where
  pub adjust-IsConsistent :
      (a : PduAddress) (f : InspContact → InspContact)
      → ((ct : InspContact) → (f ct).uuid ≡ ct.uuid)
      → IsConsistent (record s { contacts = adjust a f s.contacts })
  adjust-IsConsistent a f same = record {
    forward = λ b ct' h.
        let (ct, held, e) = lookup-adjust_inv (λ c. c.uuid) f same a b s.contacts ct' h in
        rw e (p.forward b ct held);
    backward = λ uuid b h.
        let (ct, held, e) = p.backward uuid b h in
        let (ct', held', e') = lookup-adjust_back (λ c. c.uuid) f same a b s.contacts ct held in
        (ct', held', e' ∙ e);
    known = λ b ct' h.
        let (ct, held, e) = lookup-adjust_inv (λ c. c.uuid) f same a b s.contacts ct' h in
        rw e (p.known b ct held);
    given = p.given;
    once = p.once;
  }

  pub adjust_user-IsConsistent :
      (uuid : String) (f : InspUser → InspUser)
      → IsConsistent (record s { users = adjust uuid f s.users })
  adjust_user-IsConsistent uuid f = record {
    forward = p.forward;
    backward = p.backward;
    known = λ a ct h. ground (arith, p.known a ct h, lookup-adjust uuid ct.uuid f s.users);
    given = p.given;
    once = p.once;
  }

  pub insert_user-IsConsistent :
      (uuid : String) (user : InspUser)
      → IsConsistent (record s { users = insert uuid user s.users })
  insert_user-IsConsistent uuid user = record {
    forward = p.forward;
    backward = p.backward;
    known = λ a ct h. ground (arith, p.known a ct h, lookup-insert uuid ct.uuid user s.users);
    given = p.given;
    once = p.once;
  }

  pub mint-IsConsistent : (user : InspUser) → IsConsistent (mint user s)
  mint-IsConsistent user = record {
    forward = p.forward;
    backward = p.backward;
    known = λ a ct h. ground (
      arith,
      p.known a ct h,
      lookup-insert (uuid_of s.cfg.sid s.next_user_id) ct.uuid user s.users,
    );
    given = λ uuid a h. let (n, lt, e) = p.given uuid a h in (n, omega arith, e);
    once = p.once;
  }
