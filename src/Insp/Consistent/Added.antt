-- ===== src/Insp/Consistent/Added.antt =====
-- src/insp_s2s.rs, setup_contact_for: the maps with a contact and its user added.
use sms_irc.Base.{
  ℕ, ◌+◌, ◌<◌, ◌≡◌, sym, String, Bool, true, false, List, none, some, arith, ◌==◌, String_Eq,
  is_some, lookup, insert, lookup-insert, insert-NodupKeys, Option-cases, Bool-cases, inl, inr,
}
use sms_irc.Extern.{PduAddress, PduAddress_Eq}
use sms_irc.InspUser.{InspUser}
use sms_irc.Insp.{InspLink, InspContact}
use sms_irc.Insp.Users.{uuid_of}
use sms_irc.Insp.Uuids.{uuid_of_inj}
use sms_irc.Insp.Holder.{new_contact}
use sms_irc.Insp.Keeps.Writes.{add_minted}
use sms_irc.Insp.Consistent.{IsConsistent}

module _ {Message : Type 0} (s : InspLink Message) (p : IsConsistent s) where
  fresh : lookup (uuid_of s.cfg.sid s.next_user_id) s.contacts_uuid_pdua ≡ none
  fresh = elim (Option-cases (lookup (uuid_of s.cfg.sid s.next_user_id) s.contacts_uuid_pdua)) [
    | inl missing ↦ missing
    | inr (a, held) ↦
        let (n, lt, e) = p.given (uuid_of s.cfg.sid s.next_user_id) a held in
        absurd (omega (arith, uuid_of_inj s.cfg.sid s.next_user_id n e))
  ]

  module _ (user : InspUser) (a : PduAddress) (wa : Bool) (o : List Message)
      (absent : is_some (lookup a s.contacts) ≡ false) where
    abbrev minted_uuid : String
    minted_uuid = uuid_of s.cfg.sid s.next_user_id

    added_forward :
        (b : PduAddress) (ct : InspContact)
        → lookup b (insert a (new_contact minted_uuid wa) s.contacts) ≡ some ct
        → lookup ct.uuid (insert minted_uuid a s.contacts_uuid_pdua) ≡ some b
    added_forward b ct h = elim (Bool-cases (a == b)) [
      | inl same ↦ ground (
        arith,
        PduAddress_Eq.decides a b,
        lookup-insert a b (new_contact minted_uuid wa) s.contacts,
        lookup-insert minted_uuid ct.uuid a s.contacts_uuid_pdua,
        String_Eq.decides minted_uuid minted_uuid,
      )
      | inr other ↦
          let old : lookup b s.contacts ≡ some ct =
            ground (arith, lookup-insert a b (new_contact minted_uuid wa) s.contacts) in
          ground (
            arith,
            fresh,
            p.forward b ct old,
            lookup-insert minted_uuid ct.uuid a s.contacts_uuid_pdua,
            String_Eq.decides minted_uuid ct.uuid,
          )
    ]

    added_known :
        (b : PduAddress) (ct : InspContact)
        → lookup b (insert a (new_contact minted_uuid wa) s.contacts) ≡ some ct
        → is_some (lookup ct.uuid (insert minted_uuid user s.users)) ≡ true
    added_known b ct h = elim (Bool-cases (a == b)) [
      | inl same ↦ ground (
        arith,
        lookup-insert a b (new_contact minted_uuid wa) s.contacts,
        lookup-insert minted_uuid ct.uuid user s.users,
        String_Eq.decides minted_uuid minted_uuid,
      )
      | inr other ↦
          let old : lookup b s.contacts ≡ some ct =
            ground (arith, lookup-insert a b (new_contact minted_uuid wa) s.contacts) in
          ground (arith, p.known b ct old, lookup-insert minted_uuid ct.uuid user s.users)
    ]

    added_backward :
        (uuid : String) (b : PduAddress)
        → lookup uuid (insert minted_uuid a s.contacts_uuid_pdua) ≡ some b
        → (ct : InspContact) × (lookup b (insert a (new_contact minted_uuid wa) s.contacts)
            ≡ some ct)
          × (ct.uuid ≡ uuid)
    added_backward uuid b h = elim (Bool-cases (minted_uuid == uuid)) [
      | inl same ↦ (
        new_contact minted_uuid wa,
        ground (
          arith,
          lookup-insert minted_uuid uuid a s.contacts_uuid_pdua,
          lookup-insert a b (new_contact minted_uuid wa) s.contacts,
          PduAddress_Eq.decides a b,
        ),
        (String_Eq.decides minted_uuid uuid).0 same,
      )
      | inr other ↦
          let old : lookup uuid s.contacts_uuid_pdua ≡ some b =
            ground (arith, lookup-insert minted_uuid uuid a s.contacts_uuid_pdua) in
          let (ct, held, e) = p.backward uuid b old in
          (
            ct,
            ground (
              arith,
              lookup-insert a b (new_contact minted_uuid wa) s.contacts,
              PduAddress_Eq.decides a b,
            ),
            e,
          )
    ]

    added_given :
        (uuid : String) (b : PduAddress)
        → lookup uuid (insert minted_uuid a s.contacts_uuid_pdua) ≡ some b
        → (n : ℕ) × (n < s.next_user_id + 1) × (uuid ≡ uuid_of s.cfg.sid n)
    added_given uuid b h = elim (Bool-cases (minted_uuid == uuid)) [
      | inl same ↦ (s.next_user_id, omega arith, sym ((String_Eq.decides minted_uuid uuid).0 same))
      | inr other ↦
          let old : lookup uuid s.contacts_uuid_pdua ≡ some b =
            ground (arith, lookup-insert minted_uuid uuid a s.contacts_uuid_pdua) in
          let (n, lt, e) = p.given uuid b old in (n, omega arith, e)
    ]

    pub added-IsConsistent : IsConsistent (add_minted user a wa o s)
    added-IsConsistent = record {
      forward = added_forward;
      backward = added_backward;
      known = added_known;
      given = added_given;
      once = insert-NodupKeys minted_uuid a s.contacts_uuid_pdua p.once;
    }
