-- ===== src/Insp/Consistent/Dropped.antt =====
-- src/insp_s2s.rs, remove_user and remove_contact_for: the maps without a contact.
use sms_irc.Base.{
  ◌≡◌, refl, String, false, List, [], ◌∷◌, Option, none, some, arith, if◌then◌else◌, ◌==◌,
  String_Eq, lookup, erase, lookup-erase, NodupKeys, erase-NodupKeys,
}
use sms_irc.Extern.{PduAddress, PduAddress_Eq}
use sms_irc.Insp.{InspLink, InspContact}
use sms_irc.Insp.Holder.{drop_address, drop_user}
use sms_irc.Insp.Consistent.{IsConsistent}

abbrev pub unless : PduAddress → Option PduAddress → Option PduAddress
unless a none = none
unless a (some b) = if b == a then none else some b

drop_address-absent :
    (a : PduAddress) (uuid : String) (ids : List (String × PduAddress))
    → lookup uuid ids ≡ none
    → lookup uuid (drop_address a ids) ≡ none
unfolding drop_address
drop_address-absent a uuid [] h = refl
drop_address-absent a uuid ((i, b) ∷ ids) h =
    ground
      (arith, String_Eq.decides i uuid, PduAddress_Eq.decides b a, drop_address-absent a uuid ids)

lookup-drop_address :
    (a : PduAddress) (uuid : String) (ids : List (String × PduAddress))
    → NodupKeys ids
    → lookup uuid (drop_address a ids) ≡ unless a (lookup uuid ids)
unfolding drop_address
lookup-drop_address a uuid [] u = refl
lookup-drop_address a uuid ((i, b) ∷ ids) u = ground (
  arith,
  String_Eq.decides i uuid,
  drop_address-absent a i ids,
  lookup-drop_address a uuid ids u.1,
)

drop_address-NodupKeys :
    (a : PduAddress) (ids : List (String × PduAddress))
    → NodupKeys ids
    → NodupKeys (drop_address a ids)
unfolding drop_address
drop_address-NodupKeys a [] u = tt
drop_address-NodupKeys a ((i, b) ∷ ids) u =
    ground (arith, drop_address-absent a i ids u.0, drop_address-NodupKeys a ids u.1)

module _ {Message : Type 0} (s : InspLink Message) (p : IsConsistent s) where
  -- What holds of the maps without an id, by the address that the id leads to.
  pub dropped-IsConsistent :
      (uuid : String) (found : Option PduAddress)
      → lookup uuid s.contacts_uuid_pdua ≡ found
      → IsConsistent (drop_user uuid found s)
  dropped-IsConsistent uuid none e = record {
    forward = λ b ct h. ground (
      arith,
      p.forward b ct h,
      lookup-erase uuid ct.uuid s.contacts_uuid_pdua,
      String_Eq.decides uuid ct.uuid,
    );
    backward = λ u b h. p.backward u b (ground (arith, lookup-erase uuid u s.contacts_uuid_pdua));
    known = λ b ct h. ground (
      arith,
      p.known b ct h,
      p.forward b ct h,
      lookup-erase uuid ct.uuid s.users,
      String_Eq.decides uuid ct.uuid,
    );
    given = λ u b h. p.given u b (ground (arith, lookup-erase uuid u s.contacts_uuid_pdua));
    once = erase-NodupKeys uuid s.contacts_uuid_pdua p.once;
  }
  dropped-IsConsistent uuid (some a) e =
      let old : (b : PduAddress) (ct : InspContact)
          → lookup b (erase a s.contacts) ≡ some ct
          → lookup b s.contacts ≡ some ct =
        λ b ct h. ground (arith, lookup-erase a b s.contacts) in
      let differs : (b : PduAddress) (ct : InspContact)
          → lookup b (erase a s.contacts) ≡ some ct
          → (uuid == ct.uuid) ≡ false =
        λ b ct h. ground (
          arith,
          p.forward b ct (old b ct h),
          lookup-erase a b s.contacts,
          String_Eq.decides uuid ct.uuid,
          PduAddress_Eq.decides a b,
        ) in
      record {
        forward = λ b ct h. ground (
          arith,
          p.forward b ct (old b ct h),
          differs b ct h,
          lookup-erase uuid ct.uuid s.contacts_uuid_pdua,
        );
        backward = λ u b h.
            let before : lookup u s.contacts_uuid_pdua ≡ some b =
              ground (arith, lookup-erase uuid u s.contacts_uuid_pdua) in
            let (ct, held, same) = p.backward u b before in
            let (at, at_held, at_same) = p.backward uuid a e in
            (
              ct,
              ground (
                arith,
                lookup-erase uuid u s.contacts_uuid_pdua,
                lookup-erase a b s.contacts,
                PduAddress_Eq.decides a b,
                String_Eq.decides uuid u,
              ),
              same,
            );
        known = λ b ct h.
            ground
              (arith, p.known b ct (old b ct h), differs b ct h, lookup-erase uuid ct.uuid s.users);
        given = λ u b h. p.given u b (ground (arith, lookup-erase uuid u s.contacts_uuid_pdua));
        once = erase-NodupKeys uuid s.contacts_uuid_pdua p.once;
      }

  pub removed-IsConsistent :
      (a : PduAddress)
      → IsConsistent (record s {
        contacts = erase a s.contacts;
        contacts_uuid_pdua = drop_address a s.contacts_uuid_pdua;
      })
  removed-IsConsistent a =
      let old : (b : PduAddress) (ct : InspContact)
          → lookup b (erase a s.contacts) ≡ some ct
          → lookup b s.contacts ≡ some ct =
        λ b ct h. ground (arith, lookup-erase a b s.contacts) in
      let before : (u : String) (b : PduAddress)
          → lookup u (drop_address a s.contacts_uuid_pdua) ≡ some b
          → lookup u s.contacts_uuid_pdua ≡ some b =
        λ u b h. ground (arith, lookup-drop_address a u s.contacts_uuid_pdua p.once) in
      record {
        forward = λ b ct h. ground (
          arith,
          p.forward b ct (old b ct h),
          lookup-erase a b s.contacts,
          lookup-drop_address a ct.uuid s.contacts_uuid_pdua p.once,
          PduAddress_Eq.decides a b,
          PduAddress_Eq.decides b a,
        );
        backward = λ u b h.
            let (ct, held, same) = p.backward u b (before u b h) in
            (
              ct,
              ground (
                arith,
                before u b h,
                lookup-drop_address a u s.contacts_uuid_pdua p.once,
                lookup-erase a b s.contacts,
                PduAddress_Eq.decides a b,
                PduAddress_Eq.decides b a,
              ),
              same,
            );
        known = λ b ct h. p.known b ct (old b ct h);
        given = λ u b h. p.given u b (before u b h);
        once = drop_address-NodupKeys a s.contacts_uuid_pdua p.once;
      }
