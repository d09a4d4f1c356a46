-- ===== src/Store/Laws/Rows.antt =====
-- src/store.rs: what the statements on the recipients table do to the row with one phone number.
use sms_irc.Base.{
  ℕ, ◌≡◌, refl, String, Bool, true, false, not, List, [], ◌∷◌, ◌++◌, map, Option, none, some, find?,
  keep, any, if◌then◌else◌, ◌==◌, String_Eq, arith, Bool-cases, inl, inr, eq_iff, sym, subst, ◌∙◌,
}
use sms_irc.Models.{Recipient, NewRecipient}
use sms_irc.Store.Recipients.{recipient_row}

-- A row without the id that the database has given it.
abbrev pub known : Option Recipient → Option NewRecipient
known none = none
known (some r) = some (record {
  phone_number = r.phone_number;
  nick = r.nick;
  whatsapp = r.whatsapp;
  avatar_url = r.avatar_url;
  notify = r.notify;
  nicksrc = r.nicksrc;
})

abbrev pub with_number : String → List Recipient → Option NewRecipient
with_number n rows = known (find? (λ r. r.phone_number == n) rows)

abbrev pub if_absent : NewRecipient → Option NewRecipient → Option NewRecipient
if_absent new none = some new
if_absent new (some r) = some r

abbrev pub changed : (NewRecipient → NewRecipient) → Option NewRecipient → Option NewRecipient
changed f none = none
changed f (some r) = some (f r)

abbrev pub has_number : String → List Recipient → Bool
has_number n rows = any (λ (r : Recipient). r.phone_number == n) rows

with_number-none :
    (n : String) (rows : List Recipient) → has_number n rows ≡ false → with_number n rows ≡ none
with_number-none n [] h = refl
with_number-none n (r ∷ rows) h = ground (arith, h, with_number-none n rows)

with_number-taken :
    (n : String) (new : NewRecipient) (rows : List Recipient)
    → has_number n rows ≡ true
    → if_absent new (with_number n rows) ≡ with_number n rows
with_number-taken n new [] h = ground arith
with_number-taken n new (r ∷ rows) h = elim (Bool-cases (r.phone_number == n)) [
  | inl t ↦ rw t refl
  | inr f ↦ rw f (with_number-taken n new rows (ground (arith, h, f)))
]

with_number-append :
    (n : String) (rows : List Recipient) (new : Recipient)
    → with_number n (rows ++ new ∷ [])
      ≡ (if has_number n rows then with_number n rows else with_number n (new ∷ []))
with_number-append n [] new = refl
with_number-append n (r ∷ rows) new = elim (Bool-cases (r.phone_number == n)) [
  | inl t ↦ rw t refl
  | inr f ↦ rw f (with_number-append n rows new)
]

-- An INSERT adds the row, if there is none with its number yet.
pub with_number-insert :
    (n : String) (id : ℕ) (new : NewRecipient) (rows : List Recipient)
    → has_number new.phone_number rows ≡ false
    → with_number n (rows ++ recipient_row id new ∷ [])
      ≡ (if new.phone_number == n then if_absent new (with_number n rows) else with_number n rows)
with_number-insert n id new rows h = elim (Bool-cases (new.phone_number == n)) [
  | inl t ↦
      let free : has_number n rows ≡ false =
        subst (λ k. has_number k rows ≡ false) ((eq_iff new.phone_number n).0 t) h in
      with_number-append n rows (recipient_row id new)
      ∙ rw (free, t, with_number-none n rows free) refl
  | inr f ↦
      with_number-append n rows (recipient_row id new) ∙ elim (Bool-cases (has_number n rows)) [
        | inl t ↦ rw (t, f) refl
        | inr g ↦ rw (g, f, with_number-none n rows g) refl
      ]
]

-- An INSERT that is refused for the number changes nothing either way.
pub with_number-refused :
    (n : String) (new : NewRecipient) (rows : List Recipient)
    → has_number new.phone_number rows ≡ true
    → with_number n rows
      ≡ (if new.phone_number == n then if_absent new (with_number n rows) else with_number n rows)
with_number-refused n new rows h = elim (Bool-cases (new.phone_number == n)) [
  | inl t ↦ rw t (
      sym (
        with_number-taken n new rows
          (subst (λ k. has_number k rows ≡ true) ((eq_iff new.phone_number n).0 t) h)))
  | inr f ↦ rw f refl
]

module _ (f : Recipient → Recipient) (g : NewRecipient → NewRecipient)
    (keeps : (r : Recipient) → (f r).phone_number ≡ r.phone_number)
    (does : (r : Recipient) → known (some (f r)) ≡ changed g (known (some r))) where
  abbrev update : String → Recipient → Recipient
  update num r = if r.phone_number == num then f r else r

  update_same :
      (n : String) (rows : List Recipient)
      → with_number n (map (update n) rows) ≡ changed g (with_number n rows)
  update_same n [] = refl
  update_same n (r ∷ rows) = elim (Bool-cases (r.phone_number == n)) [
    | inl t ↦
        let still : ((f r).phone_number == n) ≡ true =
          subst (λ k. (k == n) ≡ true) (sym (keeps r)) t in
        rw (t, still) (does r)
    | inr b ↦ rw (b, b) (update_same n rows)
  ]

  update_other :
      (n num : String) (rows : List Recipient)
      → (num == n) ≡ false
      → with_number n (map (update num) rows) ≡ with_number n rows
  update_other n num [] h = refl
  update_other n num (r ∷ rows) h = elim (Bool-cases (r.phone_number == num)) [
    | inl t ↦
        let other : (r.phone_number == n) ≡ false =
          subst (λ k. (k == n) ≡ false) (sym ((eq_iff r.phone_number num).0 t)) h in
        rw (t, keeps r, other) (update_other n num rows h)
    | inr b ↦ elim (Bool-cases (r.phone_number == n)) [
      | inl t ↦ rw (b, t) refl
      | inr c ↦ rw (b, c) (update_other n num rows h)
    ]
  ]

  -- An UPDATE changes the row with its number alone.
  pub with_number-update :
      (n num : String) (rows : List Recipient)
      → with_number n (map (update num) rows)
        ≡ (if num == n then changed g (with_number n rows) else with_number n rows)
  with_number-update n num rows = elim (Bool-cases (num == n)) [
    | inl t ↦ rw t (
        subst (λ k. with_number n (map (update k) rows) ≡ changed g (with_number n rows))
          (sym ((eq_iff num n).0 t)) (update_same n rows))
    | inr b ↦ rw b (update_other n num rows b)
  ]

abbrev others : String → List Recipient → List Recipient
others num rows = keep (λ (r : Recipient). not (r.phone_number == num)) rows

delete_same : (n : String) (rows : List Recipient) → with_number n (others n rows) ≡ none
delete_same n [] = refl
delete_same n (r ∷ rows) = elim (Bool-cases (r.phone_number == n)) [
  | inl t ↦ rw t (delete_same n rows)
  | inr b ↦ rw (b, b) (delete_same n rows)
]

delete_other :
    (n num : String) (rows : List Recipient)
    → (num == n) ≡ false
    → with_number n (others num rows) ≡ with_number n rows
delete_other n num [] h = refl
delete_other n num (r ∷ rows) h = elim (Bool-cases (r.phone_number == num)) [
  | inl t ↦
      let other : (r.phone_number == n) ≡ false =
        subst (λ k. (k == n) ≡ false) (sym ((eq_iff r.phone_number num).0 t)) h in
      rw (t, other) (delete_other n num rows h)
  | inr b ↦ elim (Bool-cases (r.phone_number == n)) [
    | inl t ↦ rw (b, t) refl
    | inr c ↦ rw (b, c) (delete_other n num rows h)
  ]
]

-- A DELETE takes the row with its number, and no other; that there is none is no difference.
pub with_number-delete :
    (n num : String) (rows : List Recipient)
    → with_number n (others num rows) ≡ (if num == n then none else with_number n rows)
with_number-delete n num rows = elim (Bool-cases (num == n)) [
  | inl t ↦ rw t (
      subst (λ k. with_number n (others k rows) ≡ none) (sym ((eq_iff num n).0 t))
        (delete_same n rows))
  | inr b ↦ rw b (delete_other n num rows b)
]

pub with_number-missing :
    (n num : String) (rows : List Recipient)
    → has_number num rows ≡ false
    → with_number n rows ≡ (if num == n then none else with_number n rows)
with_number-missing n num rows h = elim (Bool-cases (num == n)) [
  | inl t ↦
      rw t (with_number-none n rows (subst (λ k. has_number k rows ≡ false) ((eq_iff num n).0 t) h))
  | inr b ↦ rw b refl
]
