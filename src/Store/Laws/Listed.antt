-- ===== src/Store/Laws/Listed.antt =====
-- src/store.rs: the messages that are listed for a recipient, between their storing and their deletion.
use mathlib.Core.List.{Perm}
use mathlib.Core.List.Perm
use sms_irc.Base.{
  ℕ, ◌<◌, ◌≡◌, refl, ap, String, Bool, true, false, not, List, [], ◌∷◌, ◌++◌, Option, some, Result,
  ok, any, keep, All, arith, if◌then◌else◌, ◌==◌, ℕ_Eq, String_Eq, Bool-cases, inl, inr,
}
use sms_irc.Extern.{PduAddress, Libs}
use sms_irc.Models.{Message, source_wa}
use sms_irc.Util.{normalize_address}
use sms_irc.Store.Tables.{Store, connect}
use sms_irc.Store.Messages.{
  store_wa_message, get_messages_for_recipient, delete_message, delete_messages, insert_plain,
  insert_ordered, order, refers, before, plain_row,
}

insert_ordered-Perm : (m : Message) (ms : List Message) → Perm (insert_ordered m ms) (m ∷ ms)
unfolding insert_ordered
insert_ordered-Perm m [] = Perm.refl _
insert_ordered-Perm m (x ∷ ms) = elim (Bool-cases (before m x)) [
  | inl t ↦ rw t (Perm.refl _)
  | inr f ↦ rw f (Perm.trans (Perm.cons x (insert_ordered-Perm m ms)) (Perm.swap m x ms))
]

order-Perm : (ms : List Message) → Perm (order ms) ms
unfolding order
order-Perm [] = Perm.nil
order-Perm (m ∷ ms) = Perm.trans (insert_ordered-Perm m (order ms)) (Perm.cons m (order-Perm ms))

-- From the oldest message on, and by their ids where the times are the same.
abbrev pub IsOldestFirst : List Message → Type 0
IsOldestFirst [] = Unit {0}
IsOldestFirst (m ∷ []) = Unit {0}
IsOldestFirst (m ∷ x ∷ ms) = (before m x ≡ true) × IsOldestFirst (x ∷ ms)

before_total : (a b : Message) → before a b ≡ false → before b a ≡ true
before_total a b h = ground arith

insert_ordered-IsOldestFirst :
    (m : Message) (ms : List Message) → IsOldestFirst ms → IsOldestFirst (insert_ordered m ms)
unfolding insert_ordered
insert_ordered-IsOldestFirst m [] h = tt
insert_ordered-IsOldestFirst m (x ∷ []) h = elim (Bool-cases (before m x)) [
  | inl t ↦ rw t (t, tt)
  | inr f ↦ rw f (before_total m x f, tt)
]
insert_ordered-IsOldestFirst m (x ∷ y ∷ ms) h =
    let rest = insert_ordered-IsOldestFirst m (y ∷ ms) h.1 in
    elim (Bool-cases (before m x)) [
      | inl t ↦ rw t (t, h)
      | inr f ↦ elim (Bool-cases (before m y)) [
        | inl t ↦ rw (f, t) (before_total m x f, rw t at rest)
        | inr g ↦ rw (f, g) (h.0, rw g at rest)
      ]
    ]

order-IsOldestFirst : (ms : List Message) → IsOldestFirst (order ms)
unfolding order
order-IsOldestFirst [] = tt
order-IsOldestFirst (m ∷ ms) = insert_ordered-IsOldestFirst m (order ms) (order-IsOldestFirst ms)

keep-append :
    (p : Message → Bool) (ms : List Message) (m : Message)
    → keep p (ms ++ m ∷ []) ≡ (if p m then keep p ms ++ m ∷ [] else keep p ms)
keep-append p [] m = refl
keep-append p (x ∷ ms) m = ground (arith, keep-append p ms m)

-- Deleting by an id that no other row has takes the last row back out.
keep_fresh :
    (n : ℕ) (ms : List Message) (m : Message)
    → m.id ≡ n
    → All (λ (x : Message). x.id < n) ms
    → (keep (λ (x : Message). not (x.id == n)) (ms ++ m ∷ []) ≡ ms)
      × (any (λ (x : Message). x.id == n) (ms ++ m ∷ []) ≡ true)
keep_fresh n [] m e h = (ground (arith, e), ground (arith, e))
keep_fresh n (x ∷ ms) m e h =
    let rest = keep_fresh n ms m e h.1 in
    let other : (x.id == n) ≡ false = ground (arith, h.0) in
    rw other (ap (λ r. x ∷ r) rest.0, rest.1)

append_last-Perm : (ms : List Message) (m : Message) → Perm (ms ++ m ∷ []) (m ∷ ms)
append_last-Perm [] m = Perm.refl _
append_last-Perm (x ∷ ms) m = Perm.trans (Perm.cons x (append_last-Perm ms m)) (Perm.swap m x ms)

listed-Perm : (ms : List Message) (m : Message) → Perm (order (ms ++ m ∷ [])) (m ∷ order ms)
listed-Perm ms m =
    Perm.trans (order-Perm (ms ++ m ∷ []))
      (Perm.trans (append_last-Perm ms m) (Perm.cons m (Perm.symm (order-Perm ms))))

-- The database when it refuses no statement.
abbrev pub calm : Store → Store
calm st = record st { faults = [] }

module _ (l : Libs) where
  abbrev pub listing : PduAddress → Store → Result (List Message)
  listing b st = (get_messages_for_recipient l b (calm st)).0

  -- The rows of an address, in the order of the table.
  abbrev rows_of : PduAddress → List Message → List Message
  rows_of b ms = keep (λ (m : Message). m.phone_number == normalize_address l b) ms

  rows_of-Perm :
      (b : PduAddress) (ms : List Message) (m : Message)
      → Perm (order (rows_of b (ms ++ m ∷ []))) (
          if m.phone_number == normalize_address l b
          then m ∷ order (rows_of b ms)
          else order (rows_of b ms))
  rows_of-Perm b ms m =
      let split = keep-append (λ (x : Message). x.phone_number == normalize_address l b) ms m in
      elim (Bool-cases (m.phone_number == normalize_address l b)) [
        | inl t ↦ rw (split, t) (listed-Perm (rows_of b ms) m)
        | inr f ↦ rw (split, f) (Perm.refl _)
      ]

  -- How the listing of `b` goes while a message for `a` is stored and then deleted.
  abbrev pub ListedUntilDeleted : PduAddress → PduAddress → String → Option ℕ → ℕ → Store → Type 0
  ListedUntilDeleted a b text group ts st =
      let (stored, kept) = store_wa_message l a text group ts (calm st) in
      (row : Message) × (old : List Message) × (new : List Message) × (stored ≡ ok row)
      × (row.text ≡ some text)
      × (row.group_target ≡ group)
      × (row.ts ≡ ts)
      × (listing b st ≡ ok old)
      × (listing b kept ≡ ok new)
      × Perm new (if normalize_address l a == normalize_address l b then row ∷ old else old)
      × IsOldestFirst new
      × (let (deleted, left) = delete_message row.id kept in
          (deleted ≡ ok tt) × (listing b left ≡ ok old))

  -- Where the database refuses no statement, storing a WhatsApp message whose group exists, in a
  -- table whose ids are below the sequence's next value, gives a row with its text, group and time.
  -- The listing of an address, which begins with the oldest message, then has this row besides
  -- those that it had, if it is the address of the message, and is the same in another case; and
  -- deleting the message by its id succeeds and leaves every listing as it was before.
  pub store_wa_message-delete_message :
      (a b : PduAddress) (text : String) (group : Option ℕ) (ts : ℕ) (st : Store)
      → refers group st.groups ≡ true
      → All (λ (m : Message). m.id < st.next_message) st.messages
      → ListedUntilDeleted a b text group ts st
  unfolding store_wa_message insert_plain get_messages_for_recipient connect delete_message
      delete_messages
  store_wa_message-delete_message a b text group ts st there below =
      let row = plain_row st.next_message (record {
        phone_number = normalize_address l a;
        group_target = group;
        text = text;
        source = source_wa;
        ts = ts;
      }) in
      let fresh = keep_fresh st.next_message st.messages row refl below in
      rw there (
        row,
        order (rows_of b st.messages),
        order (rows_of b (st.messages ++ row ∷ [])),
        refl,
        refl,
        refl,
        refl,
        refl,
        refl,
        rows_of-Perm b st.messages row,
        order-IsOldestFirst (rows_of b (st.messages ++ row ∷ [])),
        rw (fresh.1, fresh.0) (refl, refl),
      )
