-- ===== src/Store/Messages.antt =====
-- src/store.rs: the messages table.
use sms_irc.Base.{
  ℕ, suc, String, Bool, true, false, not, ◌&&◌, ◌||◌, List, [], ◌∷◌, ◌++◌, Option, none, some, ok,
  err, M, ◌>>◌, gets, ltb, leb, keep, any, if◌then◌else◌, ◌==◌, String_Eq, ℕ_Eq, ℤ, ℤ_Eq,
}
use sms_irc.Extern.{PduAddress, Libs}
use sms_irc.Models.{Message, Group, NewMessage, NewPlainMessage, source_sms, source_wa}
use sms_irc.Util.{normalize_address}
use sms_irc.Store.Tables.{Store, connect}

-- The row of `NewMessage`: the columns that it lacks take their defaults, `now` for `ts`.
abbrev pub sms_row : ℕ → ℕ → NewMessage → Message
sms_row id now new = record {
  id = id;
  phone_number = new.phone_number;
  pdu = some new.pdu;
  csms_data = new.csms_data;
  group_target = none;
  text = none;
  source = new.source;
  ts = now;
}

abbrev pub add_message : Message → Store → Store
add_message row st = record st {
  messages = st.messages ++ row ∷ [];
  next_message = suc st.next_message;
}

abbrev pub skip_message : Store → Store
skip_message st = record st { next_message = suc st.next_message }

unfoldable pub insert_sms : ℕ → NewMessage → M Store Message
insert_sms now new st = let row = sms_row st.next_message now new in (ok row, add_message row st)

-- The foreign key `group_target`.
abbrev pub refers : Option ℕ → List Group → Bool
refers none groups = true
refers (some g) groups = any (λ (x : Group). x.id == g) groups

abbrev pub plain_row : ℕ → NewPlainMessage → Message
plain_row id new = record {
  id = id;
  phone_number = new.phone_number;
  pdu = none;
  csms_data = none;
  group_target = new.group_target;
  text = some new.text;
  source = new.source;
  ts = new.ts;
}

unfoldable pub insert_plain : NewPlainMessage → M Store Message
insert_plain new st =
    let row = plain_row st.next_message new in
    if refers new.group_target st.groups
    then (ok row, add_message row st)
    else (err "foreign key violation", skip_message st)

module _ (l : Libs) where
  -- `now` is the server's clock.
  unfoldable pub store_sms_message : ℕ → PduAddress → List ℕ → Option ℤ → M Store Message
  store_sms_message now addr pdu csms_data = do
    connect
    insert_sms now (record {
      phone_number = normalize_address l addr;
      pdu = pdu;
      csms_data = csms_data;
      source = source_sms;
    })

  unfoldable pub store_wa_message : PduAddress → String → Option ℕ → ℕ → M Store Message
  store_wa_message addr text group_target ts = do
    connect
    insert_plain (record {
      phone_number = normalize_address l addr;
      group_target = group_target;
      text = text;
      source = source_wa;
      ts = ts;
    })

-- ORDER BY ts ASC, id ASC
abbrev pub before : Message → Message → Bool
before a b = ltb a.ts b.ts || ((a.ts == b.ts) && leb a.id b.id)

unfoldable pub insert_ordered : Message → List Message → List Message
insert_ordered m [] = m ∷ []
insert_ordered m (x ∷ xs) = if before m x then m ∷ x ∷ xs else x ∷ insert_ordered m xs

unfoldable pub order : List Message → List Message
order [] = []
order (x ∷ xs) = insert_ordered x (order xs)

unfoldable pub get_all_messages : M Store (List Message)
get_all_messages = do connect; gets λ st. order st.messages

unfoldable pub get_messages_for_recipient : Libs → PduAddress → M Store (List Message)
get_messages_for_recipient l addr = do
  connect
  gets λ st. order (keep (λ m. m.phone_number == normalize_address l addr) st.messages)

abbrev pub has_csms : ℤ → Option ℤ → Bool
has_csms rf none = false
has_csms rf (some d) = d == rf

unfoldable pub get_all_concatenated : String → ℤ → M Store (List Message)
get_all_concatenated num rf = do
  connect
  gets λ st. keep (λ m. has_csms rf m.csms_data && (m.phone_number == num)) st.messages

unfoldable pub delete_messages : ℕ → M Store (Unit {0})
delete_messages mid st =
    if any (λ (m : Message). m.id == mid) st.messages
    then (ok tt, record st { messages = keep (λ (m : Message). not (m.id == mid)) st.messages })
    else (err "no rows affected deleting mid", st)

unfoldable pub delete_message : ℕ → M Store (Unit {0})
delete_message mid = do connect; delete_messages mid
