-- ===== src/Store/Recipients.antt =====
-- src/store.rs: the recipients table. Its phone numbers are unique (migrations/20180621140749_initial).
use sms_irc.Base.{
  ℕ, suc, String, Bool, true, false, not, List, [], ◌∷◌, ◌++◌, map, Option, none, ok, err, M, ◌>>◌,
  gets, modify, find?, keep, any, if◌then◌else◌, ◌==◌, String_Eq, ℕ_Eq, ℤ, ℤ_Eq,
}
use sms_irc.Extern.{PduAddress, Libs}
use sms_irc.Models.{Recipient, NewRecipient, nicksrc_auto}
use sms_irc.Util.{normalize_address}
use sms_irc.Store.Tables.{Store, connect}

abbrev pub recipient_row : ℕ → NewRecipient → Recipient
recipient_row id new = record {
  id = id;
  phone_number = new.phone_number;
  nick = new.nick;
  whatsapp = new.whatsapp;
  avatar_url = new.avatar_url;
  notify = new.notify;
  nicksrc = new.nicksrc;
}

abbrev pub add_recipient : Recipient → Store → Store
add_recipient row st = record st {
  recipients = st.recipients ++ row ∷ [];
  next_recipient = suc st.next_recipient;
}

-- A sequence is not rolled back: a refused INSERT has used up its number.
abbrev pub skip_recipient : Store → Store
skip_recipient st = record st { next_recipient = suc st.next_recipient }

unfoldable pub insert_recipient : NewRecipient → M Store Recipient
insert_recipient new st =
    let row = recipient_row st.next_recipient new in
    if any (λ (r : Recipient). r.phone_number == new.phone_number) st.recipients
    then (err "duplicate key value", skip_recipient st)
    else (ok row, add_recipient row st)

-- UPDATE of the rows with a phone number; no row is no error.
abbrev pub update_recipients : String → (Recipient → Recipient) → Store → Store
update_recipients num f st = record st {
  recipients = map (λ (r : Recipient). if r.phone_number == num then f r else r) st.recipients;
}

-- DELETE of the rows with a phone number; that there are none is an error.
unfoldable pub delete_recipients : String → M Store (Unit {0})
delete_recipients num st =
    if any (λ (r : Recipient). r.phone_number == num) st.recipients
    then (
      ok tt,
      record st {
        recipients = keep (λ (r : Recipient). not (r.phone_number == num)) st.recipients;
      },
    )
    else (err "no rows affected deleting recip", st)

module _ (l : Libs) where
  unfoldable pub store_recipient : PduAddress → String → M Store Recipient
  store_recipient addr nick = do
    connect
    insert_recipient (record {
      phone_number = normalize_address l addr;
      nick = nick;
      whatsapp = false;
      avatar_url = none;
      notify = none;
      nicksrc = nicksrc_auto;
    })

  unfoldable pub store_wa_recipient : PduAddress → String → Option String → ℤ → M Store Recipient
  store_wa_recipient addr nick notify nicksrc = do
    connect
    insert_recipient (record {
      phone_number = normalize_address l addr;
      nick = nick;
      whatsapp = true;
      avatar_url = none;
      notify = notify;
      nicksrc = nicksrc;
    })

  unfoldable pub update_recipient_notify : PduAddress → Option String → M Store (Unit {0})
  update_recipient_notify addr n = do
    connect
    modify (update_recipients (normalize_address l addr) (λ r. record r { notify = n }))

  unfoldable pub update_recipient_nick : PduAddress → String → ℤ → M Store (Unit {0})
  update_recipient_nick addr n src = do
    connect
    modify
        (update_recipients (normalize_address l addr) (λ r. record r { nick = n; nicksrc = src }))

  unfoldable pub update_recipient_wa : PduAddress → Bool → M Store (Unit {0})
  update_recipient_wa addr wa = do
    connect
    modify (update_recipients (normalize_address l addr) (λ r. record r { whatsapp = wa }))

  unfoldable pub get_recipient_by_addr_opt : PduAddress → M Store (Option Recipient)
  get_recipient_by_addr_opt addr = do
    connect
    gets λ st. find? (λ r. r.phone_number == normalize_address l addr) st.recipients

  unfoldable pub delete_recipient_with_addr : PduAddress → M Store (Unit {0})
  delete_recipient_with_addr addr = do connect; delete_recipients (normalize_address l addr)

unfoldable pub get_recipient_by_id_opt : ℕ → M Store (Option Recipient)
get_recipient_by_id_opt i = do connect; gets λ st. find? (λ r. r.id == i) st.recipients

unfoldable pub get_recipient_by_nick_opt : String → M Store (Option Recipient)
get_recipient_by_nick_opt n = do connect; gets λ st. find? (λ r. r.nick == n) st.recipients

unfoldable pub get_all_recipients : M Store (List Recipient)
get_all_recipients = do connect; gets λ st. st.recipients

unfoldable pub get_recipients_with_nicksrc : ℤ → M Store (List Recipient)
get_recipients_with_nicksrc ns = do connect; gets λ st. keep (λ r. r.nicksrc == ns) st.recipients
