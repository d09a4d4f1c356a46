-- ===== src/Models.antt =====
-- src/models.rs: the rows of the database's tables. Ids are the positive numbers of a SERIAL column;
-- times are numbers of microseconds since the epoch.
use sms_irc.Base.{
  ℕ, String, Bool, List, Option, none, some, ℤ, pos, negsuc, Result, ok, err, panic, ◌<>◌,
}
use sms_irc.Extern.{PduAddress, Libs}
use sms_irc.Util.{un_normalize_address}

pub record Recipient : Type 0 where
  pub id : ℕ
  pub phone_number : String
  pub nick : String
  pub whatsapp : Bool
  pub avatar_url : Option String
  pub notify : Option String
  pub nicksrc : ℤ

abbrev pub nicksrc_migrated : ℤ
nicksrc_migrated = negsuc 0

abbrev pub nicksrc_auto : ℤ
nicksrc_auto = pos 0

abbrev pub nicksrc_user : ℤ
nicksrc_user = pos 1

abbrev pub nicksrc_wa_contact : ℤ
nicksrc_wa_contact = pos 2

abbrev pub nicksrc_wa_notify : ℤ
nicksrc_wa_notify = pos 3

abbrev pub nicksrc_collision : ℤ
nicksrc_collision = pos 4

pub record NewRecipient : Type 0 where
  pub phone_number : String
  pub nick : String
  pub whatsapp : Bool
  pub avatar_url : Option String
  pub notify : Option String
  pub nicksrc : ℤ

pub record Message : Type 0 where
  pub id : ℕ
  pub phone_number : String
  pub pdu : Option (List ℕ)
  pub csms_data : Option ℤ
  pub group_target : Option ℕ
  pub text : Option String
  pub source : ℤ
  pub ts : ℕ

abbrev pub source_sms : ℤ
source_sms = pos 0

abbrev pub source_wa : ℤ
source_wa = pos 1

pub record Group : Type 0 where
  pub id : ℕ
  pub jid : String
  pub channel : String
  pub participants : List ℕ
  pub admins : List ℕ
  pub topic : String

pub record NewGroup : Type 0 where
  pub jid : String
  pub channel : String
  pub participants : List ℕ
  pub admins : List ℕ
  pub topic : String

pub record NewMessage : Type 0 where
  pub phone_number : String
  pub pdu : List ℕ
  pub csms_data : Option ℤ
  pub source : ℤ

pub record NewPlainMessage : Type 0 where
  pub phone_number : String
  pub group_target : Option ℕ
  pub text : String
  pub source : ℤ
  pub ts : ℕ

-- The body of `get_addr`, which Recipient and Message share.
abbrev read_address : String → Result (Option PduAddress) → Result PduAddress
read_address number (ok (some addr)) = ok addr
read_address number (ok none) = err ("invalid address " <> number <> " in db")
read_address number (err e) = err e
read_address number panic = panic

unfoldable pub recipient_addr : Libs → Recipient → Result PduAddress
recipient_addr l r = read_address r.phone_number (un_normalize_address l r.phone_number)

unfoldable pub message_addr : Libs → Message → Result PduAddress
message_addr l m = read_address m.phone_number (un_normalize_address l m.phone_number)
