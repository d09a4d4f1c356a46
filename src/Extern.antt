-- ===== src/Extern.antt =====
-- What src/ takes from the crates that it does not hold: huawei_modem's addresses, whatsappweb's
-- JIDs, and unidecode. Their data are the structs whose fields the source reads; their functions
-- are the parameter `Libs` of whatever calls them.
use sms_irc.Base.{
  ℕ, ◌≡◌, ◌↔◌, Bool, true, false, ◌&&◌, String, List, [], ◌∷◌, Option, Result, PartialEq, ◌==◌,
  ℕ_Eq, String_Eq, arith, eq_iff,
}

-- huawei_modem::pdu::PduAddress. `type_addr` is the octet of its AddressType, and `number` the
-- bytes of its PhoneNumber.
pub record PduAddress : Type 0 where
  pub type_addr : ℕ
  pub number : List ℕ

-- whatsappweb::Jid
pub record Jid : Type 0 where
  pub id : String
  pub is_group : Bool

-- huawei_modem::pdu::DeliverPdu, whose message data stay encoded until they are asked for.
pub record DeliverPdu : Type 0 where
  pub originating_address : PduAddress
  pub message_data : List ℕ

-- huawei_modem's ConcatenatedSmsData, and what `decode_message` answers.
pub record ConcatenatedSmsData : Type 0 where
  pub reference : ℕ
  pub parts : ℕ
  pub sequence : ℕ

pub record DecodedMessage : Type 0 where
  pub text : String
  pub concatenated : Option ConcatenatedSmsData

-- huawei_modem::cmd::sms::SmsMessage; `unread` says that its status is ReceivedUnread.
pub record SmsMessage : Type 0 where
  pub unread : Bool
  pub pdu : DeliverPdu
  pub raw_pdu : List ℕ

-- whatsappweb::message::Peer
pub data Peer : Type 0 where
  individual : Jid → Peer
  group : Jid → Jid → Peer

pub record Libs : Type 0 where
  -- AddressType::try_from(u8)
  pub address_type : ℕ → Option ℕ
  -- HexData: its Display, and `decode`
  pub hex_string : List ℕ → String
  pub hex_decode : String → Option (List ℕ)
  -- PduAddress: FromStr, and Display
  pub parse_address : String → Option PduAddress
  pub show_address : PduAddress → String
  -- Jid: phonenumber(), from_phonenumber(), FromStr, and Display
  pub phonenumber : Jid → Option String
  pub from_phonenumber : String → Result Jid
  pub parse_jid : String → Option Jid
  pub show_jid : Jid → String
  pub unidecode : String → String
  -- DeliverPdu: TryFrom<&[u8]>; `get_message_data().decode_message()`
  pub parse_pdu : List ℕ → Result DeliverPdu
  pub decode_message : DeliverPdu → Result DecodedMessage

abbrev list_eq : List ℕ → List ℕ → Bool
list_eq [] [] = true
list_eq (x ∷ xs) (y ∷ ys) = (x == y) && list_eq xs ys
list_eq _ _ = false

list_eq_iff : (xs ys : List ℕ) → (list_eq xs ys ≡ true) ↔ (xs ≡ ys)
list_eq_iff [] [] = ground arith
list_eq_iff [] (y ∷ ys) = ground arith
list_eq_iff (x ∷ xs) [] = ground arith
list_eq_iff (x ∷ xs) (y ∷ ys) = ground (arith, list_eq_iff xs ys)

abbrev address_eq : PduAddress → PduAddress → Bool
address_eq a b = (a.type_addr == b.type_addr) && list_eq a.number b.number

pub address_eq_iff : (a b : PduAddress) → (address_eq a b ≡ true) ↔ (a ≡ b)
address_eq_iff a b = ground (arith, list_eq_iff a.number b.number)

instance abbrev pub PduAddress_Eq : PartialEq PduAddress
PduAddress_Eq = record { same = address_eq; decides = address_eq_iff }

abbrev bool_eq : Bool → Bool → Bool
bool_eq true b = b
bool_eq false true = false
bool_eq false false = true

abbrev jid_eq : Jid → Jid → Bool
jid_eq a b = (a.id == b.id) && bool_eq a.is_group b.is_group

pub jid_eq_iff : (a b : Jid) → (jid_eq a b ≡ true) ↔ (a ≡ b)
jid_eq_iff a b = ground (arith, eq_iff a.id b.id)

instance abbrev pub Jid_Eq : PartialEq Jid
Jid_Eq = record { same = jid_eq; decides = jid_eq_iff }
