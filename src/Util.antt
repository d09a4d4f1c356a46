-- ===== src/Util.antt =====
-- src/util.rs: addresses, their normal form in the database, and names that IRC accepts.
pub mod Names
pub mod Address
pub mod Outbox
use Prim.Native.String
use sms_irc.Base.{
  ℕ, ◌+◌, ◌/◌, ◌%◌, Char, String, len, Bool, true, false, ◌||◌, List, [], ◌∷◌, Option, none, some,
  ltb, if◌then◌else◌, ◌<>◌, char_eq, is_ascii_alphabetic, is_ascii_alphanumeric, lower_char,
  hex_digit, Result, ok, panic,
}
use sms_irc.Extern.{PduAddress, Jid, Libs}

-- format!("{:02X}", b) of an octet
unfoldable pub hex_octet : ℕ → String
hex_octet b = String.◌∷◌ (hex_digit (b / 16)) (String.◌∷◌ (hex_digit (b % 16)) String.[])

-- What `string_to_irc_chan` pushes for one character.
unfoldable pub chan_char : Char → String
chan_char c =
    if char_eq c "_"
    then "_"
    else if char_eq c "-"
    then "-"
    else if char_eq c "#"
    then "#"
    else if char_eq c " "
    then "-"
    else if is_ascii_alphanumeric c
    then String.◌∷◌ (lower_char c) String.[]
    else ""

abbrev pub is_nick_symbol : Char → Bool
is_nick_symbol c =
    char_eq c "_"
    || char_eq c "-"
    || char_eq c "\\"
    || char_eq c "["
    || char_eq c "]"
    || char_eq c "{"
    || char_eq c "}"
    || char_eq c "^"
    || char_eq c "`"
    || char_eq c "|"

-- What `string_to_irc_nick` pushes for one character.
unfoldable pub nick_char : Char → Char
nick_char c =
    if char_eq c "+"
    then "I"
    else if is_nick_symbol c
    then c
    else if is_ascii_alphanumeric c
    then c
    else "_"

unfoldable pub chan_chars : String → String
chan_chars String.[] = ""
chan_chars (String.◌∷◌ c s) = chan_char c <> chan_chars s

unfoldable pub nick_chars : String → String
nick_chars String.[] = ""
nick_chars (String.◌∷◌ c s) = String.◌∷◌ (nick_char c) (nick_chars s)

-- `if let Some(ch) = ret.chars().nth(1) { if ch.is_ascii_alphabetic() { ret.remove(0); } }`
unfoldable pub drop_prefix : String → String
drop_prefix String.[] = ""
drop_prefix (String.◌∷◌ p String.[]) = String.◌∷◌ p String.[]
drop_prefix (String.◌∷◌ p (String.◌∷◌ c s)) =
    if is_ascii_alphabetic c then String.◌∷◌ c s else String.◌∷◌ p (String.◌∷◌ c s)

module _ (l : Libs) where
  open l use {
    address_type, hex_string, hex_decode, parse_address, show_address, phonenumber,
    from_phonenumber, unidecode,
  }

  -- A number that does not parse panics: `pn.parse().unwrap()`.
  unfoldable pub jid_to_address : Jid → Result (Option PduAddress)
  jid_to_address jid = elim (phonenumber jid) [
    | none ↦ ok none
    | some pn ↦ elim (parse_address pn) [
      | none ↦ panic
      | some ret ↦ elim ret.number [ [] ↦ ok none | _ ∷ _ ↦ ok (some ret) ]
    ]
  ]

  unfoldable pub address_to_jid : PduAddress → Result Jid
  address_to_jid addr = from_phonenumber (show_address addr)

  unfoldable pub normalize_address : PduAddress → String
  normalize_address addr = hex_octet addr.type_addr <> hex_string addr.number

  -- `data.remove(0)` panics on no data.
  unfoldable pub address_of_bytes : List ℕ → Result (Option PduAddress)
  address_of_bytes [] = panic
  address_of_bytes (toa ∷ num) = elim (address_type toa) [
    | none ↦ ok none
    | some t ↦ ok (some (record { type_addr = t; number = num }))
  ]

  unfoldable pub un_normalize_address : String → Result (Option PduAddress)
  unfolding address_of_bytes
  un_normalize_address addr =
      if ltb (len addr) 3
      then ok none
      else elim (hex_decode addr) [ none ↦ ok none | some bytes ↦ address_of_bytes bytes ]

  unfoldable pub string_to_irc_chan : String → String
  string_to_irc_chan inp = chan_chars (unidecode inp)

  unfoldable pub string_to_irc_nick : String → String
  string_to_irc_nick inp = drop_prefix (String.◌∷◌ "S" (nick_chars (unidecode inp)))

  unfoldable pub make_nick_for_address : PduAddress → String
  make_nick_for_address addr = string_to_irc_nick (show_address addr)
