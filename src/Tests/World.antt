-- ===== src/Tests/World.antt =====
-- Concrete functions in the place of the libraries, and a database with a group and its message.
use Prim.Native.Char.{Char, code}
use Prim.Native.Char.{len_utf8, len_utf8_def}
use text.Mathlib.TextLemmas.{cons-append, nil-append}
use sms_irc.Sender.Fragments.{len-cons}
use sms_irc.Base.{
  ℕ, ◌+◌, ◌*◌, ◌-◌, ◌/◌, ◌%◌, ◌<◌, ◌≡◌, refl, String, len, true, false, List, [], ◌∷◌, Option, none,
  some, ok, arith, ltb, if◌then◌else◌, ◌<>◌, length, All, hex_digit, pos, ap, ◌∙◌,
}
use sms_irc.Extern.{Libs, PduAddress}
use sms_irc.Util.{hex_octet}
use sms_irc.Util.Address.{HexLaws, IsAddress}
use sms_irc.Models.{Group}
use sms_irc.Store.{Store}

abbrev hex_string : List ℕ → String
hex_string [] = ""
hex_string (b ∷ bs) = hex_octet b <> hex_string bs

abbrev digit_value : Char → ℕ
digit_value c = if ltb (code c) 65 then code c - 48 else code c - 55

abbrev cons_byte : ℕ → Option (List ℕ) → Option (List ℕ)
cons_byte b none = none
cons_byte b (some bs) = some (b ∷ bs)

abbrev hex_decode : String → Option (List ℕ)
hex_decode String.[] = some []
hex_decode (String.◌∷◌ c String.[]) = none
hex_decode (String.◌∷◌ c (String.◌∷◌ d s)) =
    cons_byte (digit_value c * 16 + digit_value d) (hex_decode s)

digit_value-hex_digit : (n : ℕ) → n < 16 → digit_value (hex_digit n) ≡ n
unfolding hex_digit
digit_value-hex_digit n h = ground arith

abbrev pub libs : Libs
libs = record {
  address_type = λ n. some n;
  hex_string = hex_string;
  hex_decode = hex_decode;
  parse_address = λ s. some (record { type_addr = 145; number = len s ∷ [] });
  show_address = λ a. "+441234";
  phonenumber = λ j. some j.id;
  from_phonenumber = λ s. ok (record { id = s; is_group = false });
  parse_jid = λ s. some (record { id = s; is_group = true });
  show_jid = λ j. j.id;
  unidecode = λ s. s;
  parse_pdu = λ bytes. ok (record {
    originating_address = record { type_addr = 145; number = [] };
    message_data = bytes;
  });
  decode_message = λ pdu. ok (record { text = "hello"; concatenated = none });
}

octet-append :
    (b : ℕ) (s : String)
    → hex_octet b <> s ≡ String.◌∷◌ (hex_digit (b / 16)) (String.◌∷◌ (hex_digit (b % 16)) s)
unfolding hex_octet
octet-append b s = rw (
  cons-append (hex_digit (b / 16)) (String.◌∷◌ (hex_digit (b % 16)) String.[]) s,
  cons-append (hex_digit (b % 16)) String.[] s,
  nil-append s,
)

len_utf8-hex_digit : (n : ℕ) → len_utf8 (hex_digit n) ≡ 1
unfolding hex_digit
len_utf8-hex_digit n = ground (arith, len_utf8_def (hex_digit n))

len-hex_octet : (b : ℕ) (s : String) → len (hex_octet b <> s) ≡ 2 + len s
len-hex_octet b s =
    ap len (octet-append b s)
    ∙ omega (
      arith,
      len-cons (hex_digit (b / 16)) (String.◌∷◌ (hex_digit (b % 16)) s),
      len-cons (hex_digit (b % 16)) s,
      len_utf8-hex_digit (b / 16),
      len_utf8-hex_digit (b % 16),
    )

len-hex_string : (bs : List ℕ) → len (hex_string bs) ≡ 2 * length bs
len-hex_string [] = refl
len-hex_string (b ∷ bs) = omega (arith, len-hex_octet b (hex_string bs), len-hex_string bs)

hex_decode-hex_string : (bs : List ℕ) → All (λ b. b < 256) bs → hex_decode (hex_string bs) ≡ some bs
unfolding hex_octet
hex_decode-hex_string [] h = refl
hex_decode-hex_string (b ∷ bs) h =
    ap hex_decode (octet-append b (hex_string bs))
    ∙ rw
        (
          digit_value-hex_digit (b / 16) (omega (arith, h.0)),
          digit_value-hex_digit (b % 16) (omega arith),
          hex_decode-hex_string bs h.1,
        )
        (ap (λ n. some (n ∷ bs)) (omega arith))

pub libs-HexLaws : HexLaws libs
libs-HexLaws = record {
  hex_cons = λ b bs h. refl;
  hex_len = len-hex_string;
  hex_read = hex_decode-hex_string;
}

abbrev pub address : PduAddress
address = record { type_addr = 145; number = 68 ∷ 33 ∷ [] }

pub address-IsAddress : IsAddress libs address
address-IsAddress = record { octet = ground arith; known = refl; bytes = ground arith }

abbrev pub group : Group
group = record {
  id = 1;
  jid = "g@g.us";
  channel = "#g";
  participants = 1 ∷ [];
  admins = [];
  topic = "";
}

abbrev pub store : Store
store = record {
  recipients =
      record {
        id = 1;
        phone_number = "9144";
        nick = "Ann";
        whatsapp = true;
        avatar_url = none;
        notify = none;
        nicksrc = pos 0;
      }
      ∷ [];
  messages =
      record {
        id = 1;
        phone_number = "9144";
        pdu = none;
        csms_data = none;
        group_target = some 1;
        text = some "hi";
        source = pos 1;
        ts = 0;
      }
      ∷ [];
  groups = group ∷ [];
  wa_persistence = none;
  wa_msgids = "m1" ∷ [];
  next_recipient = 2;
  next_message = 2;
  next_group = 2;
  faults = false ∷ true ∷ [];
}
