-- ===== src/Util/Address.antt =====
-- src/util.rs: the normal form of an address, and reading it back.
use sms_irc.Base.{
  ℕ, ◌+◌, ◌*◌, ◌<◌, ◌≡◌, sym, ap, ◌∙◌, Bool, true, false, len, List, [], ◌∷◌, none, some, arith, ok,
  if◌then◌else◌, ◌<>◌, length, All,
}
use sms_irc.Extern.{PduAddress, Libs}
use sms_irc.Util.{hex_octet, normalize_address, un_normalize_address}

-- HexData prints two upper-case digits for each byte, and reads what it prints.
pub record HexLaws (l : Libs) : Type 0 where
  pub hex_cons :
      (b : ℕ) (bs : List ℕ) → b < 256 → l.hex_string (b ∷ bs) ≡ hex_octet b <> l.hex_string bs
  pub hex_len : (bs : List ℕ) → len (l.hex_string bs) ≡ 2 * length bs
  pub hex_read : (bs : List ℕ) → All (λ b. b < 256) bs → l.hex_decode (l.hex_string bs) ≡ some bs

-- An address that the library can make: its type is one that AddressType knows, and all is octets.
pub record IsAddress (l : Libs) (a : PduAddress) : Type 0 where
  pub octet : a.type_addr < 256
  pub known : l.address_type a.type_addr ≡ some a.type_addr
  pub bytes : All (λ b. b < 256) a.number

abbrev pub is_empty {ℓ} : {A : Type ℓ} → List A → Bool
is_empty [] = true
is_empty (x ∷ xs) = false

module _ (l : Libs) (laws : HexLaws l) where
  normalize_address-hex :
      (a : PduAddress)
      → a.type_addr < 256
      → normalize_address l a ≡ l.hex_string (a.type_addr ∷ a.number)
  unfolding normalize_address
  normalize_address-hex a h = sym (laws.hex_cons a.type_addr a.number h)

  len-normalize_address :
      (a : PduAddress) → a.type_addr < 256 → len (normalize_address l a) ≡ 2 * (1 + length a.number)
  len-normalize_address a h =
      ap len (normalize_address-hex a h) ∙ laws.hex_len (a.type_addr ∷ a.number) ∙ omega arith

  hex_decode-normalize_address :
      (a : PduAddress)
      → IsAddress l a
      → l.hex_decode (normalize_address l a) ≡ some (a.type_addr ∷ a.number)
  hex_decode-normalize_address a v =
      rw (normalize_address-hex a v.octet)
        (laws.hex_read (a.type_addr ∷ a.number) (v.octet, v.bytes))

  -- What `un_normalize_address` reads from the normal form of an address is that address, but for an
  -- address with no digits, whose normal form of two characters it refuses.
  pub un_normalize-normalize :
      (a : PduAddress)
      → IsAddress l a
      → un_normalize_address l (normalize_address l a)
        ≡ ok (if is_empty a.number then none else some a)
  unfolding un_normalize_address
  un_normalize-normalize a v =
      ground (arith, len-normalize_address a v.octet, hex_decode-normalize_address a v, v.known)
