-- ===== src/Sender.antt =====
-- src/sender_common.rs: decoding stored messages and sending their text over IRC, in fragments.
pub mod Fragments
pub mod Losses
pub mod Parts
pub mod Keeps
use Prim.Native.Char.{len_utf8}
use Prim.Native.String
use Prim.Native.String.{slice}
use text.Mathlib.Text.{starts_with}
use sms_irc.Base.{
  ℕ, suc, ◌+◌, ◌-◌, ◌/◌, ◌*◌, String, len, Bool, true, false, not, List, [], ◌∷◌, Option, none,
  some, Result, ok, err, panic, M, ◌>>=◌, ◌>>◌, pure, done, fail, panics, for_each, ltb, leb,
  nat_eq, if◌then◌else◌, ◌<>◌, lines, length, pos, ℤ,
}
use sms_irc.Extern.{Libs, DeliverPdu, DecodedMessage, ConcatenatedSmsData}
use sms_irc.Models.{Message, Group}
use sms_irc.Store.{Store, get_group_by_id, delete_message, get_all_concatenated}

abbrev pub message_max_len : ℕ
message_max_len = 350

-- The `filter_map` over `line.char_indices()`: `rest` begins at byte `i`, and `last` is the variable
-- that the closure captures.
unfoldable pub fragments_from : String → String → ℕ → ℕ → List String
fragments_from line String.[] i last = []
fragments_from line (String.◌∷◌ c rest) i last =
    let j = i + len_utf8 c in
    let cut = slice line last i ∷ fragments_from line rest j i in
    let tail = slice line last (len line) ∷ fragments_from line rest j (len line) in
    let skip = fragments_from line rest j last in
    if leb (last + message_max_len) i
    then cut
    else if leb (len line) (last + message_max_len)
    then tail
    else skip

unfoldable pub fragments : String → List String
fragments line = fragments_from line line 0 0

-- The methods that an implementation of the trait gives; `store` and `with_store` stand for the
-- `&mut Store` that it lends.
pub record Sender (S : Type 0) : Type 0 where
  pub report_error : String → String → M S (Unit {0})
  pub store : S → Store
  pub with_store : Store → S → S
  pub private_target : M S String
  pub send_irc_message : String → String → String → M S (Unit {0})
  pub ensure_joined : String → M S (Unit {0})

-- The time now and the local time zone, from chrono.
pub record Clock : Type 0 where
  pub now : ℕ
  pub local_date : ℕ → String
  pub local_time : ℕ → String

abbrev pub second : ℕ
second = 1000000

abbrev pub day : ℕ → ℕ
day ts = ts / (86400 * second)

-- The part of the text in front of the time, and what follows it.
abbrev pub action_prefix : String
action_prefix = "\u{1}ACTION "

unfoldable pub plain_output : Clock → ℕ → String → String
plain_output k ts text =
    let action = starts_with text action_prefix in
    let prefix = if action then action_prefix else "" in
    let rest = if action then slice text 8 (len text) else text in
    let date = if nat_eq (day k.now) (day ts) then "" else k.local_date ts <> " " in
    let stamp =
      if ltb 5 ((k.now - ts) / second)
      then "\u{3}15\u{2}[\u{2}" <> date <> k.local_time ts <> "\u{2}]\u{2}\u{f} "
      else "" in
    prefix <> stamp <> rest

-- `decode_message()?` of a row that get_all_concatenated found; a row with no PDU panics.
abbrev pub decode_pdu : Libs → Result DeliverPdu → Result DecodedMessage
decode_pdu l (ok pdu) = l.decode_message pdu
decode_pdu l (err e) = err e
decode_pdu l panic = panic

abbrev pub decode_row : Libs → Option (List ℕ) → Result DecodedMessage
decode_row l none = panic
decode_row l (some bytes) = decode_pdu l (l.parse_pdu bytes)

abbrev pub cons_ok {ℓ} : {A : Type ℓ} → Result A → Result (List A) → Result (List A)
cons_ok (ok a) (ok as') = ok (a ∷ as')
cons_ok (ok a) (err e) = err e
cons_ok (ok a) panic = panic
cons_ok (err e) r = err e
cons_ok panic r = panic

unfoldable pub decode_rows : Libs → List Message → Result (List DecodedMessage)
decode_rows l [] = ok []
decode_rows l (m ∷ ms) = cons_ok (decode_row l m.pdu) (decode_rows l ms)

-- The key of `sort_by_key`, with its two `unwrap`s.
abbrev pub part_of : DecodedMessage → Option ConcatenatedSmsData → Result (ℕ × String)
part_of p none = panic
part_of p (some cd) = ok (cd.sequence, p.text)

abbrev pub keyed : List DecodedMessage → Result (List (ℕ × String))
keyed [] = ok []
keyed (p ∷ ps) = cons_ok (part_of p p.concatenated) (keyed ps)

unfoldable pub insert_part : ℕ × String → List (ℕ × String) → List (ℕ × String)
insert_part p [] = p ∷ []
insert_part p (q ∷ qs) = if leb p.0 q.0 then p ∷ q ∷ qs else q ∷ insert_part p qs

-- A stable sort by sequence number.
unfoldable pub sort_parts : List (ℕ × String) → List (ℕ × String)
sort_parts [] = []
sort_parts (p ∷ ps) = insert_part p (sort_parts ps)

unfoldable pub concat_texts : List (ℕ × String) → String
concat_texts [] = ""
concat_texts ((n, t) ∷ ps) = t <> concat_texts ps

abbrev pub text_of_keyed : Result (List (ℕ × String)) → Result String
text_of_keyed (ok ps) = ok (concat_texts (sort_parts ps))
text_of_keyed (err e) = err e
text_of_keyed panic = panic

-- A single element is not compared, so its key is not computed.
abbrev pub text_of_parts : List DecodedMessage → Result String
text_of_parts [] = ok ""
text_of_parts (p ∷ []) = ok p.text
text_of_parts (p ∷ q ∷ ps) = text_of_keyed (keyed (p ∷ q ∷ ps))

abbrev pub text_of_rows : Result (List DecodedMessage) → Result String
text_of_rows (ok ps) = text_of_parts ps
text_of_rows (err e) = err e
text_of_rows panic = panic

-- `?` on a result that touches no state.
abbrev pub lift : {S : Type 0} {A : Type 0} → Result A → M S A
lift r s = (r, s)

module _ {S : Type 0} (l : Libs) (k : Clock) (i : Sender S) where
  open i use {report_error, store, with_store, private_target, send_irc_message, ensure_joined}

  -- `self.store().f(…)?`
  abbrev pub on_store : {A : Type 0} → M Store A → M S A
  on_store m s = let (r, st) = m (store s) in (r, with_store st s)

  abbrev pub destination : Option ℕ → M S String
  destination none = private_target
  destination (some g) = do
    grp ← on_store (get_group_by_id g)
    ensure_joined grp.channel
    pure grp.channel

  abbrev pub send_fragment : String → String → String → M S (Unit {0})
  send_fragment from_nick dest chunk =
      if ltb 0 (len chunk) then send_irc_message from_nick dest chunk else done

  unfoldable pub send_raw_message : String → String → Option ℕ → M S (Unit {0})
  send_raw_message from_nick msg group_target = do
    dest ← destination group_target
    for_each (lines msg) λ line. for_each (fragments line) (send_fragment from_nick dest)

  abbrev pub with_text : Option String → M S String
  with_text none = panics
  with_text (some text) = pure text

  unfoldable pub process_msg_plain : String → Message → M S (Unit {0})
  process_msg_plain nick msg = do
    text ← with_text msg.text
    send_raw_message nick (plain_output k msg.ts text) msg.group_target
    on_store (delete_message msg.id)

  abbrev pub delete_rows : List Message → M S (Unit {0})
  delete_rows msgs = for_each msgs (λ m. on_store (delete_message m.id))

  unfoldable pub process_concatenated : String → Message → ConcatenatedSmsData → M S (Unit {0})
  process_concatenated nick msg cd = do
    msgs ← on_store (get_all_concatenated msg.phone_number (pos cd.reference))
    if not (nat_eq (length msgs) cd.parts) then done else (do
      text ← lift (text_of_rows (decode_rows l msgs))
      send_raw_message nick text msg.group_target
      delete_rows msgs)

  abbrev pub process_decoded : String → Message → Result DecodedMessage → M S (Unit {0})
  process_decoded nick msg panic = panics
  process_decoded nick msg (err e) = report_error nick ("indecipherable message: " <> e)
  process_decoded nick msg (ok m) = elim m.concatenated [
    | some cd ↦ process_concatenated nick msg cd
    | none ↦ do send_raw_message nick m.text msg.group_target; on_store (delete_message msg.id)
  ]

  unfoldable pub process_msg_pdu : String → Message → DeliverPdu → M S (Unit {0})
  process_msg_pdu nick msg pdu = process_decoded nick msg (l.decode_message pdu)
