-- ===== src/Sender/Keeps.antt =====
-- src/sender_common.rs: what the methods of an implementation keep, sending a message keeps.
use sms_irc.Base.{
  ℕ, String, not, List, Option, none, some, Result, ok, err, panic, M, pure, ltb, nat_eq, len,
  length, pos, lines, if_intro, Keeps, bind-Keeps, seq-Keeps, for_each-Keeps,
}
use sms_irc.Extern.{Libs, DeliverPdu, DecodedMessage, ConcatenatedSmsData}
use sms_irc.Models.{Message}
use sms_irc.Store.{Store, get_group_by_id, delete_message, get_all_concatenated}
use sms_irc.Sender.{
  Sender, Clock, fragments, on_store, lift, destination, send_fragment, send_raw_message, with_text,
  process_msg_plain, plain_output, delete_rows, text_of_rows, decode_rows, process_concatenated,
  process_decoded, process_msg_pdu,
}

pub record SenderKeeps {ℓ} {S : Type 0} (P : S → Type ℓ) (i : Sender S) : Type ℓ where
  pub error : (uid text : String) → Keeps P (i.report_error uid text)
  pub stored : (st : Store) (s : S) → P s → P (i.with_store st s)
  pub target : Keeps P i.private_target
  pub said : (uid to text : String) → Keeps P (i.send_irc_message uid to text)
  pub joined : (ch : String) → Keeps P (i.ensure_joined ch)

module _ {ℓ} {S : Type 0} (P : S → Type ℓ) (l : Libs) (c : Clock) (i : Sender S)
    (k : SenderKeeps P i) where
  on_store-Keeps : {A : Type 0} (f : M Store A) → Keeps P (on_store l c i f)
  on_store-Keeps f s p = k.stored (f (i.store s)).1 s p

  destination-Keeps : (g : Option ℕ) → Keeps P (destination l c i g)
  destination-Keeps none s p = k.target s p
  destination-Keeps (some g) s p =
      bind-Keeps P (on_store l c i (get_group_by_id g)) _ (on_store-Keeps (get_group_by_id g))
        (λ grp.
          seq-Keeps P (i.ensure_joined grp.channel) (pure grp.channel) (k.joined grp.channel)
            (λ t q. q))
        s p

  send_fragment-Keeps :
      (from_nick dest chunk : String) → Keeps P (send_fragment l c i from_nick dest chunk)
  send_fragment-Keeps from_nick dest chunk =
      if_intro (Keeps P) (ltb 0 (len chunk)) _ _ (λ t. k.said from_nick dest chunk) (λ f s p. p)

  pub send_raw_message-Keeps :
      (from_nick msg : String) (g : Option ℕ) → Keeps P (send_raw_message l c i from_nick msg g)
  unfolding send_raw_message
  send_raw_message-Keeps from_nick msg g =
      bind-Keeps P (destination l c i g) _ (destination-Keeps g) λ dest.
        for_each-Keeps P _
          (λ line.
            for_each-Keeps P _ (λ chunk. send_fragment-Keeps from_nick dest chunk) (fragments line))
          (lines msg)

  with_text-Keeps : (text : Option String) → Keeps P (with_text l c i text)
  with_text-Keeps none s p = p
  with_text-Keeps (some text) s p = p

  pub process_msg_plain-Keeps :
      (nick : String) (msg : Message) → Keeps P (process_msg_plain l c i nick msg)
  unfolding process_msg_plain
  process_msg_plain-Keeps nick msg =
      bind-Keeps P (with_text l c i msg.text) _ (with_text-Keeps msg.text) λ text.
        seq-Keeps P (send_raw_message l c i nick (plain_output c msg.ts text) msg.group_target) _
          (send_raw_message-Keeps nick (plain_output c msg.ts text) msg.group_target)
          (on_store-Keeps (delete_message msg.id))

  delete_rows-Keeps : (msgs : List Message) → Keeps P (delete_rows l c i msgs)
  delete_rows-Keeps msgs = for_each-Keeps P _ (λ m. on_store-Keeps (delete_message m.id)) msgs

  lift-Keeps : {A : Type 0} (r : Result A) → Keeps P (lift {S = S} r)
  lift-Keeps r s p = p

  process_concatenated-Keeps :
      (nick : String) (msg : Message) (cd : ConcatenatedSmsData)
      → Keeps P (process_concatenated l c i nick msg cd)
  unfolding process_concatenated
  process_concatenated-Keeps nick msg cd =
      bind-Keeps P (on_store l c i (get_all_concatenated msg.phone_number (pos cd.reference))) _
        (on_store-Keeps (get_all_concatenated msg.phone_number (pos cd.reference)))
        λ msgs.
          if_intro (Keeps P) (not (nat_eq (length msgs) cd.parts)) _ _ (λ t s p. p)
            λ f.
              bind-Keeps P (lift (text_of_rows (decode_rows l msgs))) _
                (lift-Keeps (text_of_rows (decode_rows l msgs)))
                λ text.
                  seq-Keeps P (send_raw_message l c i nick text msg.group_target) _
                    (send_raw_message-Keeps nick text msg.group_target) (delete_rows-Keeps msgs)

  process_found-Keeps :
      (nick : String) (msg : Message) (m : DecodedMessage) (cd : Option ConcatenatedSmsData)
      → Keeps P (process_decoded l c i nick msg (ok (record m { concatenated = cd })))
  process_found-Keeps nick msg m (some cd) = process_concatenated-Keeps nick msg cd
  process_found-Keeps nick msg m none =
      seq-Keeps P (send_raw_message l c i nick m.text msg.group_target) _
        (send_raw_message-Keeps nick m.text msg.group_target)
        (on_store-Keeps (delete_message msg.id))

  process_decoded-Keeps :
      (nick : String) (msg : Message) (r : Result DecodedMessage)
      → Keeps P (process_decoded l c i nick msg r)
  process_decoded-Keeps nick msg panic s p = p
  process_decoded-Keeps nick msg (err e) s p = k.error nick _ s p
  process_decoded-Keeps nick msg (ok m) s p = process_found-Keeps nick msg m m.concatenated s p

  pub process_msg_pdu-Keeps :
      (nick : String) (msg : Message) (pdu : DeliverPdu)
      → Keeps P (process_msg_pdu l c i nick msg pdu)
  unfolding process_msg_pdu
  process_msg_pdu-Keeps nick msg pdu = process_decoded-Keeps nick msg (l.decode_message pdu)
