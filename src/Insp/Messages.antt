-- ===== src/Insp/Messages.antt =====
-- src/insp_s2s.rs: the stored messages, and how the link says them.
use sms_irc.Base.{
  ℕ, String, Bool, true, false, not, List, [], ◌∷◌, Option, none, some, ok, M, ◌>>=◌, ◌>>◌, done,
  panics, for_each, if◌then◌else◌, is_some, lookup,
}
use sms_irc.Extern.{PduAddress, PduAddress_Eq}
use sms_irc.Models
use sms_irc.Models.{message_addr}
use sms_irc.Contacts.{request_contact}
use sms_irc.Sender.{Sender, lift, process_msg_pdu, process_msg_plain}
use sms_irc.Store.{get_all_messages}
use sms_irc.Insp.{InspLink, InspContact, Env, on_store, send_sid_line}
use sms_irc.Insp.Users.{admin_uuid, contact_message}
use sms_irc.Insp.Holder.{holder, set_wa_state}

module _ {Message : Type 0} (e : Env Message) where
  abbrev pub join_admin : String → Option String → M (InspLink Message) (Unit {0})
  join_admin ch none = done
  join_admin ch (some admu) = send_sid_line e "SVSJOIN" (admu ∷ ch ∷ []) none

  abbrev pub ensure_joined : String → M (InspLink Message) (Unit {0})
  ensure_joined ch s =
      if not s.cfg.ensure_joined then (ok tt, s) else join_admin ch (admin_uuid s) s

  abbrev pub target_of : String → Option String → String
  target_of log_chan none = log_chan
  target_of log_chan (some admu) = admu

  abbrev pub sender : Sender (InspLink Message)
  sender = record {
    report_error = λ uid text s. contact_message e uid "NOTICE" s.cfg.admin_nick text s;
    store = λ s. s.store;
    with_store = λ st s. record s { store = st };
    private_target = λ s. (ok (target_of s.cfg.log_chan (admin_uuid s)), s);
    send_irc_message = λ uid to msg. contact_message e uid "PRIVMSG" to msg;
    ensure_joined = ensure_joined;
  }

  -- A message comes from WhatsApp or from the modem; the contact follows it.
  abbrev pub follow :
      PduAddress → String → String → Bool → Bool → String → M (InspLink Message) (Unit {0})
  follow a uuid auid change wa notice =
      if change then set_wa_state e a wa >> contact_message e uuid "NOTICE" auid notice else done

  abbrev pub process_by :
      String
      → Models.Message
      → PduAddress
      → InspContact
      → Option (List ℕ)
      → M (InspLink Message) (Unit {0})
  process_by auid msg a ct (some bytes) = do
    pdu ← lift (e.libs.parse_pdu bytes)
    follow a ct.uuid auid ct.wa_mode false "Notice: SMS mode automatically enabled."
    process_msg_pdu e.libs e.clock sender ct.uuid msg pdu
  process_by auid msg a ct none = do
    follow a ct.uuid auid (not ct.wa_mode) true "Notice: WhatsApp mode automatically enabled."
    process_msg_plain e.libs e.clock sender ct.uuid msg

  abbrev pub process_known :
      String → Models.Message → PduAddress → Option InspContact → M (InspLink Message) (Unit {0})
  process_known auid msg a none = panics
  process_known auid msg a (some ct) = process_by auid msg a ct msg.pdu

  -- Whether the contact is there, or has just been set up.
  abbrev pub find_contact : PduAddress → Models.Message → M (InspLink Message) Bool
  find_contact a msg s =
      if is_some (lookup a s.contacts)
      then (ok true, s)
      else request_contact e.libs (holder e) a msg.source s

  abbrev pub process_found :
      String → Models.Message → PduAddress → Bool → M (InspLink Message) (Unit {0})
  process_found auid msg a false s = (ok tt, s)
  process_found auid msg a true s = process_known auid msg a (lookup a s.contacts) s

  unfoldable pub process_message : String → Models.Message → M (InspLink Message) (Unit {0})
  process_message auid msg = do
    a ← lift (message_addr e.libs msg)
    known ← find_contact a msg
    process_found auid msg a known

  abbrev pub process_for : Option String → M (InspLink Message) (Unit {0})
  process_for none = done
  process_for (some auid) = do
    msgs ← on_store get_all_messages
    for_each msgs (process_message auid)

  unfoldable pub process_messages : M (InspLink Message) (Unit {0})
  process_messages s = process_for (admin_uuid s) s
