-- ===== src/Insp/Keeps/Commands.antt =====
-- src/insp_s2s.rs: the messages and the commands, as the same writes.
use sms_irc.Base.{
  ℕ, String, Bool, true, false, not, List, [], ◌∷◌, ◌++◌, Option, none, some, Result, ok, err,
  panic, pure, for_each, lines, if_intro, String_Eq, is_some, lookup, Keeps, bind-Keeps, seq-Keeps,
  for_each-Keeps,
}
use sms_irc.Extern.{PduAddress, PduAddress_Eq}
use sms_irc.Admin
use sms_irc.Admin.{InspCommand}
use sms_irc.Models
use sms_irc.Models.{message_addr}
use sms_irc.Comm.{ContactFactoryCommand, ControlBotCommand}
use sms_irc.Store.{get_all_messages}
use sms_irc.Sender.{lift, process_msg_pdu, process_msg_plain}
use sms_irc.Sender.Keeps.{SenderKeeps, process_msg_pdu-Keeps, process_msg_plain-Keeps}
use sms_irc.Contacts.Keeps.{
  request_contact-Keeps, query_contact-Keeps, setup_contact-Keeps, drop_contact-Keeps,
  drop_contact_by_nick-Keeps, forward_cmd_by_nick-Keeps, subscribe_presence_by_nick-Keeps,
}
use sms_irc.Insp.{InspLink, InspContact, Env, send, on_store}
use sms_irc.Insp.Users.{admin_uuid, contact_message}
use sms_irc.Insp.Holder.{holder, set_wa_state}
use sms_irc.Insp.Messages.{
  join_admin, ensure_joined, sender, follow, process_by, process_known, find_contact, process_found,
  process_message, process_for, process_messages,
}
use sms_irc.Insp.Commands.{
  respond, nick_line, control_response, send_raw, process_insp, handle_cf_command, report_to,
  handle_cb_command,
}
use sms_irc.Insp.Keeps.{
  KeepsQuiet, push-Keeps, on_store-Keeps, lift-Keeps, send_sid_line-Keeps, contact_message-Keeps,
  process_groups-Keeps,
}
use sms_irc.Insp.Keeps.Contacts.{set_wa_state-Keeps, holder-Keeps, forward_cmd-Keeps}
use sms_irc.Insp.Keeps.Writes.{KeepsContacts}

module _ {ℓ} {Message : Type 0} (P : InspLink Message → Type ℓ) (q : KeepsQuiet P)
    (e : Env Message) where
  respond-Keeps : (msg : String) (admu : Option String) → Keeps P (respond e msg admu)
  respond-Keeps msg none s p = p
  respond-Keeps msg (some admu) s p = push-Keeps P q _ s p

  pub control_response-Keeps : (msg : String) → Keeps P (control_response e msg)
  unfolding control_response
  control_response-Keeps msg s = respond-Keeps msg (admin_uuid s) s

  report_to-Keeps : (text : String) (admu : Option String) → Keeps P (report_to e text admu)
  report_to-Keeps text none s p = p
  report_to-Keeps text (some admu) s p = push-Keeps P q _ s p

  pub handle_cb_command-Keeps : (c : ControlBotCommand) → Keeps P (handle_cb_command e c)
  unfolding handle_cb_command
  handle_cb_command-Keeps (ControlBotCommand.log line) s p = push-Keeps P q _ s p
  handle_cb_command-Keeps (ControlBotCommand.report_failure x) s p =
      report_to-Keeps x (admin_uuid s) s p
  handle_cb_command-Keeps (ControlBotCommand.command_response x) s p = control_response-Keeps x s p
  handle_cb_command-Keeps ControlBotCommand.process_groups s p = process_groups-Keeps P q e s p

  send_raw-Keeps : (r : Result Message) → Keeps P (send_raw e r)
  unfolding send
  send_raw-Keeps (ok m) s p = q.outbox (s.outbox ++ m ∷ []) s p
  send_raw-Keeps (err x) s p = control_response-Keeps _ s p
  send_raw-Keeps panic s p = p

  pub process_insp-Keeps : (c : InspCommand) → Keeps P (process_insp e c)
  unfolding process_insp
  process_insp-Keeps (Admin.raw msg) s p =
      seq-Keeps P (send_raw e (e.parse_message msg)) (pure true)
        (send_raw-Keeps (e.parse_message msg)) (λ t h. h) s p
  process_insp-Keeps (Admin.query_uuid uu) s p =
      seq-Keeps P (λ t. for_each (lines (e.debug_user (lookup uu t.users))) (control_response e) t)
        (pure true) (λ t. for_each-Keeps P (control_response e) control_response-Keeps _ t)
        (λ t h. h) s p
  process_insp-Keeps (Admin.query_nick_uuid nick) s p =
      seq-Keeps P (λ t. control_response e (nick_line e nick t) t) (pure true)
        (λ t. control_response-Keeps (nick_line e nick t) t) (λ t h. h) s p

module _ {ℓ} {Message : Type 0} (P : InspLink Message → Type ℓ) (k : KeepsContacts P)
    (e : Env Message) where
  open k use {quiet}

  join_admin-Keeps : (ch : String) (admu : Option String) → Keeps P (join_admin e ch admu)
  join_admin-Keeps ch none s p = p
  join_admin-Keeps ch (some admu) s p = send_sid_line-Keeps P quiet e _ _ _ s p

  ensure_joined-Keeps : (ch : String) → Keeps P (ensure_joined e ch)
  ensure_joined-Keeps ch s p =
      if_intro (λ (r : Result (Unit {0}) × InspLink Message). P r.1) (not s.cfg.ensure_joined) _ _
        (λ t. p) (λ f. join_admin-Keeps ch (admin_uuid s) s p)

  sender-Keeps : SenderKeeps P (sender e)
  sender-Keeps = record {
    error = λ uid text s. contact_message-Keeps P quiet e uid "NOTICE" s.cfg.admin_nick text s;
    stored = quiet.stored;
    target = λ s p. p;
    said = λ uid to text. contact_message-Keeps P quiet e uid "PRIVMSG" to text;
    joined = ensure_joined-Keeps;
  }

  follow-Keeps :
      (a : PduAddress) (uuid auid : String) (change wa : Bool) (notice : String)
      → Keeps P (follow e a uuid auid change wa notice)
  follow-Keeps a uuid auid change wa notice =
      if_intro (Keeps P) change _ _
        (λ t.
          seq-Keeps P (set_wa_state e a wa) (contact_message e uuid "NOTICE" auid notice)
            (set_wa_state-Keeps P k e a wa)
            (contact_message-Keeps P quiet e uuid "NOTICE" auid notice))
        (λ f s p. p)

  process_by-Keeps :
      (auid : String) (msg : Models.Message) (a : PduAddress) (ct : InspContact)
      (pdu : Option (List ℕ))
      → Keeps P (process_by e auid msg a ct pdu)
  process_by-Keeps auid msg a ct (some bytes) s p =
      bind-Keeps P (lift (e.libs.parse_pdu bytes)) _ (lift-Keeps P quiet (e.libs.parse_pdu bytes))
        (λ pdu.
          seq-Keeps P (follow e a ct.uuid auid ct.wa_mode false _)
            (process_msg_pdu e.libs e.clock (sender e) ct.uuid msg pdu)
            (follow-Keeps a ct.uuid auid ct.wa_mode false _)
            (process_msg_pdu-Keeps P e.libs e.clock (sender e) sender-Keeps ct.uuid msg pdu))
        s p
  process_by-Keeps auid msg a ct none s p =
      seq-Keeps P (follow e a ct.uuid auid (not ct.wa_mode) true _)
        (process_msg_plain e.libs e.clock (sender e) ct.uuid msg)
        (follow-Keeps a ct.uuid auid (not ct.wa_mode) true _)
        (process_msg_plain-Keeps P e.libs e.clock (sender e) sender-Keeps ct.uuid msg) s p

  process_known-Keeps :
      (auid : String) (msg : Models.Message) (a : PduAddress) (ct : Option InspContact)
      → Keeps P (process_known e auid msg a ct)
  process_known-Keeps auid msg a none s p = p
  process_known-Keeps auid msg a (some ct) s p = process_by-Keeps auid msg a ct msg.pdu s p

  find_contact-Keeps : (a : PduAddress) (msg : Models.Message) → Keeps P (find_contact e a msg)
  find_contact-Keeps a msg s p =
      if_intro (λ (r : Result Bool × InspLink Message). P r.1) (is_some (lookup a s.contacts)) _ _
        (λ t. p)
        (λ f. request_contact-Keeps P e.libs (holder e) (holder-Keeps P k e) a msg.source s p)

  process_found-Keeps :
      (auid : String) (msg : Models.Message) (a : PduAddress) (known : Bool)
      → Keeps P (process_found e auid msg a known)
  process_found-Keeps auid msg a true s p = process_known-Keeps auid msg a (lookup a s.contacts) s p
  process_found-Keeps auid msg a false s p = p

  process_message-Keeps :
      (auid : String) (msg : Models.Message) → Keeps P (process_message e auid msg)
  unfolding process_message
  process_message-Keeps auid msg =
      bind-Keeps P (lift (message_addr e.libs msg)) _ (lift-Keeps P quiet (message_addr e.libs msg))
        λ a.
          bind-Keeps P (find_contact e a msg) (process_found e auid msg a)
            (find_contact-Keeps a msg) (process_found-Keeps auid msg a)

  process_for-Keeps : (auid : Option String) → Keeps P (process_for e auid)
  process_for-Keeps none s p = p
  process_for-Keeps (some auid) s p =
      bind-Keeps P (on_store get_all_messages) _ (on_store-Keeps P quiet get_all_messages)
        (λ msgs. for_each-Keeps P (process_message e auid) (process_message-Keeps auid) msgs) s p

  pub process_messages-Keeps : Keeps P (process_messages e)
  unfolding process_messages
  process_messages-Keeps s = process_for-Keeps (admin_uuid s) s

  pub handle_cf_command-Keeps : (c : ContactFactoryCommand) → Keeps P (handle_cf_command e c)
  unfolding handle_cf_command
  handle_cf_command-Keeps ContactFactoryCommand.process_messages = process_messages-Keeps
  handle_cf_command-Keeps ContactFactoryCommand.process_groups = process_groups-Keeps P quiet e
  handle_cf_command-Keeps ContactFactoryCommand.process_avatars = λ s p. p
  handle_cf_command-Keeps (ContactFactoryCommand.setup_contact a) =
      setup_contact-Keeps P e.libs (holder e) (holder-Keeps P k e) a
  handle_cf_command-Keeps (ContactFactoryCommand.drop_contact a) =
      drop_contact-Keeps P e.libs (holder e) (holder-Keeps P k e) a
  handle_cf_command-Keeps (ContactFactoryCommand.query_contact a src) =
      query_contact-Keeps P e.libs (holder e) (holder-Keeps P k e) a src
  handle_cf_command-Keeps (ContactFactoryCommand.drop_contact_by_nick nick) =
      drop_contact_by_nick-Keeps P e.libs (holder e) (holder-Keeps P k e) nick
  handle_cf_command-Keeps ContactFactoryCommand.load_recipients = λ s p. p
  handle_cf_command-Keeps (ContactFactoryCommand.forward_command a c) = forward_cmd-Keeps P k e a c
  handle_cf_command-Keeps (ContactFactoryCommand.forward_command_by_nick nick c) =
      forward_cmd_by_nick-Keeps P e.libs (holder e) (holder-Keeps P k e) nick c
  handle_cf_command-Keeps (ContactFactoryCommand.subscribe_presence_by_nick nick) =
      subscribe_presence_by_nick-Keeps P e.libs (holder e) (holder-Keeps P k e) nick
