-- ===== src/Factory.antt =====
-- src/contact_factory.rs: the factory that starts a contact for each recipient, keeps it going, and
-- forwards to it what the other parts ask.
pub mod Poll
use sms_irc.Base.{
  ℕ, String, Bool, true, false, ◌||◌, List, [], ◌∷◌, ◌++◌, map, Option, none, some, Result, ok, M,
  ◌>>=◌, ◌>>◌, done, modify, for_each, if◌then◌else◌, contains, ℕ_Eq, String_Eq, is_some, ◌==◌,
  lookup, insert, erase, adjust,
}
use sms_irc.Extern.{Libs, PduAddress, PduAddress_Eq}
use sms_irc.Models
use sms_irc.Models.{Recipient, message_addr}
use sms_irc.Comm.{
  WhatsappCommand, ModemCommand, ControlBotCommand, ContactManagerCommand, ContactFactoryCommand,
}
use sms_irc.Sender.{lift}
use sms_irc.Store.{Store, get_all_messages, get_all_recipients}
use sms_irc.Contacts
use sms_irc.Contacts.{
  ContactManagerManager, setup_recipient, setup_contact, query_contact, drop_contact,
  request_contact, drop_contact_by_nick, forward_cmd_by_nick, subscribe_presence_by_nick,
}
use sms_irc.Contact.{ContactManager, add_command}

-- `contacts_starting` has the recipient of each contact whose future has not ended. `rx` holds what is
-- queued, and `cb`, `wa` and `m` what was sent on the three channels, by the factory and its contacts.
pub record ContactFactory : Type 0 where
  pub rx : List ContactFactoryCommand
  pub cb : List ControlBotCommand
  pub wa : List WhatsappCommand
  pub m : List ModemCommand
  pub contacts_starting : List (PduAddress × Recipient)
  pub contacts : List (PduAddress × ContactManager)
  pub contacts_presence : List (PduAddress × Option String)
  pub failed_contacts : List PduAddress
  pub messages_processed : List ℕ
  pub store : Store

-- The factory tells itself to load the recipients.
unfoldable pub new : Store → ContactFactory
new store = record {
  rx = ContactFactoryCommand.load_recipients ∷ [];
  cb = [];
  wa = [];
  m = [];
  contacts_starting = [];
  contacts = [];
  contacts_presence = [];
  failed_contacts = [];
  messages_processed = [];
  store = store;
}

abbrev pub on_store : {A : Type 0} → M Store A → M ContactFactory A
on_store f s = let (r, st) = f s.store in (r, record s { store = st })

-- A command for a contact that is there.
unfoldable pub tell : PduAddress → ContactManagerCommand → ContactFactory → ContactFactory
tell a cmd s = record s { contacts = adjust a (add_command cmd) s.contacts }

unfoldable pub update_away : PduAddress → Option String → ContactFactory → ContactFactory
update_away a away s =
    let told = tell a (ContactManagerCommand.update_away away) s in
    record told { contacts_presence = insert a away told.contacts_presence }

abbrev pub resolve_in : List (PduAddress × ContactManager) → String → Option PduAddress
resolve_in [] nick = none
resolve_in ((a, c) ∷ cs) nick = if c.nick == nick then some a else resolve_in cs nick

unfoldable pub forward_cmd : PduAddress → ContactManagerCommand → M ContactFactory (Unit {0})
forward_cmd a (ContactManagerCommand.update_away away) = modify (update_away a away)
forward_cmd a ContactManagerCommand.process_messages =
    modify (tell a ContactManagerCommand.process_messages)
forward_cmd a ContactManagerCommand.process_groups =
    modify (tell a ContactManagerCommand.process_groups)
forward_cmd a (ContactManagerCommand.change_nick nick src) =
    modify (tell a (ContactManagerCommand.change_nick nick src))
forward_cmd a (ContactManagerCommand.set_whatsapp wam) =
    modify (tell a (ContactManagerCommand.set_whatsapp wam))

abbrev pub is_starting : PduAddress → ContactFactory → Bool
is_starting a s = is_some (lookup a s.contacts_starting)

abbrev pub is_contact : PduAddress → ContactFactory → Bool
is_contact a s = is_some (lookup a s.contacts)

unfoldable pub setup_contact_for : Recipient → PduAddress → M ContactFactory (Unit {0})
setup_contact_for recip a s =
    (ok tt, record s { contacts_starting = insert a recip s.contacts_starting })

unfoldable pub remove_contact_for : PduAddress → M ContactFactory (Unit {0})
remove_contact_for a s = (ok tt, record s { contacts = erase a s.contacts })

unfoldable pub has_contact : PduAddress → ContactFactory → Bool
has_contact a s = is_starting a s || is_contact a s

abbrev pub holder : ContactManagerManager ContactFactory
holder = record {
  wa_send = λ c s. (ok tt, record s { wa = s.wa ++ c ∷ [] });
  m_send = λ c s. (ok tt, record s { m = s.m ++ c ∷ [] });
  cb_send = λ c s. (ok tt, record s { cb = s.cb ++ c ∷ [] });
  setup_contact_for = setup_contact_for;
  remove_contact_for = remove_contact_for;
  has_contact = has_contact;
  store = λ s. s.store;
  with_store = λ st s. record s { store = st };
  forward_cmd = forward_cmd;
  resolve_nick = λ nick s. resolve_in s.contacts nick;
}

abbrev pub set_add : PduAddress → List PduAddress → List PduAddress
set_add a addrs = if contains addrs a then addrs else addrs ++ a ∷ []

unfoldable pub process_groups : ContactFactory → ContactFactory
process_groups s = record s {
  contacts = map (λ e. (e.0, add_command ContactManagerCommand.process_groups e.1)) s.contacts;
}

module _ (l : Libs) where
  abbrev pub process_for : Models.Message → PduAddress → M ContactFactory (Unit {0})
  process_for msg a s =
      if is_starting a s
      then (ok tt, s)
      else if is_contact a s
      then (ok tt, tell a ContactManagerCommand.process_messages s)
      else (request_contact l holder a msg.source >> done) s

  abbrev pub process_new : Models.Message → M ContactFactory (Unit {0})
  process_new msg = lift (message_addr l msg) >>= process_for msg

  unfoldable pub process_message : Models.Message → M ContactFactory (Unit {0})
  process_message msg s =
      if contains s.messages_processed msg.id
      then (ok tt, s)
      else process_new msg (record s { messages_processed = s.messages_processed ++ msg.id ∷ [] })

  unfoldable pub process_messages : M ContactFactory (Unit {0})
  process_messages = do msgs ← on_store get_all_messages; for_each msgs process_message

  unfoldable pub load_recipients : M ContactFactory (Unit {0})
  load_recipients = do
    recips ← on_store get_all_recipients
    for_each recips (setup_recipient l holder)

  abbrev pub setup_each : List PduAddress → M ContactFactory (Unit {0})
  setup_each addrs = for_each addrs (setup_contact l holder)

  unfoldable pub process_failures : M ContactFactory (Unit {0})
  process_failures s = setup_each s.failed_contacts (record s { failed_contacts = [] })

  unfoldable pub handle : ContactFactoryCommand → M ContactFactory (Unit {0})
  handle ContactFactoryCommand.process_messages = process_messages
  handle ContactFactoryCommand.process_groups = modify process_groups
  handle ContactFactoryCommand.process_avatars = done
  handle ContactFactoryCommand.load_recipients = load_recipients
  handle (ContactFactoryCommand.setup_contact a) = setup_contact l holder a
  handle (ContactFactoryCommand.query_contact a src) = query_contact l holder a src
  handle (ContactFactoryCommand.drop_contact a) = drop_contact l holder a
  handle (ContactFactoryCommand.drop_contact_by_nick nick) = drop_contact_by_nick l holder nick
  handle (ContactFactoryCommand.forward_command a cmd) = forward_cmd a cmd
  handle (ContactFactoryCommand.forward_command_by_nick nick cmd) =
      forward_cmd_by_nick l holder nick cmd
  handle (ContactFactoryCommand.subscribe_presence_by_nick nick) =
      subscribe_presence_by_nick l holder nick
