-- ===== src/Factory/Poll/Keeps.antt =====
-- src/contact_factory.rs: what the handlers of the factory leave true of its contacts.
use sms_irc.Base.{
  ◌≡◌, ◌++◌, ℕ_Eq, refl, ap, ◌∙◌, String, Bool, true, false, ◌&&◌, List, [], ◌∷◌, map, Option, none,
  some, Result, done, arith, if_intro, is_some, lookup, lookup-insert, lookup-erase, lookup-adjust,
  adjust, map_value, Keeps, bind-Keeps, seq-Keeps, for_each-Keeps, contains, ◌==◌, if◌then◌else◌,
}
use sms_irc.Extern.{Libs, PduAddress, PduAddress_Eq}
use sms_irc.Models
use sms_irc.Models.{Recipient, message_addr}
use sms_irc.Comm.{ContactManagerCommand, ContactFactoryCommand}
use sms_irc.Sender.{lift}
use sms_irc.Contacts.{request_contact, setup_recipient, setup_contact}
use sms_irc.Contacts.Keeps.{
  HolderKeeps, setup_recipient-Keeps, request_contact-Keeps, query_contact-Keeps,
  setup_contact-Keeps, drop_contact-Keeps, subscribe_presence_by_nick-Keeps,
  drop_contact_by_nick-Keeps, forward_cmd_by_nick-Keeps,
}
use sms_irc.Store.{get_all_messages, get_all_recipients}
use sms_irc.Factory.Poll.{drain}
use sms_irc.Contact.{ContactManager, add_command}
use sms_irc.Factory.{
  ContactFactory, holder, tell, update_away, forward_cmd, is_starting, is_contact,
  setup_contact_for, remove_contact_for, has_contact, process_groups, process_for, process_message,
  process_messages, load_recipients, process_failures, handle, on_store,
}

-- An address whose contact is starting has none yet.
abbrev pub IsSingle : ContactFactory → Type 0
IsSingle s = (a : PduAddress) → (is_starting a s && is_contact a s) ≡ false

pub is_some-adjust :
    {V : Type 0} (a b : PduAddress) (f : V → V) (d : List (PduAddress × V))
    → is_some (lookup b (adjust a f d)) ≡ is_some (lookup b d)
is_some-adjust a b f d = ap is_some (lookup-adjust a b f d) ∙ same (a == b) (lookup b d)
  where
    same : (t : Bool) (o : Option _) → is_some (if t then map_value f o else o) ≡ is_some o
    same true none = refl
    same true (some v) = refl
    same false o = refl

is_some-map :
    (f : ContactManager → ContactManager) (b : PduAddress) (d : List (PduAddress × ContactManager))
    → is_some (lookup b (map (λ e. (e.0, f e.1)) d)) ≡ is_some (lookup b d)
is_some-map f b [] = refl
is_some-map f b (e ∷ d) = ground (arith, is_some-map f b d)

tell-IsSingle :
    (a : PduAddress) (c : ContactManagerCommand) (s : ContactFactory)
    → IsSingle s
    → IsSingle (tell a c s)
unfolding tell
tell-IsSingle a c s p b = ground (arith, is_some-adjust a b (add_command c) s.contacts, p b)

update_away-IsSingle :
    (a : PduAddress) (away : Option String) (s : ContactFactory)
    → IsSingle s
    → IsSingle (update_away a away s)
unfolding update_away
update_away-IsSingle a away s p = tell-IsSingle a (ContactManagerCommand.update_away away) s p

forward_cmd-Keeps : (a : PduAddress) (c : ContactManagerCommand) → Keeps IsSingle (forward_cmd a c)
unfolding forward_cmd
forward_cmd-Keeps a (ContactManagerCommand.update_away away) s p = update_away-IsSingle a away s p
forward_cmd-Keeps a ContactManagerCommand.process_messages s p = tell-IsSingle a _ s p
forward_cmd-Keeps a ContactManagerCommand.process_groups s p = tell-IsSingle a _ s p
forward_cmd-Keeps a (ContactManagerCommand.change_nick nick src) s p = tell-IsSingle a _ s p
forward_cmd-Keeps a (ContactManagerCommand.set_whatsapp wam) s p = tell-IsSingle a _ s p

setup_contact_for-IsSingle :
    (r : Recipient) (a : PduAddress) (s : ContactFactory)
    → has_contact a s ≡ false
    → IsSingle s
    → IsSingle (setup_contact_for r a s).1
unfolding setup_contact_for has_contact
setup_contact_for-IsSingle r a s h p b =
    ground (arith, lookup-insert a b r s.contacts_starting, PduAddress_Eq.decides a b, h, p b)

pub remove_contact_for-IsSingle : (a : PduAddress) → Keeps IsSingle (remove_contact_for a)
unfolding remove_contact_for
remove_contact_for-IsSingle a s p b = ground (arith, lookup-erase a b s.contacts, p b)

pub holder_keeps : HolderKeeps IsSingle holder
holder_keeps = record {
  wa = λ c s p. p;
  m = λ c s p. p;
  cb = λ c s p. p;
  setup = setup_contact_for-IsSingle;
  remove = remove_contact_for-IsSingle;
  stored = λ st s p. p;
  forward = forward_cmd-Keeps;
}

process_groups-IsSingle : (s : ContactFactory) → IsSingle s → IsSingle (process_groups s)
unfolding process_groups
process_groups-IsSingle s p b =
    ground (arith, is_some-map (add_command ContactManagerCommand.process_groups) b s.contacts, p b)

module _ (l : Libs) where
  process_for-Keeps : (msg : Models.Message) (a : PduAddress) → Keeps IsSingle (process_for l msg a)
  process_for-Keeps msg a s p =
      if_intro (λ (r : Result (Unit {0}) × ContactFactory). IsSingle r.1) (is_starting a s) _ _
        (λ t. p)
        (λ f.
          if_intro (λ (r : Result (Unit {0}) × ContactFactory). IsSingle r.1) (is_contact a s) _ _
            (λ t. tell-IsSingle a ContactManagerCommand.process_messages s p)
            (λ g.
              seq-Keeps IsSingle (request_contact l holder a msg.source) done
                (request_contact-Keeps IsSingle l holder holder_keeps a msg.source) (λ st q. q) s
                p))

  process_message-Keeps : (msg : Models.Message) → Keeps IsSingle (process_message l msg)
  unfolding process_message
  process_message-Keeps msg s p =
      if_intro (λ (r : Result (Unit {0}) × ContactFactory). IsSingle r.1)
        (contains s.messages_processed msg.id) _ _ (λ t. p)
        (λ f.
          bind-Keeps IsSingle (lift (message_addr l msg)) (process_for l msg) (λ st q. q)
            (process_for-Keeps msg)
            (record s { messages_processed = s.messages_processed ++ msg.id ∷ [] }) p)

  process_messages-Keeps : Keeps IsSingle (process_messages l)
  unfolding process_messages
  process_messages-Keeps =
      bind-Keeps IsSingle (on_store get_all_messages) _ (λ s p. p)
        (for_each-Keeps IsSingle (process_message l) process_message-Keeps)

  load_recipients-Keeps : Keeps IsSingle (load_recipients l)
  unfolding load_recipients
  load_recipients-Keeps =
      bind-Keeps IsSingle (on_store get_all_recipients) _ (λ s p. p)
        (for_each-Keeps IsSingle (setup_recipient l holder)
          (setup_recipient-Keeps IsSingle l holder holder_keeps))

  pub process_failures-Keeps : Keeps IsSingle (process_failures l)
  unfolding process_failures
  process_failures-Keeps s p =
      for_each-Keeps IsSingle (setup_contact l holder)
        (setup_contact-Keeps IsSingle l holder holder_keeps) s.failed_contacts
        (record s { failed_contacts = [] }) p

  handle-Keeps : (c : ContactFactoryCommand) → Keeps IsSingle (handle l c)
  unfolding handle
  handle-Keeps ContactFactoryCommand.process_messages s p = process_messages-Keeps s p
  handle-Keeps ContactFactoryCommand.process_groups s p = process_groups-IsSingle s p
  handle-Keeps ContactFactoryCommand.process_avatars s p = p
  handle-Keeps ContactFactoryCommand.load_recipients s p = load_recipients-Keeps s p
  handle-Keeps (ContactFactoryCommand.setup_contact a) s p =
      setup_contact-Keeps IsSingle l holder holder_keeps a s p
  handle-Keeps (ContactFactoryCommand.query_contact a src) s p =
      query_contact-Keeps IsSingle l holder holder_keeps a src s p
  handle-Keeps (ContactFactoryCommand.drop_contact a) s p =
      drop_contact-Keeps IsSingle l holder holder_keeps a s p
  handle-Keeps (ContactFactoryCommand.drop_contact_by_nick nick) s p =
      drop_contact_by_nick-Keeps IsSingle l holder holder_keeps nick s p
  handle-Keeps (ContactFactoryCommand.forward_command a cmd) s p = forward_cmd-Keeps a cmd s p
  handle-Keeps (ContactFactoryCommand.forward_command_by_nick nick cmd) s p =
      forward_cmd_by_nick-Keeps IsSingle l holder holder_keeps nick cmd s p
  handle-Keeps (ContactFactoryCommand.subscribe_presence_by_nick nick) s p =
      subscribe_presence_by_nick-Keeps IsSingle l holder holder_keeps nick s p

  pub drain-Keeps : (cs : List ContactFactoryCommand) → Keeps IsSingle (drain l cs)
  unfolding drain
  drain-Keeps [] s p = p
  drain-Keeps (c ∷ cs) s p =
      seq-Keeps IsSingle (handle l c) (drain l cs) (handle-Keeps c) (drain-Keeps cs)
        (record s { rx = cs }) p
