-- ===== src/Insp/Holder.antt =====
-- src/insp_s2s.rs: the link as a holder of contacts.
use sms_irc.Base.{
  String, Bool, true, false, List, [], ◌∷◌, ◌++◌, Option, none, some, ℤ, ok, panic, M, ◌>>=◌, ◌>>◌,
  pure, done, panics, modify, if◌then◌else◌, ◌==◌, String_Eq, is_some, lookup, insert, erase,
  adjust, show_i64,
}
use sms_irc.Extern.{PduAddress, PduAddress_Eq}
use sms_irc.Models.{Recipient, nicksrc_collision}
use sms_irc.Comm.{ContactManagerCommand}
use sms_irc.Contacts.{ContactManagerManager, setup_contact}
use sms_irc.Store.{update_recipient_nick, update_recipient_wa}
use sms_irc.InspUser.{InspUser, new_from_recipient}
use sms_irc.Insp.{InspLink, InspContact, Env, push, on_store, is_linked}
use sms_irc.Insp.Users.{host_for_wa, check_nick_for_collisions, new_user}
use sms_irc.Insp.Groups.{process_groups_for_recipient}

-- The first user with the nick that is a contact.
unfoldable pub resolve_in :
    String → List (String × PduAddress) → List (String × InspUser) → Option PduAddress
resolve_in nick ids [] = none
resolve_in nick ids ((uuid, user) ∷ users) =
    let rest = resolve_in nick ids users in
    if user.nick == nick then elim (lookup uuid ids) [ some a ↦ some a | none ↦ rest ] else rest

-- `retain(|_, v| v != addr)`
unfoldable pub drop_address : PduAddress → List (String × PduAddress) → List (String × PduAddress)
drop_address a [] = []
drop_address a ((uuid, b) ∷ ids) =
    let rest = drop_address a ids in if b == a then rest else (uuid, b) ∷ rest

abbrev pub set_nick : String → InspUser → InspUser
set_nick nick u = record u { nick = nick }

abbrev pub set_host : String → InspUser → InspUser
set_host host u = record u { displayed_hostname = host }

abbrev pub set_mode_wa : Bool → InspContact → InspContact
set_mode_wa wa ct = record ct { wa_mode = wa }

abbrev pub new_contact : String → Bool → InspContact
new_contact uuid wa = record { uuid = uuid; channels = []; wa_mode = wa }

abbrev pub without_contact :
    Option PduAddress → List (PduAddress × InspContact) → List (PduAddress × InspContact)
without_contact none contacts = contacts
without_contact (some a) contacts = erase a contacts

-- The state without a user, and without the contact that it was.
abbrev pub drop_user :
    {Message : Type 0} → String → Option PduAddress → InspLink Message → InspLink Message
drop_user uuid addr s = record s {
  contacts = without_contact addr s.contacts;
  contacts_uuid_pdua = erase uuid s.contacts_uuid_pdua;
  users = erase uuid s.users;
}

module _ {Message : Type 0} (e : Env Message) where
  abbrev pub mark_wa : PduAddress → Bool → M (InspLink Message) (Unit {0})
  mark_wa a wa s = (ok tt, record s { contacts = adjust a (set_mode_wa wa) s.contacts })

  abbrev pub change_host : String → String → M (InspLink Message) (Unit {0})
  change_host uid host = do
    push (e.new_message (some uid) "FHOST" (host ∷ []) none)
    modify λ s. record s { users = adjust uid (set_host host) s.users }

  abbrev pub wa_state_of : PduAddress → Bool → Option InspContact → M (InspLink Message) (Unit {0})
  wa_state_of a wa none = panics
  wa_state_of a wa (some ct) = do
    mark_wa a wa
    on_store (update_recipient_wa e.libs a wa)
    λ s. change_host ct.uuid (host_for_wa wa s) s

  unfoldable pub set_wa_state : PduAddress → Bool → M (InspLink Message) (Unit {0})
  set_wa_state a wa s = wa_state_of a wa (lookup a s.contacts) s

  -- The nick that the contact takes, written to the database where it is another.
  abbrev pub settle_nick : PduAddress → String → Option String → M (InspLink Message) String
  settle_nick a nick none = pure nick
  settle_nick a nick (some n) = do
    on_store (update_recipient_nick e.libs a n nicksrc_collision)
    pure n

  abbrev pub add_contact : PduAddress → String → Bool → M (InspLink Message) (Unit {0})
  add_contact a uuid wa = modify λ s. record s {
    contacts = insert a (new_contact uuid wa) s.contacts;
    contacts_uuid_pdua = insert uuid a s.contacts_uuid_pdua;
  }

  abbrev pub join_if_linked : PduAddress → M (InspLink Message) (Unit {0})
  join_if_linked a s = if is_linked s.state then process_groups_for_recipient e a s else (ok tt, s)

  abbrev pub setup_with :
      Recipient → PduAddress → String → Option String → M (InspLink Message) (Unit {0})
  setup_with recip a host free = do
    nick ← settle_nick a recip.nick free
    uuid ← new_user e (new_from_recipient e.libs e.timestamp a nick host)
    add_contact a uuid recip.whatsapp
    join_if_linked a

  unfoldable pub setup_contact_for : Recipient → PduAddress → M (InspLink Message) (Unit {0})
  setup_contact_for recip a s =
      setup_with recip a (host_for_wa recip.whatsapp s) (check_nick_for_collisions recip.nick s) s

  -- `setup` is `setup_contact`, which is only called with `recreate`.
  abbrev pub recreate_by :
      (PduAddress → M (InspLink Message) (Unit {0}))
      → Bool
      → Option PduAddress
      → M (InspLink Message) (Unit {0})
  recreate_by setup true (some a) = setup a
  recreate_by setup true none = done
  recreate_by setup false addr = done

  abbrev pub remove_user_by :
      (PduAddress → M (InspLink Message) (Unit {0}))
      → String
      → Bool
      → M (InspLink Message) (Unit {0})
  remove_user_by setup uuid recreate s =
      let addr = lookup uuid s.contacts_uuid_pdua in
      recreate_by setup recreate addr (drop_user uuid addr s)

  abbrev pub quit_user : Option InspContact → M (InspLink Message) (Unit {0})
  quit_user none = done
  quit_user (some ct) = do
    push (e.new_message (some ct.uuid) "QUIT" [] (some "Contact removed"))
    remove_user_by (λ a. done) ct.uuid false

  unfoldable pub remove_contact_for : PduAddress → M (InspLink Message) (Unit {0})
  remove_contact_for a = do
    λ s. quit_user (lookup a s.contacts) s
    modify λ s. record s {
      contacts = erase a s.contacts;
      contacts_uuid_pdua = drop_address a s.contacts_uuid_pdua;
    }

  abbrev pub write_nick : PduAddress → InspContact → String → ℤ → M (InspLink Message) (Unit {0})
  write_nick a ct nick src = do
    modify λ s. record s { users = adjust ct.uuid (set_nick nick) s.users }
    push (e.new_message (some ct.uuid) "NICK" (nick ∷ show_i64 e.timestamp ∷ []) none)
    on_store (update_recipient_nick e.libs a nick src)

  abbrev pub take_nick :
      PduAddress → InspContact → String → ℤ → Option String → M (InspLink Message) (Unit {0})
  take_nick a ct st osrc none = write_nick a ct st osrc
  take_nick a ct st osrc (some n) = write_nick a ct n nicksrc_collision

  abbrev pub change_nick_of :
      PduAddress → InspContact → String → ℤ → Option InspUser → M (InspLink Message) (Unit {0})
  change_nick_of a ct st osrc none s = (panic, s)
  change_nick_of a ct st osrc (some u) s =
      if u.nick == st then (ok tt, s) else take_nick a ct st osrc (check_nick_for_collisions st s) s

  abbrev pub forward_to :
      PduAddress → InspContact → ContactManagerCommand → M (InspLink Message) (Unit {0})
  forward_to a ct (ContactManagerCommand.update_away text) =
      push (e.new_message (some ct.uuid) "AWAY" [] text)
  forward_to a ct (ContactManagerCommand.change_nick st osrc) =
      λ s. change_nick_of a ct st osrc (lookup ct.uuid s.users) s
  forward_to a ct (ContactManagerCommand.set_whatsapp wam) = mark_wa a wam >> set_wa_state a wam
  forward_to a ct ContactManagerCommand.process_messages = done
  forward_to a ct ContactManagerCommand.process_groups = done

  abbrev pub forward_if :
      PduAddress → ContactManagerCommand → Option InspContact → M (InspLink Message) (Unit {0})
  forward_if a cmd none = done
  forward_if a cmd (some ct) = forward_to a ct cmd

  unfoldable pub forward_cmd : PduAddress → ContactManagerCommand → M (InspLink Message) (Unit {0})
  forward_cmd a cmd s = forward_if a cmd (lookup a s.contacts) s

  abbrev pub holder : ContactManagerManager (InspLink Message)
  holder = record {
    wa_send = λ c s. (ok tt, record s { wa = s.wa ++ c ∷ [] });
    m_send = λ c s. (ok tt, record s { m = s.m ++ c ∷ [] });
    cb_send = λ c s. (ok tt, record s { cb = s.cb ++ c ∷ [] });
    setup_contact_for = setup_contact_for;
    remove_contact_for = remove_contact_for;
    has_contact = λ a s. is_some (lookup a s.contacts);
    store = λ s. s.store;
    with_store = λ st s. record s { store = st };
    forward_cmd = forward_cmd;
    resolve_nick = λ nick s. resolve_in nick s.contacts_uuid_pdua s.users;
  }

  unfoldable pub remove_user : String → Bool → M (InspLink Message) (Unit {0})
  remove_user = remove_user_by (setup_contact e.libs holder)
