-- ===== src/Insp/Keeps/Writes.antt =====
-- src/insp_s2s.rs: the writes of the holder's methods, of one contact and its user.
use sms_irc.Base.{
  ◌+◌, String, Bool, false, List, ltb, ◌≡◌, String_Eq, is_some, lookup, insert, erase, adjust,
}
use sms_irc.Extern.{PduAddress, PduAddress_Eq}
use sms_irc.Comm.{ControlBotCommand, WhatsappCommand, ModemCommand}
use sms_irc.InspUser.{InspUser}
use sms_irc.Insp.{InspLink}
use sms_irc.Insp.Users.{uuid_of, max_user_id}
use sms_irc.Insp.Holder.{drop_address, new_contact, drop_user}
use sms_irc.Insp.Keeps.{KeepsQuiet}

-- The state with a new user, and with the contact that the user is for.
abbrev pub mint : {Message : Type 0} → InspUser → InspLink Message → InspLink Message
mint user s = record s {
  next_user_id = s.next_user_id + 1;
  users = insert (uuid_of s.cfg.sid s.next_user_id) user s.users;
}

abbrev pub add_minted :
    {Message : Type 0}
    → InspUser
    → PduAddress
    → Bool
    → List Message
    → InspLink Message
    → InspLink Message
add_minted user a wa o s =
    let uuid = uuid_of s.cfg.sid s.next_user_id in
    record s {
      next_user_id = s.next_user_id + 1;
      users = insert uuid user s.users;
      outbox = o;
      contacts = insert a (new_contact uuid wa) s.contacts;
      contacts_uuid_pdua = insert uuid a s.contacts_uuid_pdua;
    }

pub record KeepsContacts {ℓ} {Message : Type 0} (P : InspLink Message → Type ℓ) : Type ℓ where
  pub quiet : KeepsQuiet P
  pub wa : (c : List WhatsappCommand) (s : InspLink Message) → P s → P (record s { wa = c })
  pub m : (c : List ModemCommand) (s : InspLink Message) → P s → P (record s { m = c })
  pub cb : (c : List ControlBotCommand) (s : InspLink Message) → P s → P (record s { cb = c })
  pub user :
      (uuid : String) (f : InspUser → InspUser) (s : InspLink Message)
      → P s
      → P (record s { users = adjust uuid f s.users })
  pub minted :
      (user : InspUser) (s : InspLink Message)
      → ltb max_user_id s.next_user_id ≡ false
      → P s
      → P (mint user s)
  pub added :
      (user : InspUser) (a : PduAddress) (wa : Bool) (o : List Message) (s : InspLink Message)
      → ltb max_user_id s.next_user_id ≡ false
      → is_some (lookup a s.contacts) ≡ false
      → P s
      → P (add_minted user a wa o s)
  pub dropped :
      (uuid : String) (s : InspLink Message)
      → P s
      → P (drop_user uuid (lookup uuid s.contacts_uuid_pdua) s)
  pub removed :
      (a : PduAddress) (s : InspLink Message)
      → P s
      → P (record s {
        contacts = erase a s.contacts;
        contacts_uuid_pdua = drop_address a s.contacts_uuid_pdua;
      })
