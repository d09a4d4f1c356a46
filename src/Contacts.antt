-- ===== src/Contacts.antt =====
-- src/contact_common.rs: what the holders of contacts share, the contact factory and the InspIRCd link.
pub mod Setup
pub mod Keeps
use sms_irc.Base.{
  String, Bool, true, false, List, [], ◌∷◌, Option, none, some, Result, ok, err, panic, M, ◌>>=◌,
  ◌>>◌, pure, done, ◌<>◌, if◌then◌else◌, ◌==◌, ℤ, ℤ_Eq,
}
use sms_irc.Extern.{Libs, PduAddress}
use sms_irc.Models.{Recipient, recipient_addr, source_sms, source_wa}
use sms_irc.Store.{Store, get_recipient_by_addr_opt, delete_recipient_with_addr}
use sms_irc.Comm.{WhatsappCommand, ModemCommand, ControlBotCommand, ContactManagerCommand}

-- The methods that an implementation of the trait gives, over its own state; `store` and `with_store`
-- stand for the `&mut Store` that it lends, and the three senders for its channels.
pub record ContactManagerManager (S : Type 0) : Type 0 where
  pub wa_send : WhatsappCommand → M S (Unit {0})
  pub m_send : ModemCommand → M S (Unit {0})
  pub cb_send : ControlBotCommand → M S (Unit {0})
  pub setup_contact_for : Recipient → PduAddress → M S (Unit {0})
  pub remove_contact_for : PduAddress → M S (Unit {0})
  pub has_contact : PduAddress → S → Bool
  pub store : S → Store
  pub with_store : Store → S → S
  pub forward_cmd : PduAddress → ContactManagerCommand → M S (Unit {0})
  pub resolve_nick : String → S → Option PduAddress

module _ {S : Type 0} (l : Libs) (i : ContactManagerManager S) where
  open i use {
    wa_send, m_send, cb_send, setup_contact_for, remove_contact_for, has_contact, store, with_store,
    forward_cmd, resolve_nick,
  }

  abbrev pub on_store : {A : Type 0} → M Store A → M S A
  on_store m s = let (r, st) = m (store s) in (r, with_store st s)

  abbrev pub setup_addressed : Recipient → Result PduAddress → M S (Unit {0})
  setup_addressed recip (ok addr) s =
      if has_contact addr s then (ok tt, s) else setup_contact_for recip addr s
  setup_addressed recip (err e) s = (err e, s)
  setup_addressed recip panic s = (panic, s)

  unfoldable pub setup_recipient : Recipient → M S (Unit {0})
  setup_recipient recip = setup_addressed recip (recipient_addr l recip)

  abbrev pub ask_source : PduAddress → ℤ → M S (Unit {0})
  ask_source a src =
      if src == source_sms
      then m_send (ModemCommand.make_contact a)
      else if src == source_wa
      then wa_send (WhatsappCommand.make_contact a)
      else done

  abbrev pub request_found : PduAddress → ℤ → Option Recipient → M S Bool
  request_found a src (some recip) = setup_recipient recip >> pure true
  request_found a src none = ask_source a src >> pure false

  unfoldable pub request_contact : PduAddress → ℤ → M S Bool
  request_contact a src = on_store (get_recipient_by_addr_opt l a) >>= request_found a src

  abbrev pub query_found : PduAddress → ℤ → Option Recipient → M S (Unit {0})
  query_found a src (some recip) =
      cb_send (
        ControlBotCommand.command_response
          ("Ghost exists already; nickname is `" <> recip.nick <> "`."))
      >> setup_recipient recip
  query_found a src none =
      cb_send (
        ControlBotCommand.command_response
          ("Setting up a ghost for number `" <> l.show_address a <> "`..."))
      >> (request_contact a src >> done)

  unfoldable pub query_contact : PduAddress → ℤ → M S (Unit {0})
  query_contact a src = on_store (get_recipient_by_addr_opt l a) >>= query_found a src

  abbrev pub setup_found : Option Recipient → M S (Unit {0})
  setup_found (some recip) = setup_recipient recip
  setup_found none = done

  unfoldable pub setup_contact : PduAddress → M S (Unit {0})
  setup_contact a = on_store (get_recipient_by_addr_opt l a) >>= setup_found

  unfoldable pub drop_contact : PduAddress → M S (Unit {0})
  drop_contact addr = on_store (delete_recipient_with_addr l addr) >> remove_contact_for addr

  abbrev pub if_resolved : Option PduAddress → (PduAddress → M S (Unit {0})) → M S (Unit {0})
  if_resolved none f = done
  if_resolved (some a) f = f a

  unfoldable pub subscribe_presence_by_nick : String → M S (Unit {0})
  subscribe_presence_by_nick nick s =
      if_resolved (resolve_nick nick s) (λ a. wa_send (WhatsappCommand.subscribe_presence a)) s

  unfoldable pub drop_contact_by_nick : String → M S (Unit {0})
  drop_contact_by_nick nick s = if_resolved (resolve_nick nick s) drop_contact s

  unfoldable pub forward_cmd_by_nick : String → ContactManagerCommand → M S (Unit {0})
  forward_cmd_by_nick nick cmd s = if_resolved (resolve_nick nick s) (λ a. forward_cmd a cmd) s
