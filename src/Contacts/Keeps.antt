-- ===== src/Contacts/Keeps.antt =====
-- src/contact_common.rs: what the methods of an implementation keep, the shared code keeps.
use sms_irc.Base.{
  String, true, false, Option, none, some, Result, ok, err, panic, M, ◌>>◌, pure, done, ◌≡◌,
  if_intro, ◌==◌, ℤ, ℤ_Eq, Keeps, bind-Keeps, seq-Keeps,
}
use sms_irc.Extern.{Libs, PduAddress}
use sms_irc.Models.{Recipient, recipient_addr, source_sms, source_wa}
use sms_irc.Store.{Store, get_recipient_by_addr_opt, delete_recipient_with_addr}
use sms_irc.Comm.{WhatsappCommand, ModemCommand, ControlBotCommand, ContactManagerCommand}
use sms_irc.Contacts.{
  ContactManagerManager, on_store, setup_addressed, setup_recipient, ask_source, request_found,
  request_contact, query_found, query_contact, setup_found, setup_contact, drop_contact,
  if_resolved, subscribe_presence_by_nick, drop_contact_by_nick, forward_cmd_by_nick,
}

-- A contact is only set up where there is none.
pub record HolderKeeps {ℓ} {S : Type 0} (P : S → Type ℓ) (i : ContactManagerManager S)
    : Type ℓ where
  pub wa : (c : WhatsappCommand) → Keeps P (i.wa_send c)
  pub m : (c : ModemCommand) → Keeps P (i.m_send c)
  pub cb : (c : ControlBotCommand) → Keeps P (i.cb_send c)
  pub setup :
      (r : Recipient) (a : PduAddress) (s : S)
      → i.has_contact a s ≡ false
      → P s
      → P (i.setup_contact_for r a s).1
  pub remove : (a : PduAddress) → Keeps P (i.remove_contact_for a)
  pub stored : (st : Store) (s : S) → P s → P (i.with_store st s)
  pub forward : (a : PduAddress) (c : ContactManagerCommand) → Keeps P (i.forward_cmd a c)

module _ {ℓ} {S : Type 0} (P : S → Type ℓ) (l : Libs) (i : ContactManagerManager S)
    (k : HolderKeeps P i) where
  on_store-Keeps : {A : Type 0} (f : M Store A) → Keeps P (on_store l i f)
  on_store-Keeps f s p = k.stored (f (i.store s)).1 s p

  setup_addressed-Keeps :
      (recip : Recipient) (r : Result PduAddress) → Keeps P (setup_addressed l i recip r)
  setup_addressed-Keeps recip (ok a) s p =
      if_intro (λ (r : Result (Unit {0}) × S). P r.1) (i.has_contact a s) (ok tt, s)
        (i.setup_contact_for recip a s) (λ t. p) (λ f. k.setup recip a s f p)
  setup_addressed-Keeps recip (err e) s p = p
  setup_addressed-Keeps recip panic s p = p

  pub setup_recipient-Keeps : (recip : Recipient) → Keeps P (setup_recipient l i recip)
  unfolding setup_recipient
  setup_recipient-Keeps recip = setup_addressed-Keeps recip (recipient_addr l recip)

  ask_source-Keeps : (a : PduAddress) (src : ℤ) → Keeps P (ask_source l i a src)
  ask_source-Keeps a src =
      if_intro (Keeps P) (src == source_sms) _ _ (λ t. k.m _)
        (λ f. if_intro (Keeps P) (src == source_wa) _ _ (λ t. k.wa _) (λ g s p. p))

  request_found-Keeps :
      (a : PduAddress) (src : ℤ) (found : Option Recipient)
      → Keeps P (request_found l i a src found)
  request_found-Keeps a src (some recip) =
      seq-Keeps P (setup_recipient l i recip) (pure true) (setup_recipient-Keeps recip) (λ s p. p)
  request_found-Keeps a src none =
      seq-Keeps P (ask_source l i a src) (pure false) (ask_source-Keeps a src) (λ s p. p)

  pub request_contact-Keeps : (a : PduAddress) (src : ℤ) → Keeps P (request_contact l i a src)
  unfolding request_contact
  request_contact-Keeps a src =
      bind-Keeps P (on_store l i (get_recipient_by_addr_opt l a)) (request_found l i a src)
        (on_store-Keeps (get_recipient_by_addr_opt l a)) (request_found-Keeps a src)

  query_found-Keeps :
      (a : PduAddress) (src : ℤ) (found : Option Recipient) → Keeps P (query_found l i a src found)
  query_found-Keeps a src (some recip) =
      seq-Keeps P (i.cb_send _) (setup_recipient l i recip) (k.cb _) (setup_recipient-Keeps recip)
  query_found-Keeps a src none =
      seq-Keeps P (i.cb_send _) (request_contact l i a src >> done) (k.cb _)
        (seq-Keeps P (request_contact l i a src) done (request_contact-Keeps a src) (λ s p. p))

  pub query_contact-Keeps : (a : PduAddress) (src : ℤ) → Keeps P (query_contact l i a src)
  unfolding query_contact
  query_contact-Keeps a src =
      bind-Keeps P (on_store l i (get_recipient_by_addr_opt l a)) (query_found l i a src)
        (on_store-Keeps (get_recipient_by_addr_opt l a)) (query_found-Keeps a src)

  setup_found-Keeps : (found : Option Recipient) → Keeps P (setup_found l i found)
  setup_found-Keeps (some recip) s p = setup_recipient-Keeps recip s p
  setup_found-Keeps none s p = p

  pub setup_contact-Keeps : (a : PduAddress) → Keeps P (setup_contact l i a)
  unfolding setup_contact
  setup_contact-Keeps a =
      bind-Keeps P (on_store l i (get_recipient_by_addr_opt l a)) (setup_found l i)
        (on_store-Keeps (get_recipient_by_addr_opt l a)) setup_found-Keeps

  pub drop_contact-Keeps : (a : PduAddress) → Keeps P (drop_contact l i a)
  unfolding drop_contact
  drop_contact-Keeps a =
      seq-Keeps P (on_store l i (delete_recipient_with_addr l a)) (i.remove_contact_for a)
        (on_store-Keeps (delete_recipient_with_addr l a)) (k.remove a)

  if_resolved-Keeps :
      (found : Option PduAddress) (f : PduAddress → M S (Unit {0}))
      → ((a : PduAddress) → Keeps P (f a))
      → Keeps P (if_resolved l i found f)
  if_resolved-Keeps none f h s p = p
  if_resolved-Keeps (some a) f h s p = h a s p

  pub subscribe_presence_by_nick-Keeps :
      (nick : String) → Keeps P (subscribe_presence_by_nick l i nick)
  unfolding subscribe_presence_by_nick
  subscribe_presence_by_nick-Keeps nick s =
      if_resolved-Keeps (i.resolve_nick nick s)
        (λ a. i.wa_send (WhatsappCommand.subscribe_presence a)) (λ a. k.wa _) s

  pub drop_contact_by_nick-Keeps : (nick : String) → Keeps P (drop_contact_by_nick l i nick)
  unfolding drop_contact_by_nick
  drop_contact_by_nick-Keeps nick s =
      if_resolved-Keeps (i.resolve_nick nick s) (drop_contact l i) drop_contact-Keeps s

  pub forward_cmd_by_nick-Keeps :
      (nick : String) (cmd : ContactManagerCommand) → Keeps P (forward_cmd_by_nick l i nick cmd)
  unfolding forward_cmd_by_nick
  forward_cmd_by_nick-Keeps nick cmd s =
      if_resolved-Keeps (i.resolve_nick nick s) (λ a. i.forward_cmd a cmd) (λ a. k.forward a cmd) s
