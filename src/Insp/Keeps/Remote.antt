-- ===== src/Insp/Keeps/Remote.antt =====
-- src/insp_s2s.rs: the messages of the remote server, as the same writes and those of its own users.
use sms_irc.Base.{
  String, Bool, true, false, List, [], ◌∷◌, ◌++◌, Option, none, some, Result, for_each, if_intro,
  ◌≡◌, refl, ◌==◌, String_Eq, lookup, insert, contains, show_i64, Keeps, bind-Keeps, seq-Keeps,
  for_each-Keeps,
}
use sms_irc.Extern.{PduAddress, PduAddress_Eq}
use sms_irc.Comm.{ContactFactoryCommand}
use sms_irc.Store.{get_all_recipients}
use sms_irc.Sender.{lift}
use sms_irc.Control.Keeps.{ControlKeeps, process_admin_command-Keeps}
use sms_irc.Contacts.{setup_recipient}
use sms_irc.Contacts.Keeps.{setup_recipient-Keeps}
use sms_irc.InspUser.{InspUser, new_from_uid_line}
use sms_irc.Insp.{InspLink, InspContact, Env, Command, push, on_store, send_sid_line}
use sms_irc.Insp.Users.{admin_uuid}
use sms_irc.Insp.Groups.{process_groups}
use sms_irc.Insp.Holder.{holder, set_nick, set_host}
use sms_irc.Insp.Messages.{process_messages}
use sms_irc.Insp.Commands.{control}
use sms_irc.Insp.Burst.{
  capabs, do_capab_and_server, add_controlbot, do_burst, do_quasiburst, on_linked,
}
use sms_irc.Insp.Remote.{
  same_prefix, direct_by, direct_to, admin_message, handle_privmsg, handle_squit, welcome,
  handle_uid, handle_nick, handle_ftopic, handle_fhost, handle_endburst, handle_raw,
  handle_prefixed,
}
use sms_irc.Insp.Keeps.{
  push-Keeps, on_store-Keeps, lift-Keeps, send_sid_line-Keeps, process_groups-Keeps,
}
use sms_irc.Insp.Keeps.Contacts.{holder-Keeps, remove_user-Keeps}
use sms_irc.Insp.Keeps.Writes.{KeepsContacts}
use sms_irc.Insp.Keeps.Commands.{control_response-Keeps, process_insp-Keeps, process_messages-Keeps}

pub record KeepsUsers {ℓ} {Message : Type 0} (P : InspLink Message → Type ℓ) : Type ℓ where
  pub contacts : KeepsContacts P
  pub cf : (c : List ContactFactoryCommand) (s : InspLink Message) → P s → P (record s { cf = c })
  pub met :
      (uuid : String) (user : InspUser) (s : InspLink Message)
      → P s
      → P (record s { users = insert uuid user s.users })

abbrev pub ends_burst : Command → Bool
ends_burst (Command.raw cmd args suffix) = cmd == "ENDBURST"
ends_burst _ = false

abbrev pub splits : Command → String → Bool
splits (Command.squit server reason) name = server == name
splits _ name = false

module _ {ℓ} {Message : Type 0} (P : InspLink Message → Type ℓ) (k : KeepsUsers P)
    (e : Env Message) where
  open k use {contacts, met}

  pub do_capab_and_server-Keeps : Keeps P (do_capab_and_server e)
  unfolding do_capab_and_server
  do_capab_and_server-Keeps =
      seq-Keeps P (send_sid_line e "CAPAB" ("START" ∷ "1202" ∷ []) none) _
        (send_sid_line-Keeps P contacts.quiet e _ _ _)
        (seq-Keeps P
          (for_each capabs (λ capab. send_sid_line e "CAPAB" ("CAPABILITIES" ∷ []) (some capab))) _
          (for_each-Keeps P (λ capab. send_sid_line e "CAPAB" ("CAPABILITIES" ∷ []) (some capab))
            (λ capab. send_sid_line-Keeps P contacts.quiet e _ _ _) capabs)
          (seq-Keeps P (send_sid_line e "CAPAB" ("END" ∷ []) none) _
            (send_sid_line-Keeps P contacts.quiet e _ _ _) (λ s. push-Keeps P contacts.quiet _ s)))

  add_controlbot-Keeps : Keeps P (add_controlbot e)
  add_controlbot-Keeps s p = push-Keeps P contacts.quiet _ _ (met s.control_uuid _ s p)

  pub do_burst-Keeps : Keeps P (do_burst e)
  unfolding do_burst
  do_burst-Keeps =
      seq-Keeps P (send_sid_line e "BURST" (show_i64 e.timestamp ∷ []) none) _
        (send_sid_line-Keeps P contacts.quiet e _ _ _)
        (seq-Keeps P (add_controlbot e) _ add_controlbot-Keeps
          (send_sid_line-Keeps P contacts.quiet e "ENDBURST" [] none))

  pub do_quasiburst-Keeps : Keeps P (do_quasiburst e)
  unfolding do_quasiburst
  do_quasiburst-Keeps =
      bind-Keeps P (on_store get_all_recipients) _
        (on_store-Keeps P contacts.quiet get_all_recipients)
        λ recips.
          for_each-Keeps P (setup_recipient e.libs (holder e))
            (setup_recipient-Keeps P e.libs (holder e) (holder-Keeps P contacts e)) recips

  pub on_linked-Keeps : Keeps P (on_linked e)
  unfolding on_linked
  on_linked-Keeps =
      seq-Keeps P
        (λ s. push (e.new_message (some s.control_uuid) "JOIN" (s.cfg.log_chan ∷ []) none) s) _
        (λ s. push-Keeps P contacts.quiet _ s)
        (seq-Keeps P (process_groups e) (process_messages e)
          (process_groups-Keeps P contacts.quiet e) (process_messages-Keeps P contacts e))

  pub control-Keeps : ControlKeeps P (control e)
  control-Keeps = record {
    wa = λ c s p. contacts.wa (s.wa ++ c ∷ []) s p;
    cf = λ c s p. k.cf (s.cf ++ c ∷ []) s p;
    m = λ c s p. contacts.m (s.m ++ c ∷ []) s p;
    insp = process_insp-Keeps P contacts.quiet e;
    response = control_response-Keeps P contacts.quiet e;
  }

  direct_by-Keeps :
      (a : PduAddress) (msg : String) (ct : Option InspContact) → Keeps P (direct_by a msg ct)
  direct_by-Keeps a msg none s p = p
  direct_by-Keeps a msg (some ct) s p =
      if_intro (Keeps P) ct.wa_mode _ _ (λ t u h. contacts.wa _ u h) (λ f u h. contacts.m _ u h) s p

  direct_to-Keeps : (msg : String) (a : Option PduAddress) → Keeps P (direct_to msg a)
  direct_to-Keeps msg none s p = p
  direct_to-Keeps msg (some a) s p = direct_by-Keeps a msg (lookup a s.contacts) s p

  admin_message-Keeps : (target msg : String) → Keeps P (admin_message e target msg)
  admin_message-Keeps target msg s p =
      let Kept : Result (Unit {0}) × InspLink Message → Type ℓ = λ r. P r.1 in
      if_intro Kept (target == s.control_uuid) _ _
        (λ t. process_admin_command-Keeps P e.libs (control e) control-Keeps msg s p)
        λ f.
          if_intro Kept (contains s.channels target) _ _ (λ t. contacts.wa _ s p)
            (λ g. direct_to-Keeps msg (lookup target s.contacts_uuid_pdua) s p)

  handle_privmsg-Keeps : (prefix target msg : String) → Keeps P (handle_privmsg e prefix target msg)
  unfolding handle_privmsg
  handle_privmsg-Keeps prefix target msg s p =
      if_intro (λ (r : Result (Unit {0}) × InspLink Message). P r.1)
        (same_prefix prefix (admin_uuid s)) _ _ (λ t. admin_message-Keeps target msg s p) (λ f. p)

  welcome-Keeps : (u : String × InspUser) → Keeps P (welcome e u)
  welcome-Keeps (uuid, user) s p =
      if_intro (λ (r : Result (Unit {0}) × InspLink Message). P r.1) (user.nick == s.cfg.admin_nick)
        _ _ (λ t. process_messages-Keeps P contacts e _ (met uuid user s p))
        (λ f. met uuid user s p)

  handle_uid-Keeps :
      (args : List String) (suffix : Option String) → Keeps P (handle_uid e args suffix)
  unfolding handle_uid
  handle_uid-Keeps args suffix =
      bind-Keeps P (lift (new_from_uid_line e.debug args suffix)) (welcome e)
        (lift-Keeps P contacts.quiet (new_from_uid_line e.debug args suffix)) welcome-Keeps

  handle_nick-Keeps : (prefix : String) (args : List String) → Keeps P (handle_nick e prefix args)
  unfolding handle_nick
  handle_nick-Keeps prefix [] s p = p
  handle_nick-Keeps prefix (nick ∷ args) s p = contacts.user prefix (set_nick nick) s p

  handle_fhost-Keeps : (prefix : String) (args : List String) → Keeps P (handle_fhost e prefix args)
  unfolding handle_fhost
  handle_fhost-Keeps prefix [] s p = p
  handle_fhost-Keeps prefix (host ∷ args) s p = contacts.user prefix (set_host host) s p

  handle_ftopic-Keeps :
      (args : List String) (suffix : Option String) → Keeps P (handle_ftopic e args suffix)
  unfolding handle_ftopic
  handle_ftopic-Keeps (chan ∷ a ∷ b ∷ rest) (some topic) s p = contacts.quiet.topics _ s p
  handle_ftopic-Keeps (chan ∷ a ∷ b ∷ rest) none s p = p
  handle_ftopic-Keeps (chan ∷ a ∷ []) suffix s p = p
  handle_ftopic-Keeps (chan ∷ []) suffix s p = p
  handle_ftopic-Keeps [] suffix s p = p

  handle_raw-Keeps :
      (prefix cmd : String) (args : List String) (suffix : Option String)
      → ((cmd == "ENDBURST") ≡ true → Keeps P (handle_endburst e prefix))
      → Keeps P (handle_raw e prefix cmd args suffix)
  unfolding handle_raw
  handle_raw-Keeps prefix cmd args suffix ends =
      if_intro (Keeps P) (cmd == "UID") _ _ (λ t. handle_uid-Keeps args suffix)
        λ f.
          if_intro (Keeps P) (cmd == "NICK") _ _ (λ t. handle_nick-Keeps prefix args)
            λ g.
              if_intro (Keeps P) (cmd == "FTOPIC") _ _ (λ t. handle_ftopic-Keeps args suffix)
                λ h.
                  if_intro (Keeps P) (cmd == "FHOST") _ _ (λ t. handle_fhost-Keeps prefix args)
                    (λ i. if_intro (Keeps P) (cmd == "ENDBURST") _ _ ends (λ j s p. p))

  -- Every message with a prefix, when the end of a burst and a split keep `P`.
  pub handle_prefixed-Keeps :
      (prefix : String) (c : Command)
      → (ends_burst c ≡ true → Keeps P (handle_endburst e prefix))
      → ((server : String) → splits c server ≡ true → Keeps P (handle_squit e server))
      → Keeps P (handle_prefixed e prefix c)
  unfolding handle_prefixed
  handle_prefixed-Keeps prefix (Command.privmsg target msg) ends split =
      handle_privmsg-Keeps prefix target msg
  handle_prefixed-Keeps prefix (Command.error details) ends split = λ s p. p
  handle_prefixed-Keeps prefix (Command.kill uuid reason) ends split =
      remove_user-Keeps P contacts e uuid true
  handle_prefixed-Keeps prefix (Command.quit reason) ends split =
      remove_user-Keeps P contacts e prefix true
  handle_prefixed-Keeps prefix (Command.ping x none) ends split =
      send_sid_line-Keeps P contacts.quiet e _ _ _
  handle_prefixed-Keeps prefix (Command.ping x (some y)) ends split =
      send_sid_line-Keeps P contacts.quiet e _ _ _
  handle_prefixed-Keeps prefix (Command.squit server reason) ends split =
      split server ((String_Eq.decides server server).1 refl)
  handle_prefixed-Keeps prefix (Command.raw cmd args suffix) ends split =
      handle_raw-Keeps prefix cmd args suffix ends
  handle_prefixed-Keeps prefix (Command.other text) ends split = λ s p. p
