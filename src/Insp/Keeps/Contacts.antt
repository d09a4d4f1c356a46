-- ===== src/Insp/Keeps/Contacts.antt =====
-- src/insp_s2s.rs: the holder's methods, as the writes of one contact and its user.
use sms_irc.Base.{
  String, Bool, true, false, [], ◌∷◌, ◌++◌, Option, none, some, ℤ, Result, ok, err, panic, ◌>>=◌,
  ◌>>◌, pure, ltb, if_intro, ◌≡◌, refl, ◌==◌, String_Eq, is_some, lookup, adjust, show_i64, Keeps,
  seq-Keeps,
}
use sms_irc.Extern.{PduAddress, PduAddress_Eq}
use sms_irc.Models.{Recipient, nicksrc_collision}
use sms_irc.Comm.{ContactManagerCommand}
use sms_irc.Store.{Store, update_recipient_wa, update_recipient_nick}
use sms_irc.Contacts.{setup_contact}
use sms_irc.Contacts.Keeps.{HolderKeeps, setup_contact-Keeps}
use sms_irc.InspUser.{InspUser, new_from_recipient}
use sms_irc.Insp.{InspLink, InspContact, Env, push, send, on_store, is_linked}
use sms_irc.Insp.Users.{
  uuid_of, max_user_id, make_uid_line, host_for_wa, get_uuid, add_user, announce, new_user,
  check_nick_for_collisions,
}
use sms_irc.Insp.Holder.{
  set_nick, set_host, set_mode_wa, mark_wa, change_host, wa_state_of, set_wa_state, add_contact,
  join_if_linked, setup_with, setup_contact_for, recreate_by, quit_user, remove_contact_for,
  write_nick, take_nick, change_nick_of, forward_to, forward_if, forward_cmd, holder, remove_user,
}
use sms_irc.Insp.Keeps.{push-Keeps, on_store-Keeps, process_groups_for_recipient-Keeps}
use sms_irc.Insp.Keeps.Writes.{mint, KeepsContacts}

module _ {ℓ} {Message : Type 0} (P : InspLink Message → Type ℓ) (k : KeepsContacts P)
    (e : Env Message) where
  open k use {quiet}

  change_host-Keeps : (uid host : String) → Keeps P (change_host e uid host)
  change_host-Keeps uid host =
      seq-Keeps P (push (e.new_message (some uid) "FHOST" (host ∷ []) none)) _
        (push-Keeps P quiet _) (k.user uid (set_host host))

  wa_state_of-Keeps :
      (a : PduAddress) (wa : Bool) (ct : Option InspContact) → Keeps P (wa_state_of e a wa ct)
  wa_state_of-Keeps a wa none s p = p
  wa_state_of-Keeps a wa (some ct) s p =
      seq-Keeps P (on_store (update_recipient_wa e.libs a wa))
        (λ t. change_host e ct.uuid (host_for_wa wa t) t)
        (on_store-Keeps P quiet (update_recipient_wa e.libs a wa))
        (λ t. change_host-Keeps ct.uuid (host_for_wa wa t) t)
        (record s { contacts = adjust a (set_mode_wa wa) s.contacts })
        (quiet.contact a (set_mode_wa wa) (λ c. refl) s p)

  pub set_wa_state-Keeps : (a : PduAddress) (wa : Bool) → Keeps P (set_wa_state e a wa)
  unfolding set_wa_state
  set_wa_state-Keeps a wa s = wa_state_of-Keeps a wa (lookup a s.contacts) s

  join_if_linked-Keeps : (a : PduAddress) → Keeps P (join_if_linked e a)
  join_if_linked-Keeps a s p =
      if_intro (λ (r : Result (Unit {0}) × InspLink Message). P r.1) (is_linked s.state) _ _
        (λ t. process_groups_for_recipient-Keeps P quiet e a s p) (λ f. p)

  -- What follows `get_uuid` and `users.insert`, by what `make_uid_line` answers.
  finish_setup :
      (user : InspUser) (a : PduAddress) (wa : Bool) (s : InspLink Message) (r : Result Message)
      → ltb max_user_id s.next_user_id ≡ false
      → is_some (lookup a s.contacts) ≡ false
      → P s
      → P
          (((push r >> pure (uuid_of s.cfg.sid s.next_user_id)) >>= λ uuid.
              add_contact e a uuid wa >> join_if_linked e a)
            (mint user s)).1
  unfolding push send
  finish_setup user a wa s (ok line) small new p =
      join_if_linked-Keeps a _ (k.added user a wa (s.outbox ++ line ∷ []) s small new p)
  finish_setup user a wa s (err x) small new p = k.minted user s small p
  finish_setup user a wa s panic small new p = k.minted user s small p

  setup_named-Keeps :
      (user : InspUser) (a : PduAddress) (wa : Bool) (s : InspLink Message)
      → is_some (lookup a s.contacts) ≡ false
      → P s
      → P ((new_user e user >>= λ uuid. add_contact e a uuid wa >> join_if_linked e a) s).1
  unfolding new_user get_uuid
  setup_named-Keeps user a wa s new p =
      if_intro
        (λ (r : Result String × InspLink Message).
          P
            (((λ (t : InspLink Message). r)
                >>= (λ uuid. add_user uuid user >> (announce e uuid >> pure uuid))
                >>= (λ uuid. add_contact e a uuid wa >> join_if_linked e a))
              s).1)
        (ltb max_user_id s.next_user_id) _ _ (λ t. p)
        (λ f.
          finish_setup user a wa s
            (make_uid_line e (uuid_of s.cfg.sid s.next_user_id) (mint user s)) f new p)

  -- What follows `update_recipient_nick`, by what it answers.
  settled-Keeps :
      (recip : Recipient) (a : PduAddress) (host n : String) (s : InspLink Message)
      (r : Result (Unit {0}) × Store)
      → is_some (lookup a s.contacts) ≡ false
      → P s
      → P
          (((λ (t : InspLink Message). (r.0, record t { store = r.1 })) >> pure n >>= λ nick.
              new_user e (new_from_recipient e.libs e.timestamp a nick host) >>= λ uuid.
              add_contact e a uuid recip.whatsapp >> join_if_linked e a)
            s).1
  settled-Keeps recip a host n s (ok u, st) new p =
      setup_named-Keeps (new_from_recipient e.libs e.timestamp a n host) a recip.whatsapp
        (record s { store = st }) new (quiet.stored st s p)
  settled-Keeps recip a host n s (err x, st) new p = quiet.stored st s p
  settled-Keeps recip a host n s (panic, st) new p = quiet.stored st s p

  setup_with-Keeps :
      (recip : Recipient) (a : PduAddress) (host : String) (free : Option String)
      (s : InspLink Message)
      → is_some (lookup a s.contacts) ≡ false
      → P s
      → P (setup_with e recip a host free s).1
  unfolding on_store
  setup_with-Keeps recip a host none s new p =
      setup_named-Keeps (new_from_recipient e.libs e.timestamp a recip.nick host) a recip.whatsapp s
        new p
  setup_with-Keeps recip a host (some n) s new p =
      settled-Keeps recip a host n s (update_recipient_nick e.libs a n nicksrc_collision s.store)
        new p

  pub setup_contact_for-Keeps :
      (recip : Recipient) (a : PduAddress) (s : InspLink Message)
      → is_some (lookup a s.contacts) ≡ false
      → P s
      → P (setup_contact_for e recip a s).1
  unfolding setup_contact_for
  setup_contact_for-Keeps recip a s =
      setup_with-Keeps recip a (host_for_wa recip.whatsapp s)
        (check_nick_for_collisions recip.nick s) s

  quit_user-Keeps : (ct : Option InspContact) → Keeps P (quit_user e ct)
  quit_user-Keeps none s p = p
  quit_user-Keeps (some ct) s p =
      seq-Keeps P (push (e.new_message (some ct.uuid) "QUIT" [] (some "Contact removed"))) _
        (push-Keeps P quiet _) (k.dropped ct.uuid) s p

  pub remove_contact_for-Keeps : (a : PduAddress) → Keeps P (remove_contact_for e a)
  unfolding remove_contact_for
  remove_contact_for-Keeps a =
      seq-Keeps P (λ s. quit_user e (lookup a s.contacts) s) _
        (λ s. quit_user-Keeps (lookup a s.contacts) s) (k.removed a)

  write_nick-Keeps :
      (a : PduAddress) (ct : InspContact) (nick : String) (src : ℤ)
      → Keeps P (write_nick e a ct nick src)
  write_nick-Keeps a ct nick src s p =
      seq-Keeps P
        (push (e.new_message (some ct.uuid) "NICK" (nick ∷ show_i64 e.timestamp ∷ []) none))
        (on_store (update_recipient_nick e.libs a nick src)) (push-Keeps P quiet _)
        (on_store-Keeps P quiet (update_recipient_nick e.libs a nick src))
        (record s { users = adjust ct.uuid (set_nick nick) s.users })
        (k.user ct.uuid (set_nick nick) s p)

  take_nick-Keeps :
      (a : PduAddress) (ct : InspContact) (st : String) (src : ℤ) (free : Option String)
      → Keeps P (take_nick e a ct st src free)
  take_nick-Keeps a ct st src none s p = write_nick-Keeps a ct st src s p
  take_nick-Keeps a ct st src (some n) s p = write_nick-Keeps a ct n nicksrc_collision s p

  change_nick_of-Keeps :
      (a : PduAddress) (ct : InspContact) (st : String) (src : ℤ) (u : Option InspUser)
      → Keeps P (change_nick_of e a ct st src u)
  change_nick_of-Keeps a ct st src none s p = p
  change_nick_of-Keeps a ct st src (some u) s p =
      if_intro (λ (r : Result (Unit {0}) × InspLink Message). P r.1) (u.nick == st) _ _ (λ t. p)
        (λ f. take_nick-Keeps a ct st src (check_nick_for_collisions st s) s p)

  forward_to-Keeps :
      (a : PduAddress) (ct : InspContact) (c : ContactManagerCommand)
      → Keeps P (forward_to e a ct c)
  forward_to-Keeps a ct (ContactManagerCommand.update_away text) s p = push-Keeps P quiet _ s p
  forward_to-Keeps a ct (ContactManagerCommand.change_nick st src) s p =
      change_nick_of-Keeps a ct st src (lookup ct.uuid s.users) s p
  forward_to-Keeps a ct (ContactManagerCommand.set_whatsapp wam) s p =
      seq-Keeps P (mark_wa e a wam) (set_wa_state e a wam)
        (quiet.contact a (set_mode_wa wam) (λ c. refl)) (set_wa_state-Keeps a wam) s p
  forward_to-Keeps a ct ContactManagerCommand.process_messages s p = p
  forward_to-Keeps a ct ContactManagerCommand.process_groups s p = p

  forward_if-Keeps :
      (a : PduAddress) (c : ContactManagerCommand) (ct : Option InspContact)
      → Keeps P (forward_if e a c ct)
  forward_if-Keeps a c none s p = p
  forward_if-Keeps a c (some ct) s p = forward_to-Keeps a ct c s p

  pub forward_cmd-Keeps : (a : PduAddress) (c : ContactManagerCommand) → Keeps P (forward_cmd e a c)
  unfolding forward_cmd
  forward_cmd-Keeps a c s = forward_if-Keeps a c (lookup a s.contacts) s

  pub holder-Keeps : HolderKeeps P (holder e)
  holder-Keeps = record {
    wa = λ c s p. k.wa (s.wa ++ c ∷ []) s p;
    m = λ c s p. k.m (s.m ++ c ∷ []) s p;
    cb = λ c s p. k.cb (s.cb ++ c ∷ []) s p;
    setup = setup_contact_for-Keeps;
    remove = remove_contact_for-Keeps;
    stored = quiet.stored;
    forward = forward_cmd-Keeps;
  }

  recreate_by-Keeps :
      (recreate : Bool) (a : Option PduAddress)
      → Keeps P (recreate_by e (setup_contact e.libs (holder e)) recreate a)
  recreate_by-Keeps true (some a) s p = setup_contact-Keeps P e.libs (holder e) holder-Keeps a s p
  recreate_by-Keeps true none s p = p
  recreate_by-Keeps false a s p = p

  pub remove_user-Keeps : (uuid : String) (recreate : Bool) → Keeps P (remove_user e uuid recreate)
  unfolding remove_user
  remove_user-Keeps uuid recreate s p =
      recreate_by-Keeps recreate (lookup uuid s.contacts_uuid_pdua) _ (k.dropped uuid s p)
