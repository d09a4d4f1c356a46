-- ===== src/Insp/Calm.antt =====
-- src/insp_s2s.rs, forward_cmd: its `unwrap`s.
use text.Mathlib.Text.{starts_with}
use sms_irc.Base.{
  ◌≡◌, refl, String, Bool, true, false, not, List, [], ◌∷◌, Option, none, some, ℤ, arith, if_intro,
  ◌==◌, String_Eq, is_some, lookup, adjust, keep_keys, lookup-keep_keys, M, Result, ok, err, panic,
  is_panic, Safe, bind-Safe, lookup-adjust_back, show_i64,
}
use sms_irc.Extern.{PduAddress, PduAddress_Eq}
use sms_irc.Models.{nicksrc_collision}
use sms_irc.Comm.{ContactManagerCommand}
use sms_irc.Store.{Store, connect, connect_by, update_recipient_nick, update_recipient_wa}
use sms_irc.InspUser.{InspUser}
use sms_irc.Insp.{InspLink, InspContact, Env, push, send, on_store}
use sms_irc.Insp.Users.{check_nick_for_collisions, host_for_wa}
use sms_irc.Insp.Holder.{
  set_nick, set_mode_wa, change_host, wa_state_of, set_wa_state, write_nick, take_nick,
  change_nick_of, forward_to, forward_if, forward_cmd,
}
use sms_irc.Insp.Remote.{handle_squit}
use sms_irc.Insp.Consistent.{IsConsistent}

-- What is asked of the irc crate: its Message::new may fail, but does not panic.
abbrev pub NewMessageCalm : {Message : Type 0} → Env Message → Type 0
NewMessageCalm e =
    (prefix : Option String) (cmd : String) (args : List String) (suffix : Option String)
    → is_panic (e.new_message prefix cmd args suffix) ≡ false

abbrev Any : {S : Type 0} → S → Type 0
Any s = Unit {0}

connect-calm : (fs : List Bool) (st : Store) → is_panic (connect_by fs st).0 ≡ false
connect-calm [] st = refl
connect-calm (true ∷ fs) st = refl
connect-calm (false ∷ fs) st = refl

connect-Safe : Safe Any connect
unfolding connect
connect-Safe st p = (tt, connect-calm st.faults st)

module _ {Message : Type 0} where
  push-Safe : (r : Result Message) → is_panic r ≡ false → Safe Any (push r)
  unfolding push send
  push-Safe (ok m) c s p = (tt, refl)
  push-Safe (err x) c s p = (tt, refl)
  push-Safe panic c s p = absurd (ground arith)

  on_store-Safe :
      {A : Type 0} (f : M Store A) → Safe Any f → Safe Any (on_store {Message = Message} f)
  unfolding on_store
  on_store-Safe f h s p = (tt, (h s.store tt).1)

module _ {Message : Type 0} (e : Env Message) (calm : NewMessageCalm e) where
  update_nick-Safe :
      (a : PduAddress) (nick : String) (src : ℤ)
      → Safe Any (on_store {Message = Message} (update_recipient_nick e.libs a nick src))
  unfolding update_recipient_nick
  update_nick-Safe a nick src =
      on_store-Safe (update_recipient_nick e.libs a nick src)
        (bind-Safe Any connect _ connect-Safe (λ u st p. (tt, refl)))

  update_wa-Safe :
      (a : PduAddress) (wa : Bool)
      → Safe Any (on_store {Message = Message} (update_recipient_wa e.libs a wa))
  unfolding update_recipient_wa
  update_wa-Safe a wa =
      on_store-Safe (update_recipient_wa e.libs a wa)
        (bind-Safe Any connect _ connect-Safe (λ u st p. (tt, refl)))

  change_host-Safe : (uid host : String) → Safe Any (change_host e uid host)
  change_host-Safe uid host =
      bind-Safe Any (push (e.new_message (some uid) "FHOST" (host ∷ []) none)) _
        (push-Safe _ (calm _ _ _ _)) (λ u s p. (tt, refl))

  wa_state_of-calm :
      (a : PduAddress) (wa : Bool) (ct : InspContact) (s : InspLink Message)
      → is_panic (wa_state_of e a wa (some ct) s).0 ≡ false
  wa_state_of-calm a wa ct s =
      (bind-Safe Any (on_store (update_recipient_wa e.libs a wa))
        (λ u t. change_host e ct.uuid (host_for_wa wa t) t) (update_wa-Safe a wa)
        (λ u t. change_host-Safe ct.uuid (host_for_wa wa t) t)
        (record s { contacts = adjust a (set_mode_wa wa) s.contacts }) tt).1

  write_nick-calm :
      (a : PduAddress) (ct : InspContact) (nick : String) (src : ℤ) (s : InspLink Message)
      → is_panic (write_nick e a ct nick src s).0 ≡ false
  write_nick-calm a ct nick src s =
      (bind-Safe Any
        (push (e.new_message (some ct.uuid) "NICK" (nick ∷ show_i64 e.timestamp ∷ []) none))
        (λ u. on_store (update_recipient_nick e.libs a nick src)) (push-Safe _ (calm _ _ _ _))
        (λ u. update_nick-Safe a nick src)
        (record s { users = adjust ct.uuid (set_nick nick) s.users }) tt).1

  take_nick-calm :
      (a : PduAddress) (ct : InspContact) (st : String) (src : ℤ) (free : Option String)
      (s : InspLink Message)
      → is_panic (take_nick e a ct st src free s).0 ≡ false
  take_nick-calm a ct st src none s = write_nick-calm a ct st src s
  take_nick-calm a ct st src (some n) s = write_nick-calm a ct n nicksrc_collision s

  change_nick_of-calm :
      (a : PduAddress) (ct : InspContact) (st : String) (src : ℤ) (u : Option InspUser)
      (s : InspLink Message)
      → is_some u ≡ true
      → is_panic (change_nick_of e a ct st src u s).0 ≡ false
  change_nick_of-calm a ct st src none s known = cc
  change_nick_of-calm a ct st src (some u) s known =
      if_intro (λ (r : Result (Unit {0}) × InspLink Message). is_panic r.0 ≡ false) (u.nick == st) _
        _ (λ t. refl) (λ f. take_nick-calm a ct st src (check_nick_for_collisions st s) s)

  set_wa_state-calm :
      (a : PduAddress) (wa : Bool) (ct : InspContact) (s : InspLink Message)
      → lookup a s.contacts ≡ some ct
      → is_panic (set_wa_state e a wa s).0 ≡ false
  unfolding set_wa_state
  set_wa_state-calm a wa ct s h = rw h (wa_state_of-calm a wa ct s)

  forward_to-calm :
      (a : PduAddress) (ct : InspContact) (c : ContactManagerCommand) (s : InspLink Message)
      → IsConsistent s
      → lookup a s.contacts ≡ some ct
      → is_panic (forward_to e a ct c s).0 ≡ false
  forward_to-calm a ct (ContactManagerCommand.update_away text) s p h =
      (push-Safe _ (calm (some ct.uuid) "AWAY" [] text) s tt).1
  forward_to-calm a ct (ContactManagerCommand.change_nick st src) s p h =
      change_nick_of-calm a ct st src (lookup ct.uuid s.users) s (p.known a ct h)
  forward_to-calm a ct (ContactManagerCommand.set_whatsapp wam) s p h =
      let (ct', held, e') =
        lookup-adjust_back (λ c. c.uuid) (set_mode_wa wam) (λ c. refl) a a s.contacts ct h in
      set_wa_state-calm a wam ct' (record s { contacts = adjust a (set_mode_wa wam) s.contacts })
        held
  forward_to-calm a ct ContactManagerCommand.process_messages s p h = refl
  forward_to-calm a ct ContactManagerCommand.process_groups s p h = refl

  forward_if-calm :
      (a : PduAddress) (c : ContactManagerCommand) (ct : Option InspContact) (s : InspLink Message)
      → IsConsistent s
      → lookup a s.contacts ≡ ct
      → is_panic (forward_if e a c ct s).0 ≡ false
  forward_if-calm a c none s p h = refl
  forward_if-calm a c (some ct) s p h = forward_to-calm a ct c s p h

  -- Where the maps are consistent, forwarding a command to a contact does not panic, whether or not there
  -- is one with the address, and whatever the database and the making of messages answer, if the latter
  -- does not panic itself.
  pub forward_cmd-calm :
      (a : PduAddress) (c : ContactManagerCommand) (s : InspLink Message)
      → IsConsistent s
      → is_panic (forward_cmd e a c s).0 ≡ false
  unfolding forward_cmd
  forward_cmd-calm a c s p = forward_if-calm a c (lookup a s.contacts) s p refl

-- A SQUIT that takes away the user of a contact leaves the contact, and changing its nick then panics.
pub change_nick-handle_squit :
    {Message : Type 0} (e : Env Message) (server nick : String) (src : ℤ) (a : PduAddress)
    (ct : InspContact) (s : InspLink Message)
    → lookup a s.contacts ≡ some ct
    → starts_with ct.uuid server ≡ true
    → (forward_cmd e a (ContactManagerCommand.change_nick nick src) (handle_squit e server s).1).0
      ≡ panic
unfolding forward_cmd handle_squit
change_nick-handle_squit e server nick src a ct s h split =
    let gone : lookup ct.uuid (keep_keys (λ k. not (starts_with k server)) s.users) ≡ none =
      ground (arith, lookup-keep_keys (λ k. not (starts_with k server)) ct.uuid s.users) in
    rw (h, gone) refl
