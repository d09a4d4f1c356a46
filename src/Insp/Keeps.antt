-- ===== src/Insp/Keeps.antt =====
-- src/insp_s2s.rs: what every handler keeps, once the few writes that the handlers are made of keep it.
pub mod Remote
pub mod Commands
pub mod Writes
pub mod Contacts
use text.Mathlib.Text.{starts_with}
use sms_irc.Base.{
  ℕ, ◌+◌, String, Bool, true, false, not, ◌&&◌, ◌||◌, List, [], ◌∷◌, ◌++◌, map, Option, none, some,
  ℤ, Result, ok, err, panic, M, ◌>>=◌, ◌>>◌, pure, done, modify, for_each, lines, ltb,
  if◌then◌else◌, if_intro, ◌≡◌, refl, ◌==◌, String_Eq, is_none, is_some, lookup, insert, erase,
  adjust, contains, show_i64, Keeps, bind-Keeps, seq-Keeps, for_each-Keeps, Option-cases, inl, inr,
  subst, sym,
}
use sms_irc.Extern.{PduAddress, PduAddress_Eq}
use sms_irc.Models
use sms_irc.Models.{Recipient, Group, recipient_addr, message_addr}
use sms_irc.Store.{
  Store, get_groups_for_recipient, get_all_groups, get_recipient_by_id_opt, get_all_messages,
  update_recipient_wa, update_recipient_nick,
}
use sms_irc.Sender.{lift}
use sms_irc.InspUser.{InspUser}
use sms_irc.Insp.{InspLink, InspContact, Env, send, push, on_store, send_sid_line, is_linked}
use sms_irc.Insp.Users.{uuid_of, max_user_id, contact_message, make_uid_line, announce, add_user}
use sms_irc.Insp.Groups.{
  set_insert, topic_of, join_channel, join_groups, join_log, set_channels, part_left,
  update_channels, process_groups_for_recipient, set_mode, mode_for, set_participant, write_topic,
  set_topic, process_group, process_groups, contact_addresses,
}

-- The writes to the outbox, to the database, to the channels and to the contacts' modes.
pub record KeepsQuiet {ℓ} {Message : Type 0} (P : InspLink Message → Type ℓ) : Type ℓ where
  pub outbox : (o : List Message) (s : InspLink Message) → P s → P (record s { outbox = o })
  pub stored : (st : Store) (s : InspLink Message) → P s → P (record s { store = st })
  pub channels : (c : List String) (s : InspLink Message) → P s → P (record s { channels = c })
  pub topics :
      (t : List (String × String)) (s : InspLink Message)
      → P s
      → P (record s { channel_topics = t })
  pub contact :
      (a : PduAddress) (f : InspContact → InspContact)
      → ((ct : InspContact) → (f ct).uuid ≡ ct.uuid)
      → (s : InspLink Message) → P s
      → P (record s { contacts = adjust a f s.contacts })

module _ {ℓ} {Message : Type 0} (P : InspLink Message → Type ℓ) (q : KeepsQuiet P) where
  pub push-Keeps : (r : Result Message) → Keeps P (push r)
  unfolding push
  push-Keeps (ok m) s p = q.outbox (s.outbox ++ m ∷ []) s p
  push-Keeps (err e) s p = p
  push-Keeps panic s p = p

  pub on_store-Keeps : {A : Type 0} (f : M Store A) → Keeps P (on_store f)
  unfolding on_store
  on_store-Keeps f s p = q.stored (f s.store).1 s p

  pub lift-Keeps : {A : Type 0} (r : Result A) → Keeps P (lift {S = InspLink Message} r)
  lift-Keeps r s p = p

  module _ (e : Env Message) where
    pub send_sid_line-Keeps :
        (cmd : String) (args : List String) (suffix : Option String)
        → Keeps P (send_sid_line e cmd args suffix)
    unfolding send_sid_line
    send_sid_line-Keeps cmd args suffix s =
        push-Keeps (e.new_message (some s.cfg.sid) cmd args suffix) s

    pub contact_message-Keeps :
        (uid kind target text : String) → Keeps P (contact_message e uid kind target text)
    unfolding contact_message
    contact_message-Keeps uid kind target text s p =
        let Kept : Result (Unit {0}) × InspLink Message → Type ℓ = λ r. P r.1 in
        if_intro Kept (is_none (lookup uid s.users)) _ _ (λ t. p)
          λ f.
            if_intro Kept (not (starts_with uid s.cfg.sid)) _ _ (λ t. p)
              (λ g. push-Keeps (e.new_message (some uid) kind (target ∷ []) (some text)) s p)

    join_groups-Keeps :
        (uuid : String) (groups : List Group) (chans : List String)
        → Keeps P (join_groups e uuid groups chans)
    unfolding join_groups
    join_groups-Keeps uuid [] chans s p = p
    join_groups-Keeps uuid (g ∷ groups) chans s p =
        seq-Keeps P (join_channel e uuid g.channel) _ (push-Keeps _)
          (λ t h.
            join_groups-Keeps uuid groups (chans ++ g.channel ∷ []) _
              (q.channels (set_insert g.channel t.channels) t h))
          s p

    join_log-Keeps : (uuid : String) (chans : List String) → Keeps P (join_log e uuid chans)
    join_log-Keeps uuid chans s p =
        if_intro (λ (r : Result (List String) × InspLink Message). P r.1)
          (contains chans s.cfg.log_chan) _ _ (λ t. p)
          (λ f.
            seq-Keeps P (join_channel e uuid s.cfg.log_chan) (pure _) (push-Keeps _) (λ t h. h) s p)

    part_left-Keeps :
        (uuid : String) (old chans : List String) → Keeps P (part_left e uuid old chans)
    unfolding part_left
    part_left-Keeps uuid old chans =
        for_each-Keeps P _
          (λ ch. if_intro (Keeps P) (contains chans ch) _ _ (λ t s p. p) (λ f. push-Keeps _)) old

    update_channels-Keeps :
        (a : PduAddress) (ct : Option InspContact) → Keeps P (update_channels e a ct)
    update_channels-Keeps a none s p = p
    update_channels-Keeps a (some ct) s p =
        bind-Keeps P (on_store (get_groups_for_recipient e.libs a)) _
          (on_store-Keeps (get_groups_for_recipient e.libs a))
          (λ groups.
            bind-Keeps P (join_groups e ct.uuid groups []) _ (join_groups-Keeps ct.uuid groups [])
              λ joined.
                bind-Keeps P (join_log e ct.uuid joined) _ (join_log-Keeps ct.uuid joined) λ chans.
                  seq-Keeps P (set_channels e a chans) (part_left e ct.uuid ct.channels chans)
                    (q.contact a (λ c. record c { channels = chans }) (λ c. refl))
                    (part_left-Keeps ct.uuid ct.channels chans))
          s p

    pub process_groups_for_recipient-Keeps :
        (a : PduAddress) → Keeps P (process_groups_for_recipient e a)
    unfolding process_groups_for_recipient
    process_groups_for_recipient-Keeps a s = update_channels-Keeps a (lookup a s.contacts) s

    set_mode-Keeps :
        (grp : Group) (part : ℕ) (ct : Option InspContact) → Keeps P (set_mode e grp part ct)
    set_mode-Keeps grp part none s p = p
    set_mode-Keeps grp part (some ct) s p = push-Keeps _ s p

    mode_for-Keeps :
        (grp : Group) (part : ℕ) (r : Option Recipient) → Keeps P (mode_for e grp part r)
    mode_for-Keeps grp part none s p = p
    mode_for-Keeps grp part (some recip) s p =
        bind-Keeps P (lift (recipient_addr e.libs recip)) _
          (lift-Keeps (recipient_addr e.libs recip))
          (λ num t. set_mode-Keeps grp part (lookup num t.contacts) t) s p

    set_participant-Keeps : (grp : Group) (part : ℕ) → Keeps P (set_participant e grp part)
    set_participant-Keeps grp part =
        bind-Keeps P (on_store (get_recipient_by_id_opt part)) (mode_for e grp part)
          (on_store-Keeps (get_recipient_by_id_opt part)) (mode_for-Keeps grp part)

    write_topic-Keeps : (grp : Group) (topic : String) → Keeps P (write_topic e grp topic)
    write_topic-Keeps grp topic s p =
        if_intro (λ (r : Result (Unit {0}) × InspLink Message). P r.1)
          ((topic == "") || (s.cfg.clobber_topics && not (topic == grp.topic))) _ _
          (λ t.
            seq-Keeps P
              (push (e.new_message (some s.cfg.sid) "TOPIC" (grp.channel ∷ []) (some grp.topic))) _
              (push-Keeps _) (λ u h. q.topics (insert grp.channel grp.topic u.channel_topics) u h) s
              p)
          (λ f. p)

    set_topic-Keeps : (grp : Group) → Keeps P (set_topic e grp)
    unfolding set_topic
    set_topic-Keeps grp s p =
        if_intro (λ (r : Result (Unit {0}) × InspLink Message). P r.1) s.cfg.set_topics _ _
          (λ t. write_topic-Keeps grp _ _ (q.topics _ s p)) (λ f. p)

    process_group-Keeps : (grp : Group) → Keeps P (process_group e grp)
    unfolding process_group
    process_group-Keeps grp =
        seq-Keeps P (for_each grp.participants (set_participant e grp)) (set_topic e grp)
          (for_each-Keeps P (set_participant e grp) (set_participant-Keeps grp) grp.participants)
          (set_topic-Keeps grp)

    pub process_groups-Keeps : Keeps P (process_groups e)
    unfolding process_groups
    process_groups-Keeps s p =
        seq-Keeps P (λ t. for_each (contact_addresses e t) (process_groups_for_recipient e) t) _
          (λ t.
            for_each-Keeps P (process_groups_for_recipient e) process_groups_for_recipient-Keeps
              (contact_addresses e t) t)
          (bind-Keeps P (on_store get_all_groups) _ (on_store-Keeps get_all_groups)
            (λ groups. for_each-Keeps P (process_group e) process_group-Keeps groups))
          (record s { channels = [] }) (q.channels [] s p)
