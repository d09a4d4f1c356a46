-- ===== src/Insp/Groups.antt =====
-- src/insp_s2s.rs: the channels that the contacts are in, as the groups in the database say.
use sms_irc.Base.{
  ℕ, String, not, ◌&&◌, ◌||◌, List, [], ◌∷◌, ◌++◌, map, Option, none, some, ok, M, ◌>>=◌, ◌>>◌,
  pure, done, panics, modify, for_each, if◌then◌else◌, ◌==◌, String_Eq, ℕ_Eq, contains, lookup,
  insert, adjust,
}
use sms_irc.Extern.{PduAddress, PduAddress_Eq}
use sms_irc.Models.{Recipient, Group, recipient_addr}
use sms_irc.Sender.{lift}
use sms_irc.Store.{get_groups_for_recipient, get_all_groups, get_recipient_by_id_opt}
use sms_irc.Insp.{InspLink, InspContact, Env, push, on_store}

abbrev pub set_insert : String → List String → List String
set_insert ch chans = if contains chans ch then chans else chans ++ ch ∷ []

-- `entry(channel).or_insert("")`, and what it holds then
abbrev pub topic_of : Option String → String
topic_of none = ""
topic_of (some topic) = topic

module _ {Message : Type 0} (e : Env Message) where
  abbrev pub join_channel : String → String → M (InspLink Message) (Unit {0})
  join_channel uuid ch = push (e.new_message (some uuid) "JOIN" (ch ∷ []) none)

  abbrev pub part_channel : String → String → M (InspLink Message) (Unit {0})
  part_channel uuid ch = push (e.new_message (some uuid) "PART" (ch ∷ []) (some "Left group"))

  -- The first loop; `chans` is what it has pushed.
  unfoldable pub join_groups :
      String → List Group → List String → M (InspLink Message) (List String)
  join_groups uuid [] chans = pure chans
  join_groups uuid (grp ∷ groups) chans = do
    join_channel uuid grp.channel
    modify λ s. record s { channels = set_insert grp.channel s.channels }
    join_groups uuid groups (chans ++ grp.channel ∷ [])

  abbrev pub join_log : String → List String → M (InspLink Message) (List String)
  join_log uuid chans s =
      if contains chans s.cfg.log_chan
      then (ok chans, s)
      else (join_channel uuid s.cfg.log_chan >> pure (chans ++ s.cfg.log_chan ∷ [])) s

  abbrev pub set_channels : PduAddress → List String → M (InspLink Message) (Unit {0})
  set_channels a chans s =
      (ok tt, record s { contacts = adjust a (λ ct. record ct { channels = chans }) s.contacts })

  unfoldable pub part_left : String → List String → List String → M (InspLink Message) (Unit {0})
  part_left uuid old chans =
      for_each old λ ch. if contains chans ch then done else part_channel uuid ch

  abbrev pub update_channels : PduAddress → Option InspContact → M (InspLink Message) (Unit {0})
  update_channels a none = panics
  update_channels a (some ct) = do
    groups ← on_store (get_groups_for_recipient e.libs a)
    joined ← join_groups ct.uuid groups []
    chans ← join_log ct.uuid joined
    set_channels a chans
    part_left ct.uuid ct.channels chans

  unfoldable pub process_groups_for_recipient : PduAddress → M (InspLink Message) (Unit {0})
  process_groups_for_recipient a s = update_channels a (lookup a s.contacts) s

  abbrev pub set_mode : Group → ℕ → Option InspContact → M (InspLink Message) (Unit {0})
  set_mode grp part none s = (ok tt, s)
  set_mode grp part (some ct) s =
      let mode = if contains grp.admins part then "+o" else "-o" in
      push (e.new_message (some s.cfg.sid) "MODE" (grp.channel ∷ mode ∷ ct.uuid ∷ []) none) s

  abbrev pub mode_for : Group → ℕ → Option Recipient → M (InspLink Message) (Unit {0})
  mode_for grp part none = done
  mode_for grp part (some recip) = do
    num ← lift (recipient_addr e.libs recip)
    λ s. set_mode grp part (lookup num s.contacts) s

  abbrev pub set_participant : Group → ℕ → M (InspLink Message) (Unit {0})
  set_participant grp part = on_store (get_recipient_by_id_opt part) >>= mode_for grp part

  abbrev pub write_topic : Group → String → M (InspLink Message) (Unit {0})
  write_topic grp topic s =
      if (topic == "") || (s.cfg.clobber_topics && not (topic == grp.topic))
      then (push (e.new_message (some s.cfg.sid) "TOPIC" (grp.channel ∷ []) (some grp.topic))
            >> modify
                λ t. record t { channel_topics = insert grp.channel grp.topic t.channel_topics })
          s
      else (ok tt, s)

  unfoldable pub set_topic : Group → M (InspLink Message) (Unit {0})
  set_topic grp s =
      let topic = topic_of (lookup grp.channel s.channel_topics) in
      if s.cfg.set_topics
      then write_topic grp topic
          (record s { channel_topics = insert grp.channel topic s.channel_topics })
      else (ok tt, s)

  unfoldable pub process_group : Group → M (InspLink Message) (Unit {0})
  process_group grp = for_each grp.participants (set_participant grp) >> set_topic grp

  abbrev pub contact_addresses : InspLink Message → List PduAddress
  contact_addresses s = map (λ p. p.0) s.contacts

  unfoldable pub process_groups : M (InspLink Message) (Unit {0})
  process_groups = do
    modify λ s. record s { channels = [] }
    λ s. for_each (contact_addresses s) process_groups_for_recipient s
    groups ← on_store get_all_groups
    for_each groups process_group
