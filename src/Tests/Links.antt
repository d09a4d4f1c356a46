-- ===== src/Tests/Links.antt =====
-- src/insp_s2s.rs, insp_user.rs: the theorems at a link of the server 0SM with one contact.
use mathlib.Core.List.{Perm}
use sms_irc.Base.{
  ◌+◌, List, length, Distinct, All, len, err, ◌≡◌, refl, sym, subst, ◌∙◌, String_Eq, String, show,
  lookup-one, true, false, [], ◌∷◌, ◌++◌, none, some, pos, ok, arith, Result, is_panic, lookup,
  is_some,
}
use sms_irc.Extern.{PduAddress, PduAddress_Eq}
use sms_irc.Comm.{ContactManagerCommand, ControlBotCommand, ContactFactoryCommand}
use sms_irc.InspUser.{InspUser, new_from_uid_line}
use sms_irc.InspUser.Line.{new_from_uid_line-uid_args}
use sms_irc.Insp.{InspConfig, InspContact, InspLink, Env, Command, LinkState, new, push, send}
use sms_irc.Insp.Commands.{handle_cb_command, handle_cf_command}
use sms_irc.Insp.Users.{
  uid_args, uuid_of, nick_exists, check_nick_for_collisions, get_uuid, zeros, pad5,
}
use sms_irc.Insp.Holder.{new_contact, forward_cmd}
use sms_irc.Insp.Poll.{Received, poll, drain_cb, drain_cf, drain}
use sms_irc.Insp.Remote.{handle_squit}
use sms_irc.Insp.Consistent.{IsConsistent}
use sms_irc.Insp.Consistent.Kept.{poll-IsConsistent}
use sms_irc.Insp.Handshake.{IsOutside, poll-IsOutside}
use sms_irc.Insp.Calm.{forward_cmd-calm, change_nick-handle_squit}
use sms_irc.Insp.Nicks.{chosen, nick_exists-check_nick_for_collisions}
use sms_irc.Insp.Uuids.{ask, ask-Distinct}
use sms_irc.Insp.Queues.{drain_empty}
use sms_irc.Util.Outbox.{sink, sink-flushed}
use sms_irc.Tests.World.{libs, address, store}

abbrev env : Env String
env = record {
  libs = libs;
  clock = record { now = 0; local_date = λ n. "date"; local_time = λ n. "time" };
  timestamp = pos 7;
  new_message = λ prefix cmd args suffix. ok cmd;
  parse_message = λ text. ok text;
  info = true;
  debug = λ text. text;
  debug_user = λ user. "user";
}

abbrev cfg : InspConfig
cfg = record {
  sid = "0SM";
  control_nick = "control";
  admin_nick = "admin";
  sendpass = "out";
  recvpass = "in";
  server_desc = "bridge";
  server_name = "sms.example";
  log_chan = "#log";
  set_topics = true;
  clobber_topics = false;
  ensure_joined = true;
}

abbrev ann : InspUser
ann = record {
  ts = pos 7;
  nick = "Ann";
  hostname = "s.sms.example";
  displayed_hostname = "s.sms.example";
  ident = "S441234";
  ip = "0.0.0.0";
  signon_time = pos 7;
  modes = "+i";
  gecos = "+441234";
  ours = true;
}

abbrev fresh : InspLink String
fresh = new cfg store

abbrev link : InspLink String
link = record {
  cfg = cfg;
  control_uuid = "0SMA00000";
  next_user_id = 2;
  remote_sid = "1AB";
  cf = ContactFactoryCommand.load_recipients ∷ [];
  cb = ControlBotCommand.log "line" ∷ [];
  wa = [];
  m = [];
  users = ("0SMZ00001", ann) ∷ [];
  contacts = (address, new_contact "0SMZ00001" true) ∷ [];
  contacts_uuid_pdua = ("0SMZ00001", address) ∷ [];
  channel_topics = [];
  store = store;
  outbox = [];
  channels = [];
  state = LinkState.linked;
}

first_uuid : "0SMZ00001" ≡ uuid_of "0SM" 1
unfolding uuid_of pad5 zeros show
first_uuid = refl

abbrev contact : InspContact
contact = new_contact "0SMZ00001" true

only_contact :
    (a : PduAddress) (ct : InspContact)
    → lookup a link.contacts ≡ some ct
    → (address ≡ a) × (contact ≡ ct)
only_contact a ct h = lookup-one address a contact ct h

only_uuid :
    (uuid : String) (a : PduAddress)
    → lookup uuid link.contacts_uuid_pdua ≡ some a
    → ("0SMZ00001" ≡ uuid) × (address ≡ a)
only_uuid uuid a h = lookup-one "0SMZ00001" uuid address a h

link-IsConsistent : IsConsistent link
link-IsConsistent = record {
  forward = λ a ct h.
      let (at, is) = only_contact a ct h in
      subst (λ c. lookup c.uuid link.contacts_uuid_pdua ≡ some a) is
        (subst (λ b. some address ≡ some b) at refl);
  backward = λ uuid a h.
      let (is, at) = only_uuid uuid a h in
      (contact, subst (λ b. lookup b link.contacts ≡ some contact) at refl, is);
  known =
      λ a ct h. subst (λ c. is_some (lookup c.uuid link.users) ≡ true) (only_contact a ct h).1 refl;
  given = λ uuid a h. (1, omega arith, sym (only_uuid uuid a h).0 ∙ first_uuid);
  once = (refl, tt);
}

abbrev admin_leaves : Received
admin_leaves = Received.message (record { prefix = some "1ABAAAAAB"; command = Command.quit none })

abbrev ghost_killed : Received
ghost_killed =
    Received.message
      (record { prefix = some "1ABAAAAAB"; command = Command.kill "0SMZ00001" "bye" })

poll-IsConsistent_example :
    IsConsistent (poll env (admin_leaves ∷ ghost_killed ∷ []) (ok true ∷ []) (ok tt) link).1
poll-IsConsistent_example =
    poll-IsConsistent "0SM" env (admin_leaves ∷ ghost_killed ∷ []) (ok true ∷ []) (ok tt) link
      (λ server h n. absurd (ground arith), (λ server h n. absurd (ground arith), tt)) refl
      link-IsConsistent

poll-IsOutside_example :
    IsOutside cfg (poll env (admin_leaves ∷ ghost_killed ∷ []) [] (ok tt) fresh).1
unfolding new
poll-IsOutside_example =
    poll-IsOutside cfg env (admin_leaves ∷ ghost_killed ∷ []) [] (ok tt) fresh (refl, (refl, tt))
      (refl, refl, refl)

forward_cmd-calm_example :
    is_panic (forward_cmd env address (ContactManagerCommand.change_nick "Bea" (pos 1)) link).0
    ≡ false
forward_cmd-calm_example =
    forward_cmd-calm env (λ prefix cmd args suffix. refl) address
      (ContactManagerCommand.change_nick "Bea" (pos 1)) link link-IsConsistent

change_nick-handle_squit_example :
    (forward_cmd env address
      (ContactManagerCommand.change_nick "Bea" (pos 1))
      (handle_squit env "0SM" link).1).0
    ≡ Result.panic
change_nick-handle_squit_example =
    change_nick-handle_squit env "0SM" "Bea" (pos 1) address contact link refl refl

nick_exists-check_nick_for_collisions_example :
    nick_exists (chosen "Ann" (check_nick_for_collisions "Ann" link)) link ≡ false
nick_exists-check_nick_for_collisions_example = nick_exists-check_nick_for_collisions link "Ann"

new_from_uid_line-uid_args_example :
    new_from_uid_line (λ text. text) (uid_args "0SMZ00001" ann) (some "+441234")
    ≡ ok ("0SMZ00001", record ann { ours = false })
new_from_uid_line-uid_args_example =
    new_from_uid_line-uid_args (λ text. text) "0SMZ00001" ann (omega arith) (omega arith)

abbrev last_two : InspLink String
last_two = record link { next_user_id = 99998 }

ask-Distinct_example :
    let t = record last_two { next_user_id = 100000 } in
    (ids : List String) × (ask 2 last_two ≡ (ok ids, t))
    × (length ids ≡ 2)
    × Distinct (λ (u : String). u) ids
    × All (λ u. len u ≡ len last_two.cfg.sid + 6) ids
    × (get_uuid t ≡ (err "UUIDs exhausted", t))
ask-Distinct_example = ask-Distinct 2 last_two refl

drain_empty_example : ((drain_cb env link).1.cb ≡ []) × ((drain_cf env link).1.cf ≡ [])
unfolding drain handle_cb_command handle_cf_command push send
drain_empty_example = drain_empty env link refl refl

sink-flushed_example :
    Perm {A = String}
      ((sink ("a" ∷ "b" ∷ "c" ∷ []) (ok true ∷ ok false ∷ ok true ∷ []) (ok tt)).sent
        ++ (sink ("a" ∷ "b" ∷ "c" ∷ []) (ok true ∷ ok false ∷ ok true ∷ []) (ok tt)).kept)
      ("a" ∷ "b" ∷ "c" ∷ [])
unfolding sink
sink-flushed_example =
    sink-flushed ("a" ∷ "b" ∷ "c" ∷ []) (ok true ∷ ok false ∷ ok true ∷ []) (ok tt) refl
