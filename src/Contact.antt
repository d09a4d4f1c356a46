-- ===== src/Contact.antt =====
-- src/contact.rs: a contact's own connection to an IRC server, what it sends there, and what it does
-- with the commands of the contact factory.
pub mod Remote
pub mod Keeps
pub mod Quiet
use sms_irc.Base.{
  ℕ, String, Bool, true, false, not, List, [], ◌∷◌, ◌++◌, Option, none, some, Result, ok, err,
  panic, M, ◌>>=◌, ◌>>◌, pure, done, modify, for_each, if◌then◌else◌, ◌<>◌, contains, String_Eq, ℤ,
}
use sms_irc.Extern.{Libs, PduAddress}
use sms_irc.Models.{Group, Recipient}
use sms_irc.Models
use sms_irc.Comm.{WhatsappCommand, ModemCommand, ContactManagerCommand}
use sms_irc.Sender.{Sender, Clock, lift, process_msg_pdu, process_msg_plain}
use sms_irc.Store.{
  Store, get_groups_for_recipient, get_messages_for_recipient, update_recipient_wa,
  update_recipient_nick,
}

-- What a contact sends to its server; `identify` is the irc crate's login.
pub data Sent : Type 0 where
  webirc : List String → Sent
  identify : Sent
  notice privmsg : String → String → Sent
  join part nick watch : String → Sent
  away : Option String → Sent

-- `sent` holds what the irc client has taken, oldest first, and `answers` what it says to the coming
-- messages; it takes those beyond their end. `rx` holds the commands that are queued, and `wa` and `m`
-- what was sent on wa_tx and modem_tx.
pub record ContactManager : Type 0 where
  pub sent : List Sent
  pub answers : List (Result (Unit {0}))
  pub admin : String
  pub nick : String
  pub addr : PduAddress
  pub store : Store
  pub id : Bool
  pub wa_mode : Bool
  pub admin_is_online : Bool
  pub connected : Bool
  pub presence : Option String
  pub channels : List String
  pub webirc_password : Option String
  pub wa : List WhatsappCommand
  pub m : List ModemCommand
  pub rx : List ContactManagerCommand

-- The contact that `new` makes of a recipient when its client has connected, under the nick that the
-- client has got.
unfoldable pub new :
    String → Option String → String → PduAddress → Recipient → Store → ContactManager
new admin webirc_password current_nickname addr recip store = record {
  sent = [];
  answers = [];
  admin = admin;
  nick = current_nickname;
  addr = addr;
  store = store;
  id = false;
  wa_mode = recip.whatsapp;
  admin_is_online = true;
  connected = false;
  presence = none;
  channels = [];
  webirc_password = webirc_password;
  wa = [];
  m = [];
  rx = [];
}

abbrev answered : Sent → List (Result (Unit {0})) → M ContactManager (Unit {0})
answered msg [] s = (ok tt, record s { sent = s.sent ++ msg ∷ [] })
answered msg (ok u ∷ rest) s = (ok tt, record s { sent = s.sent ++ msg ∷ []; answers = rest })
answered msg (err e ∷ rest) s = (err e, record s { answers = rest })
answered msg (panic ∷ rest) s = (panic, record s { answers = rest })

-- `self.irc.0.send(…)?`
unfoldable pub send : Sent → M ContactManager (Unit {0})
send msg s = answered msg s.answers s

-- `self.store.f(…)?`
unfoldable pub on_store : {A : Type 0} → M Store A → M ContactManager A
on_store f s = let (r, st) = f s.store in (r, record s { store = st })

unfoldable pub add_command : ContactManagerCommand → ContactManager → ContactManager
add_command cmd s = record s { rx = s.rx ++ cmd ∷ [] }

-- `ensure_joined` is the trait's own.
abbrev pub sender : Sender ContactManager
sender = record {
  report_error = λ from_nick text s. send (Sent.notice s.admin text) s;
  store = λ s. s.store;
  with_store = λ st s. record s { store = st };
  private_target = λ s. (ok s.admin, s);
  send_irc_message = λ from_nick to msg. send (Sent.privmsg to msg);
  ensure_joined = λ ch. done;
}

unfoldable pub join_groups : List Group → List String → M ContactManager (List String)
join_groups [] chans = pure chans
join_groups (grp ∷ groups) chans = do
  send (Sent.join grp.channel)
  join_groups groups (chans ++ grp.channel ∷ [])

abbrev pub part_left : List String → List String → M ContactManager (Unit {0})
part_left old chans = for_each old λ ch. if contains chans ch then done else send (Sent.part ch)

abbrev pub change_channels : List String → M ContactManager (Unit {0})
change_channels chans s = part_left s.channels chans (record s { channels = chans })

abbrev pub mode_notice : Bool → String
mode_notice true = "Notice: WhatsApp mode automatically enabled."
mode_notice false = "Notice: SMS mode automatically enabled."

unfoldable pub update_away : M ContactManager (Unit {0})
update_away s = if s.connected then send (Sent.away s.presence) s else (ok tt, s)

unfoldable pub initialize_watch : M ContactManager (Unit {0})
initialize_watch s = send (Sent.watch ("+" <> s.admin)) s

module _ (l : Libs) (k : Clock) where
  abbrev pub follow_groups : M ContactManager (Unit {0})
  follow_groups s =
      (do
        groups ← on_store (get_groups_for_recipient l s.addr)
        chans ← join_groups groups []
        change_channels chans)
        s

  unfoldable pub process_groups : M ContactManager (Unit {0})
  process_groups s = if s.connected then follow_groups s else (ok tt, s)

  abbrev pub enter_mode : Bool → M ContactManager (Unit {0})
  enter_mode mode s =
      (do
        on_store (update_recipient_wa l s.addr mode)
        λ t. send (Sent.notice t.admin (mode_notice mode)) t)
        (record s { wa_mode = mode })

  unfoldable pub switch_mode : Bool → M ContactManager (Unit {0})
  switch_mode true s = if s.wa_mode then (ok tt, s) else enter_mode true s
  switch_mode false s = if s.wa_mode then enter_mode false s else (ok tt, s)

  abbrev pub process_by : Models.Message → Option (List ℕ) → M ContactManager (Unit {0})
  process_by msg (some bytes) = do
    pdu ← lift (l.parse_pdu bytes)
    switch_mode false
    process_msg_pdu l k sender "" msg pdu
  process_by msg none = do switch_mode true; process_msg_plain l k sender "" msg

  abbrev pub process_all : M ContactManager (Unit {0})
  process_all s =
      (do
        msgs ← on_store (get_messages_for_recipient l s.addr)
        for_each msgs λ msg. process_by msg msg.pdu)
        s

  unfoldable pub process_messages : M ContactManager (Unit {0})
  process_messages s =
      if not s.connected
      then (ok tt, s)
      else if not s.admin_is_online
      then (ok tt, s)
      else process_all s

  unfoldable pub change_nick : String → ℤ → M ContactManager (Unit {0})
  change_nick new src s =
      (do on_store (update_recipient_nick l s.addr new src); send (Sent.nick new)) s

  abbrev pub set_whatsapp : Bool → M ContactManager (Unit {0})
  set_whatsapp wam s = on_store (update_recipient_wa l s.addr wam) (record s { wa_mode = wam })

  unfoldable pub handle_int_rx : ContactManagerCommand → M ContactManager (Unit {0})
  handle_int_rx ContactManagerCommand.process_messages = process_messages
  handle_int_rx ContactManagerCommand.process_groups = process_groups
  handle_int_rx (ContactManagerCommand.update_away msg) =
      modify (λ s. record s { presence = msg }) >> update_away
  handle_int_rx (ContactManagerCommand.change_nick new src) = change_nick new src
  handle_int_rx (ContactManagerCommand.set_whatsapp wam) = set_whatsapp wam
