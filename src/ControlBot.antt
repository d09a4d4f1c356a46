-- ===== src/ControlBot.antt =====
-- src/control.rs: the bot in the administrator's channel, with its queue of log lines.
pub mod Backlog
use sms_irc.Base.{
  String, Bool, true, false, List, [], ◌∷◌, ◌++◌, Option, none, some, Result, ok, err, panic, M,
  ◌>>=◌, ◌>>◌, pure, done, fail, modify, for_each, if◌then◌else◌, ◌<>◌, contains, ◌==◌, String_Eq,
}
use sms_irc.Extern.{Libs}
use sms_irc.Models.{Group}
use sms_irc.Comm.{WhatsappCommand, ModemCommand, ContactFactoryCommand, ControlBotCommand}
use sms_irc.Control.{ControlCommon, process_admin_command}
use sms_irc.Store.{Store, get_all_groups}
use sms_irc.Contact.{Sent}
use sms_irc.Contact.Remote.{Command, Message, Received, sender_of}

-- `sent` holds what the irc client has taken, oldest first, and `answers` what it says to the coming
-- messages; it takes those beyond their end. `rx` holds what is queued, and `cf`, `wa` and `m` what was
-- sent on the three channels.
pub record ControlBot : Type 0 where
  pub sent : List Sent
  pub answers : List (Result (Unit {0}))
  pub chan : String
  pub admin : String
  pub channels : List String
  pub log_backlog : List String
  pub store : Store
  pub id : Bool
  pub connected : Bool
  pub webirc_password : Option String
  pub rx : List ControlBotCommand
  pub cf : List ContactFactoryCommand
  pub wa : List WhatsappCommand
  pub m : List ModemCommand

-- The bot that `new` makes when its client has connected.
unfoldable pub new : String → String → Option String → Store → ControlBot
new chan admin webirc_password store = record {
  sent = [];
  answers = [];
  chan = chan;
  admin = admin;
  channels = [];
  log_backlog = [];
  store = store;
  id = false;
  connected = false;
  webirc_password = webirc_password;
  rx = [];
  cf = [];
  wa = [];
  m = [];
}

abbrev pub answered : Sent → List (Result (Unit {0})) → M ControlBot (Unit {0})
answered msg [] s = (ok tt, record s { sent = s.sent ++ msg ∷ [] })
answered msg (ok u ∷ rest) s = (ok tt, record s { sent = s.sent ++ msg ∷ []; answers = rest })
answered msg (err e ∷ rest) s = (err e, record s { answers = rest })
answered msg (panic ∷ rest) s = (panic, record s { answers = rest })

-- `self.irc.0.send(…)?`
unfoldable pub send : Sent → M ControlBot (Unit {0})
send msg s = answered msg s.answers s

abbrev on_store : {A : Type 0} → M Store A → M ControlBot A
on_store f s = let (r, st) = f s.store in (r, record s { store = st })

abbrev pub wa_push : WhatsappCommand → M ControlBot (Unit {0})
wa_push c s = (ok tt, record s { wa = s.wa ++ c ∷ [] })

unfoldable pub control_response : String → M ControlBot (Unit {0})
control_response msg s = send (Sent.notice s.admin msg) s

-- `process_insp` is the trait's own.
abbrev pub control : ControlCommon ControlBot
control = record {
  wa_send = wa_push;
  cf_send = λ c s. (ok tt, record s { cf = s.cf ++ c ∷ [] });
  m_send = λ c s. (ok tt, record s { m = s.m ++ c ∷ [] });
  process_insp = λ ic. pure false;
  control_response = control_response;
}

unfoldable pub join_groups : List Group → List String → M ControlBot (List String)
join_groups [] chans = pure chans
join_groups (grp ∷ groups) chans = do
  send (Sent.join grp.channel)
  join_groups groups (chans ++ grp.channel ∷ [])

abbrev pub part_left : List String → List String → M ControlBot (Unit {0})
part_left old chans = for_each old λ ch. if contains chans ch then done else send (Sent.part ch)

abbrev pub change_channels : List String → M ControlBot (Unit {0})
change_channels chans s = part_left s.channels chans (record s { channels = chans })

unfoldable pub process_groups : M ControlBot (Unit {0})
process_groups = do
  groups ← on_store get_all_groups
  chans ← join_groups groups []
  change_channels chans

abbrev pub say : String → String → M ControlBot (Unit {0})
say chan log = send (Sent.notice chan log)

-- `drain(0..)` empties the backlog also when a line cannot be sent.
unfoldable pub clear_log_backlog : M ControlBot (Unit {0})
clear_log_backlog s = for_each s.log_backlog (say s.chan) (record s { log_backlog = [] })

unfoldable pub handle_int_rx : ControlBotCommand → M ControlBot (Unit {0})
handle_int_rx (ControlBotCommand.log line) s =
    if s.connected
    then say s.chan line s
    else (ok tt, record s { log_backlog = s.log_backlog ++ line ∷ [] })
handle_int_rx (ControlBotCommand.report_failure text) s =
    send (Sent.privmsg s.admin (s.admin <> ": \u{2}\u{3}04" <> text <> "\u{f}")) s
handle_int_rx (ControlBotCommand.command_response resp) s = control_response resp s
handle_int_rx ControlBotCommand.process_groups s = process_groups s

abbrev pub on_connected : M ControlBot (Unit {0})
on_connected = do modify λ s. record s { connected = true }; clear_log_backlog; process_groups

-- Of the messages that are not for the administrator's channel, those for a group's are passed on.
abbrev pub group_message : String → String → M ControlBot (Unit {0})
group_message target mesg s =
    if contains s.channels target
    then wa_push (WhatsappCommand.send_group_message target mesg) s
    else (ok tt, s)

module _ (l : Libs) where
  unfoldable pub handle_privmsg : String → String → Option String → M ControlBot (Unit {0})
  handle_privmsg target mesg none s = (ok tt, s)
  handle_privmsg target mesg (some from) s =
      if sender_of from == s.admin
      then (if target == s.chan
          then process_admin_command l control mesg s
          else group_message target mesg s)
      else (ok tt, s)

  unfoldable pub handle_irc_message : Message → M ControlBot (Unit {0})
  handle_irc_message im = elim im.command [
    | Command.connected ↦ on_connected
    | Command.other ↦ done
    | Command.nick new_nick ↦ done
    | Command.error msg ↦ fail ("Error from server: " <> msg)
    | Command.privmsg target mesg ↦ handle_privmsg target mesg im.prefix
    | Command.raw cmd args ↦ done
  ]

  abbrev pub received : Received → M ControlBot (Unit {0})
  received (Received.message im) = handle_irc_message im
  received Received.stopped = fail "irc_stream stopped"
  received (Received.broken x) = fail x

abbrev pub send_webirc : Option String → M ControlBot (Unit {0})
send_webirc none = done
send_webirc (some pw) =
    send (Sent.webirc (pw ∷ "sms-irc" ∷ "sms-irc.theta.eu.org" ∷ "127.0.0.1" ∷ []))

abbrev pub identify : M ControlBot (Unit {0})
identify s =
    if s.id
    then (ok tt, s)
    else (do send_webirc s.webirc_password; send Sent.identify; modify λ t. record t { id = true })
        s

unfoldable pub drain_rx : List ControlBotCommand → M ControlBot (Unit {0})
drain_rx [] = done
drain_rx (cbc ∷ cbcs) = modify (λ s. record s { rx = cbcs }) >> handle_int_rx cbc >> drain_rx cbcs

-- `flushed` is what the future that writes to the socket answers, and `rs` what the stream gives until it
-- is not ready. The handlers put nothing into the queue that they serve.
unfoldable pub poll : Libs → Result (Unit {0}) → List Received → M ControlBot (Unit {0})
poll l flushed rs =
    identify >> (λ s. (flushed, s)) >> for_each rs (received l) >> (λ s. drain_rx s.rx s)
