-- ===== src/Contact/Remote.antt =====
-- src/contact.rs: the messages of the IRC server, and the poll of a contact.
use sms_irc.Base.{
  String, true, false, ◌||◌, List, [], ◌∷◌, ◌++◌, Option, none, some, Result, ok, M, ◌>>◌, done,
  fail, modify, for_each, if◌then◌else◌, ◌<>◌, split, ◌==◌, String_Eq,
}
use sms_irc.Extern.{Libs}
use sms_irc.Util.{string_to_irc_nick}
use sms_irc.Comm.{WhatsappCommand, ModemCommand, ContactManagerCommand}
use sms_irc.Sender.{Clock}
use sms_irc.Contact.{
  ContactManager, Sent, send, process_messages, process_groups, update_away, initialize_watch,
  handle_int_rx,
}

-- The commands of the irc crate that a contact tells apart; `connected` stands for RPL_ENDOFMOTD and
-- ERR_NOMOTD, and `other` for those that it ignores or only logs.
pub data Command : Type 0 where
  connected other : Command
  nick error : String → Command
  privmsg : String → String → Command
  raw : String → List String → Command

pub record Message : Type 0 where
  pub prefix : Option String
  pub command : Command

-- What a poll of the IRC stream gives: a message, its end, or its error.
pub data Received : Type 0 where
  message : Message → Received
  stopped : Received
  broken : String → Received

-- `from.split("!")`, of which the first part is taken; there always is one.
abbrev pub first_part : List String → String
first_part [] = ""
first_part (part ∷ parts) = part

abbrev pub sender_of : String → String
sender_of prefix = first_part (split "!" prefix)

unfoldable pub handle_nick : String → Option String → ContactManager → ContactManager
handle_nick new none s = s
handle_nick new (some from) s = if sender_of from == s.nick then record s { nick = new } else s

abbrev pub direct : String → ContactManager → ContactManager
direct mesg s =
    if s.wa_mode
    then record s { wa = s.wa ++ WhatsappCommand.send_direct_message s.addr mesg ∷ [] }
    else record s { m = s.m ++ ModemCommand.send_message s.addr mesg ∷ [] }

unfoldable pub handle_privmsg : String → String → Option String → M ContactManager (Unit {0})
handle_privmsg target mesg none s = (ok tt, s)
handle_privmsg target mesg (some from) s =
    if sender_of from == s.admin
    then (if target == s.nick then (ok tt, direct mesg s) else (ok tt, s))
    else send
        (Sent.notice (sender_of from)
          "Message not delivered; you aren't the SMS bridge administrator!")
        s

abbrev pub take_command : List ContactManagerCommand → ContactManager → ContactManager
take_command cmcs s = record s { rx = cmcs }

-- `self.irc.1.poll()?`: what the future that writes to the socket answers.
abbrev pub flush : Result (Unit {0}) → M ContactManager (Unit {0})
flush r s = (r, s)

module _ (l : Libs) (k : Clock) where
  abbrev pub set_online : M ContactManager (Unit {0})
  set_online s =
      if s.admin_is_online
      then (ok tt, s)
      else process_messages l k (record s { admin_is_online = true })

  unfoldable pub handle_raw : String → List String → M ContactManager (Unit {0})
  handle_raw cmd [] s = (ok tt, s)
  handle_raw cmd (arg ∷ []) s = (ok tt, s)
  handle_raw cmd (arg ∷ who ∷ args) s =
      if (cmd == "600") || (cmd == "604")
      then (if who == s.admin then set_online s else (ok tt, s))
      else if (cmd == "601") || (cmd == "605")
      then (if who == s.admin then (ok tt, record s { admin_is_online = false }) else (ok tt, s))
      else (ok tt, s)

  abbrev pub on_connected : M ContactManager (Unit {0})
  on_connected s =
      (do process_messages l k; initialize_watch; update_away; process_groups l k)
        (record s { connected = true })

  unfoldable pub handle_irc_message : Message → M ContactManager (Unit {0})
  handle_irc_message im = elim im.command [
    | Command.connected ↦ on_connected
    | Command.other ↦ done
    | Command.nick new ↦ modify (handle_nick new im.prefix)
    | Command.error msg ↦ fail ("Error from server: " <> msg)
    | Command.privmsg target mesg ↦ handle_privmsg target mesg im.prefix
    | Command.raw cmd args ↦ handle_raw cmd args
  ]

  abbrev pub received : Received → M ContactManager (Unit {0})
  received (Received.message im) = handle_irc_message im
  received Received.stopped = fail "irc_stream stopped"
  received (Received.broken x) = fail x

  abbrev pub send_webirc : Option String → M ContactManager (Unit {0})
  send_webirc none s = (ok tt, s)
  send_webirc (some pw) s =
      let vhost = string_to_irc_nick l (l.show_address s.addr) <> ".sms-irc.theta.eu.org" in
      send (Sent.webirc (pw ∷ "sms-irc" ∷ vhost ∷ "127.0.0.1" ∷ [])) s

  abbrev pub identify : M ContactManager (Unit {0})
  identify s =
      if s.id
      then (ok tt, s)
      else (do
        send_webirc s.webirc_password
        send Sent.identify
        modify λ t. record t { id = true })
          s

  unfoldable pub drain_rx : List ContactManagerCommand → M ContactManager (Unit {0})
  drain_rx [] = done
  drain_rx (cmc ∷ cmcs) = modify (take_command cmcs) >> handle_int_rx l k cmc >> drain_rx cmcs

  -- `before` and `after` are what the writing future answers, and `rs` what the stream gives until it is
  -- not ready.
  unfoldable pub poll :
      Result (Unit {0}) → List Received → Result (Unit {0}) → M ContactManager (Unit {0})
  poll before rs after =
      identify >> flush before >> for_each rs received >> (λ s. drain_rx s.rx s) >> flush after
