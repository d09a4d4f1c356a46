-- ===== src/IrcServer/Client.antt =====
-- src/irc_s2c.rs: a client's messages, the commands of the other parts, and the client's two traits.
use text.Mathlib.Text.{starts_with}
use sms_irc.Base.{
  ℕ, String, Bool, true, false, List, [], ◌∷◌, ◌++◌, Option, none, some, ok, M, ◌>>=◌, ◌>>◌, pure,
  done, fail, modify, for_each, if◌then◌else◌, split, ◌==◌, String_Eq,
}
use sms_irc.Extern.{PduAddress}
use sms_irc.Models
use sms_irc.Models.{Recipient, recipient_addr, message_addr}
use sms_irc.Comm.{WhatsappCommand, ModemCommand, ContactFactoryCommand, ControlBotCommand}
use sms_irc.Control.{ControlCommon, process_admin_command}
use sms_irc.Sender.{Sender, lift, process_msg_pdu, process_msg_plain}
use sms_irc.Store.{get_all_messages, get_recipient_by_addr_opt, get_recipient_by_nick_opt}
use sms_irc.IrcServer.{
  IrcConnection, Env, on_store, reply_s2c, reply_from_user, reply_from_nick, say_root,
}

-- The commands of the irc crate that a client's connection tells apart. Of a channel's mode it asks
-- whether there are any; `other` has the text of the command.
pub data Command : Type 0 where
  ping nick part other : String → Command
  quit join : Command
  channel_mode : String → List String → Command
  privmsg : String → String → Command

abbrev pub verb_of : List String → String
verb_of [] = ""
verb_of (word ∷ words) = word

module _ {Message : Type 0} (e : Env Message) where
  abbrev pub wa_push : WhatsappCommand → M (IrcConnection Message) (Unit {0})
  wa_push w c = (ok tt, record c { wa_outbox = c.wa_outbox ++ w ∷ [] })

  abbrev pub m_push : ModemCommand → M (IrcConnection Message) (Unit {0})
  m_push m c = (ok tt, record c { m_outbox = c.m_outbox ++ m ∷ [] })

  abbrev pub cf_push : ContactFactoryCommand → M (IrcConnection Message) (Unit {0})
  cf_push f c = (ok tt, record c { cf_outbox = c.cf_outbox ++ f ∷ [] })

  -- `process_insp` is the trait's own.
  abbrev pub control : ControlCommon (IrcConnection Message)
  control = record {
    wa_send = wa_push;
    cf_send = cf_push;
    m_send = m_push;
    process_insp = λ ic. pure false;
    control_response = say_root e;
  }

  -- `ensure_joined` is the trait's own.
  abbrev pub sender : Sender (IrcConnection Message)
  sender = record {
    report_error = λ from_nick text c.
        reply_from_nick e from_nick "NOTICE" (c.reginfo.nick ∷ []) (some text) c;
    store = λ c. c.store;
    with_store = λ st c. record c { store = st };
    private_target = λ c. (ok c.reginfo.nick, c);
    send_irc_message =
        λ from_nick to msg. reply_from_nick e from_nick "PRIVMSG" (to ∷ []) (some msg);
    ensure_joined = λ ch. done;
  }

  unfoldable pub handle_control : ControlBotCommand → M (IrcConnection Message) (Unit {0})
  handle_control (ControlBotCommand.log thing) = say_root e thing
  handle_control (ControlBotCommand.report_failure thing) = reply_s2c e "PRIVMSG" [] (some thing)
  handle_control (ControlBotCommand.command_response thing) = say_root e thing
  handle_control ControlBotCommand.process_groups = done

  abbrev pub say_by :
      Models.Message → Recipient → Option (List ℕ) → M (IrcConnection Message) (Unit {0})
  say_by msg recip (some bytes) = do
    pdu ← lift (e.libs.parse_pdu bytes)
    process_msg_pdu e.libs e.clock sender recip.nick msg pdu
  say_by msg recip none = process_msg_plain e.libs e.clock sender recip.nick msg

  abbrev pub say_found : Models.Message → Option Recipient → M (IrcConnection Message) (Unit {0})
  say_found msg none = done
  say_found msg (some recip) = say_by msg recip msg.pdu

  unfoldable pub process_message : Models.Message → M (IrcConnection Message) (Unit {0})
  process_message msg = do
    addr ← lift (message_addr e.libs msg)
    found ← on_store (get_recipient_by_addr_opt e.libs addr)
    say_found msg found

  unfoldable pub process_messages : M (IrcConnection Message) (Unit {0})
  process_messages = do msgs ← on_store get_all_messages; for_each msgs process_message

  abbrev pub direct_to : String → Bool → PduAddress → M (IrcConnection Message) (Unit {0})
  direct_to msg true addr = wa_push (WhatsappCommand.send_direct_message addr msg)
  direct_to msg false addr = m_push (ModemCommand.send_message addr msg)

  abbrev pub direct_found :
      String → String → Option Recipient → M (IrcConnection Message) (Unit {0})
  direct_found target msg none = reply_s2c e "401" (target ∷ []) (some "Unknown nickname.")
  direct_found target msg (some recip) =
      lift (recipient_addr e.libs recip) >>= direct_to msg recip.whatsapp

  unfoldable pub handle_privmsg : String → String → M (IrcConnection Message) (Unit {0})
  handle_privmsg target msg =
      if target == "&smsirc"
      then process_admin_command e.libs control msg
      else if starts_with target "#"
      then wa_push (WhatsappCommand.send_group_message target msg)
      else on_store (get_recipient_by_nick_opt target) >>= direct_found target msg

  unfoldable pub handle_remote_message : Command → M (IrcConnection Message) (Unit {0})
  handle_remote_message (Command.ping tok) = reply_s2c e "PONG" [] (some tok)
  handle_remote_message Command.quit = fail "Client quit"
  handle_remote_message (Command.nick new) = do
    reply_from_user e "NICK" (new ∷ []) none
    modify λ c. record c { reginfo = record c.reginfo { nick = new } }
  handle_remote_message Command.join = done
  handle_remote_message (Command.part chan) =
      reply_s2c e "442" (chan ∷ []) (some "You may not part.")
  handle_remote_message (Command.channel_mode target []) =
      reply_s2c e "324" (target ∷ "+nt" ∷ []) none
  handle_remote_message (Command.channel_mode target (mode ∷ modes)) =
      reply_s2c e "482" (target ∷ []) (some "You may not alter channel modes.")
  handle_remote_message (Command.privmsg target msg) = handle_privmsg target msg
  handle_remote_message (Command.other text) =
      reply_s2c e "421" (verb_of (split " " text) ∷ []) (some "Unknown or unimplemented command.")
