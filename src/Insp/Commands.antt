-- ===== src/Insp/Commands.antt =====
-- src/insp_s2s.rs: the commands that the link takes from the other parts and from the administrator.
use sms_irc.Base.{
  String, Bool, true, List, [], ◌∷◌, ◌++◌, Option, none, some, Result, ok, err, panic, M, ◌>>◌,
  pure, done, panics, for_each, if◌then◌else◌, ◌<>◌, lines, lookup, ◌==◌, String_Eq,
}
use sms_irc.Admin
use sms_irc.Admin.{InspCommand}
use sms_irc.Comm.{ContactFactoryCommand, ControlBotCommand}
use sms_irc.Contacts.{
  setup_contact, query_contact, drop_contact, drop_contact_by_nick, forward_cmd_by_nick,
  subscribe_presence_by_nick,
}
use sms_irc.Control.{ControlCommon}
use sms_irc.InspUser.{InspUser}
use sms_irc.Insp.{InspLink, Env, push, send}
use sms_irc.Insp.Users.{admin_uuid}
use sms_irc.Insp.Groups.{process_groups}
use sms_irc.Insp.Holder.{holder, forward_cmd}
use sms_irc.Insp.Messages.{process_messages}

-- The loop of QueryNickUuid has no break: the last user with the nick.
unfoldable pub last_with_nick : String → List (String × InspUser) → Option String → Option String
last_with_nick nick [] found = found
last_with_nick nick ((uuid, user) ∷ users) found =
    last_with_nick nick users (if user.nick == nick then some uuid else found)

-- `{:?}` of an Option<String>
abbrev pub debug_option : (String → String) → Option String → String
debug_option debug none = "None"
debug_option debug (some s) = "Some(" <> debug s <> ")"

module _ {Message : Type 0} (e : Env Message) where
  abbrev pub respond : String → Option String → M (InspLink Message) (Unit {0})
  respond msg none s = (ok tt, s)
  respond msg (some admu) s =
      push (e.new_message (some s.control_uuid) "NOTICE" (admu ∷ []) (some msg)) s

  unfoldable pub control_response : String → M (InspLink Message) (Unit {0})
  control_response msg s = respond msg (admin_uuid s) s

  abbrev pub send_raw : Result Message → M (InspLink Message) (Unit {0})
  send_raw (ok m) = send m
  send_raw (err x) = control_response ("parse err: " <> x)
  send_raw panic = panics

  abbrev pub nick_line : String → InspLink Message → String
  nick_line qnu s = "result = " <> debug_option e.debug (last_with_nick qnu s.users none)

  unfoldable pub process_insp : InspCommand → M (InspLink Message) Bool
  process_insp (Admin.raw msg) = send_raw (e.parse_message msg) >> pure true
  process_insp (Admin.query_uuid uu) =
      (λ s. for_each (lines (e.debug_user (lookup uu s.users))) control_response s) >> pure true
  process_insp (Admin.query_nick_uuid qnu) =
      (λ s. control_response (nick_line qnu s) s) >> pure true

  abbrev pub control : ControlCommon (InspLink Message)
  control = record {
    cf_send = λ c s. (ok tt, record s { cf = s.cf ++ c ∷ [] });
    wa_send = λ c s. (ok tt, record s { wa = s.wa ++ c ∷ [] });
    m_send = λ c s. (ok tt, record s { m = s.m ++ c ∷ [] });
    process_insp = process_insp;
    control_response = control_response;
  }

  unfoldable pub handle_cf_command : ContactFactoryCommand → M (InspLink Message) (Unit {0})
  handle_cf_command ContactFactoryCommand.process_messages = process_messages e
  handle_cf_command ContactFactoryCommand.process_groups = process_groups e
  handle_cf_command ContactFactoryCommand.process_avatars = done
  handle_cf_command (ContactFactoryCommand.setup_contact a) = setup_contact e.libs (holder e) a
  handle_cf_command (ContactFactoryCommand.drop_contact a) = drop_contact e.libs (holder e) a
  handle_cf_command (ContactFactoryCommand.query_contact a src) =
      query_contact e.libs (holder e) a src
  handle_cf_command (ContactFactoryCommand.drop_contact_by_nick nick) =
      drop_contact_by_nick e.libs (holder e) nick
  handle_cf_command ContactFactoryCommand.load_recipients = done
  handle_cf_command (ContactFactoryCommand.forward_command a cmd) = forward_cmd e a cmd
  handle_cf_command (ContactFactoryCommand.forward_command_by_nick nick cmd) =
      forward_cmd_by_nick e.libs (holder e) nick cmd
  handle_cf_command (ContactFactoryCommand.subscribe_presence_by_nick nick) =
      subscribe_presence_by_nick e.libs (holder e) nick

  abbrev pub report_to : String → Option String → M (InspLink Message) (Unit {0})
  report_to fail none s = (ok tt, s)
  report_to fail (some admu) s =
      push
        (e.new_message (some s.cfg.sid) "PRIVMSG" (admu ∷ [])
          (some (s.cfg.admin_nick <> ": \u{2}\u{3}04" <> fail <> "\u{f}")))
        s

  unfoldable pub handle_cb_command : ControlBotCommand → M (InspLink Message) (Unit {0})
  handle_cb_command (ControlBotCommand.log line) =
      λ s. push (e.new_message (some s.cfg.sid) "NOTICE" (s.cfg.log_chan ∷ []) (some line)) s
  handle_cb_command (ControlBotCommand.report_failure fail) = λ s. report_to fail (admin_uuid s) s
  handle_cb_command (ControlBotCommand.command_response resp) = control_response resp
  handle_cb_command ControlBotCommand.process_groups = process_groups e
