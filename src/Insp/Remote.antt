-- ===== src/Insp/Remote.antt =====
-- src/insp_s2s.rs: the messages of the remote server.
use text.Mathlib.Text.{starts_with}
use sms_irc.Base.{
  String, Bool, true, false, not, List, [], ◌∷◌, ◌++◌, Option, none, some, ok, M, ◌>>=◌, ◌>>◌, done,
  fail, modify, if◌then◌else◌, ◌<>◌, ◌==◌, String_Eq, contains, lookup, insert, adjust, keep_keys,
}
use sms_irc.Extern.{PduAddress, PduAddress_Eq}
use sms_irc.Comm.{WhatsappCommand, ModemCommand}
use sms_irc.Control.{process_admin_command}
use sms_irc.Sender.{lift}
use sms_irc.InspUser.{InspUser, new_from_uid_line}
use sms_irc.Insp.{InspLink, InspContact, Env, Command, RemoteMessage, LinkState, send_sid_line}
use sms_irc.Insp.Users.{admin_uuid, add_user}
use sms_irc.Insp.Holder.{remove_user, set_nick, set_host}
use sms_irc.Insp.Messages.{process_messages}
use sms_irc.Insp.Commands.{control}
use sms_irc.Insp.Burst.{set_state, do_quasiburst, on_linked, handle_server}

abbrev pub same_prefix : String → Option String → Bool
same_prefix prefix none = false
same_prefix prefix (some uuid) = prefix == uuid

module _ {Message : Type 0} where
  abbrev pub wa_push : WhatsappCommand → M (InspLink Message) (Unit {0})
  wa_push c s = (ok tt, record s { wa = s.wa ++ c ∷ [] })

  abbrev pub m_push : ModemCommand → M (InspLink Message) (Unit {0})
  m_push c s = (ok tt, record s { m = s.m ++ c ∷ [] })

  abbrev pub direct_by : PduAddress → String → Option InspContact → M (InspLink Message) (Unit {0})
  direct_by a msg none = done
  direct_by a msg (some ct) =
      if ct.wa_mode
      then wa_push (WhatsappCommand.send_direct_message a msg)
      else m_push (ModemCommand.send_message a msg)

  abbrev pub direct_to : String → Option PduAddress → M (InspLink Message) (Unit {0})
  direct_to msg none s = (ok tt, s)
  direct_to msg (some a) s = direct_by a msg (lookup a s.contacts) s

module _ {Message : Type 0} (e : Env Message) where
  unfoldable pub handle_unprefixed : Command → M (InspLink Message) (Unit {0})
  handle_unprefixed (Command.error details) = fail ("Error from server: " <> details)
  handle_unprefixed (Command.raw cmd args suffix) =
      if cmd == "SERVER" then handle_server e args suffix else done
  handle_unprefixed c = done

  abbrev pub admin_message : String → String → M (InspLink Message) (Unit {0})
  admin_message target msg s =
      if target == s.control_uuid
      then process_admin_command e.libs (control e) msg s
      else if contains s.channels target
      then wa_push (WhatsappCommand.send_group_message target msg) s
      else direct_to msg (lookup target s.contacts_uuid_pdua) s

  unfoldable pub handle_privmsg : String → String → String → M (InspLink Message) (Unit {0})
  handle_privmsg prefix target msg s =
      if same_prefix prefix (admin_uuid s) then admin_message target msg s else (ok tt, s)

  unfoldable pub handle_squit : String → M (InspLink Message) (Unit {0})
  handle_squit server s =
      (ok tt, record s { users = keep_keys (λ k. not (starts_with k server)) s.users })

  abbrev pub welcome : String × InspUser → M (InspLink Message) (Unit {0})
  welcome (uuid, user) s =
      if user.nick == s.cfg.admin_nick
      then (add_user uuid user >> process_messages e) s
      else add_user uuid user s

  unfoldable pub handle_uid : List String → Option String → M (InspLink Message) (Unit {0})
  handle_uid args suffix = lift (new_from_uid_line e.debug args suffix) >>= welcome

  unfoldable pub handle_nick : String → List String → M (InspLink Message) (Unit {0})
  handle_nick prefix [] = done
  handle_nick prefix (nick ∷ args) =
      modify λ s. record s { users = adjust prefix (set_nick nick) s.users }

  unfoldable pub handle_ftopic : List String → Option String → M (InspLink Message) (Unit {0})
  handle_ftopic (chan ∷ a ∷ b ∷ rest) (some topic) =
      modify λ s. record s { channel_topics = insert chan topic s.channel_topics }
  handle_ftopic args suffix = done

  unfoldable pub handle_fhost : String → List String → M (InspLink Message) (Unit {0})
  handle_fhost prefix [] = done
  handle_fhost prefix (host ∷ args) =
      modify λ s. record s { users = adjust prefix (set_host host) s.users }

  unfoldable pub handle_endburst : String → M (InspLink Message) (Unit {0})
  handle_endburst prefix s =
      if s.remote_sid == prefix
      then (do_quasiburst e >> set_state LinkState.linked >> on_linked e) s
      else (ok tt, s)

  unfoldable pub handle_raw :
      String → String → List String → Option String → M (InspLink Message) (Unit {0})
  handle_raw prefix cmd args suffix =
      if cmd == "UID"
      then handle_uid args suffix
      else if cmd == "NICK"
      then handle_nick prefix args
      else if cmd == "FTOPIC"
      then handle_ftopic args suffix
      else if cmd == "FHOST"
      then handle_fhost prefix args
      else if cmd == "ENDBURST"
      then handle_endburst prefix
      else done

  unfoldable pub handle_prefixed : String → Command → M (InspLink Message) (Unit {0})
  handle_prefixed prefix (Command.privmsg target msg) = handle_privmsg prefix target msg
  handle_prefixed prefix (Command.error details) = fail ("Error from server: " <> details)
  handle_prefixed prefix (Command.kill uuid reason) = remove_user e uuid true
  handle_prefixed prefix (Command.quit reason) = remove_user e prefix true
  handle_prefixed prefix (Command.ping dest_data none) =
      send_sid_line e "PONG" (dest_data ∷ []) none
  handle_prefixed prefix (Command.ping source (some dest)) =
      send_sid_line e "PONG" (dest ∷ source ∷ []) none
  handle_prefixed prefix (Command.squit server reason) = handle_squit server
  handle_prefixed prefix (Command.raw cmd args suffix) = handle_raw prefix cmd args suffix
  handle_prefixed prefix (Command.other text) = done

  abbrev pub handle_by : Option String → Command → M (InspLink Message) (Unit {0})
  handle_by none c = handle_unprefixed c
  handle_by (some prefix) c = handle_prefixed prefix c

  unfoldable pub handle_remote_message : RemoteMessage → M (InspLink Message) (Unit {0})
  handle_remote_message msg = handle_by msg.prefix msg.command
