-- ===== src/Insp/Burst.antt =====
-- src/insp_s2s.rs: the handshake with the remote server, and what the link sends in it.
use sms_irc.Base.{
  String, not, ◌&&◌, is_none, List, [], ◌∷◌, Option, none, some, ok, err, panic, M, ◌>>=◌, ◌>>◌,
  fail, for_each, if◌then◌else◌, ◌<>◌, ◌==◌, String_Eq, show_i64,
}
use sms_irc.Extern.{PduAddress_Eq}
use sms_irc.Contacts.{setup_recipient}
use sms_irc.Store.{get_all_recipients}
use sms_irc.InspUser.{new_for_controlbot, debug_args}
use sms_irc.Insp.{InspLink, Env, LinkState, push, on_store, send_sid_line}
use sms_irc.Insp.Users.{add_user, announce}
use sms_irc.Insp.Groups.{process_groups}
use sms_irc.Insp.Holder.{holder}
use sms_irc.Insp.Messages.{process_messages}

abbrev pub capabs : List String
capabs =
    "PROTOCOL=1202" ∷ "NICKMAX=100" ∷ "CHANMAX=100" ∷ "MAXMODES=100" ∷ "IDENTMAX=100"
    ∷ "MAXQUIT=100" ∷ "MAXTOPIC=100" ∷ "MAXKICK=100" ∷ "MAXGECOS=100" ∷ "MAXAWAY=100" ∷ []

module _ {Message : Type 0} where
  abbrev pub set_state : LinkState → M (InspLink Message) (Unit {0})
  set_state st s = (ok tt, record s { state = st })

module _ {Message : Type 0} (e : Env Message) where
  unfoldable pub do_capab_and_server : M (InspLink Message) (Unit {0})
  do_capab_and_server = do
    send_sid_line e "CAPAB" ("START" ∷ "1202" ∷ []) none
    for_each capabs λ capab. send_sid_line e "CAPAB" ("CAPABILITIES" ∷ []) (some capab)
    send_sid_line e "CAPAB" ("END" ∷ []) none
    λ s.
        push
          (e.new_message (some s.cfg.sid) "SERVER"
            (s.cfg.server_name ∷ s.cfg.sendpass ∷ "0" ∷ s.cfg.sid ∷ []) (some s.cfg.server_desc))
          s

  abbrev pub add_controlbot : M (InspLink Message) (Unit {0})
  add_controlbot s =
      (add_user s.control_uuid (new_for_controlbot e.timestamp s.cfg.control_nick s.cfg.server_name)
          >> announce e s.control_uuid)
        s

  unfoldable pub do_burst : M (InspLink Message) (Unit {0})
  do_burst = do
    send_sid_line e "BURST" (show_i64 e.timestamp ∷ []) none
    add_controlbot
    send_sid_line e "ENDBURST" [] none

  unfoldable pub do_quasiburst : M (InspLink Message) (Unit {0})
  do_quasiburst = do
    recips ← on_store get_all_recipients
    for_each recips (setup_recipient e.libs (holder e))

  unfoldable pub on_linked : M (InspLink Message) (Unit {0})
  on_linked = do
    λ s. push (e.new_message (some s.control_uuid) "JOIN" (s.cfg.log_chan ∷ []) none) s
    process_groups e
    process_messages e

  -- The `unwrap` is an argument of the log line that comes first.
  abbrev pub accept_server : String → Option String → M (InspLink Message) (Unit {0})
  accept_server sid suffix s =
      if e.info && is_none suffix
      then (panic, s)
      else (do_burst >> set_state LinkState.burst_sent) (record s { remote_sid = sid })

  abbrev pub server_with :
      String → String → String → List String → Option String → M (InspLink Message) (Unit {0})
  server_with pass hops sid args suffix s =
      if not (pass == s.cfg.recvpass)
      then (err "Invalid password from remote server", s)
      else if not (hops == "0")
      then (err ("Received 1-to-1 SERVER with hopcount != 0: " <> debug_args e.debug args), s)
      else accept_server sid suffix s

  unfoldable pub handle_server : List String → Option String → M (InspLink Message) (Unit {0})
  handle_server (name ∷ pass ∷ hops ∷ sid ∷ []) suffix =
      server_with pass hops sid (name ∷ pass ∷ hops ∷ sid ∷ []) suffix
  handle_server args suffix = fail ("Received invalid 1-to-1 SERVER: " <> debug_args e.debug args)
