-- ===== src/Comm.antt =====
-- src/comm.rs: the messages that the parts of the bridge send one another over their channels.
use sms_irc.Base.{ℕ, String, Bool, List, Option, ℤ, Result}
use sms_irc.Extern.{PduAddress, Jid, Peer, SmsMessage}

-- src/whatsapp_media.rs; `mi` is the text of a MessageId.
pub record MediaResult : Type 0 where
  pub from : Jid
  pub group : Option ℕ
  pub mi : String
  pub peer : Option Peer
  pub ts : ℕ
  pub result : Result String

pub data ModemCommand : Type 0 where
  do_cmgl : ModemCommand
  cmgl_complete : List SmsMessage → ModemCommand
  cmgl_failed : String → ModemCommand
  send_message : PduAddress → String → ModemCommand
  request_csq : ModemCommand
  request_reg : ModemCommand
  force_reinit : ModemCommand
  update_path : Option String → ModemCommand
  command_timeout : ModemCommand
  make_contact : PduAddress → ModemCommand

pub data WhatsappCommand : Type 0 where
  start_registration : WhatsappCommand
  logon_if_saved : WhatsappCommand
  send_group_message : String → String → WhatsappCommand
  send_direct_message : PduAddress → String → WhatsappCommand
  group_associate : Jid → String → WhatsappCommand
  group_list : WhatsappCommand
  group_remove : String → WhatsappCommand
  group_update_all : WhatsappCommand
  media_finished : MediaResult → WhatsappCommand
  print_acks : WhatsappCommand
  make_contact : PduAddress → WhatsappCommand
  subscribe_presence : PduAddress → WhatsappCommand

pub data ContactManagerCommand : Type 0 where
  process_messages : ContactManagerCommand
  process_groups : ContactManagerCommand
  update_away : Option String → ContactManagerCommand
  change_nick : String → ℤ → ContactManagerCommand
  set_whatsapp : Bool → ContactManagerCommand

pub data ContactFactoryCommand : Type 0 where
  process_messages : ContactFactoryCommand
  process_groups : ContactFactoryCommand
  process_avatars : ContactFactoryCommand
  setup_contact : PduAddress → ContactFactoryCommand
  drop_contact : PduAddress → ContactFactoryCommand
  query_contact : PduAddress → ℤ → ContactFactoryCommand
  drop_contact_by_nick : String → ContactFactoryCommand
  load_recipients : ContactFactoryCommand
  forward_command : PduAddress → ContactManagerCommand → ContactFactoryCommand
  forward_command_by_nick : String → ContactManagerCommand → ContactFactoryCommand
  subscribe_presence_by_nick : String → ContactFactoryCommand

pub data ControlBotCommand : Type 0 where
  log : String → ControlBotCommand
  report_failure : String → ControlBotCommand
  command_response : String → ControlBotCommand
  process_groups : ControlBotCommand
