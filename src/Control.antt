-- ===== src/Control.antt =====
-- src/control_common.rs: what the administrator's commands do, whichever way the bridge is linked.
pub mod Typed
pub mod Keeps
use sms_irc.Base.{
  ℕ, String, len, Bool, true, false, List, [], ◌∷◌, Option, none, some, Result, ok, err, panic, M,
  ◌>>=◌, ◌>>◌, done, fail, panics, for_each, ltb, if◌then◌else◌, split, lines,
}
use sms_irc.Extern.{Libs}
use sms_irc.Models.{nicksrc_user, source_sms, source_wa}
use sms_irc.Comm
use sms_irc.Comm.{WhatsappCommand, ContactFactoryCommand, ContactManagerCommand, ModemCommand}
use sms_irc.Admin
use sms_irc.Admin.{AdminCommand, GhostCommand, ContactCommand, GroupCommand, InspCommand, parse}
use sms_irc.Admin.Help.{help_page}

-- The methods that an implementation of the trait gives, over its own state.
pub record ControlCommon (S : Type 0) : Type 0 where
  pub wa_send : WhatsappCommand → M S (Unit {0})
  pub cf_send : ContactFactoryCommand → M S (Unit {0})
  pub m_send : ModemCommand → M S (Unit {0})
  pub process_insp : InspCommand → M S Bool
  pub control_response : String → M S (Unit {0})

abbrev modem_request : Admin.ModemCommand → ModemCommand
modem_request Admin.get_csq = ModemCommand.request_csq
modem_request Admin.get_reg = ModemCommand.request_reg
modem_request Admin.reinit = ModemCommand.force_reinit
modem_request (Admin.temp_path s) = ModemCommand.update_path s

abbrev whatsapp_request : Admin.WhatsappCommand → WhatsappCommand
whatsapp_request Admin.setup = WhatsappCommand.start_registration
whatsapp_request Admin.logon = WhatsappCommand.logon_if_saved
whatsapp_request Admin.chat_list = WhatsappCommand.group_list
whatsapp_request Admin.update_all = WhatsappCommand.group_update_all
whatsapp_request Admin.print_acks = WhatsappCommand.print_acks

abbrev group_request : GroupCommand → WhatsappCommand
group_request (Admin.bridge_whatsapp jid chan) = WhatsappCommand.group_associate jid chan
group_request (Admin.unbridge ch) = WhatsappCommand.group_remove ch

abbrev contact_request : ContactCommand → ContactFactoryCommand
contact_request (Admin.new_sms a) = ContactFactoryCommand.query_contact a source_sms
contact_request (Admin.new_whatsapp a) = ContactFactoryCommand.query_contact a source_wa

abbrev ghost_request : String → GhostCommand → ContactFactoryCommand
ghost_request nick (Admin.change_nick n) =
    ContactFactoryCommand.forward_command_by_nick nick
      (ContactManagerCommand.change_nick n nicksrc_user)
ghost_request nick (Admin.set_whatsapp n) =
    ContactFactoryCommand.forward_command_by_nick nick (ContactManagerCommand.set_whatsapp n)
ghost_request nick Admin.presence_subscribe = ContactFactoryCommand.subscribe_presence_by_nick nick
ghost_request nick Admin.remove = ContactFactoryCommand.drop_contact_by_nick nick

module _ {S : Type 0} (l : Libs) (c : ControlCommon S) where
  open c use {wa_send, cf_send, m_send, process_insp, control_response}

  abbrev pub insp_answer : Bool → M S (Unit {0})
  insp_answer true = done
  insp_answer false = control_response "Error: InspIRCd link inactive!"

  abbrev pub show_page : Option String → M S (Unit {0})
  show_page none = control_response "No help page found for that topic."
  show_page (some hp) = for_each (lines hp) control_response

  unfoldable pub run_command : AdminCommand → M S (Unit {0})
  run_command (Admin.ghost nick gc) = do
    cf_send (ghost_request nick gc)
    control_response "Ghost command executed."
  run_command (Admin.modem mc) = m_send (modem_request mc)
  run_command (Admin.whatsapp wac) = wa_send (whatsapp_request wac)
  run_command (Admin.group gc) = wa_send (group_request gc)
  run_command (Admin.contact cc) = cf_send (contact_request cc)
  run_command (Admin.insp ic) = process_insp ic >>= insp_answer
  run_command (Admin.help qry) = show_page (help_page qry)

  abbrev pub run_parsed : Result (Option AdminCommand) → M S (Unit {0})
  run_parsed (ok none) =
      control_response "Invalid command. Try \u{2}HELP\u{f} for a command listing."
  run_parsed (ok (some ac)) = run_command ac
  run_parsed (err e) = fail e
  run_parsed panic = panics

  unfoldable pub process_admin_command : String → M S (Unit {0})
  process_admin_command mesg =
      if ltb (len mesg) 1 then done else run_parsed (parse l (split " " mesg))
