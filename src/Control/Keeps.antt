-- ===== src/Control/Keeps.antt =====
-- src/control_common.rs: what the methods of an implementation keep, an administrator's command keeps.
use sms_irc.Base.{
  String, len, Bool, true, false, Option, none, some, Result, ok, err, panic, ltb, lines, split,
  if_intro, Keeps, bind-Keeps, seq-Keeps, for_each-Keeps,
}
use sms_irc.Extern.{Libs}
use sms_irc.Comm
use sms_irc.Comm.{WhatsappCommand, ContactFactoryCommand}
use sms_irc.Admin
use sms_irc.Admin.{AdminCommand, InspCommand, parse}
use sms_irc.Admin.Help.{help_page}
use sms_irc.Control.{
  ControlCommon, insp_answer, show_page, run_command, run_parsed, process_admin_command,
}

pub record ControlKeeps {ℓ} {S : Type 0} (P : S → Type ℓ) (i : ControlCommon S) : Type ℓ where
  pub wa : (c : WhatsappCommand) → Keeps P (i.wa_send c)
  pub cf : (c : ContactFactoryCommand) → Keeps P (i.cf_send c)
  pub m : (c : Comm.ModemCommand) → Keeps P (i.m_send c)
  pub insp : (c : InspCommand) → Keeps P (i.process_insp c)
  pub response : (msg : String) → Keeps P (i.control_response msg)

module _ {ℓ} {S : Type 0} (P : S → Type ℓ) (l : Libs) (i : ControlCommon S)
    (k : ControlKeeps P i) where
  insp_answer-Keeps : (b : Bool) → Keeps P (insp_answer l i b)
  insp_answer-Keeps true s p = p
  insp_answer-Keeps false s p = k.response _ s p

  show_page-Keeps : (page : Option String) → Keeps P (show_page l i page)
  show_page-Keeps none s p = k.response _ s p
  show_page-Keeps (some hp) s p = for_each-Keeps P i.control_response k.response (lines hp) s p

  pub run_command-Keeps : (ac : AdminCommand) → Keeps P (run_command l i ac)
  unfolding run_command
  run_command-Keeps (Admin.ghost nick gc) =
      seq-Keeps P (i.cf_send _) (i.control_response _) (k.cf _) (k.response _)
  run_command-Keeps (Admin.modem mc) = k.m _
  run_command-Keeps (Admin.whatsapp wac) = k.wa _
  run_command-Keeps (Admin.group gc) = k.wa _
  run_command-Keeps (Admin.contact cc) = k.cf _
  run_command-Keeps (Admin.insp ic) =
      bind-Keeps P (i.process_insp ic) (insp_answer l i) (k.insp ic) insp_answer-Keeps
  run_command-Keeps (Admin.help qry) = show_page-Keeps (help_page qry)

  run_parsed-Keeps : (r : Result (Option AdminCommand)) → Keeps P (run_parsed l i r)
  run_parsed-Keeps (ok none) s p = k.response _ s p
  run_parsed-Keeps (ok (some ac)) s p = run_command-Keeps ac s p
  run_parsed-Keeps (err e) s p = p
  run_parsed-Keeps panic s p = p

  pub process_admin_command-Keeps : (mesg : String) → Keeps P (process_admin_command l i mesg)
  unfolding process_admin_command
  process_admin_command-Keeps mesg =
      if_intro (Keeps P) (ltb (len mesg) 1) _ _ (λ t s p. p)
        (λ f. run_parsed-Keeps (parse l (split " " mesg)))
