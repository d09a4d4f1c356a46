-- ===== src/Control/Typed.antt =====
-- src/control_common.rs, src/admin.rs: from the typed text of a command to its execution.
use sms_irc.Base.{◌≡◌, ◌≤◌, len, false, arith, All, ltb, join, IsWord, split-join, len-le-join}
use sms_irc.Extern.{Libs}
use sms_irc.Admin.{AdminCommand, ghost, contact, whatsapp, modem, group, insp, help}
use sms_irc.Admin.Laws.Sayable.{words, verb, arguments, IsSayable, parse-words}
use sms_irc.Control.{ControlCommon, run_command, process_admin_command}

len-verb : (c : AdminCommand) → 1 ≤ len (verb c)
len-verb (ghost n c) = omega arith
len-verb (contact c) = omega arith
len-verb (whatsapp c) = omega arith
len-verb (modem c) = omega arith
len-verb (group c) = omega arith
len-verb (insp c) = omega arith
len-verb (help p) = omega arith

-- The text of a sayable command, its words joined by spaces, runs that very command, whichever link
-- the bridge has: nothing is lost or misread on the way from the administrator's message.
pub process_admin_command-words :
    {S : Type 0} (l : Libs) (i : ControlCommon S) (c : AdminCommand) (s : S)
    → IsSayable l c
    → All IsWord (words l c)
    → process_admin_command l i (join " " (words l c)) s ≡ run_command l i c s
unfolding process_admin_command
process_admin_command-words l i c s sayable w =
    let long = len-le-join (verb c) (arguments l c) in
    let not_empty : ltb (len (join " " (words l c))) 1 ≡ false = ground (arith, long, len-verb c) in
    rw (not_empty, split-join (verb c) (arguments l c) w, parse-words l c sayable)
