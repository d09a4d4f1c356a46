-- ===== src/Tests/Texts.antt =====
-- src/util.rs, src/store.rs, src/admin.rs, src/control_common.rs: the theorems at concrete inputs.
use Prim.Native.String.{String}
use sms_irc.Base.{
  ◌++◌, ◌≡◌, refl, true, false, none, pos, hex_digit, List, [], ◌∷◌, some, ok, arith, panic, join,
  ◌↔◌,
}
use sms_irc.Store.{get_recipient_by_addr_opt, connect}
use sms_irc.Store.Laws.Calls.{Call, run}
use sms_irc.Extern.{PduAddress}
use sms_irc.Store.Laws.Listed.{ListedUntilDeleted, store_wa_message-delete_message}
use sms_irc.Store.Laws.Recipients.{recipient_of, run-recipient_of}
use sms_irc.Sender.{fragments}
use sms_irc.Sender.Fragments.{Covers, fragments-Covers}
use sms_irc.Sender.Losses.{fragments-loses_all}
use sms_irc.Util.{string_to_irc_nick, normalize_address, un_normalize_address, hex_octet}
use sms_irc.Util.Names.{IsNick, string_to_irc_nick-IsNick}
use sms_irc.Util.Address.{un_normalize-normalize}
use sms_irc.Admin
use sms_irc.Admin.{AdminCommand, GhostCommand, GroupCommand, InspCommand, parse}
use sms_irc.Admin.Laws.Sayable.{words, parse-words}
use sms_irc.Admin.Laws.Raw.{parse-panic_iff, IsBareRaw}
use sms_irc.Control.{ControlCommon, run_command, process_admin_command}
use sms_irc.Comm.{WhatsappCommand, ContactFactoryCommand, ModemCommand}
use sms_irc.Control.Typed.{process_admin_command-words}
use sms_irc.Tests.World.{libs, libs-HexLaws, address, address-IsAddress, store}

abbrev calls : List Call
calls =
    Call.new_sms_recipient address "Bob"
    ∷ Call.set_nick address "Rob" (pos 2)
    ∷ Call.drop_group 1
    ∷ Call.set_nick address "Bobby" (pos 2)
    ∷ Call.set_notify address (some "Robert")
    ∷ []

run-recipient_of_example :
    recipient_of libs address (run libs store calls)
    ≡ ok (
        some (record {
          phone_number = "914421";
          nick = "Bobby";
          whatsapp = false;
          avatar_url = none;
          notify = some "Robert";
          nicksrc = pos 2;
        }))
unfolding normalize_address get_recipient_by_addr_opt connect hex_octet hex_digit
run-recipient_of_example = run-recipient_of libs address store calls none refl

abbrev ann : PduAddress
ann = record { type_addr = 145; number = 68 ∷ [] }

store_wa_message-delete_message_example : ListedUntilDeleted libs ann ann "hello" (some 1) 9 store
store_wa_message-delete_message_example =
    store_wa_message-delete_message libs ann ann "hello" (some 1) 9 store refl (ground arith, tt)

fragments-Covers_example : Covers (fragments "hello") "hello"
fragments-Covers_example = fragments-Covers "hello"

abbrev limit : String
limit =
    "aaaaaaaaaaaaaaaaaaaaaaaaaaaaaaaaaaaaaaaaaaaaaaaaaaaaaaaaaaaaaaaaaaaaaaaaaaaaaaaaaaaaaaaaaaaaaaaaaaaaaaaaaaaaaaaaaaaaaaaaaaaaaaaaaaaaaaaaaaaaaaaaaaaaaaaaaaaaaaaaaaaaaaaaaaaaaaaaaaaaaaaaaaaaaaaaaaaaaaaaaaaaaaaaaaaaaaaaaaaaaaaaaaaaaaaaaaaaaaaaaaaaaaaaaaaaaaaaaaaaaaaaaaaaaaaaaaaaaaaaaaaaaaaaaaaaaaaaaaaaaaaaaaaaaaaaaaaaaaaaaaaaaaaaaaaaaaaaaaaaaaaaaaaaaa"

abbrev below_limit : String
below_limit =
    "aaaaaaaaaaaaaaaaaaaaaaaaaaaaaaaaaaaaaaaaaaaaaaaaaaaaaaaaaaaaaaaaaaaaaaaaaaaaaaaaaaaaaaaaaaaaaaaaaaaaaaaaaaaaaaaaaaaaaaaaaaaaaaaaaaaaaaaaaaaaaaaaaaaaaaaaaaaaaaaaaaaaaaaaaaaaaaaaaaaaaaaaaaaaaaaaaaaaaaaaaaaaaaaaaaaaaaaaaaaaaaaaaaaaaaaaaaaaaaaaaaaaaaaaaaaaaaaaaaaaaaaaaaaaaaaaaaaaaaaaaaaaaaaaaaaaaaaaaaaaaaaaaaaaaaaaaaaaaaaaaaaaaaaaaaaaaaaaaaaaaaaaaaaaa"

fragments-loses_all_example :
    fragments
      "aaaaaaaaaaaaaaaaaaaaaaaaaaaaaaaaaaaaaaaaaaaaaaaaaaaaaaaaaaaaaaaaaaaaaaaaaaaaaaaaaaaaaaaaaaaaaaaaaaaaaaaaaaaaaaaaaaaaaaaaaaaaaaaaaaaaaaaaaaaaaaaaaaaaaaaaaaaaaaaaaaaaaaaaaaaaaaaaaaaaaaaaaaaaaaaaaaaaaaaaaaaaaaaaaaaaaaaaaaaaaaaaaaaaaaaaaaaaaaaaaaaaaaaaaaaaaaaaaaaaaaaaaaaaaaaaaaaaaaaaaaaaaaaaaaaaaaaaaaaaaaaaaaaaaaaaaaaaaaaaaaaaaaaaaaaaaaaaaaaaaaaaaaaaaé"
    ≡ []
fragments-loses_all_example = fragments-loses_all below_limit "é" (ground arith) (ground arith)

string_to_irc_nick-IsNick_example : IsNick (string_to_irc_nick libs "+Ann Lee")
string_to_irc_nick-IsNick_example = string_to_irc_nick-IsNick libs "+Ann Lee"

un_normalize-normalize_example :
    un_normalize_address libs (normalize_address libs address) ≡ ok (some address)
un_normalize-normalize_example = un_normalize-normalize libs libs-HexLaws address address-IsAddress

abbrev rename : AdminCommand
rename = Admin.ghost "ann" (GhostCommand.change_nick "bob")

abbrev bridge : AdminCommand
bridge = Admin.group (GroupCommand.bridge_whatsapp (record { id = "g@g.us"; is_group = true }) "#g")

parse-words_example : parse libs (words libs bridge) ≡ ok (some bridge)
parse-words_example = parse-words libs bridge (refl, refl)

parse-panic_iff_example :
    (parse libs ("INSP" ∷ "RAW" ∷ []) ≡ panic) ↔ IsBareRaw ("INSP" ∷ "RAW" ∷ [])
parse-panic_iff_example = parse-panic_iff libs ("INSP" ∷ "RAW" ∷ [])

record Sent : Type 0 where
  wa : List WhatsappCommand
  cf : List ContactFactoryCommand
  m : List ModemCommand
  responses : List String

-- An implementation that writes down what it is asked to send.
abbrev recorder : ControlCommon Sent
recorder = record {
  wa_send = λ c s. (ok tt, record s { wa = s.wa ++ c ∷ [] });
  cf_send = λ c s. (ok tt, record s { cf = s.cf ++ c ∷ [] });
  m_send = λ c s. (ok tt, record s { m = s.m ++ c ∷ [] });
  process_insp = λ c s. (ok false, s);
  control_response = λ msg s. (ok tt, record s { responses = s.responses ++ msg ∷ [] });
}

abbrev nothing_sent : Sent
nothing_sent = record { wa = []; cf = []; m = []; responses = [] }

process_admin_command-words_example :
    process_admin_command libs recorder "GHOST ann RENAME bob" nothing_sent
    ≡ run_command libs recorder rename nothing_sent
unfolding join
process_admin_command-words_example =
    process_admin_command-words libs recorder rename nothing_sent tt (ground arith)
