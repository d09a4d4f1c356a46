-- ===== src/WhatsappAck.antt =====
-- src/whatsapp_ack.rs: which outgoing WhatsApp messages are acknowledged, and the alerts about those
-- that are not. Times are nanoseconds of the clock behind `Utc::now()`.
pub mod Alerts
pub mod Print
pub mod Retention
pub mod Replay
use sms_irc.Base.{
  ℕ, ◌+◌, ◌*◌, ◌-◌, ◌/◌, ◌%◌, ◌<>◌, String, len, Bool, true, false, ◌&&◌, ◌||◌, not, List, [], ◌∷◌,
  ◌++◌, map, Option, none, some, Result, ok, err, panic, M, ◌>>=◌, ◌>>◌, done, fail, modify, leb,
  ltb, if◌then◌else◌, keep, take, length, nat_eq, show, ◌==◌, String_Eq, join, is_none, ◌^◌,
}
use sms_irc.Extern.{Jid, Libs}
use sms_irc.Comm.{ControlBotCommand}

-- whatsappweb's MessageAckLevel, of which the source tells two levels from the others.
pub data MessageAckLevel : Type 0 where
  error : MessageAckLevel
  pending_send : MessageAckLevel
  other : String → MessageAckLevel

-- `C` stands for whatsappweb's ChatMessageContent.
pub record MessageSendStatus (C : Type 0) : Type 0 where
  pub ack_level : Option MessageAckLevel
  pub sent_ts : ℕ
  pub content : C
  pub destination : Jid
  pub unsent : Bool
  pub alerted : Bool
  pub alerted_pending : Bool

-- The timer is an argument of `poll`. `cb` holds what was sent on cb_tx, oldest first; the receiver is
-- alive as long as the tracker, so the `unwrap` of a send does not fail.
pub record WaAckTracker (C : Type 0) : Type 0 where
  pub cb : List ControlBotCommand
  pub outgoing_messages : List (String × MessageSendStatus C)
  pub ack_warn : ℕ
  pub ack_warn_pending : ℕ
  pub ack_expiry : ℕ

abbrev u64 : ℕ → ℕ
u64 n = n % 2 ^ 64

abbrev unwrap_or : ℕ → Option ℕ → ℕ
unwrap_or d none = d
unwrap_or d (some n) = n

-- `delta.num_milliseconds() as u64`: a time in the future wraps.
abbrev pub elapsed_ms : ℕ → ℕ → ℕ
elapsed_ms now sent =
    if leb sent now then (now - sent) / 1000000 else u64 (2 ^ 64 - (sent - now) / 1000000)

abbrev pub level_is_error : Option MessageAckLevel → Bool
level_is_error (some error) = true
level_is_error _ = false

abbrev pub level_is_pending : Option MessageAckLevel → Bool
level_is_pending (some pending_send) = true
level_is_pending _ = false

abbrev pub is_failure : Option MessageAckLevel → Bool
is_failure level = is_none level || level_is_pending level

abbrev pub overdue_text : String → Bool → String
overdue_text mid true =
    "Warning: Message ID " <> mid
    <> " is still unsent, because we aren't connected to WhatsApp Web."
overdue_text mid false =
    "Warning: Sending message ID " <> mid <> " has failed, or is taking longer than usual!"

abbrev pub error_text : String → String
error_text mid = "Error: WhatsApp reported an error in sending message ID " <> mid <> "!"

abbrev pub pending_text : String → String
pending_text mid =
    "Warning: Sending message ID " <> mid <> " is still pending. Is WhatsApp running and connected?"

module _ {C : Type 0} where
  unfoldable pub new : Option ℕ → Option ℕ → Option ℕ → WaAckTracker C
  new warn warn_pending expiry =
      let warn_ms = unwrap_or 5000 warn in
      record {
        cb = [];
        outgoing_messages = [];
        ack_warn = warn_ms;
        ack_warn_pending = unwrap_or (u64 (warn_ms * 2)) warn_pending;
        ack_expiry = unwrap_or 60000 expiry;
      }

  -- `HashMap::insert`
  unfoldable pub insert :
      String
      → MessageSendStatus C
      → List (String × MessageSendStatus C)
      → List (String × MessageSendStatus C)
  insert mid mss [] = (mid, mss) ∷ []
  insert mid mss (e ∷ es) = if e.0 == mid then (mid, mss) ∷ es else e ∷ insert mid mss es

  unfoldable pub register_send : ℕ → Jid → C → String → Bool → WaAckTracker C → WaAckTracker C
  register_send now to content mid unsent t =
      let mss : MessageSendStatus C = record {
        ack_level = none;
        sent_ts = now;
        content = content;
        destination = to;
        unsent = unsent;
        alerted = false;
        alerted_pending = false;
      } in
      record t { outgoing_messages = insert mid mss t.outgoing_messages }

  abbrev pub is_unsent : String × MessageSendStatus C → Bool
  is_unsent e = e.1.unsent

  unfoldable pub extract_unsent : WaAckTracker C → List (MessageSendStatus C) × WaAckTracker C
  extract_unsent t = (
    map (λ e. e.1) (keep is_unsent t.outgoing_messages),
    record t { outgoing_messages = keep (λ e. not (is_unsent e)) t.outgoing_messages },
  )

  abbrev pub lookup : String → List (String × MessageSendStatus C) → Option (MessageSendStatus C)
  lookup mid [] = none
  lookup mid (e ∷ es) = if e.0 == mid then some e.1 else lookup mid es

  abbrev pub set_level :
      String
      → MessageAckLevel
      → List (String × MessageSendStatus C)
      → List (String × MessageSendStatus C)
  set_level mid level [] = []
  set_level mid level (e ∷ es) =
      if e.0 == mid
      then (e.0, record e.1 { ack_level = some level }) ∷ es
      else e ∷ set_level mid level es

  abbrev pub send_fail : String → WaAckTracker C → WaAckTracker C
  send_fail msg t = record t { cb = t.cb ++ ControlBotCommand.report_failure msg ∷ [] }

  abbrev pub ack_error : String → MessageAckLevel → WaAckTracker C → WaAckTracker C
  ack_error mid error t = send_fail (error_text mid) t
  ack_error mid level t = t

  abbrev pub ack_known :
      String → MessageAckLevel → WaAckTracker C → Option (MessageSendStatus C) → WaAckTracker C
  ack_known mid level t none = t
  ack_known mid level t (some mss) =
      let t' = ack_error mid level t in
      record t' { outgoing_messages = set_level mid level t'.outgoing_messages }

  unfoldable pub on_message_ack : String → MessageAckLevel → WaAckTracker C → WaAckTracker C
  on_message_ack mid level t = ack_known mid level t (lookup mid t.outgoing_messages)

  -- The body of the loop of check_acks: what it sends on cb_tx, and the entry that it leaves.
  module _ (warn warn_pending now : ℕ) where
    abbrev pub overdue : MessageSendStatus C → Bool
    overdue mss = is_none mss.ack_level && leb warn (elapsed_ms now mss.sent_ts) && not mss.alerted

    abbrev pub overdue_pending : MessageSendStatus C → Bool
    overdue_pending mss =
        level_is_pending mss.ack_level
        && leb warn_pending (elapsed_ms now mss.sent_ts)
        && not mss.alerted_pending

    abbrev pub entry_alerts : String × MessageSendStatus C → List ControlBotCommand
    entry_alerts (mid, mss) =
        (if overdue mss
          then ControlBotCommand.report_failure (overdue_text mid mss.unsent) ∷ []
          else [])
        ++ (if overdue_pending mss
            then ControlBotCommand.report_failure (pending_text mid) ∷ []
            else [])

    abbrev pub entry_after : MessageSendStatus C → MessageSendStatus C
    entry_after mss = record mss {
      alerted = mss.alerted || overdue mss;
      alerted_pending = mss.alerted_pending || overdue_pending mss;
    }

    abbrev pub entry_checked : String × MessageSendStatus C → String × MessageSendStatus C
    entry_checked e = (e.0, entry_after e.1)

    unfoldable pub alerts : List (String × MessageSendStatus C) → List ControlBotCommand
    alerts [] = []
    alerts (e ∷ es) = entry_alerts e ++ alerts es

  abbrev pub retained : ℕ → ℕ → MessageSendStatus C → Bool
  retained expiry now mss = is_failure mss.ack_level || ltb (elapsed_ms now mss.sent_ts) expiry

  unfoldable pub check_acks : ℕ → WaAckTracker C → WaAckTracker C
  check_acks now t =
      let checked = map (entry_checked t.ack_warn t.ack_warn_pending now) t.outgoing_messages in
      record t {
        cb = t.cb ++ alerts t.ack_warn t.ack_warn_pending now t.outgoing_messages;
        outgoing_messages = keep (λ e. retained t.ack_expiry now e.1) checked;
      }

  -- What the timer answers until it is not ready: the times of its ticks, or its error.
  unfoldable pub poll : List (Result ℕ) → M (WaAckTracker C) (Unit {0})
  poll [] = done
  poll (ok now ∷ rs) = modify (check_acks now) >> poll rs
  poll (err e ∷ rs) = fail e
  poll (panic ∷ rs) = λ t. (panic, t)
