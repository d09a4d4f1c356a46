-- ===== src/WhatsappAck/Print.antt =====
-- src/whatsapp_ack.rs: the lines that the administrator is shown.
use sms_irc.Base.{
  ℕ, ◌-◌, ◌/◌, ◌<>◌, String, len, List, [], ◌∷◌, ◌++◌, Option, none, some, leb, ltb, if◌then◌else◌,
  take, length, nat_eq, show, String_Eq, join,
}
use sms_irc.Extern.{Libs}
use sms_irc.WhatsappAck.{MessageAckLevel, MessageSendStatus, WaAckTracker}

abbrev pub elapsed_s : ℕ → ℕ → String
elapsed_s now sent =
    if leb sent now
    then show ((now - sent) / 1000000000)
    else if nat_eq ((sent - now) / 1000000000) 0
    then "0"
    else "-" <> show ((sent - now) / 1000000000)

module _ {C : Type 0} where
  -- The lines for one message. `graphemes` is unicode_segmentation's, `describe` the content's
  -- quoted_description, and `show_level` the level's Debug.
  module _ (l : Libs) (graphemes : String → List String) (describe : C → String)
      (show_level : MessageAckLevel → String) where
    abbrev pub summary : C → String
    summary content =
        if ltb 15 (len (describe content))
        then join "" (take 10 (graphemes (describe content))) <> "…"
        else describe content

    abbrev pub level_text : Option MessageAckLevel → String
    level_text none = "undelivered"
    level_text (some al) = show_level al

    abbrev pub entry_lines : ℕ → String × MessageSendStatus C → List String
    entry_lines now (mid, mss) =
        ("- \"\u{1d}"
          <> summary mss.content
          <> "\u{1d}\" to \u{2}"
          <> l.show_jid mss.destination
          <> "\u{2} ("
          <> elapsed_s now mss.sent_ts
          <> "s ago) is \u{2}"
          <> level_text mss.ack_level
          <> "\u{2}")
        ∷ ("  (message ID \u{11}" <> mid <> "\u{f})")
        ∷ []

    abbrev pub all_lines : ℕ → List (String × MessageSendStatus C) → List String
    all_lines now [] = []
    all_lines now (e ∷ es) = entry_lines now e ++ all_lines now es

    unfoldable pub print_acks : ℕ → WaAckTracker C → List String
    print_acks now t =
        let lines = all_lines now t.outgoing_messages in
        if nat_eq (length lines) 0 then "No outgoing messages" ∷ [] else lines
