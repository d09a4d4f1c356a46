-- ===== src/ControlBot/Backlog.antt =====
-- src/control.rs: the log lines that come before the bot is connected.
use mathlib.Core.List.{append_assoc, append-nil}
use sms_irc.Base.{
  ◌≡◌, sym, ap, ◌∙◌, String, false, List, [], ◌∷◌, ◌++◌, map, ok, M, ◌>>◌, continue, for_each,
}
use sms_irc.Comm.{ControlBotCommand}
use sms_irc.Contact.{Sent}
use sms_irc.ControlBot.{ControlBot, answered, send, say, clear_log_backlog, handle_int_rx}

abbrev pub log_all : List String → M ControlBot (Unit {0})
log_all lines = for_each (map ControlBotCommand.log lines) handle_int_rx

log_one :
    (line : String) (s : ControlBot)
    → s.connected ≡ false
    → handle_int_rx (ControlBotCommand.log line) s
      ≡ (ok tt, record s { log_backlog = s.log_backlog ++ line ∷ [] })
unfolding handle_int_rx
log_one line s h = rw h

log_all-backlog :
    (lines : List String) (s : ControlBot)
    → s.connected ≡ false
    → log_all lines s ≡ (ok tt, record s { log_backlog = s.log_backlog ++ lines })
log_all-backlog [] s h =
    ap (λ b. (ok tt, record s { log_backlog = b })) (sym (append-nil s.log_backlog))
log_all-backlog (line ∷ lines) s h =
    ap (continue (λ _. log_all lines)) (log_one line s h)
    ∙ log_all-backlog lines (record s { log_backlog = s.log_backlog ++ line ∷ [] }) h
    ∙ ap (λ b. (ok tt, record s { log_backlog = b })) (append_assoc s.log_backlog (line ∷ []) lines)

say-sent :
    (chan line : String) (s : ControlBot)
    → s.answers ≡ []
    → say chan line s ≡ (ok tt, record s { sent = s.sent ++ Sent.notice chan line ∷ [] })
unfolding send
say-sent chan line s h = ap (λ rs. answered (Sent.notice chan line) rs s) h

say_all :
    (chan : String) (lines : List String) (s : ControlBot)
    → s.answers ≡ []
    → for_each lines (say chan) s
      ≡ (ok tt, record s { sent = s.sent ++ map (Sent.notice chan) lines })
say_all chan [] s h = ap (λ b. (ok tt, record s { sent = b })) (sym (append-nil s.sent))
say_all chan (line ∷ lines) s h =
    ap (continue (λ _. for_each lines (say chan))) (say-sent chan line s h)
    ∙ say_all chan lines (record s { sent = s.sent ++ Sent.notice chan line ∷ [] }) h
    ∙ ap (λ b. (ok tt, record s { sent = b }))
        (append_assoc s.sent (Sent.notice chan line ∷ []) (map (Sent.notice chan) lines))

-- The log lines that come while the bot is not connected are kept, and clearing the backlog says all of
-- them and those that were in it before, in their order and each once, where the client takes what it is
-- given.
pub log_all-clear_log_backlog :
    (lines : List String) (s : ControlBot)
    → s.connected ≡ false
    → s.answers ≡ []
    → (log_all lines >> clear_log_backlog) s ≡ (
      ok tt,
      record s {
        log_backlog = [];
        sent = s.sent ++ map (Sent.notice s.chan) (s.log_backlog ++ lines);
      },
    )
unfolding clear_log_backlog
log_all-clear_log_backlog lines s h n =
    ap (continue (λ _. clear_log_backlog)) (log_all-backlog lines s h)
    ∙ say_all s.chan (s.log_backlog ++ lines) (record s { log_backlog = [] }) n
