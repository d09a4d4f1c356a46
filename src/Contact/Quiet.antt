-- ===== src/Contact/Quiet.antt =====
-- src/contact.rs: that stored messages wait until the contact is connected and the administrator online.
use sms_irc.Base.{
  ◌≡◌, String, Bool, true, false, ◌||◌, List, [], ◌∷◌, Option, none, some, Result, ok, ◌>>◌, modify,
  for_each, arith, if_intro, All, ◌==◌, String_Eq, Keeps, seq-Keeps,
}
use sms_irc.Extern.{Libs}
use sms_irc.Models
use sms_irc.Models.{Recipient, Group}
use sms_irc.Sender.{Clock}
use sms_irc.Contact.{ContactManager, Sent, send}
use sms_irc.Contact.Remote.{
  Command, Received, flush, handle_raw, handle_irc_message, received, send_webirc, identify,
  drain_rx, poll,
}
use sms_irc.Contact.Keeps.{
  Waiting, send-Keeps, drain_rx-Keeps, handle_nick-Waiting, handle_privmsg-Keeps,
}

-- The messages that may end the wait: the end of the MOTD, and that a nick has logged on.
abbrev pub wakes_by : Command → Bool
wakes_by Command.connected = true
wakes_by (Command.raw cmd args) = (cmd == "600") || (cmd == "604")
wakes_by _ = false

abbrev pub wakes : Received → Bool
wakes (Received.message im) = wakes_by im.command
wakes _ = false

abbrev pub IsQuiet : Received → Type 0
IsQuiet r = wakes r ≡ false

module _ (l : Libs) (k : Clock) (msgs : List Models.Message) where
  handle_raw-Keeps :
      (cmd : String) (args : List String)
      → ((cmd == "600") || (cmd == "604")) ≡ false
      → Keeps (Waiting msgs) (handle_raw l k cmd args)
  unfolding handle_raw
  handle_raw-Keeps cmd [] h s p = p
  handle_raw-Keeps cmd (arg ∷ []) h s p = p
  handle_raw-Keeps cmd (arg ∷ who ∷ args) h s p =
      if_intro (λ (r : Result (Unit {0}) × ContactManager). Waiting msgs r.1)
        ((cmd == "600") || (cmd == "604")) _ _ (λ t. ground (arith, h, t))
        (λ f.
          if_intro (λ (r : Result (Unit {0}) × ContactManager). Waiting msgs r.1)
            ((cmd == "601") || (cmd == "605")) _ _
            (λ t.
              if_intro (λ (r : Result (Unit {0}) × ContactManager). Waiting msgs r.1)
                (who == s.admin) (ok tt, record s { admin_is_online = false }) (ok tt, s)
                (λ u. (ground arith, p.1)) (λ u. p))
            (λ t. p))

  handle_command-Keeps :
      (prefix : Option String) (cmd : Command)
      → wakes_by cmd ≡ false
      → Keeps (Waiting msgs) (handle_irc_message l k (record { prefix = prefix; command = cmd }))
  unfolding handle_irc_message
  handle_command-Keeps prefix Command.connected h s p = ground (arith, h)
  handle_command-Keeps prefix Command.other h s p = p
  handle_command-Keeps prefix (Command.nick new) h s p = handle_nick-Waiting l k msgs new prefix s p
  handle_command-Keeps prefix (Command.error msg) h s p = p
  handle_command-Keeps prefix (Command.privmsg target mesg) h s p =
      handle_privmsg-Keeps l k msgs target mesg prefix s p
  handle_command-Keeps prefix (Command.raw cmd args) h s p = handle_raw-Keeps cmd args h s p

  received-Keeps : (r : Received) → IsQuiet r → Keeps (Waiting msgs) (received l k r)
  received-Keeps (Received.message im) h s p = handle_command-Keeps im.prefix im.command h s p
  received-Keeps Received.stopped h s p = p
  received-Keeps (Received.broken x) h s p = p

  each_received-Keeps :
      (rs : List Received) → All IsQuiet rs → Keeps (Waiting msgs) (for_each rs (received l k))
  each_received-Keeps [] h s p = p
  each_received-Keeps (r ∷ rs) h s p =
      seq-Keeps (Waiting msgs) (received l k r) (for_each rs (received l k)) (received-Keeps r h.0)
        (each_received-Keeps rs h.1) s p

  send_webirc-Keeps : (pw : Option String) → Keeps (Waiting msgs) (send_webirc l k pw)
  send_webirc-Keeps none s p = p
  send_webirc-Keeps (some pw) s p = send-Keeps l k msgs _ s p

  identify-Keeps : Keeps (Waiting msgs) (identify l k)
  identify-Keeps s p =
      if_intro (λ (r : Result (Unit {0}) × ContactManager). Waiting msgs r.1) s.id (ok tt, s) _
        (λ t. p)
        (λ f.
          seq-Keeps (Waiting msgs) (send_webirc l k s.webirc_password) _
            (send_webirc-Keeps s.webirc_password)
            (seq-Keeps (Waiting msgs) (send Sent.identify) (modify (λ t. record t { id = true }))
              (send-Keeps l k msgs Sent.identify) (λ t q. q))
            s p)

  -- While a contact is not connected or the administrator is offline, a turn leaves every stored message
  -- in the database and the contact waiting, whatever the contact factory asks and whichever sends fail,
  -- if neither the end of the server's MOTD nor a notice that someone has logged on is received.
  pub poll-Waiting :
      (before : Result (Unit {0})) (rs : List Received) (after : Result (Unit {0}))
      (s : ContactManager)
      → All IsQuiet rs
      → Waiting msgs s
      → Waiting msgs (poll l k before rs after s).1
  unfolding poll
  poll-Waiting before rs after s h p =
      let greeted = identify l k >> flush before in
      let handled = greeted >> for_each rs (received l k) in
      let drained = handled >> (λ t. drain_rx l k t.rx t) in
      seq-Keeps (Waiting msgs) drained (flush after)
        (seq-Keeps (Waiting msgs) handled (λ t. drain_rx l k t.rx t)
          (seq-Keeps (Waiting msgs) greeted (for_each rs (received l k))
            (seq-Keeps (Waiting msgs) (identify l k) (flush before) identify-Keeps (λ t q. q))
            (each_received-Keeps rs h))
          (λ t q. drain_rx-Keeps l k msgs t.rx t q))
        (λ t q. q) s p
