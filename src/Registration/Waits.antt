-- ===== src/Registration/Waits.antt =====
-- src/irc_s2c_registration.rs: a client that negotiates its capabilities is not handed on.
use sms_irc.Base.{
  String, Bool, true, false, ◌≡◌, refl, List, [], ◌∷◌, ◌++◌, Option, none, some, Result, ok, err,
  panic, M, ◌>>◌, ◌>>=◌, arith, sym, subst, if_intro, is_ok, continue, for_each, All, All-mono,
  Safe, for_each-Safe,
}
use sms_irc.Registration.{
  CapSubCommand, Command, PendingIrcConnection, Received, RegistrationInformation, registered,
  is_done, complete, greet, received, handle_remote_message, poll,
}
use sms_irc.Registration.Handshake.{completes}
use sms_irc.Registration.Steps.{
  is_end, Negotiating, Total, Respected, Ended, received-Safe, reply-Safe, prologue, prologue-Safe,
}

Negotiating-Respected : {Message : Type 0} → Respected {Message = Message} Negotiating
Negotiating-Respected = record {
  kept = λ conn out caps new p. p;
  named = λ conn name p. p;
  identified = λ conn u r p. p;
  started = λ conn p. refl;
}

-- What the socket gives in a poll, how the outbox is sent, and what poll_complete answers.
pub record Turn (Message : Type 0) : Type 0 where
  pub received : List Received
  pub send : M (PendingIrcConnection Message) (Unit {0})
  pub flushed : Result Bool

-- Sending leaves the negotiation as it is.
abbrev pub Sends : {Message : Type 0} → Turn Message → Type 0
Sends t = Safe Negotiating t.send

-- A turn in which the client does not send CAP END.
abbrev pub Waits : {Message : Type 0} → Turn Message → Type 0
Waits t = Sends t × All (λ r. is_end r ≡ false) t.received

module _ {Message : Type 0}
    (new_message : Option String → String → List String → Option String → Result Message) where
  abbrev again :
      (PendingIrcConnection Message → Result (Option RegistrationInformation))
      → Result (Option RegistrationInformation) × PendingIrcConnection Message
      → Result (Option RegistrationInformation)
  again rest (ok none, conn) = rest conn
  again rest (ok (some i), conn) = ok (some i)
  again rest (err e, conn) = err e
  again rest (panic, conn) = panic

  -- The polls of a connection, until one ends it or hands it on.
  abbrev pub polls :
      List (Turn Message) → PendingIrcConnection Message → Result (Option RegistrationInformation)
  polls [] conn = ok none
  polls (t ∷ ts) conn = again (polls ts) (poll new_message t.received t.send t.flushed conn)

  module _ (total : Total new_message) where
    -- Where the computation succeeds, the connection negotiates.
    abbrev Starts : {A : Type 0} → Result A × PendingIrcConnection Message → Type 0
    Starts r = is_ok r.0 ≡ true → Negotiating r.1

    continue-Starts :
        {A B : Type 0} (r : Result A × PendingIrcConnection Message)
        (k : M (PendingIrcConnection Message) B)
        → Safe Negotiating k
        → Starts r
        → Starts (continue (λ _. k) r)
    continue-Starts (ok a, c) k h p n = (h c (p refl)).0
    continue-Starts (err e, c) k h p n = ground (arith, n)
    continue-Starts (panic, c) k h p n = ground (arith, n)

    each_received-Safe :
        (rs : List Received)
        → All (λ r. is_end r ≡ false) rs
        → Safe Negotiating (for_each rs (received new_message))
    each_received-Safe rs e =
        for_each-Safe Negotiating (received new_message)
          (Ended new_message total Negotiating Negotiating-Respected)
          (received-Safe new_message total Negotiating Negotiating-Respected) rs
          (All-mono (λ r. is_end r ≡ false) _ (λ r n t. ground (arith, n, t)) rs e)

    cap_ls : Option String → Option String → Option String → Received
    cap_ls x y z = Received.command (Command.cap x CapSubCommand.ls y z)

    ls-Starts :
        (x y z : Option String) (conn : PendingIrcConnection Message)
        → Starts (received new_message (cap_ls x y z) conn)
    unfolding cap_ls handle_remote_message
    ls-Starts x y z conn n =
        (reply-Safe new_message total Negotiating Negotiating-Respected "CAP" ("LS" ∷ [])
          (some "away-notify") (record conn { cap_ended = false }) refl).0

    then-Starts :
        {A B : Type 0} (r : Result A × PendingIrcConnection Message)
        (k : M (PendingIrcConnection Message) B)
        → ((conn : PendingIrcConnection Message) → Starts (k conn))
        → Starts (continue (λ _. k) r)
    then-Starts (ok a, c) k h n = h c n
    then-Starts (err e, c) k h n = ground (arith, n)
    then-Starts (panic, c) k h n = ground (arith, n)

    received-Starts :
        (before after : List Received) (x y z : Option String) (conn : PendingIrcConnection Message)
        → All (λ r. is_end r ≡ false) after
        → Starts (for_each (before ++ cap_ls x y z ∷ after) (received new_message) conn)
    received-Starts [] after x y z conn e =
        continue-Starts (received new_message (cap_ls x y z) conn)
          (for_each after (received new_message)) (each_received-Safe after e)
          (ls-Starts x y z conn)
    received-Starts (r ∷ before) after x y z conn e =
        then-Starts (received new_message r conn)
          (for_each (before ++ cap_ls x y z ∷ after) (received new_message))
          (λ c. received-Starts before after x y z c e)

    -- The end of a poll neither hands the connection on nor ends the negotiation.
    abbrev Held : Result (Option RegistrationInformation) × PendingIrcConnection Message → Type 0
    Held r = (completes r.0 ≡ false) × Starts r

    finish-Held :
        (flushed : Result Bool) (r : Result (Unit {0}) × PendingIrcConnection Message)
        → Starts r
        → Held (continue (λ _. is_done new_message flushed >>= complete new_message) r)
    unfolding is_done
    finish-Held flushed (ok u, conn) h =
        let waits = h refl in
        if_intro (λ r. Held (continue (complete new_message) r)) (registered new_message conn)
          (flushed, conn) (ok false, conn) (λ b. absurd (ground (arith, b, waits)))
          (λ b. (refl, λ n. waits))
    finish-Held flushed (err e, conn) h = (refl, λ n. ground (arith, n))
    finish-Held flushed (panic, conn) h = (refl, λ n. ground (arith, n))

    again-waits :
        (rest : PendingIrcConnection Message → Result (Option RegistrationInformation))
        (r : Result (Option RegistrationInformation) × PendingIrcConnection Message)
        → Held r
        → ((conn : PendingIrcConnection Message) → Negotiating conn → completes (rest conn) ≡ false)
        → completes (again rest r) ≡ false
    again-waits rest (ok none, conn) h k = k conn (h.1 refl)
    again-waits rest (ok (some i), conn) h k = h.0
    again-waits rest (err e, conn) h k = refl
    again-waits rest (panic, conn) h k = refl

    polls-Waits :
        (ts : List (Turn Message)) (conn : PendingIrcConnection Message)
        → All Waits ts
        → Negotiating conn
        → completes (polls ts conn) ≡ false
    unfolding poll
    polls-Waits [] conn w h = refl
    polls-Waits (t ∷ ts) conn w h =
        let told = prologue new_message total Negotiating Negotiating-Respected t.received t.send in
        again-waits (polls ts) (poll new_message t.received t.send t.flushed conn)
          (finish-Held t.flushed (told conn) (λ n.
            (prologue-Safe new_message total Negotiating Negotiating-Respected t.received t.send
              (All-mono (λ r. is_end r ≡ false) _ (λ r k e. ground (arith, k, e)) t.received w.0.1)
              w.0.0 conn h).0))
          (λ c q. polls-Waits ts c w.1 q)

    -- From the CAP LS of a client on, no poll hands the connection on until the client sends CAP
    -- END, whatever it has sent before and whatever else it sends: neither the poll that receives
    -- the CAP LS nor any of those that follow, if messages can be made without a panic and sending
    -- the outbox leaves the negotiation as it is.
    pub polls_ls-Waits :
        (before after : List Received) (x y z : Option String) (t : Turn Message)
        (ts : List (Turn Message)) (conn : PendingIrcConnection Message)
        → t.received ≡ before ++ Received.command (Command.cap x CapSubCommand.ls y z) ∷ after
        → All (λ r. is_end r ≡ false) after
        → Sends t
        → All Waits ts
        → completes (polls (t ∷ ts) conn) ≡ false
    unfolding poll cap_ls
    polls_ls-Waits before after x y z t ts conn same e s w =
        let gave = before ++ cap_ls x y z ∷ after in
        let told = greet new_message >> for_each gave (received new_message) in
        again-waits (polls ts) (poll new_message t.received t.send t.flushed conn)
          (subst (λ rs. Held (poll new_message rs t.send t.flushed conn)) (sym same)
            (finish-Held t.flushed ((told >> t.send) conn) (
              continue-Starts (told conn) t.send s (
                then-Starts (greet new_message conn) (for_each gave (received new_message))
                  (λ c. received-Starts before after x y z c e)))))
          (λ c q. polls-Waits ts c w q)
