-- ===== src/Registration/Handshake.antt =====
-- src/irc_s2c_registration.rs: the panics of registration.
use sms_irc.Base.{
  String, Bool, true, false, ◌≡◌, refl, List, Option, none, some, Result, ok, err, panic, M, ◌>>=◌,
  arith, if_intro, is_some, is_panic, Safe, bind-Safe, continue, All-intro, String_Eq,
}
use sms_irc.IrcV3.{IrcCap}
use sms_irc.Registration.{
  PendingIrcConnection, Received, RegistrationInformation, registered, is_done, complete, wrap,
  information, poll,
}
use sms_irc.Registration.Steps.{Paired, Total, Respected, prologue, prologue-Safe}

Paired-Respected : {Message : Type 0} → Respected {Message = Message} Paired
Paired-Respected = record {
  kept = λ conn out caps new p. p;
  named = λ conn name p. p;
  identified = λ conn u r p. refl;
  started = λ conn p. p;
}

information-total :
    (n u r : Option String) (caps : List IrcCap)
    → is_some n ≡ true
    → is_some u ≡ true
    → is_some r ≡ true
    → is_panic (wrap (information n u r caps)) ≡ false
information-total (some n) (some u) (some r) caps hn hu hr = refl
information-total none u r caps hn hu hr = ground arith
information-total (some n) none r caps hn hu hr = ground arith
information-total (some n) (some u) none caps hn hu hr = ground arith

-- That a poll hands the connection on.
abbrev pub completes : Result (Option RegistrationInformation) → Bool
completes (ok (some i)) = true
completes _ = false

module _ {Message : Type 0}
    (new_message : Option String → String → List String → Option String → Result Message)
    (total : Total new_message) (send : M (PendingIrcConnection Message) (Unit {0}))
    (flushed : Result Bool) where
  complete-Safe :
      (f : Result Bool)
      → is_panic f ≡ false
      → (conn : PendingIrcConnection Message) → registered new_message conn ≡ true
      → Paired conn
      → let r = continue (complete new_message) (f, conn) in Paired r.1 × (is_panic r.0 ≡ false)
  complete-Safe (ok true) n conn h p = (
    p,
    information-total conn.nick conn.user conn.realname conn.caps (ground (arith, h))
        (ground (arith, h)) (ground (arith, h)),
  )
  complete-Safe (ok false) n conn h p = (p, refl)
  complete-Safe (err e) n conn h p = (p, refl)
  complete-Safe panic n conn h p = ground arith

  finish-Safe :
      is_panic flushed ≡ false → Safe Paired (is_done new_message flushed >>= complete new_message)
  unfolding is_done
  finish-Safe n conn p =
      if_intro
        (λ r. let x = continue (complete new_message) r in Paired x.1 × (is_panic x.0 ≡ false))
        (registered new_message conn) (flushed, conn) (ok false, conn)
        (λ h. complete-Safe flushed n conn h p) (λ h. (p, refl))

  -- The `unwrap`s and the index of registration never fail: from a connection that has a user name
  -- exactly when it has a real name, a poll does not panic, and leaves such a connection, whatever the
  -- socket gives.
  pub poll-Safe :
      (rs : List Received) (conn : PendingIrcConnection Message)
      → Safe Paired send
      → is_panic flushed ≡ false
      → Paired conn
      → let r = poll new_message rs send flushed conn in Paired r.1 × (is_panic r.0 ≡ false)
  unfolding poll
  poll-Safe rs conn hs n =
      bind-Safe Paired (prologue new_message total Paired Paired-Respected rs send)
        (λ u. is_done new_message flushed >>= complete new_message)
        (prologue-Safe new_message total Paired Paired-Respected rs send
          (All-intro _ (λ r e conn p. p) rs) hs)
        (λ u. finish-Safe n) conn
