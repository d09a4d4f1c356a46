-- ===== src/Registration/Steps.antt =====
-- src/irc_s2c_registration.rs: what the handlers of registration keep.
use sms_irc.Base.{
  String, Bool, true, false, ◌≡◌, refl, ◌&&◌, List, [], ◌∷◌, Option, none, some, Result, ok, err,
  panic, M, ◌>>◌, arith, for_each, split, ltb, length, if_intro, is_some, is_panic, Safe, bind-Safe,
  for_each-Safe, All, All-intro, ◌++◌, ◌==◌, String_Eq,
}
use sms_irc.IrcV3.{IrcCap, from_cap_name}
use sms_irc.Registration.{
  CapSubCommand, Command, PendingIrcConnection, Received, push, reply, on_new, request_known,
  request_cap, request_caps, not_registered, raw_user, handle_remote_message, received, greet,
}

abbrev pub is_end : Received → Bool
is_end (Received.command (Command.cap x CapSubCommand.end y z)) = true
is_end _ = false

module _ {Message : Type 0} where
  -- A connection has a user name exactly when it has a real name.
  abbrev pub Paired : PendingIrcConnection Message → Type 0
  Paired conn = is_some conn.user ≡ is_some conn.realname

  abbrev pub Negotiating : PendingIrcConnection Message → Type 0
  Negotiating conn = conn.cap_ended ≡ false

  -- The crate's constructor of messages never panics.
  abbrev pub Total :
      (Option String → String → List String → Option String → Result Message) → Type 0
  Total new_message =
      (p : Option String) (c : String) (as' : List String) (s : Option String)
      → is_panic (new_message p c as' s) ≡ false

-- The properties of connections that registration respects: they do not look at what is sent, and
-- hold after each thing that a client may say, but for the end of the negotiation.
pub record Respected {Message : Type 0} (P : PendingIrcConnection Message → Type 0) : Type 0 where
  pub kept :
      (conn : PendingIrcConnection Message) (out : List Message) (caps : List IrcCap) (new : Bool)
      → P conn
      → P (record conn { outbox = out; caps = caps; new = new })
  pub named :
      (conn : PendingIrcConnection Message) (name : String)
      → P conn
      → P (record conn { nick = some name })
  pub identified :
      (conn : PendingIrcConnection Message) (u r : String)
      → P conn
      → P (record conn { user = some u; realname = some r })
  pub started :
      (conn : PendingIrcConnection Message) → P conn → P (record conn { cap_ended = false })

module _ {Message : Type 0}
    (new_message : Option String → String → List String → Option String → Result Message)
    (total : Total new_message) (P : PendingIrcConnection Message → Type 0)
    (respected : Respected P) where
  open respected use {kept, named, identified, started}

  push-Safe : (r : Result Message) → is_panic r ≡ false → Safe P (push new_message r)
  push-Safe (ok m) n conn p = (kept conn _ conn.caps conn.new p, refl)
  push-Safe (err e) n conn p = (p, refl)
  push-Safe panic n conn p = ground arith

  pub reply-Safe :
      (cmd : String) (args : List String) (suffix : Option String)
      → Safe P (reply new_message cmd args suffix)
  unfolding reply
  reply-Safe cmd args suffix =
      push-Safe (new_message (some "sms-irc.") cmd ("*" ∷ args) suffix) (total _ _ _ _)

  request_known-Safe :
      (name : String) (c : Option IrcCap) → Safe P (request_known new_message name c)
  request_known-Safe name none conn p = reply-Safe "CAP" ("NAK" ∷ []) (some name) conn p
  request_known-Safe name (some c) conn p =
      reply-Safe "CAP" ("ACK" ∷ []) (some name) (record conn { caps = conn.caps ++ c ∷ [] })
        (kept conn conn.outbox (conn.caps ++ c ∷ []) conn.new p)

  request_caps-Safe : (caps : String) → Safe P (request_caps new_message caps)
  request_caps-Safe caps =
      for_each-Safe P (request_cap new_message) (λ name. Unit)
        (λ name q. request_known-Safe name (from_cap_name name)) (split " " caps)
        (All-intro (λ name. Unit) (λ name. tt) (split " " caps))

  not_registered-Safe : Safe P (not_registered new_message)
  not_registered-Safe = reply-Safe "451" [] (some "You have not registered")

  raw_user-Safe :
      (args : List String) (trailing : Option String)
      → ltb 1 (length args) ≡ true
      → Safe P (raw_user new_message args trailing)
  raw_user-Safe [] trailing h conn p = ground arith
  raw_user-Safe (u ∷ args) none h conn p = (identified conn u _ p, refl)
  raw_user-Safe (u ∷ args) (some r) h conn p = (identified conn u r p, refl)

  -- What END does.
  abbrev pub Ended : Received → Type 0
  Ended r =
      is_end r ≡ true
      → (conn : PendingIrcConnection Message) → P conn
      → P (record conn { cap_ended = true })

  handle-Safe :
      (c : Command) → Ended (Received.command c) → Safe P (handle_remote_message new_message c)
  unfolding handle_remote_message
  handle-Safe (Command.nick name) e conn p = (named conn name p, refl)
  handle-Safe (Command.user u mode r) e conn p = (identified conn u r p, refl)
  handle-Safe (Command.cap x CapSubCommand.ls y z) e conn p =
      reply-Safe "CAP" ("LS" ∷ []) (some "away-notify") _ (started conn p)
  handle-Safe (Command.cap x CapSubCommand.req (some caps) none) e conn p =
      request_caps-Safe caps conn p
  handle-Safe (Command.cap x CapSubCommand.req none (some caps)) e conn p =
      request_caps-Safe caps conn p
  handle-Safe (Command.cap x CapSubCommand.req (some caps) (some more)) e conn p =
      not_registered-Safe conn p
  handle-Safe (Command.cap x CapSubCommand.req none none) e conn p = not_registered-Safe conn p
  handle-Safe (Command.cap x CapSubCommand.list y z) e conn p =
      reply-Safe "CAP" ("LIST" ∷ []) _ conn p
  handle-Safe (Command.cap x CapSubCommand.end y z) e conn p = (e refl conn p, refl)
  handle-Safe (Command.cap x (CapSubCommand.other s) y z) e conn p = not_registered-Safe conn p
  handle-Safe (Command.pass password) e conn p = (p, refl)
  handle-Safe (Command.quit reason) e conn p = (p, refl)
  handle-Safe (Command.raw cmd args trailing) e conn p =
      if_intro (Safe P) ((cmd == "USER") && ltb 1 (length args))
        (raw_user new_message args trailing) (not_registered new_message)
        (λ h. raw_user-Safe args trailing (ground (arith, h))) (λ h. not_registered-Safe) conn p
  handle-Safe (Command.other text) e conn p = not_registered-Safe conn p

  pub received-Safe : (r : Received) → Ended r → Safe P (received new_message r)
  received-Safe (Received.command c) e conn p = handle-Safe c e conn p
  received-Safe Received.disconnected e conn p = (p, refl)
  received-Safe (Received.broken x) e conn p = (p, refl)

  pub greet-Safe : Safe P (greet new_message)
  greet-Safe conn p =
      if_intro (λ r. P r.1 × (is_panic r.0 ≡ false)) conn.new
        (on_new new_message (record conn { new = false })) (ok tt, conn)
        (λ h.
          reply-Safe "NOTICE" [] (some "sms-irc initialized, please go on")
            (record conn { new = false }) (kept conn conn.outbox conn.caps false p))
        (λ h. (p, refl))

  -- What `poll` does before it asks whether the client is done.
  abbrev pub prologue :
      List Received
      → M (PendingIrcConnection Message) (Unit {0})
      → M (PendingIrcConnection Message) (Unit {0})
  prologue rs send = greet new_message >> for_each rs (received new_message) >> send

  pub prologue-Safe :
      (rs : List Received) (send : M (PendingIrcConnection Message) (Unit {0}))
      → All Ended rs
      → Safe P send
      → Safe P (prologue rs send)
  prologue-Safe rs send e hs =
      bind-Safe P (greet new_message >> for_each rs (received new_message)) (λ u. send)
        (bind-Safe P (greet new_message) (λ u. for_each rs (received new_message)) greet-Safe
          (λ u. for_each-Safe P (received new_message) Ended received-Safe rs e))
        (λ u. hs)
