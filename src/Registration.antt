-- ===== src/Registration.antt =====
-- src/irc_s2c_registration.rs: a client of the IRC server, until it has given its nick and user and has
-- ended the negotiation of capabilities.
pub mod Handshake
pub mod Waits
pub mod Steps
use sms_irc.Base.{
  ℕ, String, Bool, true, false, ◌&&◌, List, [], ◌∷◌, ◌++◌, map, Option, none, some, Result, ok, err,
  panic, M, ◌>>=◌, ◌>>◌, pure, done, fail, panics, modify, for_each, ltb, if◌then◌else◌, split,
  join, length, is_some, ◌==◌, String_Eq,
}
use sms_irc.IrcV3.{IrcCap, supported_caps, cap_name, from_cap_name}

-- The commands of the irc crate that registration tells apart.
pub data CapSubCommand : Type 0 where
  ls : CapSubCommand
  list : CapSubCommand
  req : CapSubCommand
  end : CapSubCommand
  other : String → CapSubCommand

pub data Command : Type 0 where
  nick : String → Command
  user : String → String → String → Command
  cap : Option String → CapSubCommand → Option String → Option String → Command
  pass : String → Command
  quit : Option String → Command
  raw : String → List String → Option String → Command
  other : String → Command

pub record RegistrationInformation : Type 0 where
  pub nick : String
  pub user : String
  pub realname : String
  pub caps : List IrcCap

-- The socket, its address and the store are only passed on. `Message` stands for the crate's messages.
pub record PendingIrcConnection (Message : Type 0) : Type 0 where
  pub cap_ended : Bool
  pub nick : Option String
  pub user : Option String
  pub realname : Option String
  pub caps : List IrcCap
  pub outbox : List Message
  pub new : Bool

abbrev pub server_name : String
server_name = "sms-irc."

-- What a poll of the socket answers: a message, the end of the stream, or its error.
pub data Received : Type 0 where
  command : Command → Received
  disconnected : Received
  broken : String → Received

abbrev last_arg : String → List String → String
last_arg a [] = a
last_arg a (b ∷ bs) = last_arg b bs

abbrev wrap : Result RegistrationInformation → Result (Option RegistrationInformation)
wrap (ok i) = ok (some i)
wrap (err e) = err e
wrap panic = panic

-- The `unwrap`s of a connection that is done.
abbrev pub information :
    Option String → Option String → Option String → List IrcCap → Result RegistrationInformation
information (some name) (some username) (some realname) caps =
    ok (record { nick = name; user = username; realname = realname; caps = caps })
information _ _ _ caps = panic

-- `new_message` is Message::new.
module _ {Message : Type 0}
    (new_message : Option String → String → List String → Option String → Result Message) where
  abbrev pub from_incoming : PendingIrcConnection Message
  from_incoming = record {
    cap_ended = true;
    nick = none;
    user = none;
    realname = none;
    caps = [];
    outbox = [];
    new = true;
  }

  abbrev pub push : Result Message → M (PendingIrcConnection Message) (Unit {0})
  push (ok m) conn = (ok tt, record conn { outbox = conn.outbox ++ m ∷ [] })
  push (err e) conn = (err e, conn)
  push panic conn = (panic, conn)

  unfoldable pub reply :
      String → List String → Option String → M (PendingIrcConnection Message) (Unit {0})
  reply cmd args suffix = push (new_message (some server_name) cmd ("*" ∷ args) suffix)

  abbrev pub on_new : M (PendingIrcConnection Message) (Unit {0})
  on_new = reply "NOTICE" [] (some "sms-irc initialized, please go on")

  abbrev pub request_known : String → Option IrcCap → M (PendingIrcConnection Message) (Unit {0})
  request_known name none = reply "CAP" ("NAK" ∷ []) (some name)
  request_known name (some c) =
      modify (λ conn. record conn { caps = conn.caps ++ c ∷ [] })
      >> reply "CAP" ("ACK" ∷ []) (some name)

  abbrev pub request_cap : String → M (PendingIrcConnection Message) (Unit {0})
  request_cap name = request_known name (from_cap_name name)

  abbrev pub request_caps : String → M (PendingIrcConnection Message) (Unit {0})
  request_caps caps = for_each (split " " caps) request_cap

  abbrev pub not_registered : M (PendingIrcConnection Message) (Unit {0})
  not_registered = reply "451" [] (some "You have not registered")

  abbrev pub set_user :
      String → String → PendingIrcConnection Message → PendingIrcConnection Message
  set_user username realname conn = record conn { user = some username; realname = some realname }

  -- Without a trailing argument the last one is the real name.
  abbrev pub raw_user : List String → Option String → M (PendingIrcConnection Message) (Unit {0})
  raw_user [] trailing = panics
  raw_user (username ∷ args) none = modify (set_user username (last_arg username args))
  raw_user (username ∷ args) (some realname) = modify (set_user username realname)

  unfoldable pub handle_remote_message : Command → M (PendingIrcConnection Message) (Unit {0})
  handle_remote_message (Command.nick name) = modify λ conn. record conn { nick = some name }
  handle_remote_message (Command.user username mode realname) = modify (set_user username realname)
  handle_remote_message (Command.cap x CapSubCommand.ls y z) =
      modify (λ conn. record conn { cap_ended = false })
      >> reply "CAP" ("LS" ∷ []) (some supported_caps)
  handle_remote_message (Command.cap x CapSubCommand.req (some caps) none) = request_caps caps
  handle_remote_message (Command.cap x CapSubCommand.req none (some caps)) = request_caps caps
  handle_remote_message (Command.cap x CapSubCommand.req (some caps) (some more)) = not_registered
  handle_remote_message (Command.cap x CapSubCommand.req none none) = not_registered
  handle_remote_message (Command.cap x CapSubCommand.list y z) =
      λ conn. reply "CAP" ("LIST" ∷ []) (some (join " " (map cap_name conn.caps))) conn
  handle_remote_message (Command.cap x CapSubCommand.end y z) =
      modify λ conn. record conn { cap_ended = true }
  handle_remote_message (Command.cap x (CapSubCommand.other s) y z) = not_registered
  handle_remote_message (Command.pass password) = done
  handle_remote_message (Command.quit reason) = fail "Client quit"
  handle_remote_message (Command.raw cmd args trailing) =
      if (cmd == "USER") && ltb 1 (length args) then raw_user args trailing else not_registered
  handle_remote_message (Command.other text) = not_registered

  abbrev pub registered : PendingIrcConnection Message → Bool
  registered conn =
      conn.cap_ended && is_some conn.nick && is_some conn.user && is_some conn.realname

  -- `flushed` is the socket's poll_complete, which is not polled before the rest holds.
  unfoldable pub is_done : Result Bool → M (PendingIrcConnection Message) Bool
  is_done flushed conn = if registered conn then (flushed, conn) else (ok false, conn)

  abbrev pub received : Received → M (PendingIrcConnection Message) (Unit {0})
  received (Received.command c) = handle_remote_message c
  received Received.disconnected = fail "Socket disconnected"
  received (Received.broken e) = fail e

  abbrev pub complete : Bool → M (PendingIrcConnection Message) (Option RegistrationInformation)
  complete false conn = (ok none, conn)
  complete true conn = (wrap (information conn.nick conn.user conn.realname conn.caps), conn)

  abbrev pub greet : M (PendingIrcConnection Message) (Unit {0})
  greet conn = if conn.new then on_new (record conn { new = false }) else (ok tt, conn)

  -- `rs` is what the socket gives until it is not ready, and `send` the sending of the outbox.
  unfoldable pub poll :
      List Received
      → M (PendingIrcConnection Message) (Unit {0})
      → Result Bool
      → M (PendingIrcConnection Message) (Option RegistrationInformation)
  poll rs send flushed = greet >> for_each rs received >> send >> (is_done flushed >>= complete)
