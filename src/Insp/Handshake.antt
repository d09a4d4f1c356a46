-- ===== src/Insp/Handshake.antt =====
-- src/insp_s2s.rs: which messages take the link to its linked state.
use sms_irc.Base.{
  ◌≡◌, refl, String, Bool, false, not, ◌&&◌, List, [], ◌∷◌, Option, none, some, arith, if_intro,
  ◌==◌, String_Eq, Result, ◌>>◌, All, Keeps, seq-Keeps, for_each,
}
use sms_irc.Insp.{InspLink, InspConfig, Env, Command, LinkState, is_linked, is_connected_only}
use sms_irc.Insp.Burst.{set_state, server_with, handle_server, do_capab_and_server}
use sms_irc.Insp.Poll.{Received, received, greet, serve, send_outbox, poll}
use sms_irc.Insp.Remote.{
  handle_unprefixed, handle_endburst, handle_squit, handle_by, handle_remote_message,
}
use sms_irc.Insp.Keeps.{KeepsQuiet}
use sms_irc.Insp.Keeps.Writes.{KeepsContacts}
use sms_irc.Insp.Keeps.Remote.{
  KeepsUsers, ends_burst, do_capab_and_server-Keeps, handle_prefixed-Keeps,
}

-- What only speaks of the link's state, of the remote server's id and of the configuration is kept by
-- all writes but theirs.
module _ {ℓ} {Message : Type 0} (P : LinkState → String → InspConfig → Type ℓ) where
  abbrev pub AtRest : InspLink Message → Type ℓ
  AtRest s = P s.state s.remote_sid s.cfg

  abbrev quiet_at_rest : KeepsQuiet AtRest
  quiet_at_rest = record {
    outbox = λ o s p. p;
    stored = λ st s p. p;
    channels = λ c s p. p;
    topics = λ t s p. p;
    contact = λ a f same s p. p;
  }

  abbrev contacts_at_rest : KeepsContacts AtRest
  contacts_at_rest = record {
    quiet = quiet_at_rest;
    wa = λ c s p. p;
    m = λ c s p. p;
    cb = λ c s p. p;
    user = λ uuid f s p. p;
    minted = λ user s small p. p;
    added = λ user a wa o s small new p. p;
    dropped = λ uuid s p. p;
    removed = λ a s p. p;
  }

  abbrev pub at_rest : KeepsUsers AtRest
  at_rest = record { contacts = contacts_at_rest; cf = λ c s p. p; met = λ uuid user s p. p }

abbrev right_password : InspConfig → List String → Bool
right_password cfg (name ∷ pass ∷ hops ∷ sid ∷ []) = (pass == cfg.recvpass) && (hops == "0")
right_password cfg args = false

abbrev unprefixed_admits : InspConfig → Command → Bool
unprefixed_admits cfg (Command.raw cmd args suffix) = (cmd == "SERVER") && right_password cfg args
unprefixed_admits cfg c = false

abbrev admits_by : InspConfig → Option String → Command → Bool
admits_by cfg none c = unprefixed_admits cfg c
admits_by cfg (some prefix) c = (prefix == "XXX") && ends_burst c

-- A SERVER line with the password that is expected, or the end of a burst of the server `XXX`.
abbrev pub admits : InspConfig → Received → Bool
admits cfg (Received.message msg) = admits_by cfg msg.prefix msg.command
admits cfg r = false

-- Nobody has been let in yet.
abbrev Outside : InspConfig → LinkState → String → InspConfig → Type 0
Outside cfg st theirs own = (is_linked st ≡ false) × (theirs ≡ "XXX") × (own ≡ cfg)

abbrev pub IsOutside : {Message : Type 0} → InspConfig → InspLink Message → Type 0
IsOutside cfg = AtRest (Outside cfg)

module _ {Message : Type 0} (cfg : InspConfig) (e : Env Message) where
  abbrev Out : InspLink Message → Type 0
  Out = IsOutside cfg

  abbrev outside : KeepsUsers Out
  outside = at_rest (Outside cfg)

  server_with-Keeps :
      (pass hops theirs : String) (args : List String) (suffix : Option String)
      → ((pass == cfg.recvpass) && (hops == "0")) ≡ false
      → Keeps Out (server_with e pass hops theirs args suffix)
  server_with-Keeps pass hops theirs args suffix wrong s p =
      let Kept : Result (Unit {0}) × InspLink Message → Type 0 = λ r. Out r.1 in
      let own : ((pass == s.cfg.recvpass) && (hops == "0")) ≡ false = rw (p.2) wrong in
      if_intro Kept (not (pass == s.cfg.recvpass)) _ _ (λ t. p)
        (λ f. if_intro Kept (not (hops == "0")) _ _ (λ t. p) (λ g. absurd (ground arith)))

  handle_server-Keeps :
      (args : List String) (suffix : Option String)
      → right_password cfg args ≡ false
      → Keeps Out (handle_server e args suffix)
  unfolding handle_server
  handle_server-Keeps [] suffix wrong s p = p
  handle_server-Keeps (a ∷ []) suffix wrong s p = p
  handle_server-Keeps (a ∷ b ∷ []) suffix wrong s p = p
  handle_server-Keeps (a ∷ b ∷ c ∷ []) suffix wrong s p = p
  handle_server-Keeps (a ∷ b ∷ c ∷ d ∷ []) suffix wrong s p =
      server_with-Keeps b c d (a ∷ b ∷ c ∷ d ∷ []) suffix wrong s p
  handle_server-Keeps (a ∷ b ∷ c ∷ d ∷ x ∷ rest) suffix wrong s p = p

  handle_unprefixed-Keeps :
      (c : Command) → unprefixed_admits cfg c ≡ false → Keeps Out (handle_unprefixed e c)
  unfolding handle_unprefixed
  handle_unprefixed-Keeps (Command.raw cmd args suffix) no_entry s p =
      if_intro (Keeps Out) (cmd == "SERVER") _ _
        (λ t. handle_server-Keeps args suffix (ground arith)) (λ f u h. h) s p
  handle_unprefixed-Keeps (Command.error x) no_entry s p = p
  handle_unprefixed-Keeps (Command.privmsg x y) no_entry s p = p
  handle_unprefixed-Keeps (Command.kill x y) no_entry s p = p
  handle_unprefixed-Keeps (Command.squit x y) no_entry s p = p
  handle_unprefixed-Keeps (Command.quit x) no_entry s p = p
  handle_unprefixed-Keeps (Command.ping x y) no_entry s p = p
  handle_unprefixed-Keeps (Command.other x) no_entry s p = p

  handle_endburst-Keeps :
      (prefix : String) → (prefix == "XXX") ≡ false → Keeps Out (handle_endburst e prefix)
  unfolding handle_endburst
  handle_endburst-Keeps prefix differs s p =
      if_intro (λ (r : Result (Unit {0}) × InspLink Message). Out r.1) (s.remote_sid == prefix) _ _
        (λ t. absurd (
          ground
            (arith, p.1, String_Eq.decides s.remote_sid prefix, String_Eq.decides prefix "XXX")))
        (λ f. p)

  handle_by-Keeps :
      (prefix : Option String) (c : Command)
      → admits_by cfg prefix c ≡ false
      → Keeps Out (handle_by e prefix c)
  unfolding handle_squit
  handle_by-Keeps none c no_entry s p = handle_unprefixed-Keeps c no_entry s p
  handle_by-Keeps (some prefix) c no_entry s p =
      handle_prefixed-Keeps Out outside e prefix c
        (λ t. handle_endburst-Keeps prefix (ground arith)) (λ server t u h. h) s p

  received-Keeps : (r : Received) → admits cfg r ≡ false → Keeps Out (received e r)
  unfolding handle_remote_message
  received-Keeps (Received.message msg) no_entry s p =
      handle_by-Keeps msg.prefix msg.command no_entry s p
  received-Keeps Received.disconnected no_entry s p = p
  received-Keeps (Received.broken x) no_entry s p = p

  each_received-Keeps :
      (rs : List Received)
      → All (λ r. admits cfg r ≡ false) rs
      → Keeps Out (for_each rs (received e))
  each_received-Keeps [] no_entry s p = p
  each_received-Keeps (r ∷ rs) no_entry s p =
      seq-Keeps Out (received e r) (for_each rs (received e)) (received-Keeps r no_entry.0)
        (each_received-Keeps rs no_entry.1) s p

  greet-Keeps : Keeps Out (greet e)
  greet-Keeps s p =
      if_intro (λ (r : Result (Unit {0}) × InspLink Message). Out r.1) (is_connected_only s.state) _
        _
        (λ t.
          seq-Keeps Out (do_capab_and_server e) (set_state LinkState.server_sent)
            (do_capab_and_server-Keeps Out outside e) (λ u h. (refl, h.1, h.2)) s p)
        (λ f. p)

  serve-Keeps : Keeps Out (serve e)
  serve-Keeps s p = rw (p.0) p

  -- A link that no server has been let into stays so over a turn in which it receives neither a SERVER line
  -- with its password nor the end of a burst of the server XXX, whatever else it receives.
  pub poll-IsOutside :
      (rs : List Received) (answers : List (Result Bool)) (flushed : Result (Unit {0}))
      (s : InspLink Message)
      → All (λ r. admits cfg r ≡ false) rs
      → IsOutside cfg s
      → IsOutside cfg (poll e rs answers flushed s).1
  unfolding poll send_outbox
  poll-IsOutside rs answers flushed s no_entry p =
      seq-Keeps Out (greet e >> for_each rs (received e) >> serve e) (send_outbox answers flushed)
        (seq-Keeps Out (greet e >> for_each rs (received e)) (serve e)
          (seq-Keeps Out (greet e) (for_each rs (received e)) greet-Keeps
            (each_received-Keeps rs no_entry))
          serve-Keeps)
        (λ u h. h) s p
