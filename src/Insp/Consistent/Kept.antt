-- ===== src/Insp/Consistent/Kept.antt =====
-- src/insp_s2s.rs: the handlers leave the maps of the link consistent.
use text.Mathlib.Text.{starts_with}
use sms_irc.Base.{
  ℕ, ◌≡◌, String, Bool, true, false, not, List, [], ◌∷◌, Option, none, some, if_intro, ◌==◌,
  String_Eq, M, Result, ◌>>◌, Keeps, bind-Keeps, seq-Keeps, for_each, is_none, ◌&&◌, All, length,
  zero, suc,
}
use sms_irc.Extern.{PduAddress_Eq}
use sms_irc.Comm.{ContactFactoryCommand, ControlBotCommand}
use sms_irc.Insp.{InspLink, Env, Command, LinkState, is_linked, is_connected_only}
use sms_irc.Insp.Users.{uuid_of}
use sms_irc.Insp.Commands.{handle_cf_command, handle_cb_command}
use sms_irc.Insp.Burst.{
  set_state, do_burst, do_quasiburst, on_linked, accept_server, server_with, handle_server,
  do_capab_and_server,
}
use sms_irc.Insp.Poll.{
  Received, received, greet, drain, drain_cb, drain_cf, next_cb, next_cf, take_cb, take_cf, handled,
  serve, send_outbox, poll,
}
use sms_irc.Insp.Remote.{handle_unprefixed, handle_endburst, handle_by, handle_remote_message}
use sms_irc.Insp.Keeps.Commands.{handle_cf_command-Keeps, handle_cb_command-Keeps}
use sms_irc.Insp.Keeps.Remote.{
  KeepsUsers, splits, do_burst-Keeps, do_quasiburst-Keeps, on_linked-Keeps,
  do_capab_and_server-Keeps, handle_prefixed-Keeps,
}
use sms_irc.Insp.Consistent.{IsConsistent}
use sms_irc.Insp.Consistent.Writes.{OurMaps, quiet, contacts, users, handle_squit-Keeps}

-- A message that does not split off the link's own server.
abbrev pub Spares : String → Received → Type 0
Spares sid (Received.message msg) =
    (server : String)
    → splits msg.command server ≡ true
    → (n : ℕ) → starts_with (uuid_of sid n) server ≡ false
Spares sid Received.disconnected = Unit
Spares sid (Received.broken x) = Unit

module _ {Message : Type 0} (sid : String) (e : Env Message) where
  abbrev Ours : InspLink Message → Type 0
  Ours = OurMaps {Message = Message} sid

  abbrev kept_users : KeepsUsers Ours
  kept_users = users sid

  accept_server-Keeps :
      (theirs : String) (suffix : Option String) → Keeps Ours (accept_server e theirs suffix)
  accept_server-Keeps theirs suffix s p =
      if_intro (λ (r : Result (Unit {0}) × InspLink Message). Ours r.1) (e.info && is_none suffix) _
        _ (λ t. p)
        (λ f.
          seq-Keeps Ours (do_burst e) (set_state LinkState.burst_sent)
            (do_burst-Keeps Ours kept_users e) (λ u h. h) (record s { remote_sid = theirs }) p)

  server_with-Keeps :
      (pass hops theirs : String) (args : List String) (suffix : Option String)
      → Keeps Ours (server_with e pass hops theirs args suffix)
  server_with-Keeps pass hops theirs args suffix s p =
      let Kept : Result (Unit {0}) × InspLink Message → Type 0 = λ r. Ours r.1 in
      if_intro Kept (not (pass == s.cfg.recvpass)) _ _ (λ t. p)
        (λ f.
          if_intro Kept (not (hops == "0")) _ _ (λ t. p)
            (λ g. accept_server-Keeps theirs suffix s p))

  handle_server-Keeps :
      (args : List String) (suffix : Option String) → Keeps Ours (handle_server e args suffix)
  unfolding handle_server
  handle_server-Keeps [] suffix s p = p
  handle_server-Keeps (a ∷ []) suffix s p = p
  handle_server-Keeps (a ∷ b ∷ []) suffix s p = p
  handle_server-Keeps (a ∷ b ∷ c ∷ []) suffix s p = p
  handle_server-Keeps (a ∷ b ∷ c ∷ d ∷ []) suffix s p =
      server_with-Keeps b c d (a ∷ b ∷ c ∷ d ∷ []) suffix s p
  handle_server-Keeps (a ∷ b ∷ c ∷ d ∷ x ∷ rest) suffix s p = p

  handle_unprefixed-Keeps : (c : Command) → Keeps Ours (handle_unprefixed e c)
  unfolding handle_unprefixed
  handle_unprefixed-Keeps (Command.raw cmd args suffix) s p =
      if_intro (Keeps Ours) (cmd == "SERVER") _ _ (λ t. handle_server-Keeps args suffix)
        (λ f u h. h) s p
  handle_unprefixed-Keeps (Command.error x) s p = p
  handle_unprefixed-Keeps (Command.privmsg x y) s p = p
  handle_unprefixed-Keeps (Command.kill x y) s p = p
  handle_unprefixed-Keeps (Command.squit x y) s p = p
  handle_unprefixed-Keeps (Command.quit x) s p = p
  handle_unprefixed-Keeps (Command.ping x y) s p = p
  handle_unprefixed-Keeps (Command.other x) s p = p

  handle_endburst-Keeps : (prefix : String) → Keeps Ours (handle_endburst e prefix)
  unfolding handle_endburst
  handle_endburst-Keeps prefix s p =
      if_intro (λ (r : Result (Unit {0}) × InspLink Message). Ours r.1) (s.remote_sid == prefix) _ _
        (λ t.
          seq-Keeps Ours (do_quasiburst e >> set_state LinkState.linked) (on_linked e)
            (seq-Keeps Ours (do_quasiburst e) (set_state LinkState.linked)
              (do_quasiburst-Keeps Ours kept_users e) (λ u h. h))
            (on_linked-Keeps Ours kept_users e) s p)
        (λ f. p)

  handle_by-Keeps :
      (prefix : Option String) (c : Command)
      → Spares sid (Received.message (record { prefix = prefix; command = c }))
      → Keeps Ours (handle_by e prefix c)
  handle_by-Keeps none c spared s p = handle_unprefixed-Keeps c s p
  handle_by-Keeps (some prefix) c spared s p =
      handle_prefixed-Keeps Ours kept_users e prefix c (λ t. handle_endburst-Keeps prefix)
        (λ server t. handle_squit-Keeps sid e server (spared server t)) s p

  received-Keeps : (r : Received) → Spares sid r → Keeps Ours (received e r)
  unfolding handle_remote_message
  received-Keeps (Received.message msg) spared s p =
      handle_by-Keeps msg.prefix msg.command spared s p
  received-Keeps Received.disconnected spared s p = p
  received-Keeps (Received.broken x) spared s p = p

  each_received-Keeps :
      (rs : List Received) → All (Spares sid) rs → Keeps Ours (for_each rs (received e))
  each_received-Keeps [] spared s p = p
  each_received-Keeps (r ∷ rs) spared s p =
      seq-Keeps Ours (received e r) (for_each rs (received e)) (received-Keeps r spared.0)
        (each_received-Keeps rs spared.1) s p

  greet-Keeps : Keeps Ours (greet e)
  greet-Keeps s p =
      if_intro (λ (r : Result (Unit {0}) × InspLink Message). Ours r.1) (is_connected_only s.state)
        _ _
        (λ t.
          seq-Keeps Ours (do_capab_and_server e) (set_state LinkState.server_sent)
            (do_capab_and_server-Keeps Ours kept_users e) (λ u h. h) s p)
        (λ f. p)

  handled-Keeps :
      {C : Type 0} (handle : C → M (InspLink Message) (Unit {0}))
      (rest : M (InspLink Message) (Unit {0})) (c : Option C)
      → ((x : C) → Keeps Ours (handle x))
      → Keeps Ours rest
      → Keeps Ours (handled handle rest c)
  handled-Keeps handle rest none h k s p = p
  handled-Keeps handle rest (some x) h k s p = seq-Keeps Ours (handle x) rest (h x) k s p

  drain-Keeps :
      {C : Type 0} (take : M (InspLink Message) (Option C))
      (handle : C → M (InspLink Message) (Unit {0}))
      → Keeps Ours take
      → ((x : C) → Keeps Ours (handle x))
      → (fuel : ℕ) → Keeps Ours (drain take handle fuel)
  unfolding drain
  drain-Keeps take handle t h zero s p = p
  drain-Keeps take handle t h (suc fuel) s p =
      bind-Keeps Ours take (handled handle (drain take handle fuel)) t
        (λ c. handled-Keeps handle _ c h (drain-Keeps take handle t h fuel)) s p

  next_cb-Keeps : (q : List ControlBotCommand) → Keeps Ours (next_cb q)
  next_cb-Keeps [] s p = p
  next_cb-Keeps (c ∷ cs) s p = p

  next_cf-Keeps : (q : List ContactFactoryCommand) → Keeps Ours (next_cf q)
  next_cf-Keeps [] s p = p
  next_cf-Keeps (c ∷ cs) s p = p

  serve-Keeps : Keeps Ours (serve e)
  serve-Keeps s p =
      if_intro (λ (r : Result (Unit {0}) × InspLink Message). Ours r.1) (is_linked s.state) _ _
        (λ t.
          seq-Keeps Ours (drain_cb e) (drain_cf e)
            (λ u.
              drain-Keeps take_cb (handle_cb_command e) (λ v. next_cb-Keeps v.cb v)
                (handle_cb_command-Keeps Ours (quiet sid) e) (length u.cb) u)
            (λ u.
              drain-Keeps take_cf (handle_cf_command e) (λ v. next_cf-Keeps v.cf v)
                (handle_cf_command-Keeps Ours (contacts sid) e) (length u.cf) u)
            s p)
        (λ f. p)

  -- A turn of the link keeps its maps consistent, whatever it receives and whatever fails, if no message
  -- splits off the link's own server.
  pub poll-IsConsistent :
      (rs : List Received) (answers : List (Result Bool)) (flushed : Result (Unit {0}))
      (s : InspLink Message)
      → All (Spares sid) rs
      → s.cfg.sid ≡ sid
      → IsConsistent s
      → IsConsistent (poll e rs answers flushed s).1
  unfolding poll send_outbox
  poll-IsConsistent rs answers flushed s spared ours p =
      (seq-Keeps Ours (greet e >> for_each rs (received e) >> serve e) (send_outbox answers flushed)
        (seq-Keeps Ours (greet e >> for_each rs (received e)) (serve e)
          (seq-Keeps Ours (greet e) (for_each rs (received e)) greet-Keeps
            (each_received-Keeps rs spared))
          serve-Keeps)
        (λ u h. h) s (p, ours)).0
