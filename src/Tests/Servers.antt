-- ===== src/Tests/Servers.antt =====
-- src/irc_s2c.rs: the theorems at a server with two clients, one of which disconnects.
use sms_irc.Base.{
  pos, ◌≡◌, refl, ℕ, zero, suc, String, true, false, List, [], ◌∷◌, Option, none, ok, All, map,
  is_err,
}
use sms_irc.Models.{Recipient}
use sms_irc.Comm.{WhatsappCommand, ControlBotCommand, ContactFactoryCommand}
use sms_irc.IrcServer.{IrcConnection, Env, from_pending, reply_s2c, push}
use sms_irc.IrcServer.Client.{Command, handle_remote_message, handle_privmsg}
use sms_irc.IrcServer.Greeting.{chunks, name_lines, plain_nick}
use sms_irc.IrcServer.Greeting.Names.{line_of, flatten, IsChunk, name_lines-flatten}
use sms_irc.IrcServer.Sweep.{sweep, each, remove_all, remove_at}
use sms_irc.IrcServer.Accept.{
  IrcServer, PendingTurn, Incoming, visit_pending, keep_pending, poll_pending,
}
use sms_irc.IrcServer.Poll.{
  Received, ClientTurn, Turn, visit_client, keep_clients, poll_clients, poll, poll_client,
}
use sms_irc.IrcServer.Poll.Apart.{poll_clients-sweep, poll-is_err}
use sms_irc.Util.Outbox.{sink}
use sms_irc.Tests.World.{libs, store}

abbrev make : Option String → String → List String → Option String → String
make prefix cmd args suffix = cmd

abbrev env : Env String
env = record {
  libs = libs;
  clock = record { now = 0; local_date = λ n. "date"; local_time = λ n. "time" };
  new_message = λ prefix cmd args suffix. ok (make prefix cmd args suffix);
  version = "2.0.0";
}

abbrev client : String → IrcConnection String
client nick =
    record (from_pending "127.0.0.1" store
      (record { nick = nick; user = "u"; realname = "r"; caps = [] })) { new = false }

abbrev server : IrcServer String
server = record {
  cf = ContactFactoryCommand.process_messages ∷ [];
  cb = ControlBotCommand.log "line" ∷ [];
  wa = [];
  m = [];
  store = store;
  connections = client "ann" ∷ client "bob" ∷ [];
  pending = [];
}

-- The first client sends a message for a group and disconnects.
abbrev client_turns : ℕ → ClientTurn
client_turns zero = record {
  received = Received.message (Command.privmsg "#group" "hello") ∷ Received.disconnected ∷ [];
  answers = [];
  flushed = ok tt;
}
client_turns (suc i) = record {
  received = Received.message (Command.ping "token") ∷ [];
  answers = ok true ∷ [];
  flushed = ok tt;
}

abbrev pending_turns : ℕ → PendingTurn
pending_turns i = record { received = []; answers = []; flushed = ok tt; complete = ok false }

abbrev turn : Turn
turn = record {
  incoming = Incoming.accepted "127.0.0.2" ∷ [];
  pending = pending_turns;
  clients = client_turns;
}

abbrev ann : Recipient
ann = record {
  id = 1;
  phone_number = "9144";
  nick = "Ann";
  whatsapp = false;
  avatar_url = none;
  notify = none;
  nicksrc = pos 0;
}

abbrev six : List Recipient
six = ann ∷ ann ∷ ann ∷ ann ∷ ann ∷ ann ∷ []

poll_clients-sweep_example :
    (poll_clients env client_turns server
      ≡ keep_clients env (sweep (visit_client env client_turns) 0 server.connections server))
    × (poll_pending env pending_turns server
        ≡ keep_pending env (sweep (visit_pending env pending_turns) 0 server.pending server))
poll_clients-sweep_example = poll_clients-sweep env client_turns pending_turns server

poll-is_err_example : is_err (poll env turn server).0 ≡ false
poll-is_err_example = poll-is_err env turn server (("127.0.0.2", refl), tt)

name_lines-flatten_example :
    (name_lines env "&smsirc" plain_nick six (client "bob") ≡ (
      ok tt,
      record (client "bob") { outbox = map (line_of make "&smsirc" plain_nick "bob") (chunks six) },
    ))
    × (flatten (chunks six) ≡ six)
    × All IsChunk (chunks six)
unfolding from_pending
name_lines-flatten_example =
    name_lines-flatten env make (λ p c a s. refl) "&smsirc" plain_nick six (client "bob")

-- The client that disconnects is gone, and what it asked for is passed on.
poll_served :
    let served = (poll_clients env client_turns server).1 in
    (map (λ c. c.reginfo.nick) served.connections ≡ "bob" ∷ [])
    × (served.wa ≡ WhatsappCommand.send_group_message "#group" "hello" ∷ [])
unfolding poll_clients each visit_client poll_client handle_remote_message handle_privmsg reply_s2c
    push from_pending sink remove_all remove_at
poll_served = (refl, refl)
