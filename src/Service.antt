-- ===== src/Service.antt =====
-- The server as the peer of a client program: what the client writes is served at once, in a round of
-- its connection, and what the server writes is there for the client to read. One client runs at a
-- time, so a round does not wait where the tables are free.
pub mod Lines
pub mod Bare
pub mod Rounds
pub mod Programs
pub mod Transactions
pub mod Requests
pub mod Increment
pub mod Conflict
use a_multi_threaded_key_val.Prelude.{
  ℕ, Bool, true, false, Option, none, some, List, [], ◌∷◌, if◌then◌else◌,
}
use a_multi_threaded_key_val.Text.{Str}
use a_multi_threaded_key_val.Server.{Server}
use a_multi_threaded_key_val.Connection.{World, Connection, Outcome, returned, new_connection}
use a_multi_threaded_key_val.Connection.Chat.{chat_step}
use a_multi_threaded_key_val.Client.{Peer, Process}
use a_multi_threaded_key_val.System.{close}

-- `written` of the connection is what the client has not read yet; `active` holds until the loop of
-- the connection has ended.
pub record Session : Type 0 where
  pub world : World
  pub active : Bool

-- A client that has just been accepted as connection `i`.
abbrev pub accepted : ℕ → Server → Session
accepted i srv = record { world = record { server = srv; conn = new_connection i }; active = true }

abbrev pub served : Outcome Bool × World → Session
served (returned active, w) = record { world = w; active = active }
served (_, w) = record { world = w; active = false }

-- The text that was written first is read first.
abbrev pub oldest : List Str → Option (List Str × Str)
oldest [] = none
oldest (text ∷ texts) = elim (oldest texts) [
  | none ↦ some ([], text)
  | some (later, first) ↦ some (text ∷ later, first)
]

abbrev unread : List Str → Session → Session
unread texts s = record s {
  world = record (s.world) { conn = record (s.world.conn) { written = texts } };
}

abbrev read_oldest : (Str → Str) → Str → Session → Option (List Str × Str) → Str × Session
read_oldest deliver buf s none = (buf, s)
read_oldest deliver buf s (some (texts, text)) = (deliver text, unread texts s)

-- `deliver` is what `rio_readlineb` of csapp.c stores of a text that was written, at both ends.
abbrev pub server_peer : (Str → Str) → Peer Session
server_peer deliver = record {
  open_clientfd = λ hostname port s. true;
  writen = λ text s. if s.active then served (chat_step (deliver text) s.world) else s;
  readlineb = λ buf s. read_oldest deliver buf s (oldest s.world.conn.written);
}

-- A client process, and the server that it leaves: its connection is closed.
abbrev pub process : Session → Process Session
process s = record { peer = s; buf = []; stdout = []; stderr = [] }

abbrev pub server_after : Process Session → Server
server_after p = (close p.peer.world).server
