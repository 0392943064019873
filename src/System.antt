-- ===== src/System.antt =====
-- server.cpp and the threads of the server: connections that are accepted, send requests in any
-- order and end, over one `Server`.
pub mod Invariant
pub mod Isolation
pub mod Liveness
pub mod Kept
pub mod Tables
pub mod Values
pub mod Names
pub mod Visits
pub mod Guards
use a_multi_threaded_key_val.Prelude.{ℕ, ◌+◌, ◌≡◌, Bool, true, false, [], ◌==◌, if◌then◌else◌}
use a_multi_threaded_key_val.Prelude.Family.{update}
use a_multi_threaded_key_val.Prelude.Int.{ℤ}
use a_multi_threaded_key_val.Text.{Str}
use a_multi_threaded_key_val.Server.{Server, new_server}
use a_multi_threaded_key_val.Connection.{Connection, World, returned, new_connection, disconnect}
use a_multi_threaded_key_val.Connection.Chat.{chat_step}

-- Connection `i` is served by thread `i`, which runs while `alive i` holds. An index from
-- `accepted` on is not in use.
pub record System : Type 0 where
  pub server : Server
  pub conns : ℕ → Connection
  pub alive : ℕ → Bool
  pub accepted : ℕ

-- `listen` has stored `fd`.
abbrev pub init : (ℕ → ℕ) → ℤ → System
init codes fd = record {
  server = record (new_server codes) { listen_fd = fd };
  conns = new_connection;
  alive = λ _. false;
  accepted = 0;
}

-- What thread `i` sees.
abbrev pub view : ℕ → System → World
view i s = record { server = s.server; conn = s.conns i }

abbrev pub install : ℕ → World → System → System
install i w s = record s { server = w.server; conns = update s.conns i w.conn }

-- `client_worker` returns: the destructor runs, and the members of the connection are gone.
unfoldable pub close : World → World
unfolding disconnect
close w =
    let d = disconnect w in
    record d { conn = record (d.conn) { m_in_transaction = false; locked_tables = [] } }

unfoldable pub finish : ℕ → World → System → System
unfolding close
finish i w s = record (install i (close w) s) { alive = update s.alive i false }

-- The loop goes on, or `client_worker` returns.
abbrev pub proceed : ℕ → Bool → World → System → System
proceed i true w s = install i w s
proceed i false w s = finish i w s

-- The body of `server_loop` for a connection that `Accept` gives, where `created` says whether
-- `pthread_create` has started the thread; the connection is deleted otherwise.
unfoldable pub accept : Bool → System → System
accept true s = record s {
  conns = update s.conns s.accepted (new_connection s.accepted);
  alive = update s.alive s.accepted true;
  accepted = s.accepted + 1;
}
accept false s = s

-- A step by connection `i`. A round that waits for a mutex makes no step, and a round that is left
-- by an exception, or does what is undefined, ends the process.
pub data Step (i : ℕ) (s : System) : System → Type 0 where
  accepting : (created : Bool) → s.accepted ≡ i → Step i s (accept created s)
  request :
      (buf : Str) (active : Bool)
      → s.alive i ≡ true
      → (chat_step buf (view i s)).0 ≡ returned active
      → Step i s (proceed i active (chat_step buf (view i s)).1 s)
  hang_up : s.alive i ≡ true → Step i s (finish i (view i s) s)

pub data Reach (codes : ℕ → ℕ) : System → Type 0 where
  start : (fd : ℤ) → Reach codes (init codes fd)
  next : {s t : System} → Reach codes s → (i : ℕ) → Step i s t → Reach codes t
