-- ===== src/Program.antt =====
-- server_main.cpp: the program from its arguments to the loop of the server.
use a_multi_threaded_key_val.Prelude.{
  ℕ, zero, suc, ◌≡◌, ◌≢◌, refl, false, Option, none, some, List, [], ◌∷◌, arith, ◌++◌,
}
use a_multi_threaded_key_val.Prelude.Int.{ℤ, pos, negsuc}
use a_multi_threaded_key_val.Text.{Str, codes}
use a_multi_threaded_key_val.Exceptions.{Exception, Result, ok, throw}
use a_multi_threaded_key_val.Server.{Server}
use a_multi_threaded_key_val.Server.Lifetime.{
  construct, is_minus_one, listen, log_error, delete_tables, destroy_server,
}
use a_multi_threaded_key_val.System.{System, Reach, start, init}

-- What `pthread_mutex_init` returns for `table_lock` and for the mutexes of the tables, and
-- `open_listenfd` of csapp.c. Where `accept` fails at once on a descriptor, `accept_fails` gives the text
-- of its error; then `Accept` of csapp.c ends the process, with exit code 0.
pub record Host : Type 0 where
  pub table_lock_init : ℕ
  pub mutex_init : ℕ → ℕ
  pub open_listenfd : Str → ℤ
  pub accept_fails : ℤ → Option Str

-- The program exits with a code and lines on `std::cerr`, an exception leaves `main`, or it runs
-- `server_loop`, which does not return.
pub data Launch : Type 0 where
  exited : ℕ → List Str → Launch
  terminated : Exception → Launch
  serving : Server → Launch
  undefined : Launch

-- The end of `main` runs the destructor of `server`.
abbrev after_destructor : Option (List ℕ) → Launch → Launch
after_destructor (some gone) l = l
after_destructor none l = undefined

-- `server_loop` up to what its first `Accept` does.
abbrev enters_loop : Option Str → Server → Launch
enters_loop none srv = serving srv
enters_loop (some reason) srv = exited 0 ((codes "Accept error: " ++ reason) ∷ [])

abbrev started : Host → Result (Unit {0}) × Server → Launch
started host (ok u, srv) = enters_loop (host.accept_fails srv.listen_fd) srv
started host (throw e, srv) =
    after_destructor (destroy_server srv)
      (exited 1 (log_error (codes "Fatal error starting server") ∷ []))

abbrev constructed : Host → Str → Result Server → Launch
constructed host port (ok server) = started host (listen host.open_listenfd port server)
constructed host port (throw e) = terminated e

-- The arguments begin with the name of the program. Every exception of the `try` is a
-- `std::runtime_error`; the constructor stands before the `try`.
unfoldable pub main : Host → List Str → Launch
unfolding construct listen destroy_server
main host (program ∷ port ∷ []) =
    constructed host port (construct host.table_lock_init host.mutex_init)
main host argv = exited 1 (codes "Usage: ./server <port>" ∷ [])

is_minus_one-ne : (fd : ℤ) → fd ≢ negsuc 0 → is_minus_one fd ≡ false
is_minus_one-ne (pos n) h = refl
is_minus_one-ne (negsuc zero) h = absurd (h refl)
is_minus_one-ne (negsuc (suc n)) h = ground arith

-- Where `open_listenfd` returns anything but -1 and `accept` does not fail at once, the program serves,
-- in a state in which the system starts, with what was returned as the descriptor. The mutex of the
-- server is initialised.
program_serves :
    (host : Host) (program port : Str)
    → host.table_lock_init ≡ 0
    → host.open_listenfd port ≢ negsuc 0
    → host.accept_fails (host.open_listenfd port) ≡ none
    → (s : System) × Reach host.mutex_init s
      × (main host (program ∷ port ∷ []) ≡ serving s.server)
      × (s.server.listen_fd ≡ host.open_listenfd port)
unfolding main construct listen
program_serves host program port lock other accepts = (
  init host.mutex_init (host.open_listenfd port),
  start (host.open_listenfd port),
  rw (lock, is_minus_one-ne (host.open_listenfd port) other, accepts) refl,
  refl,
)

-- Where `open_listenfd` returns -1, the program deletes no table, prints an error and exits with
-- code 1. The mutex of the server is initialised.
program_fails_to_listen :
    (host : Host) (program port : Str)
    → host.table_lock_init ≡ 0
    → host.open_listenfd port ≡ negsuc 0
    → main host (program ∷ port ∷ []) ≡ exited 1 (codes "Error: Fatal error starting server" ∷ [])
unfolding main construct listen destroy_server delete_tables
program_fails_to_listen host program port lock fails = rw (lock, fails) refl

-- Where `open_listenfd` returns another negative number than -1, and `accept` fails on that with an
-- error, the program exits with code 0 and prints that error only. The mutex of the server is
-- initialised.
pub program_ends_with_success :
    (host : Host) (program port reason : Str) (n : ℕ)
    → host.table_lock_init ≡ 0
    → host.open_listenfd port ≡ negsuc (suc n)
    → host.accept_fails (negsuc (suc n)) ≡ some reason
    → main host (program ∷ port ∷ []) ≡ exited 0 ((codes "Accept error: " ++ reason) ∷ [])
unfolding main construct listen
program_ends_with_success host program port reason n lock fd fails =
    rw (lock, fd, is_minus_one-ne (negsuc (suc n)) (λ h. ground (arith, h)), fails) refl
