-- ===== src/Examples/Service.antt =====
-- The theorems on the server program, and on the client programs against the server, at concrete
-- inputs.
use a_multi_threaded_key_val.Prelude.{◌++◌, ◌≡◌, refl, true, some, [], ◌∷◌, arith}
use a_multi_threaded_key_val.Prelude.Int.{pos, negsuc, ◌+ℤ◌}
use a_multi_threaded_key_val.Text.{Str, codes}
use a_multi_threaded_key_val.Exceptions.{ok}
use a_multi_threaded_key_val.Message.{is_identifier, is_value}
use a_multi_threaded_key_val.Number.{to_string, in_range}
use a_multi_threaded_key_val.Table
use a_multi_threaded_key_val.Connection.Autocommit.{stored}
use a_multi_threaded_key_val.Client.SetValue
use a_multi_threaded_key_val.Client.GetValue
use a_multi_threaded_key_val.Client.IncrValue
use a_multi_threaded_key_val.Program.{Host, exited, main, program_ends_with_success}
use a_multi_threaded_key_val.Service.{accepted, server_peer, process, server_after}
use a_multi_threaded_key_val.Service.Lines.{Delivers}
use a_multi_threaded_key_val.Service.Programs.{Ready, get_value_after_set_value}
use a_multi_threaded_key_val.Map.{find}
use a_multi_threaded_key_val.Service.Conflict.{incr_value_meets_a_lock}
use a_multi_threaded_key_val.Service.Increment.{incr_value_adds_one}
use a_multi_threaded_key_val.Scenarios.{filled, contended, run}

-- The look-up of the port fails, and `accept` refuses the descriptor -2.
abbrev no_such_port : Host
no_such_port = record {
  table_lock_init = 0;
  mutex_init = λ _. 0;
  open_listenfd = λ port. negsuc 1;
  accept_fails = λ fd. some (codes "Bad file descriptor");
}

ends_with_success :
    main no_such_port (codes "./server" ∷ codes "x" ∷ [])
    ≡ exited 0 (codes "Accept error: Bad file descriptor" ∷ [])
ends_with_success =
    program_ends_with_success no_such_port (codes "./server") (codes "x")
      (codes "Bad file descriptor") 0 refl refl refl

abbrev as_it_is : Str → Str
as_it_is line = line

as_it_is-Delivers : Delivers as_it_is
as_it_is-Delivers front inner short = refl

abbrev host : Str
host = codes "localhost"

abbrev port : Str
port = codes "5000"

abbrev user : Str
user = codes "alice"

t-is_identifier : is_identifier (codes "t") ≡ true
unfolding run
t-is_identifier = refl

k-is_identifier : is_identifier (codes "k") ≡ true
unfolding run
k-is_identifier = refl

user-is_identifier : is_identifier user ≡ true
unfolding run
user-is_identifier = refl

seven-is_value : is_value (codes "7") ≡ true
unfolding run
seven-is_value = refl

filled-Ready : Ready filled.last.server (codes "t") 0
unfolding run
filled-Ready = record { found = refl; free = refl; clean = refl }

filled-held : Table.get (codes "k") (filled.last.server.cell 0) ≡ ok (to_string (pos 41))
unfolding run
filled-held = refl

forty_two : in_range (pos 41 +ℤ pos 1) ≡ true
unfolding ◌+ℤ◌
forty_two = refl

get_value_after_set_value_example :
    let set_process =
      SetValue.main
        (server_peer as_it_is)
        (host ∷ port ∷ user ∷ codes "t" ∷ codes "k" ∷ codes "7" ∷ [])
        (process (accepted 2 filled.last.server)) in
    let get_process =
      GetValue.main
        (server_peer as_it_is)
        (host ∷ port ∷ user ∷ codes "t" ∷ codes "k" ∷ [])
        (process (accepted 3 (server_after set_process.1))) in
    (set_process.0 ≡ some 0) × (get_process.0 ≡ some 0) × (get_process.1.stdout ≡ codes "7" ∷ [])
get_value_after_set_value_example =
    get_value_after_set_value as_it_is as_it_is-Delivers user (codes "t") (codes "k")
      user-is_identifier t-is_identifier k-is_identifier (omega arith) (omega arith) host port
      (codes "7") seven-is_value refl (omega arith) filled.last.server 0 2 3 filled-Ready

incr_value_adds_one_example :
    let arguments = host ∷ port ∷ user ∷ codes "t" ∷ codes "k" ∷ [] in
    let plain =
      IncrValue.main (server_peer as_it_is) arguments (process (accepted 2 filled.last.server)) in
    let transactional =
      IncrValue.main
        (server_peer as_it_is)
        (codes "-t" ∷ arguments)
        (process (accepted 2 filled.last.server)) in
    let incremented =
      stored (codes "k") (to_string (pos 41 +ℤ pos 1)) (filled.last.server.cell 0) in
    (plain.0 ≡ some 0)
    × ((server_after plain.1).cell 0 ≡ incremented)
    × (transactional.0 ≡ some 0)
    × ((server_after transactional.1).cell 0 ≡ incremented)
incr_value_adds_one_example =
    incr_value_adds_one as_it_is as_it_is-Delivers user (codes "t") (codes "k") user-is_identifier
      t-is_identifier k-is_identifier (omega arith) (omega arith) host port filled.last.server 0 2
      filled-Ready (pos 41) filled-held refl forty_two

contended_found : find (codes "t") contended.last.server.set_of_table ≡ some 0
unfolding run
contended_found = refl

contended_taken : (contended.last.server.cell 0).table_mutex ≡ some 0
unfolding run
contended_taken = refl

incr_value_meets_a_lock_example :
    let r =
      IncrValue.main
        (server_peer as_it_is)
        (codes "-t" ∷ host ∷ port ∷ user ∷ codes "t" ∷ codes "k" ∷ [])
        (process (accepted 2 contended.last.server)) in
    (r.0 ≡ some 1)
    × (r.1.stderr
        ≡ (codes "Error: GET failed. Server response: Could not acquire lock on table "
            ++ codes "t")
          ∷ [])
    × (server_after r.1 ≡ contended.last.server)
incr_value_meets_a_lock_example =
    incr_value_meets_a_lock as_it_is as_it_is-Delivers user (codes "t") (codes "k")
      user-is_identifier t-is_identifier k-is_identifier (omega arith) (omega arith) (omega arith)
      host port contended.last.server 0 2 0 contended_found contended_taken
