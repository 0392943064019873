-- ===== src/Examples/Database.antt =====
-- The theorems on the database that the server stands for, at concrete inputs.
use a_multi_threaded_key_val.Prelude.{ℕ, ◌≡◌, refl, true, some, [], ◌∷◌, mem}
use a_multi_threaded_key_val.Text.{Str, codes}
use a_multi_threaded_key_val.Map.{find}
use a_multi_threaded_key_val.Exceptions.{ok}
use a_multi_threaded_key_val.Message.{MessageType, message}
use a_multi_threaded_key_val.Serialization.{encode, decode}
use a_multi_threaded_key_val.Table
use a_multi_threaded_key_val.Table.Refinement.{or_failure}
use a_multi_threaded_key_val.Connection.{returned}
use a_multi_threaded_key_val.Connection.Chat.{c_string, chat_step}
use a_multi_threaded_key_val.Scenarios.{line, conflicting, serial, run}
use a_multi_threaded_key_val.System.{view}
use a_multi_threaded_key_val.Database.{Reply}
use a_multi_threaded_key_val.Database.Abstraction.{database, client}
use a_multi_threaded_key_val.Database.Rounds.{request_of, reply_message, Refines}
use a_multi_threaded_key_val.Database.Refinement.{answer_to, rounds_refine_database}
use a_multi_threaded_key_val.Database.Users.{Uses}
use a_multi_threaded_key_val.Database.Simulation.{users, system_refines_database}
use a_multi_threaded_key_val.Database.Journal.{
  read, wrote, nothing, replay, Agrees, accesses, journal,
}
use a_multi_threaded_key_val.Database.Journal.Serial.{committed}
use a_multi_threaded_key_val.Database.Journal.Serializable.{commits_are_serial}
use a_multi_threaded_key_val.Database.Journal.Noted.{Consistent, getting, answers_are_noted}
use a_multi_threaded_key_val.Database.Journal.Running.{transactions_could_run_now}

rounds_refine_database_example :
    Refines
      (conflicting.last.conns 0).written
      (answer_to 0
        (decode (c_string (line "GET t k")))
        (database conflicting.last.server)
        (client (conflicting.last.conns 0)))
      (chat_step (line "GET t k") (view 0 conflicting.last))
rounds_refine_database_example = rounds_refine_database conflicting.reach 0 (line "GET t k")

system_refines_database_example : Uses (λ _. 0) (users conflicting.last)
system_refines_database_example = system_refines_database conflicting.reach

-- The history of the run, and what connection 1 has read in its second transaction.
history-serial :
    (journal serial.reach).history
    ≡ wrote (codes "t") (codes "k") (codes "41")
      ∷ read (codes "t") (codes "k") (some (codes "41"))
      ∷ wrote (codes "t") (codes "k") (codes "42")
      ∷ []
unfolding run journal
history-serial = refl

drafts-serial :
    (journal serial.reach).drafts 1 ≡ read (codes "t") (codes "k") (some (codes "42")) ∷ []
unfolding run journal
drafts-serial = refl

commits_are_serial_example :
    Agrees (journal serial.reach).history nothing
    × ((name key : Str) (p : ℕ)
        → find name serial.last.server.set_of_table ≡ some p
        → replay (journal serial.reach).history nothing name key
          ≡ find key (serial.last.server.cell p).key_value)
commits_are_serial_example = commits_are_serial serial.reach

transactions_could_run_now_example :
    Agrees ((journal serial.reach).drafts 1) (committed (database serial.last.server))
    × ((name key : Str) (p : ℕ)
        → find name serial.last.server.set_of_table ≡ some p
        → mem p (serial.last.conns 1).locked_tables ≡ true
        → Table.get key (serial.last.server.cell p)
          ≡ or_failure (
              replay
                ((journal serial.reach).drafts 1)
                (committed (database serial.last.server))
                name
                key))
transactions_could_run_now_example = transactions_could_run_now serial.reach 1

get_decodes :
    decode (c_string (line "GET t k")) ≡ ok (message MessageType.get (codes "t" ∷ codes "k" ∷ []))
unfolding run
get_decodes = refl

get_returns : (chat_step (line "GET t k") (view 1 serial.last)).0 ≡ returned true
unfolding run
get_returns = refl

answers_are_noted_example :
    let after = (chat_step (line "GET t k") (view 1 serial.last)).1.conn in
    let req = request_of MessageType.get (codes "t" ∷ codes "k" ∷ []) in
    (reply : Reply) × (text : Str) × (encode (reply_message reply) ≡ ok text)
    × (after.written ≡ text ∷ (serial.last.conns 1).written)
    × Consistent reply
        (serial.last.conns 1).m_stack.m_vector
        after.m_stack.m_vector
        (accesses 1 req (database serial.last.server) (client (serial.last.conns 1)))
answers_are_noted_example =
    answers_are_noted serial.reach 1 (line "GET t k") (codes "t") (codes "k") MessageType.get true
      getting get_decodes get_returns
