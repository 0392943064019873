-- ===== src/Examples/Loops.antt =====
-- The theorems on the loops that visit one table at a time, and on what is undefined, at concrete
-- inputs.
use a_multi_threaded_key_val.Prelude.{
  ℕ, ◌≡◌, ◌≢◌, refl, true, none, some, [], ◌∷◌, mem, All, ◌<◌, arith,
}
use a_multi_threaded_key_val.Prelude.Family.{update}
use a_multi_threaded_key_val.Text.{codes}
use a_multi_threaded_key_val.Exceptions.{ok}
use a_multi_threaded_key_val.Message.{MessageType, Message, message}
use a_multi_threaded_key_val.Serialization.{decode}
use a_multi_threaded_key_val.Server.{new_server}
use a_multi_threaded_key_val.Connection.{World, undefined, new_connection}
use a_multi_threaded_key_val.Connection.Chat.{c_string, chat_step}
use a_multi_threaded_key_val.Connection.Arithmetic.{with_stack}
use a_multi_threaded_key_val.Connection.Defined.{is_arithmetic, undefined_only_in_arithmetic}
use a_multi_threaded_key_val.Scenarios.{line, contended, run}
use a_multi_threaded_key_val.System.{view, install}
use a_multi_threaded_key_val.System.Visits.{
  Threads, committing, visited, commits, begins, visits, FineReach, fine_next,
}
use a_multi_threaded_key_val.System.Visits.Safety.{interleaved_loops_are_safe}
use a_multi_threaded_key_val.System.Visits.Loops.{Reach-FineReach}

commit_decodes : decode (c_string (line "COMMIT")) ≡ ok (message MessageType.commit [])
unfolding run
commit_decodes = refl

alice_logged_in : (contended.last.conns 0).m_logged_in ≡ true
unfolding run
alice_logged_in = refl

alice_busy : (contended.last.conns 0).m_in_transaction ≡ true
unfolding run
alice_busy = refl

alice_lives : contended.last.alive 0 ≡ true
unfolding run
alice_lives = refl

-- Connection 0 is in the loop of its COMMIT, and has not visited the table yet.
abbrev in_loop : Threads
in_loop = record {
  system = install 0 (view 0 contended.last) contended.last;
  ending = update (λ i. none) 0 (some committing);
}

in_loop_reached : FineReach (λ _. 0) in_loop
in_loop_reached =
    fine_next (Reach-FineReach contended.reach) 0
      (begins refl alice_lives (commits (line "COMMIT") commit_decodes alice_logged_in alice_busy))

in_loop_member : mem 0 (in_loop.system.conns 0).locked_tables ≡ true
unfolding run
in_loop_member = refl

abbrev visited_loop : Threads
visited_loop = record in_loop {
  system = install 0 (visited committing 0 (view 0 in_loop.system)) in_loop.system;
}

interleaved_loops_are_safe_example :
    ((p j : ℕ)
      → mem p (in_loop.system.conns j).locked_tables ≡ true
      → j ≢ 0
      → visited_loop.system.server.cell p ≡ in_loop.system.server.cell p)
    × ((p j k : ℕ)
        → mem p (visited_loop.system.conns j).locked_tables ≡ true
        → mem p (visited_loop.system.conns k).locked_tables ≡ true
        → j ≡ k)
    × ((p : ℕ)
        → (visited_loop.system.server.cell p).table_mutex ≡ none
        → (visited_loop.system.server.cell p).key_value_temp ≡ [])
interleaved_loops_are_safe_example =
    interleaved_loops_are_safe in_loop_reached (visits committing 0 refl alice_lives in_loop_member)

-- The greatest `int` and 1 are on the stack.
abbrev full : World
full = with_stack (codes "1" ∷ codes "2147483647" ∷ []) (record {
  server = new_server (λ _. 0);
  conn = record (new_connection 0) { m_logged_in = true };
})

overflows : (chat_step (line "ADD") full).0 ≡ undefined
unfolding run
overflows = refl

add_is_plain : All (λ c. c < 128) (line "ADD")
add_is_plain = (omega arith, (omega arith, (omega arith, (omega arith, tt))))

undefined_only_in_arithmetic_example :
    (req : Message) × (decode (c_string (line "ADD")) ≡ ok req)
    × (is_arithmetic req.m_message_type ≡ true)
undefined_only_in_arithmetic_example =
    undefined_only_in_arithmetic (line "ADD") full add_is_plain overflows
