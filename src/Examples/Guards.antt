-- ===== src/Examples/Guards.antt =====
-- The theorems on steps inside the block of a Guard, at concrete inputs.
use a_multi_threaded_key_val.Prelude.{ℕ, ◌≡◌, refl, true, false, none, some, mem, arith, []}
use a_multi_threaded_key_val.Prelude.Family.{update}
use a_multi_threaded_key_val.Text.{codes, ◌=str◌}
use a_multi_threaded_key_val.Table
use a_multi_threaded_key_val.Table.{Table, lock, trylock}
use a_multi_threaded_key_val.Connection.{
  World, set_table, pure, raise, lift, checked, gets, modify, ◌>>=◌, respond, join_transaction,
  for_each_table, rollback_and_unlock, end_transaction,
}
use a_multi_threaded_key_val.Connection.Chat.{chat_step, c_string, serve, dispatch, recover}
use a_multi_threaded_key_val.Scenarios.{line, begun, run}
use a_multi_threaded_key_val.System.{view, install, request, proceed}
use a_multi_threaded_key_val.System.Guards.{
  Block, reading, left, Enters, gets_in, Workers, GuardStep, outside, enters, GuardReach,
  guard_next, Reach-GuardReach,
}
use a_multi_threaded_key_val.Serialization.{decode, encode}
use a_multi_threaded_key_val.Connection.Handlers.{handle_get, server_find_table}
use a_multi_threaded_key_val.Server.{find_table}
use a_multi_threaded_key_val.Map.{find}
use a_multi_threaded_key_val.Message.{get_table, get_key, is_valid, is_identifier, is_value}
use a_multi_threaded_key_val.System.Guards.Safety.{guards_isolate, guards_exclude, guards_leave}

-- Connection 0 reads the entry, and stands in the block of its Guard.
abbrev block : Block
block = reading (codes "k")

abbrev locked_world : World
locked_world =
    set_table 0 (record (begun.last.server.cell 0) { table_mutex = some 0 }) (view 0 begun.last)

abbrev standing : Workers
standing = record {
  system = install 0 locked_world begun.last;
  inside = update (λ i. none) 0 (some (block, 0));
}

comes_to_the_block : Enters 0 begun.last block 0 locked_world
unfolding run lock
comes_to_the_block = gets_in (line "GET t k") (codes "t") (codes "k") 0 _ refl refl refl refl refl

begun-alive : begun.last.alive 0 ≡ true
unfolding run
begun-alive = refl

standing-GuardReach : GuardReach (λ _. 0) standing
standing-GuardReach =
    guard_next (Reach-GuardReach begun.reach) 0 (enters refl begun-alive comes_to_the_block)

-- In between, connection 1 asks for the same entry, and its transaction fails.
abbrev after_conflict : Workers
after_conflict = record standing {
  system = proceed 1 true (chat_step (line "GET t k") (view 1 standing.system)).1 standing.system;
}

conflict-GuardStep : GuardStep 1 standing after_conflict
unfolding run chat_step c_string decode encode serve dispatch recover handle_get server_find_table
    find_table find ◌=str◌ get_table get_key Table.get lock trylock pure raise lift checked gets
    modify ◌>>=◌ respond is_valid is_identifier is_value join_transaction for_each_table
    rollback_and_unlock end_transaction
conflict-GuardStep = outside refl (request (line "GET t k") true refl refl)

transaction-failed : (after_conflict.system.conns 1).m_in_transaction ≡ false
unfolding run chat_step c_string decode encode serve dispatch recover handle_get server_find_table
    find_table find ◌=str◌ get_table get_key Table.get lock trylock pure raise lift checked gets
    modify ◌>>=◌ respond is_valid is_identifier is_value join_transaction for_each_table
    rollback_and_unlock end_transaction
transaction-failed = refl

guards_isolate_example : after_conflict.system.server.cell 0 ≡ standing.system.server.cell 0
guards_isolate_example =
    guards_isolate standing-GuardReach conflict-GuardStep 0 0 (λ same. ground (arith, same)) refl

guards_exclude_example :
    ((standing.system.server.cell 0).table_mutex ≡ some 0)
    × ((standing.system.server.cell 0).key_value_temp ≡ [])
    × ((k : ℕ) → mem 0 (standing.system.conns k).locked_tables ≡ false)
    × ((k : ℕ) (c : Block) → standing.inside k ≡ some (c, 0) → k ≡ 0)
guards_exclude_example = guards_exclude standing-GuardReach 0 block 0 refl

guards_leave_example :
    let t : Workers = record {
      system = install 0 (left block 0 (view 0 standing.system)).1 standing.system;
      inside = update standing.inside 0 none;
    } in
    GuardStep 0 standing t × ((t.system.server.cell 0).table_mutex ≡ none)
guards_leave_example = guards_leave standing-GuardReach 0 block 0 refl
