-- ===== src/Scenarios.antt =====
-- Runs of the server on concrete lines, for the examples.
use mathlib.Core.List.{foldl}
use a_multi_threaded_key_val.Prelude.{ℕ, ◌≡◌, refl, Bool, true, String, List, [], ◌∷◌, ◌++◌}
use a_multi_threaded_key_val.Prelude.Int.{pos}
use a_multi_threaded_key_val.Text.{Str, codes, ◌=str◌}
use a_multi_threaded_key_val.Map.{find, assign}
use a_multi_threaded_key_val.Message.{
  get_table, get_key, get_value, is_valid, is_identifier, is_value,
}
use a_multi_threaded_key_val.Serialization.{encode, decode}
use a_multi_threaded_key_val.Number.{stoi, to_string, read_digits, digits}
use a_multi_threaded_key_val.Prelude.Int.{◌+ℤ◌, ◌-ℤ◌, ◌*ℤ◌, ◌/ℤ◌}
use a_multi_threaded_key_val.Table
use a_multi_threaded_key_val.Table.{lock, unlock, trylock, commit_changes, rollback_changes}
use a_multi_threaded_key_val.ValueStack
use a_multi_threaded_key_val.Server.{create_table, find_table}
use a_multi_threaded_key_val.Connection.{
  Outcome, returned, pure, raise, undefined_behaviour, lift, checked, gets, modify, ◌>>=◌, respond,
  stack_top, stack_pop, stack_push, table_get, table_set, table_commit, with_guard,
  join_transaction, for_each_table, commit_and_unlock, rollback_and_unlock, end_transaction,
  disconnect,
}
use a_multi_threaded_key_val.Connection.Handlers.{
  server_create_table, server_find_table, handle_login, handle_create, handle_get, handle_set,
  handle_push, handle_pop, handle_top, handle_add, handle_sub, handle_mul, handle_div, handle_begin,
  handle_commit, handle_bye,
}
use a_multi_threaded_key_val.Connection.Chat.{c_string, dispatch, serve, recover, chat_step}
use a_multi_threaded_key_val.System.{
  System, accepting, request, Reach, start, next, init, view, accept, finish,
}

-- The line that a client sends.
abbrev pub line : String → Str
line s = codes s ++ 10 ∷ []

pub record Run : Type 0 where
  pub last : System
  pub reach : Reach (λ _. 0) last

-- A connection is accepted.
abbrev arrive : Run → Run
arrive r = record { last = _; reach = next r.reach r.last.accepted (accepting true refl) }

abbrev take_turn :
    (r : Run) (i : ℕ) (buf : Str) (b : Bool) (o : Outcome Bool)
    → r.last.alive i ≡ b
    → (chat_step buf (view i r.last)).0 ≡ o
    → Run
take_turn r i buf true (returned active) live e = record {
  last = _;
  reach = next r.reach i (request buf active live e);
}
take_turn r i buf _ _ live e = r

-- Connection `i` is sent the line, unless it has ended or would wait.
turn : Run → ℕ × String → Run
turn r (i, s) =
    take_turn r i (line s) (r.last.alive i) (chat_step (line s) (view i r.last)).0 refl refl

abbrev two_clients : Run
two_clients = arrive (arrive (record { last = init (λ _. 0) (pos 3); reach = start (pos 3) }))

-- Two connections and the lines that they send, in order.
unfoldable pub run : List (ℕ × String) → Run
unfolding turn accept finish chat_step c_string decode encode serve dispatch recover handle_login
    handle_create handle_get handle_set handle_push handle_pop handle_top handle_add handle_sub
    handle_mul handle_div handle_begin handle_commit handle_bye server_create_table
    server_find_table create_table find_table find assign ◌=str◌ get_table get_key get_value stoi
    to_string read_digits digits ◌+ℤ◌ ◌-ℤ◌ ◌*ℤ◌ ◌/ℤ◌ Table.set Table.get lock unlock trylock
    commit_changes rollback_changes ValueStack.push ValueStack.pop ValueStack.get_top
    ValueStack.get_num_of_stack ValueStack.is_empty pure raise undefined_behaviour lift checked gets
    modify ◌>>=◌ respond is_valid is_identifier is_value stack_top stack_pop stack_push table_get
    table_set table_commit with_guard join_transaction for_each_table commit_and_unlock
    rollback_and_unlock end_transaction disconnect
run = foldl turn two_clients

-- Connection 0 is in a transaction and has the table `t`, at index 0, locked; connection 1 is not.
abbrev script : List (ℕ × String)
script =
    (0, "LOGIN alice")
    ∷ (0, "CREATE t")
    ∷ (0, "PUSH 41")
    ∷ (0, "SET t k")
    ∷ (1, "LOGIN bob")
    ∷ (1, "PUSH 7")
    ∷ (0, "BEGIN")
    ∷ (0, "PUSH 42")
    ∷ (0, "SET t k")
    ∷ []

abbrev pub contended : Run
contended = run script

-- Connection 1 is in a transaction and has the table `t`, at index 0, locked; connection 0 is in a
-- transaction too.
abbrev pub conflicting : Run
conflicting = run (
    (0, "LOGIN alice")
    ∷ (0, "CREATE t")
    ∷ (1, "LOGIN bob")
    ∷ (1, "BEGIN")
    ∷ (1, "PUSH 5")
    ∷ (1, "SET t k")
    ∷ (0, "BEGIN")
    ∷ [])

-- Connection 0 has logged in and created `t`; neither connection is in a transaction.
abbrev pub quiet : Run
quiet = run ((0, "LOGIN alice") ∷ (0, "CREATE t") ∷ [])

-- Connection 0 has stored 41 under the key `k` of the table `t`; no connection is in a transaction.
abbrev pub filled : Run
filled = run ((0, "LOGIN alice") ∷ (0, "CREATE t") ∷ (0, "PUSH 41") ∷ (0, "SET t k") ∷ [])

-- Connection 0 has added one to the entry in a transaction, between two transactions of connection 1,
-- and the first of these was rolled back by a conflict.
abbrev pub serial : Run
serial = run (
    (0, "LOGIN alice")
    ∷ (1, "LOGIN bob")
    ∷ (0, "CREATE t")
    ∷ (0, "PUSH 41")
    ∷ (0, "SET t k")
    ∷ (0, "BEGIN")
    ∷ (0, "GET t k")
    ∷ (1, "BEGIN")
    ∷ (1, "PUSH 7")
    ∷ (1, "SET t k")
    ∷ (0, "PUSH 1")
    ∷ (0, "ADD")
    ∷ (0, "SET t k")
    ∷ (0, "COMMIT")
    ∷ (1, "BEGIN")
    ∷ (1, "GET t k")
    ∷ [])

-- Connection 0 has stored 41 under the key `k` of the table `t`; connection 1 is in a transaction and
-- has no table locked.
abbrev pub begun : Run
begun = run (
    (0, "LOGIN alice")
    ∷ (0, "CREATE t")
    ∷ (0, "PUSH 41")
    ∷ (0, "SET t k")
    ∷ (1, "LOGIN bob")
    ∷ (1, "BEGIN")
    ∷ [])
