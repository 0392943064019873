-- ===== src/Connection/Losses.antt =====
-- client_connection.cpp: what a SET that fails does to the stack.
use a_multi_threaded_key_val.Prelude.{
  ℕ, ◌≤◌, ◌≡◌, ◌∙◌, true, false, none, some, List, [], ◌∷◌, length, arith,
}
use a_multi_threaded_key_val.Text.{Str, codes}
use a_multi_threaded_key_val.Map.{find}
use a_multi_threaded_key_val.Exceptions.{ok, operation_exception, failed_transaction}
use a_multi_threaded_key_val.Message.{MessageType, message, get_table, get_key}
use a_multi_threaded_key_val.Serialization.{decode}
use a_multi_threaded_key_val.Table.Laws.{trylock_taken}
use a_multi_threaded_key_val.ValueStack
use a_multi_threaded_key_val.Server.{find_table}
use a_multi_threaded_key_val.Connection.{
  World, returned, raised, lift, gets, pure, checked, ◌>>=◌, mem, table_at, stack_top, stack_pop,
  join_transaction, end_transaction, rollback_and_unlock,
}
use a_multi_threaded_key_val.Connection.Handlers.{server_find_table, handle_set}
use a_multi_threaded_key_val.Connection.Chat.{c_string, dispatch, serve, chat_step}
use a_multi_threaded_key_val.Connection.Arithmetic.{with_stack, with_text}
use a_multi_threaded_key_val.Connection.Rounds.{failed_text, recover-operation, chat_step-serve}
use a_multi_threaded_key_val.Connection.Endings.{conflict, recover-failed}

abbrev pub no_such_table : Str
no_such_table = codes "The table that you want to find is not exist"

module _ (buf name key value : Str) (rest : List Str) (w : World)
    (line : decode (c_string buf) ≡ ok (message MessageType.set (name ∷ key ∷ [])))
    (logged_in : w.conn.m_logged_in ≡ true) where
  serve-absent :
      find name w.server.set_of_table ≡ none
      → serve (message MessageType.set (name ∷ key ∷ [])) (with_stack (value ∷ rest) w)
        ≡ (raised (operation_exception no_such_table), with_stack rest w)
  unfolding serve dispatch handle_set ◌>>=◌ gets checked get_table get_key server_find_table
      find_table lift pure stack_top stack_pop ValueStack.is_empty ValueStack.get_top ValueStack.pop
  serve-absent absent = rw (logged_in, absent)

  -- A SET of a table that does not exist is answered with FAILED, and the value on the top of the
  -- stack is gone; nothing else changes, and the loop goes on.
  pub failed_set_loses_the_value :
      find name w.server.set_of_table ≡ none
      → chat_step buf (with_stack (value ∷ rest) w)
        ≡ (returned true, with_text (failed_text no_such_table) (with_stack rest w))
  failed_set_loses_the_value absent =
      chat_step-serve buf _ _ _ _ line (serve-absent absent)
      ∙ recover-operation no_such_table (with_stack rest w) (omega arith)

  module _ (p j : ℕ) (busy : w.conn.m_in_transaction ≡ true)
      (found : find name w.server.set_of_table ≡ some p)
      (other : mem p w.conn.locked_tables ≡ false)
      (taken : (table_at p w).table_mutex ≡ some j) where
    serve-taken :
        serve (message MessageType.set (name ∷ key ∷ [])) (with_stack (value ∷ rest) w)
        ≡ (raised (failed_transaction (conflict name)), with_stack rest w)
    unfolding serve dispatch handle_set ◌>>=◌ gets checked get_table get_key server_find_table
        find_table lift pure stack_top stack_pop ValueStack.is_empty ValueStack.get_top
        ValueStack.pop join_transaction
    serve-taken =
        rw (logged_in, found, busy, other, trylock_taken w.conn.thread (table_at p w) j taken)

    -- In a transaction, a SET of a table whose mutex another connection holds is answered with
    -- FAILED, rolls back and unlocks every locked table, ends the transaction, and takes the value
    -- off the stack. The name has at most 984 bytes.
    pub conflicting_set :
        length name ≤ 984
        → chat_step buf (with_stack (value ∷ rest) w) ≡ (
          returned true,
          with_text
              (failed_text (conflict name))
              (end_transaction rollback_and_unlock (with_stack rest w)),
        )
    conflicting_set short =
        chat_step-serve buf _ _ _ _ line serve-taken
        ∙ recover-failed (conflict name) (with_stack rest w) (omega arith)
