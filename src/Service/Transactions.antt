-- ===== src/Service/Transactions.antt =====
-- client_connection.cpp: the rounds of a transaction on one table.
use a_multi_threaded_key_val.Prelude.{ℕ, ◌≡◌, refl, true, none, some, List, [], ◌∷◌, ==_refl}
use a_multi_threaded_key_val.Text.{Str}
use a_multi_threaded_key_val.Map.{find}
use a_multi_threaded_key_val.Exceptions.{ok}
use a_multi_threaded_key_val.Message.{MessageType, message, get_table, get_key}
use a_multi_threaded_key_val.Serialization.{encode, decode}
use a_multi_threaded_key_val.Table
use a_multi_threaded_key_val.Table.{Table}
use a_multi_threaded_key_val.Table.Laws.{trylock_free}
use a_multi_threaded_key_val.ValueStack
use a_multi_threaded_key_val.Server.{Server, set_cell, find_table}
use a_multi_threaded_key_val.Connection.{
  returned, lift, gets, modify, pure, checked, ◌>>=◌, respond, stack_top, stack_pop, stack_push,
  table_get, table_set, join_transaction, end_transaction, for_each_table, commit_and_unlock,
}
use a_multi_threaded_key_val.Connection.Handlers.{
  server_find_table, handle_set, handle_get, handle_begin, handle_commit,
}
use a_multi_threaded_key_val.Connection.Chat.{c_string, dispatch, serve, chat_step}
use a_multi_threaded_key_val.Connection.Rounds.{chat_step-serve}
use a_multi_threaded_key_val.Connection.Autocommit.{ok_text}
use a_multi_threaded_key_val.Service.Rounds.{working, state}

module _ (buf : Str) (srv : Server) (i : ℕ) where
  pub begin_round :
      (vs : List Str)
      → decode (c_string buf) ≡ ok (message MessageType.begin [])
      → chat_step buf (state srv i vs []) ≡ (returned true, working true [] srv i vs (ok_text ∷ []))
  begin_round vs d =
      chat_step-serve buf _ _ _ (returned true) d
        (unfold serve dispatch handle_begin ◌>>=◌ gets pure modify respond lift encode in refl)

  module _ (table key : Str) (p : ℕ) (found : find table srv.set_of_table ≡ some p) where
    -- The table joins the transaction.
    pub joining_get_round :
        (value : Str) (vs : List Str)
        → decode (c_string buf) ≡ ok (message MessageType.get (table ∷ key ∷ []))
        → (srv.cell p).table_mutex ≡ none
        → Table.get key (srv.cell p) ≡ ok value
        → chat_step buf (working true [] srv i vs []) ≡ (
          returned true,
          working true
              (p ∷ [])
              (set_cell p (record (srv.cell p) { table_mutex = some i }) srv)
              i
              (value ∷ vs)
              (ok_text ∷ []),
        )
    unfolding Table.get serve dispatch handle_get ◌>>=◌ gets checked get_table get_key
        server_find_table find_table lift pure stack_push ValueStack.push join_transaction table_get
        modify respond encode find
    joining_get_round value vs d free held =
        chat_step-serve buf _ _ _ (returned true) d
          (rw (found, trylock_free i (srv.cell p) free, ==_refl p) (rw held refl))

    -- The table is in the transaction already.
    pub locked_set_round :
        (value : Str) (vs : List Str)
        → decode (c_string buf) ≡ ok (message MessageType.set (table ∷ key ∷ []))
        → chat_step buf (working true (p ∷ []) srv i (value ∷ vs) []) ≡ (
          returned true,
          working true
              (p ∷ [])
              (set_cell p (Table.set key value (srv.cell p)) srv)
              i
              vs
              (ok_text ∷ []),
        )
    unfolding serve dispatch handle_set ◌>>=◌ gets checked get_table get_key server_find_table
        find_table lift pure stack_top stack_pop ValueStack.is_empty ValueStack.get_top
        ValueStack.pop join_transaction table_set modify respond encode find
    locked_set_round value vs d =
        chat_step-serve buf _ _ _ (returned true) d (rw (found, ==_refl p) refl)

  pub commit_round :
      (p : ℕ) (vs : List Str)
      → decode (c_string buf) ≡ ok (message MessageType.commit [])
      → chat_step buf (working true (p ∷ []) srv i vs []) ≡ (
        returned true,
        state (set_cell p (commit_and_unlock (srv.cell p)) srv) i vs (ok_text ∷ []),
      )
  commit_round p vs d = chat_step-serve buf _ _ _ (returned true) d (
      unfold serve dispatch handle_commit ◌>>=◌ gets pure modify respond lift encode end_transaction
        for_each_table in
      refl)
