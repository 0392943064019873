-- ===== src/Service/Rounds.antt =====
-- client_connection.cpp: the rounds that the client programs ask for.
use a_multi_threaded_key_val.Prelude.{
  ℕ, ◌≡◌, refl, Bool, true, false, none, some, List, [], ◌∷◌, ==_refl,
}
use a_multi_threaded_key_val.Prelude.Int.{ℤ, ◌+ℤ◌}
use a_multi_threaded_key_val.Number.{to_string, in_range}
use a_multi_threaded_key_val.Text.{Str}
use a_multi_threaded_key_val.Map.{find}
use a_multi_threaded_key_val.Exceptions.{ok}
use a_multi_threaded_key_val.Message.{MessageType, message, get_table, get_key, get_value}
use a_multi_threaded_key_val.Serialization.{encode, decode}
use a_multi_threaded_key_val.Table
use a_multi_threaded_key_val.Table.{Table, unlock}
use a_multi_threaded_key_val.Table.Laws.{lock_free}
use a_multi_threaded_key_val.ValueStack
use a_multi_threaded_key_val.Server.{Server, find_table}
use a_multi_threaded_key_val.Connection.{
  World, returned, lift, gets, modify, pure, checked, ◌>>=◌, respond, stack_top, stack_pop,
  stack_push, table_get, table_set, table_commit, with_guard, new_connection,
}
use a_multi_threaded_key_val.Connection.Handlers.{
  server_find_table, handle_login, handle_push, handle_set, handle_get,
}
use a_multi_threaded_key_val.Connection.Chat.{c_string, dispatch, serve, chat_step}
use a_multi_threaded_key_val.Connection.Rounds.{chat_step-serve}
use a_multi_threaded_key_val.Connection.Arithmetic.{add_of_printed}
use a_multi_threaded_key_val.Connection.Autocommit.{ok_text, stored, set-stored}
use a_multi_threaded_key_val.Connection.Values.{IsFitting}
use a_multi_threaded_key_val.System.Values.{data_text, serve-top}

-- Connection `i` after LOGIN, with its flag and its tables.
abbrev pub working : Bool → List ℕ → Server → ℕ → List Str → List Str → World
working busy ps srv i vs texts = record {
  server = srv;
  conn = record {
    thread = i;
    m_stack = record { m_vector = vs };
    m_logged_in = true;
    m_in_transaction = busy;
    locked_tables = ps;
    written = texts;
  };
}

-- Connection `i` after LOGIN, in no transaction.
abbrev pub state : Server → ℕ → List Str → List Str → World
state = working false []

module _ (buf : Str) (srv : Server) (i : ℕ) where
  pub login_round :
      (username : Str)
      → decode (c_string buf) ≡ ok (message MessageType.login (username ∷ []))
      → chat_step buf (record { server = srv; conn = new_connection i })
        ≡ (returned true, state srv i [] (ok_text ∷ []))
  login_round username d =
      chat_step-serve buf _ _ _ (returned true) d
        (unfold serve dispatch handle_login ◌>>=◌ gets pure modify respond lift encode in refl)

  pub push_round :
      (busy : Bool) (ps : List ℕ) (value : Str) (vs : List Str)
      → decode (c_string buf) ≡ ok (message MessageType.push (value ∷ []))
      → chat_step buf (working busy ps srv i vs [])
        ≡ (returned true, working busy ps srv i (value ∷ vs) (ok_text ∷ []))
  push_round busy ps value vs d = chat_step-serve buf _ _ _ (returned true) d (
      unfold serve dispatch handle_push ◌>>=◌ gets pure modify respond lift encode checked get_value
        stack_push ValueStack.push in
      refl)

  module _ (table key : Str) (p : ℕ) (found : find table srv.set_of_table ≡ some p)
      (free : (srv.cell p).table_mutex ≡ none) where
    abbrev served_get : List Str → Server
    served_get vs =
        (serve (message MessageType.get (table ∷ key ∷ [])) (state srv i vs [])).1.server

    -- The table stays as it is, and the name leads to it.
    pub get_round :
        (value : Str) (vs : List Str)
        → decode (c_string buf) ≡ ok (message MessageType.get (table ∷ key ∷ []))
        → Table.get key (srv.cell p) ≡ ok value
        → (after : Server) × (chat_step buf (state srv i vs [])
            ≡ (returned true, state after i (value ∷ vs) (ok_text ∷ [])))
          × (find table after.set_of_table ≡ some p)
          × (after.cell p ≡ unlock (srv.cell p))
    unfolding Table.get unlock serve dispatch handle_get ◌>>=◌ gets checked get_table get_key
        server_find_table find_table lift pure stack_push ValueStack.push with_guard table_get
        modify respond encode find
    get_round value vs d held =
        let locked = lock_free i (srv.cell p) free in
        (
          served_get vs,
          chat_step-serve buf _ _ _ (returned true) d
              (rw (found, locked, ==_refl p) (rw held refl)),
          rw (found, locked, ==_refl p) (rw held found),
          rw (found, locked, ==_refl p) (rw held (rw (==_refl p) refl)),
        )

    abbrev served_set : Str → List Str → Server
    served_set value vs =
        (serve (message MessageType.set (table ∷ key ∷ [])) (state srv i (value ∷ vs) [])).1.server

    -- The value is stored, and the name leads to the table.
    pub set_round :
        (value : Str) (vs : List Str)
        → decode (c_string buf) ≡ ok (message MessageType.set (table ∷ key ∷ []))
        → (srv.cell p).key_value_temp ≡ []
        → (after : Server) × (chat_step buf (state srv i (value ∷ vs) [])
            ≡ (returned true, state after i vs (ok_text ∷ [])))
          × (find table after.set_of_table ≡ some p)
          × (after.cell p ≡ stored key value (srv.cell p))
    unfolding serve dispatch handle_set ◌>>=◌ gets checked get_table get_key server_find_table
        find_table lift pure stack_top stack_pop ValueStack.is_empty ValueStack.get_top
        ValueStack.pop with_guard table_set table_commit modify respond encode find
    set_round value vs d clean =
        let locked = lock_free i (srv.cell p) free in
        (
          served_set value vs,
          chat_step-serve buf _ _ _ (returned true) d (rw (found, locked) refl),
          rw (found, locked) found,
          rw (found, locked, ==_refl p) (set-stored i key value (srv.cell p) clean),
        )

  pub top_round :
      (value : Str) (vs : List Str)
      → decode (c_string buf) ≡ ok (message MessageType.top [])
      → IsFitting value
      → chat_step buf (state srv i (value ∷ vs) [])
        ≡ (returned true, state srv i (value ∷ vs) (data_text value ∷ []))
  top_round value vs d fits =
      chat_step-serve buf _ _ _ (returned true) d
        (serve-top value vs (state srv i (value ∷ vs) []) fits refl refl)

  -- The operands are texts of `int`s, with the left one below.
  pub add_round :
      (busy : Bool) (ps : List ℕ) (a b : ℤ) (vs : List Str)
      → decode (c_string buf) ≡ ok (message MessageType.add [])
      → in_range a ≡ true
      → in_range b ≡ true
      → in_range (a +ℤ b) ≡ true
      → chat_step buf (working busy ps srv i (to_string b ∷ to_string a ∷ vs) [])
        ≡ (returned true, working busy ps srv i (to_string (a +ℤ b) ∷ vs) (ok_text ∷ []))
  add_round busy ps a b vs d fits_a fits_b fits =
      let added = add_of_printed a b vs (working busy ps srv i [] []) fits_a fits_b fits in
      chat_step-serve buf _ _ _ (returned true) d
        (unfold serve dispatch ◌>>=◌ gets pure in rw added refl)
