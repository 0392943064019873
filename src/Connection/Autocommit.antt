-- ===== src/Connection/Autocommit.antt =====
-- client_connection.cpp: `handle_set` and `handle_get` outside a transaction.
use a_multi_threaded_key_val.Prelude.{
  ℕ, ◌≡◌, ◌≢◌, refl, ap, ◌∙◌, false, none, some, List, [], ◌∷◌, ◌++◌, arith, ==_refl,
}
use a_multi_threaded_key_val.Text.{Str, codes, =str_refl}
use a_multi_threaded_key_val.Map.{find, assign, find-assign}
use a_multi_threaded_key_val.Exceptions.{ok}
use a_multi_threaded_key_val.Message.{MessageType, message, get_table, get_key}
use a_multi_threaded_key_val.Serialization.{encode}
use a_multi_threaded_key_val.Table
use a_multi_threaded_key_val.Table.{Table, lock, unlock, assign_all, commit_changes}
use a_multi_threaded_key_val.Table.Laws.{lock_free}
use a_multi_threaded_key_val.ValueStack
use a_multi_threaded_key_val.Server.{find_table}
use a_multi_threaded_key_val.Connection.{
  World, returned, lift, gets, modify, pure, checked, ◌>>=◌, table_at, respond, stack_top,
  stack_pop, stack_push, table_get, table_set, table_commit, with_guard,
}
use a_multi_threaded_key_val.Connection.Handlers.{server_find_table, handle_set, handle_get}
use a_multi_threaded_key_val.Connection.Arithmetic.{with_stack}

-- What an autocommitted SET makes of a table that is free.
abbrev pub stored : Str → Str → Table → Table
stored key value t = record t {
  key_value = assign key value t.key_value;
  key_value_temp = [];
  table_mutex = none;
}

pub set-stored :
    (i : ℕ) (key value : Str) (t : Table)
    → t.key_value_temp ≡ []
    → unlock (commit_changes (Table.set key value (record t { table_mutex = some i })))
      ≡ stored key value t
unfolding unlock commit_changes Table.set assign
set-stored i key value t e = rw e

abbrev pub ok_text : Str
ok_text = codes "OK" ++ 10 ∷ []

-- Outside a transaction, a GET on a free table pushes the value that the table gives for the key.
get_reads :
    (name key value : Str) (w : World) (p : ℕ)
    → w.conn.m_in_transaction ≡ false
    → find name w.server.set_of_table ≡ some p
    → (table_at p w).table_mutex ≡ none
    → Table.get key (table_at p w) ≡ ok value
    → let r = handle_get (message MessageType.get (name ∷ key ∷ [])) w in
      (r.0 ≡ returned tt)
      × (r.1.conn.m_stack.m_vector ≡ value ∷ w.conn.m_stack.m_vector)
      × (table_at p r.1 ≡ unlock (table_at p w))
unfolding handle_get ◌>>=◌ gets checked get_table get_key server_find_table find_table lift pure
    stack_push ValueStack.push with_guard table_get Table.get unlock modify respond encode
get_reads name key value w p idle found free held =
    rw (found, idle, lock_free w.conn.thread (table_at p w) free, ==_refl p)
      (rw held (refl, refl, rw (==_refl p) refl))

module _ (name key : Str) (w : World) (p : ℕ) (idle : w.conn.m_in_transaction ≡ false)
    (found : find name w.server.set_of_table ≡ some p) (free : (table_at p w).table_mutex ≡ none)
    (clean : (table_at p w).key_value_temp ≡ []) where
  -- Outside a transaction, SET on a free table stores the value on the top of the stack under the
  -- key at once: the table is free again, with no pending entry; no other table changes, the value
  -- is off the stack, and the answer is OK.
  pub set_stores :
      (value : Str) (rest : List Str)
      → let r =
          handle_set (message MessageType.set (name ∷ key ∷ [])) (with_stack (value ∷ rest) w) in
        (r.0 ≡ returned tt)
        × (table_at p r.1 ≡ stored key value (table_at p w))
        × ((q : ℕ) → q ≢ p → table_at q r.1 ≡ table_at q w)
        × (r.1.conn.m_stack.m_vector ≡ rest)
        × (r.1.conn.written ≡ ok_text ∷ w.conn.written)
  unfolding handle_set ◌>>=◌ gets checked get_table get_key server_find_table find_table lift pure
      stack_top stack_pop ValueStack.is_empty ValueStack.get_top ValueStack.pop with_guard table_set
      table_commit modify respond encode
  set_stores value rest =
      rw (found, idle, lock_free w.conn.thread (table_at p w) free)
        (
          refl,
          rw (==_refl p) (set-stored w.conn.thread key value (table_at p w) clean),
          λ q n. ground arith,
          refl,
          refl,
        )

  kept :
      (value : Str) (rest : List Str)
      → let w' =
          (handle_set
            (message MessageType.set (name ∷ key ∷ []))
            (with_stack (value ∷ rest) w)).1 in
        (w'.conn.m_in_transaction ≡ false) × (find name w'.server.set_of_table ≡ some p)
  unfolding handle_set ◌>>=◌ gets checked get_table get_key server_find_table find_table lift pure
      stack_top stack_pop ValueStack.is_empty ValueStack.get_top ValueStack.pop with_guard table_set
      table_commit modify respond encode
  kept value rest = rw (found, idle, lock_free w.conn.thread (table_at p w) free) (refl, found)

  -- Outside a transaction, a GET right after a SET of the same key of a free table pushes the value
  -- that SET took off the stack, so both together leave the stack as it was; the table holds the
  -- stored entry and is free.
  pub get_after_set :
      (value : Str) (rest : List Str)
      → let r =
          handle_get
            (message MessageType.get (name ∷ key ∷ []))
            (handle_set
              (message MessageType.set (name ∷ key ∷ []))
              (with_stack (value ∷ rest) w)).1 in
        (r.0 ≡ returned tt)
        × (r.1.conn.m_stack.m_vector ≡ value ∷ rest)
        × (table_at p r.1 ≡ stored key value (table_at p w))
  unfolding unlock Table.get find
  get_after_set value rest =
      let s = set_stores value rest in
      let k = kept value rest in
      let g =
        get_reads name key value
          (handle_set (message MessageType.set (name ∷ key ∷ [])) (with_stack (value ∷ rest) w)).1 p
          k.0 k.1 (ap (λ t. t.table_mutex) s.1)
          (ap (Table.get key) s.1
            ∙ rw (find-assign key key value (table_at p w).key_value, =str_refl key) refl) in
      (g.0, g.1 ∙ ap (λ v. value ∷ v) s.3, g.2 ∙ ap unlock s.1)
