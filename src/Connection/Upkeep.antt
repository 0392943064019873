-- ===== src/Connection/Upkeep.antt =====
-- What a predicate on tables and one on connections need so that the actions of
-- client_connection.cpp keep both.
pub mod Rules
use a_multi_threaded_key_val.Prelude.{
  ℕ, ◌+◌, ◌≡◌, refl, Bool, true, false, Option, none, some, List, [], ◌∷◌, Option-cases, Bool-cases,
  inl, inr, ◌==◌, All, if◌then◌else◌, arith,
}
use a_multi_threaded_key_val.Prelude.Int.{ℤ}
use a_multi_threaded_key_val.Text.{Str}
use a_multi_threaded_key_val.Map.{Map, find, assign}
use a_multi_threaded_key_val.Exceptions.{Exception, Result, ok, throw}
use a_multi_threaded_key_val.Message.{MessageType, Message, message, get_value}
use a_multi_threaded_key_val.Serialization.{encode, decode}
use a_multi_threaded_key_val.Number.{to_string, in_range}
use a_multi_threaded_key_val.Table
use a_multi_threaded_key_val.Table.{
  Table, empty_table, unlock, new_table, commit_changes, rollback_changes,
}
use a_multi_threaded_key_val.Table.Laws.{lock_free, lock_taken, trylock_free, trylock_taken}
use a_multi_threaded_key_val.ValueStack
use a_multi_threaded_key_val.Server.{Server, set_cell, create_table}
use a_multi_threaded_key_val.Connection.{
  Connection, new_connection, World, Action, Outcome, returned, raised, blocked, undefined, pure,
  raise, undefined_behaviour, lift, checked, gets, modify, continue, of_result, ◌>>=◌, mem,
  set_conn, set_table, table_at, respond, popped, stack_top, stack_pop, stack_push, table_get,
  table_set, table_commit, with_guard, join_transaction, for_each_table, end_transaction,
  commit_and_unlock, rollback_and_unlock,
}
use a_multi_threaded_key_val.Connection.Handlers.{
  server_create_table, server_find_table, ok_response,
}

-- The messages that the server answers with, where `Good` holds of a value that it sends.
pub data Reply (Good : Str → Type 0) : Message → Type 0 where
  done : Reply Good ok_response
  refused : (what : Str) → Reply Good (message MessageType.failed (what ∷ []))
  rejected : (what : Str) → Reply Good (message MessageType.error (what ∷ []))
  shown : (value : Str) → Good value → Reply Good (message MessageType.data_type (value ∷ []))

-- `Good` is kept by the values, `TableOk` by the tables, `ConnOk` by the connection, and `NamesOk` by
-- the map from names to tables and the number of the tables.
pub record Upkeep : Type 1 where
  pub Good : Str → Type 0
  pub TableOk : Table → Type 0
  pub ConnOk : Connection → Type 0
  pub NamesOk : Map ℕ → ℕ → Type 0
  pub new_ok : (i : ℕ) → ConnOk (new_connection i)
  pub created_ok : (name : Str) → TableOk (empty_table name)
  pub no_names_ok : NamesOk [] 0
  pub named_ok :
      (name : Str) (m : Map ℕ) (n : ℕ)
      → find name m ≡ none
      → NamesOk m n
      → NamesOk (assign name n m) (n + 1)
  pub mutex_ok : (t : Table) (o : Option ℕ) → TableOk t → TableOk (record t { table_mutex = o })
  pub set_ok :
      (key value : Str) (t : Table) → Good value → TableOk t → TableOk (Table.set key value t)
  pub get_ok : (key value : Str) (t : Table) → TableOk t → Table.get key t ≡ ok value → Good value
  pub commit_ok : (t : Table) → TableOk t → TableOk (commit_changes t)
  pub rollback_ok : (t : Table) → TableOk t → TableOk (rollback_changes t)
  pub flags_ok :
      (c : Connection) (l b : Bool) (ps : List ℕ)
      → ConnOk c
      → ConnOk (record c { m_logged_in = l; m_in_transaction = b; locked_tables = ps })
  pub stack_ok :
      (c : Connection) (vs : List Str)
      → All Good vs
      → ConnOk c
      → ConnOk (record c { m_stack = record { m_vector = vs } })
  pub stack_good : (c : Connection) → ConnOk c → All Good c.m_stack.m_vector
  pub spoken_ok :
      (c : Connection) (msg : Message) (text : Str)
      → Reply Good msg
      → encode msg ≡ ok text
      → ConnOk c
      → ConnOk (record c { written = text ∷ c.written })
  pub number_good : (z : ℤ) → in_range z ≡ true → Good (to_string z)
  pub read_good :
      (line value : Str) (msg : Message)
      → decode line ≡ ok msg
      → msg.m_message_type ≡ MessageType.push
      → get_value msg ≡ some value
      → Good value

module _ (u : Upkeep) where
  open u use {TableOk, ConnOk, NamesOk}

  abbrev pub ServerKept : Server → Type 0
  ServerKept srv = ((p : ℕ) → TableOk (srv.cell p)) × NamesOk srv.set_of_table srv.allocated

  abbrev pub IsKept : World → Type 0
  IsKept w = ServerKept w.server × ConnOk w.conn

  pub record Kept {ℓ} {A : Type ℓ} (m : Action A) : Type ℓ where
    pub keeps : (w : World) → IsKept w → IsKept (m w).1
