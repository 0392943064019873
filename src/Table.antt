-- ===== src/Table.antt =====
-- table.h and table.cpp: a table with its committed entries, the entries that are pending, and its
-- mutex. The laws of the operations stand in `Table.Laws`.
pub mod Laws
pub mod Refinement
use a_multi_threaded_key_val.Prelude.{
  ℕ, Bool, true, false, Option, none, some, [], ◌∷◌, ◌==◌, if◌then◌else◌,
}
use a_multi_threaded_key_val.Text.{Str, codes}
use a_multi_threaded_key_val.Map.{Map, find, assign}
use a_multi_threaded_key_val.Exceptions.{Result, ok, throw, operation_exception}

-- `table_mutex` is `some i` while thread `i` holds the mutex.
pub record Table : Type 0 where
  pub m_name : Str
  pub key_value : Map Str
  pub key_value_temp : Map Str
  pub table_mutex : Option ℕ

abbrev pub empty_table : Str → Table
empty_table name = record { m_name = name; key_value = []; key_value_temp = []; table_mutex = none }

-- The constructor, where `pthread_mutex_init` has returned `code`.
unfoldable pub new_table : Str → ℕ → Result Table
new_table name code =
    if code == 0
    then ok (empty_table name)
    else throw (operation_exception (codes "fail to init table_mutex"))

-- `pthread_mutex_lock` by thread `i`: `none` while another owner has the mutex, and the caller waits.
unfoldable pub lock : ℕ → Table → Option Table
lock i t = elim t.table_mutex [ none ↦ some (record t { table_mutex = some i }) | some j ↦ none ]

unfoldable pub unlock : Table → Table
unlock t = record t { table_mutex = none }

-- `pthread_mutex_trylock` by thread `i`: it never waits.
unfoldable pub trylock : ℕ → Table → Bool × Table
trylock i t = elim t.table_mutex [
  | none ↦ (true, record t { table_mutex = some i })
  | some j ↦ (false, t)
]

unfoldable pub set : Str → Str → Table → Table
set key value t = record t { key_value_temp = assign key value t.key_value_temp }

abbrev or_missing : Option Str → Result Str
or_missing (some value) = ok value
or_missing none = throw (operation_exception (codes "The key is not in the map"))

-- The pending entry comes before the committed one.
abbrev first_some : Option Str → Option Str → Option Str
first_some (some value) other = some value
first_some none other = other

unfoldable pub get : Str → Table → Result Str
get key t = or_missing (first_some (find key t.key_value_temp) (find key t.key_value))

abbrev is_found : Option Str → Bool
is_found (some value) = true
is_found none = false

unfoldable pub has_key : Str → Table → Bool
has_key key t =
    if is_found (find key t.key_value_temp) then true else is_found (find key t.key_value)

-- The loop of `commit_changes` over the pending entries.
unfoldable pub assign_all : Map Str → Map Str → Map Str
assign_all [] m = m
assign_all ((key, value) ∷ pending) m = assign_all pending (assign key value m)

unfoldable pub commit_changes : Table → Table
unfolding assign_all
commit_changes t = record t {
  key_value = assign_all t.key_value_temp t.key_value;
  key_value_temp = [];
}

unfoldable pub rollback_changes : Table → Table
rollback_changes t = record t { key_value_temp = [] }
