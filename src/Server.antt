-- ===== src/Server.antt =====
-- server.h and server.cpp: the tables of the server by name. A `Table*` is an index into `cell`,
-- where `new` takes the first index that is not in use; no table is deleted while the server runs.
pub mod Tables
pub mod Lifetime
pub mod Deletion
use a_multi_threaded_key_val.Prelude.{ℕ, ◌+◌, Option, none, some, []}
use a_multi_threaded_key_val.Prelude.Family.{update}
use a_multi_threaded_key_val.Prelude.Int.{ℤ, negsuc}
use a_multi_threaded_key_val.Text.{Str, codes}
use a_multi_threaded_key_val.Map.{Map, find, assign}
use a_multi_threaded_key_val.Exceptions.{Result, ok, throw, operation_exception, ◌>>=◌}
use a_multi_threaded_key_val.Table.{Table, new_table}

-- `mutex_init n` is what `pthread_mutex_init` returns for the table at index `n`.
pub record Server : Type 0 where
  pub listen_fd : ℤ
  pub set_of_table : Map ℕ
  pub cell : ℕ → Table
  pub allocated : ℕ
  pub mutex_init : ℕ → ℕ

abbrev unused : Table
unused = record { m_name = []; key_value = []; key_value_temp = []; table_mutex = none }

-- `Server()`, where `pthread_mutex_init` succeeds for `table_lock`.
abbrev pub new_server : (ℕ → ℕ) → Server
new_server init = record {
  listen_fd = negsuc 0;
  set_of_table = [];
  cell = λ _. unused;
  allocated = 0;
  mutex_init = init;
}

abbrev pub set_cell : ℕ → Table → Server → Server
set_cell p t srv = record srv { cell = update srv.cell p t }

abbrev pub add_table : Str → Server → Table → Server
add_table name srv t = record srv {
  set_of_table = assign name srv.allocated srv.set_of_table;
  cell = update srv.cell srv.allocated t;
  allocated = srv.allocated + 1;
}

abbrev pub create_if_absent : Str → Server → Option ℕ → Result Server
create_if_absent name srv (some p) =
    throw (operation_exception (codes "Table with that name already exists"))
create_if_absent name srv none =
    new_table name (srv.mutex_init srv.allocated) >>= λ t. ok (add_table name srv t)

unfoldable pub create_table : Str → Server → Result Server
unfolding new_table
create_table name srv = create_if_absent name srv (find name srv.set_of_table)

abbrev pub or_absent : Option ℕ → Result ℕ
or_absent (some p) = ok p
or_absent none = throw (operation_exception (codes "The table that you want to find is not exist"))

unfoldable pub find_table : Str → Server → Result ℕ
find_table name srv = or_absent (find name srv.set_of_table)
