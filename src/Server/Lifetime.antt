-- ===== src/Server/Lifetime.antt =====
-- server.cpp and table.cpp: `listen`, `log_error`, and the constructors and destructors.
use a_multi_threaded_key_val.Prelude.{
  ℕ, false, Option, none, some, List, [], ◌∷◌, ◌++◌, ◌==◌, mem, if◌then◌else◌, Bool,
}
use a_multi_threaded_key_val.Prelude.Int.{ℤ, pos, negsuc}
use a_multi_threaded_key_val.Text.{Str, codes}
use a_multi_threaded_key_val.Map.{Map}
use a_multi_threaded_key_val.Exceptions.{Result, ok, throw, operation_exception}
use a_multi_threaded_key_val.Table.{Table}
use a_multi_threaded_key_val.Server.{Server, new_server}

-- `Server()`, where `pthread_mutex_init` has returned `code` for `table_lock`.
unfoldable pub construct : ℕ → (ℕ → ℕ) → Result Server
construct code init =
    if code == 0
    then ok (new_server init)
    else throw (operation_exception (codes "fail to init table_mutex"))

abbrev pub is_minus_one : ℤ → Bool
is_minus_one (pos n) = false
is_minus_one (negsuc n) = n == 0

-- The descriptor is stored before it is tested.
unfoldable pub listen : (Str → ℤ) → Str → Server → Result (Unit {0}) × Server
listen open_listenfd port srv =
    let fd = open_listenfd port in
    (
      if is_minus_one fd then throw (operation_exception (codes "fail to listen")) else ok tt,
      record srv { listen_fd = fd },
    )

-- The line that is written to `std::cerr`.
abbrev pub log_error : Str → Str
log_error what = codes "Error: " ++ what

-- `~Table()`: it is undefined to destroy a mutex that is locked.
unfoldable pub destroy_table : Table → Option (Unit {0})
destroy_table t = elim t.table_mutex [ none ↦ some tt | some j ↦ none ]

abbrev behind : Option (Unit {0}) → Option (List ℕ) → Option (List ℕ)
behind none rest = none
behind (some u) rest = rest

-- The loop of `~Server()`, where the tables in `gone` have been deleted. It is undefined to delete
-- a table twice.
unfoldable pub delete_tables : Map ℕ → (ℕ → Table) → List ℕ → Option (List ℕ)
unfolding destroy_table
delete_tables [] cell gone = some gone
delete_tables ((name, p) ∷ m) cell gone =
    let rest = delete_tables m cell (p ∷ gone) in
    if mem p gone then none else behind (destroy_table (cell p)) rest

-- `~Server()`: the tables that it has deleted. `table_lock` is destroyed behind the loop.
unfoldable pub destroy_server : Server → Option (List ℕ)
unfolding delete_tables
destroy_server srv = delete_tables srv.set_of_table srv.cell []
