-- ===== src/Table/Laws.antt =====
-- table.cpp: the mutex of a table, free and taken.
use a_multi_threaded_key_val.Prelude.{ℕ, ◌≡◌, true, false, none, some, arith}
use a_multi_threaded_key_val.Table.{Table, lock, trylock}

pub trylock_free :
    (i : ℕ) (t : Table)
    → t.table_mutex ≡ none
    → trylock i t ≡ (true, record t { table_mutex = some i })
unfolding trylock
trylock_free i t h = ground arith

pub trylock_taken : (i : ℕ) (t : Table) (j : ℕ) → t.table_mutex ≡ some j → trylock i t ≡ (false, t)
unfolding trylock
trylock_taken i t j h = ground arith

pub lock_free :
    (i : ℕ) (t : Table) → t.table_mutex ≡ none → lock i t ≡ some (record t { table_mutex = some i })
unfolding lock
lock_free i t h = ground arith

pub lock_taken : (i : ℕ) (t : Table) (j : ℕ) → t.table_mutex ≡ some j → lock i t ≡ none
unfolding lock
lock_taken i t j h = ground arith
