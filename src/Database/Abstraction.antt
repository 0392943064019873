-- ===== src/Database/Abstraction.antt =====
-- The database that a server stands for, and what the changes of the server do to it.
use mathlib.Core.Option
use mathlib.Core.Path.{fun_ext}
use a_multi_threaded_key_val.Prelude.{
  ℕ, ◌+◌, ◌≡◌, refl, sym, ap, ◌∙◌, Bool, true, false, Option, none, some, List, [], ◌∷◌, arith,
  ==_refl, Bool-cases, if◌then◌else◌, Option-cases, inl, inr, mem,
}
use a_multi_threaded_key_val.Text.{Str, ◌=str◌, =str_iff, =str→eq}
use a_multi_threaded_key_val.Map.{find, find-assign}
use a_multi_threaded_key_val.Table.{Table, empty_table, rollback_changes}
use a_multi_threaded_key_val.Table.Refinement.{
  Spec, spec, spec_commit, spec_rollback, IsWellFormed, table_refines_spec,
}
use a_multi_threaded_key_val.Server.{Server, set_cell, add_table}
use a_multi_threaded_key_val.Server.Tables.{IsIndexed}
use a_multi_threaded_key_val.Connection.{
  Connection, for_each_table, commit_and_unlock, rollback_and_unlock,
}
use a_multi_threaded_key_val.Connection.Invariant.{owns}
use a_multi_threaded_key_val.Connection.Transactions.{
  IsEnding, names-for_each_table, cell-for_each_table,
}
use a_multi_threaded_key_val.Database.{
  Entry, Database, Client, set_entry, owned, ended, end_all, new_entry,
}

abbrev pub entry : Table → Entry
entry t = record { content = spec t; owner = t.table_mutex }

abbrev pub entries : Server → Str → Option Entry
entries srv n = Option.map (λ p. entry (srv.cell p)) (find n srv.set_of_table)

abbrev pub database : Server → Database
database srv = record { tables = entries srv; created = srv.allocated; mutex_init = srv.mutex_init }

abbrev pub client : Connection → Client
client c = record {
  stack = c.m_stack.m_vector;
  logged_in = c.m_logged_in;
  in_transaction = c.m_in_transaction;
}

-- A change of the table that `name` leads to.
pub database-set_cell :
    (name : Str) (p : ℕ) (t : Table) (srv : Server)
    → IsIndexed srv
    → find name srv.set_of_table ≡ some p
    → database (set_cell p t srv) ≡ set_entry name (entry t) (database srv)
database-set_cell name p t srv ix found =
    ap (λ f. record { tables = f; created = srv.allocated; mutex_init = srv.mutex_init })
      (fun_ext at_name)
  where
    at_name :
        (n : Str)
        → entries (set_cell p t srv) n ≡ (if name =str n then some (entry t) else entries srv n)
    at_name n = elim (Option-cases (find n srv.set_of_table)) [
      | inl absent ↦ ground (arith, absent, found, =str_iff name n)
      | inr (q, leads) ↦ ground (arith, leads, found, =str_iff name n, ix.apart name n p)
    ]

-- The second of two changes of one table.
pub set_cell_twice :
    (p : ℕ) (t u : Table) (srv : Server) → set_cell p u (set_cell p t srv) ≡ set_cell p u srv
set_cell_twice p t u srv = ap (λ c. record srv { cell = c }) (fun_ext λ q. ground arith)

-- A change after which the table stands for what it stood for.
pub set_entry_self :
    (name : Str) (e : Entry) (db : Database) → db.tables name ≡ some e → set_entry name e db ≡ db
set_entry_self name e db held =
    ap (λ f. record db { tables = f })
      (fun_ext λ n. elim (Bool-cases (name =str n)) [
        | inl same ↦ rw same (sym held ∙ ap db.tables (=str→eq name n same))
        | inr other ↦ rw other refl
      ])

entry-empty_table : (name : Str) → entry (empty_table name) ≡ new_entry
unfolding find
entry-empty_table name = refl

-- A new table.
pub database-add_table :
    (name : Str) (srv : Server)
    → IsIndexed srv
    → find name srv.set_of_table ≡ none
    → database (add_table name srv (empty_table name))
      ≡ record (set_entry name new_entry (database srv)) { created = srv.allocated + 1 }
database-add_table name srv ix absent =
    ap (λ f. record { tables = f; created = srv.allocated + 1; mutex_init = srv.mutex_init })
      (fun_ext at_name)
  where
    at_name :
        (n : Str)
        → entries (add_table name srv (empty_table name)) n
          ≡ (if name =str n then some new_entry else entries srv n)
    at_name n =
        rw (find-assign name n srv.allocated srv.set_of_table) (elim (Bool-cases (name =str n)) [
          | inl same ↦ rw (same, ==_refl srv.allocated) (ap some (entry-empty_table name))
          | inr other ↦ rw other (elim (Option-cases (find n srv.set_of_table)) [
            | inl absent ↦ rw absent refl
            | inr (q, leads) ↦ ground (arith, leads, ix.in_use n q)
          ])
        ])

mutex_init-for_each_table :
    (f : Table → Table) (ps : List ℕ) (srv : Server)
    → (for_each_table f ps srv).mutex_init ≡ srv.mutex_init
unfolding for_each_table
mutex_init-for_each_table f [] srv = refl
mutex_init-for_each_table f (p ∷ ps) srv =
    mutex_init-for_each_table f ps (set_cell p (f (srv.cell p)) srv)

-- `g` is what `f` does to the contents of a table.
abbrev pub Means : (Table → Table) → (Spec → Spec) → Table → Type 0
Means f g t = spec (f t) ≡ g (spec t)

pub commit_and_unlock-Means : (t : Table) → IsWellFormed t → Means commit_and_unlock spec_commit t
unfolding commit_and_unlock
commit_and_unlock-Means t h = (table_refines_spec t [] [] h).1

pub rollback_and_unlock-Means : (t : Table) → Means rollback_and_unlock spec_rollback t
unfolding rollback_and_unlock rollback_changes find
rollback_and_unlock-Means t = refl

pub owned-owns : (i : ℕ) (o : Option ℕ) → owned i o ≡ owns i o
owned-owns i none = refl
owned-owns i (some j) = refl

-- The loops over the tables that thread `i` has locked.
module _ (f : Table → Table) (g : Spec → Spec) (ending : IsEnding f) (i : ℕ) where
  entry-ended :
      (t : Table) (b : Bool)
      → Means f g t
      → b ≡ owned i t.table_mutex
      → entry (if b then f t else t) ≡ ended g i (entry t)
  entry-ended t true means e = rw (sym e) (simp (means, ending.unlocks t))
  entry-ended t false means e = rw (sym e) refl

  pub database-for_each_table :
      (ps : List ℕ) (srv : Server)
      → ((p : ℕ) → Means f g (srv.cell p))
      → ((p : ℕ) → mem p ps ≡ owned i (srv.cell p).table_mutex)
      → database (for_each_table f ps srv) ≡ end_all g i (database srv)
  database-for_each_table ps srv means locks =
      let tables : entries (for_each_table f ps srv)
          ≡ (λ n. Option.map (ended g i) (entries srv n)) =
        fun_ext at_name in
      let (names, count) = names-for_each_table f ps srv in
      λ k. record {
        tables = tables k;
        created = count k;
        mutex_init = mutex_init-for_each_table f ps srv k;
      }
    where
      at_name :
          (n : Str) → entries (for_each_table f ps srv) n ≡ Option.map (ended g i) (entries srv n)
      at_name n =
          rw (names-for_each_table f ps srv).0 (elim (Option-cases (find n srv.set_of_table)) [
            | inl absent ↦ rw absent refl
            | inr (p, leads) ↦
                rw (leads, cell-for_each_table f ps srv p ending.idem)
                  (ap some (entry-ended (srv.cell p) (mem p ps) (means p) (locks p)))
          ])
