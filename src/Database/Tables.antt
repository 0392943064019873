-- ===== src/Database/Tables.antt =====
-- client_connection.cpp: CREATE, GET and SET, against the database.
use a_multi_threaded_key_val.Prelude.{
  ℕ, ◌≡◌, refl, sym, ap, ◌∙◌, Bool, true, Option, some, List, ◌∷◌, ◌==◌, Option-cases, Bool-cases,
  inl, inr,
}
use a_multi_threaded_key_val.Text.{Str}
use a_multi_threaded_key_val.Map.{find}
use a_multi_threaded_key_val.Message.{MessageType, get_table}
use a_multi_threaded_key_val.Serialization.{encode}
use a_multi_threaded_key_val.Table.{Table, empty_table, new_table}
use a_multi_threaded_key_val.Server.Tables.{IsIndexed}
use a_multi_threaded_key_val.Table.Refinement.{spec}
use a_multi_threaded_key_val.Server.{Server, set_cell, add_table, create_table}
use a_multi_threaded_key_val.Connection.{World, lift, gets, modify, pure, checked, ◌>>=◌, respond}
use a_multi_threaded_key_val.Connection.Handlers.{handle_create, server_create_table}
use a_multi_threaded_key_val.Connection.Chat.{dispatch, serve}
use a_multi_threaded_key_val.Database.{set_entry, perform, answer}
use a_multi_threaded_key_val.Database.Abstraction.{
  entry, database, database-set_cell, set_cell_twice, set_entry_self, set_cell_twice,
  set_entry_self, database-add_table,
}
use a_multi_threaded_key_val.Database.Rounds.{Meets, Ready, world, recover-failure}

module _ (srv : Server) (i : ℕ) (vs : List Str) (busy : Bool) (ps : List ℕ) (texts : List Str) where
  abbrev at : Server → World
  at srv = world srv i vs true busy ps texts

  pub create-Meets :
      (name : Str) (args : List Str)
      → Ready (at srv)
      → Meets MessageType.create (name ∷ args) (at srv)
  unfolding answer perform serve dispatch handle_create ◌>>=◌ gets pure lift checked get_table
      server_create_table create_table new_table respond modify encode
  create-Meets name args ready = elim (Option-cases (find name srv.set_of_table)) [
    | inr (p, taken) ↦ rw taken (at srv, recover-failure _ _, refl, refl, refl)
    | inl absent ↦ elim (Bool-cases (srv.mutex_init srv.allocated == 0)) [
      | inr fails ↦ rw (absent, fails) (at srv, recover-failure _ _, refl, refl, refl)
      | inl works ↦
          rw (absent, works)
            (
              at (add_table name srv (empty_table name)),
              refl,
              database-add_table name srv ready.named absent,
              refl,
              refl,
            )
    ]
  ]

module _ (p : ℕ) (srv : Server) where
  -- The table with another owner.
  abbrev pub with_owner : Option ℕ → Table
  with_owner o = record (srv.cell p) { table_mutex = o }

  pub entry-with_owner :
      (o : Option ℕ) → (srv.cell p).table_mutex ≡ o → entry (with_owner o) ≡ entry (srv.cell p)
  entry-with_owner o e = ap (λ m. record { content = spec (srv.cell p); owner = m }) (sym e)

module _ (name : Str) (p : ℕ) (srv : Server) (ix : IsIndexed srv)
    (found : find name srv.set_of_table ≡ some p) where
  -- Two changes of the table, one behind the other.
  pub database-changed :
      (t u : Table)
      → database (set_cell p u (set_cell p t srv)) ≡ set_entry name (entry u) (database srv)
  database-changed t u =
      ap database (set_cell_twice p t u srv) ∙ database-set_cell name p u srv ix found

  -- Two changes that leave the table as it was.
  pub database-same :
      (t u : Table)
      → entry u ≡ entry (srv.cell p)
      → database (set_cell p u (set_cell p t srv)) ≡ database srv
  database-same t u same =
      database-changed t u
      ∙ set_entry_self name (entry u) (database srv) (rw found (ap some (sym same)))
