-- ===== src/Database/Acquisition.antt =====
-- client_connection.cpp: how a transaction gets a table, against the database.
use mathlib.Core.Logic.{◌⊎◌}
use a_multi_threaded_key_val.Prelude.{
  ℕ, ◌≡◌, refl, sym, ap, ◌∙◌, true, false, none, some, List, ◌∷◌, arith, ==_refl, Option-cases,
  Bool-cases, inl, inr, mem,
}
use a_multi_threaded_key_val.Text.{Str}
use a_multi_threaded_key_val.Map.{find}
use a_multi_threaded_key_val.Exceptions.{failed_transaction}
use a_multi_threaded_key_val.Table.{Table}
use a_multi_threaded_key_val.Table.Laws.{trylock_free, trylock_taken}
use a_multi_threaded_key_val.Server.{Server, set_cell}
use a_multi_threaded_key_val.Connection.{World, returned, raised, join_transaction}
use a_multi_threaded_key_val.Database.{set_entry, acquire, conflict_text}
use a_multi_threaded_key_val.Database.Abstraction.{
  entry, database, database-set_cell, set_entry_self,
}
use a_multi_threaded_key_val.Database.Tables.{with_owner, entry-with_owner, database-changed}
use a_multi_threaded_key_val.Database.Rounds.{Ready, world}

module _ (name : Str) (srv : Server) (i p : ℕ) (vs : List Str) (texts : List Str) where
  -- A connection in a transaction.
  abbrev pub within : List ℕ → Server → World
  within ps srv = world srv i vs true true ps texts

  -- The transaction has the table, in the server `after`.
  pub record Acquired (ps : List ℕ) (after : Server) (qs : List ℕ) : Type 0 where
    pub joins : join_transaction p name (within ps srv) ≡ (returned tt, within qs after)
    pub acquires : acquire i (srv.cell p).table_mutex ≡ some i
    pub held : after.cell p ≡ with_owner p srv (some i)
    pub stands : database after ≡ set_entry name (entry (with_owner p srv (some i))) (database srv)
    pub changes :
        (t : Table) → database (set_cell p t after) ≡ set_entry name (entry t) (database srv)

  -- Another one has it.
  pub record Missed (ps : List ℕ) : Type 0 where
    pub raises :
        join_transaction p name (within ps srv)
        ≡ (raised (failed_transaction (conflict_text name)), within ps srv)
    pub misses : acquire i (srv.cell p).table_mutex ≡ none

  module _ (ps : List ℕ) (ready : Ready (within ps srv))
      (found : find name srv.set_of_table ≡ some p) where
    Acquired-member : mem p ps ≡ true → Acquired ps srv ps
    unfolding join_transaction
    Acquired-member member =
        let own : (srv.cell p).table_mutex ≡ some i = ground (arith, member, ready.sound.locks p) in
        record {
          joins = rw member refl;
          acquires = ap (acquire i) own ∙ rw (==_refl i) refl;
          held = λ k. record (srv.cell p) { table_mutex = own k };
          stands = sym (
              set_entry_self name _ (database srv)
                (rw found (ap some (sym (entry-with_owner p srv (some i) own)))));
          changes = λ t. database-set_cell name p t srv ready.named found;
        }

    Acquired-free :
        mem p ps ≡ false
        → (srv.cell p).table_mutex ≡ none
        → Acquired ps (set_cell p (with_owner p srv (some i)) srv) (p ∷ ps)
    unfolding join_transaction
    Acquired-free other free = record {
      joins = rw (other, trylock_free i (srv.cell p) free) refl;
      acquires = ap (acquire i) free;
      held = rw (==_refl p) refl;
      stands = database-set_cell name p _ srv ready.named found;
      changes = λ t. database-changed name p srv ready.named found _ t;
    }

    Missed-taken : (j : ℕ) → mem p ps ≡ false → (srv.cell p).table_mutex ≡ some j → Missed ps
    unfolding join_transaction
    Missed-taken j other taken = record {
      raises = rw (other, trylock_taken i (srv.cell p) j taken) refl;
      misses = ap (acquire i) taken ∙ ground (arith, other, taken, ready.sound.locks p);
    }

    pub acquisition : ((after : Server) × (qs : List ℕ) × Acquired ps after qs) ⊎ Missed ps
    acquisition = elim (Bool-cases (mem p ps)) [
      | inl member ↦ inl (srv, ps, Acquired-member member)
      | inr other ↦ elim (Option-cases (srv.cell p).table_mutex) [
        | inl free ↦ inl (_, _, Acquired-free other free)
        | inr (j, taken) ↦ inr (Missed-taken j other taken)
      ]
    ]
