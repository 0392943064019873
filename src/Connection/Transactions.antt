-- ===== src/Connection/Transactions.antt =====
-- client_connection.cpp: the loops over `locked_tables`, in a commit, a rollback and the destructor.
use a_multi_threaded_key_val.Prelude.{
  ℕ, ◌≡◌, refl, sym, ap, ◌∙◌, none, List, [], ◌∷◌, arith, if◌then◌else◌,
}
use a_multi_threaded_key_val.Table.{Table}
use a_multi_threaded_key_val.Map.{find}
use a_multi_threaded_key_val.Server.{Server, set_cell}
use a_multi_threaded_key_val.Connection.{
  World, modify, mem, table_at, for_each_table, end_transaction, commit_and_unlock,
  rollback_and_unlock,
}
use a_multi_threaded_key_val.Connection.Invariant.{IsSound, Frame, Safe}

pub names-for_each_table :
    (f : Table → Table) (ps : List ℕ) (srv : Server)
    → ((for_each_table f ps srv).set_of_table ≡ srv.set_of_table)
      × ((for_each_table f ps srv).allocated ≡ srv.allocated)
unfolding for_each_table
names-for_each_table f [] srv = (refl, refl)
names-for_each_table f (p ∷ ps) srv = names-for_each_table f ps (set_cell p (f (srv.cell p)) srv)

-- `f` reaches the tables of the list and no other. A second visit must not change a table again.
pub cell-for_each_table :
    (f : Table → Table) (ps : List ℕ) (srv : Server) (q : ℕ)
    → ((t : Table) → f (f t) ≡ f t)
    → (for_each_table f ps srv).cell q ≡ (if mem q ps then f (srv.cell q) else srv.cell q)
unfolding for_each_table
cell-for_each_table f [] srv q idem = refl
cell-for_each_table f (p ∷ ps) srv q idem =
    ground
      (arith, cell-for_each_table f ps (set_cell p (f (srv.cell p)) srv) q idem, idem (srv.cell p))

-- What `commit_and_unlock` and `rollback_and_unlock` have in common.
pub record IsEnding (f : Table → Table) : Type 0 where
  pub idem : (t : Table) → f (f t) ≡ f t
  pub unlocks : (t : Table) → (f t).table_mutex ≡ none
  pub empties : (t : Table) → (f t).key_value_temp ≡ []

pub commit_and_unlock-IsEnding : IsEnding commit_and_unlock
unfolding commit_and_unlock
commit_and_unlock-IsEnding = record { idem = λ t. refl; unlocks = λ t. refl; empties = λ t. refl }

pub rollback_and_unlock-IsEnding : IsEnding rollback_and_unlock
unfolding rollback_and_unlock
rollback_and_unlock-IsEnding = record { idem = λ t. refl; unlocks = λ t. refl; empties = λ t. refl }

module _ (f : Table → Table) (e : IsEnding f) (w : World) where
  pub cell-end_transaction :
      (q : ℕ)
      → table_at q (end_transaction f w)
        ≡ (if mem q w.conn.locked_tables then f (table_at q w) else table_at q w)
  unfolding end_transaction
  cell-end_transaction q = cell-for_each_table f w.conn.locked_tables w.server q e.idem

  -- The facts about `end_transaction` that the invariant needs, with the function shut.
  fields :
      ((end_transaction f w).conn.thread ≡ w.conn.thread)
      × ((end_transaction f w).conn.locked_tables ≡ [])
      × ((end_transaction f w).server.set_of_table ≡ w.server.set_of_table)
      × ((end_transaction f w).server.allocated ≡ w.server.allocated)
  unfolding end_transaction
  fields =
      let (names, count) = names-for_each_table f w.conn.locked_tables w.server in
      (refl, refl, names, count)

  pub end_transaction-keeps :
      IsSound w → IsSound (end_transaction f w) × Frame w (end_transaction f w)
  end_transaction-keeps s =
      let (thread, locked, names, count) = fields in
      (
        record {
          locks = λ q.
              rw locked (
                ground
                  (arith, thread, cell-end_transaction q, s.locks q, e.unlocks (table_at q w)));
          clean =
              λ q h. ground (arith, h, cell-end_transaction q, s.clean q, e.empties (table_at q w));
          quiet = λ h. locked;
          fresh = λ q h.
              ground (arith, h, count, cell-end_transaction q, s.fresh q, e.unlocks (table_at q w));
          named = λ name q h. rw count (s.named name q (ap (find name) (sym names) ∙ h));
        },
        record {
          thread = thread;
          grows = omega (arith, count);
          kept = λ q j h n. ground (arith, h, n, cell-end_transaction q, s.locks q);
          taken = λ q j h n.
              ground (arith, h, n, cell-end_transaction q, s.locks q, e.unlocks (table_at q w));
        },
      )

pub Safe-end_transaction :
    (n : ℕ) (f : Table → Table) → IsEnding f → Safe n (modify (end_transaction f))
unfolding modify
Safe-end_transaction n f e = record { keeps = λ w s h. end_transaction-keeps f e w s }
