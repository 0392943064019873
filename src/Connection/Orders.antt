-- ===== src/Connection/Orders.antt =====
-- client_connection.cpp: the order in which the loops over `locked_tables` visit the tables.
use mathlib.Core.Path.{fun_ext}
use a_multi_threaded_key_val.Prelude.{
  ℕ, ◌≡◌, refl, sym, ap, ◌∙◌, Bool, List, [], ◌∷◌, arith, if◌then◌else◌, mem,
}
use a_multi_threaded_key_val.Table.{Table}
use a_multi_threaded_key_val.Server.{Server, set_cell}
use a_multi_threaded_key_val.Connection.{for_each_table, commit_and_unlock, rollback_and_unlock}
use a_multi_threaded_key_val.Connection.Transactions.{
  IsEnding, commit_and_unlock-IsEnding, rollback_and_unlock-IsEnding,
}

-- `f` is done to the tables that the test takes, all at once.
abbrev pub at_once : (Table → Table) → (ℕ → Bool) → Server → Server
at_once f chosen srv = record srv { cell = λ q. if chosen q then f (srv.cell q) else srv.cell q }

visited :
    (f : Table → Table) (p : ℕ) (ps : List ℕ) (srv : Server)
    → IsEnding f
    → at_once f (λ q. mem q ps) (set_cell p (f (srv.cell p)) srv)
      ≡ at_once f (λ q. mem q (p ∷ ps)) srv
visited f p ps srv e = ap (λ c. record srv { cell = c }) (fun_ext cells)
  where
    cells :
        (q : ℕ)
        → (at_once f (λ q. mem q ps) (set_cell p (f (srv.cell p)) srv)).cell q
          ≡ (at_once f (λ q. mem q (p ∷ ps)) srv).cell q
    cells q = ground (arith, e.idem (srv.cell p))

-- The loops do to the server what is done to all tables of the list at once.
for_each_table-at_once :
    (f : Table → Table) (ps : List ℕ) (srv : Server)
    → IsEnding f
    → for_each_table f ps srv ≡ at_once f (λ q. mem q ps) srv
unfolding for_each_table
for_each_table-at_once f [] srv e = refl
for_each_table-at_once f (p ∷ ps) srv e =
    for_each_table-at_once f ps (set_cell p (f (srv.cell p)) srv) e ∙ visited f p ps srv e

pub reordered :
    (f : Table → Table) (ps qs : List ℕ) (srv : Server)
    → IsEnding f
    → ((p : ℕ) → mem p ps ≡ mem p qs)
    → for_each_table f ps srv ≡ for_each_table f qs srv
reordered f ps qs srv e same =
    for_each_table-at_once f ps srv e
    ∙ ap (λ chosen. at_once f chosen srv) (fun_ext same)
    ∙ sym (for_each_table-at_once f qs srv e)

-- The loops of a commit, of a rollback and of the destructor give the same server for every order in
-- which `std::set` gives the tables, and do to all of them at once what they do to one.
pub loops_in_any_order :
    (ps qs : List ℕ) (srv : Server)
    → ((p : ℕ) → mem p ps ≡ mem p qs)
    → (for_each_table commit_and_unlock ps srv ≡ for_each_table commit_and_unlock qs srv)
      × (for_each_table rollback_and_unlock ps srv ≡ for_each_table rollback_and_unlock qs srv)
      × (for_each_table commit_and_unlock ps srv ≡ at_once commit_and_unlock (λ q. mem q ps) srv)
      × (for_each_table rollback_and_unlock ps srv
          ≡ at_once rollback_and_unlock (λ q. mem q ps) srv)
loops_in_any_order ps qs srv same = (
  reordered commit_and_unlock ps qs srv commit_and_unlock-IsEnding same,
  reordered rollback_and_unlock ps qs srv rollback_and_unlock-IsEnding same,
  for_each_table-at_once commit_and_unlock ps srv commit_and_unlock-IsEnding,
  for_each_table-at_once rollback_and_unlock ps srv rollback_and_unlock-IsEnding,
)
