-- ===== src/Server/Tables.antt =====
-- server.cpp: `create_table` and `find_table`.
use mathlib.Core.Path.{subst}
use a_multi_threaded_key_val.Prelude.{
  ℕ, ◌+◌, ◌<◌, ◌≡◌, ◌≢◌, inl, inr, refl, ap, ◌∙◌, none, some, Option-cases, Bool-cases, false,
  arith, ◌==◌,
}
use a_multi_threaded_key_val.Prelude.Family.{update_self, update_ne}
use a_multi_threaded_key_val.Text.{Str, ◌=str◌, =str_refl, =str_iff}
use a_multi_threaded_key_val.Map.{Map, find, assign, find-assign}
use a_multi_threaded_key_val.Exceptions.{ok}
use a_multi_threaded_key_val.Table.{empty_table, new_table}
use a_multi_threaded_key_val.Server.{Server, add_table, create_table, find_table, or_absent}

-- Every name leads to a table in use, and no two names lead to the same one.
pub record Leads (m : Map ℕ) (n : ℕ) : Type 0 where
  pub in_use : (name : Str) (p : ℕ) → find name m ≡ some p → p < n
  pub apart :
      (name other : Str) (p : ℕ) → find name m ≡ some p → find other m ≡ some p → name ≡ other

abbrev pub IsIndexed : Server → Type 0
IsIndexed srv = Leads srv.set_of_table srv.allocated

-- The table with the next index gets a name that is not taken.
pub assign-Leads :
    (name : Str) (m : Map ℕ) (k : ℕ)
    → find name m ≡ none
    → Leads m k
    → Leads (assign name k m) (k + 1)
assign-Leads name m k absent ix = record {
  in_use = λ n p h. ground (arith, h, find-assign name n k m, ix.in_use n p);
  apart = λ n o p hn ho. ground (
    arith,
    hn,
    ho,
    absent,
    find-assign name n k m,
    find-assign name o k m,
    =str_iff name n,
    =str_iff name o,
    ix.in_use n p,
    ix.in_use o p,
    ix.apart n o p,
  );
}

-- Where `pthread_mutex_init` succeeds for the new table, `create_table` of a name that is not taken
-- succeeds. Afterwards the name leads to a table that was not in use before, which is empty and
-- free; every other name leads where it led, and no table that was in use has changed.
pub create_table_new :
    (name : Str) (srv : Server)
    → find name srv.set_of_table ≡ none
    → srv.mutex_init srv.allocated ≡ 0
    → (after : Server) × (create_table name srv ≡ ok after)
      × (find_table name after ≡ ok srv.allocated)
      × (after.cell srv.allocated ≡ empty_table name)
      × ((other : Str) → other ≢ name → find_table other after ≡ find_table other srv)
      × ((p : ℕ) → p < srv.allocated → after.cell p ≡ srv.cell p)
unfolding create_table new_table find_table
create_table_new name srv absent init = (
  add_table name srv (empty_table name),
  rw (absent, init) refl,
  ap or_absent (find-assign name name srv.allocated srv.set_of_table) ∙ rw (=str_refl name) refl,
  update_self srv.cell srv.allocated (empty_table name),
  λ other n.
      let differ : (name =str other) ≡ false = ground (arith, n, =str_iff name other) in
      ap or_absent (find-assign name other srv.allocated srv.set_of_table ∙ rw differ),
  λ p lt. update_ne srv.cell srv.allocated (empty_table name) p (omega arith),
)

-- `create_table` keeps the names apart: every name leads to a table in use, and no two names lead to
-- the same one.
pub create_table-IsIndexed :
    (name : Str) (srv after : Server)
    → IsIndexed srv
    → create_table name srv ≡ ok after
    → IsIndexed after
unfolding create_table new_table
create_table-IsIndexed name srv after ix h = elim (Option-cases (find name srv.set_of_table)) [
  | inr (p, found) ↦ absurd (let k = rw found at h in ground arith)
  | inl absent ↦ elim (Bool-cases (srv.mutex_init srv.allocated == 0)) [
    | inr fails ↦ absurd (let k = rw (absent, fails) at h in ground arith)
    | inl works ↦
        let k = rw (absent, works) at h in
        let same : add_table name srv (empty_table name) ≡ after = ground arith in
        subst IsIndexed same (assign-Leads name srv.set_of_table srv.allocated absent ix)
  ]
]
