-- ===== src/Server/Deletion.antt =====
-- server.cpp: `~Server`, and what it needs of the map from names to tables.
use a_multi_threaded_key_val.Prelude.{
  ℕ, ◌+◌, ◌≡◌, refl, false, ◌||◌, none, some, List, [], ◌∷◌, ◌++◌, map, Bool-cases, inl, inr, arith,
  ltb, mem,
}
use a_multi_threaded_key_val.Text.{Str, ◌=str◌}
use a_multi_threaded_key_val.Map.{Map, find, assign}
use a_multi_threaded_key_val.Table.{Table}
use a_multi_threaded_key_val.Server.{Server}
use a_multi_threaded_key_val.Server.Lifetime.{destroy_table, delete_tables, destroy_server}

-- The members of the list are distinct, and are not in the other one.
abbrev pub Distinct : List ℕ → List ℕ → Type 0
Distinct gone [] = Unit
Distinct gone (p ∷ ps) = (mem p gone ≡ false) × Distinct (p ∷ gone) ps

-- The second list with the members of the first one put before it, one after the other.
abbrev pub shift : List ℕ → List ℕ → List ℕ
shift [] gone = gone
shift (p ∷ ps) gone = shift ps (p ∷ gone)

mem-shift : (q : ℕ) (ps gone : List ℕ) → mem q (shift ps gone) ≡ (mem q ps || mem q gone)
mem-shift q [] gone = refl
mem-shift q (p ∷ ps) gone = ground (arith, mem-shift q ps (p ∷ gone))

mem-append : (q : ℕ) (ps qs : List ℕ) → mem q (ps ++ qs) ≡ (mem q ps || mem q qs)
mem-append q [] qs = refl
mem-append q (p ∷ ps) qs = ground (arith, mem-append q ps qs)

Distinct-append :
    (ps gone : List ℕ) (q : ℕ)
    → Distinct gone ps
    → mem q (shift ps gone) ≡ false
    → Distinct gone (ps ++ q ∷ [])
Distinct-append [] gone q d n = (n, tt)
Distinct-append (p ∷ ps) gone q d n = (d.0, Distinct-append ps (p ∷ gone) q d.1 n)

abbrev pub values : Map ℕ → List ℕ
values m = map (λ e. e.1) m

values-assign :
    (name : Str) (n : ℕ) (m : Map ℕ)
    → find name m ≡ none
    → values (assign name n m) ≡ values m ++ n ∷ []
unfolding find assign
values-assign name n [] absent = refl
values-assign name n ((other, p) ∷ m) absent = elim (Bool-cases (other =str name)) [
  | inl same ↦ absurd (let k = rw same at absent in ground arith)
  | inr differs ↦ rw differs (rw (values-assign name n m (rw differs at absent)) refl)
]

-- The tables that the names lead to are those with an index below `n`, each one once.
abbrev pub Covers : Map ℕ → ℕ → Type 0
Covers m n = Distinct [] (values m) × ((p : ℕ) → mem p (values m) ≡ ltb p n)

pub assign-Covers :
    (name : Str) (m : Map ℕ) (n : ℕ)
    → find name m ≡ none
    → Covers m n
    → Covers (assign name n m) (n + 1)
assign-Covers name m n absent c = rw (values-assign name n m absent) (
  Distinct-append (values m) [] n c.0 (ground (arith, mem-shift n (values m) [], c.1 n)),
  λ p. ground (arith, mem-append p (values m) (n ∷ []), c.1 p),
)

-- `~Server()` on tables that are free and that the names lead to once.
delete_tables-eq :
    (m : Map ℕ) (cell : ℕ → Table) (gone : List ℕ)
    → ((p : ℕ) → (cell p).table_mutex ≡ none)
    → Distinct gone (values m)
    → delete_tables m cell gone ≡ some (shift (values m) gone)
unfolding delete_tables destroy_table
delete_tables-eq [] cell gone free d = refl
delete_tables-eq ((name, p) ∷ m) cell gone free d =
    rw (d.0, free p) (delete_tables-eq m cell (p ∷ gone) free d.1)

-- Where every table is free, `~Server` deletes every table that was allocated, none twice, and
-- does nothing undefined.
pub destroy_server-Covers :
    (srv : Server)
    → ((p : ℕ) → (srv.cell p).table_mutex ≡ none)
    → Covers srv.set_of_table srv.allocated
    → (gone : List ℕ) × (destroy_server srv ≡ some gone)
      × ((p : ℕ) → mem p gone ≡ ltb p srv.allocated)
unfolding destroy_server
destroy_server-Covers srv free c = (
  shift (values srv.set_of_table) [],
  delete_tables-eq srv.set_of_table srv.cell [] free c.0,
  λ p. ground (arith, mem-shift p (values srv.set_of_table) [], c.1 p),
)
