-- ===== src/Table/Refinement.antt =====
-- table.cpp against a specification: two partial functions, the committed entries and the pending
-- ones.
use mathlib.Core.Path.{fun_ext}
use a_multi_threaded_key_val.Prelude.{
  ◌≡◌, refl, ap, Bool, true, false, Option, none, some, [], ◌∷◌, arith, if◌then◌else◌,
}
use a_multi_threaded_key_val.Text.{Str, codes, ◌=str◌, =str_iff}
use a_multi_threaded_key_val.Map.{Map, find, assign, find-assign, IsMap, assign-IsMap}
use a_multi_threaded_key_val.Exceptions.{Result, ok, throw, operation_exception}
use a_multi_threaded_key_val.Table.{
  Table, set, get, has_key, assign_all, commit_changes, rollback_changes, first_some,
}

pub record Spec : Type 0 where
  pub committed : Str → Option Str
  pub pending : Str → Option Str

abbrev pub put : (Str → Option Str) → Str → Str → Str → Option Str
put f key value k = if key =str k then some value else f k

abbrev pub spec_set : Str → Str → Spec → Spec
spec_set key value s = record s { pending = put s.pending key value }

abbrev pub spec_lookup : Str → Spec → Option Str
spec_lookup key s = first_some (s.pending key) (s.committed key)

abbrev pub spec_commit : Spec → Spec
spec_commit s = record { committed = λ k. spec_lookup k s; pending = λ k. none }

abbrev pub spec_rollback : Spec → Spec
spec_rollback s = record s { pending = λ k. none }

-- The specification that a table stands for.
abbrev pub spec : Table → Spec
spec t = record { committed = λ k. find k t.key_value; pending = λ k. find k t.key_value_temp }

abbrev pub IsWellFormed : Table → Type 0
IsWellFormed t = IsMap t.key_value × IsMap t.key_value_temp

abbrev pub or_failure : Option Str → Result Str
or_failure (some value) = ok value
or_failure none = throw (operation_exception (codes "The key is not in the map"))

abbrev pub is_some : Option Str → Bool
is_some (some value) = true
is_some none = false

pub find-assign_all :
    (pending m : Map Str) (key : Str)
    → IsMap pending
    → find key (assign_all pending m) ≡ first_some (find key pending) (find key m)
unfolding assign_all find
find-assign_all [] m key h = refl
find-assign_all ((k, v) ∷ pending) m key h = ground (
  arith,
  find-assign_all pending (assign k v m) key h.1,
  find-assign k key v m,
  =str_iff k key,
  h.0,
)

assign_all-IsMap : (pending m : Map Str) → IsMap m → IsMap (assign_all pending m)
unfolding assign_all
assign_all-IsMap [] m h = h
assign_all-IsMap ((k, v) ∷ pending) m h =
    assign_all-IsMap pending (assign k v m) (assign-IsMap k v m h)

-- A table whose two maps have distinct keys behaves as its specification: `set`,
-- `commit_changes` and `rollback_changes` do to it what the specification does, and `get` and
-- `has_key` answer from it, with the exception of `get` where neither map has the key.
pub table_refines_spec :
    (t : Table) (key value : Str)
    → IsWellFormed t
    → (spec (set key value t) ≡ spec_set key value (spec t))
      × (spec (commit_changes t) ≡ spec_commit (spec t))
      × (spec (rollback_changes t) ≡ spec_rollback (spec t))
      × (get key t ≡ or_failure (spec_lookup key (spec t)))
      × (has_key key t ≡ is_some (spec_lookup key (spec t)))
unfolding set commit_changes rollback_changes get has_key find
table_refines_spec t key value h = (
  ap (λ f. record { committed = λ k. find k t.key_value; pending = f })
      (fun_ext λ k. find-assign key k value t.key_value_temp),
  ap (λ f. record { committed = f; pending = λ k. none })
      (fun_ext λ k. find-assign_all t.key_value_temp t.key_value k h.1),
  refl,
  ground arith,
  ground arith,
)

-- `set`, `commit_changes` and `rollback_changes` keep a table well-formed: the keys of each of its two
-- maps are distinct.
pub operations-IsWellFormed :
    (t : Table) (key value : Str)
    → IsWellFormed t
    → IsWellFormed (set key value t)
      × IsWellFormed (commit_changes t)
      × IsWellFormed (rollback_changes t)
unfolding set commit_changes rollback_changes
operations-IsWellFormed t key value h = (
  (h.0, assign-IsMap key value t.key_value_temp h.1),
  (assign_all-IsMap t.key_value_temp t.key_value h.0, tt),
  (h.0, tt),
)
