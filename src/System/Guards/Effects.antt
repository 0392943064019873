-- ===== src/System/Guards/Effects.antt =====
-- What the block of a Guard does to its table and to the stack, where nothing is pending.
use a_multi_threaded_key_val.Prelude.{
  ℕ, ◌≡◌, refl, List, Option, some, none, [], ◌∷◌, arith, ==_refl, Option-cases, inl, inr,
}
use a_multi_threaded_key_val.Text.{Str}
use a_multi_threaded_key_val.Map.{assign, find}
use a_multi_threaded_key_val.Serialization.{encode}
use a_multi_threaded_key_val.Table
use a_multi_threaded_key_val.Table.{Table, unlock, commit_changes, assign_all}
use a_multi_threaded_key_val.ValueStack
use a_multi_threaded_key_val.Connection.{
  World, lift, modify, pure, ◌>>=◌, table_at, respond, table_get, table_set, table_commit,
  stack_push,
}
use a_multi_threaded_key_val.Connection.Chat.{recover}
use a_multi_threaded_key_val.System.Guards.{Block, reading, writing, in_block, left}

-- What a block leaves of its table, and of the stack that stood before it.
abbrev pub done : Block → Table → Table
done (reading key) t = t
done (writing key value) t = record t { key_value = assign key value t.key_value }

abbrev found_on : Option Str → List Str → List Str
found_on none vs = vs
found_on (some value) vs = value ∷ vs

abbrev pub stack_after : Block → Table → List Str → List Str
stack_after (reading key) t vs = found_on (find key t.key_value) vs
stack_after (writing key value) t vs = vs

module _ (p : ℕ) (w : World) (empty : (table_at p w).key_value_temp ≡ []) where
  pub left-table :
      (b : Block)
      → table_at p (left b p w).1 ≡ record (done b (table_at p w)) { table_mutex = none }
  unfolding left in_block ◌>>=◌ table_get table_set table_commit stack_push modify pure respond lift
      encode recover Table.get Table.set unlock commit_changes assign_all assign find
      ValueStack.push
  left-table (writing key value) = simp (empty, ==_refl p)
  left-table (reading key) = elim (Option-cases (find key (table_at p w).key_value)) [
    | inl missing ↦ simp (empty, missing, ==_refl p)
    | inr (value, found) ↦ simp (empty, found, ==_refl p)
  ]

  pub left-stack :
      (b : Block)
      → (left b p w).1.conn.m_stack.m_vector ≡ stack_after b (table_at p w) w.conn.m_stack.m_vector
  unfolding left in_block ◌>>=◌ table_get table_set table_commit stack_push modify pure respond lift
      encode recover Table.get find ValueStack.push
  left-stack (writing key value) = refl
  left-stack (reading key) = elim (Option-cases (find key (table_at p w).key_value)) [
    | inl missing ↦ simp (empty, missing)
    | inr (value, found) ↦ simp (empty, found)
  ]

-- Up to its mutex, the block finds the table as it was when it was free.
module _ (i : ℕ) (t : Table) (free : t.table_mutex ≡ none) where
  pub done-locked :
      (b : Block)
      → record (done b (record t { table_mutex = some i })) { table_mutex = none } ≡ done b t
  done-locked (reading key) = ground (arith, free)
  done-locked (writing key value) = ground (arith, free)

  pub stack_after-locked :
      (b : Block) (vs : List Str)
      → stack_after b (record t { table_mutex = some i }) vs ≡ stack_after b t vs
  stack_after-locked (reading key) vs = refl
  stack_after-locked (writing key value) vs = refl
