-- ===== src/System/Guards/Leaving.antt =====
-- What a thread does in the block of a Guard, up to its answer: the table is given back.
use a_multi_threaded_key_val.Prelude.{
  ℕ, ◌≡◌, ◌≢◌, refl, ◌∙◌, true, false, none, some, [], arith, ◌==◌, ==_refl, Option-cases,
  Bool-cases, inl, inr, ◌⊎◌,
}
use a_multi_threaded_key_val.Text.{Str, codes}
use a_multi_threaded_key_val.Map.{find}
use a_multi_threaded_key_val.Serialization.{encode}
use a_multi_threaded_key_val.Table
use a_multi_threaded_key_val.Table.{Table, lock, unlock, commit_changes}
use a_multi_threaded_key_val.ValueStack
use a_multi_threaded_key_val.Connection.{
  World, lift, modify, pure, ◌>>=◌, table_at, respond, table_get, table_set, table_commit,
  stack_push, raised, returned,
}
use a_multi_threaded_key_val.Connection.Chat.{recover}
use a_multi_threaded_key_val.Connection.Invariant.{IsSound, Frame}
use a_multi_threaded_key_val.Exceptions.{Result, ok, throw, operation_exception}
use a_multi_threaded_key_val.System.Guards.{Block, reading, writing, in_block, left, out_of_block}
use a_multi_threaded_key_val.System.Guards.Keeping.{counting}

-- What is left of the block: the table is free and has nothing pending.
pub record Released (p : ℕ) (v u : World) : Type 0 where
  pub others : (q : ℕ) → q ≢ p → table_at q u ≡ table_at q v
  pub free : (table_at p u).table_mutex ≡ none
  pub empty : (table_at p u).key_value_temp ≡ []
  pub thread : u.conn.thread ≡ v.conn.thread
  pub idle : u.conn.m_in_transaction ≡ v.conn.m_in_transaction
  pub locked : u.conn.locked_tables ≡ v.conn.locked_tables
  pub names : u.server.set_of_table ≡ v.server.set_of_table
  pub count : u.server.allocated ≡ v.server.allocated

-- A table with nothing pending gives the committed value, or the exception of a missing key.
get_from_committed :
    (key : Str) (t : Table)
    → t.key_value_temp ≡ []
    → (Table.get key t ≡ throw (operation_exception (codes "The key is not in the map")))
      ⊎ ((value : Str) × (Table.get key t ≡ ok value))
unfolding Table.get find
get_from_committed key t empty = elim (Option-cases (find key t.key_value)) [
  | inl missing ↦ inl (simp (empty, missing))
  | inr (value, found) ↦ inr (value, simp (empty, found))
]

-- The block of a GET goes on with `r`.
module _ (p : ℕ) (v : World) (empty : (table_at p v).key_value_temp ≡ []) where
  abbrev read_gives : Result Str → World
  read_gives (ok value) = (out_of_block p (stack_push value v)).1
  read_gives (throw e) = (out_of_block p (raised e, v)).1

  read-Released-ok : (value : Str) → Released p v (read_gives (ok value))
  unfolding ◌>>=◌ stack_push modify pure respond lift encode recover unlock ValueStack.push
  read-Released-ok value = record {
    others = λ q n. ground (arith, n);
    free = ground (arith, ==_refl p);
    empty = ground (arith, ==_refl p, empty);
    thread = refl;
    idle = refl;
    locked = refl;
    names = refl;
    count = refl;
  }

  read-Released-throw :
      Released p v (read_gives (throw (operation_exception (codes "The key is not in the map"))))
  unfolding ◌>>=◌ stack_push modify pure respond lift encode recover unlock
  read-Released-throw = record {
    others = λ q n. ground (arith, n);
    free = ground (arith, ==_refl p);
    empty = ground (arith, ==_refl p, empty);
    thread = refl;
    idle = refl;
    locked = refl;
    names = refl;
    count = refl;
  }

pub left-Released :
    (b : Block) (p : ℕ) (v : World)
    → (table_at p v).key_value_temp ≡ []
    → Released p v (left b p v).1
unfolding left in_block ◌>>=◌ table_get table_set table_commit modify pure respond lift encode
    recover unlock commit_changes
left-Released (writing key value) p v empty = record {
  others = λ q n. ground (arith, n);
  free = ground (arith, ==_refl p);
  empty = ground (arith, ==_refl p);
  thread = refl;
  idle = refl;
  locked = refl;
  names = refl;
  count = refl;
}
left-Released (reading key) p v empty = elim (get_from_committed key (table_at p v) empty) [
  | inl e ↦ rw e (read-Released-throw p v empty)
  | inr (value, e) ↦ rw e (read-Released-ok p v empty value)
]

-- A thread that leaves the block gives its table back, and touches no other.
pub left-keeps :
    (b : Block) (p : ℕ) (v u : World)
    → Released p v u
    → v.conn.m_in_transaction ≡ false
    → v.conn.locked_tables ≡ []
    → IsSound (counting (some (b, p)) v)
    → IsSound u × Frame (counting (some (b, p)) v) u
left-keeps b p v u r out none_locked s = (
  record {
    locks = λ q. elim (Bool-cases (q == p)) [
      | inl here ↦ ground (arith, here, r.free, r.locked, none_locked)
      | inr away ↦ ground (arith, away, r.others q, r.locked, none_locked, s.locks q, r.thread)
    ];
    clean = λ q h. elim (Bool-cases (q == p)) [
      | inl here ↦ ground (arith, here, r.empty)
      | inr away ↦ ground (arith, away, r.others q, s.clean q, h)
    ];
    quiet = λ h. r.locked ∙ none_locked;
    fresh = λ q h. elim (Bool-cases (q == p)) [
      | inl here ↦ ground (arith, here, r.free)
      | inr away ↦ ground (arith, away, r.others q, s.fresh q, h, r.count)
    ];
    named = λ name q h. ground (arith, r.names, r.count, h, s.named name q);
  },
  record {
    thread = r.thread;
    grows = omega (arith, r.count);
    kept = λ q j h n. elim (Bool-cases (q == p)) [
      | inl here ↦ ground (arith, here, h, n, s.locks q, ==_refl p)
      | inr away ↦ ground (arith, away, r.others q)
    ];
    taken = λ q j h n. elim (Bool-cases (q == p)) [
      | inl here ↦ ground (arith, here, h, r.free)
      | inr away ↦ ground (arith, away, r.others q, h)
    ];
  },
)

-- The thread always comes out of the block, and goes on with the next line.
module _ (p : ℕ) (v : World) (empty : (table_at p v).key_value_temp ≡ []) where
  pub left-returns : (b : Block) → (left b p v).0 ≡ returned true
  unfolding left in_block ◌>>=◌ table_get table_set table_commit stack_push modify pure respond lift
      encode recover ValueStack.push
  left-returns (writing key value) = refl
  left-returns (reading key) = elim (get_from_committed key (table_at p v) empty) [
    | inl e ↦ simp e
    | inr (value, e) ↦ simp e
  ]
