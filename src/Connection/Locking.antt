-- ===== src/Connection/Locking.antt =====
-- client_connection.cpp: the code of `handle_get` and `handle_set` that locks a table or works on a
-- locked one, against the invariant of `Connection.Invariant`.
use a_multi_threaded_key_val.Prelude.{
  ℕ, ◌<◌, ◌≡◌, ◌≢◌, refl, sym, ap, ◌∙◌, Option-cases, Bool, true, false, Option, none, some, [],
  ◌∷◌, arith, Bool-cases, inl, inr, if◌then◌else◌,
}
use a_multi_threaded_key_val.Text.{Str}
use a_multi_threaded_key_val.Map.{find}
use a_multi_threaded_key_val.Exceptions.{Result, ok, throw}
use a_multi_threaded_key_val.Table.Laws.{lock_free, lock_taken, trylock_free, trylock_taken}
use a_multi_threaded_key_val.Table
use a_multi_threaded_key_val.Table.{Table, new_table, lock, unlock, trylock, commit_changes}
use a_multi_threaded_key_val.Connection.{
  World, Action, Outcome, returned, raised, blocked, undefined, ◌>>=◌, ◌>>◌, continue, mem,
  table_at, set_conn, set_table, stack_push, table_get, table_set, table_commit, with_guard,
  join_transaction, joined, of_result,
}
use a_multi_threaded_key_val.Connection.Primitives.{Safe-table_get, Safe-stack_push}
use a_multi_threaded_key_val.Connection.Invariant.{
  owns, IsSound, Frame, Frame-refl, Frame-trans, KeepsAt, KeepsAt-bind, Safe-bind,
}

-- The mutex of the table at `p` is in hand, and its pending entries change.
table_set-keeps :
    (p : ℕ) (t : Table) (w : World)
    → t.table_mutex ≡ (table_at p w).table_mutex
    → (table_at p w).table_mutex ≡ some w.conn.thread
    → IsSound w
    → IsSound (set_table p t w) × Frame w (set_table p t w)
table_set-keeps p t w e held s = (
  record {
    locks = λ q. ground (arith, s.locks q, s.locks p);
    clean = λ q h. ground (arith, s.clean q);
    quiet = s.quiet;
    fresh = λ q h. ground (arith, s.fresh q h);
    named = s.named;
  },
  record {
    thread = refl;
    grows = omega arith;
    kept = λ q j h n. ground arith;
    taken = λ q j h n. ground arith;
  },
)

-- `trylock` succeeds on a free table, which joins `locked_tables`, in a transaction.
join-keeps :
    (p : ℕ) (w : World)
    → p < w.server.allocated
    → (table_at p w).table_mutex ≡ none
    → w.conn.m_in_transaction ≡ true
    → IsSound w
    → let v =
        set_conn
          (λ c. record c { locked_tables = p ∷ c.locked_tables })
          (set_table p (record (table_at p w) { table_mutex = some w.conn.thread }) w) in
      IsSound v × Frame w v
join-keeps p w lt free busy s = (
  record {
    locks = λ q. ground (arith, s.locks q, s.locks p);
    clean = λ q h. ground (arith, s.clean q);
    quiet = λ h. ground arith;
    fresh = λ q h. ground (arith, s.fresh q h);
    named = s.named;
  },
  record {
    thread = refl;
    grows = omega arith;
    kept = λ q j h n. ground arith;
    taken = λ q j h n. ground arith;
  },
)

joined-keeps :
    (p : ℕ) (name : Str) (w : World)
    → p < w.server.allocated
    → w.conn.m_in_transaction ≡ true
    → IsSound w
    → KeepsAt w (joined p name (trylock w.conn.thread (table_at p w)))
joined-keeps p name w lt busy s = elim (Option-cases (table_at p w).table_mutex) [
  | inl free ↦ rw (trylock_free w.conn.thread (table_at p w) free) (join-keeps p w lt free busy s)
  | inr (j, taken) ↦ rw (trylock_taken w.conn.thread (table_at p w) j taken) (s, Frame-refl w)
]

join_transaction-keeps :
    (p : ℕ) (name : Str) (w : World)
    → p < w.server.allocated
    → w.conn.m_in_transaction ≡ true
    → IsSound w
    → KeepsAt w (join_transaction p name)
unfolding join_transaction
join_transaction-keeps p name w lt busy s = elim (Bool-cases (mem p w.conn.locked_tables)) [
  | inl member ↦ rw member (s, Frame-refl w)
  | inr other ↦ rw other (joined-keeps p name w lt busy s)
]

-- From `v` to `w` the table at `p` may have changed and, of the connection, what is not a lock.
pub record Worked (p : ℕ) (v w : World) : Type 0 where
  pub thread : w.conn.thread ≡ v.conn.thread
  pub in_transaction : w.conn.m_in_transaction ≡ v.conn.m_in_transaction
  pub locked : w.conn.locked_tables ≡ v.conn.locked_tables
  pub names : w.server.set_of_table ≡ v.server.set_of_table
  pub count : w.server.allocated ≡ v.server.allocated
  pub others : (q : ℕ) → q ≢ p → table_at q w ≡ table_at q v
  pub emptied : (table_at p v).key_value_temp ≡ [] → (table_at p w).key_value_temp ≡ []

abbrev pub Local {ℓ} : {A : Type ℓ} → ℕ → Action A → Type 0
Local p m = (w : World) → Worked p w (m w).1

-- A free table is locked, worked on and unlocked.
release-keeps :
    (p : ℕ) (w u : World)
    → p < w.server.allocated
    → (table_at p w).table_mutex ≡ none
    → Worked p (set_table p (record (table_at p w) { table_mutex = some w.conn.thread }) w) u
    → IsSound w
    → IsSound (set_table p (unlock (table_at p u)) u)
      × Frame w (set_table p (unlock (table_at p u)) u)
unfolding unlock
release-keeps p w u lt free k s = (
  record {
    locks = λ q. rw (k.locked, k.thread) (ground (arith, s.locks q, s.locks p, k.others q));
    clean = λ q h. ground (arith, s.clean q, k.emptied, s.clean p, k.others q);
    quiet = λ h. ground (arith, k.locked, k.in_transaction, s.quiet);
    fresh = λ q h. ground (arith, s.fresh q, k.count, k.others q);
    named = λ name q h. rw k.count (s.named name q (ap (find name) (sym k.names) ∙ h));
  },
  record {
    thread = k.thread;
    grows = omega (arith, k.count);
    kept = λ q j h n. ground (arith, k.others q);
    taken = λ q j h n. ground (arith, k.others q);
  },
)

with_guard-keeps {ℓ} :
    {A : Type ℓ} (p : ℕ) (body : Action A) (w : World)
    → p < w.server.allocated
    → Local p body
    → IsSound w
    → KeepsAt w (with_guard p body)
unfolding with_guard
with_guard-keeps p body w lt local s = elim (Option-cases (table_at p w).table_mutex) [
  | inl free ↦ rw (lock_free w.conn.thread (table_at p w) free) (
      let v = set_table p (record (table_at p w) { table_mutex = some w.conn.thread }) w in
      release-keeps p w (body v).1 lt free (local v) s)
  | inr (j, taken) ↦ rw (lock_taken w.conn.thread (table_at p w) j taken) (s, Frame-refl w)
]

-- After it has returned, the table is among those that are locked.
join-member :
    (p : ℕ) (name : Str) (w : World) (a : Unit {0})
    → (join_transaction p name w).0 ≡ returned a
    → mem p (join_transaction p name w).1.conn.locked_tables ≡ true
unfolding join_transaction trylock
join-member p name w a h = ground arith

owned : (i : ℕ) (o : Option ℕ) → owns i o ≡ true → o ≡ some i
owned i o h = ground arith

table_set-Safe :
    (p : ℕ) (key value : Str) (w : World)
    → mem p w.conn.locked_tables ≡ true
    → IsSound w
    → KeepsAt w (table_set p key value)
unfolding table_set
table_set-Safe p key value w member s =
    table_set-keeps p (Table.set key value (table_at p w)) w (unfold Table.set in refl)
      (owned w.conn.thread (table_at p w).table_mutex (sym (s.locks p) ∙ member)) s

KeepsAt-bind_returned {ℓ κ} :
    {A : Type ℓ} {B : Type κ} (m : Action A) (f : A → Action B) (w : World)
    → KeepsAt w m
    → ((a : A) → (m w).0 ≡ returned a → IsSound (m w).1 → KeepsAt (m w).1 (f a))
    → KeepsAt w (m >>= f)
unfolding ◌>>=◌
KeepsAt-bind_returned {A} m f w k kf = go (m w).0 refl
  where
    go : (o : Outcome A) → (m w).0 ≡ o → KeepsAt w (λ x. continue o f (m w).1)
    go (returned a) e = let (s', fr') = kf a e k.0 in (s', Frame-trans k.1 fr')
    go (raised x) e = k
    go blocked e = k
    go undefined e = k

-- The code under the guard of `handle_get`, and of `handle_set`.
pushed-Worked :
    (p : ℕ) (w : World) (r : Result Str)
    → Worked p w (continue (of_result r) (λ value. stack_push value) w).1
unfolding stack_push
pushed-Worked p w (ok value) = record {
  thread = refl;
  in_transaction = refl;
  locked = refl;
  names = refl;
  count = refl;
  others = λ q n. refl;
  emptied = λ h. h;
}
pushed-Worked p w (throw e) = record {
  thread = refl;
  in_transaction = refl;
  locked = refl;
  names = refl;
  count = refl;
  others = λ q n. refl;
  emptied = λ h. h;
}

get-Local : (p : ℕ) (key : Str) → Local p (do value ← table_get p key; stack_push value)
unfolding ◌>>=◌ table_get
get-Local p key w = pushed-Worked p w (Table.get key (table_at p w))

set-Local : (p : ℕ) (key value : Str) → Local p (do table_set p key value; table_commit p)
unfolding ◌>>=◌ table_set table_commit commit_changes
set-Local p key value w = record {
  thread = refl;
  in_transaction = refl;
  locked = refl;
  names = refl;
  count = refl;
  others = λ q n. ground arith;
  emptied = λ h. ground arith;
}

module _ (p : ℕ) (name : Str) (w : World) (lt : p < w.server.allocated) (s : IsSound w) where
  -- The two branches of `handle_get` and of `handle_set`.
  pub get-keeps :
      (key : Str) (b : Bool)
      → w.conn.m_in_transaction ≡ b
      → KeepsAt w (
          if b
          then (do join_transaction p name; value ← table_get p key; stack_push value)
          else with_guard p (do value ← table_get p key; stack_push value))
  get-keeps key true busy =
      KeepsAt-bind 0 (join_transaction p name) _ w (omega arith)
        (join_transaction-keeps p name w lt busy s)
        λ _. Safe-bind 0 _ _ (Safe-table_get 0 p key) (λ value. Safe-stack_push 0 value)
  get-keeps key false idle = with_guard-keeps p _ w lt (get-Local p key) s

  pub set-keeps :
      (key value : Str) (b : Bool)
      → w.conn.m_in_transaction ≡ b
      → KeepsAt w (
          if b
          then (do join_transaction p name; table_set p key value)
          else with_guard p (do table_set p key value; table_commit p))
  set-keeps key value true busy =
      KeepsAt-bind_returned (join_transaction p name) _ w
        (join_transaction-keeps p name w lt busy s)
        λ a e s'. table_set-Safe p key value _ (join-member p name w a e) s'
  set-keeps key value false idle = with_guard-keeps p _ w lt (set-Local p key value) s
