-- ===== src/Connection/Upkeep/Rules.antt =====
-- client_connection.cpp: the rules for the actions of which the handlers are built, for any
-- predicates that `Connection.Upkeep` takes.
use a_multi_threaded_key_val.Prelude.{
  ℕ, ◌≡◌, refl, Bool, true, false, Option, none, some, List, [], ◌∷◌, Option-cases, Bool-cases, inl,
  inr, ◌==◌, All, if◌then◌else◌, arith,
}
use a_multi_threaded_key_val.Text.{Str}
use a_multi_threaded_key_val.Map.{find}
use a_multi_threaded_key_val.Exceptions.{Exception, Result, ok, throw}
use a_multi_threaded_key_val.Message.{Message}
use a_multi_threaded_key_val.Serialization.{encode}
use a_multi_threaded_key_val.Table.{
  Table, empty_table, unlock, new_table, commit_changes, rollback_changes,
}
use a_multi_threaded_key_val.Table.Laws.{lock_free, lock_taken, trylock_free, trylock_taken}
use a_multi_threaded_key_val.ValueStack
use a_multi_threaded_key_val.Server.{create_table}
use a_multi_threaded_key_val.Connection.{
  World, Action, Outcome, returned, raised, blocked, undefined, pure, raise, undefined_behaviour,
  lift, checked, gets, modify, continue, of_result, ◌>>=◌, mem, set_conn, set_table, table_at,
  respond, popped, stack_top, stack_pop, stack_push, table_get, table_set, table_commit, with_guard,
  join_transaction, for_each_table, end_transaction, commit_and_unlock, rollback_and_unlock,
}
use a_multi_threaded_key_val.Connection.Handlers.{server_create_table, server_find_table}
use a_multi_threaded_key_val.Connection.Upkeep.{
  Upkeep, Reply, done, refused, rejected, shown, IsKept, Kept,
}

of_result-eq_returned : (r : Result Str) (v : Str) → of_result r ≡ returned v → r ≡ ok v
of_result-eq_returned (ok x) v e = cc
of_result-eq_returned (throw x) v e = absurd (ground arith)

module _ (u : Upkeep) where
  open u use {Good, TableOk, ConnOk}

  module _ {ℓ} {A : Type ℓ} where
    pub Kept-pure : (a : A) → Kept u (pure a)
    unfolding pure
    Kept-pure a = record { keeps = λ w h. h }

    pub Kept-raise : (e : Exception) → Kept u (raise {A = A} e)
    unfolding raise
    Kept-raise e = record { keeps = λ w h. h }

    pub Kept-undefined : Kept u (undefined_behaviour {A = A})
    unfolding undefined_behaviour
    Kept-undefined = record { keeps = λ w h. h }

    pub Kept-lift : (r : Result A) → Kept u (lift r)
    unfolding lift
    Kept-lift r = record { keeps = λ w h. h }

    pub Kept-checked : (o : Option A) → Kept u (checked o)
    unfolding checked
    Kept-checked o = record { keeps = λ w h. h }

    pub Kept-gets : (f : World → A) → Kept u (gets f)
    unfolding gets
    Kept-gets f = record { keeps = λ w h. h }

    pub Kept-if : (b : Bool) (m k : Action A) → Kept u m → Kept u k → Kept u (if b then m else k)
    Kept-if true m k km kk = km
    Kept-if false m k km kk = kk

  module _ {ℓ κ} {A : Type ℓ} {B : Type κ} where
    pub continue-IsKept :
        (o : Outcome A) (f : A → Action B) (w : World)
        → ((a : A) → o ≡ returned a → Kept u (f a))
        → IsKept u w
        → IsKept u (continue o f w).1
    continue-IsKept (returned a) f w kf h = (kf a refl).keeps w h
    continue-IsKept (raised e) f w kf h = h
    continue-IsKept blocked f w kf h = h
    continue-IsKept undefined f w kf h = h

    pub Kept-bind :
        (m : Action A) (f : A → Action B) → Kept u m → ((a : A) → Kept u (f a)) → Kept u (m >>= f)
    unfolding ◌>>=◌
    Kept-bind m f km kf = record {
      keeps = λ w h. continue-IsKept (m w).0 f (m w).1 (λ a e. kf a) (km.keeps w h);
    }

  top_good :
      (vs : List Str) (v : Str)
      → All Good vs
      → of_result (ValueStack.get_top (record { m_vector = vs })) ≡ returned v
      → Good v
  unfolding ValueStack.get_top
  top_good [] v g e = absurd (ground arith)
  top_good (x ∷ vs) v g e = let same : x ≡ v = cc in rw (← same) (g.0)

  module _ {κ} {B : Type κ} where
    -- The value on the top of the stack, and one that a table holds, is good.
    pub Kept-top_bind :
        (f : Str → Action B) → ((v : Str) → Good v → Kept u (f v)) → Kept u (stack_top >>= f)
    unfolding ◌>>=◌ stack_top
    Kept-top_bind f kf = record {
      keeps = λ w h.
          continue-IsKept (stack_top w).0 f w
            (λ v e. kf v (top_good w.conn.m_stack.m_vector v (u.stack_good w.conn h.1) e)) h;
    }

    pub Kept-get_bind :
        (p : ℕ) (key : Str) (f : Str → Action B)
        → ((v : Str) → Good v → Kept u (f v))
        → Kept u (table_get p key >>= f)
    unfolding ◌>>=◌ table_get
    Kept-get_bind p key f kf = record {
      keeps = λ w h.
          continue-IsKept (table_get p key w).0 f w
            (λ v e. kf v (u.get_ok key v (table_at p w) (h.0.0 p) (of_result-eq_returned _ v e))) h;
    }

  -- One table is replaced.
  pub set_table-IsKept :
      (p : ℕ) (t : Table) (w : World) → IsKept u w → TableOk t → IsKept u (set_table p t w)
  set_table-IsKept p t w h ht = ((go, h.0.1), h.1)
    where
      go : (q : ℕ) → TableOk (if q == p then t else w.server.cell q)
      go q = elim (Bool-cases (q == p)) [ inl same ↦ rw same ht | inr other ↦ rw other (h.0.0 q) ]

  pub Kept-log_in : Kept u (modify (set_conn (λ c. record c { m_logged_in = true })))
  unfolding modify
  Kept-log_in = record { keeps = λ w h. (h.0, u.flags_ok w.conn true _ _ h.1) }

  pub Kept-begin : Kept u (modify (set_conn (λ c. record c { m_in_transaction = true })))
  unfolding modify
  Kept-begin = record { keeps = λ w h. (h.0, u.flags_ok w.conn _ true _ h.1) }

  pub Kept-respond : (msg : Message) → Reply Good msg → Kept u (respond msg)
  unfolding respond ◌>>=◌ modify lift
  Kept-respond msg r = record { keeps = λ w h. go w h (encode msg) refl }
    where
      go : (w : World) → IsKept u w → (e : Result Str) → encode msg ≡ e → IsKept u (respond msg w).1
      go w h (ok text) e = rw e (h.0, u.spoken_ok w.conn msg text r e h.1)
      go w h (throw x) e = rw e h

  popped-IsKept :
      (vs : List Str) (w : World)
      → IsKept u w
      → All Good vs
      → IsKept u (popped (ValueStack.pop (record { m_vector = vs })) w).1
  unfolding ValueStack.pop
  popped-IsKept [] w h g = h
  popped-IsKept (v ∷ vs) w h g = (h.0, u.stack_ok w.conn vs g.1 h.1)

  pub Kept-stack_pop : Kept u stack_pop
  unfolding stack_pop
  Kept-stack_pop = record {
    keeps = λ w h. popped-IsKept w.conn.m_stack.m_vector w h (u.stack_good w.conn h.1);
  }

  pub Kept-stack_push : (value : Str) → Good value → Kept u (stack_push value)
  unfolding stack_push ValueStack.push modify
  Kept-stack_push value g = record {
    keeps = λ w h. (h.0, u.stack_ok w.conn _ (g, u.stack_good w.conn h.1) h.1);
  }

  pub Kept-table_set : (p : ℕ) (key value : Str) → Good value → Kept u (table_set p key value)
  unfolding table_set modify
  Kept-table_set p key value g = record {
    keeps = λ w h. set_table-IsKept p _ w h (u.set_ok key value (table_at p w) g (h.0.0 p));
  }

  pub Kept-table_commit : (p : ℕ) → Kept u (table_commit p)
  unfolding table_commit modify
  Kept-table_commit p = record {
    keeps = λ w h. set_table-IsKept p _ w h (u.commit_ok (table_at p w) (h.0.0 p));
  }

  pub Kept-find : (name : Str) → Kept u (server_find_table name)
  unfolding server_find_table lift
  Kept-find name = record { keeps = λ w h. h }

  pub Kept-join_transaction : (p : ℕ) (name : Str) → Kept u (join_transaction p name)
  unfolding join_transaction
  Kept-join_transaction p name = record { keeps = go }
    where
      go : (w : World) → IsKept u w → IsKept u (join_transaction p name w).1
      go w h = elim (Bool-cases (mem p w.conn.locked_tables)) [
        | inl there ↦ rw there h
        | inr new ↦ elim (Option-cases (table_at p w).table_mutex) [
          | inl free ↦
              rw (new, trylock_free w.conn.thread (table_at p w) free)
                (let k =
                    set_table-IsKept p _ w h
                      (u.mutex_ok (table_at p w) (some w.conn.thread) (h.0.0 p)) in
                  (k.0, u.flags_ok w.conn _ _ (p ∷ w.conn.locked_tables) h.1))
          | inr (j, taken) ↦ rw (new, trylock_taken w.conn.thread (table_at p w) j taken) h
        ]
      ]

  pub Kept-with_guard {ℓ} :
      {A : Type ℓ} (p : ℕ) (body : Action A) → Kept u body → Kept u (with_guard p body)
  unfolding with_guard unlock
  Kept-with_guard p body kb = record { keeps = go }
    where
      go : (w : World) → IsKept u w → IsKept u (with_guard p body w).1
      go w h = elim (Option-cases (table_at p w).table_mutex) [
        | inl free ↦ rw (lock_free w.conn.thread (table_at p w) free) (
            let t = record (table_at p w) { table_mutex = some w.conn.thread } in
            let w' = set_table p t w in
            let k =
              kb.keeps w' (set_table-IsKept p t w h (u.mutex_ok (table_at p w) _ (h.0.0 p))) in
            set_table-IsKept p _ (body w').1 k (u.mutex_ok (table_at p (body w').1) none (k.0.0 p)))
        | inr (j, taken) ↦ rw (lock_taken w.conn.thread (table_at p w) j taken) h
      ]

  create-IsKept : (name : Str) (w : World) → IsKept u w → IsKept u (server_create_table name w).1
  unfolding server_create_table create_table new_table
  create-IsKept name w h = elim (Option-cases (find name w.server.set_of_table)) [
    | inr (p, found) ↦ rw found h
    | inl absent ↦ elim (Bool-cases (w.server.mutex_init w.server.allocated == 0)) [
      | inl works ↦
          rw (absent, works)
            (let k =
                set_table-IsKept w.server.allocated (empty_table name) w h (u.created_ok name) in
              ((k.0.0, u.named_ok name w.server.set_of_table w.server.allocated absent h.0.1), k.1))
      | inr fails ↦ rw (absent, fails) h
    ]
  ]

  pub Kept-create : (name : Str) → Kept u (server_create_table name)
  Kept-create name = record { keeps = create-IsKept name }

  pub for_each_table-IsKept :
      (f : Table → Table) (ps : List ℕ) (w : World)
      → ((t : Table) → TableOk t → TableOk (f t))
      → IsKept u w
      → IsKept u (record w { server = for_each_table f ps w.server })
  unfolding for_each_table
  for_each_table-IsKept f [] w hf h = h
  for_each_table-IsKept f (p ∷ ps) w hf h =
      for_each_table-IsKept f ps (set_table p (f (table_at p w)) w) hf
        (set_table-IsKept p _ w h (hf _ (h.0.0 p)))

  pub Kept-end_transaction :
      (f : Table → Table)
      → ((t : Table) → TableOk t → TableOk (f t))
      → Kept u (modify (end_transaction f))
  unfolding modify end_transaction
  Kept-end_transaction f hf = record {
    keeps = λ w h.
        let k = for_each_table-IsKept f w.conn.locked_tables w hf h in
        (k.0, u.flags_ok w.conn _ false [] h.1);
  }

  pub commit_and_unlock_ok : (t : Table) → TableOk t → TableOk (commit_and_unlock t)
  unfolding commit_and_unlock unlock
  commit_and_unlock_ok t h = u.mutex_ok (commit_changes t) none (u.commit_ok t h)

  pub rollback_and_unlock_ok : (t : Table) → TableOk t → TableOk (rollback_and_unlock t)
  unfolding rollback_and_unlock unlock
  rollback_and_unlock_ok t h = u.mutex_ok (rollback_changes t) none (u.rollback_ok t h)

pub ruleset kept_rules = (
  Kept-pure, Kept-raise, Kept-undefined, Kept-lift, Kept-checked, Kept-gets, Kept-if, Kept-bind,
  Kept-top_bind, Kept-get_bind, Kept-log_in, Kept-begin, Kept-respond, done, refused, rejected,
  shown, Kept-stack_pop, Kept-stack_push, Kept-table_set, Kept-table_commit, Kept-find,
  Kept-join_transaction, Kept-with_guard, Kept-create, Kept-end_transaction, commit_and_unlock_ok,
  rollback_and_unlock_ok,
)
