-- ===== src/Connection/Definedness.antt =====
-- client_connection.cpp: what it means that code does nothing that C++ leaves undefined, and the
-- rules for the actions of which the handlers are built.
use a_multi_threaded_key_val.Prelude.{
  ℕ, ◌≢◌, refl, Bool, true, false, some, Option-cases, inl, inr, if◌then◌else◌, arith,
}
use a_multi_threaded_key_val.Text.{Str}
use a_multi_threaded_key_val.Exceptions.{Exception, Result, ok, throw}
use a_multi_threaded_key_val.Message.{Message}
use a_multi_threaded_key_val.Serialization.{encode}
use a_multi_threaded_key_val.Table.{trylock}
use a_multi_threaded_key_val.Table.Laws.{lock_free, lock_taken}
use a_multi_threaded_key_val.ValueStack
use a_multi_threaded_key_val.ValueStack.{ValueStack}
use a_multi_threaded_key_val.Server.{Server, create_table}
use a_multi_threaded_key_val.Connection.{
  World, Action, Outcome, returned, raised, blocked, undefined, pure, raise, lift, checked, gets,
  modify, continue, of_result, ◌>>=◌, respond, popped, stack_top, stack_pop, stack_push, table_get,
  table_set, table_commit, table_at, with_guard, join_transaction,
}
use a_multi_threaded_key_val.Connection.Handlers.{server_create_table, server_find_table, created}

-- It does nothing that is undefined.
pub record Defined {ℓ} {A : Type ℓ} (m : Action A) : Type ℓ where
  pub sane : (w : World) → (m w).0 ≢ undefined

result-ne {ℓ} : {A : Type ℓ} (r : Result A) → of_result r ≢ undefined
result-ne (ok a) h = ground arith
result-ne (throw e) h = ground arith

module _ {ℓ} {A : Type ℓ} where
  pub Defined-pure : (a : A) → Defined (pure a)
  unfolding pure
  Defined-pure a = record { sane = λ w h. ground arith }

  pub Defined-raise : (e : Exception) → Defined (raise {A = A} e)
  unfolding raise
  Defined-raise e = record { sane = λ w h. ground arith }

  pub Defined-lift : (r : Result A) → Defined (lift r)
  unfolding lift
  Defined-lift r = record { sane = λ w. result-ne r }

  -- An index that is in range.
  pub Defined-checked : (a : A) → Defined (checked (some a))
  unfolding checked
  Defined-checked a = record { sane = λ w h. ground arith }

  pub Defined-gets : (f : World → A) → Defined (gets f)
  unfolding gets
  Defined-gets f = record { sane = λ w h. ground arith }

  pub Defined-if :
      (b : Bool) (m k : Action A) → Defined m → Defined k → Defined (if b then m else k)
  Defined-if true m k qm qk = qm
  Defined-if false m k qm qk = qk

  pub Defined-with_guard : (p : ℕ) (body : Action A) → Defined body → Defined (with_guard p body)
  unfolding with_guard
  Defined-with_guard p body q = record { sane = go }
    where
      go : (w : World) → (with_guard p body w).0 ≢ undefined
      go w = elim (Option-cases (table_at p w).table_mutex) [
        | inl free ↦ rw (lock_free w.conn.thread (table_at p w) free) (q.sane _)
        | inr (j, taken) ↦
            rw (lock_taken w.conn.thread (table_at p w) j taken) (λ h. ground (arith, h))
      ]

module _ {ℓ κ} {A : Type ℓ} {B : Type κ} where
  pub Defined-bind :
      (m : Action A) (f : A → Action B) → Defined m → ((a : A) → Defined (f a)) → Defined (m >>= f)
  unfolding ◌>>=◌
  Defined-bind m f qm qf = record { sane = λ w. go (m w).0 (m w).1 (qm.sane w) }
    where
      go : (o : Outcome A) (w : World) → o ≢ undefined → (continue o f w).0 ≢ undefined
      go (returned a) w n h = (qf a).sane w h
      go (raised e) w n h = ground arith
      go blocked w n h = ground arith
      go undefined w n h = n refl

pub Defined-modify : (f : World → World) → Defined (modify f)
unfolding modify
Defined-modify f = record { sane = λ w h. ground arith }

pub Defined-respond : (msg : Message) → Defined (respond msg)
unfolding respond
Defined-respond msg =
    Defined-bind (lift (encode msg)) _ (Defined-lift (encode msg)) (λ encoded. Defined-modify _)

pub Defined-stack_top : Defined stack_top
unfolding stack_top
Defined-stack_top = record { sane = λ w. result-ne (ValueStack.get_top w.conn.m_stack) }

pub Defined-stack_pop : Defined stack_pop
unfolding stack_pop
Defined-stack_pop = record { sane = λ w. go (ValueStack.pop w.conn.m_stack) w }
  where
    go : (r : Result ValueStack) (w : World) → (popped r w).0 ≢ undefined
    go (ok s) w h = ground arith
    go (throw e) w h = ground arith

pub Defined-stack_push : (value : Str) → Defined (stack_push value)
unfolding stack_push
Defined-stack_push value = Defined-modify _

pub Defined-table_get : (p : ℕ) (key : Str) → Defined (table_get p key)
unfolding table_get
Defined-table_get p key = record { sane = λ w. result-ne _ }

pub Defined-table_set : (p : ℕ) (key value : Str) → Defined (table_set p key value)
unfolding table_set
Defined-table_set p key value = Defined-modify _

pub Defined-table_commit : (p : ℕ) → Defined (table_commit p)
unfolding table_commit
Defined-table_commit p = Defined-modify _

pub Defined-join_transaction : (p : ℕ) (name : Str) → Defined (join_transaction p name)
unfolding join_transaction trylock
Defined-join_transaction p name = record { sane = λ w h. ground arith }

pub Defined-find : (name : Str) → Defined (server_find_table name)
unfolding server_find_table lift
Defined-find name = record { sane = λ w. result-ne _ }

pub Defined-create : (name : Str) → Defined (server_create_table name)
unfolding server_create_table
Defined-create name = record { sane = λ w. go (create_table name w.server) w }
  where
    go : (r : Result Server) (w : World) → (created r w).0 ≢ undefined
    go (ok s) w h = ground arith
    go (throw e) w h = ground arith

pub ruleset defined_rules = (
  Defined-pure, Defined-raise, Defined-lift, Defined-checked, Defined-gets, Defined-if,
  Defined-with_guard, Defined-bind, Defined-modify, Defined-respond, Defined-stack_top,
  Defined-stack_pop, Defined-stack_push, Defined-table_get, Defined-table_set, Defined-table_commit,
  Defined-join_transaction, Defined-find, Defined-create,
)
