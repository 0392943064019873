-- ===== src/Connection/Speaking.antt =====
-- client_connection.cpp: what it means that code writes nothing, or one text, to the client, and the
-- rules for the actions of which the handlers are built.
use a_multi_threaded_key_val.Prelude.{
  ℕ, ◌≡◌, refl, ◌∙◌, Bool, true, false, Option, List, ◌∷◌, Option-cases, Bool-cases, inl, inr,
  if◌then◌else◌,
}
use a_multi_threaded_key_val.Text.{Str}
use a_multi_threaded_key_val.Exceptions.{Exception, Result, ok, throw}
use a_multi_threaded_key_val.Message.{Message}
use a_multi_threaded_key_val.Serialization.{encode}
use a_multi_threaded_key_val.Table.{Table, trylock}
use a_multi_threaded_key_val.Table.Laws.{lock_free, lock_taken}
use a_multi_threaded_key_val.ValueStack
use a_multi_threaded_key_val.ValueStack.{ValueStack}
use a_multi_threaded_key_val.Server.{Server, create_table}
use a_multi_threaded_key_val.Connection.{
  Connection, World, Action, Outcome, returned, raised, blocked, undefined, pure, raise,
  undefined_behaviour, lift, checked, gets, modify, continue, of_result, ◌>>=◌, mem, set_conn,
  table_at, respond, popped, stack_top, stack_pop, stack_push, table_get, table_set, table_commit,
  with_guard, join_transaction, joined, end_transaction,
}
use a_multi_threaded_key_val.Connection.Handlers.{server_create_table, server_find_table, created}

-- It writes nothing, however it ends.
pub record Mute {ℓ} {A : Type ℓ} (m : Action A) : Type ℓ where
  pub silent : (w : World) → (m w).1.conn.written ≡ w.conn.written

-- What was written is `before`, and one text more where the code returned.
abbrev pub AnsweredTo {ℓ} : {A : Type ℓ} → Outcome A → List Str → List Str → Type 0
AnsweredTo (returned a) before after = (text : Str) × (after ≡ text ∷ before)
AnsweredTo _ before after = after ≡ before

pub record Answers {ℓ} {A : Type ℓ} (m : Action A) : Type ℓ where
  pub answers : (w : World) → AnsweredTo (m w).0 w.conn.written (m w).1.conn.written

module _ {ℓ} {A : Type ℓ} where
  pub Mute-pure : (a : A) → Mute (pure a)
  unfolding pure
  Mute-pure a = record { silent = λ w. refl }

  pub Mute-raise : (e : Exception) → Mute (raise {A = A} e)
  unfolding raise
  Mute-raise e = record { silent = λ w. refl }

  pub Mute-undefined : Mute (undefined_behaviour {A = A})
  unfolding undefined_behaviour
  Mute-undefined = record { silent = λ w. refl }

  pub Mute-lift : (r : Result A) → Mute (lift r)
  unfolding lift
  Mute-lift r = record { silent = λ w. refl }

  pub Mute-checked : (o : Option A) → Mute (checked o)
  unfolding checked
  Mute-checked o = record { silent = λ w. refl }

  pub Mute-gets : (f : World → A) → Mute (gets f)
  unfolding gets
  Mute-gets f = record { silent = λ w. refl }

  pub Mute-if : (b : Bool) (m k : Action A) → Mute m → Mute k → Mute (if b then m else k)
  Mute-if true m k qm qk = qm
  Mute-if false m k qm qk = qk

  pub Answers-if :
      (b : Bool) (m k : Action A) → Answers m → Answers k → Answers (if b then m else k)
  Answers-if true m k qm qk = qm
  Answers-if false m k qm qk = qk

  pub Answers-raise : (e : Exception) → Answers (raise {A = A} e)
  unfolding raise
  Answers-raise e = record { answers = λ w. refl }

  pub Mute-with_guard : (p : ℕ) (body : Action A) → Mute body → Mute (with_guard p body)
  unfolding with_guard
  Mute-with_guard p body q = record {
    silent = λ w. elim (Option-cases (table_at p w).table_mutex) [
      | inl free ↦ rw (lock_free w.conn.thread (table_at p w) free) (q.silent _)
      | inr (j, taken) ↦ rw (lock_taken w.conn.thread (table_at p w) j taken) refl
    ];
  }

module _ {ℓ κ} {A : Type ℓ} {B : Type κ} where
  pub Mute-bind :
      (m : Action A) (f : A → Action B) → Mute m → ((a : A) → Mute (f a)) → Mute (m >>= f)
  unfolding ◌>>=◌
  Mute-bind m f qm qf = record { silent = λ w. go (m w).0 (m w).1 ∙ qm.silent w }
    where
      go : (o : Outcome A) (w : World) → (continue o f w).1.conn.written ≡ w.conn.written
      go (returned a) w = (qf a).silent w
      go _ w = refl

  -- First silent, then an answer.
  pub Answers-bind :
      (m : Action A) (f : A → Action B) → Mute m → ((a : A) → Answers (f a)) → Answers (m >>= f)
  unfolding ◌>>=◌
  Answers-bind m f qm qf = record { answers = λ w. go (m w).0 (m w).1 (qm.silent w) }
    where
      go :
          {before : List Str} (o : Outcome A) (w : World)
          → w.conn.written ≡ before
          → AnsweredTo (continue o f w).0 before (continue o f w).1.conn.written
      go (returned a) w e = rw⁻¹ e ((qf a).answers w)
      go (raised x) w e = e
      go blocked w e = e
      go undefined w e = e

  -- First an answer, then a value.
  pub Answers-then_pure : (m : Action A) (b : B) → Answers m → Answers (m >>= λ a. pure b)
  unfolding ◌>>=◌ pure
  Answers-then_pure m b qm = record {
    answers = λ w. go w.conn.written (m w).0 (m w).1 (qm.answers w);
  }
    where
      go :
          (before : List Str) (o : Outcome A) (w : World)
          → AnsweredTo o before w.conn.written
          → AnsweredTo
              (continue o (λ a. pure b) w).0
              before
              (continue o (λ a. pure b) w).1.conn.written
      go before (returned a) w h = h
      go before (raised x) w h = h
      go before blocked w h = h
      go before undefined w h = h

pub Mute-set_conn :
    (f : Connection → Connection)
    → ((c : Connection) → (f c).written ≡ c.written)
    → Mute (modify (set_conn f))
unfolding modify
Mute-set_conn f h = record { silent = λ w. h w.conn }

pub Mute-log_in : Mute (modify (set_conn (λ c. record c { m_logged_in = true })))
Mute-log_in = Mute-set_conn _ (λ c. refl)

pub Mute-begin : Mute (modify (set_conn (λ c. record c { m_in_transaction = true })))
Mute-begin = Mute-set_conn _ (λ c. refl)

pub Mute-end_transaction : (f : Table → Table) → Mute (modify (end_transaction f))
unfolding modify end_transaction
Mute-end_transaction f = record { silent = λ w. refl }

pub Mute-stack_top : Mute stack_top
unfolding stack_top
Mute-stack_top = record { silent = λ w. refl }

pub Mute-stack_push : (value : Str) → Mute (stack_push value)
unfolding stack_push modify
Mute-stack_push value = record { silent = λ w. refl }

pub Mute-stack_pop : Mute stack_pop
unfolding stack_pop
Mute-stack_pop = record { silent = λ w. go (ValueStack.pop w.conn.m_stack) w }
  where
    go : (r : Result ValueStack) (w : World) → (popped r w).1.conn.written ≡ w.conn.written
    go (ok s) w = refl
    go (throw e) w = refl

pub Mute-table_get : (p : ℕ) (key : Str) → Mute (table_get p key)
unfolding table_get
Mute-table_get p key = record { silent = λ w. refl }

pub Mute-table_set : (p : ℕ) (key value : Str) → Mute (table_set p key value)
unfolding table_set modify
Mute-table_set p key value = record { silent = λ w. refl }

pub Mute-table_commit : (p : ℕ) → Mute (table_commit p)
unfolding table_commit modify
Mute-table_commit p = record { silent = λ w. refl }

pub Mute-find : (name : Str) → Mute (server_find_table name)
unfolding server_find_table lift
Mute-find name = record { silent = λ w. refl }

pub Mute-create : (name : Str) → Mute (server_create_table name)
unfolding server_create_table
Mute-create name = record { silent = λ w. go (create_table name w.server) w }
  where
    go : (r : Result Server) (w : World) → (created r w).1.conn.written ≡ w.conn.written
    go (ok s) w = refl
    go (throw e) w = refl

pub Mute-join_transaction : (p : ℕ) (name : Str) → Mute (join_transaction p name)
unfolding join_transaction
Mute-join_transaction p name = record {
  silent = λ w. elim (Bool-cases (mem p w.conn.locked_tables)) [
    | inl member ↦ rw member refl
    | inr other ↦ rw other (go (trylock w.conn.thread (table_at p w)) w)
  ];
}
  where
    go : (r : Bool × Table) (w : World) → (joined p name r w).1.conn.written ≡ w.conn.written
    go (true, t) w = refl
    go (false, t) w = refl

pub Answers-respond : (msg : Message) → Answers (respond msg)
unfolding respond ◌>>=◌ lift modify
Answers-respond msg = record { answers = λ w. go (encode msg) w }
  where
    go :
        (r : Result Str) (w : World)
        → let v =
            continue
              (of_result r)
              (λ t. modify (set_conn (λ c. record c { written = t ∷ c.written })))
              w in
          AnsweredTo v.0 w.conn.written v.1.conn.written
    go (ok t) w = (t, refl)
    go (throw e) w = refl

pub ruleset answer_rules = (
  Mute-pure, Mute-raise, Mute-undefined, Mute-lift, Mute-checked, Mute-gets, Mute-if,
  Mute-with_guard, Mute-bind, Mute-log_in, Mute-begin, Mute-end_transaction, Mute-stack_top,
  Mute-stack_push, Mute-stack_pop, Mute-table_get, Mute-table_set, Mute-table_commit, Mute-find,
  Mute-create, Mute-join_transaction, Answers-if, Answers-raise, Answers-bind, Answers-then_pure,
  Answers-respond,
)
