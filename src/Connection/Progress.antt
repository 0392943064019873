-- ===== src/Connection/Progress.antt =====
-- client_connection.cpp: when the handlers and a round of `chat_with_client` wait.
use a_multi_threaded_key_val.Prelude.{
  ℕ, ◌≡◌, refl, Option-cases, Bool, true, false, some, arith, inl, inr, if◌then◌else◌,
}
use a_multi_threaded_key_val.Prelude.Int.{ℤ, ◌+ℤ◌, ◌-ℤ◌, ◌*ℤ◌}
use a_multi_threaded_key_val.Text.{Str}
use a_multi_threaded_key_val.Exceptions.{
  Exception, invalid_message, comm_exception, operation_exception, failed_transaction,
}
use a_multi_threaded_key_val.Message.{MessageType, Message}
use a_multi_threaded_key_val.Serialization.{decode}
use a_multi_threaded_key_val.Table.Laws.{lock_free}
use a_multi_threaded_key_val.Connection.{
  World, Action, Outcome, returned, raised, blocked, undefined, lift, gets, ◌>>=◌, ◌>>◌, table_at,
  stack_push, table_get, table_set, table_commit, with_guard, join_transaction,
}
use a_multi_threaded_key_val.Connection.Handlers.{
  handle_login, handle_create, handle_get, handle_set, handle_push, handle_pop, handle_top,
  handle_binary, divide, int_result, handle_add, handle_sub, handle_mul, handle_div, handle_begin,
  handle_commit, handle_bye,
}
use a_multi_threaded_key_val.Connection.Chat.{c_string, dispatch, serve, recover, catch, chat_step}
use a_multi_threaded_key_val.Connection.Waiting.{
  Prompt, IsWaiting, Waits, Quiet-pure, Quiet-raise, Quiet-gets, Quiet-lift, Quiet-Prompt,
  Prompt-Waits, Prompt-bind, Waits-bind, Waits-first, Waits-bind_first, Waits-if, prompt_rules,
  quiet_rules,
}
use a_multi_threaded_key_val.Connection.Prompt.{
  Prompt-modify, Quiet-respond, Quiet-stack_top, Quiet-stack_pop, Quiet-stack_push, Quiet-table_get,
  Prompt-table_set, Prompt-table_commit, Prompt-join_transaction, Quiet-find, Prompt-create,
}

-- A guard whose block does not wait.
with_guard-waiting {ℓ} :
    {A : Type ℓ} (p : ℕ) (body : Action A) (w : World)
    → Prompt body
    → (with_guard p body w).0 ≡ blocked
    → (j : ℕ) × ((table_at p w).table_mutex ≡ some j)
unfolding with_guard
with_guard-waiting p body w pb h = elim (Option-cases (table_at p w).table_mutex) [
  | inl free ↦ absurd (pb.ends _ (rw (lock_free w.conn.thread (table_at p w) free) at h))
  | inr (j, taken) ↦ (j, taken)
]

module _ (p : ℕ) (J body after : Action (Unit {0})) (pj : Prompt J) (pb : Prompt body)
    (pa : Prompt after) where
  branch-IsWaiting :
      (b : Bool) (w : World)
      → w.conn.m_in_transaction ≡ b
      → (((if b then J else with_guard p body) >>= λ _. after) w).0 ≡ blocked
      → IsWaiting w
  branch-IsWaiting true w e h = absurd ((Prompt-bind J (λ _. after) pj (λ _. pa)).ends w h)
  branch-IsWaiting false w e h =
      let first = Waits-first (with_guard p body) (λ _. after) w (λ _. pa) h in
      let (j, held) = with_guard-waiting p body w pb first in (e, p, j, held)

  Waits-by_transaction : Waits (
      gets (λ w. w.conn.m_in_transaction) >>= λ b.
      (if b then J else with_guard p body) >>= λ _. after)
  Waits-by_transaction = record {
    waiting = λ w h. branch-IsWaiting w.conn.m_in_transaction w refl (unfold gets ◌>>=◌ in h);
  }

ruleset prompt_handlers = (
  prompt_rules, Prompt-modify, Quiet-respond, Quiet-stack_top, Quiet-stack_pop, Quiet-stack_push,
  Quiet-table_get, Prompt-table_set, Prompt-table_commit, Prompt-join_transaction, Prompt-create,
)

Waits-access :
    (p : ℕ) (name key : Str) (after : Action (Unit {0}))
    → Prompt after
    → Waits (do
      in_transaction ← gets (λ w. w.conn.m_in_transaction)
      if in_transaction
          then (do join_transaction p name; value ← table_get p key; stack_push value)
          else with_guard p (do value ← table_get p key; stack_push value)
      after)
Waits-access p name key after pa =
    Waits-by_transaction p _ _ after (search prompt_handlers) (search prompt_handlers) pa

Waits-update :
    (p : ℕ) (name key value : Str) (after : Action (Unit {0}))
    → Prompt after
    → Waits (do
      in_transaction ← gets (λ w. w.conn.m_in_transaction)
      if in_transaction
          then (do join_transaction p name; table_set p key value)
          else with_guard p (do table_set p key value; table_commit p)
      after)
Waits-update p name key value after pa =
    Waits-by_transaction p _ _ after (search prompt_handlers) (search prompt_handlers) pa

Waits-handle_get : (msg : Message) → Waits (handle_get msg)
unfolding handle_get
Waits-handle_get msg =
    search (Waits-bind, quiet_rules, Quiet-find, Waits-access, Quiet-Prompt, Quiet-respond) depth 8

Waits-handle_set : (msg : Message) → Waits (handle_set msg)
unfolding handle_set
Waits-handle_set msg =
    search
      (
        Waits-bind, quiet_rules, Quiet-stack_top, Quiet-stack_pop, Quiet-find, Waits-update,
        Quiet-Prompt, Quiet-respond,
      )
      depth 10

Prompt-handle_binary :
    (too_few : Str) (compute : ℤ → ℤ → Action ℤ)
    → ((l r : ℤ) → Prompt (compute l r))
    → Prompt (handle_binary too_few compute)
unfolding handle_binary
Prompt-handle_binary too_few compute pc = search prompt_handlers depth 12

Prompt-int_result : (z : ℤ) → Prompt (int_result z)
unfolding int_result
Prompt-int_result z = search prompt_rules

Prompt-divide : (l r : ℤ) → Prompt (divide l r)
unfolding divide
Prompt-divide l r = search (prompt_rules, Prompt-int_result)

Prompt-handle_login : (msg : Message) → Prompt (handle_login msg)
unfolding handle_login
Prompt-handle_login msg = search prompt_handlers

Prompt-handle_create : (msg : Message) → Prompt (handle_create msg)
unfolding handle_create
Prompt-handle_create msg = search prompt_handlers

Prompt-handle_push : (msg : Message) → Prompt (handle_push msg)
unfolding handle_push
Prompt-handle_push msg = search prompt_handlers

Prompt-handle_pop : (msg : Message) → Prompt (handle_pop msg)
unfolding handle_pop
Prompt-handle_pop msg = search prompt_handlers

Prompt-handle_top : (msg : Message) → Prompt (handle_top msg)
unfolding handle_top
Prompt-handle_top msg = search prompt_handlers

Prompt-handle_bye : (msg : Message) → Prompt (handle_bye msg)
unfolding handle_bye
Prompt-handle_bye msg = search prompt_handlers

Prompt-handle_begin : Prompt handle_begin
unfolding handle_begin
Prompt-handle_begin = search prompt_handlers

Prompt-handle_commit : Prompt handle_commit
unfolding handle_commit
Prompt-handle_commit = search prompt_handlers

Prompt-handle_add : Prompt handle_add
unfolding handle_add
Prompt-handle_add = Prompt-handle_binary _ _ (λ l r. Prompt-int_result (l +ℤ r))

Prompt-handle_sub : Prompt handle_sub
unfolding handle_sub
Prompt-handle_sub = Prompt-handle_binary _ _ (λ l r. Prompt-int_result (l -ℤ r))

Prompt-handle_mul : Prompt handle_mul
unfolding handle_mul
Prompt-handle_mul = Prompt-handle_binary _ _ (λ l r. Prompt-int_result (l *ℤ r))

Prompt-handle_div : Prompt handle_div
unfolding handle_div
Prompt-handle_div = Prompt-handle_binary _ _ Prompt-divide

ruleset dispatch_rules = (Waits-bind_first, Prompt-Waits, Quiet-Prompt, Quiet-pure, Quiet-raise)

Waits-dispatch : (t : MessageType) (req : Message) → Waits (dispatch t req)
unfolding dispatch
Waits-dispatch MessageType.login req = search (dispatch_rules, Prompt-handle_login)
Waits-dispatch MessageType.create req = search (dispatch_rules, Prompt-handle_create)
Waits-dispatch MessageType.get req = search (dispatch_rules, Waits-handle_get)
Waits-dispatch MessageType.set req = search (dispatch_rules, Waits-handle_set)
Waits-dispatch MessageType.push req = search (dispatch_rules, Prompt-handle_push)
Waits-dispatch MessageType.pop req = search (dispatch_rules, Prompt-handle_pop)
Waits-dispatch MessageType.top req = search (dispatch_rules, Prompt-handle_top)
Waits-dispatch MessageType.add req = search (dispatch_rules, Prompt-handle_add)
Waits-dispatch MessageType.sub req = search (dispatch_rules, Prompt-handle_sub)
Waits-dispatch MessageType.mul req = search (dispatch_rules, Prompt-handle_mul)
Waits-dispatch MessageType.div req = search (dispatch_rules, Prompt-handle_div)
Waits-dispatch MessageType.begin req = search (dispatch_rules, Prompt-handle_begin)
Waits-dispatch MessageType.commit req = search (dispatch_rules, Prompt-handle_commit)
Waits-dispatch MessageType.bye req = search (dispatch_rules, Prompt-handle_bye)
Waits-dispatch _ req = search dispatch_rules

Waits-serve : (req : Message) → Waits (serve req)
unfolding serve
Waits-serve req = search (Waits-bind, Waits-if, Quiet-gets, dispatch_rules, Waits-dispatch)

Prompt-recover : (e : Exception) → Prompt (recover e)
unfolding recover
Prompt-recover (operation_exception what) = search prompt_handlers
Prompt-recover (failed_transaction what) = search prompt_handlers
Prompt-recover (invalid_message what) = search prompt_handlers
Prompt-recover (comm_exception what) = search prompt_handlers

catch-blocked : (o : Outcome Bool) (w : World) → (catch o w).0 ≡ blocked → o ≡ blocked
catch-blocked (raised e) w h = absurd ((Prompt-recover e).ends w h)
catch-blocked (returned a) w h = ground arith
catch-blocked blocked w h = refl
catch-blocked undefined w h = ground arith

-- A round of the loop that waits is not in a transaction when it begins, and some thread holds the
-- mutex of some table.
pub chat_step-IsWaiting : (buf : Str) (w : World) → (chat_step buf w).0 ≡ blocked → IsWaiting w
unfolding chat_step
chat_step-IsWaiting buf w h =
    (Waits-bind (lift (decode (c_string buf))) serve (Quiet-lift _) Waits-serve).waiting w
      (catch-blocked _ _ h)
