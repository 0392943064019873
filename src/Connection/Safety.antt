-- ===== src/Connection/Safety.antt =====
-- client_connection.cpp: the handlers and a round of `chat_with_client`, against the invariant of
-- `Connection.Invariant`.
use a_multi_threaded_key_val.Prelude.{ℕ, refl, Bool, true, false, arith, if◌then◌else◌}
use a_multi_threaded_key_val.Prelude.Int.{ℤ, ◌+ℤ◌, ◌-ℤ◌, ◌*ℤ◌}
use a_multi_threaded_key_val.Text.{Str, codes}
use a_multi_threaded_key_val.Exceptions.{
  Exception, invalid_message, comm_exception, operation_exception, failed_transaction,
}
use a_multi_threaded_key_val.Message.{MessageType, Message}
use a_multi_threaded_key_val.Serialization.{decode}
use a_multi_threaded_key_val.Connection.{
  World, Action, Outcome, raised, lift, modify, raise, ◌>>=◌, set_conn, respond,
}
use a_multi_threaded_key_val.Connection.Handlers.{
  ok_response, handle_login, handle_create, handle_get, handle_set, handle_push, handle_pop,
  handle_top, handle_binary, divide, int_result, handle_add, handle_sub, handle_mul, handle_div,
  handle_begin, handle_commit, handle_bye,
}
use a_multi_threaded_key_val.Connection.Chat.{c_string, dispatch, serve, recover, catch, chat_step}
use a_multi_threaded_key_val.Connection.Invariant.{
  IsSound, Frame-refl, Frame-trans, KeepsAt, Safe, Safe-bind, Safe-lift, safe_rules,
}
use a_multi_threaded_key_val.Connection.Primitives.{IsPrivate, Safe-set_conn, Safe-respond}
use a_multi_threaded_key_val.Connection.Locking.{get-keeps, set-keeps}
use a_multi_threaded_key_val.Connection.Transactions.{
  Safe-end_transaction, commit_and_unlock-IsEnding, rollback_and_unlock-IsEnding,
}
use a_multi_threaded_key_val.Connection.Creation.{Safe-find, Safe-by_transaction, handler_rules}

set_logged_in-IsPrivate : IsPrivate (λ c. record c { m_logged_in = true })
set_logged_in-IsPrivate = record {
  thread = λ c. refl;
  in_transaction = λ c. refl;
  locked = λ c. refl;
}

Safe-handle_login : (n : ℕ) (msg : Message) → Safe n (handle_login msg)
unfolding handle_login
Safe-handle_login n msg = search (handler_rules, Safe-set_conn, set_logged_in-IsPrivate)

Safe-handle_bye : (n : ℕ) (msg : Message) → Safe n (handle_bye msg)
unfolding handle_bye
Safe-handle_bye n msg = search handler_rules

Safe-handle_create : (n : ℕ) (msg : Message) → Safe n (handle_create msg)
unfolding handle_create
Safe-handle_create n msg = search handler_rules

Safe-handle_get : (msg : Message) → Safe 0 (handle_get msg)
unfolding handle_get
Safe-handle_get msg = search (handler_rules, Safe-find, Safe-by_transaction, get-keeps)

Safe-handle_set : (msg : Message) → Safe 0 (handle_set msg)
unfolding handle_set
Safe-handle_set msg = search (handler_rules, Safe-find, Safe-by_transaction, set-keeps) depth 9

Safe-handle_push : (n : ℕ) (msg : Message) → Safe n (handle_push msg)
unfolding handle_push
Safe-handle_push n msg = search handler_rules

Safe-handle_pop : (n : ℕ) (msg : Message) → Safe n (handle_pop msg)
unfolding handle_pop
Safe-handle_pop n msg = search handler_rules

Safe-handle_top : (n : ℕ) (msg : Message) → Safe n (handle_top msg)
unfolding handle_top
Safe-handle_top n msg = search handler_rules

Safe-handle_binary :
    (n : ℕ) (too_few : Str) (compute : ℤ → ℤ → Action ℤ)
    → ((l r : ℤ) → Safe n (compute l r))
    → Safe n (handle_binary too_few compute)
unfolding handle_binary
Safe-handle_binary n too_few compute sc = search handler_rules depth 12

Safe-int_result : (n : ℕ) (z : ℤ) → Safe n (int_result z)
unfolding int_result
Safe-int_result n z = search handler_rules

Safe-divide : (n : ℕ) (l r : ℤ) → Safe n (divide l r)
unfolding divide
Safe-divide n l r = search (handler_rules, Safe-int_result)

Safe-handle_add : (n : ℕ) → Safe n handle_add
unfolding handle_add
Safe-handle_add n = Safe-handle_binary n _ _ (λ l r. Safe-int_result n (l +ℤ r))

Safe-handle_sub : (n : ℕ) → Safe n handle_sub
unfolding handle_sub
Safe-handle_sub n = Safe-handle_binary n _ _ (λ l r. Safe-int_result n (l -ℤ r))

Safe-handle_mul : (n : ℕ) → Safe n handle_mul
unfolding handle_mul
Safe-handle_mul n = Safe-handle_binary n _ _ (λ l r. Safe-int_result n (l *ℤ r))

Safe-handle_div : (n : ℕ) → Safe n handle_div
unfolding handle_div
Safe-handle_div n = Safe-handle_binary n _ _ (Safe-divide n)

-- The only handler that makes `m_in_transaction` true; no table is locked then.
begin-keeps :
    (b : Bool) (w : World)
    → IsSound w
    → KeepsAt w (
        if b
        then raise (failed_transaction (codes "Nested transaction not allowed"))
        else modify (set_conn (λ c. record c { m_in_transaction = true })))
unfolding raise modify
begin-keeps true w s = (s, Frame-refl w)
begin-keeps false w s = (
  record {
    locks = s.locks;
    clean = s.clean;
    quiet = λ h. ground arith;
    fresh = s.fresh;
    named = s.named;
  },
  record { thread = refl; grows = omega arith; kept = λ p j h m. refl; taken = λ p j h m. h },
)

Safe-handle_begin : (n : ℕ) → Safe n handle_begin
unfolding handle_begin
Safe-handle_begin n =
    Safe-by_transaction n _ (respond ok_response) (λ w h s b e. begin-keeps b w s)
      (Safe-respond n ok_response)

pub Safe-handle_commit : (n : ℕ) → Safe n handle_commit
unfolding handle_commit
Safe-handle_commit n = search (handler_rules, Safe-end_transaction, commit_and_unlock-IsEnding)

Safe-dispatch : (t : MessageType) (req : Message) → Safe 0 (dispatch t req)
unfolding dispatch
Safe-dispatch MessageType.login req = search (safe_rules, Safe-handle_login)
Safe-dispatch MessageType.create req = search (safe_rules, Safe-handle_create)
Safe-dispatch MessageType.get req = search (safe_rules, Safe-handle_get)
Safe-dispatch MessageType.set req = search (safe_rules, Safe-handle_set)
Safe-dispatch MessageType.push req = search (safe_rules, Safe-handle_push)
Safe-dispatch MessageType.pop req = search (safe_rules, Safe-handle_pop)
Safe-dispatch MessageType.top req = search (safe_rules, Safe-handle_top)
Safe-dispatch MessageType.add req = search (safe_rules, Safe-handle_add)
Safe-dispatch MessageType.sub req = search (safe_rules, Safe-handle_sub)
Safe-dispatch MessageType.mul req = search (safe_rules, Safe-handle_mul)
Safe-dispatch MessageType.div req = search (safe_rules, Safe-handle_div)
Safe-dispatch MessageType.begin req = search (safe_rules, Safe-handle_begin)
Safe-dispatch MessageType.commit req = search (safe_rules, Safe-handle_commit)
Safe-dispatch MessageType.bye req = search (safe_rules, Safe-handle_bye)
Safe-dispatch _ req = search safe_rules

Safe-serve : (req : Message) → Safe 0 (serve req)
unfolding serve
Safe-serve req = search (safe_rules, Safe-dispatch)

pub Safe-recover : (e : Exception) → Safe 0 (recover e)
unfolding recover
Safe-recover (operation_exception what) = search handler_rules
Safe-recover (failed_transaction what) =
    search (handler_rules, Safe-end_transaction, rollback_and_unlock-IsEnding)
Safe-recover (invalid_message what) = search handler_rules
Safe-recover (comm_exception what) = search handler_rules

catch-keeps : (o : Outcome Bool) (w : World) → IsSound w → KeepsAt w (catch o)
catch-keeps (raised e) w s = (Safe-recover e).keeps w s (omega arith)
catch-keeps _ w s = (s, Frame-refl w)

-- A round up to the handlers of the `try`.
pub Safe-read : (buf : Str) → Safe 0 (lift (decode (c_string buf)) >>= serve)
Safe-read buf = Safe-bind 0 (lift (decode (c_string buf))) serve (Safe-lift 0 _) Safe-serve

-- One round of the loop keeps the invariant of the connection and the server, however it ends, and
-- changes no table that another thread holds.
pub Safe-chat_step : (buf : Str) → Safe 0 (chat_step buf)
unfolding chat_step
Safe-chat_step buf = record {
  keeps = λ w s h.
      let m = lift (decode (c_string buf)) >>= serve in
      let (s', fr) = (Safe-read buf).keeps w s h in
      let (s'', fr') = catch-keeps (m w).0 (m w).1 s' in (s'', Frame-trans fr fr');
}
