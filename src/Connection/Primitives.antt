-- ===== src/Connection/Primitives.antt =====
-- The actions that read or write the state, against the invariant of `Connection.Invariant`.
use a_multi_threaded_key_val.Prelude.{ℕ, ◌≡◌, refl, sym, ◌∙◌, ◌∷◌, arith}
use a_multi_threaded_key_val.Text.{Str}
use a_multi_threaded_key_val.Exceptions.{Result, ok, throw}
use a_multi_threaded_key_val.Message.{Message}
use a_multi_threaded_key_val.Serialization.{encode}
use a_multi_threaded_key_val.ValueStack
use a_multi_threaded_key_val.Connection.{
  Connection, World, lift, modify, set_conn, respond, stack_top, stack_pop, stack_push, table_get,
  popped,
}
use a_multi_threaded_key_val.Connection.Invariant.{
  IsSound, Frame, Frame-refl, Safe, Safe-bind, Safe-lift,
}

-- An update of the connection that leaves its locks alone.
pub record IsPrivate (f : Connection → Connection) : Type 0 where
  pub thread : (c : Connection) → (f c).thread ≡ c.thread
  pub in_transaction : (c : Connection) → (f c).m_in_transaction ≡ c.m_in_transaction
  pub locked : (c : Connection) → (f c).locked_tables ≡ c.locked_tables

set_conn-keeps :
    (f : Connection → Connection) (w : World)
    → IsPrivate f
    → IsSound w
    → IsSound (set_conn f w) × Frame w (set_conn f w)
set_conn-keeps f w private s = (
  record {
    locks = λ p. rw (private.locked w.conn, private.thread w.conn) (s.locks p);
    clean = s.clean;
    quiet = λ h. rw (private.locked w.conn) (s.quiet (sym (private.in_transaction w.conn) ∙ h));
    fresh = s.fresh;
    named = s.named;
  },
  record {
    thread = private.thread w.conn;
    grows = omega arith;
    kept = λ p j h n. refl;
    taken = λ p j h n. h;
  },
)

popped-keeps :
    (r : Result ValueStack.ValueStack) (w : World)
    → IsSound w
    → IsSound (popped r w).1 × Frame w (popped r w).1
popped-keeps (ok v) w s =
    set_conn-keeps (λ c. record c { m_stack = v }) w
      (record { thread = λ c. refl; in_transaction = λ c. refl; locked = λ c. refl }) s
popped-keeps (throw e) w s = (s, Frame-refl w)

module _ (n : ℕ) where
  pub Safe-set_conn : (f : Connection → Connection) → IsPrivate f → Safe n (modify (set_conn f))
  unfolding modify
  Safe-set_conn f private = record { keeps = λ w s h. set_conn-keeps f w private s }

  pub Safe-respond : (msg : Message) → Safe n (respond msg)
  unfolding respond
  Safe-respond msg =
      Safe-bind n (lift (encode msg))
        (λ encoded. modify (set_conn (λ c. record c { written = encoded ∷ c.written })))
        (Safe-lift n (encode msg))
        (λ encoded.
          Safe-set_conn (λ c. record c { written = encoded ∷ c.written })
            (record { thread = λ c. refl; in_transaction = λ c. refl; locked = λ c. refl }))

  pub Safe-stack_top : Safe n stack_top
  unfolding stack_top
  Safe-stack_top = record { keeps = λ w s h. (s, Frame-refl w) }

  pub Safe-stack_pop : Safe n stack_pop
  unfolding stack_pop
  Safe-stack_pop = record { keeps = λ w s h. popped-keeps (ValueStack.pop w.conn.m_stack) w s }

  pub Safe-stack_push : (value : Str) → Safe n (stack_push value)
  unfolding stack_push
  Safe-stack_push value =
      Safe-set_conn (λ c. record c { m_stack = ValueStack.push value c.m_stack })
        (record { thread = λ c. refl; in_transaction = λ c. refl; locked = λ c. refl })

  pub Safe-table_get : (p : ℕ) (key : Str) → Safe n (table_get p key)
  unfolding table_get
  Safe-table_get p key = record { keeps = λ w s h. (s, Frame-refl w) }
