-- ===== src/Connection/Prompt.antt =====
-- The actions of which the handlers of client_connection.cpp are built, and whether they wait.
use a_multi_threaded_key_val.Prelude.{ℕ, ◌≡◌, ◌≢◌, refl, ◌∷◌, arith}
use a_multi_threaded_key_val.Text.{Str}
use a_multi_threaded_key_val.Exceptions.{Result, ok, throw}
use a_multi_threaded_key_val.Message.{Message}
use a_multi_threaded_key_val.Serialization.{encode}
use a_multi_threaded_key_val.Table.{trylock}
use a_multi_threaded_key_val.ValueStack
use a_multi_threaded_key_val.Server.{Server, create_table}
use a_multi_threaded_key_val.Connection.{
  Connection, World, blocked, lift, modify, set_conn, respond, stack_top, stack_pop, popped,
  stack_push, table_get, table_set, table_commit, join_transaction,
}
use a_multi_threaded_key_val.Connection.Handlers.{server_create_table, server_find_table, created}
use a_multi_threaded_key_val.Connection.Waiting.{
  Prompt, Quiet, of_result-ne, Quiet-bind, Quiet-lift,
}

pub Prompt-modify : (f : World → World) → Prompt (modify f)
unfolding modify
Prompt-modify f = record { ends = λ w h. ground arith }

pub Quiet-set_conn :
    (f : Connection → Connection)
    → ((c : Connection) → (f c).m_in_transaction ≡ c.m_in_transaction)
    → Quiet (modify (set_conn f))
unfolding modify
Quiet-set_conn f e = record { ends = λ w h. ground arith; server = λ w. refl; same = λ w. e w.conn }

pub Quiet-respond : (msg : Message) → Quiet (respond msg)
unfolding respond
Quiet-respond msg =
    Quiet-bind (lift (encode msg)) _ (Quiet-lift (encode msg))
      λ encoded. Quiet-set_conn (λ c. record c { written = encoded ∷ c.written }) (λ c. refl)

pub Quiet-stack_top : Quiet stack_top
unfolding stack_top
Quiet-stack_top = record {
  ends = λ w. of_result-ne (ValueStack.get_top w.conn.m_stack);
  server = λ w. refl;
  same = λ w. refl;
}

pub popped-facts :
    (r : Result ValueStack.ValueStack) (w : World)
    → ((popped r w).0 ≢ blocked)
      × ((popped r w).1.server ≡ w.server)
      × ((popped r w).1.conn.m_in_transaction ≡ w.conn.m_in_transaction)
popped-facts (ok v) w = (λ h. ground arith, refl, refl)
popped-facts (throw e) w = (λ h. ground arith, refl, refl)

pub Quiet-stack_pop : Quiet stack_pop
unfolding stack_pop
Quiet-stack_pop = record {
  ends = λ w. (popped-facts (ValueStack.pop w.conn.m_stack) w).0;
  server = λ w. (popped-facts (ValueStack.pop w.conn.m_stack) w).1;
  same = λ w. (popped-facts (ValueStack.pop w.conn.m_stack) w).2;
}

pub Quiet-stack_push : (value : Str) → Quiet (stack_push value)
unfolding stack_push
Quiet-stack_push value = record { ends = λ w h. ground arith; server = λ w. refl; same = λ w. refl }

pub Quiet-table_get : (p : ℕ) (key : Str) → Quiet (table_get p key)
unfolding table_get
Quiet-table_get p key = record { ends = λ w. of_result-ne _; server = λ w. refl; same = λ w. refl }

pub Prompt-table_set : (p : ℕ) (key value : Str) → Prompt (table_set p key value)
unfolding table_set
Prompt-table_set p key value = record { ends = λ w h. ground arith }

pub Prompt-table_commit : (p : ℕ) → Prompt (table_commit p)
unfolding table_commit
Prompt-table_commit p = record { ends = λ w h. ground arith }

pub Prompt-join_transaction : (p : ℕ) (name : Str) → Prompt (join_transaction p name)
unfolding join_transaction trylock
Prompt-join_transaction p name = record { ends = λ w h. ground arith }

pub Quiet-find : (name : Str) → Quiet (server_find_table name)
unfolding server_find_table
Quiet-find name = record { ends = λ w. of_result-ne _; server = λ w. refl; same = λ w. refl }

pub created-ne : (r : Result Server) (w : World) → (created r w).0 ≢ blocked
created-ne (ok srv) w h = ground arith
created-ne (throw e) w h = ground arith

pub Prompt-create : (name : Str) → Prompt (server_create_table name)
unfolding server_create_table
Prompt-create name = record { ends = λ w. created-ne (create_table name w.server) w }
