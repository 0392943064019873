-- ===== src/Connection.antt =====
-- client_connection.h: the state of one connection, beside the server that it shares with the
-- others, and the actions that its handlers are built from.
pub mod Handlers
pub mod Chat
pub mod Invariant
pub mod Primitives
pub mod Locking
pub mod Transactions
pub mod Creation
pub mod Safety
pub mod Waiting
pub mod Prompt
pub mod Progress
pub mod Arithmetic
pub mod Rounds
pub mod Endings
pub mod Autocommit
pub mod Losses
pub mod Buffer
pub mod Upkeep
pub mod Kept
pub mod Tidy
pub mod Values
pub mod Speaking
pub mod Answers
pub mod Stops
pub mod Orders
pub mod Definedness
pub mod Defined
pub use a_multi_threaded_key_val.Prelude.{mem}
use a_multi_threaded_key_val.Prelude.{
  ℕ, Bool, true, false, ◌||◌, Option, none, some, List, [], ◌∷◌, ◌++◌, ◌==◌, if◌then◌else◌,
}
use a_multi_threaded_key_val.Text.{Str, codes}
use a_multi_threaded_key_val.Exceptions.{Exception, Result, ok, throw, failed_transaction}
use a_multi_threaded_key_val.Message.{Message}
use a_multi_threaded_key_val.Serialization.{encode}
use a_multi_threaded_key_val.Table
use a_multi_threaded_key_val.Table.{Table, lock, unlock, trylock, commit_changes, rollback_changes}
use a_multi_threaded_key_val.ValueStack
use a_multi_threaded_key_val.ValueStack.{ValueStack, new_stack}
use a_multi_threaded_key_val.Server.{Server, set_cell}

-- `thread` is the thread that serves the connection, and owns the mutexes that it locks;
-- `written` is what `rio_writen` was given, the last text first.
pub record Connection : Type 0 where
  pub thread : ℕ
  pub m_stack : ValueStack
  pub m_logged_in : Bool
  pub m_in_transaction : Bool
  pub locked_tables : List ℕ
  pub written : List Str

-- `ClientConnection(server, client_fd)`
abbrev pub new_connection : ℕ → Connection
new_connection i = record {
  thread = i;
  m_stack = new_stack;
  m_logged_in = false;
  m_in_transaction = false;
  locked_tables = [];
  written = [];
}

pub record World : Type 0 where
  pub server : Server
  pub conn : Connection

-- How a piece of code ends: it returns, an exception leaves it, it waits for a mutex, or it does
-- what the language leaves undefined.
pub data Outcome {ℓ} (A : Type ℓ) : Type ℓ where
  returned : A → Outcome A
  raised : Exception → Outcome A
  blocked : Outcome A
  undefined : Outcome A

abbrev pub Action {ℓ} : Type ℓ → Type ℓ
Action A = World → Outcome A × World

module _ {ℓ} {A : Type ℓ} where
  unfoldable pub pure : A → Action A
  pure a w = (returned a, w)

  unfoldable pub raise : Exception → Action A
  raise e w = (raised e, w)

  unfoldable pub undefined_behaviour : Action A
  undefined_behaviour w = (undefined, w)

  abbrev pub of_result : Result A → Outcome A
  of_result (ok a) = returned a
  of_result (throw e) = raised e

  abbrev pub of_option : Option A → Outcome A
  of_option (some a) = returned a
  of_option none = undefined

  unfoldable pub lift : Result A → Action A
  lift r w = (of_result r, w)

  -- An index into `m_args`.
  unfoldable pub checked : Option A → Action A
  checked o w = (of_option o, w)

  unfoldable pub gets : (World → A) → Action A
  gets f w = (returned (f w), w)

unfoldable pub modify : (World → World) → Action (Unit {0})
modify f w = (returned tt, f w)

module _ {ℓ κ} {A : Type ℓ} {B : Type κ} where
  abbrev pub continue : Outcome A → (A → Action B) → Action B
  continue (returned a) f w = f a w
  continue (raised e) f w = (raised e, w)
  continue blocked f w = (blocked, w)
  continue undefined f w = (undefined, w)

  infixl 5 ◌>>=◌
  unfoldable pub ◌>>=◌ : Action A → (A → Action B) → Action B
  ◌>>=◌ m f w = let (o, w') = m w in continue o f w'

infixl 5 ◌>>◌
abbrev pub ◌>>◌ {ℓ} : {B : Type ℓ} → Action (Unit {0}) → Action B → Action B
m >> n = m >>= λ _. n

abbrev pub set_conn : (Connection → Connection) → World → World
set_conn f w = record w { conn = f w.conn }

abbrev pub set_table : ℕ → Table → World → World
set_table p t w = record w { server = set_cell p t w.server }

abbrev pub table_at : ℕ → World → Table
table_at p w = w.server.cell p

-- `encode` and `rio_writen`, as every response ends; what `rio_writen` returns is not read.
unfoldable pub respond : Message → Action (Unit {0})
unfolding ◌>>=◌ lift modify
respond msg = do
  encoded ← lift (encode msg)
  modify (set_conn (λ c. record c { written = encoded ∷ c.written }))

-- The methods of `m_stack`.
unfoldable pub stack_top : Action Str
stack_top w = (of_result (ValueStack.get_top w.conn.m_stack), w)

abbrev pub popped : Result ValueStack → Action (Unit {0})
popped (ok s) w = (returned tt, set_conn (λ c. record c { m_stack = s }) w)
popped (throw e) w = (raised e, w)

unfoldable pub stack_pop : Action (Unit {0})
stack_pop w = popped (ValueStack.pop w.conn.m_stack) w

unfoldable pub stack_push : Str → Action (Unit {0})
unfolding modify
stack_push value = modify (set_conn (λ c. record c { m_stack = ValueStack.push value c.m_stack }))

-- The methods of the table at `p`.
unfoldable pub table_get : ℕ → Str → Action Str
table_get p key w = (of_result (Table.get key (table_at p w)), w)

unfoldable pub table_set : ℕ → Str → Str → Action (Unit {0})
unfolding modify
table_set p key value = modify (λ w. set_table p (Table.set key value (table_at p w)) w)

unfoldable pub table_commit : ℕ → Action (Unit {0})
unfolding modify
table_commit p = modify (λ w. set_table p (commit_changes (table_at p w)) w)

abbrev release {ℓ} : {A : Type ℓ} → ℕ → Outcome A × World → Outcome A × World
release p (o, w) = (o, set_table p (unlock (table_at p w)) w)

abbrev guarded {ℓ} : {A : Type ℓ} → ℕ → Action A → Option Table → Action A
guarded p body none w = (blocked, w)
guarded p body (some t) w = release p (body (set_table p t w))

-- `Guard G(p->get_mutex())` and the rest of its block: the destructor unlocks the mutex when the
-- block is left, by an exception too.
unfoldable pub with_guard {ℓ} : {A : Type ℓ} → ℕ → Action A → Action A
with_guard p body w = guarded p body (lock w.conn.thread (table_at p w)) w

abbrev pub joined : ℕ → Str → Bool × Table → Action (Unit {0})
joined p name (true, t) w = (
  returned tt,
  set_conn (λ c. record c { locked_tables = p ∷ c.locked_tables }) (set_table p t w),
)
joined p name (false, t) w =
    (raised (failed_transaction (codes "Could not acquire lock on table " ++ name)), w)

-- The test of `locked_tables` (`find(p) != end()`), the `trylock` and the insertion at the head of the transactional
-- branches of `handle_get` and `handle_set`.
unfoldable pub join_transaction : ℕ → Str → Action (Unit {0})
join_transaction p name w =
    if mem p w.conn.locked_tables
    then (returned tt, w)
    else joined p name (trylock w.conn.thread (table_at p w)) w

-- The loops over `locked_tables` of `handle_commit`, of the handler of `FailedTransaction` and of
-- the destructor.
unfoldable pub for_each_table : (Table → Table) → List ℕ → Server → Server
for_each_table f [] srv = srv
for_each_table f (p ∷ ps) srv = for_each_table f ps (set_cell p (f (srv.cell p)) srv)

unfoldable pub commit_and_unlock : Table → Table
unfolding commit_changes unlock
commit_and_unlock t = unlock (commit_changes t)

unfoldable pub rollback_and_unlock : Table → Table
unfolding rollback_changes unlock
rollback_and_unlock t = unlock (rollback_changes t)

-- The loop over `locked_tables`, `m_in_transaction = false` and `locked_tables.clear()`.
unfoldable pub end_transaction : (Table → Table) → World → World
unfolding for_each_table
end_transaction f w = record w {
  server = for_each_table f w.conn.locked_tables w.server;
  conn = record (w.conn) { m_in_transaction = false; locked_tables = [] };
}

-- The destructor, without the `close` of the socket.
unfoldable pub disconnect : World → World
unfolding for_each_table rollback_and_unlock
disconnect w =
    if w.conn.m_in_transaction
    then record w { server = for_each_table rollback_and_unlock w.conn.locked_tables w.server }
    else w
