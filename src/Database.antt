-- ===== src/Database.antt =====
-- The server and its clients as a user sees them: tables by name, each with its committed entries,
-- its pending ones and the client whose transaction has it. There are no pointers, no mutexes, no
-- exceptions and no bytes here; what a request does is told as one change of this state.
pub mod Abstraction
pub mod Rounds
pub mod Stack
pub mod Arithmetic
pub mod Transactions
pub mod Tables
pub mod Acquisition
pub mod Reads
pub mod Writes
pub mod Refinement
pub mod Users
pub mod Simulation
pub mod Journal
use mathlib.Core.Option
use a_multi_threaded_key_val.Prelude.{
  ℕ, zero, ◌+◌, Bool, true, false, not, ◌&&◌, Option, none, some, List, [], ◌∷◌, ◌++◌, ◌==◌,
  if◌then◌else◌,
}
use a_multi_threaded_key_val.Prelude.Int.{ℤ, pos, negsuc, ◌+ℤ◌, ◌-ℤ◌, ◌*ℤ◌, ◌/ℤ◌}
use a_multi_threaded_key_val.Text.{Str, codes, ◌=str◌}
use a_multi_threaded_key_val.Number.{
  Parsed, parsed, invalid_argument, out_of_range, stoi, to_string, in_range,
}
use a_multi_threaded_key_val.Table.Refinement.{
  Spec, spec_set, spec_lookup, spec_commit, spec_rollback, put,
}

pub record Entry : Type 0 where
  pub content : Spec
  pub owner : Option ℕ

-- `mutex_init n` is what the system answers where the `n`-th table asks it for a mutex.
pub record Database : Type 0 where
  pub tables : Str → Option Entry
  pub created : ℕ
  pub mutex_init : ℕ → ℕ

pub record Client : Type 0 where
  pub stack : List Str
  pub logged_in : Bool
  pub in_transaction : Bool

pub data Operator : Type 0 where
  add sub mul div : Operator

pub data Request : Type 0 where
  login bye pop top begin commit unknown : Request
  create push : Str → Request
  get set : Str → Str → Request
  compute : Operator → Request

pub data Reply : Type 0 where
  done : Reply
  value failure rejection : Str → Reply

-- What a request comes to: a reply, whether the client is served any further, and the next state; a
-- wait for the client that has the table; or nothing that is laid down.
pub data Verdict : Type 0 where
  replied : Reply → Bool → Database → Client → Verdict
  waits : Verdict
  unspecified : Verdict

abbrev pub failing : Str → Database → Client → Verdict
failing what db c = replied (failure what) true db c

abbrev pub push_on : Str → Client → Client
push_on v c = record c { stack = v ∷ c.stack }

abbrev pub set_entry : Str → Entry → Database → Database
set_entry name e db = record db { tables = λ n. if name =str n then some e else db.tables n }

abbrev pub owned : ℕ → Option ℕ → Bool
owned i none = false
owned i (some j) = j == i

abbrev pub ended : (Spec → Spec) → ℕ → Entry → Entry
ended f i e = if owned i e.owner then record { content = f e.content; owner = none } else e

-- The transaction of client `i` ends: `f` is done to each of its tables.
abbrev pub end_all : (Spec → Spec) → ℕ → Database → Database
end_all f i db = record db { tables = λ n. Option.map (ended f i) (db.tables n) }

abbrev pub out_of_transaction : Client → Client
out_of_transaction c = record c { in_transaction = false }

abbrev pub abort : ℕ → Str → Database → Client → Verdict
abort i what db c = failing what (end_all spec_rollback i db) (out_of_transaction c)

abbrev pub conflict_text : Str → Str
conflict_text name = codes "Could not acquire lock on table " ++ name

abbrev pub no_table : Str
no_table = codes "The table that you want to find is not exist"

-- The owner of a table that client `i` uses in its transaction, if it gets the table.
abbrev pub acquire : ℕ → Option ℕ → Option ℕ
acquire i none = some i
acquire i (some j) = if j == i then some i else none

abbrev pub fetched : Option Str → Database → Client → Verdict
fetched (some v) db c = replied done true db (push_on v c)
fetched none db c = failing (codes "The key is not in the map") db c

-- GET in a transaction, where `o` is the owner that the table gets.
abbrev pub get_within : ℕ → Str → Str → Entry → Option ℕ → Database → Client → Verdict
get_within i name key e none db c = abort i (conflict_text name) db c
get_within i name key e (some o) db c =
    fetched (spec_lookup key e.content) (set_entry name (record e { owner = some o }) db) c

-- GET outside, where `o` is the owner that the table has.
abbrev pub get_alone : Str → Entry → Option ℕ → Database → Client → Verdict
get_alone key e none db c = fetched (e.content.committed key) db c
get_alone key e (some j) db c = waits

abbrev pub get_entry : ℕ → Str → Str → Option Entry → Database → Client → Verdict
get_entry i name key none db c = failing no_table db c
get_entry i name key (some e) db c =
    if c.in_transaction
    then get_within i name key e (acquire i e.owner) db c
    else get_alone key e e.owner db c

abbrev pub set_within : ℕ → Str → Str → Str → Entry → Option ℕ → Database → Client → Verdict
set_within i name key v e none db c = abort i (conflict_text name) db c
set_within i name key v e (some o) db c =
    replied done true
      (set_entry name (record { content = spec_set key v e.content; owner = some o }) db) c

abbrev pub set_alone : Str → Str → Str → Entry → Option ℕ → Database → Client → Verdict
set_alone name key v e none db c =
    let stored = record (e.content) { committed = put e.content.committed key v } in
    replied done true (set_entry name (record e { content = stored }) db) c
set_alone name key v e (some j) db c = waits

abbrev pub set_in : ℕ → Str → Str → Str → Option Entry → Database → Client → Verdict
set_in i name key v none db c = failing no_table db c
set_in i name key v (some e) db c =
    if c.in_transaction
    then set_within i name key v e (acquire i e.owner) db c
    else set_alone name key v e e.owner db c

-- SET takes the value off the stack, whatever comes of it.
abbrev pub set_top : ℕ → Str → Str → List Str → Database → Client → Verdict
set_top i name key [] db c = failing (codes "The stack is empty!") db c
set_top i name key (v ∷ rest) db c =
    set_in i name key v (db.tables name) db (record c { stack = rest })

abbrev pub new_entry : Entry
new_entry = record { content = record { committed = λ k. none; pending = λ k. none }; owner = none }

abbrev pub create_entry : Str → Option Entry → Database → Client → Verdict
create_entry name (some e) db c = failing (codes "Table with that name already exists") db c
create_entry name none db c =
    if db.mutex_init db.created == 0
    then replied done true (record (set_entry name new_entry db) { created = db.created + 1 }) c
    else failing (codes "fail to init table_mutex") db c

abbrev pub pop_top : List Str → Database → Client → Verdict
pop_top [] db c = failing (codes "fail to pop: The stack is empty") db c
pop_top (v ∷ rest) db c = replied done true db (record c { stack = rest })

abbrev pub show_top : List Str → Database → Client → Verdict
show_top [] db c = failing (codes "fail to get top: The stack is empty") db c
show_top (v ∷ rest) db c = replied (value v) true db c

abbrev pub too_few : Operator → Str
too_few add = codes "the number of the stack is too few to add"
too_few sub = codes "the number of the stack is too few to sub"
too_few mul = codes "the number of the stack is too few to mul"
too_few div = codes "the number of the stack is too few to div"

-- `none` is a division by zero.
abbrev pub calculate : Operator → ℤ → ℤ → Option ℤ
calculate add a b = some (a +ℤ b)
calculate sub a b = some (a -ℤ b)
calculate mul a b = some (a *ℤ b)
calculate div a (pos zero) = none
calculate div a b = some (a /ℤ b)

abbrev pub calculated : Option ℤ → Database → Client → Verdict
calculated none db c = failing (codes "the division is 0") db c
calculated (some z) db c =
    if in_range z then replied done true db (push_on (to_string z) c) else unspecified

abbrev pub with_operand : Parsed → (ℤ → Verdict) → Database → Client → Verdict
with_operand (parsed z) next db c = next z
with_operand invalid_argument next db c = failing (codes "Invalid operand, not an integer") db c
with_operand out_of_range next db c = failing (codes "Invalid operand, number is out of range") db c

-- The operands are taken off the stack, whatever comes of it; the left one is below the top.
abbrev pub compute_top : Operator → List Str → Database → Client → Verdict
compute_top op (right ∷ left ∷ rest) db c =
    let c' = record c { stack = rest } in
    with_operand (stoi left)
      (λ a. with_operand (stoi right) (λ b. calculated (calculate op a b) db c') db c') db c'
compute_top op _ db c = failing (too_few op) db c

abbrev pub needs_user : Request → Bool
needs_user Request.login = false
needs_user Request.bye = false
needs_user _ = true

unfoldable pub perform : ℕ → Request → Database → Client → Verdict
perform i Request.login db c =
    if c.logged_in
    then failing (codes "User already logged in") db c
    else replied done true db (record c { logged_in = true })
perform i Request.bye db c = replied done false db c
perform i (Request.create name) db c = create_entry name (db.tables name) db c
perform i (Request.get name key) db c = get_entry i name key (db.tables name) db c
perform i (Request.set name key) db c = set_top i name key c.stack db c
perform i (Request.push v) db c = replied done true db (push_on v c)
perform i Request.pop db c = pop_top c.stack db c
perform i Request.top db c = show_top c.stack db c
perform i (Request.compute op) db c = compute_top op c.stack db c
perform i Request.begin db c =
    if c.in_transaction
    then abort i (codes "Nested transaction not allowed") db c
    else replied done true db (record c { in_transaction = true })
perform i Request.commit db c =
    if c.in_transaction
    then replied done true (end_all spec_commit i db) (out_of_transaction c)
    else failing (codes "Not in a transaction") db c
perform i Request.unknown db c =
    replied (rejection (codes "Unknown or invalid command received")) false db c

-- What a request of client `i` comes to.
unfoldable pub answer : ℕ → Request → Database → Client → Verdict
unfolding perform
answer i req db c =
    if needs_user req && not c.logged_in
    then failing (codes "User has not logged in") db c
    else perform i req db c
