-- ===== src/Connection/Handlers.antt =====
-- client_connection.cpp: the handlers, in the order of the file.
use a_multi_threaded_key_val.Prelude.{ℕ, Bool, true, false, [], ◌∷◌, ltb, ◌==◌, if◌then◌else◌}
use a_multi_threaded_key_val.Prelude.Int.{ℤ, pos, negsuc, ◌+ℤ◌, ◌-ℤ◌, ◌*ℤ◌, ◌/ℤ◌}
use a_multi_threaded_key_val.Text.{Str, codes}
use a_multi_threaded_key_val.Exceptions.{Result, ok, throw, operation_exception, failed_transaction}
use a_multi_threaded_key_val.Message.{MessageType, Message, message, get_table, get_key, get_value}
use a_multi_threaded_key_val.Number.{
  Parsed, parsed, invalid_argument, out_of_range, stoi, to_string, in_range,
}
use a_multi_threaded_key_val.ValueStack
use a_multi_threaded_key_val.Server.{Server, create_table, find_table}
use a_multi_threaded_key_val.Connection.{
  Action, returned, raised, pure, raise, undefined_behaviour, lift, checked, gets, modify, ◌>>=◌,
  ◌>>◌, set_conn, respond, stack_top, stack_pop, stack_push, table_get, table_set, table_commit,
  with_guard, join_transaction, commit_and_unlock, end_transaction,
}

abbrev pub ok_response : Message
ok_response = message MessageType.ok []

unfoldable pub handle_login : Message → Action (Unit {0})
handle_login msg = do
  logged_in ← gets (λ w. w.conn.m_logged_in)
  if logged_in
      then raise (operation_exception (codes "User already logged in"))
      else modify (set_conn (λ c. record c { m_logged_in = true }))
  respond ok_response

unfoldable pub handle_bye : Message → Action (Unit {0})
handle_bye msg = respond ok_response

abbrev pub created : Result Server → Action (Unit {0})
created (ok srv) w = (returned tt, record w { server = srv })
created (throw e) w = (raised e, w)

unfoldable pub server_create_table : Str → Action (Unit {0})
server_create_table name w = created (create_table name w.server) w

unfoldable pub handle_create : Message → Action (Unit {0})
handle_create msg = do
  table_name ← checked (get_table msg)
  server_create_table table_name
  respond ok_response

unfoldable pub server_find_table : Str → Action ℕ
unfolding lift
server_find_table name w = lift (find_table name w.server) w

unfoldable pub handle_get : Message → Action (Unit {0})
handle_get msg = do
  table_name ← checked (get_table msg)
  key_name ← checked (get_key msg)
  table ← server_find_table table_name
  in_transaction ← gets (λ w. w.conn.m_in_transaction)
  if in_transaction
      then (do
        join_transaction table table_name
        value ← table_get table key_name
        stack_push value)
      else with_guard table (do value ← table_get table key_name; stack_push value)
  respond ok_response

unfoldable pub handle_set : Message → Action (Unit {0})
handle_set msg = do
  empty ← gets (λ w. ValueStack.is_empty w.conn.m_stack)
  if empty then raise (operation_exception (codes "The stack is empty!")) else pure tt
  table_name ← checked (get_table msg)
  key_name ← checked (get_key msg)
  value ← stack_top
  stack_pop
  table ← server_find_table table_name
  in_transaction ← gets (λ w. w.conn.m_in_transaction)
  if in_transaction
      then (do join_transaction table table_name; table_set table key_name value)
      else with_guard table (do table_set table key_name value; table_commit table)
  respond ok_response

unfoldable pub handle_push : Message → Action (Unit {0})
handle_push msg = do value ← checked (get_value msg); stack_push value; respond ok_response

unfoldable pub handle_pop : Message → Action (Unit {0})
handle_pop msg = do stack_pop; respond ok_response

unfoldable pub handle_top : Message → Action (Unit {0})
handle_top msg = do value ← stack_top; respond (message MessageType.data_type (value ∷ []))

-- `std::stoi`, with its exceptions turned into `OperationException`.
abbrev pub operand : Parsed → Result ℤ
operand (parsed z) = ok z
operand invalid_argument = throw (operation_exception (codes "Invalid operand, not an integer"))
operand out_of_range = throw (operation_exception (codes "Invalid operand, number is out of range"))

-- What the four arithmetic handlers share: the two operands are taken off the stack and converted,
-- the left one first, and the result is pushed as a text.
unfoldable pub handle_binary : Str → (ℤ → ℤ → Action ℤ) → Action (Unit {0})
handle_binary too_few compute = do
  count ← gets (λ w. ValueStack.get_num_of_stack w.conn.m_stack)
  if ltb count 2 then raise (operation_exception too_few) else pure tt
  right ← stack_top
  stack_pop
  left ← stack_top
  stack_pop
  left_num ← lift (operand (stoi left))
  right_num ← lift (operand (stoi right))
  result_num ← compute left_num right_num
  stack_push (to_string result_num)
  respond ok_response

-- A result outside `int` is undefined.
unfoldable pub int_result : ℤ → Action ℤ
int_result z = if in_range z then pure z else undefined_behaviour

abbrev pub is_zero : ℤ → Bool
is_zero (pos n) = n == 0
is_zero (negsuc n) = false

unfoldable pub divide : ℤ → ℤ → Action ℤ
divide left right =
    if is_zero right
    then raise (operation_exception (codes "the division is 0"))
    else int_result (left /ℤ right)

unfoldable pub handle_add : Action (Unit {0})
unfolding handle_binary int_result
handle_add =
    handle_binary (codes "the number of the stack is too few to add") (λ l r. int_result (l +ℤ r))

unfoldable pub handle_sub : Action (Unit {0})
unfolding handle_binary int_result
handle_sub =
    handle_binary (codes "the number of the stack is too few to sub") (λ l r. int_result (l -ℤ r))

unfoldable pub handle_mul : Action (Unit {0})
unfolding handle_binary int_result
handle_mul =
    handle_binary (codes "the number of the stack is too few to mul") (λ l r. int_result (l *ℤ r))

unfoldable pub handle_div : Action (Unit {0})
unfolding handle_binary divide
handle_div = handle_binary (codes "the number of the stack is too few to div") divide

unfoldable pub handle_begin : Action (Unit {0})
handle_begin = do
  in_transaction ← gets (λ w. w.conn.m_in_transaction)
  if in_transaction
      then raise (failed_transaction (codes "Nested transaction not allowed"))
      else modify (set_conn (λ c. record c { m_in_transaction = true }))
  respond ok_response

unfoldable pub handle_commit : Action (Unit {0})
handle_commit = do
  in_transaction ← gets (λ w. w.conn.m_in_transaction)
  if in_transaction
      then modify (end_transaction commit_and_unlock)
      else raise (operation_exception (codes "Not in a transaction"))
  respond ok_response
