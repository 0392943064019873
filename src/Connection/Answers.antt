-- ===== src/Connection/Answers.antt =====
-- client_connection.cpp: what a round of `chat_with_client` writes to the client.
use a_multi_threaded_key_val.Prelude.{Bool, List}
use a_multi_threaded_key_val.Prelude.Int.{ℤ}
use a_multi_threaded_key_val.Text.{Str}
use a_multi_threaded_key_val.Exceptions.{
  Exception, invalid_message, comm_exception, operation_exception, failed_transaction,
}
use a_multi_threaded_key_val.Message.{MessageType, Message}
use a_multi_threaded_key_val.Serialization.{decode}
use a_multi_threaded_key_val.Connection.{
  World, Action, Outcome, returned, raised, blocked, undefined, lift, ◌>>=◌,
}
use a_multi_threaded_key_val.Connection.Handlers.{
  handle_login, handle_create, handle_get, handle_set, handle_push, handle_pop, handle_top,
  handle_add, handle_sub, handle_mul, handle_div, handle_begin, handle_commit, handle_bye,
  handle_binary, int_result, divide,
}
use a_multi_threaded_key_val.Connection.Chat.{c_string, dispatch, serve, recover, catch, chat_step}
use a_multi_threaded_key_val.Connection.Speaking.{Mute, AnsweredTo, Answers, answer_rules}

Mute-int_result : (z : ℤ) → Mute (int_result z)
unfolding int_result
Mute-int_result z = search answer_rules

Mute-divide : (l r : ℤ) → Mute (divide l r)
unfolding divide
Mute-divide l r = search (answer_rules, Mute-int_result)

Answers-handle_binary :
    (too_few : Str) (compute : ℤ → ℤ → Action ℤ)
    → ((l r : ℤ) → Mute (compute l r))
    → Answers (handle_binary too_few compute)
unfolding handle_binary
Answers-handle_binary too_few compute kc = search answer_rules depth 16

Answers-handle_get : (msg : Message) → Answers (handle_get msg)
unfolding handle_get
Answers-handle_get msg = search answer_rules depth 16

Answers-handle_set : (msg : Message) → Answers (handle_set msg)
unfolding handle_set
Answers-handle_set msg = search answer_rules depth 18

Answers-dispatch : (t : MessageType) (req : Message) → Answers (dispatch t req)
unfolding dispatch handle_login handle_create handle_pop handle_top handle_push handle_add
    handle_sub handle_mul handle_div handle_begin handle_commit handle_bye
Answers-dispatch MessageType.get req = search (answer_rules, Answers-handle_get)
Answers-dispatch MessageType.set req = search (answer_rules, Answers-handle_set)
Answers-dispatch MessageType.add req = search (answer_rules, Answers-handle_binary, Mute-int_result)
Answers-dispatch MessageType.sub req = search (answer_rules, Answers-handle_binary, Mute-int_result)
Answers-dispatch MessageType.mul req = search (answer_rules, Answers-handle_binary, Mute-int_result)
Answers-dispatch MessageType.div req = search (answer_rules, Answers-handle_binary, Mute-divide)
Answers-dispatch _ req = search answer_rules depth 12

Answers-serve : (req : Message) → Answers (serve req)
unfolding serve
Answers-serve req = search (answer_rules, Answers-dispatch)

Answers-recover : (e : Exception) → Answers (recover e)
unfolding recover
Answers-recover (operation_exception what) = search answer_rules
Answers-recover (failed_transaction what) = search answer_rules
Answers-recover (invalid_message what) = search answer_rules
Answers-recover (comm_exception what) = search answer_rules

Answers-read : (buf : Str) → Answers (lift (decode (c_string buf)) >>= serve)
Answers-read buf = search (answer_rules, Answers-serve)

-- A round that returns has written exactly one text to the client, and a round that waits, that an
-- exception leaves or that does what is undefined has written none.
pub chat_step-Answers : (buf : Str) → Answers (chat_step buf)
unfolding chat_step
chat_step-Answers buf = record { answers = λ w. recovered _ _ _ ((Answers-read buf).answers w) }
  where
    recovered :
        (before : List Str) (o : Outcome Bool) (w : World)
        → AnsweredTo o before w.conn.written
        → AnsweredTo (catch o w).0 before (catch o w).1.conn.written
    recovered before (raised e) w h = rw⁻¹ h ((Answers-recover e).answers w)
    recovered before (returned b) w h = h
    recovered before blocked w h = h
    recovered before undefined w h = h
