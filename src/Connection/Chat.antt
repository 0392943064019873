-- ===== src/Connection/Chat.antt =====
-- client_connection.cpp: the loop of `chat_with_client`.
use a_multi_threaded_key_val.Prelude.{
  Bool, true, false, not, ◌&&◌, List, [], ◌∷◌, ◌==◌, if◌then◌else◌,
}
use a_multi_threaded_key_val.Text.{Str, codes}
use a_multi_threaded_key_val.Exceptions.{
  Exception, invalid_message, operation_exception, failed_transaction,
}
use a_multi_threaded_key_val.Message.{MessageType, Message, message}
use a_multi_threaded_key_val.Serialization.{decode}
use a_multi_threaded_key_val.Connection.{
  Action, Outcome, raised, pure, raise, lift, gets, modify, ◌>>=◌, ◌>>◌, respond, end_transaction,
  rollback_and_unlock,
}
use a_multi_threaded_key_val.Connection.Handlers.{
  handle_login, handle_create, handle_get, handle_set, handle_push, handle_pop, handle_top,
  handle_add, handle_sub, handle_mul, handle_div, handle_begin, handle_commit, handle_bye,
}

-- The text that `decode(buf, …)` is given: the bytes of the buffer before the first NUL.
unfoldable pub c_string : Str → Str
c_string [] = []
c_string (c ∷ s) = if c == 0 then [] else c ∷ c_string s

-- LOGIN and BYE are served before the user has logged in.
abbrev pub needs_login : MessageType → Bool
needs_login MessageType.login = false
needs_login MessageType.bye = false
needs_login _ = true

-- The switch. The result is `chat_is_active`.
unfoldable pub dispatch : MessageType → Message → Action Bool
dispatch MessageType.login req = do handle_login req; pure true
dispatch MessageType.create req = do handle_create req; pure true
dispatch MessageType.get req = do handle_get req; pure true
dispatch MessageType.set req = do handle_set req; pure true
dispatch MessageType.push req = do handle_push req; pure true
dispatch MessageType.pop req = do handle_pop req; pure true
dispatch MessageType.top req = do handle_top req; pure true
dispatch MessageType.add req = do handle_add; pure true
dispatch MessageType.sub req = do handle_sub; pure true
dispatch MessageType.mul req = do handle_mul; pure true
dispatch MessageType.div req = do handle_div; pure true
dispatch MessageType.begin req = do handle_begin; pure true
dispatch MessageType.commit req = do handle_commit; pure true
dispatch MessageType.bye req = do handle_bye req; pure false
dispatch _ req = raise (invalid_message (codes "Unknown or invalid command received"))

-- The body of the `try` behind the decoding.
unfoldable pub serve : Message → Action Bool
serve req = do
  logged_in ← gets (λ w. w.conn.m_logged_in)
  if needs_login req.m_message_type && not logged_in
      then raise (operation_exception (codes "User has not logged in"))
      else dispatch req.m_message_type req

-- The handlers of the `try`; the second one of `FailedTransaction` is never reached. An exception
-- that a handler raises itself leaves the function, and so does one of another class.
unfoldable pub recover : Exception → Action Bool
recover (operation_exception what) = do respond (message MessageType.failed (what ∷ [])); pure true
recover (failed_transaction what) = do
  modify (end_transaction rollback_and_unlock)
  respond (message MessageType.failed (what ∷ []))
  pure true
recover (invalid_message what) = do respond (message MessageType.error (what ∷ [])); pure false
recover e = raise e

abbrev pub catch : Outcome Bool → Action Bool
catch (raised e) w = recover e w
catch o w = (o, w)

-- One round of the loop, where `rio_readlineb` has stored the bytes `buf` before the NUL that it
-- adds. The result says whether the loop goes on.
unfoldable pub chat_step : Str → Action Bool
chat_step buf w = let (o, w') = (lift (decode (c_string buf)) >>= serve) w in catch o w'

-- `chat_with_client`, for the lines that `rio_readlineb` gives before it returns 0 or less.
unfoldable pub chat_with_client : List Str → Action (Unit {0})
unfolding pure
chat_with_client [] = pure tt
chat_with_client (buf ∷ rest) =
    chat_step buf >>= λ active. elim active [ true ↦ chat_with_client rest | false ↦ pure tt ]
