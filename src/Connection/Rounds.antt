-- ===== src/Connection/Rounds.antt =====
-- client_connection.cpp: whole rounds of the loop of `chat_with_client`.
use mathlib.Core.List.{append-nil}
use a_multi_threaded_key_val.Prelude.{
  ◌≤◌, ◌<◌, ◌≡◌, refl, ◌∙◌, Bool, true, false, [], ◌∷◌, ◌++◌, length, length-append, arith, ltb,
  ltb-false, lt→ltb,
}
use a_multi_threaded_key_val.Text.{Str, codes}
use a_multi_threaded_key_val.Exceptions.{
  Exception, ok, throw, invalid_message, comm_exception, operation_exception, failed_transaction,
}
use a_multi_threaded_key_val.Message.{MessageType, Message, message, max_encoded_len}
use a_multi_threaded_key_val.Serialization.{encode, decode}
use a_multi_threaded_key_val.Serialization.Throws.{decode-throws}
use a_multi_threaded_key_val.Connection.{
  World, Outcome, returned, raised, lift, gets, pure, raise, ◌>>=◌, respond,
}
use a_multi_threaded_key_val.Connection.Chat.{
  c_string, needs_login, serve, recover, catch, chat_step,
}
use a_multi_threaded_key_val.Connection.Arithmetic.{with_text}

-- A response with a text: FAILED or ERROR.
abbrev pub failed_text : Str → Str
failed_text what = codes "FAILED " ++ (what ++ 10 ∷ [])

abbrev pub error_text : Str → Str
error_text what = codes "ERROR " ++ (what ++ 10 ∷ [])

pub respond-eq :
    (msg : Message) (t : Str) (w : World)
    → encode msg ≡ ok t
    → respond msg w ≡ (returned tt, with_text t w)
unfolding respond
respond-eq msg t w h = rw h

pub encode-failed :
    (what : Str)
    → length what ≤ 1016
    → encode (message MessageType.failed (what ∷ [])) ≡ ok (failed_text what)
unfolding encode
encode-failed what h =
    let fits : ltb max_encoded_len (length (failed_text what)) ≡ false =
      ltb-false _ _ (omega (arith, length-append what (10 ∷ []))) in
    rw append-nil (rw fits)

pub encode-failed_long :
    (what : Str)
    → 1016 < length what
    → encode (message MessageType.failed (what ∷ []))
      ≡ throw (invalid_message (codes "Encoded message exceeds maximum length"))
unfolding encode
encode-failed_long what h =
    let long : ltb max_encoded_len (length (failed_text what)) ≡ true =
      lt→ltb _ _ (omega (arith, length-append what (10 ∷ []))) in
    rw append-nil (rw long)

encode-error :
    (what : Str)
    → length what ≤ 1017
    → encode (message MessageType.error (what ∷ [])) ≡ ok (error_text what)
unfolding encode
encode-error what h =
    let fits : ltb max_encoded_len (length (error_text what)) ≡ false =
      ltb-false _ _ (omega (arith, length-append what (10 ∷ []))) in
    rw append-nil (rw fits)

-- A round, once the line is decoded.
pub chat_step-decoded :
    (buf : Str) (w : World) (req : Message)
    → decode (c_string buf) ≡ ok req
    → chat_step buf w ≡ catch (serve req w).0 (serve req w).1
unfolding chat_step lift ◌>>=◌
chat_step-decoded buf w req h = rw h

pub chat_step-serve :
    (buf : Str) (w v : World) (req : Message) (o : Outcome Bool)
    → decode (c_string buf) ≡ ok req
    → serve req w ≡ (o, v)
    → chat_step buf w ≡ catch o v
chat_step-serve buf w v req o h e = chat_step-decoded buf w req h ∙ rw e

-- The answer to an `OperationException`.
pub recover-operation :
    (what : Str) (w : World)
    → length what ≤ 1016
    → recover (operation_exception what) w ≡ (returned true, with_text (failed_text what) w)
unfolding recover ◌>>=◌ pure
recover-operation what w h = rw (respond-eq _ _ w (encode-failed what h))

-- The answer to an `InvalidMessage`.
recover-invalid :
    (what : Str) (w : World)
    → length what ≤ 1017
    → recover (invalid_message what) w ≡ (returned false, with_text (error_text what) w)
unfolding recover ◌>>=◌ pure
recover-invalid what w h = rw (respond-eq _ _ w (encode-error what h))

-- Before the user has logged in, a request other than LOGIN and BYE is answered with FAILED; nothing
-- else changes, and the loop goes on.
pub login_required :
    (buf : Str) (w : World) (req : Message)
    → decode (c_string buf) ≡ ok req
    → w.conn.m_logged_in ≡ false
    → needs_login req.m_message_type ≡ true
    → chat_step buf w ≡ (returned true, with_text (failed_text (codes "User has not logged in")) w)
login_required buf w req h out need =
    chat_step-serve buf w w req (raised (operation_exception (codes "User has not logged in"))) h
      (unfold serve ◌>>=◌ gets raise in rw (need, out))
    ∙ recover-operation (codes "User has not logged in") w (omega arith)

-- A round whose line is refused.
pub chat_step-invalid :
    (buf what : Str) (w : World)
    → decode (c_string buf) ≡ throw (invalid_message what)
    → chat_step buf w ≡ (returned false, with_text (error_text what) w)
unfolding chat_step lift ◌>>=◌
chat_step-invalid buf what w h =
    rw h (recover-invalid what w (omega (arith, decode-throws (c_string buf) _ h)))

-- A line that is no protocol message is answered with ERROR; nothing else changes, and the loop ends.
pub malformed_line_ends_the_chat :
    (buf : Str) (w : World) (e : Exception)
    → decode (c_string buf) ≡ throw e
    → (what : Str) × (e ≡ invalid_message what)
      × (chat_step buf w ≡ (returned false, with_text (error_text what) w))
malformed_line_ends_the_chat buf w (invalid_message what) h =
    (what, refl, chat_step-invalid buf what w h)
malformed_line_ends_the_chat buf w (comm_exception what) h =
    absurd (decode-throws (c_string buf) _ h)
malformed_line_ends_the_chat buf w (operation_exception what) h =
    absurd (decode-throws (c_string buf) _ h)
malformed_line_ends_the_chat buf w (failed_transaction what) h =
    absurd (decode-throws (c_string buf) _ h)
