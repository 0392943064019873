-- ===== src/Connection/Defined.antt =====
-- client_connection.cpp: which rounds of `chat_with_client` do what C++ leaves undefined.
use a_multi_threaded_key_val.Prelude.{
  ◌≡◌, ◌≢◌, refl, Bool, true, false, List, [], ◌∷◌, Bool-cases, inl, inr, arith, All, ◌<◌,
}
use a_multi_threaded_key_val.Text.{Str}
use a_multi_threaded_key_val.Exceptions.{
  Exception, Result, ok, throw, invalid_message, comm_exception, operation_exception,
  failed_transaction,
}
use a_multi_threaded_key_val.Message.{
  MessageType, Message, message, is_valid, valid_args, get_table, get_key, get_value,
}
use a_multi_threaded_key_val.Serialization.{decode}
use a_multi_threaded_key_val.Serialization.Canonical.{decode-canonical}
use a_multi_threaded_key_val.Connection.{
  World, Outcome, returned, raised, blocked, undefined, lift, continue, of_result, ◌>>=◌,
}
use a_multi_threaded_key_val.Connection.Handlers.{
  handle_login, handle_create, handle_get, handle_set, handle_push, handle_pop, handle_top,
  handle_begin, handle_commit, handle_bye,
}
use a_multi_threaded_key_val.Connection.Chat.{c_string, dispatch, serve, recover, catch, chat_step}
use a_multi_threaded_key_val.Connection.Definedness.{Defined, defined_rules}

abbrev pub is_arithmetic : MessageType → Bool
is_arithmetic MessageType.add = true
is_arithmetic MessageType.sub = true
is_arithmetic MessageType.mul = true
is_arithmetic MessageType.div = true
is_arithmetic _ = false

Defined-get :
    (args : List Str)
    → valid_args MessageType.get args ≡ true
    → Defined (handle_get (message MessageType.get args))
unfolding valid_args handle_get get_table get_key
Defined-get [] v = absurd (ground arith)
Defined-get (a ∷ []) v = absurd (ground arith)
Defined-get (a ∷ b ∷ []) v = search defined_rules depth 16
Defined-get (a ∷ b ∷ c ∷ args) v = absurd (ground arith)

Defined-set :
    (args : List Str)
    → valid_args MessageType.set args ≡ true
    → Defined (handle_set (message MessageType.set args))
unfolding valid_args handle_set get_table get_key
Defined-set [] v = absurd (ground arith)
Defined-set (a ∷ []) v = absurd (ground arith)
Defined-set (a ∷ b ∷ []) v = search defined_rules depth 18
Defined-set (a ∷ b ∷ c ∷ args) v = absurd (ground arith)

Defined-push :
    (args : List Str)
    → valid_args MessageType.push args ≡ true
    → Defined (handle_push (message MessageType.push args))
unfolding valid_args handle_push get_value
Defined-push [] v = absurd (ground arith)
Defined-push (a ∷ []) v = search defined_rules
Defined-push (a ∷ b ∷ args) v = absurd (ground arith)

Defined-create_request :
    (args : List Str)
    → valid_args MessageType.create args ≡ true
    → Defined (handle_create (message MessageType.create args))
unfolding valid_args handle_create get_table
Defined-create_request [] v = absurd (ground arith)
Defined-create_request (a ∷ []) v = search defined_rules
Defined-create_request (a ∷ b ∷ args) v = absurd (ground arith)

-- A valid request that is not an arithmetic one.
Defined-dispatch :
    (t : MessageType) (args : List Str)
    → valid_args t args ≡ true
    → is_arithmetic t ≡ false
    → Defined (dispatch t (message t args))
unfolding dispatch handle_login handle_pop handle_top handle_begin handle_commit handle_bye
Defined-dispatch MessageType.get args v n = search (defined_rules, Defined-get)
Defined-dispatch MessageType.set args v n = search (defined_rules, Defined-set)
Defined-dispatch MessageType.push args v n = search (defined_rules, Defined-push)
Defined-dispatch MessageType.create args v n = search (defined_rules, Defined-create_request)
Defined-dispatch MessageType.add args v n = absurd (ground arith)
Defined-dispatch MessageType.sub args v n = absurd (ground arith)
Defined-dispatch MessageType.mul args v n = absurd (ground arith)
Defined-dispatch MessageType.div args v n = absurd (ground arith)
Defined-dispatch _ args v n = search defined_rules depth 12

Defined-serve :
    (req : Message)
    → is_valid req ≡ true
    → is_arithmetic req.m_message_type ≡ false
    → Defined (serve req)
unfolding serve is_valid
Defined-serve req v n =
    let k = Defined-dispatch req.m_message_type req.m_args v n in search defined_rules

Defined-recover : (e : Exception) → Defined (recover e)
unfolding recover
Defined-recover (operation_exception what) = search defined_rules
Defined-recover (failed_transaction what) = search defined_rules
Defined-recover (invalid_message what) = search defined_rules
Defined-recover (comm_exception what) = search defined_rules

caught-ne : (o : Outcome Bool) (w : World) → o ≢ undefined → (catch o w).0 ≢ undefined
caught-ne (raised e) w n = (Defined-recover e).sane w
caught-ne (returned b) w n = n
caught-ne blocked w n = n
caught-ne undefined w n = n

-- On a line of bytes below 128, which `isspace`, `isalpha` and `isalnum` are defined on, a round does
-- what C++ leaves undefined only where the line is an ADD, SUB, MUL or DIV: every other such line, one
-- that is no message of the protocol too, is served without.
pub undefined_only_in_arithmetic :
    (buf : Str) (w : World)
    → All (λ c. c < 128) buf
    → (chat_step buf w).0 ≡ undefined
    → (req : Message) × (decode (c_string buf) ≡ ok req) × (is_arithmetic req.m_message_type ≡ true)
unfolding chat_step lift ◌>>=◌
undefined_only_in_arithmetic buf w plain h = go (decode (c_string buf)) refl h
  where
    go :
        (r : Result Message)
        → decode (c_string buf) ≡ r
        → (catch (continue (of_result r) serve w).0 (continue (of_result r) serve w).1).0
          ≡ undefined
        → (req : Message) × (decode (c_string buf) ≡ ok req)
          × (is_arithmetic req.m_message_type ≡ true)
    go (throw e) d k = absurd ((Defined-recover e).sane w k)
    go (ok req) d k = elim (Bool-cases (is_arithmetic req.m_message_type)) [
      | inl arithmetic ↦ (req, d, arithmetic)
      | inr other ↦ absurd (
          caught-ne (serve req w).0 (serve req w).1
            ((Defined-serve req (decode-canonical (c_string buf) req d).0 other).sane w) k)
    ]
