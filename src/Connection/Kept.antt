-- ===== src/Connection/Kept.antt =====
-- client_connection.cpp: the handlers and a round of `chat_with_client`, for any predicates that
-- `Connection.Upkeep` takes.
use a_multi_threaded_key_val.Prelude.{
  ◌≡◌, refl, Bool, true, some, none, Option, Bool-cases, inl, inr, arith,
}
use a_multi_threaded_key_val.Prelude.Int.{ℤ, ◌/ℤ◌}
use a_multi_threaded_key_val.Text.{Str}
use a_multi_threaded_key_val.Exceptions.{
  Exception, Result, ok, throw, invalid_message, comm_exception, operation_exception,
  failed_transaction,
}
use a_multi_threaded_key_val.Message.{MessageType, Message, get_value}
use a_multi_threaded_key_val.Serialization.{decode}
use a_multi_threaded_key_val.Number.{to_string, in_range}
use a_multi_threaded_key_val.Connection.{
  World, Action, Outcome, returned, raised, lift, pure, checked, raise, undefined_behaviour,
  of_option, of_result, continue, ◌>>=◌, ◌>>◌, stack_push, respond,
}
use a_multi_threaded_key_val.Connection.Handlers.{
  handle_login, handle_create, handle_get, handle_set, handle_push, handle_pop, handle_top,
  handle_add, handle_sub, handle_mul, handle_div, handle_begin, handle_commit, handle_bye,
  handle_binary, int_result, divide, ok_response, is_zero,
}
use a_multi_threaded_key_val.Connection.Chat.{c_string, dispatch, serve, recover, catch, chat_step}
use a_multi_threaded_key_val.Connection.Upkeep.{Upkeep, IsKept, Kept, done}
use a_multi_threaded_key_val.Connection.Upkeep.Rules.{
  continue-IsKept, Kept-bind, Kept-respond, Kept-stack_push, Kept-pure, kept_rules,
}

-- What is pushed is the text of an `int`.
pushed : ℤ → Action (Unit {0})
pushed z = do stack_push (to_string z); respond ok_response

of_option-eq_returned : (o : Option Str) (v : Str) → of_option o ≡ returned v → o ≡ some v
of_option-eq_returned (some x) v e = cc
of_option-eq_returned none v e = absurd (ground arith)

module _ (u : Upkeep) where
  open u use {Good}

  Kept-pushed : (z : ℤ) → in_range z ≡ true → Kept u (pushed z)
  unfolding pushed
  Kept-pushed z fits =
      Kept-bind u (stack_push (to_string z)) (λ _. respond ok_response)
        (Kept-stack_push u (to_string z) (u.number_good z fits))
        (λ _. Kept-respond u ok_response done)

  Kept-int_result : (z : ℤ) → Kept u (int_result z >>= pushed)
  unfolding int_result ◌>>=◌ pure undefined_behaviour
  Kept-int_result z = elim (Bool-cases (in_range z)) [
    | inl fits ↦ rw fits (record { keeps = (Kept-pushed z fits).keeps })
    | inr wide ↦ rw wide (record { keeps = λ w h. h })
  ]

  Kept-divide : (l r : ℤ) → Kept u (divide l r >>= pushed)
  unfolding divide
  Kept-divide l r = elim (Bool-cases (is_zero r)) [
    | inl zero ↦ rw zero (unfold ◌>>=◌ raise in record { keeps = λ w h. h })
    | inr other ↦ rw other (Kept-int_result (l /ℤ r))
  ]

  Kept-handle_binary :
      (too_few : Str) (compute : ℤ → ℤ → Action ℤ)
      → ((l r : ℤ) → Kept u (compute l r >>= pushed))
      → Kept u (handle_binary too_few compute)
  unfolding handle_binary pushed
  Kept-handle_binary too_few compute kc = search kept_rules depth 16

  Kept-handle_push :
      (msg : Message) → ((v : Str) → get_value msg ≡ some v → Good v) → Kept u (handle_push msg)
  unfolding handle_push ◌>>=◌ checked
  Kept-handle_push msg good = record {
    keeps = λ w h.
        continue-IsKept u (of_option (get_value msg)) _ w
          (λ v e. push_and_answer v (good v (of_option-eq_returned (get_value msg) v e))) h;
  }
    where
      push_and_answer : (v : Str) → Good v → Kept u (do stack_push v; respond ok_response)
      push_and_answer v g = search kept_rules

  Kept-handle_get : (msg : Message) → Kept u (handle_get msg)
  unfolding handle_get
  Kept-handle_get msg = search kept_rules depth 16

  Kept-handle_set : (msg : Message) → Kept u (handle_set msg)
  unfolding handle_set
  Kept-handle_set msg = search kept_rules depth 18

  -- Where the request was read from a line.
  Kept-dispatch :
      (line : Str) (t : MessageType) (req : Message)
      → decode line ≡ ok req
      → req.m_message_type ≡ t
      → Kept u (dispatch t req)
  unfolding dispatch handle_login handle_create handle_pop handle_top handle_add handle_sub
      handle_mul handle_div handle_begin handle_commit handle_bye
  Kept-dispatch line MessageType.push req d e =
      Kept-bind u (handle_push req) _ (Kept-handle_push req (λ v g. u.read_good line v req d e g))
        (λ _. Kept-pure u true)
  Kept-dispatch line MessageType.get req d e = search (kept_rules, Kept-handle_get)
  Kept-dispatch line MessageType.set req d e = search (kept_rules, Kept-handle_set)
  Kept-dispatch line MessageType.add req d e =
      search (kept_rules, Kept-handle_binary, Kept-int_result)
  Kept-dispatch line MessageType.sub req d e =
      search (kept_rules, Kept-handle_binary, Kept-int_result)
  Kept-dispatch line MessageType.mul req d e =
      search (kept_rules, Kept-handle_binary, Kept-int_result)
  Kept-dispatch line MessageType.div req d e = search (kept_rules, Kept-handle_binary, Kept-divide)
  Kept-dispatch line _ req d e = search kept_rules depth 12

  Kept-serve : (line : Str) (req : Message) → decode line ≡ ok req → Kept u (serve req)
  unfolding serve
  Kept-serve line req d =
      let k = Kept-dispatch line req.m_message_type req d refl in search kept_rules

  Kept-recover : (e : Exception) → Kept u (recover e)
  unfolding recover
  Kept-recover (operation_exception what) = search kept_rules
  Kept-recover (failed_transaction what) = search kept_rules
  Kept-recover (invalid_message what) = search kept_rules
  Kept-recover (comm_exception what) = search kept_rules

  catch-IsKept : (o : Outcome Bool) (w : World) → IsKept u w → IsKept u (catch o w).1
  catch-IsKept (raised e) w h = (Kept-recover e).keeps w h
  catch-IsKept _ w h = h

  read-IsKept :
      (line : Str) (r : Result Message) (w : World)
      → decode line ≡ r
      → IsKept u w
      → IsKept u (continue (of_result r) serve w).1
  read-IsKept line (ok req) w d h = (Kept-serve line req d).keeps w h
  read-IsKept line (throw e) w d h = h

  -- A round of the loop, however it ends.
  pub Kept-chat_step : (buf : Str) → Kept u (chat_step buf)
  unfolding chat_step ◌>>=◌ lift
  Kept-chat_step buf = record {
    keeps = λ w h. catch-IsKept _ _ (read-IsKept (c_string buf) (decode (c_string buf)) w refl h);
  }
