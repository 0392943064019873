-- ===== src/Examples/Handlers.antt =====
-- The theorems on the arithmetic handlers and on a SET that fails, at concrete inputs.
use a_multi_threaded_key_val.Connection.Losses.{no_such_table, failed_set_loses_the_value}
use a_multi_threaded_key_val.Prelude.{
  ◌≡◌, refl, true, false, none, some, [], ◌∷◌, if◌then◌else◌, inl,
}
use a_multi_threaded_key_val.Prelude.Int.{pos, ◌+ℤ◌, ◌-ℤ◌, ◌*ℤ◌, ◌/ℤ◌}
use a_multi_threaded_key_val.Text.{Str, codes}
use a_multi_threaded_key_val.Map.{find}
use a_multi_threaded_key_val.Exceptions.{ok, operation_exception}
use a_multi_threaded_key_val.Message.{MessageType, message}
use a_multi_threaded_key_val.Serialization.{decode}
use a_multi_threaded_key_val.Number.{stoi, parsed, invalid_argument}
use a_multi_threaded_key_val.Server.{new_server}
use a_multi_threaded_key_val.Connection.{World, returned, mem, table_at, new_connection, raised}
use a_multi_threaded_key_val.Connection.Handlers.{
  handle_add, handle_sub, handle_mul, handle_div, is_zero,
}
use a_multi_threaded_key_val.Connection.Chat.{c_string, chat_step}
use a_multi_threaded_key_val.Connection.Arithmetic.{
  with_stack, with_text, int_outcome, failed, arithmetic_results, arithmetic_bad_operand,
  first_failure,
}
use a_multi_threaded_key_val.Connection.Rounds.{failed_text}
use a_multi_threaded_key_val.Scenarios.{line, conflicting, run}
use a_multi_threaded_key_val.System.{view}

-- A connection that has just been accepted.
abbrev fresh : World
fresh = record { server = new_server (λ _. 0); conn = new_connection 0 }

abbrev six : Str
six = codes "6"

abbrev four : Str
four = codes "4"

reads_six : stoi six ≡ parsed (pos 6)
unfolding run
reads_six = refl

reads_four : stoi four ≡ parsed (pos 4)
unfolding run
reads_four = refl

arithmetic_results_example :
    (handle_add (with_stack (four ∷ six ∷ []) fresh) ≡ int_outcome (pos 6 +ℤ pos 4) [] fresh)
    × (handle_sub (with_stack (four ∷ six ∷ []) fresh) ≡ int_outcome (pos 6 -ℤ pos 4) [] fresh)
    × (handle_mul (with_stack (four ∷ six ∷ []) fresh) ≡ int_outcome (pos 6 *ℤ pos 4) [] fresh)
    × (handle_div (with_stack (four ∷ six ∷ []) fresh) ≡ (
        if is_zero (pos 4)
        then failed (operation_exception (codes "the division is 0")) (with_stack [] fresh)
        else int_outcome (pos 6 /ℤ pos 4) [] fresh))
arithmetic_results_example =
    arithmetic_results fresh six four [] (pos 6) (pos 4) reads_six reads_four

no_number : first_failure (stoi six) (stoi (codes "x")) ≡ invalid_argument
unfolding run
no_number = refl

arithmetic_bad_operand_example :
    let e = operation_exception (codes "Invalid operand, not an integer") in
    (handle_add (with_stack (codes "x" ∷ six ∷ []) fresh) ≡ (raised e, with_stack [] fresh))
    × (handle_sub (with_stack (codes "x" ∷ six ∷ []) fresh) ≡ (raised e, with_stack [] fresh))
    × (handle_mul (with_stack (codes "x" ∷ six ∷ []) fresh) ≡ (raised e, with_stack [] fresh))
    × (handle_div (with_stack (codes "x" ∷ six ∷ []) fresh) ≡ (raised e, with_stack [] fresh))
arithmetic_bad_operand_example =
    arithmetic_bad_operand fresh six (codes "x") [] (codes "Invalid operand, not an integer")
      (inl (no_number, refl))

-- A connection that has logged in, with one value on its stack, where no table exists.
abbrev logged : World
logged = record fresh { conn = record (new_connection 0) { m_logged_in = true } }

set_decodes :
    decode (c_string (line "SET t k")) ≡ ok (message MessageType.set (codes "t" ∷ codes "k" ∷ []))
unfolding run
set_decodes = refl

nothing_found : find (codes "t") logged.server.set_of_table ≡ none
unfolding run
nothing_found = refl

failed_set_loses_the_value_example :
    chat_step (line "SET t k") (with_stack (six ∷ []) logged)
    ≡ (returned true, with_text (failed_text no_such_table) (with_stack [] logged))
failed_set_loses_the_value_example =
    failed_set_loses_the_value (line "SET t k") (codes "t") (codes "k") six [] logged set_decodes
      refl nothing_found

abbrev w₀ : World
w₀ = view 0 conflicting.last

logged_in : w₀.conn.m_logged_in ≡ true
unfolding run
logged_in = refl

busy : w₀.conn.m_in_transaction ≡ true
unfolding run
busy = refl

found : find (codes "t") w₀.server.set_of_table ≡ some 0
unfolding run
found = refl

other : mem 0 w₀.conn.locked_tables ≡ false
unfolding run
other = refl

taken : (table_at 0 w₀).table_mutex ≡ some 1
unfolding run
taken = refl
