-- ===== src/Examples/Values.antt =====
-- The theorems on the values, the answers, the names and the loops at concrete inputs.
use a_multi_threaded_key_val.Prelude.{
  ℕ, zero, suc, ◌≡◌, refl, ap, true, false, some, List, [], ◌∷◌, All, inl, arith, ltb, mem,
}
use a_multi_threaded_key_val.Text.{codes}
use a_multi_threaded_key_val.Exceptions.{ok}
use a_multi_threaded_key_val.Message.{MessageType, message}
use a_multi_threaded_key_val.Serialization.{decode}
use a_multi_threaded_key_val.Server.{new_server}
use a_multi_threaded_key_val.Server.Lifetime.{destroy_server}
use a_multi_threaded_key_val.Connection.{
  World, new_connection, for_each_table, commit_and_unlock, rollback_and_unlock,
}
use a_multi_threaded_key_val.Connection.Chat.{c_string, chat_step, chat_with_client}
use a_multi_threaded_key_val.Connection.Values.{IsFitting, FittingTable, IsAnswer}
use a_multi_threaded_key_val.Connection.Speaking.{Answers}
use a_multi_threaded_key_val.Connection.Answers.{chat_step-Answers}
use a_multi_threaded_key_val.Connection.Stops.{IsFinal, chat_ends_at}
use a_multi_threaded_key_val.Connection.Orders.{at_once, loops_in_any_order}
use a_multi_threaded_key_val.System.Invariant.{Reach-Inv}
use a_multi_threaded_key_val.System.Values.{values_fit, answers_decode}
use a_multi_threaded_key_val.System.Names.{server_is_deleted}
use a_multi_threaded_key_val.Scenarios.{line, contended, quiet, run}

values_fit_example :
    ((p : ℕ) → FittingTable (contended.last.server.cell p))
    × ((i : ℕ) → All IsFitting (contended.last.conns i).m_stack.m_vector)
values_fit_example = values_fit contended.reach

answers_decode_example : All IsAnswer (contended.last.conns 0).written
answers_decode_example = answers_decode contended.reach 0

top_decodes : decode (c_string (line "TOP")) ≡ ok (message MessageType.top [])
unfolding run
top_decodes = refl

bob_logged_in : (contended.last.conns 1).m_logged_in ≡ true
unfolding run
bob_logged_in = refl

bob_pushed : (contended.last.conns 1).m_stack.m_vector ≡ codes "7" ∷ []
unfolding run
bob_pushed = refl

chat_step-Answers_example : Answers (chat_step (line "BYE"))
chat_step-Answers_example = chat_step-Answers (line "BYE")

-- A connection that has just been accepted.
abbrev fresh : World
fresh = record { server = new_server (λ _. 0); conn = new_connection 0 }

bye_decodes : decode (c_string (line "BYE")) ≡ ok (message MessageType.bye [])
unfolding run
bye_decodes = refl

bye-IsFinal : IsFinal (line "BYE")
bye-IsFinal = inl (message MessageType.bye [], bye_decodes, refl)

chat_ends_at_example :
    chat_with_client (line "LOGIN alice" ∷ line "BYE" ∷ line "BEGIN" ∷ []) fresh
    ≡ chat_with_client (line "LOGIN alice" ∷ line "BYE" ∷ []) fresh
chat_ends_at_example =
    chat_ends_at (line "LOGIN alice" ∷ []) (line "BEGIN" ∷ []) (line "BYE") fresh bye-IsFinal

all_idle : (i : ℕ) → (quiet.last.conns i).m_in_transaction ≡ false
unfolding run
all_idle zero = refl
all_idle (suc zero) = refl
all_idle (suc (suc n)) =
    ap (λ c. c.m_in_transaction) ((Reach-Inv quiet.reach).unused (suc (suc n)) (omega arith))

server_is_deleted_example :
    (gone : List ℕ) × (destroy_server quiet.last.server ≡ some gone)
    × ((p : ℕ) → mem p gone ≡ ltb p quiet.last.server.allocated)
server_is_deleted_example = server_is_deleted quiet.reach all_idle

same_members : (p : ℕ) → mem p (0 ∷ 1 ∷ []) ≡ mem p (1 ∷ 0 ∷ [])
same_members p = ground arith

loops_in_any_order_example :
    let srv = contended.last.server in
    (for_each_table commit_and_unlock (0 ∷ 1 ∷ []) srv
      ≡ for_each_table commit_and_unlock (1 ∷ 0 ∷ []) srv)
    × (for_each_table rollback_and_unlock (0 ∷ 1 ∷ []) srv
        ≡ for_each_table rollback_and_unlock (1 ∷ 0 ∷ []) srv)
    × (for_each_table commit_and_unlock (0 ∷ 1 ∷ []) srv
        ≡ at_once commit_and_unlock (λ q. mem q (0 ∷ 1 ∷ [])) srv)
    × (for_each_table rollback_and_unlock (0 ∷ 1 ∷ []) srv
        ≡ at_once rollback_and_unlock (λ q. mem q (0 ∷ 1 ∷ [])) srv)
loops_in_any_order_example =
    loops_in_any_order (0 ∷ 1 ∷ []) (1 ∷ 0 ∷ []) contended.last.server same_members
