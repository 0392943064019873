-- ===== src/Examples.antt =====
-- The theorems on the threads of the server at concrete inputs.
mod Rounds
mod Handlers
mod Limits
mod Clients
mod Texts
mod Values
mod Service
mod Loops
mod Database
mod Guards
use a_multi_threaded_key_val.Prelude.{
  ℕ, ◌≡◌, ◌≢◌, ◌↔◌, refl, true, false, none, some, [], arith, if◌then◌else◌,
}
use a_multi_threaded_key_val.Text.{Str}
use a_multi_threaded_key_val.Connection.{blocked, mem, rollback_and_unlock}
use a_multi_threaded_key_val.Connection.Chat.{chat_step}
use a_multi_threaded_key_val.Scenarios.{line, contended, run}
use a_multi_threaded_key_val.System.{Step, hang_up, finish, view}
use a_multi_threaded_key_val.System.Isolation.{
  locked-iff-owned, mutual_exclusion, free_tables_are_clean, isolation, hang_up_rolls_back,
}
use a_multi_threaded_key_val.Connection.Tidy.{AllFormed}
use a_multi_threaded_key_val.System.Tables.{tables-AllFormed}
use a_multi_threaded_key_val.System.Liveness.{waits_for_a_runner, transaction_does_not_wait}
use a_multi_threaded_key_val.System.Invariant.{Inv, Step-Inv, Reach-Inv}

locked : mem 0 (contended.last.conns 0).locked_tables ≡ true
unfolding run
locked = refl

live : contended.last.alive 1 ≡ true
unfolding run
live = refl

live₀ : contended.last.alive 0 ≡ true
unfolding run
live₀ = refl

waits : (chat_step (line "GET t k") (view 1 contended.last)).0 ≡ blocked
unfolding run
waits = refl

busy : (contended.last.conns 0).m_in_transaction ≡ true
unfolding run
busy = refl

zero≢one : ◌≢◌ {A = ℕ} 0 1
zero≢one = omega arith

isolation_example :
    (finish 1 (view 1 contended.last) contended.last).server.cell 0 ≡ contended.last.server.cell 0
isolation_example = isolation contended.reach (hang_up live) 0 0 zero≢one locked

mutual_exclusion_example : ◌≡◌ {A = ℕ} 0 0
mutual_exclusion_example = mutual_exclusion contended.reach 0 0 0 locked locked

locked-iff-owned_example :
    (mem 0 (contended.last.conns 0).locked_tables ≡ true)
    ↔ ((contended.last.server.cell 0).table_mutex ≡ some 0)
locked-iff-owned_example = locked-iff-owned contended.reach 0 0

hang_up_rolls_back_example :
    let t = finish 0 (view 0 contended.last) contended.last in
    Step 0 contended.last t
    × ((p : ℕ)
        → t.server.cell p ≡ (
            if mem p (contended.last.conns 0).locked_tables
            then record (contended.last.server.cell p) { key_value_temp = []; table_mutex = none }
            else contended.last.server.cell p))
    × ((p : ℕ) → (t.server.cell p).key_value ≡ (contended.last.server.cell p).key_value)
hang_up_rolls_back_example = hang_up_rolls_back contended.reach 0 live₀

waits_for_a_runner_example :
    ((contended.last.conns 1).m_in_transaction ≡ false)
    × ((contended.last.conns 1).locked_tables ≡ [])
    × (j : ℕ) × (p : ℕ) × (j ≢ 1)
    × (mem p (contended.last.conns j).locked_tables ≡ true)
    × ((contended.last.conns j).m_in_transaction ≡ true)
    × ((text : Str) → (chat_step text (view j contended.last)).0 ≢ blocked)
waits_for_a_runner_example = waits_for_a_runner contended.reach 1 (line "GET t k") waits
