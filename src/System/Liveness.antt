-- ===== src/System/Liveness.antt =====
-- Which connections wait, and for whom, in a state that can be reached.
use a_multi_threaded_key_val.Prelude.{ℕ, ◌≡◌, ◌≢◌, true, false, [], arith, Bool-cases, inl, inr}
use a_multi_threaded_key_val.Text.{Str}
use a_multi_threaded_key_val.Connection.{World, blocked, mem}
use a_multi_threaded_key_val.Connection.Chat.{chat_step}
use a_multi_threaded_key_val.Connection.Invariant.{IsSound}
use a_multi_threaded_key_val.Connection.Progress.{chat_step-IsWaiting}
use a_multi_threaded_key_val.System.{System, Reach, view}
use a_multi_threaded_key_val.System.Invariant.{Reach-Inv}
use a_multi_threaded_key_val.System.Isolation.{locked-iff-owned}

-- A connection in a transaction does not wait, whatever line it is sent.
pub transaction_does_not_wait :
    (buf : Str) (i : ℕ) (s : System)
    → (s.conns i).m_in_transaction ≡ true
    → (chat_step buf (view i s)).0 ≢ blocked
transaction_does_not_wait buf i s busy h =
    let (idle, p, j, e) = chat_step-IsWaiting buf (view i s) h in
    absurd (ground (arith, busy, idle))

nonempty-busy :
    (w : World) (p : ℕ)
    → IsSound w
    → mem p w.conn.locked_tables ≡ true
    → w.conn.m_in_transaction ≡ true
nonempty-busy w p s h = elim (Bool-cases w.conn.m_in_transaction) [
  | inl busy ↦ busy
  | inr idle ↦ absurd (ground (arith, h, s.quiet idle))
]

-- Where a round of connection i waits in a reachable state, connection i is in no transaction and
-- has no locked tables. Another connection j has a table locked and is in a transaction, and no
-- round of connection j waits in that state, whatever line it is sent.
pub waits_for_a_runner :
    {codes : ℕ → ℕ} {s : System}
    → Reach codes s
    → (i : ℕ) (buf : Str) → (chat_step buf (view i s)).0 ≡ blocked
    → ((s.conns i).m_in_transaction ≡ false)
      × ((s.conns i).locked_tables ≡ [])
      × (j : ℕ) × (p : ℕ) × (j ≢ i)
      × (mem p (s.conns j).locked_tables ≡ true)
      × ((s.conns j).m_in_transaction ≡ true)
      × ((line : Str) → (chat_step line (view j s)).0 ≢ blocked)
waits_for_a_runner {s} r i buf h =
    let inv = Reach-Inv r in
    let (idle, p, j, e) = chat_step-IsWaiting buf (view i s) h in
    let none_locked = (inv.sound i).quiet idle in
    let held = (locked-iff-owned r j p).1 e in
    let busy = nonempty-busy (view j s) p (inv.sound j) held in
    (
      idle,
      none_locked,
      j,
      p,
      λ same. ground (arith, idle, busy, same),
      held,
      busy,
      λ line. transaction_does_not_wait line j s busy,
    )
