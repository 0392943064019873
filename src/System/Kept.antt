-- ===== src/System/Kept.antt =====
-- The predicates that `Connection.Upkeep` takes, over the steps of the system.
use a_multi_threaded_key_val.Prelude.{ℕ, [], true, false, Bool-cases, inl, inr, ◌==◌}
use a_multi_threaded_key_val.Prelude.Family.{update}
use a_multi_threaded_key_val.Connection.{
  World, Connection, new_connection, disconnect, rollback_and_unlock,
}
use a_multi_threaded_key_val.Connection.Chat.{chat_step}
use a_multi_threaded_key_val.Connection.Upkeep.{Upkeep, IsKept, ServerKept}
use a_multi_threaded_key_val.Connection.Upkeep.Rules.{for_each_table-IsKept, rollback_and_unlock_ok}
use a_multi_threaded_key_val.Connection.Kept.{Kept-chat_step}
use a_multi_threaded_key_val.System.{
  System, Step, accepting, request, hang_up, Reach, start, next, view, close, finish, accept,
}

module _ (u : Upkeep) where
  open u use {TableOk, ConnOk}

  abbrev pub AllKept : System → Type 0
  AllKept s = ServerKept u s.server × ((i : ℕ) → ConnOk (s.conns i))

  close-IsKept : (w : World) → IsKept u w → IsKept u (close w)
  unfolding close disconnect
  close-IsKept w h = elim (Bool-cases w.conn.m_in_transaction) [
    | inl busy ↦ rw busy (
        let k =
          for_each_table-IsKept u rollback_and_unlock w.conn.locked_tables w
            (rollback_and_unlock_ok u) h in
        (k.0, u.flags_ok w.conn _ false [] h.1))
    | inr idle ↦ rw idle (h.0, u.flags_ok w.conn _ false [] h.1)
  ]

  conns-kept :
      (f : ℕ → Connection) (i : ℕ) (c : Connection)
      → ConnOk c
      → ((j : ℕ) → ConnOk (f j))
      → (j : ℕ) → ConnOk (update f i c j)
  conns-kept f i c hc h j = elim (Bool-cases (j == i)) [
    | inl same ↦ rw same hc
    | inr other ↦ rw other (h j)
  ]

  Step-AllKept : {i : ℕ} {s t : System} → Step i s t → AllKept s → AllKept t
  unfolding accept finish
  Step-AllKept {s = s} (accepting true e) h =
      (h.0, conns-kept s.conns s.accepted (new_connection s.accepted) (u.new_ok s.accepted) h.1)
  Step-AllKept (accepting false e) h = h
  Step-AllKept {i} {s} (request buf true live e) h =
      let k = (Kept-chat_step u buf).keeps (view i s) (h.0, h.1 i) in
      (k.0, conns-kept s.conns i _ k.1 h.1)
  Step-AllKept {i} {s} (request buf false live e) h =
      let k =
        close-IsKept (chat_step buf (view i s)).1
          ((Kept-chat_step u buf).keeps (view i s) (h.0, h.1 i)) in
      (k.0, conns-kept s.conns i _ k.1 h.1)
  Step-AllKept {i} {s} (hang_up live) h =
      let k = close-IsKept (view i s) (h.0, h.1 i) in (k.0, conns-kept s.conns i _ k.1 h.1)

  -- In every reachable state.
  pub Reach-AllKept : {codes : ℕ → ℕ} {s : System} → Reach codes s → AllKept s
  Reach-AllKept (start fd) = ((λ p. u.created_ok [], u.no_names_ok), u.new_ok)
  Reach-AllKept (next r i st) = Step-AllKept st (Reach-AllKept r)
