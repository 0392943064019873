-- ===== src/System/Isolation.antt =====
-- What the mutexes of the tables give the connections in a state that can be reached.
use a_multi_threaded_key_val.Prelude.{
  ℕ, ◌≡◌, ◌≢◌, ◌↔◌, refl, ap, ◌∙◌, true, false, none, some, [], arith, if◌then◌else◌,
}
use a_multi_threaded_key_val.Connection.{mem, table_at, rollback_and_unlock}
use a_multi_threaded_key_val.Connection.Transactions.{
  cell-end_transaction, rollback_and_unlock-IsEnding,
}
use a_multi_threaded_key_val.Connection.Endings.{rolled_back-committed}
use a_multi_threaded_key_val.Connection.Chat.{chat_step}
use a_multi_threaded_key_val.Connection.Invariant.{Frame-trans}
use a_multi_threaded_key_val.Connection.Safety.{Safe-chat_step}
use a_multi_threaded_key_val.System.{
  System, Step, accepting, request, hang_up, Reach, view, finish, accept,
}
use a_multi_threaded_key_val.Table.{rollback_changes, unlock}
use a_multi_threaded_key_val.System.Invariant.{
  Inv, Reach-Inv, close-keeps, close-eq-end_transaction,
}

-- In a reachable state, a table is in the `locked_tables` of connection i exactly when thread i
-- holds its mutex.
pub locked-iff-owned :
    {codes : ℕ → ℕ} {s : System}
    → Reach codes s
    → (i p : ℕ)
    → (mem p (s.conns i).locked_tables ≡ true) ↔ ((s.server.cell p).table_mutex ≡ some i)
locked-iff-owned {s} r i p =
    let inv = Reach-Inv r in
    (
      λ h. ground (arith, (inv.sound i).locks p, inv.threads i),
      λ h. ground (arith, (inv.sound i).locks p, inv.threads i),
    )

-- In a reachable state, no table is in the `locked_tables` of two connections.
pub mutual_exclusion :
    {codes : ℕ → ℕ} {s : System}
    → Reach codes s
    → (i j p : ℕ) → mem p (s.conns i).locked_tables ≡ true
    → mem p (s.conns j).locked_tables ≡ true
    → i ≡ j
mutual_exclusion {s} r i j p hi hj =
    ground (arith, (locked-iff-owned r i p).0 hi, (locked-iff-owned r j p).0 hj)

-- In a reachable state, a table whose mutex is free has no pending entries, and a connection that is
-- not in a transaction has no locked tables.
pub free_tables_are_clean :
    {codes : ℕ → ℕ} {s : System}
    → Reach codes s
    → ((p : ℕ) → (s.server.cell p).table_mutex ≡ none → (s.server.cell p).key_value_temp ≡ [])
      × ((i : ℕ) → (s.conns i).m_in_transaction ≡ false → (s.conns i).locked_tables ≡ [])
free_tables_are_clean r = let inv = Reach-Inv r in ((inv.sound 0).clean, λ i. (inv.sound i).quiet)

-- The frame of a step, whatever it is.
pub Step-kept :
    {i : ℕ} {s t : System}
    → Inv s
    → Step i s t
    → (p j : ℕ) → (s.server.cell p).table_mutex ≡ some j
    → j ≢ i
    → t.server.cell p ≡ s.server.cell p
unfolding accept
Step-kept inv (accepting true e) p j h n = refl
Step-kept inv (accepting false e) p j h n = refl
Step-kept {i} {s} inv (request buf true live e) p j h n =
    let (sw, f) = (Safe-chat_step buf).keeps (view i s) (inv.sound i) (omega arith) in
    f.kept p j h (λ same. n (same ∙ inv.threads i))
Step-kept {i} {s} inv (request buf false live e) p j h n =
    let (sw, f) = (Safe-chat_step buf).keeps (view i s) (inv.sound i) (omega arith) in
    let (sc, fc) = close-keeps (chat_step buf (view i s)).1 sw in
    unfold finish in (Frame-trans f fc).kept p j h (λ same. n (same ∙ inv.threads i))
Step-kept {i} {s} inv (hang_up live) p j h n =
    let (sc, fc) = close-keeps (view i s) (inv.sound i) in
    unfold finish in fc.kept p j h (λ same. n (same ∙ inv.threads i))

-- From a reachable state, a step of connection i changes nothing of a table that another connection
-- j has locked: its committed entries, its pending entries and its mutex stay as they are.
pub isolation :
    {codes : ℕ → ℕ} {s t : System} {i : ℕ}
    → Reach codes s
    → Step i s t
    → (j p : ℕ) → j ≢ i
    → mem p (s.conns j).locked_tables ≡ true
    → t.server.cell p ≡ s.server.cell p
isolation r st j p n h = Step-kept (Reach-Inv r) st p j ((locked-iff-owned r j p).0 h) n

-- When a live connection hangs up in a reachable state, each of its locked tables loses its pending
-- entries and is free, all else of it and every other table stay as they were, and so no committed
-- entry of any table changes.
pub hang_up_rolls_back :
    {codes : ℕ → ℕ} {s : System}
    → Reach codes s
    → (i : ℕ) → s.alive i ≡ true
    → let t = finish i (view i s) s in
      Step i s t
      × ((p : ℕ)
          → t.server.cell p ≡ (
              if mem p (s.conns i).locked_tables
              then record (s.server.cell p) { key_value_temp = []; table_mutex = none }
              else s.server.cell p))
      × ((p : ℕ) → (t.server.cell p).key_value ≡ (s.server.cell p).key_value)
unfolding finish rollback_and_unlock rollback_changes unlock
hang_up_rolls_back {s} r i live =
    let same = close-eq-end_transaction (view i s) ((Reach-Inv r).sound i) in
    (
      hang_up live,
      λ p.
          ap (λ w. table_at p w) same
          ∙ cell-end_transaction rollback_and_unlock rollback_and_unlock-IsEnding (view i s) p,
      λ p. ap (λ w. (table_at p w).key_value) same ∙ rolled_back-committed (view i s) p,
    )
