-- ===== src/System/Guards/Safety.antt =====
-- What the mutexes give the threads when steps are made inside the blocks of the Guards.
use a_multi_threaded_key_val.Prelude.{
  ℕ, ◌≡◌, ◌≢◌, true, false, none, some, [], arith, Option-cases, inl, inr, mem,
}
use a_multi_threaded_key_val.Prelude.Family.{update}
use a_multi_threaded_key_val.Connection.Invariant.{owns}
use a_multi_threaded_key_val.System.{view, install}
use a_multi_threaded_key_val.System.Guards.{Block, Workers, GuardStep, leaves, GuardReach, left}
use a_multi_threaded_key_val.System.Guards.Keeping.{counted}
use a_multi_threaded_key_val.System.Guards.Leaving.{left-returns, left-Released}
use a_multi_threaded_key_val.System.Guards.Invariant.{
  GuardInv, inside-locked, GuardStep-keeps, GuardReach-GuardInv,
}

-- In a reachable state of the finer steps, a step of thread i changes nothing of a table whose mutex
-- another thread k holds, in a transaction or in the block of a Guard: its committed entries, its pending
-- entries and its mutex stay as they are.
pub guards_isolate :
    {codes : ℕ → ℕ} {s t : Workers} {i : ℕ}
    → GuardReach codes s
    → GuardStep i s t
    → (k p : ℕ) → k ≢ i
    → (s.system.server.cell p).table_mutex ≡ some k
    → t.system.server.cell p ≡ s.system.server.cell p
guards_isolate r st k p n h = (GuardStep-keeps (GuardReach-GuardInv r) st).1.kept p k h n

-- A thread outside the blocks has the mutexes of its `locked_tables`.
locked-outside :
    {s : Workers}
    → GuardInv s
    → (k p : ℕ) → s.inside k ≡ none
    → mem p (s.system.conns k).locked_tables ≡ owns k (s.system.server.cell p).table_mutex
locked-outside {s} g k p out =
    let threads : (counted (s.inside k) (s.system.conns k)).thread ≡ k = g.inv.threads k in
    let locks : mem p (counted (s.inside k) (s.system.conns k)).locked_tables
        ≡ owns (counted (s.inside k) (s.system.conns k)).thread
            (s.system.server.cell p).table_mutex =
      (g.inv.sound k).locks p in
    ground (arith, out, locks, threads)

-- In a reachable state of the finer steps, where thread i is in the block of a Guard on the table at p:
-- thread i holds the mutex of the table, which has nothing pending; the table is in the `locked_tables`
-- of no connection, and no other thread is in the block of a Guard on it.
pub guards_exclude :
    {codes : ℕ → ℕ} {s : Workers}
    → GuardReach codes s
    → (i : ℕ) (b : Block) (p : ℕ) → s.inside i ≡ some (b, p)
    → ((s.system.server.cell p).table_mutex ≡ some i)
      × ((s.system.server.cell p).key_value_temp ≡ [])
      × ((k : ℕ) → mem p (s.system.conns k).locked_tables ≡ false)
      × ((k : ℕ) (c : Block) → s.inside k ≡ some (c, p) → k ≡ i)
guards_exclude {s} r i b p h =
    let g = GuardReach-GuardInv r in
    let held = inside-locked g i b p h in
    (
      held,
      g.empty i b p h,
      λ k. elim (Option-cases (s.inside k)) [
        | inl out ↦ ground (arith, locked-outside g k p out, held, h, out)
        | inr (x, at) ↦ ground (arith, g.alone k x.0 x.1 at)
      ],
      λ k c hk. ground (arith, held, inside-locked g k c p hk),
    )

-- In a reachable state of the finer steps, a thread in the block of a Guard can always leave it, whatever
-- the other threads hold: its block ends without waiting, and the mutex of its table is free after that.
pub guards_leave :
    {codes : ℕ → ℕ} {s : Workers}
    → GuardReach codes s
    → (i : ℕ) (b : Block) (p : ℕ) → s.inside i ≡ some (b, p)
    → let t : Workers = record {
      system = install i (left b p (view i s.system)).1 s.system;
      inside = update s.inside i none;
    } in
      GuardStep i s t × ((t.system.server.cell p).table_mutex ≡ none)
guards_leave {s} r i b p h =
    let g = GuardReach-GuardInv r in
    let empty = g.empty i b p h in
    let v = view i s.system in
    (
      leaves b p true h (g.live i b p h) (left-returns p v empty b),
      (left-Released b p v empty).free,
    )
