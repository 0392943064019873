-- ===== src/System/Visits/Safety.antt =====
-- The invariant of `System.Invariant` over the steps that visit one table at a time.
use a_multi_threaded_key_val.Prelude.{
  ℕ, ◌<◌, ◌≡◌, ◌≢◌, ◌↔◌, refl, ◌∙◌, Bool, true, false, not, ◌&&◌, none, some, List, [], ◌∷◌, arith,
  ◌==◌, mem,
}
use a_multi_threaded_key_val.Exceptions.{failed_transaction}
use a_multi_threaded_key_val.Connection.{World, table_at}
use a_multi_threaded_key_val.Connection.Handlers.{handle_commit}
use a_multi_threaded_key_val.Connection.Invariant.{
  IsSound, Frame, Frame-refl, Frame-trans, Safe, Safe-bind, Safe-pure,
}
use a_multi_threaded_key_val.Connection.Transactions.{
  IsEnding, commit_and_unlock-IsEnding, rollback_and_unlock-IsEnding,
}
use a_multi_threaded_key_val.Connection.Safety.{
  Safe-chat_step, Safe-read, Safe-recover, Safe-handle_commit,
}
use a_multi_threaded_key_val.System.{System, view, finish, proceed}
use a_multi_threaded_key_val.System.Invariant.{
  Inv, Inv-init, Step-Inv, install-Inv, finish-Inv, close-keeps,
}
use a_multi_threaded_key_val.System.Isolation.{Step-kept}
use a_multi_threaded_key_val.System.Visits.{
  Ending, committing, rolling_back, closing, on_table, afterwards, without, visited, Threads,
  Begins, commits, fails, leaves, hangs_up, FineStep, whole, begins, visits, ends, FineReach,
  fine_start, fine_next,
}

pub on_table-IsEnding : (e : Ending) → IsEnding (on_table e)
on_table-IsEnding committing = commit_and_unlock-IsEnding
on_table-IsEnding (rolling_back what) = rollback_and_unlock-IsEnding
on_table-IsEnding closing = rollback_and_unlock-IsEnding

pub mem-without : (q p : ℕ) (ps : List ℕ) → mem q (without p ps) ≡ (mem q ps && not (q == p))
mem-without q p [] = refl
mem-without q p (r ∷ ps) = ground (arith, mem-without q p ps)

-- A visit of a table that the connection has locked.
visited-keeps :
    (e : Ending) (p : ℕ) (w : World)
    → mem p w.conn.locked_tables ≡ true
    → IsSound w
    → IsSound (visited e p w) × Frame w (visited e p w)
unfolding visited
visited-keeps e p w member s =
    let k = on_table-IsEnding e in
    let unlocked = k.unlocks (table_at p w) in
    let empty = k.empties (table_at p w) in
    (
      record {
        locks = λ q. ground (arith, mem-without q p w.conn.locked_tables, s.locks q, unlocked);
        clean = λ q h. ground (arith, h, s.clean q, empty);
        quiet = λ h. ground (arith, h, s.quiet, member);
        fresh = λ q h. ground (arith, h, s.fresh q, unlocked);
        named = s.named;
      },
      record {
        thread = refl;
        grows = omega arith;
        kept = λ q j h n. ground (arith, h, n, member, s.locks p);
        taken = λ q j h n. ground (arith, h, n, unlocked);
      },
    )

Safe-afterwards : (e : Ending) → Safe 0 (afterwards e)
unfolding afterwards
Safe-afterwards committing =
    Safe-bind 0 handle_commit _ (Safe-handle_commit 0) (λ _. Safe-pure 0 true)
Safe-afterwards (rolling_back what) = Safe-recover (failed_transaction what)
Safe-afterwards closing = Safe-pure 0 false

begun-keeps :
    {i : ℕ} {s : System} {e : Ending} {w : World}
    → Begins i s e w
    → IsSound (view i s)
    → IsSound w × Frame (view i s) w
begun-keeps {i} {s} (commits buf d l t) h = (h, Frame-refl (view i s))
begun-keeps {i} {s} (fails buf what e) h = (Safe-read buf).keeps (view i s) h (omega arith)
begun-keeps {i} {s} (leaves buf e) h = (Safe-chat_step buf).keeps (view i s) h (omega arith)
begun-keeps {i} {s} hangs_up h = (h, Frame-refl (view i s))

proceed-Inv :
    (i : ℕ) (active : Bool) (w : World) (s : System)
    → i < s.accepted
    → Inv s
    → IsSound w × Frame (view i s) w
    → Inv (proceed i active w s)
proceed-Inv i true w s lt inv k = install-Inv i w s lt inv k.1 k.0
proceed-Inv i false w s lt inv k = finish-Inv i w s lt inv k.1 k.0

FineStep-Inv : {i : ℕ} {s t : Threads} → FineStep i s t → Inv s.system → Inv t.system
FineStep-Inv (whole free st) inv = Step-Inv st inv
FineStep-Inv {i} {s} (begins {w = w} free live b) inv =
    let (sw, f) = begun-keeps b (inv.sound i) in
    install-Inv i w s.system (inv.running i live) inv f sw
FineStep-Inv {i} {s} (visits e p busy live member) inv =
    let (sw, f) = visited-keeps e p (view i s.system) member (inv.sound i) in
    install-Inv i _ s.system (inv.running i live) inv f sw
FineStep-Inv {i} {s} (ends e active busy live done returns) inv =
    proceed-Inv i active _ s.system (inv.running i live) inv
      ((Safe-afterwards e).keeps (view i s.system) (inv.sound i) (omega arith))

FineReach-Inv : {codes : ℕ → ℕ} {s : Threads} → FineReach codes s → Inv s.system
FineReach-Inv {codes} (fine_start fd) = Inv-init codes fd
FineReach-Inv (fine_next r i st) = FineStep-Inv st (FineReach-Inv r)

proceed-kept :
    (i : ℕ) (active : Bool) (w : World) (s : System)
    → Inv s
    → IsSound w × Frame (view i s) w
    → (p j : ℕ) → (s.server.cell p).table_mutex ≡ some j
    → j ≢ i
    → (proceed i active w s).server.cell p ≡ s.server.cell p
unfolding finish
proceed-kept i true w s inv k p j h n = k.1.kept p j h (λ same. n (same ∙ inv.threads i))
proceed-kept i false w s inv k p j h n =
    (Frame-trans k.1 (close-keeps w k.0).1).kept p j h (λ same. n (same ∙ inv.threads i))

FineStep-kept :
    {i : ℕ} {s t : Threads}
    → Inv s.system
    → FineStep i s t
    → (p j : ℕ) → (s.system.server.cell p).table_mutex ≡ some j
    → j ≢ i
    → t.system.server.cell p ≡ s.system.server.cell p
FineStep-kept inv (whole free st) p j h n = Step-kept inv st p j h n
FineStep-kept {i} {s} inv (begins {w = w} free live b) p j h n =
    proceed-kept i true w s.system inv (begun-keeps b (inv.sound i)) p j h n
FineStep-kept {i} {s} inv (visits e q busy live member) p j h n =
    proceed-kept i true _ s.system inv (visited-keeps e q (view i s.system) member (inv.sound i)) p
      j h n
FineStep-kept {i} {s} inv (ends e active busy live done returns) p j h n =
    proceed-kept i active _ s.system inv
      ((Safe-afterwards e).keeps (view i s.system) (inv.sound i) (omega arith)) p j h n

module _ {codes : ℕ → ℕ} {s : Threads} (r : FineReach codes s) where
  fine_locked-iff-owned :
      (i p : ℕ)
      → (mem p (s.system.conns i).locked_tables ≡ true)
        ↔ ((s.system.server.cell p).table_mutex ≡ some i)
  fine_locked-iff-owned i p =
      let inv = FineReach-Inv r in
      (
        λ h. ground (arith, (inv.sound i).locks p, inv.threads i),
        λ h. ground (arith, (inv.sound i).locks p, inv.threads i),
      )

  -- Where the loops over `locked_tables` visit one table in a step and the other threads make steps in
  -- between, a step of thread i still changes nothing of a table that another thread j has locked and,
  -- in its own loop, not visited yet; what the steps reach keeps a table in the hands of one thread,
  -- and a table whose mutex is free has no pending entries.
  pub interleaved_loops_are_safe :
      {i : ℕ} {t : Threads}
      → FineStep i s t
      → ((p j : ℕ)
          → mem p (s.system.conns j).locked_tables ≡ true
          → j ≢ i
          → t.system.server.cell p ≡ s.system.server.cell p)
        × ((p j k : ℕ)
            → mem p (t.system.conns j).locked_tables ≡ true
            → mem p (t.system.conns k).locked_tables ≡ true
            → j ≡ k)
        × ((p : ℕ)
            → (t.system.server.cell p).table_mutex ≡ none
            → (t.system.server.cell p).key_value_temp ≡ [])
  interleaved_loops_are_safe st =
      let inv = FineReach-Inv r in
      let after = FineStep-Inv st inv in
      (
        λ p j h n. FineStep-kept inv st p j ((fine_locked-iff-owned j p).0 h) n,
        λ p j k hj hk. ground (
          arith,
          hj,
          hk,
          (after.sound j).locks p,
          (after.sound k).locks p,
          after.threads j,
          after.threads k,
        ),
        (after.sound 0).clean,
      )
