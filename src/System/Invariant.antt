-- ===== src/System/Invariant.antt =====
-- The invariant of `Connection.Invariant` for all connections at once, over the steps of the system.
use a_multi_threaded_key_val.Prelude.{
  ℕ, ◌≤◌, ◌<◌, ◌≡◌, ◌≢◌, refl, sym, ap, ◌∙◌, Bool, true, false, arith, ◌==◌, Bool-cases, inl, inr,
}
use a_multi_threaded_key_val.Prelude.Family.{update}
use a_multi_threaded_key_val.Prelude.Int.{ℤ}
use mathlib.Core.Path.{subst}
use a_multi_threaded_key_val.Map.{find-empty}
use a_multi_threaded_key_val.Connection.{
  Connection, World, new_connection, table_at, end_transaction, rollback_and_unlock,
}
use a_multi_threaded_key_val.Connection.Invariant.{owns, IsSound, Frame, Frame-refl, Frame-trans}
use a_multi_threaded_key_val.Connection.Transactions.{
  end_transaction-keeps, rollback_and_unlock-IsEnding,
}
use a_multi_threaded_key_val.Connection.Safety.{Safe-chat_step}
use a_multi_threaded_key_val.System.{
  System, Step, accepting, request, hang_up, Reach, start, next, init, view, install, close, finish,
  accept,
}

pub record Inv (s : System) : Type 0 where
  pub sound : (i : ℕ) → IsSound (view i s)
  pub threads : (i : ℕ) → (s.conns i).thread ≡ i
  pub running : (i : ℕ) → s.alive i ≡ true → i < s.accepted
  pub unused : (i : ℕ) → s.accepted ≤ i → s.conns i ≡ new_connection i

owns-Frame :
    (v w : World) (j p : ℕ)
    → Frame v w
    → j ≢ v.conn.thread
    → owns j (table_at p w).table_mutex ≡ owns j (table_at p v).table_mutex
owns-Frame v w j p f n = ground (arith, f.kept p j, f.taken p j)

-- What one connection does leaves the world of another one sound.
other-IsSound :
    (v w : World) (c : Connection)
    → c.thread ≢ v.conn.thread
    → Frame v w
    → IsSound w
    → IsSound (record v { conn = c })
    → IsSound (record w { conn = c })
other-IsSound v w c n f sw sc = record {
  locks = λ p. sc.locks p ∙ sym (owns-Frame v w c.thread p f n);
  clean = sw.clean;
  quiet = sc.quiet;
  fresh = sw.fresh;
  named = sw.named;
}

-- The destructor does what the handler of a failed transaction does.
pub close-eq-end_transaction :
    (w : World) → IsSound w → close w ≡ end_transaction rollback_and_unlock w
unfolding close end_transaction
close-eq-end_transaction w s = elim (Bool-cases w.conn.m_in_transaction) [
  | inl busy ↦ ground (arith, busy)
  | inr idle ↦ ground (arith, idle, s.quiet idle)
]

pub close-keeps : (w : World) → IsSound w → IsSound (close w) × Frame w (close w)
close-keeps w s =
    rw (close-eq-end_transaction w s)
      (end_transaction-keeps rollback_and_unlock rollback_and_unlock-IsEnding w s)

pub install-Inv :
    (i : ℕ) (w : World) (s : System)
    → i < s.accepted
    → Inv s
    → Frame (view i s) w
    → IsSound w
    → Inv (install i w s)
install-Inv i w s lt inv f sw = record {
  sound = λ j. elim (Bool-cases (j == i)) [
    | inl same ↦ rw same sw
    | inr other ↦ rw other (
        other-IsSound (view i s) w (s.conns j) (ground (arith, other, inv.threads i, inv.threads j))
          f sw (inv.sound j))
  ];
  threads = λ j. ground (arith, f.thread, inv.threads i, inv.threads j);
  running = inv.running;
  unused = λ j h. ground (arith, h, inv.unused j);
}

pub finish-Inv :
    (i : ℕ) (w : World) (s : System)
    → i < s.accepted
    → Inv s
    → Frame (view i s) w
    → IsSound w
    → Inv (finish i w s)
unfolding finish
finish-Inv i w s lt inv f sw =
    let (sc, fc) = close-keeps w sw in
    let v = install-Inv i (close w) s lt inv (Frame-trans f fc) sc in
    record {
      sound = v.sound;
      threads = v.threads;
      running = λ j h. ground (arith, h, inv.running j);
      unused = v.unused;
    }

-- A connection that has been accepted is in its first state, as the index was before.
pub accept-Inv : (created : Bool) (s : System) → Inv s → Inv (accept created s)
unfolding accept
accept-Inv false s inv = inv
accept-Inv true s inv =
    let same : (j : ℕ) → update s.conns s.accepted (new_connection s.accepted) j ≡ s.conns j =
      λ j. ground (arith, inv.unused s.accepted) in
    record {
      sound = λ j.
          subst (λ c. IsSound (record { server = s.server; conn = c })) (sym (same j))
            (inv.sound j);
      threads = λ j. ap (λ c. c.thread) (same j) ∙ inv.threads j;
      running = λ j h. ground (arith, h, inv.running j);
      unused = λ j h. same j ∙ inv.unused j (omega arith);
    }

-- Every step of every connection keeps the invariant.
pub Step-Inv : {i : ℕ} {s t : System} → Step i s t → Inv s → Inv t
Step-Inv {s = s} (accepting created e) inv = accept-Inv created s inv
Step-Inv {i} {s} (request buf true live e) inv =
    let (sw, f) = (Safe-chat_step buf).keeps (view i s) (inv.sound i) (omega arith) in
    install-Inv i _ s (inv.running i live) inv f sw
Step-Inv {i} {s} (request buf false live e) inv =
    let (sw, f) = (Safe-chat_step buf).keeps (view i s) (inv.sound i) (omega arith) in
    finish-Inv i _ s (inv.running i live) inv f sw
Step-Inv {i} {s} (hang_up live) inv =
    finish-Inv i (view i s) s (inv.running i live) inv (Frame-refl (view i s)) (inv.sound i)

pub Inv-init : (codes : ℕ → ℕ) (fd : ℤ) → Inv (init codes fd)
Inv-init codes fd = record {
  sound = λ i. record {
    locks = λ p. refl;
    clean = λ p h. refl;
    quiet = λ h. refl;
    fresh = λ p h. refl;
    named = λ name p h. ground (arith, h, find-empty {V = ℕ} name);
  };
  threads = λ i. refl;
  running = λ i h. ground arith;
  unused = λ i h. refl;
}

-- The invariant holds in every reachable state.
pub Reach-Inv : {codes : ℕ → ℕ} {s : System} → Reach codes s → Inv s
Reach-Inv {codes} (start fd) = Inv-init codes fd
Reach-Inv (next r i st) = Step-Inv st (Reach-Inv r)
