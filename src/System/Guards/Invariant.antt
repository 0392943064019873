-- ===== src/System/Guards/Invariant.antt =====
-- The invariant of the finer steps: that of the effective system, and what holds in a block.
use a_multi_threaded_key_val.Prelude.{
  ℕ, ◌<◌, ◌≡◌, ◌≢◌, refl, sym, ap, ◌∙◌, Bool, true, false, Option, none, some, [], arith, ◌==◌,
  ==_refl, Bool-cases, inl, inr, mem,
}
use a_multi_threaded_key_val.Prelude.Family.{update, update_ne, update_self}
use mathlib.Core.Path.{subst}
use a_multi_threaded_key_val.Connection.{World}
use a_multi_threaded_key_val.Connection.Invariant.{IsSound, Frame, Frame-trans, owns}
use a_multi_threaded_key_val.System.{
  System, Step, accepting, request, hang_up, view, install, proceed, finish, accept,
}
use a_multi_threaded_key_val.System.Invariant.{
  Inv, Step-Inv, install-Inv, finish-Inv, Inv-init, close-keeps,
}
use a_multi_threaded_key_val.System.Isolation.{Step-kept}
use a_multi_threaded_key_val.System.Guards.{
  Block, Workers, GuardStep, outside, enters, leaves, GuardReach, guard_start, guard_next, left,
}
use a_multi_threaded_key_val.System.Guards.Keeping.{counted, counting, Enters-Entered}
use a_multi_threaded_key_val.System.Guards.Leaving.{left-Released, left-keeps}
use a_multi_threaded_key_val.System.Guards.Effective.{
  effective, effective-install, effective-proceed, outside-Step,
}

-- The invariant holds of the effective system, and a thread in a block has nothing pending and is not
-- in a transaction.
pub record GuardInv (s : Workers) : Type 0 where
  pub inv : Inv (effective s)
  pub empty :
      (i : ℕ) (b : Block) (p : ℕ)
      → s.inside i ≡ some (b, p)
      → (s.system.server.cell p).key_value_temp ≡ []
  pub live : (i : ℕ) (b : Block) (p : ℕ) → s.inside i ≡ some (b, p) → s.system.alive i ≡ true
  pub idle :
      (i : ℕ) (b : Block) (p : ℕ)
      → s.inside i ≡ some (b, p)
      → (s.system.conns i).m_in_transaction ≡ false
  pub alone :
      (i : ℕ) (b : Block) (p : ℕ) → s.inside i ≡ some (b, p) → (s.system.conns i).locked_tables ≡ []

-- A thread in a block has the mutex.
pub inside-locked :
    {s : Workers}
    → GuardInv s
    → (i : ℕ) (b : Block) (p : ℕ) → s.inside i ≡ some (b, p)
    → (s.system.server.cell p).table_mutex ≡ some i
inside-locked {s} g i b p h =
    let locks : mem p (counted (s.inside i) (s.system.conns i)).locked_tables
        ≡ owns (counted (s.inside i) (s.system.conns i)).thread
            (s.system.server.cell p).table_mutex =
      (g.inv.sound i).locks p in
    let own : (counted (s.inside i) (s.system.conns i)).thread ≡ i = g.inv.threads i in
    ground (arith, h, locks, own, ==_refl p)

-- A step by thread `i` that leaves the tables of the other threads alone.
pub record Stepped (i : ℕ) (s t : Workers) : Type 0 where
  pub others : (k : ℕ) → k ≢ i → t.inside k ≡ s.inside k
  pub alive : (k : ℕ) → k ≢ i → t.system.alive k ≡ s.system.alive k
  pub conns : (k : ℕ) → k ≢ i → t.system.conns k ≡ s.system.conns k
  pub kept :
      (p k : ℕ)
      → (s.system.server.cell p).table_mutex ≡ some k
      → k ≢ i
      → t.system.server.cell p ≡ s.system.server.cell p

module _ {i : ℕ} {s t : Workers} (g : GuardInv s) (st : Stepped i s t)
    (inv : Inv (effective t)) where
  -- Thread `i` is in no block, or has just come into one.
  Stepped-GuardInv :
      ((b : Block) (p : ℕ)
        → t.inside i ≡ some (b, p)
        → ((t.system.server.cell p).key_value_temp ≡ [])
          × (t.system.alive i ≡ true)
          × ((t.system.conns i).m_in_transaction ≡ false)
          × ((t.system.conns i).locked_tables ≡ []))
      → GuardInv t
  Stepped-GuardInv own = record {
    inv = inv;
    empty = λ k b p h. elim (Bool-cases (k == i)) [
      | inl here ↦ ground (arith, here, h, own b p)
      | inr away ↦
          let n : k ≢ i = ground (arith, away) in
          let before = sym (st.others k n) ∙ h in
          ap (λ c. c.key_value_temp) (st.kept p k (inside-locked g k b p before) n)
          ∙ g.empty k b p before
    ];
    live = λ k b p h. elim (Bool-cases (k == i)) [
      | inl here ↦ ground (arith, here, h, own b p)
      | inr away ↦
          let n : k ≢ i = ground (arith, away) in
          st.alive k n ∙ g.live k b p (sym (st.others k n) ∙ h)
    ];
    idle = λ k b p h. elim (Bool-cases (k == i)) [
      | inl here ↦ ground (arith, here, h, own b p)
      | inr away ↦
          let n : k ≢ i = ground (arith, away) in
          ap (λ c. c.m_in_transaction) (st.conns k n) ∙ g.idle k b p (sym (st.others k n) ∙ h)
    ];
    alone = λ k b p h. elim (Bool-cases (k == i)) [
      | inl here ↦ ground (arith, here, h, own b p)
      | inr away ↦
          let n : k ≢ i = ground (arith, away) in
          ap (λ c. c.locked_tables) (st.conns k n) ∙ g.alone k b p (sym (st.others k n) ∙ h)
    ];
  }

-- The connections of the other threads stay.
Step-conns : {i : ℕ} {s t : System} → Step i s t → (k : ℕ) → k ≢ i → t.conns k ≡ s.conns k
unfolding accept finish
Step-conns (accepting true e) k n = ground (arith, e, n)
Step-conns (accepting false e) k n = refl
Step-conns (request buf true live e) k n = ground (arith, n)
Step-conns (request buf false live e) k n = ground (arith, n)
Step-conns (hang_up live) k n = ground (arith, n)

Step-alive : {i : ℕ} {s t : System} → Step i s t → (k : ℕ) → k ≢ i → t.alive k ≡ s.alive k
unfolding accept finish
Step-alive (accepting true e) k n = ground (arith, e, n)
Step-alive (accepting false e) k n = refl
Step-alive (request buf true live e) k n = refl
Step-alive (request buf false live e) k n = ground (arith, n)
Step-alive (hang_up live) k n = ground (arith, n)

outside-Stepped :
    {i : ℕ} {s : Workers} {t : System}
    → GuardInv s
    → s.inside i ≡ none
    → Step i s.system t
    → Stepped i s (record s { system = t })
outside-Stepped {i} {s} g out st = record {
  others = λ k n. refl;
  alive = Step-alive st;
  conns = Step-conns st;
  kept = λ p k h n. Step-kept g.inv (outside-Step s i out st) p k h n;
}

-- What thread `i` stores leaves the tables of the other threads alone.
module _ {i : ℕ} {s : Workers} (g : GuardInv s) (next : ℕ → Option (Block × ℕ))
    (same : (k : ℕ) → k ≢ i → next k ≡ s.inside k) where
  installs-Stepped :
      (w : World) (o : Option (Block × ℕ))
      → Frame (view i (effective s)) (counting o w)
      → Stepped i s (record { system = install i w s.system; inside = next })
  installs-Stepped w o f = record {
    others = same;
    alive = λ k n. refl;
    conns = λ k n. ground (arith, n);
    kept = λ p k h n. f.kept p k h (λ e. n (e ∙ g.inv.threads i));
  }

  proceeds-Stepped :
      (active : Bool) (w : World)
      → Frame (view i (effective s)) w
      → IsSound w
      → Stepped i s (record { system = proceed i active w s.system; inside = next })
  unfolding finish
  proceeds-Stepped true w f sw = installs-Stepped w none f
  proceeds-Stepped false w f sw =
      let fc = Frame-trans f (close-keeps w sw).1 in
      record {
        others = same;
        alive = λ k n. ground (arith, n);
        conns = λ k n. ground (arith, n);
        kept = λ p k h n. fc.kept p k h (λ e. n (e ∙ g.inv.threads i));
      }

proceed-Inv :
    (i : ℕ) (active : Bool) (w : World) (s : System)
    → i < s.accepted
    → Inv s
    → Frame (view i s) w
    → IsSound w
    → Inv (proceed i active w s)
proceed-Inv i true w s = install-Inv i w s
proceed-Inv i false w s = finish-Inv i w s

no_block : {o : Option (Block × ℕ)} (b : Block) (p : ℕ) → o ≡ none → o ≢ some (b, p)
no_block b p out h = ground (arith, out, h)

-- Each step keeps the invariant, and leaves the tables of the other threads alone.
pub GuardStep-keeps :
    {i : ℕ} {s t : Workers} → GuardInv s → GuardStep i s t → GuardInv t × Stepped i s t
GuardStep-keeps {i} {s} g (outside out st) =
    let stepped = outside-Stepped g out st in
    (
      Stepped-GuardInv g stepped (Step-Inv (outside-Step s i out st) g.inv)
          (λ b p h. absurd (no_block b p out h)),
      stepped,
    )
GuardStep-keeps {i} {s} g (enters {b} {p} {w} out live e) =
    let next = update s.inside i (some (b, p)) in
    let same : (k : ℕ) → k ≢ i → next k ≡ s.inside k =
      λ k n. update_ne s.inside i (some (b, p)) k n in
    let here : next i ≡ some (b, p) = update_self s.inside i (some (b, p)) in
    let seen : view i (effective s) ≡ view i s.system =
      ap (λ o. counting o (view i s.system)) out in
    let d = Enters-Entered (subst IsSound seen (g.inv.sound i)) e in
    let f = subst (λ v. Frame v (counting (some (b, p)) w)) (sym seen) d.frame in
    let stepped = installs-Stepped g next same w (some (b, p)) f in
    let inv =
      install-Inv i (counting (some (b, p)) w) (effective s) (g.inv.running i live) g.inv f
        d.sound in
    let eq =
      effective-install s next i same w ∙ ap (λ o. install i (counting o w) (effective s)) here in
    (
      Stepped-GuardInv g stepped (subst Inv (sym eq) inv) (λ c q h.
          let conn = update_self s.system.conns i w.conn in
          (
            ground (arith, here, h, d.empty),
            live,
            ap (λ c. c.m_in_transaction) conn ∙ d.idle,
            ap (λ c. c.locked_tables) conn ∙ d.alone,
          )),
      stepped,
    )
GuardStep-keeps {i} {s} g (leaves b p active at live e) =
    let next = update s.inside i none in
    let same : (k : ℕ) → k ≢ i → next k ≡ s.inside k = λ k n. update_ne s.inside i none k n in
    let here : next i ≡ none = update_self s.inside i none in
    let v = view i s.system in
    let u = (left b p v).1 in
    let seen : view i (effective s) ≡ counting (some (b, p)) v = ap (λ o. counting o v) at in
    let (su, f') =
      left-keeps b p v u (left-Released b p v (g.empty i b p at)) (g.idle i b p at)
        (g.alone i b p at) (subst IsSound seen (g.inv.sound i)) in
    let f = subst (λ v. Frame v u) (sym seen) f' in
    let stepped = proceeds-Stepped g next same active u f su in
    let inv = proceed-Inv i active u (effective s) (g.inv.running i live) g.inv f su in
    (
      Stepped-GuardInv g stepped
          (subst Inv (sym (effective-proceed s next i same active u here)) inv)
          (λ c q h. absurd (no_block c q here h)),
      stepped,
    )

pub GuardReach-GuardInv : {codes : ℕ → ℕ} {s : Workers} → GuardReach codes s → GuardInv s
GuardReach-GuardInv {codes} (guard_start fd) = record {
  inv = Inv-init codes fd;
  empty = λ i b p h. absurd (no_block b p refl h);
  live = λ i b p h. absurd (no_block b p refl h);
  idle = λ i b p h. absurd (no_block b p refl h);
  alone = λ i b p h. absurd (no_block b p refl h);
}
GuardReach-GuardInv (guard_next r i st) = (GuardStep-keeps (GuardReach-GuardInv r) st).0
