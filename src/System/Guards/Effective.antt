-- ===== src/System/Guards/Effective.antt =====
-- The system in which each thread has locked the table of its Guard makes the steps of System.antt.
use a_multi_threaded_key_val.Prelude.{
  ℕ, ◌≡◌, ◌≢◌, refl, sym, ap, ◌∙◌, Bool, true, false, Option, none, arith, ◌==◌, Bool-cases, inl,
  inr, ◌+◌,
}
use a_multi_threaded_key_val.Prelude.Family.{update}
use mathlib.Core.Path.{subst, fun_ext}
use a_multi_threaded_key_val.Connection.{Connection, World}
use a_multi_threaded_key_val.Connection.Chat.{chat_step}
use a_multi_threaded_key_val.System.{
  System, Step, accepting, request, hang_up, view, install, proceed, finish, accept, close,
  new_connection,
}
use a_multi_threaded_key_val.System.Guards.{Block, Workers}
use a_multi_threaded_key_val.System.Guards.Keeping.{counted, counting}

-- The system where each thread has locked the table of its Guard.
abbrev pub effective : Workers → System
effective s = record (s.system) { conns = λ k. counted (s.inside k) (s.system.conns k) }

-- Thread `i` gets the connection `c` and is in `o`.
module _ (inside next : ℕ → Option (Block × ℕ)) (conns : ℕ → Connection) (i : ℕ)
    (same : (k : ℕ) → k ≢ i → next k ≡ inside k) (c : Connection) where
  counted-update :
      (λ k. counted (next k) (update conns i c k))
      ≡ update (λ k. counted (inside k) (conns k)) i (counted (next i) c)
  counted-update = fun_ext (λ k. elim (Bool-cases (k == i)) [
    | inl here ↦ ground (arith, here)
    | inr away ↦ ground (arith, away, same k)
  ])

-- What thread `i` stores is stored in the effective system.
module _ (s : Workers) (next : ℕ → Option (Block × ℕ)) (i : ℕ)
    (same : (k : ℕ) → k ≢ i → next k ≡ s.inside k) where
  pub effective-install :
      (w : World)
      → effective (record { system = install i w s.system; inside = next })
        ≡ install i (counting (next i) w) (effective s)
  effective-install w =
      ap
        (λ f. record {
          server = w.server;
          conns = f;
          alive = s.system.alive;
          accepted = s.system.accepted;
        })
        (counted-update s.inside next s.system.conns i same w.conn)

  pub effective-proceed :
      (active : Bool) (w : World)
      → next i ≡ none
      → effective (record { system = proceed i active w s.system; inside = next })
        ≡ proceed i active w (effective s)
  unfolding finish
  effective-proceed true w out =
      effective-install w ∙ ap (λ o. install i (counting o w) (effective s)) out
  effective-proceed false w out =
      ap
        (λ f. record {
          server = (close w).server;
          conns = f;
          alive = update s.system.alive i false;
          accepted = s.system.accepted;
        })
        (counted-update s.inside next s.system.conns i same (close w).conn
          ∙ ap (λ o. update (effective s).conns i (counted o (close w).conn)) out)

-- Outside the blocks, a step of the system is one of the effective system.
pub outside-Step :
    (s : Workers) (i : ℕ) {t : System}
    → s.inside i ≡ none
    → Step i s.system t
    → Step i (effective s) (effective (record s { system = t }))
unfolding accept
outside-Step s i out (accepting false e) = accepting false e
outside-Step s i out (accepting true e) =
    subst (Step i (effective s))
      (ap
        (λ f. record {
          server = s.system.server;
          conns = f;
          alive = update s.system.alive s.system.accepted true;
          accepted = s.system.accepted + 1;
        })
        (sym (
          counted-update s.inside s.inside s.system.conns s.system.accepted (λ k n. refl)
            (new_connection s.system.accepted)
          ∙ ap
              (λ o.
                update (effective s).conns s.system.accepted
                  (counted o (new_connection s.system.accepted)))
              (ap s.inside e ∙ out))))
      (accepting true e)
outside-Step s i out (request buf active live e) =
    let seen : view i (effective s) ≡ view i s.system =
      ap (λ o. counting o (view i s.system)) out in
    subst (Step i (effective s))
      (ap (λ v. proceed i active (chat_step buf v).1 (effective s)) seen
        ∙ sym (
            effective-proceed s s.inside i (λ k n. refl) active (chat_step buf (view i s.system)).1
              out))
      (request buf active live (ap (λ v. (chat_step buf v).0) seen ∙ e))
outside-Step s i out (hang_up live) =
    let seen : view i (effective s) ≡ view i s.system =
      ap (λ o. counting o (view i s.system)) out in
    subst (Step i (effective s))
      (ap (λ v. finish i v (effective s)) seen
        ∙ sym (effective-proceed s s.inside i (λ k n. refl) false (view i s.system) out))
      (hang_up live)
