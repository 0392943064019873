-- ===== src/Connection/Creation.antt =====
-- `create_table`, `find_table` and code that branches on `m_in_transaction`, against the invariant of
-- `Connection.Invariant`.
use a_multi_threaded_key_val.Prelude.{
  ℕ, suc, ◌≤◌, ◌≡◌, refl, Bool, true, false, Option, none, some, [], arith, ◌==◌,
}
use a_multi_threaded_key_val.Text.{Str}
use a_multi_threaded_key_val.Map.{find, find-assign}
use a_multi_threaded_key_val.Exceptions.{ok, ◌>>=◌ as bind_result}
use a_multi_threaded_key_val.Table.{Table, new_table}
use a_multi_threaded_key_val.Server.{
  create_table, find_table, add_table, create_if_absent, or_absent,
}
use a_multi_threaded_key_val.Connection.{World, Action, gets, ◌>>=◌, continue, of_result}
use a_multi_threaded_key_val.Connection.Handlers.{server_create_table, server_find_table, created}
use a_multi_threaded_key_val.Connection.Invariant.{
  IsSound, Frame, Frame-refl, Frame-trans, KeepsAt, KeepsAt-bind, Safe, Safe-bind, Safe-lift,
  safe_rules,
}
use a_multi_threaded_key_val.Connection.Primitives.{
  IsPrivate, Safe-set_conn, Safe-respond, Safe-stack_top, Safe-stack_pop, Safe-stack_push,
}

pub add_table-keeps :
    (name : Str) (w : World) (t : Table)
    → t.table_mutex ≡ none
    → t.key_value_temp ≡ []
    → IsSound w
    → let v = record w { server = add_table name w.server t } in IsSound v × Frame w v
add_table-keeps name w t free empty s = (
  record {
    locks = λ q. ground (arith, s.locks q, s.fresh q);
    clean = λ q h. ground (arith, h, s.clean q);
    quiet = s.quiet;
    fresh = λ q h. ground (arith, h, s.fresh q);
    named = λ j q h.
        ground (arith, h, find-assign name j w.server.allocated w.server.set_of_table, s.named j q);
  },
  record {
    thread = refl;
    grows = omega arith;
    kept = λ q j h n. ground (arith, h, s.fresh q);
    taken = λ q j h n. ground (arith, h, s.fresh q);
  },
)

pub made-keeps :
    (name : Str) (w : World) (code : ℕ) (b : Bool)
    → (code == 0) ≡ b
    → IsSound w
    → KeepsAt w (created (bind_result (new_table name code) λ t. ok (add_table name w.server t)))
unfolding new_table
made-keeps name w code true e s = rw e (add_table-keeps name w _ refl refl s)
made-keeps name w code false e s = rw e (s, Frame-refl w)

pub created-keeps :
    (name : Str) (w : World) (o : Option ℕ)
    → IsSound w
    → KeepsAt w (created (create_if_absent name w.server o))
created-keeps name w (some p) s = (s, Frame-refl w)
created-keeps name w none s =
    let code = w.server.mutex_init w.server.allocated in made-keeps name w code (code == 0) refl s

pub Safe-create : (n : ℕ) (name : Str) → Safe n (server_create_table name)
unfolding server_create_table create_table
Safe-create n name = record {
  keeps = λ w s h. created-keeps name w (find name w.server.set_of_table) s;
}

module _ {ℓ} {B : Type ℓ} where
  pub Safe-find :
      (name : Str) (f : ℕ → Action B)
      → ((p : ℕ) → Safe (suc p) (f p))
      → Safe 0 (server_find_table name >>= f)
  unfolding ◌>>=◌ server_find_table find_table
  Safe-find name f sf = record { keeps = λ w s h. go w s (find name w.server.set_of_table) refl }
    where
      go :
          (w : World)
          → IsSound w
          → (o : Option ℕ) → find name w.server.set_of_table ≡ o
          → KeepsAt w (λ v. continue (of_result (or_absent o)) f w)
      go w s none e = (s, Frame-refl w)
      go w s (some p) e = (sf p).keeps w s (s.named name p e)

  -- Code that branches on `m_in_transaction`.
  pub Safe-by_transaction :
      (n : ℕ) (G : Bool → Action (Unit {0})) (after : Action B)
      → ((w : World)
          → n ≤ w.server.allocated
          → IsSound w
          → (b : Bool) → w.conn.m_in_transaction ≡ b
          → KeepsAt w (G b))
      → Safe n after
      → Safe n (gets (λ w. w.conn.m_in_transaction) >>= λ b. G b >>= λ _. after)
  Safe-by_transaction n G after k sa = record {
    keeps = λ w s h.
        unfold gets ◌>>=◌ in
        KeepsAt-bind n (G w.conn.m_in_transaction) (λ _. after) w h
          (k w h s w.conn.m_in_transaction refl) (λ _. sa);
  }

pub ruleset handler_rules =
    (safe_rules, Safe-respond, Safe-stack_top, Safe-stack_pop, Safe-stack_push, Safe-create)
