-- ===== src/Connection/Invariant.antt =====
-- What holds of the server and one connection between two requests, what a connection leaves alone
-- of the others, and the rules by which the actions of client_connection.cpp keep both.
use a_multi_threaded_key_val.Prelude.{
  ℕ, ◌≤◌, ◌<◌, ◌≡◌, ◌≢◌, refl, ◌∙◌, Bool, true, false, Option, none, some, [], arith, ◌==◌,
  if◌then◌else◌,
}
use a_multi_threaded_key_val.Text.{Str}
use a_multi_threaded_key_val.Exceptions.{Exception, Result}
use a_multi_threaded_key_val.Map.{find}
use a_multi_threaded_key_val.Connection.{
  World, Action, Outcome, returned, raised, blocked, undefined, pure, raise, undefined_behaviour,
  lift, checked, gets, ◌>>=◌, continue, mem, table_at,
}

-- Thread `i` holds the mutex.
abbrev pub owns : ℕ → Option ℕ → Bool
owns i none = false
owns i (some j) = j == i

pub record IsSound (w : World) : Type 0 where
  pub locks : (p : ℕ) → mem p w.conn.locked_tables ≡ owns w.conn.thread (table_at p w).table_mutex
  pub clean : (p : ℕ) → (table_at p w).table_mutex ≡ none → (table_at p w).key_value_temp ≡ []
  pub quiet : w.conn.m_in_transaction ≡ false → w.conn.locked_tables ≡ []
  pub fresh : (p : ℕ) → w.server.allocated ≤ p → (table_at p w).table_mutex ≡ none
  pub named :
      (name : Str) (p : ℕ) → find name w.server.set_of_table ≡ some p → p < w.server.allocated

-- From `v` to `w` the connection of both has not touched what other threads have locked.
pub record Frame (v w : World) : Type 0 where
  pub thread : w.conn.thread ≡ v.conn.thread
  pub grows : v.server.allocated ≤ w.server.allocated
  pub kept :
      (p j : ℕ)
      → (table_at p v).table_mutex ≡ some j
      → j ≢ v.conn.thread
      → table_at p w ≡ table_at p v
  pub taken :
      (p j : ℕ)
      → (table_at p w).table_mutex ≡ some j
      → j ≢ v.conn.thread
      → (table_at p v).table_mutex ≡ some j

pub Frame-refl : (w : World) → Frame w w
Frame-refl w = record {
  thread = refl;
  grows = omega arith;
  kept = λ p j h n. refl;
  taken = λ p j h n. h;
}

pub Frame-trans : {u v w : World} → Frame u v → Frame v w → Frame u w
Frame-trans {u} {v} {w} f g = record {
  thread = g.thread ∙ f.thread;
  grows = omega (arith, f.grows, g.grows);
  kept = λ p j h n. let e = f.kept p j h n in g.kept p j (rw e h) (λ same. n (same ∙ f.thread)) ∙ e;
  taken = λ p j h n. f.taken p j (g.taken p j h (λ same. n (same ∙ f.thread))) n;
}

-- Run in this world, the action keeps the invariant.
abbrev pub KeepsAt {ℓ} : {A : Type ℓ} → World → Action A → Type 0
KeepsAt w m = IsSound (m w).1 × Frame w (m w).1

-- The action keeps the invariant, where at least `n` tables are allocated.
pub record Safe {ℓ} {A : Type ℓ} (n : ℕ) (m : Action A) : Type ℓ where
  pub keeps : (w : World) → IsSound w → n ≤ w.server.allocated → KeepsAt w m

module _ {ℓ} {A : Type ℓ} (n : ℕ) where
  pub Safe-pure : (a : A) → Safe n (pure a)
  unfolding pure
  Safe-pure a = record { keeps = λ w s h. (s, Frame-refl w) }

  pub Safe-raise : (e : Exception) → Safe n (raise {A = A} e)
  unfolding raise
  Safe-raise e = record { keeps = λ w s h. (s, Frame-refl w) }

  pub Safe-undefined : Safe n (undefined_behaviour {A = A})
  unfolding undefined_behaviour
  Safe-undefined = record { keeps = λ w s h. (s, Frame-refl w) }

  pub Safe-lift : (r : Result A) → Safe n (lift r)
  unfolding lift
  Safe-lift r = record { keeps = λ w s h. (s, Frame-refl w) }

  pub Safe-checked : (o : Option A) → Safe n (checked o)
  unfolding checked
  Safe-checked o = record { keeps = λ w s h. (s, Frame-refl w) }

  pub Safe-gets : (f : World → A) → Safe n (gets f)
  unfolding gets
  Safe-gets f = record { keeps = λ w s h. (s, Frame-refl w) }

  pub Safe-if : (b : Bool) (m k : Action A) → Safe n m → Safe n k → Safe n (if b then m else k)
  Safe-if true m k sm sk = sm
  Safe-if false m k sm sk = sk

module _ {ℓ κ} {A : Type ℓ} {B : Type κ} (n : ℕ) where
  continue-keeps :
      (o : Outcome A) (f : A → Action B) (w : World)
      → ((a : A) → Safe n (f a))
      → IsSound w
      → n ≤ w.server.allocated
      → IsSound (continue o f w).1 × Frame w (continue o f w).1
  continue-keeps (returned a) f w sf s h = (sf a).keeps w s h
  continue-keeps (raised e) f w sf s h = (s, Frame-refl w)
  continue-keeps blocked f w sf s h = (s, Frame-refl w)
  continue-keeps undefined f w sf s h = (s, Frame-refl w)

  pub KeepsAt-bind :
      (m : Action A) (f : A → Action B) (w : World)
      → n ≤ w.server.allocated
      → KeepsAt w m
      → ((a : A) → Safe n (f a))
      → KeepsAt w (m >>= f)
  unfolding ◌>>=◌
  KeepsAt-bind m f w h k sf =
      let (s', fr) = k in
      let (s'', fr') = continue-keeps (m w).0 f (m w).1 sf s' (omega (arith, fr.grows)) in
      (s'', Frame-trans fr fr')

  pub Safe-bind :
      (m : Action A) (f : A → Action B) → Safe n m → ((a : A) → Safe n (f a)) → Safe n (m >>= f)
  Safe-bind m f sm sf = record { keeps = λ w s h. KeepsAt-bind m f w h (sm.keeps w s h) sf }

pub ruleset safe_rules =
    (Safe-pure, Safe-raise, Safe-undefined, Safe-lift, Safe-checked, Safe-gets, Safe-if, Safe-bind)
