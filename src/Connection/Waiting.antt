-- ===== src/Connection/Waiting.antt =====
-- client_connection.cpp: what it means that code waits for a mutex, and the rules for its parts.
use a_multi_threaded_key_val.Prelude.{
  ℕ, ◌≡◌, ◌≢◌, refl, sym, ap, ◌∙◌, Bool, true, false, Option, none, some, arith, if◌then◌else◌,
}
use a_multi_threaded_key_val.Exceptions.{Exception, Result, ok, throw}
use a_multi_threaded_key_val.Connection.{
  World, Action, Outcome, returned, raised, blocked, undefined, lift, checked, gets, pure, raise,
  undefined_behaviour, ◌>>=◌, continue, table_at, of_result, of_option,
}

-- It does not wait.
pub record Prompt {ℓ} {A : Type ℓ} (m : Action A) : Type ℓ where
  pub ends : (w : World) → (m w).0 ≢ blocked

-- It does not wait, and leaves the server and `m_in_transaction` as they are.
pub record Quiet {ℓ} {A : Type ℓ} (m : Action A) : Type ℓ where
  pub ends : (w : World) → (m w).0 ≢ blocked
  pub server : (w : World) → (m w).1.server ≡ w.server
  pub same : (w : World) → (m w).1.conn.m_in_transaction ≡ w.conn.m_in_transaction

-- Why it waits: another thread holds a mutex, and the connection is in no transaction.
abbrev pub IsWaiting : World → Type 0
IsWaiting w =
    (w.conn.m_in_transaction ≡ false) × (p : ℕ) × (j : ℕ) × ((table_at p w).table_mutex ≡ some j)

pub record Waits {ℓ} {A : Type ℓ} (m : Action A) : Type ℓ where
  pub waiting : (w : World) → (m w).0 ≡ blocked → IsWaiting w

pub of_result-ne {ℓ} : {A : Type ℓ} (r : Result A) → of_result r ≢ blocked
of_result-ne (ok a) h = ground arith
of_result-ne (throw e) h = ground arith

of_option-ne {ℓ} : {A : Type ℓ} (o : Option A) → of_option o ≢ blocked
of_option-ne (some a) h = ground arith
of_option-ne none h = ground arith

module _ {ℓ} {A : Type ℓ} where
  pub Prompt-pure : (a : A) → Prompt (pure a)
  unfolding pure
  Prompt-pure a = record { ends = λ w h. ground arith }

  pub Prompt-raise : (e : Exception) → Prompt (raise {A = A} e)
  unfolding raise
  Prompt-raise e = record { ends = λ w h. ground arith }

  pub Quiet-pure : (a : A) → Quiet (pure a)
  unfolding pure
  Quiet-pure a = record { ends = λ w h. ground arith; server = λ w. refl; same = λ w. refl }

  pub Quiet-raise : (e : Exception) → Quiet (raise {A = A} e)
  unfolding raise
  Quiet-raise e = record { ends = λ w h. ground arith; server = λ w. refl; same = λ w. refl }

  pub Quiet-undefined : Quiet (undefined_behaviour {A = A})
  unfolding undefined_behaviour
  Quiet-undefined = record { ends = λ w h. ground arith; server = λ w. refl; same = λ w. refl }

  pub Quiet-lift : (r : Result A) → Quiet (lift r)
  unfolding lift
  Quiet-lift r = record { ends = λ w. of_result-ne r; server = λ w. refl; same = λ w. refl }

  pub Quiet-checked : (o : Option A) → Quiet (checked o)
  unfolding checked
  Quiet-checked o = record { ends = λ w. of_option-ne o; server = λ w. refl; same = λ w. refl }

  pub Quiet-gets : (f : World → A) → Quiet (gets f)
  unfolding gets
  Quiet-gets f = record { ends = λ w h. ground arith; server = λ w. refl; same = λ w. refl }

  pub Quiet-if : (b : Bool) (m k : Action A) → Quiet m → Quiet k → Quiet (if b then m else k)
  Quiet-if true m k qm qk = qm
  Quiet-if false m k qm qk = qk

  pub Prompt-if : (b : Bool) (m k : Action A) → Prompt m → Prompt k → Prompt (if b then m else k)
  Prompt-if true m k qm qk = qm
  Prompt-if false m k qm qk = qk

  pub Waits-if : (b : Bool) (m k : Action A) → Waits m → Waits k → Waits (if b then m else k)
  Waits-if true m k qm qk = qm
  Waits-if false m k qm qk = qk

  pub Quiet-Prompt : (m : Action A) → Quiet m → Prompt m
  Quiet-Prompt m q = record { ends = q.ends }

  pub Prompt-Waits : (m : Action A) → Prompt m → Waits m
  Prompt-Waits m q = record { waiting = λ w h. absurd (q.ends w h) }

module _ {ℓ κ} {A : Type ℓ} {B : Type κ} where
  pub Prompt-bind :
      (m : Action A) (f : A → Action B) → Prompt m → ((a : A) → Prompt (f a)) → Prompt (m >>= f)
  unfolding ◌>>=◌
  Prompt-bind m f pm pf = record { ends = λ w. go (m w).0 (m w).1 (pm.ends w) }
    where
      go : (o : Outcome A) (w : World) → o ≢ blocked → (continue o f w).0 ≢ blocked
      go (returned a) w n h = (pf a).ends w h
      go (raised e) w n h = ground arith
      go blocked w n h = n refl
      go undefined w n h = ground arith

  pub Quiet-bind :
      (m : Action A) (f : A → Action B) → Quiet m → ((a : A) → Quiet (f a)) → Quiet (m >>= f)
  unfolding ◌>>=◌
  Quiet-bind m f qm qf = record {
    ends = λ w. ends (m w).0 (m w).1 (qm.ends w);
    server = λ w. server (m w).0 (m w).1 ∙ qm.server w;
    same = λ w. same (m w).0 (m w).1 ∙ qm.same w;
  }
    where
      ends : (o : Outcome A) (w : World) → o ≢ blocked → (continue o f w).0 ≢ blocked
      ends (returned a) w n h = (qf a).ends w h
      ends (raised e) w n h = ground arith
      ends blocked w n h = n refl
      ends undefined w n h = ground arith

      server : (o : Outcome A) (w : World) → (continue o f w).1.server ≡ w.server
      server (returned a) w = (qf a).server w
      server _ w = refl

      same :
          (o : Outcome A) (w : World)
          → (continue o f w).1.conn.m_in_transaction ≡ w.conn.m_in_transaction
      same (returned a) w = (qf a).same w
      same _ w = refl

  -- It waits only in its first part.
  pub Waits-first :
      (m : Action A) (f : A → Action B) (w : World)
      → ((a : A) → Prompt (f a))
      → ((m >>= f) w).0 ≡ blocked
      → (m w).0 ≡ blocked
  unfolding ◌>>=◌
  Waits-first m f w pf h = go (m w).0 (m w).1 h
    where
      go : (o : Outcome A) (v : World) → (continue o f v).0 ≡ blocked → o ≡ blocked
      go (returned a) v k = absurd ((pf a).ends v k)
      go (raised e) v k = ground arith
      go blocked v k = refl
      go undefined v k = ground arith

  pub Waits-bind_first :
      (m : Action A) (f : A → Action B) → Waits m → ((a : A) → Prompt (f a)) → Waits (m >>= f)
  Waits-bind_first m f wm pf = record { waiting = λ w h. wm.waiting w (Waits-first m f w pf h) }

  -- It waits only in its second part.
  pub Waits-bind :
      (m : Action A) (f : A → Action B) → Quiet m → ((a : A) → Waits (f a)) → Waits (m >>= f)
  unfolding ◌>>=◌
  Waits-bind m f qm wf = record { waiting = λ w h. back w (go (m w).0 (m w).1 (qm.ends w) h) }
    where
      go : (o : Outcome A) (w : World) → o ≢ blocked → (continue o f w).0 ≡ blocked → IsWaiting w
      go (returned a) w n h = (wf a).waiting w h
      go (raised e) w n h = absurd (ground arith)
      go blocked w n h = absurd (n refl)
      go undefined w n h = absurd (ground arith)

      back : (w : World) → IsWaiting (m w).1 → IsWaiting w
      back w (idle, p, j, e) = (
        sym (qm.same w) ∙ idle,
        p,
        j,
        ap (λ srv. (srv.cell p).table_mutex) (sym (qm.server w)) ∙ e,
      )

pub ruleset prompt_rules = (
  Prompt-bind, Prompt-if, Quiet-Prompt, Quiet-pure, Quiet-raise, Quiet-undefined, Quiet-lift,
  Quiet-checked, Quiet-gets,
)

pub ruleset quiet_rules = (
  Quiet-bind, Quiet-if, Quiet-pure, Quiet-raise, Quiet-undefined, Quiet-lift, Quiet-checked,
  Quiet-gets,
)
