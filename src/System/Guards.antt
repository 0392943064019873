-- ===== src/System/Guards.antt =====
-- client_connection.cpp and guard.h: steps finer than a round. A GET or SET outside a transaction takes
-- the mutex of its table in one step, and does the block of its Guard, leaves it and answers in another;
-- the other threads make steps in between, with a `trylock` that fails or a `lock` that waits.
pub mod Effects
pub mod Rounds
pub mod Keeping
pub mod Leaving
pub mod Effective
pub mod Invariant
pub mod Safety
use a_multi_threaded_key_val.Prelude.{
  ℕ, ◌≡◌, Bool, true, false, Option, none, some, List, [], ◌∷◌, ◌==◌, if◌then◌else◌, refl,
}
use a_multi_threaded_key_val.Prelude.Family.{update}
use a_multi_threaded_key_val.Prelude.Int.{ℤ}
use a_multi_threaded_key_val.Text.{Str}
use a_multi_threaded_key_val.Map.{find}
use a_multi_threaded_key_val.Exceptions.{ok}
use a_multi_threaded_key_val.Message.{MessageType, message}
use a_multi_threaded_key_val.Serialization.{decode}
use a_multi_threaded_key_val.Table.{Table, lock, unlock}
use a_multi_threaded_key_val.Connection.{
  Connection, World, Action, Outcome, returned, pure, continue, ◌>>=◌, ◌>>◌, set_conn, set_table,
  table_at, respond, table_get, table_set, table_commit, stack_push,
}
use a_multi_threaded_key_val.Connection.Handlers.{ok_response}
use a_multi_threaded_key_val.Connection.Chat.{c_string, catch}
use a_multi_threaded_key_val.Connection.Arithmetic.{with_stack}
use a_multi_threaded_key_val.System.{System, Step, init, view, install, proceed, Reach, start, next}

-- The block of a Guard: that of `handle_get`, or of `handle_set` with the value that it has taken off
-- the stack.
pub data Block : Type 0 where
  reading : Str → Block
  writing : Str → Str → Block

unfoldable pub in_block : Block → ℕ → Action (Unit {0})
in_block (reading key) p = do value ← table_get p key; stack_push value
in_block (writing key value) p = do table_set p key value; table_commit p

-- The destructor of the Guard, and what stands behind the block; an exception of the block goes to the
-- handlers of the loop.
abbrev pub out_of_block : ℕ → Outcome (Unit {0}) × World → Outcome Bool × World
out_of_block p (o, w) =
    let (a, v) = continue o (λ u. respond ok_response) (set_table p (unlock (table_at p w)) w) in
    let (b, x) = continue a (λ u. pure true) v in catch b x

unfoldable pub left : Block → ℕ → Action Bool
unfolding in_block
left b p w = out_of_block p (in_block b p w)

-- How thread `i` comes to the block `b` on the table at `p`, in the world behind `lock`.
pub data Enters (i : ℕ) (s : System) : Block → ℕ → World → Type 0 where
  gets_in :
      (buf name key : Str) (p : ℕ) (t : Table)
      → decode (c_string buf) ≡ ok (message MessageType.get (name ∷ key ∷ []))
      → (s.conns i).m_logged_in ≡ true
      → (s.conns i).m_in_transaction ≡ false
      → find name s.server.set_of_table ≡ some p
      → lock (s.conns i).thread (s.server.cell p) ≡ some t
      → Enters i s (reading key) p (set_table p t (view i s))
  sets_in :
      (buf name key value : Str) (rest : List Str) (p : ℕ) (t : Table)
      → decode (c_string buf) ≡ ok (message MessageType.set (name ∷ key ∷ []))
      → (s.conns i).m_logged_in ≡ true
      → (s.conns i).m_in_transaction ≡ false
      → (s.conns i).m_stack.m_vector ≡ value ∷ rest
      → find name s.server.set_of_table ≡ some p
      → lock (s.conns i).thread (s.server.cell p) ≡ some t
      → Enters i s (writing key value) p (set_table p t (with_stack rest (view i s)))

-- `inside i` is the block that thread `i` is in, with its table.
pub record Workers : Type 0 where
  pub system : System
  pub inside : ℕ → Option (Block × ℕ)

-- A step by thread `i`: a step of the system, or a part of one.
pub data GuardStep (i : ℕ) (s : Workers) : Workers → Type 0 where
  outside :
      {t : System} → s.inside i ≡ none → Step i s.system t → GuardStep i s (record s { system = t })
  enters :
      {b : Block} {p : ℕ} {w : World}
      → s.inside i ≡ none
      → s.system.alive i ≡ true
      → Enters i s.system b p w
      → GuardStep i s
          (record { system = install i w s.system; inside = update s.inside i (some (b, p)) })
  leaves :
      (b : Block) (p : ℕ) (active : Bool)
      → s.inside i ≡ some (b, p)
      → s.system.alive i ≡ true
      → (left b p (view i s.system)).0 ≡ returned active
      → GuardStep i s (record {
        system = proceed i active (left b p (view i s.system)).1 s.system;
        inside = update s.inside i none;
      })

pub data GuardReach (codes : ℕ → ℕ) : Workers → Type 0 where
  guard_start : (fd : ℤ) → GuardReach codes (record { system = init codes fd; inside = λ i. none })
  guard_next : {s t : Workers} → GuardReach codes s → (i : ℕ) → GuardStep i s t → GuardReach codes t

-- The steps of the system are among these.
pub Reach-GuardReach :
    {codes : ℕ → ℕ} {s : System}
    → Reach codes s
    → GuardReach codes (record { system = s; inside = λ i. none })
Reach-GuardReach (start fd) = guard_start fd
Reach-GuardReach (next r i st) = guard_next (Reach-GuardReach r) i (outside refl st)
