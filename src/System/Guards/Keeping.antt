-- ===== src/System/Guards/Keeping.antt =====
-- A thread that is in the block of a Guard counts as one that has locked the table of the Guard, and
-- so it keeps the invariant of a connection when it comes to the block.
use a_multi_threaded_key_val.Prelude.{
  ℕ, ◌<◌, ◌≡◌, refl, true, false, Option, none, some, [], ◌∷◌, arith, ==_refl, Option-cases, inl,
  inr,
}
use a_multi_threaded_key_val.Table.{Table, lock}
use a_multi_threaded_key_val.Table.Laws.{lock_free, lock_taken}
use a_multi_threaded_key_val.ValueStack
use a_multi_threaded_key_val.Connection.{Connection, World, set_table, table_at}
use a_multi_threaded_key_val.Connection.Invariant.{IsSound, Frame}
use a_multi_threaded_key_val.System.{System, view}
use a_multi_threaded_key_val.System.Guards.{Block, Enters, gets_in, sets_in}

-- The connection of a thread, with the table of its Guard.
abbrev pub counted : Option (Block × ℕ) → Connection → Connection
counted none c = c
counted (some (b, p)) c = record c { m_in_transaction = true; locked_tables = p ∷ [] }

abbrev pub counting : Option (Block × ℕ) → World → World
counting o w = record w { conn = counted o w.conn }

-- The mutex of a table that was free.
pub locked-free :
    (i : ℕ) (t u : Table)
    → lock i t ≡ some u
    → (t.table_mutex ≡ none) × (u ≡ record t { table_mutex = some i })
locked-free i t u h = elim (Option-cases t.table_mutex) [
  | inl free ↦ (free, ground (arith, h, lock_free i t free))
  | inr (j, taken) ↦ absurd (ground (arith, h, lock_taken i t j taken))
]

-- The world behind `lock`.
module _ (v : World) (s : IsSound v) (out : v.conn.m_in_transaction ≡ false) (p : ℕ) (b : Block)
    (stack : ValueStack.ValueStack) (used : p < v.server.allocated)
    (free : (table_at p v).table_mutex ≡ none) where
  abbrev pub entered : World
  entered =
      set_table p (record (table_at p v) { table_mutex = some v.conn.thread })
        (record v { conn = record (v.conn) { m_stack = stack } })

  pub entered-keeps :
      IsSound (counting (some (b, p)) entered) × Frame v (counting (some (b, p)) entered)
  entered-keeps = (
    record {
      locks = λ q. ground (arith, s.locks q, s.quiet out, ==_refl v.conn.thread);
      clean = λ q h. ground (arith, h, s.clean q);
      quiet = λ h. ground (arith, h);
      fresh = λ q h. ground (arith, h, s.fresh q, used);
      named = s.named;
    },
    record {
      thread = refl;
      grows = omega arith;
      kept = λ q j h n. ground (arith, h, n, free);
      taken = λ q j h n. ground (arith, h, n);
    },
  )

-- What a thread that has come to a block has done.
pub record Entered (s : System) (i : ℕ) (b : Block) (p : ℕ) (w : World) : Type 0 where
  pub sound : IsSound (counting (some (b, p)) w)
  pub frame : Frame (view i s) (counting (some (b, p)) w)
  pub empty : (table_at p w).key_value_temp ≡ []
  pub idle : w.conn.m_in_transaction ≡ false
  pub alone : w.conn.locked_tables ≡ []

pub Enters-Entered :
    {i : ℕ} {s : System} {b : Block} {p : ℕ} {w : World}
    → IsSound (view i s)
    → Enters i s b p w
    → Entered s i b p w
Enters-Entered {i} {s} {b} {p} sv (gets_in buf name key _ t d user out found locked) =
    let (free, now) = locked-free (s.conns i).thread (s.server.cell p) t locked in
    let (sw, f) =
      entered-keeps (view i s) sv out p b (s.conns i).m_stack (sv.named name p found) free in
    rw now (record {
      sound = sw;
      frame = f;
      empty = ground (arith, ==_refl p, sv.clean p free);
      idle = out;
      alone = sv.quiet out;
    })
Enters-Entered {i} {s} {b} {p} sv
      (sets_in buf name key value rest _ t d user out top found locked) =
    let (free, now) = locked-free (s.conns i).thread (s.server.cell p) t locked in
    let (sw, f) =
      entered-keeps (view i s) sv out p b (record { m_vector = rest }) (sv.named name p found)
        free in
    rw now (record {
      sound = sw;
      frame = f;
      empty = ground (arith, ==_refl p, sv.clean p free);
      idle = out;
      alone = sv.quiet out;
    })
