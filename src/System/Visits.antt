-- ===== src/System/Visits.antt =====
-- client_connection.cpp: steps finer than a round. The loops over `locked_tables` of a commit, of the
-- handler of `FailedTransaction` and of the destructor visit one table in a step, in any order, and
-- the other threads make steps in between. While its loop runs, `locked_tables` of a connection is
-- what the loop has still to visit; the source empties the set behind the loop.
pub mod Safety
pub mod Loops
use a_multi_threaded_key_val.Prelude.{
  ℕ, ◌≡◌, Bool, true, false, Option, none, some, List, [], ◌∷◌, ◌==◌, mem, if◌then◌else◌,
}
use a_multi_threaded_key_val.Prelude.Family.{update}
use a_multi_threaded_key_val.Prelude.Int.{ℤ}
use a_multi_threaded_key_val.Text.{Str}
use a_multi_threaded_key_val.Exceptions.{ok, failed_transaction}
use a_multi_threaded_key_val.Message.{MessageType, message}
use a_multi_threaded_key_val.Serialization.{decode}
use a_multi_threaded_key_val.Table.{Table}
use a_multi_threaded_key_val.Connection.{
  World, Action, returned, raised, lift, pure, ◌>>=◌, ◌>>◌, set_conn, set_table, table_at,
  commit_and_unlock, rollback_and_unlock,
}
use a_multi_threaded_key_val.Connection.Handlers.{handle_commit}
use a_multi_threaded_key_val.Connection.Chat.{c_string, serve, recover, chat_step}
use a_multi_threaded_key_val.System.{System, Step, init, view, install, proceed}

-- The loop that a thread is in: that of a commit, of a failed transaction with its text, or of the
-- destructor.
pub data Ending : Type 0 where
  committing : Ending
  rolling_back : Str → Ending
  closing : Ending

-- The body of the loop.
abbrev pub on_table : Ending → Table → Table
on_table committing = commit_and_unlock
on_table (rolling_back what) = rollback_and_unlock
on_table closing = rollback_and_unlock

-- What stands behind the loop; with no table left, the loops of `handle_commit` and of the handler
-- do nothing.
unfoldable pub afterwards : Ending → Action Bool
unfolding ◌>>=◌ pure handle_commit recover
afterwards committing = do handle_commit; pure true
afterwards (rolling_back what) = recover (failed_transaction what)
afterwards closing = pure false

abbrev pub without : ℕ → List ℕ → List ℕ
without p [] = []
without p (q ∷ qs) = let rest = without p qs in if p == q then rest else q ∷ rest

-- The loop visits the table at `p`.
unfoldable pub visited : Ending → ℕ → World → World
visited e p w =
    set_conn (λ c. record c { locked_tables = without p c.locked_tables })
      (set_table p (on_table e (table_at p w)) w)

pub record Threads : Type 0 where
  pub system : System
  pub ending : ℕ → Option Ending

-- How thread `i` comes to a loop, with what it has done before.
pub data Begins (i : ℕ) (s : System) : Ending → World → Type 0 where
  commits :
      (buf : Str)
      → decode (c_string buf) ≡ ok (message MessageType.commit [])
      → (s.conns i).m_logged_in ≡ true
      → (s.conns i).m_in_transaction ≡ true
      → Begins i s committing (view i s)
  fails :
      (buf what : Str)
      → ((lift (decode (c_string buf)) >>= serve) (view i s)).0 ≡ raised (failed_transaction what)
      → Begins i s (rolling_back what) ((lift (decode (c_string buf)) >>= serve) (view i s)).1
  leaves :
      (buf : Str)
      → (chat_step buf (view i s)).0 ≡ returned false
      → Begins i s closing (chat_step buf (view i s)).1
  hangs_up : Begins i s closing (view i s)

-- A step by thread `i`: a step of the system, or a part of one.
pub data FineStep (i : ℕ) (s : Threads) : Threads → Type 0 where
  whole :
      {t : System} → s.ending i ≡ none → Step i s.system t → FineStep i s (record s { system = t })
  begins :
      {e : Ending} {w : World}
      → s.ending i ≡ none
      → s.system.alive i ≡ true
      → Begins i s.system e w
      → FineStep i s (record { system = install i w s.system; ending = update s.ending i (some e) })
  visits :
      (e : Ending) (p : ℕ)
      → s.ending i ≡ some e
      → s.system.alive i ≡ true
      → mem p (s.system.conns i).locked_tables ≡ true
      → FineStep i s (record s { system = install i (visited e p (view i s.system)) s.system })
  ends :
      (e : Ending) (active : Bool)
      → s.ending i ≡ some e
      → s.system.alive i ≡ true
      → (s.system.conns i).locked_tables ≡ []
      → (afterwards e (view i s.system)).0 ≡ returned active
      → FineStep i s (record {
        system = proceed i active (afterwards e (view i s.system)).1 s.system;
        ending = update s.ending i none;
      })

pub data FineReach (codes : ℕ → ℕ) : Threads → Type 0 where
  fine_start : (fd : ℤ) → FineReach codes (record { system = init codes fd; ending = λ i. none })
  fine_next : {s t : Threads} → FineReach codes s → (i : ℕ) → FineStep i s t → FineReach codes t
