-- ===== src/Connection/Endings.antt =====
-- client_connection.cpp: the rounds that end a transaction, by a conflict or by a commit.
use a_multi_threaded_key_val.Prelude.{
  ℕ, ◌≤◌, ◌<◌, ◌≡◌, refl, ◌∙◌, true, false, some, [], ◌∷◌, ◌++◌, length, arith, if◌then◌else◌, none,
  sym,
}
use a_multi_threaded_key_val.Text.{Str, codes}
use a_multi_threaded_key_val.Map.{find}
use a_multi_threaded_key_val.Exceptions.{ok, invalid_message, failed_transaction}
use a_multi_threaded_key_val.Message.{MessageType, message, get_table, get_key}
use a_multi_threaded_key_val.Serialization.{encode, decode}
use a_multi_threaded_key_val.Table.{Table, commit_changes, rollback_changes, unlock}
use a_multi_threaded_key_val.Table.Laws.{trylock_taken}
use a_multi_threaded_key_val.Server.{find_table}
use a_multi_threaded_key_val.Connection.{
  World, returned, raised, lift, gets, modify, pure, checked, ◌>>=◌, mem, table_at, respond,
  join_transaction, end_transaction, rollback_and_unlock, commit_and_unlock,
}
use a_multi_threaded_key_val.Connection.Handlers.{server_find_table, handle_get, handle_commit}
use a_multi_threaded_key_val.Connection.Chat.{c_string, dispatch, serve, recover, chat_step}
use a_multi_threaded_key_val.Connection.Transactions.{
  IsEnding, commit_and_unlock-IsEnding, rollback_and_unlock-IsEnding, cell-end_transaction,
}
use a_multi_threaded_key_val.Connection.Tidy.{AllFormed}
use a_multi_threaded_key_val.Table.Refinement.{spec, spec_lookup, IsWellFormed, find-assign_all}
use mathlib.Core.Path.{subst}
use a_multi_threaded_key_val.Connection.Arithmetic.{with_text}
use a_multi_threaded_key_val.Connection.Rounds.{
  failed_text, respond-eq, encode-failed, encode-failed_long, chat_step-serve,
}

-- A table without its pending entries, and with a free mutex.
abbrev pub cleared : Table → Table
cleared t = record t { key_value_temp = []; table_mutex = none }

-- In `u` every key has the value that was pending for it in `t`, or else the one it had before. Nothing
-- is pending in `u`, and its mutex is free.
pub record Published (t u : Table) : Type 0 where
  pub name : u.m_name ≡ t.m_name
  pub entries : (key : Str) → find key u.key_value ≡ spec_lookup key (spec t)
  pub pending : u.key_value_temp ≡ []
  pub mutex : u.table_mutex ≡ none

commit_and_unlock-Published : (t : Table) → IsWellFormed t → Published t (commit_and_unlock t)
unfolding commit_and_unlock commit_changes unlock
commit_and_unlock-Published t h = record {
  name = refl;
  entries = λ key. find-assign_all t.key_value_temp t.key_value key h.1;
  pending = refl;
  mutex = refl;
}

rollback_and_unlock-eq : rollback_and_unlock ≡ cleared
unfolding rollback_and_unlock rollback_changes unlock
rollback_and_unlock-eq = refl

-- The transaction of `v` is over in `w`: `f` was applied to each table that was locked.
pub record EndedBy (f : Table → Table) (v w : World) : Type 0 where
  pub in_transaction : w.conn.m_in_transaction ≡ false
  pub locked : w.conn.locked_tables ≡ []
  pub tables :
      (q : ℕ)
      → table_at q w ≡ (if mem q v.conn.locked_tables then f (table_at q v) else table_at q v)

pub end_transaction-EndedBy :
    (f : Table → Table) (text : Str) (w : World)
    → IsEnding f
    → EndedBy f w (with_text text (end_transaction f w))
end_transaction-EndedBy f text w e = record {
  in_transaction = unfold end_transaction in refl;
  locked = unfold end_transaction in refl;
  tables = cell-end_transaction f e w;
}

abbrev pub conflict : Str → Str
conflict name = codes "Could not acquire lock on table " ++ name

-- The answer to a `FailedTransaction`, where the text fits a message and where it does not.
pub recover-failed :
    (what : Str) (w : World)
    → length what ≤ 1016
    → recover (failed_transaction what) w
      ≡ (returned true, with_text (failed_text what) (end_transaction rollback_and_unlock w))
unfolding recover ◌>>=◌ pure modify
recover-failed what w h =
    rw (respond-eq _ _ (end_transaction rollback_and_unlock w) (encode-failed what h))

recover-failed_long :
    (what : Str) (w : World)
    → 1016 < length what
    → recover (failed_transaction what) w ≡ (
      raised (invalid_message (codes "Encoded message exceeds maximum length")),
      end_transaction rollback_and_unlock w,
    )
unfolding recover ◌>>=◌ modify respond
recover-failed_long what w h = rw (encode-failed_long what h)

pub rolled_back-committed :
    (w : World) (q : ℕ)
    → (table_at q (end_transaction rollback_and_unlock w)).key_value ≡ (table_at q w).key_value
rolled_back-committed w q =
    rw (cell-end_transaction rollback_and_unlock rollback_and_unlock-IsEnding w q)
      (unfold rollback_and_unlock in ground arith)

module _ (buf name key : Str) (w : World) (p j : ℕ)
    (line : decode (c_string buf) ≡ ok (message MessageType.get (name ∷ key ∷ [])))
    (logged_in : w.conn.m_logged_in ≡ true) (busy : w.conn.m_in_transaction ≡ true)
    (found : find name w.server.set_of_table ≡ some p) (other : mem p w.conn.locked_tables ≡ false)
    (taken : (table_at p w).table_mutex ≡ some j) where
  serve-conflict :
      serve (message MessageType.get (name ∷ key ∷ [])) w
      ≡ (raised (failed_transaction (conflict name)), w)
  unfolding serve dispatch handle_get ◌>>=◌ gets checked get_table get_key server_find_table
      find_table lift join_transaction
  serve-conflict =
      rw (logged_in, found, busy, other, trylock_taken w.conn.thread (table_at p w) j taken)

  -- In a transaction of a connection that has logged in, a GET from a table that it has not locked, and
  -- whose mutex is taken, is answered with FAILED and ends the transaction: every locked table loses
  -- its pending entries and is free, all else of it and every other table stay as they were, so no
  -- committed entry of any table changes, and the loop goes on. The name has at most 984 bytes.
  pub conflict_rolls_back :
      length name ≤ 984
      → let v = (chat_step buf w).1 in
        ((chat_step buf w).0 ≡ returned true)
        × EndedBy cleared w v
        × ((q : ℕ) → (table_at q v).key_value ≡ (table_at q w).key_value)
        × (v.conn.written ≡ failed_text (conflict name) ∷ w.conn.written)
  conflict_rolls_back short =
      rw
        (chat_step-serve buf w w _ _ line serve-conflict
          ∙ recover-failed (conflict name) w (omega arith))
        (
          refl,
          subst
              (λ f.
                EndedBy f w
                  (with_text (failed_text (conflict name)) (end_transaction rollback_and_unlock w)))
              rollback_and_unlock-eq
              (end_transaction-EndedBy rollback_and_unlock (failed_text (conflict name)) w
                rollback_and_unlock-IsEnding),
          rolled_back-committed w,
          unfold end_transaction in refl,
        )

  -- In a transaction, after a GET from a table whose mutex another connection holds and whose name
  -- has more than 984 bytes, the answer is too long for `encode`: the exception leaves
  -- `chat_with_client`.
  pub long_conflict_escapes :
      984 < length name
      → (chat_step buf w).0
        ≡ raised (invalid_message (codes "Encoded message exceeds maximum length"))
  long_conflict_escapes long =
      rw (chat_step-serve buf w w _ _ line serve-conflict)
        (rw (recover-failed_long (conflict name) w (omega arith)))

module _ (buf : Str) (w : World) (line : decode (c_string buf) ≡ ok (message MessageType.commit []))
    (logged_in : w.conn.m_logged_in ≡ true) where
  serve-commit :
      w.conn.m_in_transaction ≡ true
      → serve (message MessageType.commit []) w
        ≡ (returned true, with_text (codes "OK" ++ 10 ∷ []) (end_transaction commit_and_unlock w))
  unfolding serve dispatch handle_commit ◌>>=◌ gets modify pure respond encode lift
  serve-commit busy = rw (logged_in, busy)

  -- In a transaction of a connection that has logged in, where the pending entries of each table have
  -- distinct keys, and so have the committed ones, COMMIT is answered with OK. In every locked table each
  -- key has the value that was pending for it, or else the one it had; nothing is pending any more, and
  -- the mutex is free. No other table changes, the transaction is over and the loop goes on.
  pub commit_publishes :
      w.conn.m_in_transaction ≡ true
      → AllFormed w.server
      → let v = (chat_step buf w).1 in
        ((chat_step buf w).0 ≡ returned true)
        × (v.conn.m_in_transaction ≡ false)
        × (v.conn.locked_tables ≡ [])
        × ((q : ℕ) → mem q w.conn.locked_tables ≡ true → Published (table_at q w) (table_at q v))
        × ((q : ℕ) → mem q w.conn.locked_tables ≡ false → table_at q v ≡ table_at q w)
        × (v.conn.written ≡ (codes "OK" ++ 10 ∷ []) ∷ w.conn.written)
  commit_publishes busy formed =
      let e =
        end_transaction-EndedBy commit_and_unlock (codes "OK" ++ 10 ∷ []) w
          commit_and_unlock-IsEnding in
      rw (chat_step-serve buf w _ _ _ line (serve-commit busy)) (
        refl,
        e.in_transaction,
        e.locked,
        λ q h.
            subst (Published (table_at q w)) (sym (e.tables q ∙ rw h refl))
              (commit_and_unlock-Published (table_at q w) (formed q)),
        λ q h. e.tables q ∙ rw h refl,
        unfold end_transaction in refl,
      )
