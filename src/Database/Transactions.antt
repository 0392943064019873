-- ===== src/Database/Transactions.antt =====
-- client_connection.cpp: BEGIN, COMMIT and what is no request, against the database.
use a_multi_threaded_key_val.Prelude.{ℕ, ◌≡◌, refl, sym, ◌∙◌, Bool, true, false, List}
use a_multi_threaded_key_val.Text.{Str, codes}
use a_multi_threaded_key_val.Exceptions.{failed_transaction, invalid_message}
use a_multi_threaded_key_val.Message.{MessageType, message}
use a_multi_threaded_key_val.Serialization.{encode}
use a_multi_threaded_key_val.Table.Refinement.{spec_commit, spec_rollback, IsWellFormed}
use a_multi_threaded_key_val.Server.{Server}
use a_multi_threaded_key_val.Connection.{
  World, raised, lift, gets, modify, pure, raise, ◌>>=◌, respond, for_each_table, end_transaction,
  rollback_and_unlock, commit_and_unlock, mem, table_at,
}
use a_multi_threaded_key_val.Connection.Transactions.{
  commit_and_unlock-IsEnding, rollback_and_unlock-IsEnding,
}
use a_multi_threaded_key_val.Connection.Handlers.{handle_begin, handle_commit}
use a_multi_threaded_key_val.Connection.Chat.{needs_login, dispatch, serve, catch}
use a_multi_threaded_key_val.Database.{Request, end_all, abort, owned, perform, answer}
use a_multi_threaded_key_val.Database.Abstraction.{
  database, client, owned-owns, database-for_each_table, commit_and_unlock-Means,
  rollback_and_unlock-Means,
}
use a_multi_threaded_key_val.Connection.Invariant.{IsSound}
use a_multi_threaded_key_val.Database.Rounds.{
  request_of, Refines, Meets, Ready, world, recover-failure, recover-abort, recover-rejection,
}

module _ (w : World) (sound : IsSound w) where
  owned_tables :
      (p : ℕ) → mem p w.conn.locked_tables ≡ owned w.conn.thread (w.server.cell p).table_mutex
  owned_tables p = sound.locks p ∙ sym (owned-owns w.conn.thread (w.server.cell p).table_mutex)

  database-commit :
      ((p : ℕ) → IsWellFormed (table_at p w))
      → database (for_each_table commit_and_unlock w.conn.locked_tables w.server)
        ≡ end_all spec_commit w.conn.thread (database w.server)
  database-commit formed =
      database-for_each_table commit_and_unlock spec_commit commit_and_unlock-IsEnding w.conn.thread
        w.conn.locked_tables w.server (λ p. commit_and_unlock-Means (table_at p w) (formed p))
        owned_tables

  pub database-rollback :
      database (for_each_table rollback_and_unlock w.conn.locked_tables w.server)
      ≡ end_all spec_rollback w.conn.thread (database w.server)
  database-rollback =
      database-for_each_table rollback_and_unlock spec_rollback rollback_and_unlock-IsEnding
        w.conn.thread w.conn.locked_tables w.server (λ p. rollback_and_unlock-Means (table_at p w))
        owned_tables

-- A transaction that ends by an exception.
pub abort-Refines :
    (what : Str) (w : World)
    → Ready w
    → Refines w.conn.written
        (abort w.conn.thread what (database w.server) (client w.conn))
        (catch (raised (failed_transaction what)) w)
unfolding end_transaction
abort-Refines what w ready = (
  end_transaction rollback_and_unlock w,
  recover-abort what w,
  database-rollback w ready.sound,
  refl,
  refl,
)

module _ (srv : Server) (i : ℕ) (vs : List Str) (ps : List ℕ) (texts : List Str) where
  abbrev at : Bool → World
  at busy = world srv i vs true busy ps texts

  pub begin-Meets :
      (busy : Bool) (args : List Str) → Ready (at busy) → Meets MessageType.begin args (at busy)
  unfolding answer perform serve dispatch handle_begin ◌>>=◌ gets pure raise modify respond lift
      encode
  begin-Meets true args ready = abort-Refines _ (at true) ready
  begin-Meets false args ready = (at true, refl, refl, refl, refl)

  pub commit-Meets :
      (busy : Bool) (args : List Str) → Ready (at busy) → Meets MessageType.commit args (at busy)
  unfolding answer perform serve dispatch handle_commit ◌>>=◌ gets pure raise modify respond lift
      encode end_transaction
  commit-Meets true args ready = (
    end_transaction commit_and_unlock (at true),
    refl,
    database-commit (at true) ready.sound ready.formed,
    refl,
    refl,
  )
  commit-Meets false args ready = (at false, recover-failure _ _, refl, refl, refl)

  -- A message that is a response, or none.
  pub unknown-Meets :
      (busy : Bool) (t : MessageType) (args : List Str)
      → request_of t args ≡ Request.unknown
      → needs_login t ≡ true
      → dispatch t (message t args)
        ≡ raise (invalid_message (codes "Unknown or invalid command received"))
      → Meets t args (at busy)
  unfolding answer perform serve ◌>>=◌ gets raise
  unknown-Meets busy t args unknown need refused =
      rw (unknown, need, refused) (at busy, recover-rejection _ _, refl, refl, refl)
