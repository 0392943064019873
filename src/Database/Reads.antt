-- ===== src/Database/Reads.antt =====
-- client_connection.cpp: GET, against the database.
use a_multi_threaded_key_val.Prelude.{
  ℕ, ◌≡◌, refl, sym, ap, ◌∙◌, Bool, true, false, Option, none, some, List, [], ◌∷◌, arith, ==_refl,
  Option-cases, inl, inr,
}
use a_multi_threaded_key_val.Text.{Str, codes}
use a_multi_threaded_key_val.Map.{find}
use a_multi_threaded_key_val.Exceptions.{operation_exception, failed_transaction}
use a_multi_threaded_key_val.Message.{MessageType, get_table, get_key}
use a_multi_threaded_key_val.Serialization.{encode}
use a_multi_threaded_key_val.Table
use a_multi_threaded_key_val.Table.{Table, unlock}
use a_multi_threaded_key_val.Table.Laws.{lock_free, lock_taken}
use a_multi_threaded_key_val.Table.Refinement.{
  spec, or_failure, table_refines_spec, IsWellFormed, spec_lookup,
}
use a_multi_threaded_key_val.ValueStack
use a_multi_threaded_key_val.Server.Tables.{IsIndexed}
use a_multi_threaded_key_val.Server.{Server, set_cell, find_table}
use a_multi_threaded_key_val.Connection.{
  World, returned, lift, gets, modify, pure, checked, ◌>>=◌, respond, table_get, stack_push,
  with_guard, join_transaction, raised,
}
use a_multi_threaded_key_val.Connection.Handlers.{ok_response, handle_get, server_find_table}
use a_multi_threaded_key_val.Connection.Chat.{dispatch, serve, recover, catch}
use a_multi_threaded_key_val.Database.{
  perform, answer, Verdict, Request, fetched, get_alone, get_within, waits, acquire, conflict_text,
}
use a_multi_threaded_key_val.Database.Abstraction.{entry, database, client}
use a_multi_threaded_key_val.Database.Tables.{with_owner, entry-with_owner, database-same}
use a_multi_threaded_key_val.Database.Acquisition.{Missed, acquisition}
use a_multi_threaded_key_val.Database.Transactions.{abort-Refines}
use a_multi_threaded_key_val.Database.Rounds.{
  delivered, served, Refines, Meets, Ready, world, recover-failure,
}

-- What `get` finds in a table that has no pending entries.
get-committed :
    (key : Str) (t : Table)
    → t.key_value_temp ≡ []
    → Table.get key t ≡ or_failure (find key t.key_value)
unfolding Table.get find
get-committed key t clean = ground (arith, clean)

module _ (name key : Str) (srv : Server) (i p : ℕ) (vs : List Str) (texts : List Str)
    (found : find name srv.set_of_table ≡ some p) where
  abbrev held : Table
  held = srv.cell p

  -- A GET outside a transaction, from a table that no transaction has.
  abbrev alone : List Str → Server → World
  alone vs srv = world srv i vs true false [] texts

  abbrev let_go : Server
  let_go = set_cell p (with_owner p srv none) (set_cell p (with_owner p srv (some i)) srv)

  abbrev fetching : Option Str → Verdict
  fetching o = fetched o (database srv) (client (alone vs srv).conn)

  abbrev within : List ℕ → World
  within ps = world srv i vs true true ps texts

  module _ (free : held.table_mutex ≡ none) (clean : held.key_value_temp ≡ [])
      (args : List Str) where
    answer-free :
        answer i (Request.get name key) (database srv) (client (alone vs srv).conn)
        ≡ fetching (find key held.key_value)
    unfolding answer perform
    answer-free =
        rw found
          (ap (λ o. get_alone key (entry held) o (database srv) (client (alone vs srv).conn)) free)

    restored : IsIndexed srv → database let_go ≡ database srv
    restored ix = database-same name p srv ix found _ _ (entry-with_owner p srv none free)

    got-served :
        (v : Str)
        → find key held.key_value ≡ some v
        → served MessageType.get (name ∷ key ∷ args) (alone vs srv)
          ≡ delivered true (encode ok_response) (alone (v ∷ vs) let_go)
    unfolding serve dispatch handle_get ◌>>=◌ gets pure lift checked get_table get_key
        server_find_table find_table with_guard respond modify encode table_get stack_push
        ValueStack.push unlock
    got-served v stored =
        rw
          (
            found,
            lock_free i held free,
            ==_refl p,
            get-committed key (with_owner p srv (some i)) clean,
            stored,
            ==_refl p,
          )
          refl

    missed-served :
        find key held.key_value ≡ none
        → served MessageType.get (name ∷ key ∷ args) (alone vs srv)
          ≡ recover (operation_exception (codes "The key is not in the map")) (alone vs let_go)
    unfolding serve dispatch handle_get ◌>>=◌ gets pure lift checked get_table get_key
        server_find_table find_table with_guard table_get stack_push unlock
    missed-served missing =
        rw
          (
            found,
            lock_free i held free,
            ==_refl p,
            get-committed key (with_owner p srv (some i)) clean,
            missing,
            ==_refl p,
          )
          refl

    -- A GET outside a transaction from a table that no transaction has.
    get_free-Meets :
        (o : Option Str)
        → IsIndexed srv
        → find key held.key_value ≡ o
        → Meets MessageType.get (name ∷ key ∷ args) (alone vs srv)
    get_free-Meets (some v) ix stored =
        rw (answer-free ∙ ap fetching stored)
          (alone (v ∷ vs) let_go, got-served v stored, restored ix, refl, refl)
    get_free-Meets none ix missing =
        rw (answer-free ∙ ap fetching missing)
          (alone vs let_go, missed-served missing ∙ recover-failure _ _, restored ix, refl, refl)

  answer-taken :
      (j : ℕ)
      → held.table_mutex ≡ some j
      → answer i (Request.get name key) (database srv) (client (alone vs srv).conn) ≡ waits
  unfolding answer perform
  answer-taken j taken =
      rw found
        (ap (λ o. get_alone key (entry held) o (database srv) (client (alone vs srv).conn)) taken)

  get_taken-Meets :
      (j : ℕ) (args : List Str)
      → held.table_mutex ≡ some j
      → Meets MessageType.get (name ∷ key ∷ args) (alone vs srv)
  unfolding serve dispatch handle_get ◌>>=◌ gets checked get_table get_key server_find_table
      find_table lift with_guard
  get_taken-Meets j args taken =
      rw (answer-taken j taken) (rw (found, lock_taken i held j taken) refl)

  -- A GET in a transaction, once the table is the transaction's.
  joined-Refines :
      (ps qs : List ℕ) (after : Server) (args : List Str) (o : Option Str)
      → join_transaction p name (within ps) ≡ (returned tt, world after i vs true true qs texts)
      → Table.get key (after.cell p) ≡ or_failure o
      → Refines texts
          (fetched o (database after) (client (within ps).conn))
          (served MessageType.get (name ∷ key ∷ args) (within ps))
  unfolding serve dispatch handle_get ◌>>=◌ gets checked get_table get_key server_find_table
      find_table lift pure modify respond encode table_get stack_push ValueStack.push
  joined-Refines ps qs after args (some v) joins read =
      (world after i (v ∷ vs) true true qs texts, rw (found, joins, read) refl, refl, refl, refl)
  joined-Refines ps qs after args none joins read = (
    world after i vs true true qs texts,
    rw (found, joins, read) (recover-failure _ (world after i vs true true qs texts)),
    refl,
    refl,
    refl,
  )

  answer-within :
      (ps : List ℕ) (o : Option ℕ)
      → acquire i held.table_mutex ≡ o
      → answer i (Request.get name key) (database srv) (client (within ps).conn)
        ≡ get_within i name key (entry held) o (database srv) (client (within ps).conn)
  unfolding answer perform
  answer-within ps o e =
      rw found
        (ap (λ o. get_within i name key (entry held) o (database srv) (client (within ps).conn)) e)

  read-held :
      (after : Server)
      → IsWellFormed held
      → after.cell p ≡ with_owner p srv (some i)
      → Table.get key (after.cell p) ≡ or_failure (spec_lookup key (spec held))
  unfolding Table.get
  read-held after formed same = ap (Table.get key) same ∙ (table_refines_spec held key [] formed).3

  conflict-served :
      (ps : List ℕ) (args : List Str)
      → Missed name srv i p vs texts ps
      → served MessageType.get (name ∷ key ∷ args) (within ps)
        ≡ catch (raised (failed_transaction (conflict_text name))) (within ps)
  unfolding serve dispatch handle_get ◌>>=◌ gets checked get_table get_key server_find_table
      find_table lift
  conflict-served ps args m = rw (found, m.raises) refl

  get_within-Meets :
      (ps : List ℕ) (args : List Str)
      → Ready (within ps)
      → Meets MessageType.get (name ∷ key ∷ args) (within ps)
  get_within-Meets ps args ready = elim (acquisition name srv i p vs texts ps ready found) [
    | inl (after, qs, a) ↦
        rw (answer-within ps (some i) a.acquires, sym a.stands)
          (joined-Refines ps qs after args _ a.joins (read-held after (ready.formed p) a.held))
    | inr m ↦
        rw (answer-within ps none m.misses, conflict-served ps args m)
          (abort-Refines (conflict_text name) (within ps) ready)
  ]

module _ (name key : Str) (srv : Server) (i : ℕ) (vs : List Str) (texts : List Str) where
  get_absent-Meets :
      (busy : Bool) (ps : List ℕ) (args : List Str)
      → find name srv.set_of_table ≡ none
      → Meets MessageType.get (name ∷ key ∷ args) (world srv i vs true busy ps texts)
  unfolding answer perform serve dispatch handle_get ◌>>=◌ gets checked get_table get_key
      server_find_table find_table lift
  get_absent-Meets busy ps args absent =
      rw absent (world srv i vs true busy ps texts, recover-failure _ _, refl, refl, refl)

  get_found-Meets :
      (p : ℕ) (busy : Bool) (ps : List ℕ) (args : List Str)
      → find name srv.set_of_table ≡ some p
      → Ready (world srv i vs true busy ps texts)
      → Meets MessageType.get (name ∷ key ∷ args) (world srv i vs true busy ps texts)
  get_found-Meets p true ps args found ready =
      get_within-Meets name key srv i p vs texts found ps args ready
  get_found-Meets p false ps args found ready =
      rw (ready.sound.quiet refl) (elim (Option-cases (srv.cell p).table_mutex) [
        | inl free ↦
            get_free-Meets name key srv i p vs texts found free (ready.sound.clean p free) args _
              ready.named refl
        | inr (j, taken) ↦ get_taken-Meets name key srv i p vs texts found j args taken
      ])

  pub get-Meets :
      (busy : Bool) (ps : List ℕ) (args : List Str)
      → Ready (world srv i vs true busy ps texts)
      → Meets MessageType.get (name ∷ key ∷ args) (world srv i vs true busy ps texts)
  get-Meets busy ps args ready = elim (Option-cases (find name srv.set_of_table)) [
    | inl absent ↦ get_absent-Meets busy ps args absent
    | inr (p, found) ↦ get_found-Meets p busy ps args found ready
  ]
