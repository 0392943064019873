-- ===== src/Database/Writes.antt =====
-- client_connection.cpp: SET, against the database.
use a_multi_threaded_key_val.Prelude.{
  ℕ, ◌≡◌, refl, sym, ap, ◌∙◌, Bool, true, false, Option, none, some, List, [], ◌∷◌, ==_refl,
  Option-cases, inl, inr,
}
use a_multi_threaded_key_val.Text.{Str}
use a_multi_threaded_key_val.Map.{find, assign, find-assign}
use a_multi_threaded_key_val.Exceptions.{failed_transaction}
use a_multi_threaded_key_val.Message.{MessageType, get_table, get_key}
use a_multi_threaded_key_val.Serialization.{encode}
use a_multi_threaded_key_val.Table
use a_multi_threaded_key_val.Table.{Table, unlock, commit_changes}
use a_multi_threaded_key_val.Table.Laws.{lock_free, lock_taken}
use a_multi_threaded_key_val.Table.Refinement.{
  spec, table_refines_spec, IsWellFormed, put, spec_set,
}
use a_multi_threaded_key_val.ValueStack
use a_multi_threaded_key_val.Server.Tables.{IsIndexed}
use a_multi_threaded_key_val.Server.{Server, set_cell, find_table}
use a_multi_threaded_key_val.Connection.{
  World, returned, lift, gets, modify, pure, checked, ◌>>=◌, respond, with_guard, join_transaction,
  raised, table_set, table_commit, stack_top, stack_pop, raise,
}
use a_multi_threaded_key_val.Connection.Handlers.{ok_response, handle_set, server_find_table}
use a_multi_threaded_key_val.Connection.Chat.{dispatch, serve, catch}
use a_multi_threaded_key_val.Database.{
  set_entry, perform, answer, Request, waits, acquire, conflict_text, set_alone, set_within, Client,
}
use a_multi_threaded_key_val.Database.Abstraction.{
  entry, database, client, set_cell_twice, database-set_cell,
}
use a_multi_threaded_key_val.Database.Tables.{with_owner}
use a_multi_threaded_key_val.Database.Acquisition.{Missed, acquisition}
use a_multi_threaded_key_val.Database.Transactions.{abort-Refines}
use mathlib.Core.Path.{fun_ext}
use a_multi_threaded_key_val.Connection.Autocommit.{stored, set-stored, ok_text}
use a_multi_threaded_key_val.Connection.Arithmetic.{with_text}
use a_multi_threaded_key_val.Database.Rounds.{
  delivered, served, Meets, Ready, world, recover-failure,
}

-- What is stored, as an entry of the database.
entry-stored :
    (key value : Str) (t : Table)
    → t.key_value_temp ≡ []
    → t.table_mutex ≡ none
    → entry (stored key value t) ≡ record (entry t) {
      content = record (spec t) { committed = put (spec t).committed key value };
    }
unfolding find
entry-stored key value t clean free =
    let committed : ◌≡◌ {A = Str → Option Str} (λ k. find k (assign key value t.key_value))
        (put (spec t).committed key value) =
      fun_ext λ k. find-assign key k value t.key_value in
    λ j. record {
      content = record { committed = committed j; pending = λ k. find k (sym clean j) };
      owner = sym free j;
    }

module _ (name key value : Str) (srv : Server) (i p : ℕ) (rest : List Str) (texts : List Str)
    (found : find name srv.set_of_table ≡ some p) where
  abbrev held : Table
  held = srv.cell p

  abbrev alone : List Str → Server → World
  alone vs srv = world srv i vs true false [] texts

  abbrev within : List ℕ → List Str → World
  within ps vs = world srv i vs true true ps texts

  abbrev gone : Client
  gone = client (alone rest srv).conn

  module _ (free : held.table_mutex ≡ none) (clean : held.key_value_temp ≡ [])
      (args : List Str) where
    abbrev kept : Server
    kept = set_cell p (stored key value held) srv

    answer-free :
        answer i (Request.set name key) (database srv) (client (alone (value ∷ rest) srv).conn)
        ≡ set_alone name key value (entry held) none (database srv) gone
    unfolding answer perform
    answer-free =
        rw found (ap (λ o. set_alone name key value (entry held) o (database srv) gone) free)

    changes :
        set_cell p (unlock (commit_changes (Table.set key value (with_owner p srv (some i))))) (
          set_cell p (commit_changes (Table.set key value (with_owner p srv (some i)))) (
            set_cell p
              (Table.set key value (with_owner p srv (some i)))
              (set_cell p (with_owner p srv (some i)) srv)))
        ≡ kept
    changes =
        set_cell_twice p _ _ _
        ∙ set_cell_twice p _ _ _
        ∙ set_cell_twice p _ _ _
        ∙ ap (λ t. set_cell p t srv) (set-stored i key value held clean)

    set-served :
        served MessageType.set (name ∷ key ∷ args) (alone (value ∷ rest) srv)
        ≡ delivered true (encode ok_response) (alone rest kept)
    unfolding serve dispatch handle_set ◌>>=◌ gets pure lift checked get_table get_key
        server_find_table find_table with_guard respond modify encode table_set table_commit
        stack_top stack_pop ValueStack.is_empty ValueStack.get_top ValueStack.pop
    set-served =
        rw (found, lock_free i held free, ==_refl p)
          (ap (λ after. (returned true, with_text ok_text (alone rest after))) changes)

    set_free-Meets :
        IsIndexed srv → Meets MessageType.set (name ∷ key ∷ args) (alone (value ∷ rest) srv)
    set_free-Meets ix = rw answer-free (
      alone rest kept,
      set-served,
      database-set_cell name p _ srv ix found
          ∙ ap (λ e. set_entry name e (database srv)) (entry-stored key value held clean free),
      refl,
      refl,
    )

  answer-taken :
      (j : ℕ)
      → held.table_mutex ≡ some j
      → answer i (Request.set name key) (database srv) (client (alone (value ∷ rest) srv).conn)
        ≡ waits
  unfolding answer perform
  answer-taken j taken =
      rw found (ap (λ o. set_alone name key value (entry held) o (database srv) gone) taken)

  set_taken-Meets :
      (j : ℕ) (args : List Str)
      → held.table_mutex ≡ some j
      → Meets MessageType.set (name ∷ key ∷ args) (alone (value ∷ rest) srv)
  unfolding serve dispatch handle_set ◌>>=◌ gets pure checked get_table get_key server_find_table
      find_table lift with_guard stack_top stack_pop ValueStack.is_empty ValueStack.get_top
      ValueStack.pop
  set_taken-Meets j args taken =
      rw (answer-taken j taken) (rw (found, lock_taken i held j taken) refl)

  answer-within :
      (ps : List ℕ) (o : Option ℕ)
      → acquire i held.table_mutex ≡ o
      → answer i (Request.set name key) (database srv) (client (within ps (value ∷ rest)).conn)
        ≡ set_within i name key value (entry held) o (database srv) (client (within ps rest).conn)
  unfolding answer perform
  answer-within ps o e = rw found (
      ap
        (λ o.
          set_within i name key value (entry held) o (database srv) (client (within ps rest).conn))
        e)

  module _ (ps : List ℕ) (args : List Str) where
    joined-served :
        (after : Server) (qs : List ℕ)
        → join_transaction p name (within ps rest)
          ≡ (returned tt, world after i rest true true qs texts)
        → served MessageType.set (name ∷ key ∷ args) (within ps (value ∷ rest))
          ≡ delivered true (encode ok_response) (
              world
                (set_cell p (Table.set key value (after.cell p)) after)
                i
                rest
                true
                true
                qs
                texts)
    unfolding serve dispatch handle_set ◌>>=◌ gets pure lift checked get_table get_key
        server_find_table find_table respond modify encode table_set stack_top stack_pop
        ValueStack.is_empty ValueStack.get_top ValueStack.pop
    joined-served after qs joins = rw (found, joins) refl

    conflict-served :
        Missed name srv i p rest texts ps
        → served MessageType.set (name ∷ key ∷ args) (within ps (value ∷ rest))
          ≡ catch (raised (failed_transaction (conflict_text name))) (within ps rest)
    unfolding serve dispatch handle_set ◌>>=◌ gets pure checked get_table get_key server_find_table
        find_table lift stack_top stack_pop ValueStack.is_empty ValueStack.get_top ValueStack.pop
    conflict-served m = rw (found, m.raises) refl

    entry-set :
        (after : Server)
        → IsWellFormed held
        → after.cell p ≡ with_owner p srv (some i)
        → entry (Table.set key value (after.cell p))
          ≡ record { content = spec_set key value (spec held); owner = some i }
    unfolding Table.set
    entry-set after formed same =
        ap (λ t. entry (Table.set key value t)) same
        ∙ ap (λ c. record { content = c; owner = some i })
            (table_refines_spec held key value formed).0

    set_within-Meets :
        Ready (within ps rest)
        → Meets MessageType.set (name ∷ key ∷ args) (within ps (value ∷ rest))
    set_within-Meets ready = elim (acquisition name srv i p rest texts ps ready found) [
      | inl (after, qs, a) ↦ rw (answer-within ps (some i) a.acquires) (
        world (set_cell p (Table.set key value (after.cell p)) after) i rest true true qs texts,
        joined-served after qs a.joins,
        a.changes _
            ∙ ap (λ e. set_entry name e (database srv)) (entry-set after (ready.formed p) a.held),
        refl,
        refl,
      )
      | inr m ↦
          rw (answer-within ps none m.misses, conflict-served m)
            (abort-Refines (conflict_text name) (within ps rest) ready)
    ]

-- The value is off the stack.
popped-Ready :
    (srv : Server) (i : ℕ) (value : Str) (rest : List Str) (busy : Bool) (ps : List ℕ)
    (texts : List Str)
    → Ready (world srv i (value ∷ rest) true busy ps texts)
    → Ready (world srv i rest true busy ps texts)
popped-Ready srv i value rest busy ps texts r = record {
  sound = record {
    locks = r.sound.locks;
    clean = r.sound.clean;
    quiet = r.sound.quiet;
    fresh = r.sound.fresh;
    named = r.sound.named;
  };
  named = r.named;
  formed = r.formed;
  fits = r.fits.1;
}

module _ (name key : Str) (srv : Server) (i : ℕ) (texts : List Str) where
  set_absent-Meets :
      (value : Str) (rest : List Str) (busy : Bool) (ps : List ℕ) (args : List Str)
      → find name srv.set_of_table ≡ none
      → Meets MessageType.set (name ∷ key ∷ args) (world srv i (value ∷ rest) true busy ps texts)
  unfolding answer perform serve dispatch handle_set ◌>>=◌ gets pure checked get_table get_key
      server_find_table find_table lift stack_top stack_pop ValueStack.is_empty ValueStack.get_top
      ValueStack.pop
  set_absent-Meets value rest busy ps args absent =
      rw absent (world srv i rest true busy ps texts, recover-failure _ _, refl, refl, refl)

  set_found-Meets :
      (value : Str) (rest : List Str) (p : ℕ) (busy : Bool) (ps : List ℕ) (args : List Str)
      → find name srv.set_of_table ≡ some p
      → Ready (world srv i rest true busy ps texts)
      → Meets MessageType.set (name ∷ key ∷ args) (world srv i (value ∷ rest) true busy ps texts)
  set_found-Meets value rest p true ps args found ready =
      set_within-Meets name key value srv i p rest texts found ps args ready
  set_found-Meets value rest p false ps args found ready =
      rw (ready.sound.quiet refl) (elim (Option-cases (srv.cell p).table_mutex) [
        | inl free ↦
            set_free-Meets name key value srv i p rest texts found free (ready.sound.clean p free)
              args ready.named
        | inr (j, taken) ↦ set_taken-Meets name key value srv i p rest texts found j args taken
      ])

  pub set-Meets :
      (vs : List Str) (busy : Bool) (ps : List ℕ) (args : List Str)
      → Ready (world srv i vs true busy ps texts)
      → Meets MessageType.set (name ∷ key ∷ args) (world srv i vs true busy ps texts)
  unfolding answer perform serve dispatch handle_set ◌>>=◌ gets raise ValueStack.is_empty
  set-Meets [] busy ps args ready =
      (world srv i [] true busy ps texts, recover-failure _ _, refl, refl, refl)
  set-Meets (value ∷ rest) busy ps args ready = elim (Option-cases (find name srv.set_of_table)) [
    | inl absent ↦ set_absent-Meets value rest busy ps args absent
    | inr (p, found) ↦
        set_found-Meets value rest p busy ps args found
          (popped-Ready srv i value rest busy ps texts ready)
  ]
