-- ===== src/Database/Journal/Running.antt =====
-- server.cpp and client_connection.cpp: the transactions that are not over yet.
use a_multi_threaded_key_val.Prelude.{ℕ, ◌≡◌, refl, ◌∙◌, true, some, mem, sym, ap, [], ==_refl}
use a_multi_threaded_key_val.Text.{Str}
use a_multi_threaded_key_val.Map.{find}
use a_multi_threaded_key_val.Table
use a_multi_threaded_key_val.Table.Refinement.{or_failure, table_refines_spec}
use a_multi_threaded_key_val.System.Tables.{tables-AllFormed}
use a_multi_threaded_key_val.System.{System, Reach}
use a_multi_threaded_key_val.System.Isolation.{locked-iff-owned}
use a_multi_threaded_key_val.Database.Abstraction.{database}
use a_multi_threaded_key_val.Database.Journal.{Agrees, replay, journal}
use a_multi_threaded_key_val.Database.Journal.Serial.{committed, owned_by}
use a_multi_threaded_key_val.Database.Journal.Serializable.{Reach-IsSerial}

-- In a reachable state, what connection i has read and stored in its transaction so far could be done
-- now, in one go, on the committed entries: each GET would find what it has found, and each
-- table that the connection has locked would get what `get` finds in it now.
pub transactions_could_run_now :
    {codes : ℕ → ℕ} {s : System} (r : Reach codes s) (i : ℕ)
    → Agrees ((journal r).drafts i) (committed (database s.server))
      × ((name key : Str) (p : ℕ)
          → find name s.server.set_of_table ≡ some p
          → mem p (s.conns i).locked_tables ≡ true
          → Table.get key (s.server.cell p)
            ≡ or_failure (replay ((journal r).drafts i) (committed (database s.server)) name key))
transactions_could_run_now {s = s} r i =
    let h = (Reach-IsSerial r).drafts_hold i in
    (
      h.agrees,
      λ name key p found locked.
          let taken = (locked-iff-owned r i p).0 locked in
          let own : owned_by i (database s.server) name ≡ true = rw found (rw taken (==_refl i)) in
          (table_refines_spec (s.server.cell p) key [] (tables-AllFormed r p)).3
          ∙ ap or_failure (sym (h.runs name key own ∙ rw found refl)),
    )
