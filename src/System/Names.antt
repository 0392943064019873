-- ===== src/System/Names.antt =====
-- server.cpp: the names of the tables and the end of the server, over the steps of the system.
use a_multi_threaded_key_val.Prelude.{
  ℕ, ◌≡◌, false, none, some, List, [], Option-cases, inl, inr, arith, ltb, mem,
}
use a_multi_threaded_key_val.Map.{find-empty}
use a_multi_threaded_key_val.Connection.Upkeep.{Upkeep}
use a_multi_threaded_key_val.Connection.Tidy.{units-All}
use a_multi_threaded_key_val.Server.Tables.{Leads, IsIndexed, assign-Leads}
use a_multi_threaded_key_val.Server.Lifetime.{destroy_server}
use a_multi_threaded_key_val.Server.Deletion.{Covers, assign-Covers, destroy_server-Covers}
use a_multi_threaded_key_val.System.{System, Reach}
use a_multi_threaded_key_val.System.Isolation.{locked-iff-owned, free_tables_are_clean}
use a_multi_threaded_key_val.System.Kept.{Reach-AllKept}

no_names : Leads [] 0 × Covers [] 0
no_names = (
  record {
    in_use = λ name p h. absurd (ground (arith, h, find-empty {V = ℕ} name));
    apart = λ name other p h k. absurd (ground (arith, h, find-empty {V = ℕ} name));
  },
  (tt, λ p. ground arith),
)

-- The names of the tables, whatever the tables hold.
abbrev naming : Upkeep
naming = record {
  Good = λ _. Unit;
  TableOk = λ _. Unit;
  ConnOk = λ _. Unit;
  NamesOk = λ m n. Leads m n × Covers m n;
  new_ok = λ i. tt;
  created_ok = λ name. tt;
  no_names_ok = no_names;
  named_ok =
      λ name m n absent h. (assign-Leads name m n absent h.0, assign-Covers name m n absent h.1);
  mutex_ok = λ t o h. tt;
  set_ok = λ key value t g h. tt;
  get_ok = λ key value t h e. tt;
  commit_ok = λ t h. tt;
  rollback_ok = λ t h. tt;
  flags_ok = λ c l b ps h. tt;
  stack_ok = λ c vs g h. tt;
  stack_good = λ c h. units-All c.m_stack.m_vector;
  spoken_ok = λ c msg text r e h. tt;
  number_good = λ z h. tt;
  read_good = λ line value msg d e g. tt;
}

-- In a reachable state every name leads to a table in use, and no two names lead to the same one.
pub names_lead_apart : {codes : ℕ → ℕ} {s : System} → Reach codes s → IsIndexed s.server
names_lead_apart r = (Reach-AllKept naming r).0.1.0

all_free :
    {codes : ℕ → ℕ} {s : System}
    → Reach codes s
    → ((i : ℕ) → (s.conns i).m_in_transaction ≡ false)
    → (p : ℕ) → (s.server.cell p).table_mutex ≡ none
all_free {s = s} r idle p = elim (Option-cases (s.server.cell p).table_mutex) [
  | inl free ↦ free
  | inr (j, taken) ↦ absurd (
      let locked = (locked-iff-owned r j p).1 taken in
      let empty = (free_tables_are_clean r).1 j (idle j) in
      let k = rw empty at locked in ground arith)
]

-- In a reachable state in which no connection is in a transaction, `~Server` deletes every table
-- that was created, none of them twice, and no mutex that it destroys is locked.
pub server_is_deleted :
    {codes : ℕ → ℕ} {s : System}
    → Reach codes s
    → ((i : ℕ) → (s.conns i).m_in_transaction ≡ false)
    → (gone : List ℕ) × (destroy_server s.server ≡ some gone)
      × ((p : ℕ) → mem p gone ≡ ltb p s.server.allocated)
server_is_deleted {s = s} r idle =
    destroy_server-Covers s.server (all_free r idle) (Reach-AllKept naming r).0.1.1
