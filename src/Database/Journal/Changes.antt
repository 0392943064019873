-- ===== src/Database/Journal/Changes.antt =====
-- The changes of a database, against its journal: a transaction gets a table, a table changes outside
-- transactions, nothing changes.
use mathlib.Core.Path.{subst}
use mathlib.Core.List.{append-nil}
use a_multi_threaded_key_val.Prelude.{
  ℕ, ◌≡◌, ◌≢◌, refl, sym, ap, ◌∙◌, true, false, none, some, List, [], ◌++◌, arith, ◌==◌,
  if◌then◌else◌, Bool-cases, inl, inr,
}
use a_multi_threaded_key_val.Prelude.Family.{update}
use a_multi_threaded_key_val.Text.{Str, ◌=str◌, =str_iff}
use a_multi_threaded_key_val.Table.Refinement.{spec_lookup}
use a_multi_threaded_key_val.Database.{Entry, Database, Client, acquire, set_entry}
use a_multi_threaded_key_val.Database.Journal.{Access, nothing, replay, Agrees, Journal, dropped}
use a_multi_threaded_key_val.Database.Journal.Replay.{replay-append, Agrees-append, Within}
use a_multi_threaded_key_val.Database.Journal.Serial.{
  committed, owned_by, Holds, Serial, Spares, Spares-Holds, Holds-empty, committed-taken,
  taken-Spares, taken-Holds,
}

-- The drafts of client `i` change, those of the others stay.
pub drafts-hold :
    (i : ℕ) (db after : Database) (drafts : ℕ → List Access) (l : List Access)
    → ((j : ℕ) → Holds j db (drafts j))
    → ((j : ℕ) → j ≢ i → Spares j db after)
    → Holds i after l
    → (j : ℕ) → Holds j after (update drafts i l j)
drafts-hold i db after drafts l before spares mine j = elim (Bool-cases (j == i)) [
  | inl same ↦ rw same (subst (λ k. Holds k after l) (ground (arith, same)) mine)
  | inr other ↦
      rw other (Spares-Holds j db after (drafts j) (spares j (ground (arith, other))) (before j))
]

-- A client in a transaction gets a table, and reads or changes it.
module _ (i : ℕ) (name : Str) (e e' : Entry) (db : Database) (clients : ℕ → Client) (c : Client)
    (j : Journal) (s : Serial db clients j) (held : db.tables name ≡ some e)
    (mine : acquire i e.owner ≡ some i) (owner : e'.owner ≡ some i)
    (kept : e'.content.committed ≡ e.content.committed) (busy : c.in_transaction ≡ true) where
  pub Serial-taken :
      (l : List Access)
      → Agrees l (replay (j.drafts i) (committed db))
      → Within (λ n. name =str n) l
      → ((k : Str)
          → replay l (replay (j.drafts i) (committed db)) name k ≡ spec_lookup k e'.content)
      → Serial
          (set_entry name e' db)
          (update clients i c)
          (record j { drafts = update j.drafts i (j.drafts i ++ l) })
  Serial-taken l agrees within runs = record {
    history_agrees = s.history_agrees;
    history_runs = s.history_runs ∙ sym (committed-taken i name e e' db held mine owner kept);
    drafts_hold =
        drafts-hold i db (set_entry name e' db) j.drafts _ s.drafts_hold
          (taken-Spares i name e e' db held mine owner kept)
          (taken-Holds i name e e' db held mine owner kept (j.drafts i) l (s.drafts_hold i) agrees
            within runs);
    clean = λ n d k there free. ground (arith, there, free, owner, s.clean n d k);
    idle = λ o n out. ground (arith, out, busy, owner, s.idle o n);
  }

-- A table that no transaction has becomes `e'`, which none has and which has nothing pending.
module _ (name : Str) (e' : Entry) (db after : Database) (clients clients' : ℕ → Client)
    (j : Journal) (s : Serial db clients j)
    (tables : (n : Str) → after.tables n ≡ (if name =str n then some e' else db.tables n))
    (free : (k : ℕ) → owned_by k db name ≡ false) (owner : e'.owner ≡ none)
    (pending : (k : Str) → e'.content.pending k ≡ none)
    (idle : (o : ℕ)
      → (clients' o).in_transaction ≡ false
      → (clients o).in_transaction ≡ false) where
  changed-Spares : (k : ℕ) → Spares k db after
  changed-Spares k = record {
    owner = λ n. ground (arith, tables n, free k, owner, =str_iff name n);
    stays = λ n own. ground (arith, tables n, free k, own, =str_iff name n);
  }

  -- The history goes on with what changes the table.
  pub Serial-changed :
      (l : List Access)
      → Agrees l (committed db)
      → replay l (committed db) ≡ committed after
      → Serial after clients' (record j { history = j.history ++ l })
  Serial-changed l agrees runs = record {
    history_agrees = Agrees-append j.history l nothing s.history_agrees (rw s.history_runs agrees);
    history_runs = replay-append j.history l nothing ∙ ap (replay l) s.history_runs ∙ runs;
    drafts_hold = λ k. Spares-Holds k db after (j.drafts k) (changed-Spares k) (s.drafts_hold k);
    clean = λ n d k there out. ground (arith, tables n, there, out, pending k, s.clean n d k);
    idle = λ o n out. (changed-Spares o).owner n ∙ s.idle o n (idle o out);
  }

-- The tables stay, and so does the journal but for what client `i` has read outside transactions.
module _ (i : ℕ) (db : Database) (clients : ℕ → Client) (c : Client) (j : Journal)
    (s : Serial db clients j) where
  pub Serial-same :
      (l : List Access)
      → (c.in_transaction ≡ false → (clients i).in_transaction ≡ false)
      → Agrees l (committed db)
      → replay l (committed db) ≡ committed db
      → Serial db (update clients i c) (record j { history = j.history ++ l })
  Serial-same l idle agrees runs = record {
    history_agrees = Agrees-append j.history l nothing s.history_agrees (rw s.history_runs agrees);
    history_runs = replay-append j.history l nothing ∙ ap (replay l) s.history_runs ∙ runs;
    drafts_hold = s.drafts_hold;
    clean = s.clean;
    idle = λ o n out. s.idle o n (ground (arith, out, idle));
  }

  -- Nothing is read or changed in a transaction.
  pub Serial-silent :
      (c.in_transaction ≡ true)
      → Serial db (update clients i c) (record j { drafts = update j.drafts i (j.drafts i ++ []) })
  Serial-silent busy = record {
    history_agrees = s.history_agrees;
    history_runs = s.history_runs;
    drafts_hold =
        drafts-hold i db db j.drafts _ s.drafts_hold
          (λ k n. record { owner = λ n. refl; stays = λ n own. refl })
          (rw (append-nil (j.drafts i)) (s.drafts_hold i));
    clean = s.clean;
    idle = λ o n out. s.idle o n (ground (arith, out, busy));
  }

  -- A transaction begins.
  pub Serial-begun :
      (clients i).in_transaction ≡ false
      → c.in_transaction ≡ true
      → Serial db (update clients i c) (dropped i j)
  Serial-begun was busy = record {
    history_agrees = s.history_agrees;
    history_runs = s.history_runs;
    drafts_hold =
        drafts-hold i db db j.drafts _ s.drafts_hold
          (λ k n. record { owner = λ n. refl; stays = λ n own. refl })
          (Holds-empty i db (λ n. s.idle i n was));
    clean = s.clean;
    idle = λ o n out. s.idle o n (ground (arith, out, busy));
  }
