-- ===== src/Database/Journal/Endings.antt =====
-- The end of a transaction, against the journal of a database.
use mathlib.Core.Path.{fun_ext}
use a_multi_threaded_key_val.Prelude.{
  ℕ, ◌≡◌, ◌≢◌, refl, sym, ap, ◌∙◌, true, false, none, some, List, [], ◌++◌, arith, ◌==◌, Bool-cases,
  Option-cases, inl, inr,
}
use a_multi_threaded_key_val.Prelude.Family.{update}
use a_multi_threaded_key_val.Text.{Str}
use a_multi_threaded_key_val.Table.Refinement.{Spec, spec_commit, spec_rollback}
use a_multi_threaded_key_val.Database.{Entry, Database, Client, owned, end_all}
use a_multi_threaded_key_val.Database.Journal.{
  Access, nothing, replay, Agrees, Journal, dropped, closed,
}
use a_multi_threaded_key_val.Database.Journal.Replay.{replay-append, Agrees-append, replay-outside}
use a_multi_threaded_key_val.Database.Journal.Changes.{drafts-hold}
use a_multi_threaded_key_val.Database.Journal.Serial.{
  committed, owned_by, Serial, Spares, Holds-empty,
}

-- The transaction of client `i` ends, by `f`, which leaves nothing pending.
module _ (f : Spec → Spec) (i : ℕ) (db : Database)
    (empties : (sp : Spec) (k : Str) → (f sp).pending k ≡ none) where
  abbrev over : Database
  over = end_all f i db

  released : (n : Str) → owned_by i over n ≡ false
  released n = elim (Option-cases (db.tables n)) [
    | inl absent ↦ ground (arith, absent)
    | inr (e, held) ↦ ground (arith, held)
  ]

  over-Spares : (j : ℕ) → j ≢ i → Spares j db over
  over-Spares j differ = record {
    owner = λ n. elim (Option-cases (db.tables n)) [
      | inl absent ↦ ground (arith, absent)
      | inr (e, held) ↦ ground (arith, held, differ)
    ];
    stays = λ n own. elim (Option-cases (db.tables n)) [
      | inl absent ↦ ground (arith, absent)
      | inr (e, held) ↦ ground (arith, held, differ, own)
    ];
  }

  over-clean :
      (n : Str) (e d : Entry) (k : Str)
      → db.tables n ≡ some d
      → (d.owner ≡ none → d.content.pending k ≡ none)
      → over.tables n ≡ some e
      → e.owner ≡ none
      → e.content.pending k ≡ none
  over-clean n e d k held clean there free = elim (Bool-cases (owned i d.owner)) [
    | inl own ↦ ground (arith, held, there, own, empties d.content k)
    | inr other ↦ ground (arith, held, there, free, clean, other)
  ]

  module _ (clients : ℕ → Client) (c : Client) (j : Journal) (s : Serial db clients j) where
    -- What the end of a transaction keeps, whatever comes of the history.
    pub Serial-over :
        (history : List Access)
        → Agrees history nothing
        → replay history nothing ≡ committed over
        → Serial over (update clients i c) (record (dropped i j) { history = history })
    Serial-over history agrees runs = record {
      history_agrees = agrees;
      history_runs = runs;
      drafts_hold =
          drafts-hold i db over j.drafts [] s.drafts_hold over-Spares (Holds-empty i over released);
      clean = λ n e k there free. elim (Option-cases (db.tables n)) [
        | inl absent ↦ ground (arith, absent, there)
        | inr (d, held) ↦ over-clean n e d k held (s.clean n d k held) there free
      ];
      idle = λ o n out. elim (Bool-cases (o == i)) [
        | inl same ↦ ground (arith, same, released n)
        | inr other ↦
            (over-Spares o (ground (arith, other))).owner n
            ∙ s.idle o n (ground (arith, out, other))
      ];
    }

module _ (i : ℕ) (db : Database) (clients : ℕ → Client) (c : Client) (j : Journal)
    (s : Serial db clients j) where
  committed-rollback : committed (end_all spec_rollback i db) ≡ committed db
  committed-rollback = fun_ext λ n. fun_ext λ k. elim (Option-cases (db.tables n)) [
    | inl absent ↦ ground (arith, absent)
    | inr (e, held) ↦ ground (arith, held)
  ]

  pub Serial-rollback : Serial (end_all spec_rollback i db) (update clients i c) (dropped i j)
  Serial-rollback =
      Serial-over spec_rollback i db (λ sp k. refl) clients c j s j.history s.history_agrees
        (s.history_runs ∙ sym committed-rollback)

  -- What was pending is committed.
  published :
      (n k : Str)
      → replay (j.drafts i) (committed db) n k ≡ committed (end_all spec_commit i db) n k
  published n k = elim (Bool-cases (owned_by i db n)) [
    | inl own ↦ (s.drafts_hold i).runs n k own ∙ (elim (Option-cases (db.tables n)) [
      | inl absent ↦ ground (arith, absent)
      | inr (e, held) ↦ ground (arith, held, own)
    ])
    | inr other ↦
        replay-outside (owned_by i db) (j.drafts i) (committed db) n k (s.drafts_hold i).within
          other
        ∙ (elim (Option-cases (db.tables n)) [
          | inl absent ↦ ground (arith, absent)
          | inr (e, held) ↦ ground (arith, held, other)
        ])
  ]

  pub Serial-commit : Serial (end_all spec_commit i db) (update clients i c) (closed i true j)
  Serial-commit =
      Serial-over spec_commit i db (λ sp k. refl) clients c j s (j.history ++ j.drafts i)
        (Agrees-append j.history (j.drafts i) nothing s.history_agrees
          (rw s.history_runs (s.drafts_hold i).agrees))
        (replay-append j.history (j.drafts i) nothing
          ∙ ap (replay (j.drafts i)) s.history_runs
          ∙ fun_ext λ n. fun_ext λ k. published n k)
