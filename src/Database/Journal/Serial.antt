-- ===== src/Database/Journal/Serial.antt =====
-- What ties a journal to the database, and when a change of the database keeps it.
use mathlib.Core.Path.{fun_ext}
use a_multi_threaded_key_val.Prelude.{
  ℕ, ◌≡◌, ◌≢◌, sym, ap, ◌∙◌, Bool, true, false, Option, none, some, List, [], ◌++◌, arith,
  Bool-cases, Option-cases, inl, inr,
}
use a_multi_threaded_key_val.Text.{Str, ◌=str◌, =str_iff}
use a_multi_threaded_key_val.Table.Refinement.{spec_lookup}
use a_multi_threaded_key_val.Database.{Entry, Database, Client, owned, acquire, set_entry}
use a_multi_threaded_key_val.Database.Journal.{Access, Contents, nothing, replay, Agrees, Journal}
use a_multi_threaded_key_val.Database.Journal.Replay.{
  replay-append, Agrees-append, Within, Within-append, Within-weaken, replay-outside, Same,
  replay-Same, Agrees-Same,
}

abbrev committed_in : Option Entry → Str → Option Str
committed_in none k = none
committed_in (some e) k = e.content.committed k

-- What is committed.
abbrev pub committed : Database → Contents
committed db n k = committed_in (db.tables n) k

abbrev current_in : Option Entry → Str → Option Str
current_in none k = none
current_in (some e) k = spec_lookup k e.content

-- What the owner of a table sees.
abbrev pub current : Database → Contents
current db n k = current_in (db.tables n) k

abbrev owned_in : ℕ → Option Entry → Bool
owned_in i none = false
owned_in i (some e) = owned i e.owner

abbrev pub owned_by : ℕ → Database → Str → Bool
owned_by i db n = owned_in i (db.tables n)

-- The accesses of client `i` are to its own tables. Made on what is committed, they find what they
-- found, and make of its tables what it sees in them.
pub record Holds (i : ℕ) (db : Database) (l : List Access) : Type 0 where
  pub agrees : Agrees l (committed db)
  pub within : Within (owned_by i db) l
  pub runs : (n k : Str) → owned_by i db n ≡ true → replay l (committed db) n k ≡ current db n k

-- The history, made on the empty store, finds what it found and makes what is committed.
pub record Serial (db : Database) (clients : ℕ → Client) (j : Journal) : Type 0 where
  pub history_agrees : Agrees j.history nothing
  pub history_runs : replay j.history nothing ≡ committed db
  pub drafts_hold : (i : ℕ) → Holds i db (j.drafts i)
  pub clean :
      (n : Str) (e : Entry) (k : Str)
      → db.tables n ≡ some e
      → e.owner ≡ none
      → e.content.pending k ≡ none
  pub idle : (i : ℕ) (n : Str) → (clients i).in_transaction ≡ false → owned_by i db n ≡ false

-- The tables of client `i` are left alone.
pub record Spares (i : ℕ) (db after : Database) : Type 0 where
  pub owner : (n : Str) → owned_by i after n ≡ owned_by i db n
  pub stays : (n : Str) → owned_by i db n ≡ true → after.tables n ≡ db.tables n

pub Spares-Holds :
    (i : ℕ) (db after : Database) (l : List Access)
    → Spares i db after
    → Holds i db l
    → Holds i after l
Spares-Holds i db after l s h =
    let same : Same (owned_by i db) (committed db) (committed after) =
      λ n k own. ap (λ o. committed_in o k) (sym (s.stays n own)) in
    record {
      agrees = Agrees-Same (owned_by i db) l _ _ h.within same h.agrees;
      within =
          Within-weaken (owned_by i db) (owned_by i after) l (λ n own. s.owner n ∙ own) h.within;
      runs = λ n k own.
          let before = sym (s.owner n) ∙ own in
          sym (replay-Same (owned_by i db) l _ _ same n k before)
          ∙ h.runs n k before
          ∙ ap (λ o. current_in o k) (sym (s.stays n before));
    }

-- A client without accesses.
pub Holds-empty : (i : ℕ) (db : Database) → ((n : Str) → owned_by i db n ≡ false) → Holds i db []
Holds-empty i db out = record {
  agrees = tt;
  within = tt;
  runs = λ n k own. absurd (ground (arith, own, out n));
}

module _ (i : ℕ) (name : Str) (e : Entry) (db : Database) (held : db.tables name ≡ some e)
    (mine : acquire i e.owner ≡ some i) where
  -- What the client sees of the table before it has it, or already has it.
  pub seen :
      (d : List Access) (k : Str)
      → Holds i db d
      → (e.owner ≡ none → e.content.pending k ≡ none)
      → replay d (committed db) name k ≡ spec_lookup k e.content
  seen d k h clean = elim (Option-cases e.owner) [
    | inl free ↦
        replay-outside (owned_by i db) d (committed db) name k h.within (ground (arith, held, free))
        ∙ ground (arith, held, clean free)
    | inr (o, own) ↦ h.runs name k (ground (arith, held, own, mine)) ∙ ground (arith, held)
  ]

-- The table `name`, which client `i` can have, becomes `e'`, which is its own.
module _ (i : ℕ) (name : Str) (e e' : Entry) (db : Database) (held : db.tables name ≡ some e)
    (mine : acquire i e.owner ≡ some i) (owner : e'.owner ≡ some i)
    (kept : e'.content.committed ≡ e.content.committed) where
  abbrev taken : Database
  taken = set_entry name e' db

  pub committed-taken : committed taken ≡ committed db
  committed-taken =
      fun_ext λ n. fun_ext λ k. ground (arith, held, =str_iff name n, ap (λ f. f k) kept)

  pub taken-Spares : (j : ℕ) → j ≢ i → Spares j db taken
  taken-Spares j differ = record {
    owner = λ n. ground (arith, held, mine, owner, differ, =str_iff name n);
    stays = λ n own. ground (arith, held, mine, owner, differ, own, =str_iff name n);
  }

  -- One more access, to that table.
  pub taken-Holds :
      (d l : List Access)
      → Holds i db d
      → Agrees l (replay d (committed db))
      → Within (λ n. name =str n) l
      → ((k : Str) → replay l (replay d (committed db)) name k ≡ spec_lookup k e'.content)
      → Holds i taken (d ++ l)
  taken-Holds d l h agrees within runs = record {
    agrees = rw committed-taken (Agrees-append d l (committed db) h.agrees agrees);
    within =
        Within-append (owned_by i taken) d l
          (Within-weaken (owned_by i db) (owned_by i taken) d
            (λ n own. ground (arith, own, owner, =str_iff name n)) h.within)
          (Within-weaken (λ n. name =str n) (owned_by i taken) l
            (λ n same. ground (arith, same, owner)) within);
    runs = λ n k own.
        rw (committed-taken, replay-append d l (committed db))
          (elim (Bool-cases (name =str n)) [
            | inl same ↦ ground (arith, same, =str_iff name n, runs k)
            | inr other ↦
                replay-outside (λ a. name =str a) l _ n k within other
                ∙ h.runs n k (ground (arith, own, other))
                ∙ ground (arith, other)
          ]);
  }
