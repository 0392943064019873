-- ===== src/Database/Journal/Requests.antt =====
-- CREATE, GET and SET, against the journal of a database.
use mathlib.Core.List.{append-nil}
use mathlib.Core.Path.{fun_ext, subst}
use mathlib.Core.Logic.{◌⊎◌}
use a_multi_threaded_key_val.Prelude.{
  ℕ, ◌≡◌, refl, ◌∙◌, Bool, true, false, Option, none, some, List, [], ◌∷◌, arith, ◌==◌, Bool-cases,
  inl, inr, ◌+◌,
}
use a_multi_threaded_key_val.Prelude.Family.{update}
use a_multi_threaded_key_val.Text.{Str, =str_iff, =str_refl}
use a_multi_threaded_key_val.Table.Refinement.{spec_lookup, spec_set, put}
use a_multi_threaded_key_val.Database.{
  Entry, Database, Client, Request, acquire, fetched, get_entry, get_within, get_alone, set_entry,
  set_in, set_within, set_alone, set_top, create_entry, new_entry,
}
use a_multi_threaded_key_val.Database.Journal.{
  Access, read, wrote, Journal, reads, writes, noted, read_granted, read_free, write_granted,
  write_free, replay,
}
use a_multi_threaded_key_val.Database.Journal.Serial.{Serial, committed, seen}
use a_multi_threaded_key_val.Database.Journal.Changes.{Serial-taken, Serial-changed, Serial-same}
use a_multi_threaded_key_val.Database.Journal.Endings.{Serial-rollback}
use a_multi_threaded_key_val.Database.Journal.Quiet.{Keeps, Serial-noted}

-- A client gets a table, or another one has it.
acquire-cases : (i : ℕ) (o : Option ℕ) → (acquire i o ≡ some i) ⊎ (acquire i o ≡ none)
acquire-cases i none = inl refl
acquire-cases i (some j) = elim (Bool-cases (j == i)) [
  | inl same ↦ inl (rw same refl)
  | inr other ↦ inr (rw other refl)
]

module _ (i : ℕ) (db : Database) (clients : ℕ → Client) (j : Journal) (s : Serial db clients j)
    (stack : List Str) where
  abbrev client : Bool → Client
  client busy = record { stack = stack; logged_in = true; in_transaction = busy }

  -- What a GET finds goes on the stack, and nothing else hangs on it.
  fetched-Keeps :
      (req : Request) (l : List Access) (busy : Bool) (r : Option Str) (after : Database)
      → ((c : Client)
          → c.in_transaction ≡ busy
          → Serial after (update clients i c) (noted i req l busy busy j))
      → Keeps i clients (λ b. noted i req l busy b j) (fetched r after (client busy))
  fetched-Keeps req l busy none after h = h _ refl
  fetched-Keeps req l busy (some v) after h = h _ refl

  module _ (name key : Str) (e : Entry) (there : db.tables name ≡ some e) where
    -- What the client sees of the table.
    sees :
        (k : Str)
        → acquire i e.owner ≡ some i
        → replay (j.drafts i) (committed db) name k ≡ spec_lookup k e.content
    sees k mine =
        seen i name e db there mine (j.drafts i) k (s.drafts_hold i) (s.clean name e k there)

    get_within-Keeps :
        (o : Option ℕ)
        → acquire i e.owner ≡ o
        → (o ≡ some i) ⊎ (o ≡ none)
        → Keeps i clients
            (λ b.
              noted i
                (Request.get name key)
                (read_granted name key (spec_lookup key e.content) o)
                true
                b
                j)
            (get_within i name key e o db (client true))
    get_within-Keeps none a h = Serial-rollback i db clients _ j s
    get_within-Keeps (some o) a (inr h) = absurd (ground arith)
    get_within-Keeps (some o) a (inl h) =
        fetched-Keeps (Request.get name key) _ true (spec_lookup key e.content) _ λ c is.
          Serial-taken i name e (record e { owner = some o }) db clients c j s there (a ∙ h) h refl
            is (read name key (spec_lookup key e.content) ∷ []) (sees key (a ∙ h), tt)
            (=str_refl name, tt) (λ k. sees k (a ∙ h))

    set_within-Keeps :
        (v : Str) (o : Option ℕ)
        → acquire i e.owner ≡ o
        → (o ≡ some i) ⊎ (o ≡ none)
        → Keeps i clients
            (λ b. noted i (Request.set name key) (write_granted name key v o) true b j)
            (set_within i name key v e o db (client true))
    set_within-Keeps v none a h = Serial-rollback i db clients _ j s
    set_within-Keeps v (some o) a (inr h) = absurd (ground arith)
    set_within-Keeps v (some o) a (inl h) =
        Serial-taken i name e (record { content = spec_set key v e.content; owner = some o }) db
          clients (client true) j s there (a ∙ h) h refl refl (wrote name key v ∷ []) tt
          (=str_refl name, tt) (λ k. ground (arith, =str_refl name, sees k (a ∙ h)))

    module _ (was : (clients i).in_transaction ≡ false) where
      get_alone-Keeps :
          (o : Option ℕ)
          → Keeps i clients
              (λ b.
                noted i
                  (Request.get name key)
                  (read_free name key (e.content.committed key) o)
                  false
                  b
                  j)
              (get_alone key e o db (client false))
      get_alone-Keeps (some k) = tt
      get_alone-Keeps none =
          fetched-Keeps (Request.get name key) _ false (e.content.committed key) db λ c is.
            Serial-same i db clients c j s (read name key (e.content.committed key) ∷ []) (λ h. was)
              (ground (arith, there), tt) refl

      set_alone-Keeps :
          (v : Str) (o : Option ℕ)
          → e.owner ≡ o
          → Keeps i clients
              (λ b. noted i (Request.set name key) (write_free name key v o) false b j)
              (set_alone name key v e o db (client false))
      set_alone-Keeps v (some k) free = tt
      set_alone-Keeps v none free =
          let stored = record (e.content) { committed = put e.content.committed key v } in
          Serial-changed name (record e { content = stored }) db _ clients
            (update clients i (client false)) j s (λ n. refl) (λ k. ground (arith, there, free))
            free (λ k. s.clean name e k there free) (λ o h. ground (arith, was, h))
            (wrote name key v ∷ []) tt
            (fun_ext λ n. fun_ext λ k. ground (arith, there, =str_iff name n))

  pub get-Keeps :
      (name key : Str) (o : Option Entry) (busy : Bool)
      → db.tables name ≡ o
      → (clients i).in_transaction ≡ busy
      → Keeps i clients
          (λ b. noted i (Request.get name key) (reads i name key o busy) busy b j)
          (get_entry i name key o db (client busy))
  get-Keeps name key none busy there was =
      Serial-noted i (Request.get name key) db clients j s busy (client busy) was refl
  get-Keeps name key (some e) true there was =
      get_within-Keeps name key e there _ refl (acquire-cases i e.owner)
  get-Keeps name key (some e) false there was = get_alone-Keeps name key e there was e.owner

  pub set-Keeps :
      (name key v : Str) (rest : List Str) (o : Option Entry) (busy : Bool)
      → db.tables name ≡ o
      → (clients i).in_transaction ≡ busy
      → Keeps i clients
          (λ b. noted i (Request.set name key) (writes i name key (v ∷ rest) o busy) busy b j)
          (set_in i name key v o db (client busy))
  set-Keeps name key v rest none busy there was =
      Serial-noted i (Request.set name key) db clients j s busy (client busy) was refl
  set-Keeps name key v rest (some e) true there was =
      set_within-Keeps name key e there v _ refl (acquire-cases i e.owner)
  set-Keeps name key v rest (some e) false there was =
      set_alone-Keeps name key e there was v e.owner refl

  -- The new table is empty.
  created-Serial :
      (name : Str)
      → db.tables name ≡ none
      → Serial (record (set_entry name new_entry db) { created = db.created + 1 }) clients j
  created-Serial name absent =
      subst
        (λ h.
          Serial (record (set_entry name new_entry db) { created = db.created + 1 }) clients
            (record j { history = h }))
        (append-nil j.history)
        (Serial-changed name new_entry db _ clients clients j s (λ n. refl)
          (λ k. ground (arith, absent)) refl (λ k. refl) (λ o h. h) [] tt
          (fun_ext λ n. fun_ext λ k. ground (arith, absent, =str_iff name n)))

  pub create-Keeps :
      (name : Str) (o : Option Entry) (busy : Bool)
      → db.tables name ≡ o
      → (clients i).in_transaction ≡ busy
      → Keeps i clients
          (λ b. noted i (Request.create name) [] busy b j)
          (create_entry name o db (client busy))
  create-Keeps name (some e) busy there was =
      Serial-noted i (Request.create name) db clients j s busy (client busy) was refl
  create-Keeps name none busy there was = elim (Bool-cases (db.mutex_init db.created == 0)) [
    | inr fails ↦
        rw fails (Serial-noted i (Request.create name) db clients j s busy (client busy) was refl)
    | inl works ↦ rw works (
        Serial-noted i (Request.create name) _ clients j (created-Serial name there) busy
          (client busy) was refl)
  ]

pub set_top-Keeps :
    (i : ℕ) (db : Database) (clients : ℕ → Client) (j : Journal) (vs : List Str) (name key : Str)
    (busy : Bool)
    → Serial db clients j
    → (clients i).in_transaction ≡ busy
    → Keeps i clients
        (λ b. noted i (Request.set name key) (writes i name key vs (db.tables name) busy) busy b j)
        (set_top i name key vs db (record { stack = vs; logged_in = true; in_transaction = busy }))
set_top-Keeps i db clients j [] name key busy s was =
    Serial-noted i (Request.set name key) db clients j s busy _ was refl
set_top-Keeps i db clients j (v ∷ rest) name key busy s was =
    set-Keeps i db clients j s rest name key v rest (db.tables name) busy refl was
