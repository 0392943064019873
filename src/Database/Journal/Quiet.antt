-- ===== src/Database/Journal/Quiet.antt =====
-- Requests that leave the database as it is, against its journal.
use a_multi_threaded_key_val.Prelude.{
  ℕ, ◌≡◌, refl, sym, Bool, true, false, Option, none, some, List, [], ◌∷◌, Bool-cases, inl, inr,
}
use a_multi_threaded_key_val.Prelude.Family.{update}
use a_multi_threaded_key_val.Prelude.Int.{ℤ}
use a_multi_threaded_key_val.Text.{Str}
use a_multi_threaded_key_val.Number.{Parsed, parsed, invalid_argument, out_of_range, stoi, in_range}
use a_multi_threaded_key_val.Database.{
  Database, Client, Operator, Verdict, replied, waits, unspecified, calculate, calculated,
  with_operand, compute_top, pop_top, show_top, Request,
}
use a_multi_threaded_key_val.Database.Journal.{Journal, noted}
use a_multi_threaded_key_val.Database.Journal.Serial.{Serial}
use mathlib.Core.Path.{subst}
use a_multi_threaded_key_val.Database.Journal.Changes.{Serial-same, Serial-silent}

-- The database stays, and the client is in a transaction as before.
abbrev pub Quiet : Database → Bool → Verdict → Type 0
Quiet db busy (replied r active after c) = (after ≡ db) × (c.in_transaction ≡ busy)
Quiet db busy waits = Unit
Quiet db busy unspecified = Unit

module _ (db : Database) (c : Client) where
  calculated-Quiet : (o : Option ℤ) → Quiet db c.in_transaction (calculated o db c)
  calculated-Quiet none = (refl, refl)
  calculated-Quiet (some z) = elim (Bool-cases (in_range z)) [
    | inl fits ↦ rw fits (refl, refl)
    | inr out ↦ rw out tt
  ]

  with_operand-Quiet :
      (x : Parsed) (next : ℤ → Verdict)
      → ((z : ℤ) → Quiet db c.in_transaction (next z))
      → Quiet db c.in_transaction (with_operand x next db c)
  with_operand-Quiet (parsed z) next h = h z
  with_operand-Quiet invalid_argument next h = (refl, refl)
  with_operand-Quiet out_of_range next h = (refl, refl)

module _ (db : Database) (c : Client) where
  pub compute-Quiet :
      (op : Operator) (vs : List Str) → Quiet db c.in_transaction (compute_top op vs db c)
  compute-Quiet op [] = (refl, refl)
  compute-Quiet op (v ∷ []) = (refl, refl)
  compute-Quiet op (r ∷ l ∷ rest) =
      let c' = record c { stack = rest } in
      with_operand-Quiet db c' (stoi l) _
        λ a. with_operand-Quiet db c' (stoi r) _ λ b. calculated-Quiet db c' (calculate op a b)

  pub pop-Quiet : (vs : List Str) → Quiet db c.in_transaction (pop_top vs db c)
  pop-Quiet [] = (refl, refl)
  pop-Quiet (v ∷ vs) = (refl, refl)

  pub show-Quiet : (vs : List Str) → Quiet db c.in_transaction (show_top vs db c)
  show-Quiet [] = (refl, refl)
  show-Quiet (v ∷ vs) = (refl, refl)

-- What a verdict leaves of the journal of a database.
abbrev pub Keeps : ℕ → (ℕ → Client) → (Bool → Journal) → Verdict → Type 0
Keeps i clients note (replied r active after c) =
    Serial after (update clients i c) (note c.in_transaction)
Keeps i clients note waits = Unit
Keeps i clients note unspecified = Unit

module _ (i : ℕ) (req : Request) (db : Database) (clients : ℕ → Client) (j : Journal)
    (s : Serial db clients j) where
  pub Serial-noted :
      (busy : Bool) (c : Client)
      → (clients i).in_transaction ≡ busy
      → c.in_transaction ≡ busy
      → Serial db (update clients i c) (noted i req [] busy busy j)
  Serial-noted true c was is = Serial-silent i db clients c j s is
  Serial-noted false c was is = Serial-same i db clients c j s [] (λ h. was) tt refl

  pub Quiet-Keeps :
      (busy : Bool) (v : Verdict)
      → (clients i).in_transaction ≡ busy
      → Quiet db busy v
      → Keeps i clients (λ b. noted i req [] busy b j) v
  Quiet-Keeps busy (replied r active after c) was (same, is) =
      subst (λ d. Serial d (update clients i c) (noted i req [] busy c.in_transaction j)) (sym same)
        (subst (λ b. Serial db (update clients i c) (noted i req [] busy b j)) (sym is)
          (Serial-noted busy c was is))
  Quiet-Keeps busy waits was h = tt
  Quiet-Keeps busy unspecified was h = tt
