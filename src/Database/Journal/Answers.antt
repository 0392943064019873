-- ===== src/Database/Journal/Answers.antt =====
-- The requests, against the journal of a database.
use a_multi_threaded_key_val.Prelude.{
  ℕ, ◌≡◌, refl, Bool, true, false, List, [], Bool-cases, inl, inr,
}
use a_multi_threaded_key_val.Prelude.Family.{update}
use a_multi_threaded_key_val.Text.{Str}
use a_multi_threaded_key_val.Database.{
  Database, Client, Verdict, Request, perform, answer, needs_user, push_on,
}
use a_multi_threaded_key_val.Database.Journal.{Journal, touches, accesses, noted}
use a_multi_threaded_key_val.Database.Journal.Serial.{Serial}
use a_multi_threaded_key_val.Database.Journal.Changes.{Serial-begun}
use a_multi_threaded_key_val.Database.Journal.Endings.{Serial-rollback, Serial-commit}
use a_multi_threaded_key_val.Database.Journal.Requests.{get-Keeps, create-Keeps, set_top-Keeps}
use a_multi_threaded_key_val.Database.Journal.Quiet.{
  Keeps, Serial-noted, Quiet-Keeps, compute-Quiet, pop-Quiet, show-Quiet, Quiet,
}

module _ (i : ℕ) (db : Database) (clients : ℕ → Client) (j : Journal) (s : Serial db clients j)
    (stack : List Str) where
  abbrev client : Bool → Bool → Client
  client user busy = record { stack = stack; logged_in = user; in_transaction = busy }

  -- What a request comes to, in or outside a transaction.
  module _ (busy : Bool) (was : (clients i).in_transaction ≡ busy) where
    same :
        (req : Request) (v : Verdict)
        → Quiet db busy v
        → Keeps i clients (λ b. noted i req [] busy b j) v
    same req v quiet = Quiet-Keeps i req db clients j s busy v was quiet

    still :
        (req : Request) (c : Client)
        → c.in_transaction ≡ busy
        → Serial db (update clients i c) (noted i req [] busy busy j)
    still req c is = Serial-noted i req db clients j s busy c was is

    login-Keeps :
        (user : Bool)
        → Keeps i clients
            (λ b. noted i Request.login [] busy b j)
            (perform i Request.login db (client user busy))
    unfolding perform
    login-Keeps true = still Request.login (client true busy) refl
    login-Keeps false = still Request.login (client true busy) refl

  begin-Keeps :
      (busy : Bool)
      → (clients i).in_transaction ≡ busy
      → Keeps i clients
          (λ b. noted i Request.begin [] busy b j)
          (perform i Request.begin db (client true busy))
  unfolding perform
  begin-Keeps true was = Serial-rollback i db clients _ j s
  begin-Keeps false was = Serial-begun i db clients _ j s was refl

  commit-Keeps :
      (busy : Bool)
      → (clients i).in_transaction ≡ busy
      → Keeps i clients
          (λ b. noted i Request.commit [] busy b j)
          (perform i Request.commit db (client true busy))
  unfolding perform
  commit-Keeps true was = Serial-commit i db clients _ j s
  commit-Keeps false was = still false was Request.commit (client true false) refl

  perform-Keeps :
      (req : Request) (busy : Bool)
      → (clients i).in_transaction ≡ busy
      → Keeps i clients
          (λ b. noted i req (touches i req db (client true busy)) busy b j)
          (perform i req db (client true busy))
  unfolding perform
  perform-Keeps Request.login busy was = login-Keeps busy was true
  perform-Keeps Request.begin busy was = begin-Keeps busy was
  perform-Keeps Request.commit busy was = commit-Keeps busy was
  perform-Keeps (Request.create name) busy was =
      create-Keeps i db clients j s stack name (db.tables name) busy refl was
  perform-Keeps (Request.get name key) busy was =
      get-Keeps i db clients j s stack name key (db.tables name) busy refl was
  perform-Keeps (Request.set name key) busy was =
      set_top-Keeps i db clients j stack name key busy s was
  perform-Keeps (Request.compute op) busy was =
      same busy was (Request.compute op) _ (compute-Quiet db (client true busy) op stack)
  perform-Keeps Request.pop busy was =
      same busy was Request.pop _ (pop-Quiet db (client true busy) stack)
  perform-Keeps Request.top busy was =
      same busy was Request.top _ (show-Quiet db (client true busy) stack)
  perform-Keeps Request.bye busy was = still busy was Request.bye (client true busy) refl
  perform-Keeps (Request.push v) busy was =
      still busy was (Request.push v) (push_on v (client true busy)) refl
  perform-Keeps Request.unknown busy was = still busy was Request.unknown (client true busy) refl

  pub answer-Keeps :
      (req : Request) (user busy : Bool)
      → (clients i).in_transaction ≡ busy
      → Keeps i clients
          (λ b. noted i req (accesses i req db (client user busy)) busy b j)
          (answer i req db (client user busy))
  unfolding answer perform
  answer-Keeps req true busy was = elim (Bool-cases (needs_user req)) [
    | inl needs ↦ rw needs (perform-Keeps req busy was)
    | inr free ↦ rw free (perform-Keeps req busy was)
  ]
  answer-Keeps Request.login false busy was = login-Keeps busy was false
  answer-Keeps Request.bye false busy was = still busy was Request.bye (client false busy) refl
  answer-Keeps req false busy was = still busy was req (client false busy) refl
