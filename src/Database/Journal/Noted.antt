-- ===== src/Database/Journal/Noted.antt =====
-- client_connection.cpp: what a GET or SET is answered, and what the journal notes of it.
use a_multi_threaded_key_val.Prelude.{
  ℕ, ◌≡◌, refl, ◌∙◌, Bool, true, false, Option, none, some, List, [], ◌∷◌, sym, ap,
}
use mathlib.Core.Path.{subst}
use a_multi_threaded_key_val.Text.{Str, codes}
use a_multi_threaded_key_val.Exceptions.{ok}
use a_multi_threaded_key_val.Message.{MessageType, message}
use a_multi_threaded_key_val.Serialization.{encode, decode}
use a_multi_threaded_key_val.Table.Refinement.{spec_lookup}
use a_multi_threaded_key_val.Connection.{returned}
use a_multi_threaded_key_val.Connection.Chat.{c_string, chat_step}
use a_multi_threaded_key_val.System.{System, Reach, view}
use a_multi_threaded_key_val.Database.{
  Entry, Database, Client, Reply, done, failure, Verdict, replied, waits, unspecified, acquire,
  fetched, get_entry, get_within, get_alone, set_within, set_alone, set_top, perform, answer,
}
use a_multi_threaded_key_val.Database.Abstraction.{database, client}
use a_multi_threaded_key_val.Database.Rounds.{request_of, reply_message}
use a_multi_threaded_key_val.Database.Refinement.{answer_to}
use a_multi_threaded_key_val.Database.Simulation.{returned-Told}
use a_multi_threaded_key_val.Database.Journal.{
  Access, read, wrote, reads, writes, accesses, read_granted, read_free, write_granted, write_free,
}

-- The reply, the stack before and behind the request, and its accesses. A GET that is noted with a
-- value pushes that value; one that is noted without says that the key is missing; a SET that is noted
-- takes its value off the stack. Where nothing is noted, the request has failed.
abbrev pub Consistent : Reply → List Str → List Str → List Access → Type 0
Consistent r vs ws (read n k (some v) ∷ []) = (r ≡ done) × (ws ≡ v ∷ vs)
Consistent r vs ws (read n k none ∷ []) =
    (r ≡ failure (codes "The key is not in the map")) × (ws ≡ vs)
Consistent r vs ws (wrote n k v ∷ []) = (r ≡ done) × (vs ≡ v ∷ ws)
Consistent r vs ws [] = (what : Str) × (r ≡ failure what)
Consistent r vs ws _ = ⊥

abbrev Noted : List Str → List Access → Verdict → Type 0
Noted vs l (replied r active after c) = Consistent r vs c.stack l
Noted vs l waits = Unit
Noted vs l unspecified = Unit

module _ (i : ℕ) (name key : Str) (db : Database) where
  fetched-Noted :
      (found : Option Str) (after : Database) (c : Client)
      → Noted c.stack (read name key found ∷ []) (fetched found after c)
  fetched-Noted none after c = (refl, refl)
  fetched-Noted (some v) after c = (refl, refl)

  within-Noted :
      (e : Entry) (o : Option ℕ) (c : Client)
      → Noted c.stack
          (read_granted name key (spec_lookup key e.content) o)
          (get_within i name key e o db c)
  within-Noted e none c = (_, refl)
  within-Noted e (some o) c = fetched-Noted (spec_lookup key e.content) _ c

  alone-Noted :
      (e : Entry) (o : Option ℕ) (c : Client)
      → Noted c.stack (read_free name key (e.content.committed key) o) (get_alone key e o db c)
  alone-Noted e none c = fetched-Noted (e.content.committed key) _ c
  alone-Noted e (some o) c = tt

  get-Noted :
      (o : Option Entry) (vs : List Str) (user busy : Bool)
      → let c : Client = record { stack = vs; logged_in = user; in_transaction = busy } in
        Noted vs (reads i name key o busy) (get_entry i name key o db c)
  get-Noted none vs user busy = (_, refl)
  get-Noted (some e) vs user true = within-Noted e (acquire i e.owner) _
  get-Noted (some e) vs user false = alone-Noted e e.owner _

  set_within-Noted :
      (v : Str) (rest : List Str) (e : Entry) (o : Option ℕ) (user busy : Bool)
      → Noted (v ∷ rest) (write_granted name key v o) (
          set_within i name key v e o db
            (record { stack = rest; logged_in = user; in_transaction = busy }))
  set_within-Noted v rest e none user busy = (_, refl)
  set_within-Noted v rest e (some o) user busy = (refl, refl)

  set_alone-Noted :
      (v : Str) (rest : List Str) (e : Entry) (o : Option ℕ) (user busy : Bool)
      → Noted (v ∷ rest) (write_free name key v o) (
          set_alone name key v e o db
            (record { stack = rest; logged_in = user; in_transaction = busy }))
  set_alone-Noted v rest e none user busy = (refl, refl)
  set_alone-Noted v rest e (some o) user busy = tt

  set-Noted :
      (vs : List Str) (o : Option Entry) (user busy : Bool)
      → let c : Client = record { stack = vs; logged_in = user; in_transaction = busy } in
        o ≡ db.tables name → Noted vs (writes i name key vs o busy) (set_top i name key vs db c)
  set-Noted [] o user busy e = (_, refl)
  set-Noted (v ∷ rest) none user busy e = rw (sym e) (_, refl)
  set-Noted (v ∷ rest) (some d) user true e =
      rw (sym e) (set_within-Noted v rest d (acquire i d.owner) user true)
  set-Noted (v ∷ rest) (some d) user false e =
      rw (sym e) (set_alone-Noted v rest d d.owner user false)

-- GET or SET.
pub data IsAccess : MessageType → Type 0 where
  getting : IsAccess MessageType.get
  setting : IsAccess MessageType.set

answer-Noted :
    (t : MessageType) (i : ℕ) (name key : Str) (db : Database) (vs : List Str) (user busy : Bool)
    → IsAccess t
    → let c : Client = record { stack = vs; logged_in = user; in_transaction = busy } in
      let req = request_of t (name ∷ key ∷ []) in Noted vs (accesses i req db c) (answer i req db c)
unfolding answer perform
answer-Noted t i name key db vs true busy getting =
    get-Noted i name key db (db.tables name) vs true busy
answer-Noted t i name key db vs true busy setting =
    set-Noted i name key db vs (db.tables name) true busy refl
answer-Noted t i name key db vs false busy getting = (_, refl)
answer-Noted t i name key db vs false busy setting = (_, refl)

-- In a reachable state, the answer to a GET or SET that returns, and what it does to the stack, are
-- what the journal notes of it: a GET noted with a value pushes that value and is answered with OK, one
-- noted without is told that the key is missing, a SET that is noted takes its value off the stack and
-- is answered with OK, and one of which nothing is noted is answered with FAILED.
pub answers_are_noted :
    {codes : ℕ → ℕ} {s : System} (r : Reach codes s) (i : ℕ) (buf name key : Str) (t : MessageType)
    (active : Bool)
    → IsAccess t
    → decode (c_string buf) ≡ ok (message t (name ∷ key ∷ []))
    → (chat_step buf (view i s)).0 ≡ returned active
    → let after = (chat_step buf (view i s)).1.conn in
      let req = request_of t (name ∷ key ∷ []) in
      (reply : Reply) × (text : Str) × (encode (reply_message reply) ≡ ok text)
      × (after.written ≡ text ∷ (s.conns i).written)
      × Consistent reply
          (s.conns i).m_stack.m_vector
          after.m_stack.m_vector
          (accesses i req (database s.server) (client (s.conns i)))
answers_are_noted {s = s} r i buf name key t active access line e =
    let c = client (s.conns i) in
    let k = returned-Told r i buf active e in
    let noted =
      answer-Noted t i name key (database s.server) c.stack c.logged_in c.in_transaction access in
    (
      k.reply,
      k.text,
      k.sent,
      k.heard,
      subst (Noted c.stack (accesses i (request_of t (name ∷ key ∷ [])) (database s.server) c))
          (sym (ap (λ m. answer_to i m (database s.server) c) line) ∙ k.told) noted,
    )
