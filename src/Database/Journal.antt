-- ===== src/Database/Journal.antt =====
-- What the clients of a database have read and stored: a history of all that is committed, in the
-- order in which it was committed, and for each client what its transaction has done so far.
pub mod Replay
pub mod Serial
pub mod Changes
pub mod Endings
pub mod Quiet
pub mod Requests
pub mod Answers
pub mod Serializable
pub mod Noted
pub mod Running
use a_multi_threaded_key_val.Prelude.{
  ℕ, ◌≡◌, Bool, true, false, not, ◌&&◌, Option, none, some, List, [], ◌∷◌, ◌++◌, if◌then◌else◌,
}
use a_multi_threaded_key_val.Prelude.Family.{update}
use a_multi_threaded_key_val.Text.{Str, ◌=str◌}
use a_multi_threaded_key_val.Exceptions.{Result, ok, throw}
use a_multi_threaded_key_val.Message.{Message}
use a_multi_threaded_key_val.Serialization.{decode}
use a_multi_threaded_key_val.Connection.Chat.{c_string, chat_step}
use a_multi_threaded_key_val.Table.Refinement.{spec_lookup}
use a_multi_threaded_key_val.Database.{Entry, Database, Client, Request, acquire, needs_user}
use a_multi_threaded_key_val.System.{
  System, Step, accepting, request, hang_up, Reach, start, next, view,
}
use a_multi_threaded_key_val.Database.Abstraction.{database, client}
use a_multi_threaded_key_val.Database.Rounds.{request_of}

-- A GET of a key of a table that found a value, or none, and a SET of a value.
pub data Access : Type 0 where
  read : Str → Str → Option Str → Access
  wrote : Str → Str → Str → Access

-- The value of each key of each table.
abbrev pub Contents : Type 0
Contents = Str → Str → Option Str

abbrev pub nothing : Contents
nothing n k = none

abbrev pub store : Str → Str → Str → Contents → Contents
store name key v m n k = if name =str n && key =str k then some v else m n k

-- The contents once the accesses are made, one after the other.
abbrev pub replay : List Access → Contents → Contents
replay [] m = m
replay (read n k r ∷ l) m = replay l m
replay (wrote n k v ∷ l) m = replay l (store n k v m)

-- Made one after the other, each read finds what it found.
abbrev pub Agrees : List Access → Contents → Type 0
Agrees [] m = Unit
Agrees (read n k r ∷ l) m = (m n k ≡ r) × Agrees l m
Agrees (wrote n k v ∷ l) m = Agrees l (store n k v m)

pub record Journal : Type 0 where
  pub history : List Access
  pub drafts : ℕ → List Access

abbrev pub blank : Journal
blank = record { history = []; drafts = λ i. [] }

abbrev pub read_granted : Str → Str → Option Str → Option ℕ → List Access
read_granted name key found none = []
read_granted name key found (some o) = read name key found ∷ []

abbrev pub read_free : Str → Str → Option Str → Option ℕ → List Access
read_free name key found none = read name key found ∷ []
read_free name key found (some j) = []

-- What a GET reads: nothing, where there is no such table, or another client has it.
abbrev pub reads : ℕ → Str → Str → Option Entry → Bool → List Access
reads i name key none busy = []
reads i name key (some e) true =
    read_granted name key (spec_lookup key e.content) (acquire i e.owner)
reads i name key (some e) false = read_free name key (e.content.committed key) e.owner

abbrev pub write_granted : Str → Str → Str → Option ℕ → List Access
write_granted name key v none = []
write_granted name key v (some o) = wrote name key v ∷ []

abbrev pub write_free : Str → Str → Str → Option ℕ → List Access
write_free name key v none = wrote name key v ∷ []
write_free name key v (some j) = []

abbrev pub writes : ℕ → Str → Str → List Str → Option Entry → Bool → List Access
writes i name key [] o busy = []
writes i name key (v ∷ rest) none busy = []
writes i name key (v ∷ rest) (some e) true = write_granted name key v (acquire i e.owner)
writes i name key (v ∷ rest) (some e) false = write_free name key v e.owner

abbrev pub touches : ℕ → Request → Database → Client → List Access
touches i (Request.get name key) db c = reads i name key (db.tables name) c.in_transaction
touches i (Request.set name key) db c = writes i name key c.stack (db.tables name) c.in_transaction
touches i _ db c = []

-- The accesses of a request.
abbrev pub accesses : ℕ → Request → Database → Client → List Access
accesses i req db c = if needs_user req && not c.logged_in then [] else touches i req db c

abbrev pub is_commit : Request → Bool
is_commit Request.commit = true
is_commit _ = false

abbrev pub dropped : ℕ → Journal → Journal
dropped i j = record j { drafts = update j.drafts i [] }

abbrev pub closed : ℕ → Bool → Journal → Journal
closed i true j = record (dropped i j) { history = j.history ++ j.drafts i }
closed i false j = dropped i j

-- The journal after a request of client `i`, which was in a transaction or not, and is or not.
abbrev pub noted : ℕ → Request → List Access → Bool → Bool → Journal → Journal
noted i req l false false j = record j { history = j.history ++ l }
noted i req l true true j = record j { drafts = update j.drafts i (j.drafts i ++ l) }
noted i req l false true j = dropped i j
noted i req l true false j = closed i (is_commit req) j

abbrev pub noted_line : ℕ → Result Message → Database → Client → Bool → Journal → Journal
noted_line i (throw e) db c busy j = j
noted_line i (ok msg) db c busy j =
    let req = request_of msg.m_message_type msg.m_args in
    noted i req (accesses i req db c) c.in_transaction busy j

-- A client that leaves takes what it has not committed with it.
abbrev pub kept : ℕ → Bool → Journal → Journal
kept i true j = j
kept i false j = dropped i j

-- The journal after a step of the server.
unfoldable pub noted_step : {i : ℕ} {s t : System} → Step i s t → Journal → Journal
noted_step (accepting created e) j = j
noted_step {i} {s} (request buf active live e) j =
    let busy = (chat_step buf (view i s)).1.conn.m_in_transaction in
    kept i active
      (noted_line i (decode (c_string buf)) (database s.server) (client (s.conns i)) busy j)
noted_step {i} (hang_up live) j = dropped i j

unfoldable pub journal : {codes : ℕ → ℕ} {s : System} → Reach codes s → Journal
unfolding noted_step
journal (start fd) = blank
journal (next r i st) = noted_step st (journal r)
