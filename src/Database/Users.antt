-- ===== src/Database/Users.antt =====
-- The users of a database: clients that come, send lines and leave, in any order.
use a_multi_threaded_key_val.Prelude.{ℕ, ◌+◌, ◌≡◌, Bool, true, false, none, List, [], ◌∷◌}
use a_multi_threaded_key_val.Prelude.Family.{update}
use a_multi_threaded_key_val.Text.{Str}
use a_multi_threaded_key_val.Exceptions.{ok}
use a_multi_threaded_key_val.Serialization.{encode, decode}
use a_multi_threaded_key_val.Table.Refinement.{spec_rollback}
use a_multi_threaded_key_val.Connection.Chat.{c_string}
use a_multi_threaded_key_val.Database.{
  Database, Client, Reply, replied, end_all, out_of_transaction,
}
use a_multi_threaded_key_val.Database.Rounds.{reply_message}
use a_multi_threaded_key_val.Database.Refinement.{answer_to}

-- `heard i` is what client `i` has been sent, the last text first.
pub record Users : Type 0 where
  pub db : Database
  pub clients : ℕ → Client
  pub heard : ℕ → List Str
  pub present : ℕ → Bool
  pub accepted : ℕ

abbrev pub new_client : Client
new_client = record { stack = []; logged_in = false; in_transaction = false }

abbrev pub no_users : (ℕ → ℕ) → Users
no_users codes = record {
  db = record { tables = λ n. none; created = 0; mutex_init = codes };
  clients = λ i. new_client;
  heard = λ i. [];
  present = λ i. false;
  accepted = 0;
}

-- A client that is there has come to another state, and has been sent `texts`.
abbrev pub moved : ℕ → Database → Client → List Str → Users → Users
moved i db c texts u = record u {
  db = db;
  clients = update u.clients i c;
  heard = update u.heard i texts;
}

-- It leaves: what it has not committed is gone.
abbrev pub left : ℕ → Database → Client → List Str → Users → Users
left i db c texts u = record (moved i (end_all spec_rollback i db) (out_of_transaction c) texts u) {
  present = update u.present i false;
}

abbrev pub stays : ℕ → Bool → Database → Client → List Str → Users → Users
stays i true db c texts u = moved i db c texts u
stays i false db c texts u = left i db c texts u

abbrev pub welcomed : Bool → Users → Users
welcomed true u = record u {
  clients = update u.clients u.accepted new_client;
  heard = update u.heard u.accepted [];
  present = update u.present u.accepted true;
  accepted = u.accepted + 1;
}
welcomed false u = u

-- What client `i` can do. A line that makes it wait is no step.
pub data Use (i : ℕ) (u : Users) : Users → Type 0 where
  comes : (created : Bool) → u.accepted ≡ i → Use i u (welcomed created u)
  asks :
      (buf : Str) (r : Reply) (active : Bool) (db : Database) (c : Client) (text : Str)
      → u.present i ≡ true
      → answer_to i (decode (c_string buf)) u.db (u.clients i) ≡ replied r active db c
      → encode (reply_message r) ≡ ok text
      → Use i u (stays i active db c (text ∷ u.heard i) u)
  leaves : u.present i ≡ true → Use i u (left i u.db (u.clients i) (u.heard i) u)

pub data Uses (codes : ℕ → ℕ) : Users → Type 0 where
  opened : Uses codes (no_users codes)
  used : {u v : Users} → Uses codes u → (i : ℕ) → Use i u v → Uses codes v
