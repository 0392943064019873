-- ===== src/Database/Simulation.antt =====
-- server.cpp: the threads of the server, one whole round at a time, against the users of the database.
use mathlib.Core.Path.{fun_ext, subst}
use a_multi_threaded_key_val.Prelude.{
  ℕ, ◌+◌, ◌≡◌, refl, sym, ap, ◌∙◌, Bool, true, false, ◌∷◌, Bool-cases, inl, inr, arith, ◌==◌,
}
use a_multi_threaded_key_val.Prelude.Family.{update}
use a_multi_threaded_key_val.Text.{Str}
use a_multi_threaded_key_val.Exceptions.{Result, ok, throw}
use a_multi_threaded_key_val.Serialization.{encode, decode}
use a_multi_threaded_key_val.Map.{find}
use a_multi_threaded_key_val.Table.Refinement.{spec_rollback}
use a_multi_threaded_key_val.Connection.{
  Connection, World, returned, new_connection, end_transaction,
}
use a_multi_threaded_key_val.Connection.Chat.{c_string, chat_step}
use a_multi_threaded_key_val.System.{
  System, Step, accepting, request, hang_up, Reach, start, next, view, install, finish, proceed,
  close, accept, init,
}
use a_multi_threaded_key_val.System.Invariant.{Reach-Inv, close-eq-end_transaction}
use a_multi_threaded_key_val.Database.{
  Database, Client, Reply, Verdict, replied, waits, unspecified, end_all, out_of_transaction,
}
use a_multi_threaded_key_val.Database.Abstraction.{database, client}
use a_multi_threaded_key_val.Database.Rounds.{Refines, delivered, reply_message}
use a_multi_threaded_key_val.Database.Transactions.{database-rollback}
use a_multi_threaded_key_val.Database.Refinement.{answer_to, rounds_refine_database}
use a_multi_threaded_key_val.Connection.Invariant.{IsSound}
use a_multi_threaded_key_val.Connection.Safety.{Safe-chat_step}
use a_multi_threaded_key_val.Prelude.Int.{ℤ}
use a_multi_threaded_key_val.Database.Users.{
  Users, Use, comes, asks, leaves, Uses, opened, used, no_users, moved, left, stays, welcomed,
}

-- The users that a system stands for.
abbrev pub users : System → Users
users s = record {
  db = database s.server;
  clients = λ i. client (s.conns i);
  heard = λ i. (s.conns i).written;
  present = s.alive;
  accepted = s.accepted;
}

-- A connection that is exchanged, as a client and as what it has written.
module _ {ℓ} {A : Type ℓ} where
  map-update :
      (f : Connection → A) (conns : ℕ → Connection) (i : ℕ) (c : Connection)
      → ◌≡◌ {A = ℕ → A} (λ j. f (update conns i c j)) (update (λ j. f (conns j)) i (f c))
  map-update f conns i c =
      fun_ext
        λ j. elim (Bool-cases (j == i)) [ inl same ↦ rw same refl | inr other ↦ rw other refl ]

pub users-install :
    (i : ℕ) (w : World) (s : System)
    → users (install i w s) ≡ moved i (database w.server) (client w.conn) w.conn.written (users s)
users-install i w s =
    let clients = map-update client s.conns i w.conn in
    let texts = map-update (λ c. c.written) s.conns i w.conn in
    λ k. record {
      db = database w.server;
      clients = clients k;
      heard = texts k;
      present = s.alive;
      accepted = s.accepted;
    }

-- The destructor of a connection.
module _ (w : World) (sound : IsSound w) where
  closed :
      (database (close w).server ≡ end_all spec_rollback w.conn.thread (database w.server))
      × (client (close w).conn ≡ out_of_transaction (client w.conn))
      × ((close w).conn.written ≡ w.conn.written)
  unfolding end_transaction
  closed = rw (close-eq-end_transaction w sound) (database-rollback w sound, refl, refl)

  pub users-finish :
      (i : ℕ) (s : System)
      → w.conn.thread ≡ i
      → users (finish i w s) ≡ left i (database w.server) (client w.conn) w.conn.written (users s)
  unfolding finish
  users-finish i s thread =
      let (db, c, texts) = closed in
      let gone : users (install i (close w) s)
          ≡ moved i (end_all spec_rollback i (database w.server))
              (out_of_transaction (client w.conn)) w.conn.written (users s) =
        users-install i (close w) s
        ∙ (λ k. moved i (db k) (c k) (texts k) (users s))
        ∙ ap
            (λ j.
              moved i (end_all spec_rollback j (database w.server))
                (out_of_transaction (client w.conn)) w.conn.written (users s))
            thread in
      ap {A = Users} (λ u. record u { present = update s.alive i false }) gone

pub users-accept :
    (created : Bool) (s : System) → users (accept created s) ≡ welcomed created (users s)
unfolding accept
users-accept false s = refl
users-accept true s =
    let clients = map-update client s.conns s.accepted (new_connection s.accepted) in
    let texts = map-update (λ c. c.written) s.conns s.accepted (new_connection s.accepted) in
    λ k. record {
      db = database s.server;
      clients = clients k;
      heard = texts k;
      present = update s.alive s.accepted true;
      accepted = s.accepted + 1;
    }

users-proceed :
    (i : ℕ) (active : Bool) (w : World) (s : System)
    → IsSound w
    → w.conn.thread ≡ i
    → users (proceed i active w s)
      ≡ stays i active (database w.server) (client w.conn) w.conn.written (users s)
users-proceed i true w s sound thread = users-install i w s
users-proceed i false w s sound thread = users-finish w sound i s thread

returned-eq : (a b : Bool) → returned a ≡ returned b → a ≡ b
returned-eq a b e = cc

-- A round that returns, as what the client asks.
module _ {codes : ℕ → ℕ} {s : System} (r : Reach codes s) (i : ℕ) (buf : Str) where
  abbrev after : World
  after = (chat_step buf (view i s)).1

  abbrev told : Verdict
  told = answer_to i (decode (c_string buf)) (database s.server) (client (s.conns i))

  pub proceeded :
      (active : Bool)
      → users (proceed i active after s)
        ≡ stays i active (database after.server) (client after.conn) after.conn.written (users s)
  proceeded active =
      let inv = Reach-Inv r in
      let (sound, frame) = (Safe-chat_step buf).keeps (view i s) (inv.sound i) (omega arith) in
      users-proceed i active after s sound (frame.thread ∙ inv.threads i)

  -- What the client is told by a round that returns.
  pub record Told (active : Bool) : Type 0 where
    pub reply : Reply
    pub text : Str
    pub told :
        answer_to i (decode (c_string buf)) (database s.server) (client (s.conns i))
        ≡ replied reply active (database after.server) (client after.conn)
    pub sent : encode (reply_message reply) ≡ ok text
    pub heard : after.conn.written ≡ text ∷ (s.conns i).written

  replied-Told :
      (reply : Reply) (go active : Bool) (db : Database) (c : Client) (w : World)
      (sent : Result Str)
      → told ≡ replied reply go db c
      → encode (reply_message reply) ≡ sent
      → chat_step buf (view i s) ≡ delivered go sent w
      → database w.server ≡ db
      → client w.conn ≡ c
      → w.conn.written ≡ (s.conns i).written
      → (chat_step buf (view i s)).0 ≡ returned active
      → Told active
  replied-Told reply go active db c w (throw x) t sent round dbs cs texts e =
      absurd (let k = rw round at e in ground arith)
  replied-Told reply go active db c w (ok text) t sent round dbs cs texts e =
      let same : active ≡ go = returned-eq active go (sym e ∙ ap (λ x. x.0) round) in
      let db_same : database after.server ≡ db = ap (λ x. database x.1.server) round ∙ dbs in
      let c_same : client after.conn ≡ c = ap (λ x. client x.1.conn) round ∙ cs in
      record {
        reply = reply;
        text = text;
        told = t ∙ (λ k. replied reply (sym same k) (sym db_same k) (sym c_same k));
        sent = sent;
        heard = ap (λ x. x.1.conn.written) round ∙ ap (◌∷◌ text) texts;
      }

  round-Told :
      (v : Verdict) (active : Bool)
      → told ≡ v
      → (chat_step buf (view i s)).0 ≡ returned active
      → Refines (s.conns i).written v (chat_step buf (view i s))
      → Told active
  round-Told waits active t e h = absurd (ground arith)
  round-Told unspecified active t e h = absurd (ground arith)
  round-Told (replied reply go db c) active t e (w, round, dbs, cs, texts) =
      replied-Told reply go active db c w _ t refl round dbs cs texts e

  pub returned-Told : (active : Bool) → (chat_step buf (view i s)).0 ≡ returned active → Told active
  returned-Told active e = round-Told _ active refl e (rounds_refine_database r i buf)

  asked :
      (active : Bool)
      → s.alive i ≡ true
      → (chat_step buf (view i s)).0 ≡ returned active
      → Use i (users s) (users (proceed i active after s))
  asked active live e =
      let t = returned-Told active e in
      subst (Use i (users s))
        (sym (
          proceeded active
          ∙ ap (λ h. stays i active (database after.server) (client after.conn) h (users s))
              t.heard))
        (asks buf t.reply active _ _ t.text live t.told t.sent)

-- A step of the system is one of the users.
Step-Use :
    {codes : ℕ → ℕ} {i : ℕ} {s t : System} → Reach codes s → Step i s t → Use i (users s) (users t)
Step-Use {i = i} {s = s} r (accepting created e) =
    subst (Use i (users s)) (sym (users-accept created s)) (comes created e)
Step-Use {i = i} r (request buf active live e) = asked r i buf active live e
Step-Use {i = i} {s = s} r (hang_up live) =
    let inv = Reach-Inv r in
    subst (Use i (users s)) (sym (users-finish (view i s) (inv.sound i) i s (inv.threads i)))
      (leaves live)

users-init : (codes : ℕ → ℕ) (fd : ℤ) → users (init codes fd) ≡ no_users codes
unfolding find
users-init codes fd = refl

-- Whatever the server reaches where each round, each connection that is accepted and each one that hangs
-- up is one step, the users of the database reach: the tables, the clients, what each of them has been
-- sent and which of them are there are at every time what some order of whole requests to the database
-- makes of them. A COMMIT, a rollback and a destructor count as one step here for all their tables.
pub system_refines_database : {codes : ℕ → ℕ} {s : System} → Reach codes s → Uses codes (users s)
system_refines_database {codes} (start fd) = subst (Uses codes) (sym (users-init codes fd)) opened
system_refines_database (next r i st) = used (system_refines_database r) i (Step-Use r st)
