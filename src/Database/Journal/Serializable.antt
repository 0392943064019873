-- ===== src/Database/Journal/Serializable.antt =====
-- The journal over the steps of the users, and over the threads of the server.
use mathlib.Core.Path.{subst}
use a_multi_threaded_key_val.Prelude.{ℕ, ◌≡◌, refl, sym, ap, ◌∙◌, Bool, true, false, some, arith}
use a_multi_threaded_key_val.Prelude.Family.{update}
use a_multi_threaded_key_val.Text.{Str}
use a_multi_threaded_key_val.Map.{find}
use a_multi_threaded_key_val.Exceptions.{Result, ok, throw}
use a_multi_threaded_key_val.Message.{Message}
use a_multi_threaded_key_val.Serialization.{decode}
use a_multi_threaded_key_val.Connection.Chat.{c_string}
use a_multi_threaded_key_val.System.{
  System, Reach, view, proceed, start, next, Step, accepting, request, hang_up, init,
}
use a_multi_threaded_key_val.Database.{Database, Client, replied, out_of_transaction, Reply}
use a_multi_threaded_key_val.Database.Rounds.{request_of}
use a_multi_threaded_key_val.Database.Refinement.{answer_to}
use a_multi_threaded_key_val.Database.Simulation.{
  users, users-install, users-finish, users-accept, returned-Told,
}
use a_multi_threaded_key_val.Database.Journal.{
  nothing, replay, Agrees, Journal, blank, noted_line, journal, dropped, kept, noted_step,
}
use a_multi_threaded_key_val.Database.Journal.Serial.{Serial}
use a_multi_threaded_key_val.Database.Journal.Endings.{Serial-rollback}
use a_multi_threaded_key_val.Database.Journal.Quiet.{Keeps}
use a_multi_threaded_key_val.Connection.{World}
use a_multi_threaded_key_val.Connection.Invariant.{IsSound}
use a_multi_threaded_key_val.Database.Abstraction.{database, client}
use a_multi_threaded_key_val.System.Invariant.{Reach-Inv}
use a_multi_threaded_key_val.Connection.Safety.{Safe-chat_step}
use a_multi_threaded_key_val.Prelude.Int.{ℤ}
use a_multi_threaded_key_val.Database.Journal.Answers.{answer-Keeps}

-- Only the clients' transactions matter.
Serial-clients :
    (db : Database) (clients others : ℕ → Client) (j : Journal)
    → ((o : ℕ) → (others o).in_transaction ≡ false → (clients o).in_transaction ≡ false)
    → Serial db clients j
    → Serial db others j
Serial-clients db clients others j idle s = record {
  history_agrees = s.history_agrees;
  history_runs = s.history_runs;
  drafts_hold = s.drafts_hold;
  clean = s.clean;
  idle = λ o n out. s.idle o n (idle o out);
}

-- A line that is answered.
module _ (i : ℕ) (db : Database) (clients : ℕ → Client) (j : Journal)
    (s : Serial db clients j) where
  line-Keeps :
      (r : Result Message)
      → Keeps i clients (λ b. noted_line i r db (clients i) b j) (answer_to i r db (clients i))
  line-Keeps (ok msg) =
      let c = clients i in
      answer-Keeps i db clients j s c.stack (request_of msg.m_message_type msg.m_args) c.logged_in
        c.in_transaction refl
  line-Keeps (throw e) = Serial-clients db clients _ j (λ o h. ground (arith, h)) s

  answered-Serial :
      (m : Result Message) (r : Reply) (active : Bool) (after : Database) (c : Client)
      → answer_to i m db (clients i) ≡ replied r active after c
      → Serial after (update clients i c) (noted_line i m db (clients i) c.in_transaction j)
  answered-Serial m r active after c told =
      subst (Keeps i clients (λ b. noted_line i m db (clients i) b j)) told (line-Keeps m)

abbrev pub IsSerial : System → Journal → Type 0
IsSerial s j = Serial (users s).db (users s).clients j

-- A connection goes on, or ends, in the world `w`.
proceed-IsSerial :
    (i : ℕ) (active : Bool) (w : World) (s : System) (j : Journal)
    → IsSound w
    → w.conn.thread ≡ i
    → Serial (database w.server) (update (users s).clients i (client w.conn)) j
    → IsSerial (proceed i active w s) (kept i active j)
proceed-IsSerial i true w s j sound thread k =
    subst (λ u. Serial u.db u.clients j) (sym (users-install i w s)) k
proceed-IsSerial i false w s j sound thread k =
    subst (λ u. Serial u.db u.clients (dropped i j)) (sym (users-finish w sound i s thread))
      (Serial-clients _ _ _ _ (λ o out. ground (arith, out))
        (Serial-rollback i (database w.server) _ (out_of_transaction (client w.conn)) j k))

Step-IsSerial :
    {codes : ℕ → ℕ} {i : ℕ} {s t : System} (st : Step i s t) (j : Journal)
    → Reach codes s
    → IsSerial s j
    → IsSerial t (noted_step st j)
unfolding noted_step
Step-IsSerial {s = s} (accepting false e) j r h =
    subst (λ u. Serial u.db u.clients j) (sym (users-accept false s)) h
Step-IsSerial {s = s} (accepting true e) j r h =
    let out : (client (s.conns s.accepted)).in_transaction ≡ false =
      ap (λ c. c.m_in_transaction) ((Reach-Inv r).unused s.accepted (omega arith)) in
    subst (λ u. Serial u.db u.clients j) (sym (users-accept true s))
      (Serial-clients _ _ _ j (λ k g. ground (arith, g, out)) h)
Step-IsSerial {i = i} {s = s} (request buf active live e) j r h =
    let inv = Reach-Inv r in
    let (sound, frame) = (Safe-chat_step buf).keeps (view i s) (inv.sound i) (omega arith) in
    let t = returned-Told r i buf active e in
    proceed-IsSerial i active _ s _ sound (frame.thread ∙ inv.threads i) (
      answered-Serial i (database s.server) (users s).clients j h (decode (c_string buf)) t.reply
        active _ _ t.told)
Step-IsSerial {i = i} {s = s} (hang_up live) j r h =
    let inv = Reach-Inv r in
    subst (λ u. Serial u.db u.clients (dropped i j))
      (sym (users-finish (view i s) (inv.sound i) i s (inv.threads i)))
      (Serial-rollback i (database s.server) (users s).clients
        (out_of_transaction (client (s.conns i))) j h)

init-IsSerial : (codes : ℕ → ℕ) (fd : ℤ) → IsSerial (init codes fd) blank
unfolding find
init-IsSerial codes fd = record {
  history_agrees = tt;
  history_runs = refl;
  drafts_hold = λ i. record { agrees = tt; within = tt; runs = λ n k own. absurd (ground arith) };
  clean = λ n e k there free. absurd (ground arith);
  idle = λ i n out. refl;
}

-- The journal of the server and its state belong together.
pub Reach-IsSerial : {codes : ℕ → ℕ} {s : System} (r : Reach codes s) → IsSerial s (journal r)
unfolding journal
Reach-IsSerial {codes} (start fd) = init-IsSerial codes fd
Reach-IsSerial (next r i st) = Step-IsSerial st (journal r) r (Reach-IsSerial r)

-- The history of all that is committed, in the order of the commits, is one that a single client
-- could have made on an empty server without any transaction: made one after the other, each GET in
-- it finds what it has found, and they leave in each table the entries that are committed.
pub commits_are_serial :
    {codes : ℕ → ℕ} {s : System} (r : Reach codes s)
    → Agrees (journal r).history nothing
      × ((name key : Str) (p : ℕ)
          → find name s.server.set_of_table ≡ some p
          → replay (journal r).history nothing name key ≡ find key (s.server.cell p).key_value)
commits_are_serial r =
    let k = Reach-IsSerial r in
    (k.history_agrees, λ name key p found. ap (λ m. m name key) k.history_runs ∙ rw found refl)
