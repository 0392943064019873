-- ===== src/Database/Refinement.antt =====
-- client_connection.cpp: a round of the loop, whatever its line, against the database.
use a_multi_threaded_key_val.Prelude.{ℕ, ◌≡◌, refl, ◌∙◌, Bool, true, false, List, [], ◌∷◌, arith}
use a_multi_threaded_key_val.Text.{Str}
use a_multi_threaded_key_val.Exceptions.{
  Exception, Result, ok, throw, invalid_message, comm_exception, operation_exception,
  failed_transaction,
}
use a_multi_threaded_key_val.Message.{MessageType, Message, valid_args, is_valid}
use a_multi_threaded_key_val.Serialization.{decode, encode}
use a_multi_threaded_key_val.Serialization.Canonical.{decode-canonical}
use a_multi_threaded_key_val.Server.{Server}
use a_multi_threaded_key_val.Connection.{World, Outcome, ◌>>=◌, lift}
use a_multi_threaded_key_val.Connection.Chat.{c_string, dispatch, chat_step, recover}
use a_multi_threaded_key_val.Connection.Rounds.{chat_step-decoded, malformed_line_ends_the_chat}
use a_multi_threaded_key_val.System.{System, Reach, view}
use a_multi_threaded_key_val.System.Invariant.{Reach-Inv}
use a_multi_threaded_key_val.System.Names.{names_lead_apart}
use a_multi_threaded_key_val.System.Tables.{tables-AllFormed}
use a_multi_threaded_key_val.System.Values.{values_fit}
use a_multi_threaded_key_val.Database.{
  Database, Client, rejection, Verdict, replied, add, sub, mul, div, answer,
}
use a_multi_threaded_key_val.Database.Abstraction.{database, client}
use a_multi_threaded_key_val.Database.Rounds.{
  request_of, Refines, Ready, Meets, world, recover-rejection, delivered, reply_message,
}
use a_multi_threaded_key_val.Database.Stack.{
  refused-Meets, login-Meets, bye-Meets, push-Meets, pop-Meets, top-Meets,
}
use a_multi_threaded_key_val.Database.Arithmetic.{compute-Meets}
use a_multi_threaded_key_val.Database.Transactions.{begin-Meets, commit-Meets, unknown-Meets}
use a_multi_threaded_key_val.Database.Tables.{create-Meets}
use a_multi_threaded_key_val.Database.Reads.{get-Meets}
use mathlib.Core.Path.{subst}
use a_multi_threaded_key_val.Database.Writes.{set-Meets}

module _ (srv : Server) (i : ℕ) (vs : List Str) (busy : Bool) (ps : List ℕ) (texts : List Str) where
  abbrev at : Bool → World
  at user = world srv i vs user busy ps texts

  -- A valid request.
  request-Meets :
      (t : MessageType) (args : List Str) (user : Bool)
      → valid_args t args ≡ true
      → Ready (at user)
      → Meets t args (at user)
  unfolding valid_args dispatch
  request-Meets MessageType.login args user v r = login-Meets srv i vs busy ps texts user args
  request-Meets MessageType.bye args user v r = bye-Meets srv i vs busy ps texts user args
  request-Meets MessageType.create (name ∷ args) true v r =
      create-Meets srv i vs busy ps texts name args r
  request-Meets MessageType.create [] true v r = absurd (ground arith)
  request-Meets MessageType.get (name ∷ key ∷ args) true v r =
      get-Meets name key srv i vs texts busy ps args r
  request-Meets MessageType.get (name ∷ []) true v r = absurd (ground arith)
  request-Meets MessageType.get [] true v r = absurd (ground arith)
  request-Meets MessageType.set (name ∷ key ∷ args) true v r =
      set-Meets name key srv i texts vs busy ps args r
  request-Meets MessageType.set (name ∷ []) true v r = absurd (ground arith)
  request-Meets MessageType.set [] true v r = absurd (ground arith)
  request-Meets MessageType.push (value ∷ args) true v r =
      push-Meets srv i vs busy ps texts value args
  request-Meets MessageType.push [] true v r = absurd (ground arith)
  request-Meets MessageType.pop args true v r = pop-Meets srv i busy ps texts vs args
  request-Meets MessageType.top args true v r = top-Meets srv i busy ps texts vs args r.fits
  request-Meets MessageType.add args true v r = compute-Meets srv i busy ps texts add vs args
  request-Meets MessageType.sub args true v r = compute-Meets srv i busy ps texts sub vs args
  request-Meets MessageType.mul args true v r = compute-Meets srv i busy ps texts mul vs args
  request-Meets MessageType.div args true v r = compute-Meets srv i busy ps texts div vs args
  request-Meets MessageType.begin args true v r = begin-Meets srv i vs ps texts busy args r
  request-Meets MessageType.commit args true v r = commit-Meets srv i vs ps texts busy args r
  request-Meets MessageType.none_type args true v r =
      unknown-Meets srv i vs ps texts busy MessageType.none_type args refl refl refl
  request-Meets MessageType.ok args true v r =
      unknown-Meets srv i vs ps texts busy MessageType.ok args refl refl refl
  request-Meets MessageType.failed args true v r =
      unknown-Meets srv i vs ps texts busy MessageType.failed args refl refl refl
  request-Meets MessageType.error args true v r =
      unknown-Meets srv i vs ps texts busy MessageType.error args refl refl refl
  request-Meets MessageType.data_type args true v r =
      unknown-Meets srv i vs ps texts busy MessageType.data_type args refl refl refl
  request-Meets t args false v r = refused-Meets srv i vs busy ps texts t args refl

-- `e.what()`
abbrev pub what : Exception → Str
what (invalid_message text) = text
what (comm_exception text) = text
what (operation_exception text) = text
what (failed_transaction text) = text

-- What a line of client `i` comes to.
abbrev pub answer_to : ℕ → Result Message → Database → Client → Verdict
answer_to i (ok msg) db c = answer i (request_of msg.m_message_type msg.m_args) db c
answer_to i (throw e) db c = replied (rejection (what e)) false db c

chat_step-thrown :
    (buf : Str) (w : World) (e : Exception)
    → decode (c_string buf) ≡ throw e
    → chat_step buf w ≡ recover e w
unfolding chat_step lift ◌>>=◌
chat_step-thrown buf w e d = rw d

line-Refines :
    (buf : Str) (r : Result Message) (w : World)
    → Ready w
    → decode (c_string buf) ≡ r
    → Refines w.conn.written
        (answer_to w.conn.thread r (database w.server) (client w.conn))
        (chat_step buf w)
unfolding is_valid
line-Refines buf (ok msg) w ready d =
    let c = w.conn in
    rw (chat_step-decoded buf w msg d) (
      request-Meets w.server c.thread c.m_stack.m_vector c.m_in_transaction c.locked_tables
        c.written msg.m_message_type msg.m_args c.m_logged_in
        (decode-canonical (c_string buf) msg d).0 ready)
line-Refines buf (throw e) w ready d =
    let (text, invalid, answered) = malformed_line_ends_the_chat buf w e d in
    let rejected : ◌≡◌ {A = Outcome Bool × World} (recover e w)
        (delivered false (encode (reply_message (rejection (what e)))) w) =
      rw invalid (recover-rejection text w) in
    (w, chat_step-thrown buf w e d ∙ rejected, refl, refl, refl)

pub Reach-Ready : {codes : ℕ → ℕ} {s : System} → Reach codes s → (i : ℕ) → Ready (view i s)
Reach-Ready r i = record {
  sound = (Reach-Inv r).sound i;
  named = names_lead_apart r;
  formed = tables-AllFormed r;
  fits = (values_fit r).1 i;
}

-- In a reachable state, a round of connection i does what the database says of the line: it leaves
-- the database and the client in the state that is told, writes the response that is told
-- and goes on or ends as told; it waits, or is undefined, where the database says so. A response
-- that is too long for `encode` is not written, and the round ends by the exception of `encode`.
pub rounds_refine_database :
    {codes : ℕ → ℕ} {s : System}
    → Reach codes s
    → (i : ℕ) (buf : Str)
    → Refines
        (s.conns i).written
        (answer_to i (decode (c_string buf)) (database s.server) (client (s.conns i)))
        (chat_step buf (view i s))
rounds_refine_database {s = s} r i buf =
    let k = line-Refines buf _ (view i s) (Reach-Ready r i) refl in
    subst
      (λ j.
        Refines (s.conns i).written
          (answer_to j (decode (c_string buf)) (database s.server) (client (s.conns i)))
          (chat_step buf (view i s)))
      ((Reach-Inv r).threads i) k
