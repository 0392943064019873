-- ===== src/Database/Rounds.antt =====
-- What it means that a round of client_connection.cpp does what the database says.
use a_multi_threaded_key_val.Prelude.{ℕ, ◌≡◌, refl, Bool, true, false, List, [], ◌∷◌, All}
use a_multi_threaded_key_val.Text.{Str}
use a_multi_threaded_key_val.Exceptions.{
  Result, ok, throw, invalid_message, operation_exception, failed_transaction,
}
use a_multi_threaded_key_val.Message.{MessageType, Message, message}
use a_multi_threaded_key_val.Serialization.{encode}
use a_multi_threaded_key_val.Table.Refinement.{IsWellFormed}
use a_multi_threaded_key_val.Server.{Server}
use a_multi_threaded_key_val.Server.Tables.{IsIndexed}
use a_multi_threaded_key_val.Connection.{
  World, Outcome, returned, raised, blocked, undefined, lift, modify, pure, continue, ◌>>=◌,
  respond, end_transaction, rollback_and_unlock, table_at,
}
use a_multi_threaded_key_val.Connection.Chat.{recover, catch, serve}
use a_multi_threaded_key_val.Connection.Invariant.{IsSound}
use a_multi_threaded_key_val.Connection.Arithmetic.{with_text}
use a_multi_threaded_key_val.Connection.Values.{IsFitting}
use a_multi_threaded_key_val.Database.{
  Operator, Request, Reply, done, value, failure, rejection, Verdict, replied, waits, unspecified,
  answer,
}
use a_multi_threaded_key_val.Database.Abstraction.{database, client}

-- The first arguments of a request.
abbrev pub with_one : (Str → Request) → List Str → Request
with_one f [] = Request.unknown
with_one f (a ∷ args) = f a

abbrev pub with_two : (Str → Str → Request) → List Str → Request
with_two f [] = Request.unknown
with_two f (a ∷ []) = Request.unknown
with_two f (a ∷ b ∷ args) = f a b

-- The request that a message makes.
abbrev pub request_of : MessageType → List Str → Request
request_of MessageType.login args = Request.login
request_of MessageType.create args = with_one Request.create args
request_of MessageType.get args = with_two Request.get args
request_of MessageType.set args = with_two Request.set args
request_of MessageType.push args = with_one Request.push args
request_of MessageType.pop args = Request.pop
request_of MessageType.top args = Request.top
request_of MessageType.add args = Request.compute Operator.add
request_of MessageType.sub args = Request.compute Operator.sub
request_of MessageType.mul args = Request.compute Operator.mul
request_of MessageType.div args = Request.compute Operator.div
request_of MessageType.begin args = Request.begin
request_of MessageType.commit args = Request.commit
request_of MessageType.bye args = Request.bye
request_of _ args = Request.unknown

abbrev pub reply_message : Reply → Message
reply_message done = message MessageType.ok []
reply_message (value v) = message MessageType.data_type (v ∷ [])
reply_message (failure what) = message MessageType.failed (what ∷ [])
reply_message (rejection what) = message MessageType.error (what ∷ [])

-- A response that fits is written; one that is too long for `encode` ends the round by its exception.
abbrev pub delivered : Bool → Result Str → World → Outcome Bool × World
delivered active (ok text) w = (returned active, with_text text w)
delivered active (throw e) w = (raised e, w)

-- A round of a connection that has written `texts`, against what the database says.
abbrev pub Refines : List Str → Verdict → Outcome Bool × World → Type 0
Refines texts (replied r active db c) round =
    (w : World) × (round ≡ delivered active (encode (reply_message r)) w)
    × (database w.server ≡ db)
    × (client w.conn ≡ c)
    × (w.conn.written ≡ texts)
Refines texts waits round = round.0 ≡ blocked
Refines texts unspecified round = round.0 ≡ undefined

-- What a world has in every state that the system reaches.
pub record Ready (w : World) : Type 0 where
  pub sound : IsSound w
  pub named : IsIndexed w.server
  pub formed : (p : ℕ) → IsWellFormed (table_at p w)
  pub fits : All IsFitting w.conn.m_stack.m_vector

-- A connection in all its parts.
abbrev pub world : Server → ℕ → List Str → Bool → Bool → List ℕ → List Str → World
world srv i vs user busy ps texts = record {
  server = srv;
  conn = record {
    thread = i;
    m_stack = record { m_vector = vs };
    m_logged_in = user;
    m_in_transaction = busy;
    locked_tables = ps;
    written = texts;
  };
}

-- A round, once its line is decoded.
abbrev pub served : MessageType → List Str → World → Outcome Bool × World
served t args w = let (o, v) = serve (message t args) w in catch o v

write_lem :
    (active : Bool) (r : Result Str) (w : World)
    → ((lift r >>= λ text. modify (with_text text)) >>= λ u. pure active) w ≡ delivered active r w
unfolding ◌>>=◌ pure modify lift
write_lem active (ok text) w = refl
write_lem active (throw e) w = refl

pub respond-delivered :
    (active : Bool) (msg : Message) (w : World)
    → (respond msg >>= λ u. pure active) w ≡ delivered active (encode msg) w
unfolding respond
respond-delivered active msg w = write_lem active (encode msg) w

-- The answers to an exception.
module _ (what : Str) (w : World) where
  pub recover-failure :
      recover (operation_exception what) w
      ≡ delivered true (encode (reply_message (failure what))) w
  unfolding recover
  recover-failure = respond-delivered true (reply_message (failure what)) w

  pub recover-abort :
      recover (failed_transaction what) w
      ≡ delivered true
          (encode (reply_message (failure what)))
          (end_transaction rollback_and_unlock w)
  unfolding recover ◌>>=◌ modify
  recover-abort =
      respond-delivered true (reply_message (failure what)) (end_transaction rollback_and_unlock w)

  pub recover-rejection :
      recover (invalid_message what) w ≡ delivered false (encode (reply_message (rejection what))) w
  unfolding recover
  recover-rejection = respond-delivered false (reply_message (rejection what)) w

-- What is left of a round once its handler is through.
abbrev pub concluded : Outcome (Unit {0}) × World → Outcome Bool × World
concluded (o, w) = let (p, v) = continue o (λ u. pure true) w in catch p v

-- The round of a request, against what the database says of it.
abbrev pub Meets : MessageType → List Str → World → Type 0
Meets t args w =
    Refines w.conn.written
      (answer w.conn.thread (request_of t args) (database w.server) (client w.conn))
      (served t args w)
