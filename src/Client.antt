-- ===== src/Client.antt =====
-- What get_value.cpp, set_value.cpp and incr_value.cpp share: a connection to a peer, a buffer for
-- the line that is read, and the code that sends a request and decodes the response.
pub mod GetValue
pub mod SetValue
pub mod IncrValue
pub mod Responses
use a_multi_threaded_key_val.Prelude.{
  ℕ, Bool, true, false, Option, none, some, List, [], ◌∷◌, ◌++◌, if◌then◌else◌,
}
use a_multi_threaded_key_val.Text.{Str, codes}
use a_multi_threaded_key_val.Exceptions.{
  Exception, Result, ok, throw, invalid_message, comm_exception, operation_exception,
  failed_transaction,
}
use a_multi_threaded_key_val.Message.{MessageType, Message, get_quoted_text}
use a_multi_threaded_key_val.Serialization.{encode, decode}
use a_multi_threaded_key_val.Connection.Chat.{c_string}

-- The other end and csapp.c: `open_clientfd` succeeds or not, `rio_writen` is given a text, and
-- `rio_readlineb` leaves something in the buffer. What it returns is not read by the clients, so
-- at the end of the input the buffer is what it was.
pub record Peer (S : Type 0) : Type 0 where
  pub open_clientfd : Str → Str → S → Bool
  pub writen : Str → S → S
  pub readlineb : Str → S → Str × S

-- `stdout` and `stderr` are what was printed, the last line first.
pub record Process (S : Type 0) : Type 0 where
  pub peer : S
  pub buf : Str
  pub stdout : List Str
  pub stderr : List Str

-- `failure what` is an exception; every one is a `std::exception`.
pub data Ended (A : Type 0) : Type 0 where
  value : A → Ended A
  failure : Str → Ended A
  undefined : Ended A

abbrev pub Client : Type 0 → Type 0 → Type 0
Client S A = Process S → Ended A × Process S

abbrev pub what : Exception → Str
what (invalid_message s) = s
what (comm_exception s) = s
what (operation_exception s) = s
what (failed_transaction s) = s

abbrev pub ended : {A : Type 0} → Result A → Ended A
ended (ok a) = value a
ended (throw e) = failure (what e)

-- `m_args[i]`
abbrev pub defined : {A : Type 0} → Option A → Ended A
defined (some a) = value a
defined none = undefined

abbrev pub and_then : {S A B : Type 0} → Ended A → (A → Client S B) → Client S B
and_then (value a) f p = f a p
and_then (failure e) f p = (failure e, p)
and_then undefined f p = (undefined, p)

infixl 5 ◌>>=◌
unfoldable pub ◌>>=◌ : {S A B : Type 0} → Client S A → (A → Client S B) → Client S B
◌>>=◌ m f p = let (o, p') = m p in and_then o f p'

infixl 5 ◌>>◌
abbrev pub ◌>>◌ : {S B : Type 0} → Client S (Unit {0}) → Client S B → Client S B
m >> n = m >>= λ _. n

unfoldable pub pure : {S A : Type 0} → A → Client S A
pure a p = (value a, p)

unfoldable pub fail : {S A : Type 0} → Str → Client S A
fail e p = (failure e, p)

unfoldable pub lift : {S A : Type 0} → Result A → Client S A
lift r p = (ended r, p)

unfoldable pub checked : {S A : Type 0} → Option A → Client S A
checked o p = (defined o, p)

-- `std::cout << text << std::endl`
unfoldable pub print : {S : Type 0} → Str → Client S (Unit {0})
print text p = (value tt, record p { stdout = text ∷ p.stdout })

abbrev pub is_ok : MessageType → Bool
is_ok MessageType.ok = true
is_ok _ = false

abbrev pub is_data : MessageType → Bool
is_data MessageType.data_type = true
is_data _ = false

-- An exit code, and the process as it ends; `none` is undefined behaviour.
abbrev pub finished : {S : Type 0} → Ended (Unit {0}) × Process S → Option ℕ × Process S
finished (value a, p) = (some 0, p)
finished (failure e, p) = (some 1, record p { stderr = e ∷ p.stderr })
finished (undefined, p) = (none, p)

abbrev pub usage_error : {S : Type 0} → List Str → Process S → Option ℕ × Process S
usage_error lines p = (some 1, record p { stderr = lines ++ p.stderr })

module _ {S : Type 0} (peer : Peer S) where
  -- `encode` and `rio_writen`
  unfoldable pub send : Message → Client S (Unit {0})
  unfolding ◌>>=◌ lift
  send msg = do
    encoded ← lift (encode msg)
    λ p. (value tt, record p { peer = peer.writen encoded p.peer })

  -- `rio_readlineb` and `decode`
  unfoldable pub receive : Client S Message
  receive p =
      let (buf, s) = peer.readlineb p.buf p.peer in
      (ended (decode (c_string buf)), record p { peer = s; buf = buf })

  -- A request with its response, which must be OK.
  unfoldable pub request : Message → Str → Client S (Unit {0})
  unfolding send receive ◌>>=◌ pure fail
  request msg label = do
    send msg
    resp ← receive
    if is_ok resp.m_message_type
        then pure tt
        else fail (
            codes "Error: "
            ++ (label ++ (codes " failed. Server response: " ++ get_quoted_text resp)))

  -- The first statement of the `try`.
  unfoldable pub connect : Str → Str → Client S (Unit {0})
  unfolding pure fail
  connect hostname port p =
      if peer.open_clientfd hostname port p.peer
      then pure tt p
      else fail (codes "fail to connect the serve") p
