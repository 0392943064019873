-- ===== src/Examples/Limits.antt =====
-- The theorems on texts that are too long, at texts of that length.
use a_multi_threaded_key_val.Prelude.{all}
use a_multi_threaded_key_val.Message.{is_valid}
use a_multi_threaded_key_val.Serialization.{encode}
use a_multi_threaded_key_val.Connection.Buffer.{is_inner, not_terminated, full_message_is_refused}
use a_multi_threaded_key_val.Prelude.{
  ℕ, zero, suc, ◌≡◌, ◌<◌, refl, true, false, some, [], ◌∷◌, ◌++◌, length, arith,
}
use a_multi_threaded_key_val.Prelude.Int.{pos}
use a_multi_threaded_key_val.Text.{Str, codes}
use a_multi_threaded_key_val.Map.{find}
use a_multi_threaded_key_val.Exceptions.{ok, invalid_message}
use a_multi_threaded_key_val.Message.{MessageType, Message, message}
use a_multi_threaded_key_val.Serialization.{decode}
use a_multi_threaded_key_val.Server.{new_server}
use a_multi_threaded_key_val.Connection.{World, returned, raised, new_connection}
use a_multi_threaded_key_val.Connection.Chat.{c_string, chat_step}
use a_multi_threaded_key_val.Connection.Arithmetic.{with_text}
use a_multi_threaded_key_val.Connection.Rounds.{error_text}
use a_multi_threaded_key_val.Connection.Endings.{long_conflict_escapes}
use a_multi_threaded_key_val.Scenarios.{run}

-- A connection that has just been accepted.
abbrev fresh : World
fresh = record { server = new_server (λ _. 0); conn = new_connection 0 }

-- A table whose name has 985 bytes, held by thread 1.
letters : ℕ → Str
letters zero = []
letters (suc n) = b'a' ∷ letters n

abbrev long_name : Str
long_name = letters 985

abbrev held : World
held = record {
  server = record (new_server (λ _. 0)) {
    listen_fd = pos 3;
    set_of_table = (long_name, 0) ∷ [];
    cell = λ p. record {
      m_name = long_name;
      key_value = [];
      key_value_temp = [];
      table_mutex = some 1;
    };
    allocated = 1;
  };
  conn = record (new_connection 0) { m_logged_in = true; m_in_transaction = true };
}

abbrev long_line : Str
long_line = codes "GET " ++ (long_name ++ (codes " k" ++ 10 ∷ []))

long_decodes :
    decode (c_string long_line) ≡ ok (message MessageType.get (long_name ∷ codes "k" ∷ []))
unfolding run letters
long_decodes = refl

long_found : find long_name held.server.set_of_table ≡ some 0
unfolding run letters
long_found = refl

long_name_is_long : 984 < length long_name
unfolding letters
long_name_is_long = omega arith

long_conflict_escapes_example :
    (chat_step long_line held).0
    ≡ raised (invalid_message (codes "Encoded message exceeds maximum length"))
long_conflict_escapes_example =
    long_conflict_escapes long_line long_name (codes "k") held 0 1 long_decodes refl refl long_found
      refl refl long_name_is_long

-- A PUSH whose text has 1024 bytes with its newline.
abbrev long_push : Message
long_push = message MessageType.push (letters 1018 ∷ [])

abbrev long_front : Str
long_front = codes "PUSH " ++ letters 1018

long_push_valid : is_valid long_push ≡ true
unfolding run letters
long_push_valid = refl

long_push_encodes : encode long_push ≡ ok (long_front ++ 10 ∷ [])
unfolding run letters
long_push_encodes = refl

long_front-length : length long_front ≡ 1023
unfolding letters
long_front-length = refl

long_front_inner : all is_inner long_front ≡ true
unfolding letters
long_front_inner = refl

full_message_is_refused_example :
    (decode (long_front ++ 10 ∷ []) ≡ ok long_push)
    × (chat_step long_front fresh ≡ (returned false, with_text (error_text not_terminated) fresh))
full_message_is_refused_example =
    full_message_is_refused long_push long_front fresh long_push_valid long_push_encodes
      long_front-length long_front_inner
