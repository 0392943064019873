-- ===== src/Examples/Clients.antt =====
-- The theorems on the client programs and on the tables by name, at concrete inputs.
use a_multi_threaded_key_val.Prelude.{◌≡◌, refl, none, some, [], ◌∷◌, arith}
use a_multi_threaded_key_val.Text.{Str, codes}
use a_multi_threaded_key_val.Map.{find}
use a_multi_threaded_key_val.Exceptions.{ok}
use a_multi_threaded_key_val.Message.{MessageType, message}
use a_multi_threaded_key_val.Serialization.{encode, decode}
use a_multi_threaded_key_val.Server.{Server, new_server}
use a_multi_threaded_key_val.Server.Tables.{IsIndexed}
use a_multi_threaded_key_val.Connection.Chat.{c_string}
use a_multi_threaded_key_val.Client.{Process}
use a_multi_threaded_key_val.Client.SetValue
use a_multi_threaded_key_val.Client.Responses.{
  ok_line, bye_line, hanging_up, set_value_misses_the_end,
}
use a_multi_threaded_key_val.Scenarios.{line, run}

abbrev started : {S : Type 0} → S → Process S
started s = record { peer = s; buf = []; stdout = []; stderr = [] }

login_text : encode (message MessageType.login (codes "alice" ∷ [])) ≡ ok (line "LOGIN alice")
unfolding run
login_text = refl

push_text : encode (message MessageType.push (codes "7" ∷ [])) ≡ ok (line "PUSH 7")
unfolding run
push_text = refl

set_text : encode (message MessageType.set (codes "t" ∷ codes "k" ∷ [])) ≡ ok (line "SET t k")
unfolding run
set_text = refl

get_text : encode (message MessageType.get (codes "t" ∷ codes "k" ∷ [])) ≡ ok (line "GET t k")
unfolding run
get_text = refl

data_text : decode (c_string (line "DATA 7")) ≡ ok (message MessageType.data_type (codes "7" ∷ []))
unfolding run
data_text = refl

abbrev host : Str
host = codes "localhost"

abbrev port : Str
port = codes "5000"

set_value_misses_the_end_example :
    SetValue.main hanging_up
      (host ∷ port ∷ codes "alice" ∷ codes "t" ∷ codes "k" ∷ codes "7" ∷ [])
      (started (2, []))
    ≡ (
      some 0,
      record (started (2, [])) {
        peer = (0, bye_line ∷ line "SET t k" ∷ line "PUSH 7" ∷ line "LOGIN alice" ∷ []);
        buf = ok_line;
      },
    )
set_value_misses_the_end_example =
    set_value_misses_the_end host port (codes "alice") (codes "t") (codes "k") (codes "7") _ _ _
      (started (2, [])) refl login_text push_text set_text

abbrev empty_server : Server
empty_server = new_server (λ _. 0)

absent : find (codes "t") empty_server.set_of_table ≡ none
unfolding run
absent = refl

indexed : IsIndexed empty_server
unfolding run
indexed = record {
  in_use = λ name p h. ground (arith, h);
  apart = λ name other p h k. ground (arith, h);
}
