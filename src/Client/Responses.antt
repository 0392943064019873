-- ===== src/Client/Responses.antt =====
-- get_value.cpp, set_value.cpp and incr_value.cpp against three servers.
use a_multi_threaded_key_val.Prelude.{◌≡◌, refl, true, some, List, [], ◌∷◌, ◌++◌, ℕ, zero, suc}
use a_multi_threaded_key_val.Text.{Str, codes, ◌=str◌}
use a_multi_threaded_key_val.Exceptions.{ok}
use a_multi_threaded_key_val.Message.{MessageType, message, is_valid, get_value}
use a_multi_threaded_key_val.Serialization.{encode, decode, check_valid}
use a_multi_threaded_key_val.Connection.Chat.{c_string}
use a_multi_threaded_key_val.Client.{
  Peer, Process, ◌>>=◌, pure, lift, request, send, receive, connect, print, checked,
}
use a_multi_threaded_key_val.Client.GetValue
use a_multi_threaded_key_val.Client.SetValue
use a_multi_threaded_key_val.Client.IncrValue

abbrev pub ok_line : Str
ok_line = codes "OK" ++ 10 ∷ []

abbrev pub bye_line : Str
bye_line = codes "BYE" ++ 10 ∷ []

-- The requests whose arguments are fixed.
encode-bye : encode (message MessageType.bye []) ≡ ok bye_line
unfolding encode
encode-bye = refl

encode-begin : encode (message MessageType.begin []) ≡ ok (codes "BEGIN" ++ 10 ∷ [])
unfolding encode
encode-begin = refl

encode-push_one :
    encode (message MessageType.push (codes "1" ∷ [])) ≡ ok (codes "PUSH 1" ++ 10 ∷ [])
unfolding encode
encode-push_one = refl

encode-add : encode (message MessageType.add []) ≡ ok (codes "ADD" ++ 10 ∷ [])
unfolding encode
encode-add = refl

encode-commit : encode (message MessageType.commit []) ≡ ok (codes "COMMIT" ++ 10 ∷ [])
unfolding encode
encode-commit = refl

encode-top : encode (message MessageType.top []) ≡ ok (codes "TOP" ++ 10 ∷ [])
unfolding encode
encode-top = refl

decode-ok : decode (c_string ok_line) ≡ ok (message MessageType.ok [])
unfolding decode c_string check_valid is_valid
decode-ok = refl

-- A server that answers the first `n` requests with OK, reads one more and hangs up without an answer
-- to it. Its state is how many it still answers, and what was written, the last text first. One write
-- after the end of the other side succeeds; a second one would raise SIGPIPE, and is not modelled.
abbrev answers : Str → ℕ → Str × ℕ
answers buf zero = (buf, zero)
answers buf (suc n) = (ok_line, n)

abbrev pub hanging_up : Peer (ℕ × List Str)
hanging_up = record {
  open_clientfd = λ hostname port s. true;
  writen = λ text s. (s.0, text ∷ s.1);
  readlineb = λ buf s. let (text, n) = answers buf s.0 in (text, (n, s.1));
}

-- A server that answers every request with OK.
abbrev pub obliging : Peer (List Str)
obliging = record {
  open_clientfd = λ hostname port s. true;
  writen = λ text s. text ∷ s;
  readlineb = λ buf s. (ok_line, s);
}

-- Against a server that answers LOGIN and PUSH with OK, and hangs up without an answer once it has read
-- SET, set_value takes the missing answer for an OK: it exits with code 0 and prints no error. Nothing
-- but BYE is written after the hang-up. Its requests are ones that `encode` accepts.
pub set_value_misses_the_end :
    (hostname port username table key text a b c : Str) (p : Process (ℕ × List Str))
    → p.peer ≡ (2, [])
    → encode (message MessageType.login (username ∷ [])) ≡ ok a
    → encode (message MessageType.push (text ∷ [])) ≡ ok b
    → encode (message MessageType.set (table ∷ key ∷ [])) ≡ ok c
    → SetValue.main hanging_up (hostname ∷ port ∷ username ∷ table ∷ key ∷ text ∷ []) p
      ≡ (some 0, record p { peer = (0, bye_line ∷ c ∷ b ∷ a ∷ []); buf = ok_line })
unfolding SetValue.main SetValue.session connect request send receive ◌>>=◌ lift pure decode
    check_valid is_valid c_string
set_value_misses_the_end hostname port username table key text a b c p start ea eb ec =
    rw (start, ea, eb, ec, encode-bye) refl

-- Where every request is answered with OK, `incr_value -t` exits with code 0 and has sent LOGIN,
-- BEGIN, GET, PUSH 1, ADD, SET, COMMIT and BYE, in this order. Its requests are ones that `encode`
-- accepts.
pub incr_value_requests :
    (hostname port username table key a b c : Str) (p : Process (List Str))
    → p.peer ≡ []
    → encode (message MessageType.login (username ∷ [])) ≡ ok a
    → encode (message MessageType.get (table ∷ key ∷ [])) ≡ ok b
    → encode (message MessageType.set (table ∷ key ∷ [])) ≡ ok c
    → IncrValue.main obliging (codes "-t" ∷ hostname ∷ port ∷ username ∷ table ∷ key ∷ []) p ≡ (
      some 0,
      record p {
        peer =
            bye_line
            ∷ (codes "COMMIT" ++ 10 ∷ [])
            ∷ c
            ∷ (codes "ADD" ++ 10 ∷ [])
            ∷ (codes "PUSH 1" ++ 10 ∷ [])
            ∷ b
            ∷ (codes "BEGIN" ++ 10 ∷ [])
            ∷ a
            ∷ [];
        buf = ok_line;
      },
    )
unfolding IncrValue.main IncrValue.session connect request send receive ◌>>=◌ lift pure decode
    check_valid is_valid c_string ◌=str◌
incr_value_requests hostname port username table key a b c p start ea eb ec =
    rw (start, ea, encode-begin, eb, encode-push_one, encode-add, ec, encode-commit, encode-bye)
      refl

-- A server that gives the texts of a list, one for each line that is read, and then hangs up. Its
-- state is the texts that are left and what it was sent.
abbrev after_reading : Str → List Str → List Str → Str × (List Str × List Str)
after_reading buf [] sent = (buf, ([], sent))
after_reading buf (text ∷ texts) sent = (text, (texts, sent))

abbrev pub scripted : Peer (List Str × List Str)
scripted = record {
  open_clientfd = λ hostname port s. true;
  writen = λ text s. (s.0, text ∷ s.1);
  readlineb = λ buf s. after_reading buf s.0 s.1;
}

-- Where LOGIN and GET are answered with OK and TOP with the text of a DATA message, get_value prints
-- the message's value, exits with code 0, and has sent LOGIN, GET, TOP and BYE, in this order. Its
-- requests are ones that `encode` accepts.
pub get_value_prints :
    (hostname port username table key a b text shown : Str) (p : Process (List Str × List Str))
    → p.peer ≡ (ok_line ∷ ok_line ∷ text ∷ [], [])
    → encode (message MessageType.login (username ∷ [])) ≡ ok a
    → encode (message MessageType.get (table ∷ key ∷ [])) ≡ ok b
    → decode (c_string text) ≡ ok (message MessageType.data_type (shown ∷ []))
    → GetValue.main scripted (hostname ∷ port ∷ username ∷ table ∷ key ∷ []) p ≡ (
      some 0,
      record p {
        peer = ([], bye_line ∷ (codes "TOP" ++ 10 ∷ []) ∷ b ∷ a ∷ []);
        buf = text;
        stdout = shown ∷ p.stdout;
      },
    )
unfolding GetValue.main GetValue.session connect request send receive ◌>>=◌ lift pure print checked
    get_value
get_value_prints hostname port username table key a b text shown p start ea eb h =
    rw (start, ea, decode-ok, eb, decode-ok, encode-top, h, encode-bye) refl
