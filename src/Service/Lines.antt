-- ===== src/Service/Lines.antt =====
-- message_serialization.cpp and csapp.c: the lines that a client and the server read from each other.
use mathlib.Core.List.{append-nil}
use a_multi_threaded_key_val.Prelude.{
  ℕ, ◌+◌, ◌≤◌, ◌≡◌, refl, ap, ◌∙◌, true, false, [], ◌∷◌, ◌++◌, length, length-append, all, ltb,
  ltb-false, arith,
}
use a_multi_threaded_key_val.Text.{Str, codes}
use a_multi_threaded_key_val.Exceptions.{ok}
use a_multi_threaded_key_val.Message.{
  MessageType, Message, message, is_valid, valid_args, is_identifier, is_identifier_tail, is_value,
  max_encoded_len,
}
use a_multi_threaded_key_val.Serialization.{encode, decode}
use a_multi_threaded_key_val.Serialization.RoundTrip.{decode-encode}
use a_multi_threaded_key_val.Connection.Chat.{c_string}
use a_multi_threaded_key_val.Connection.Buffer.{is_inner}
use a_multi_threaded_key_val.System.Values.{data_text, encode-data}

-- A line, with its newline.
abbrev pub newline : Str → Str
newline front = front ++ 10 ∷ []

all-append :
    (s t : Str) → all is_inner s ≡ true → all is_inner t ≡ true → all is_inner (s ++ t) ≡ true
all-append [] t hs ht = ht
all-append (c ∷ s) t hs ht = ground (arith, hs, all-append s t)

c_string-line : (s : Str) → all is_inner s ≡ true → c_string (newline s) ≡ newline s
unfolding c_string
c_string-line [] h = refl
c_string-line (c ∷ s) h = ground (arith, h, c_string-line s)

is_inner-tail : (c : ℕ) → is_identifier_tail c ≡ true → is_inner c ≡ true
is_inner-tail c h = ground (arith, h)

all-is_inner_tail : (s : Str) → all is_identifier_tail s ≡ true → all is_inner s ≡ true
all-is_inner_tail [] h = refl
all-is_inner_tail (c ∷ s) h = ground (arith, h, is_inner-tail c, all-is_inner_tail s)

-- An identifier has no NUL and no newline.
pub identifier-is_inner : (s : Str) → is_identifier s ≡ true → all is_inner s ≡ true
unfolding is_identifier
identifier-is_inner [] h = absurd (ground arith)
identifier-is_inner (c ∷ s) h = ground (arith, h, all-is_inner_tail s)

-- `rio_readlineb` gives a line that fits the buffer of 1024 bytes, of which one is for the NUL, as it
-- is.
abbrev pub Delivers : (Str → Str) → Type 0
Delivers deliver =
    (front : Str)
    → all is_inner front ≡ true
    → length front ≤ 1022
    → deliver (newline front) ≡ newline front

abbrev pub login_line : Str → Str
login_line username = newline (codes "LOGIN " ++ username)

abbrev pub push_line : Str → Str
push_line value = newline (codes "PUSH " ++ value)

abbrev pub set_line : Str → Str → Str
set_line table key = newline (codes "SET " ++ (table ++ 32 ∷ key))

abbrev pub get_line : Str → Str → Str
get_line table key = newline (codes "GET " ++ (table ++ 32 ∷ key))

pub encode-login_line :
    (username : Str)
    → length username ≤ 1016
    → encode (message MessageType.login (username ∷ [])) ≡ ok (login_line username)
unfolding encode
encode-login_line username short =
    let fits : ltb max_encoded_len (length (login_line username)) ≡ false =
      ltb-false _ _ (omega (arith, short, length-append username (10 ∷ []))) in
    rw append-nil (rw fits)

pub encode-push_line :
    (value : Str)
    → length value ≤ 1017
    → encode (message MessageType.push (value ∷ [])) ≡ ok (push_line value)
unfolding encode
encode-push_line value short =
    let fits : ltb max_encoded_len (length (push_line value)) ≡ false =
      ltb-false _ _ (omega (arith, short, length-append value (10 ∷ []))) in
    rw append-nil (rw fits)

module _ (table key : Str) (short : length table + length key ≤ 1017) where
  length-two : length (newline (table ++ 32 ∷ key)) ≤ 1019
  length-two =
      omega
        (arith, short, length-append (table ++ 32 ∷ key) (10 ∷ []), length-append table (32 ∷ key))

  pub encode-set_line :
      encode (message MessageType.set (table ∷ key ∷ [])) ≡ ok (set_line table key)
  unfolding encode
  encode-set_line =
      let fits : ltb max_encoded_len (length (set_line table key)) ≡ false =
        ltb-false _ _ (omega (arith, length-two)) in
      rw append-nil (rw fits)

  pub encode-get_line :
      encode (message MessageType.get (table ∷ key ∷ [])) ≡ ok (get_line table key)
  unfolding encode
  encode-get_line =
      let fits : ltb max_encoded_len (length (get_line table key)) ≡ false =
        ltb-false _ _ (omega (arith, length-two)) in
      rw append-nil (rw fits)

module _ (deliver : Str → Str) (delivers : Delivers deliver) where
  pub arrives :
      (msg : Message) (front : Str)
      → is_valid msg ≡ true
      → encode msg ≡ ok (newline front)
      → all is_inner front ≡ true
      → length front ≤ 1022
      → decode (c_string (deliver (newline front))) ≡ ok msg
  arrives msg front valid e inner short =
      ap (λ s. decode (c_string s)) (delivers front inner short)
      ∙ ap decode (c_string-line front inner)
      ∙ decode-encode msg (newline front) valid e

  pub login_arrives :
      (username : Str)
      → is_identifier username ≡ true
      → length username ≤ 1016
      → decode (c_string (deliver (login_line username)))
        ≡ ok (message MessageType.login (username ∷ []))
  unfolding is_valid
  login_arrives username name short =
      arrives _ (codes "LOGIN " ++ username) name (encode-login_line username short)
        (identifier-is_inner username name) (omega (arith, short))

  pub push_arrives :
      (value : Str)
      → is_value value ≡ true
      → all is_inner value ≡ true
      → length value ≤ 1017
      → decode (c_string (deliver (push_line value))) ≡ ok (message MessageType.push (value ∷ []))
  unfolding is_valid
  push_arrives value valid inner short =
      arrives _ (codes "PUSH " ++ value) valid (encode-push_line value short) inner
        (omega (arith, short))

  pub data_arrives :
      (value : Str)
      → is_value value ≡ true
      → all is_inner value ≡ true
      → length value ≤ 1017
      → decode (c_string (deliver (data_text value)))
        ≡ ok (message MessageType.data_type (value ∷ []))
  unfolding is_valid
  data_arrives value valid inner short =
      arrives _ (codes "DATA " ++ value) valid (encode-data value (valid, omega (arith, short)))
        inner (omega (arith, short))

  -- A message without arguments.
  pub bare_arrives :
      (t : MessageType) (front : Str)
      → valid_args t [] ≡ true
      → encode (message t []) ≡ ok (newline front)
      → all is_inner front ≡ true
      → length front ≤ 1022
      → decode (c_string (deliver (newline front))) ≡ ok (message t [])
  unfolding is_valid
  bare_arrives t front v e inner short = arrives (message t []) front v e inner short

  module _ (table key : Str) (table_name : is_identifier table ≡ true)
      (key_name : is_identifier key ≡ true) (short : length table + length key ≤ 1017) where
    two_inner : all is_inner (table ++ 32 ∷ key) ≡ true
    two_inner =
        all-append table (32 ∷ key) (identifier-is_inner table table_name)
          (identifier-is_inner key key_name)

    pub set_arrives :
        decode (c_string (deliver (set_line table key)))
        ≡ ok (message MessageType.set (table ∷ key ∷ []))
    unfolding is_valid
    set_arrives =
        arrives _ (codes "SET " ++ (table ++ 32 ∷ key)) (rw (table_name, key_name) refl)
          (encode-set_line table key short) two_inner
          (omega (arith, short, length-append table (32 ∷ key)))

    pub get_arrives :
        decode (c_string (deliver (get_line table key)))
        ≡ ok (message MessageType.get (table ∷ key ∷ []))
    unfolding is_valid
    get_arrives =
        arrives _ (codes "GET " ++ (table ++ 32 ∷ key)) (rw (table_name, key_name) refl)
          (encode-get_line table key short) two_inner
          (omega (arith, short, length-append table (32 ∷ key)))
