-- ===== src/Serialization/RoundTrip.antt =====
-- message_serialization.cpp: `decode` behind `encode`.
use mathlib.Core.List.{append-nil, append_assoc}
use a_multi_threaded_key_val.Prelude.{
  ◌≡◌, refl, ap, sym, ◌∙◌, Bool, true, false, some, List, [], ◌∷◌, ◌++◌, length, all, arith, ltb,
  if◌then◌else◌, Bool-cases, Option-cases, inl, inr,
}
use a_multi_threaded_key_val.Text.{Str, split_last-append}
use a_multi_threaded_key_val.Exceptions.{Exception, ok, throw}
use a_multi_threaded_key_val.Message.{
  MessageType, Message, message, is_value, valid_args, is_valid, max_encoded_len,
}
use a_multi_threaded_key_val.Serialization.{
  command_str, encode_args, encode_command, encode, command_args, split_command, decode_line,
  check_valid, decode,
}
use a_multi_threaded_key_val.Serialization.Tokens.{
  IsCommand, command_str-IsCommand, is_text, words-encode_args, identifier-is_value,
  skip_spaces-append, split_space-append, split_space-solid, value-is_solid,
}

valid-values :
    (t : MessageType) (args : List Str)
    → is_text t ≡ false
    → valid_args t args ≡ true
    → all is_value args ≡ true
unfolding valid_args
valid-values t [] e h = refl
valid-values MessageType.login (a ∷ []) e h = ground (arith, identifier-is_value a)
valid-values t (a ∷ []) e h = ground (arith, identifier-is_value a)
valid-values MessageType.login (a ∷ b ∷ []) e h =
    ground (arith, identifier-is_value a, identifier-is_value b)
valid-values t (a ∷ b ∷ []) e h = ground (arith, identifier-is_value a, identifier-is_value b)
valid-values MessageType.login (a ∷ b ∷ c ∷ rest) e h = ground arith
valid-values t (a ∷ b ∷ c ∷ rest) e h = ground arith

text_args :
    (t : MessageType) (a b : Str) (rest : List Str)
    → is_text t ≡ true
    → ¬ (valid_args t (a ∷ b ∷ rest) ≡ true)
unfolding valid_args
text_args MessageType.failed a b rest e h = ground arith
text_args t a b rest e h = ground arith

command_args-encode :
    (t : MessageType) (command a : Str) (args : List Str)
    → IsCommand t command
    → valid_args t (a ∷ args) ≡ true
    → command_args command (a ++ encode_args args) ≡ a ∷ args
unfolding command_args
command_args-encode t command a [] c h = elim (Bool-cases (is_text t)) [
  | inl text ↦ rw (c.text, text) (unfold encode_args in rw append-nil)
  | inr plain ↦
      rw (c.text, plain)
        (let v = valid-values t (a ∷ []) plain h in words-encode_args a [] (ground arith) refl)
]
command_args-encode t command a (b ∷ args) c h = elim (Bool-cases (is_text t)) [
  | inl text ↦ absurd (text_args t a b args text h)
  | inr plain ↦
      rw (c.text, plain)
        (let v = valid-values t (a ∷ b ∷ args) plain h in
          words-encode_args a (b ∷ args) (ground arith) (ground arith))
]

split_command-encode :
    (t : MessageType) (command : Str) (args : List Str)
    → IsCommand t command
    → valid_args t args ≡ true
    → split_command (command ++ encode_args args) ≡ (command, args)
unfolding split_command encode_args
split_command-encode t command [] c h =
    rw (append-nil, split_space-solid command (value-is_solid command c.solid))
split_command-encode t command (a ∷ args) c h =
    rw (split_space-append command (a ++ encode_args args) (value-is_solid command c.solid))
      (ap (λ x. (command, x)) (command_args-encode t command a args c h))

decode_line-encode :
    (t : MessageType) (command : Str) (args : List Str)
    → IsCommand t command
    → valid_args t args ≡ true
    → decode_line (command ++ encode_args args) ≡ ok (message t args)
unfolding decode_line
decode_line-encode t [] args c h = absurd (let e = c.solid in unfold is_value in ground arith)
decode_line-encode t (b ∷ command) args c h =
    rw (split_command-encode t (b ∷ command) args c h, c.found)
      (unfold check_valid is_valid in rw h)

abbrev pub encoded : Str → List Str → Str
encoded command args = (command ++ encode_args args) ++ 10 ∷ []

else-eq_ok :
    (b : Bool) (e : Exception) (x s : Str)
    → (if b then throw e else ok x) ≡ ok s
    → (b ≡ false) × (s ≡ x)
else-eq_ok true e x s h = ground arith
else-eq_ok false e x s h = ground arith

encode_command-eq_ok :
    (command : Str) (args : List Str) (s : Str)
    → encode_command (some command) args ≡ ok s
    → (s ≡ encoded command args) × (ltb max_encoded_len (length s) ≡ false)
unfolding encode_command
encode_command-eq_ok command args s h =
    let whole : Str = command ++ (encode_args args ++ 10 ∷ []) in
    let (short, e) = else-eq_ok (ltb max_encoded_len (length whole)) _ whole s h in
    (e ∙ sym (append_assoc command (encode_args args) (10 ∷ [])), rw e short)

decode-encoded :
    (t : MessageType) (command : Str) (args : List Str)
    → IsCommand t command
    → valid_args t args ≡ true
    → ltb max_encoded_len (length (encoded command args)) ≡ false
    → decode (encoded command args) ≡ ok (message t args)
unfolding decode
decode-encoded t command args c v short =
    rw
      (
        short,
        split_last-append (command ++ encode_args args) 10,
        skip_spaces-append command (encode_args args) c.solid,
      )
      (decode_line-encode t command args c v)

-- A protocol message that `encode` accepts is the message that `decode` reads from the result.
pub decode-encode :
    (msg : Message) (s : Str) → is_valid msg ≡ true → encode msg ≡ ok s → decode s ≡ ok msg
unfolding encode is_valid
decode-encode msg s v h = elim (Option-cases (command_str msg.m_message_type)) [
  | inl e ↦ absurd (let h' = rw e at h in unfold encode_command in ground arith)
  | inr (command, e) ↦
      let (eq, short) = encode_command-eq_ok command msg.m_args s (rw e at h) in
      rw eq (
        decode-encoded msg.m_message_type command msg.m_args
          (command_str-IsCommand msg.m_message_type command e) v (rw eq at short))
]
