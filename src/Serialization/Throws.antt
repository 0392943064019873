-- ===== src/Serialization/Throws.antt =====
-- message_serialization.cpp: the exceptions of `decode`.
use a_multi_threaded_key_val.Prelude.{
  ℕ, ◌≤◌, ◌≡◌, Bool, true, false, Option, none, some, List, [], ◌∷◌, length, arith, ◌==◌, ltb,
  is_empty, if◌then◌else◌,
}
use a_multi_threaded_key_val.Text.{Str, codes, skip_spaces, split_last}
use a_multi_threaded_key_val.Exceptions.{Exception, invalid_message, Result, ok, throw, ◌>>=◌}
use a_multi_threaded_key_val.Message.{MessageType, Message, message, is_valid, max_encoded_len}
use a_multi_threaded_key_val.Serialization.{
  commands, lookup_command, split_command, decode_line, check_valid, strip_newline, decode,
}

-- The exception of the codec, with a text that fits a response.
abbrev pub IsInvalid : Exception → Type 0
IsInvalid (invalid_message what) = length what ≤ 49
IsInvalid _ = ⊥

abbrev Invalid {ℓ} : {A : Type ℓ} → Result A → Type 0
Invalid (ok a) = Unit
Invalid (throw e) = IsInvalid e

Invalid-bind {ℓ κ} :
    {A : Type ℓ} {B : Type κ} (m : Result A) (f : A → Result B)
    → Invalid m
    → ((a : A) → Invalid (f a))
    → Invalid (m >>= f)
Invalid-bind (ok a) f hm hf = hf a
Invalid-bind (throw e) f hm hf = hm

Invalid-if {ℓ} :
    {A : Type ℓ} (b : Bool) (x y : Result A) → Invalid x → Invalid y → Invalid (if b then x else y)
Invalid-if true x y hx hy = hx
Invalid-if false x y hx hy = hy

lookup_command-Invalid :
    (s : Str) (table : List (Str × MessageType)) → Invalid (lookup_command s table)
unfolding lookup_command
lookup_command-Invalid s [] = omega arith
lookup_command-Invalid s ((c, t) ∷ rest) = Invalid-if _ (ok t) _ tt (lookup_command-Invalid s rest)

check_valid-Invalid : (m : Message) → Invalid (check_valid m)
unfolding check_valid
check_valid-Invalid m =
    Invalid-if (is_valid m) (ok m)
      (throw (invalid_message (codes "Invalid message format for the given type"))) tt (omega arith)

strip_newline-Invalid : (o : Option (Str × ℕ)) → Invalid (strip_newline o)
unfolding strip_newline
strip_newline-Invalid none = omega arith
strip_newline-Invalid (some (front, back)) =
    Invalid-if (back == 10) (ok front)
      (throw (invalid_message (codes "Message is not terminated by newline"))) tt (omega arith)

decode_line-Invalid : (line : Str) → Invalid (decode_line line)
unfolding decode_line
decode_line-Invalid line =
    Invalid-if (is_empty line) (throw (invalid_message (codes "Message is empty"))) _ (omega arith)
      (Invalid-bind (lookup_command (split_command line).0 commands) _
        (lookup_command-Invalid (split_command line).0 commands)
        (λ t. check_valid-Invalid (message t (split_command line).1)))

decode-Invalid : (s : Str) → Invalid (decode s)
unfolding decode
decode-Invalid s =
    Invalid-if (ltb max_encoded_len (length s))
      (throw (invalid_message (codes "Encoded message exceeds maximum length"))) _ (omega arith)
      (Invalid-bind (strip_newline (split_last s)) _ (strip_newline-Invalid (split_last s))
        (λ line. decode_line-Invalid (skip_spaces line)))

-- `decode` throws nothing but `InvalidMessage`, and its text has at most 49 bytes.
pub decode-throws : (s : Str) (e : Exception) → decode s ≡ throw e → IsInvalid e
decode-throws s e h = rw h at (decode-Invalid s)
