-- ===== src/Message.antt =====
-- message.h and message.cpp: the message types, a message with its arguments, the accessors and
-- the test of a message against the protocol.
use a_multi_threaded_key_val.Prelude.{
  ℕ, zero, suc, Bool, not, true, false, ◌&&◌, ◌||◌, Option, none, some, List, [], ◌∷◌, ◌++◌, all,
  is_empty, ◌==◌, if◌then◌else◌,
}
use a_multi_threaded_key_val.Text.{Str, is_space, is_alpha, is_alnum, split_last}

-- The enum's constants in lower case; `none_type` is NONE.
pub data MessageType : Type 0 where
  none_type : MessageType
  login create push pop top set get add sub mul div begin commit bye : MessageType
  ok failed error data_type : MessageType

pub record Message : Type 0 where
  pub m_message_type : MessageType
  pub m_args : List Str

-- MAX_ENCODED_LEN, with the newline counted.
abbrev pub max_encoded_len : ℕ
max_encoded_len = 1024

-- `Message()`
abbrev pub empty_message : Message
empty_message = record { m_message_type = MessageType.none_type; m_args = [] }

-- `Message(message_type, args)`
abbrev pub message : MessageType → List Str → Message
message t args = record { m_message_type = t; m_args = args }

abbrev pub set_message_type : MessageType → Message → Message
set_message_type t msg = record msg { m_message_type = t }

unfoldable pub push_arg : Str → Message → Message
push_arg arg msg = record msg { m_args = msg.m_args ++ arg ∷ [] }

-- `m_args[i]`; `none` is an index out of range, which the language leaves undefined.
abbrev pub get_arg : List Str → ℕ → Option Str
get_arg [] i = none
get_arg (a ∷ args) zero = some a
get_arg (a ∷ args) (suc i) = get_arg args i

unfoldable pub get_username : Message → Option Str
get_username msg = get_arg msg.m_args 0

unfoldable pub get_table : Message → Option Str
get_table msg = get_arg msg.m_args 0

unfoldable pub get_key : Message → Option Str
get_key msg = get_arg msg.m_args 1

unfoldable pub get_value : Message → Option Str
get_value msg = get_arg msg.m_args 0

-- The text `arg` that begins with a quote, where its tail ends in `back`.
abbrev strip_closing : Str → Option (Str × ℕ) → Str
strip_closing arg none = arg
strip_closing arg (some (inner, back)) = if back == b'"' then inner else arg

-- `arg.substr(1, arg.length() - 2)` if the text has two bytes or more and stands in quotes.
unfoldable pub strip_quotes : Str → Str
unfolding split_last
strip_quotes [] = []
strip_quotes (c ∷ s) = if c == b'"' then strip_closing (c ∷ s) (split_last s) else c ∷ s

abbrev quoted_text_of : List Str → Str
unfolding strip_quotes
quoted_text_of [] = []
quoted_text_of (arg ∷ args) = strip_quotes arg

unfoldable pub get_quoted_text : Message → Str
unfolding quoted_text_of
get_quoted_text msg = quoted_text_of msg.m_args

abbrev pub is_identifier_tail : ℕ → Bool
is_identifier_tail c = is_alnum c || c == b'_'

unfoldable pub is_identifier : Str → Bool
is_identifier [] = false
is_identifier (c ∷ s) = is_alpha c && all is_identifier_tail s

unfoldable pub is_value : Str → Bool
is_value [] = false
is_value (c ∷ s) = all (λ b. not (is_space b)) (c ∷ s)

-- `m_args.size() == 1 && p(m_args[0])`, and the same for two arguments.
abbrev pub one_arg : (Str → Bool) → List Str → Bool
one_arg p (a ∷ []) = p a
one_arg p _ = false

abbrev pub two_args : (Str → Bool) → List Str → Bool
two_args p (a ∷ b ∷ []) = p a && p b
two_args p _ = false

-- The switch of `is_valid`.
unfoldable pub valid_args : MessageType → List Str → Bool
valid_args MessageType.login args = one_arg is_identifier args
valid_args MessageType.create args = one_arg is_identifier args
valid_args MessageType.push args = one_arg is_value args
valid_args MessageType.set args = two_args is_identifier args
valid_args MessageType.get args = two_args is_identifier args
valid_args MessageType.failed args = one_arg (λ _. true) args
valid_args MessageType.error args = one_arg (λ _. true) args
valid_args MessageType.data_type args = one_arg is_value args
valid_args MessageType.none_type args = false
valid_args _ args = is_empty args

unfoldable pub is_valid : Message → Bool
unfolding valid_args
is_valid msg = valid_args msg.m_message_type msg.m_args
