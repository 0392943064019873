-- ===== src/Serialization.antt =====
-- message_serialization.cpp: `encode` and `decode`.
pub mod Tokens
pub mod RoundTrip
pub mod Canonical
pub mod Throws
use a_multi_threaded_key_val.Prelude.{
  ℕ, ◌≡◌, refl, Bool, true, false, ◌||◌, Option, none, some, List, [], ◌∷◌, ◌++◌, length, is_empty,
  ltb, ◌==◌, if◌then◌else◌,
}
use a_multi_threaded_key_val.Text.{
  Str, codes, ◌=str◌, split_last, skip_spaces, split_space, split_words, words,
}
use a_multi_threaded_key_val.Exceptions.{Result, ok, throw, invalid_message, ◌>>=◌}
use a_multi_threaded_key_val.Message.{MessageType, Message, message, is_valid, max_encoded_len}

-- The switch of `encode`; `none` is its default case.
unfoldable pub command_str : MessageType → Option Str
command_str MessageType.none_type = none
command_str MessageType.login = some (codes "LOGIN")
command_str MessageType.create = some (codes "CREATE")
command_str MessageType.push = some (codes "PUSH")
command_str MessageType.pop = some (codes "POP")
command_str MessageType.top = some (codes "TOP")
command_str MessageType.set = some (codes "SET")
command_str MessageType.get = some (codes "GET")
command_str MessageType.add = some (codes "ADD")
command_str MessageType.sub = some (codes "SUB")
command_str MessageType.mul = some (codes "MUL")
command_str MessageType.div = some (codes "DIV")
command_str MessageType.begin = some (codes "BEGIN")
command_str MessageType.commit = some (codes "COMMIT")
command_str MessageType.bye = some (codes "BYE")
command_str MessageType.ok = some (codes "OK")
command_str MessageType.failed = some (codes "FAILED")
command_str MessageType.error = some (codes "ERROR")
command_str MessageType.data_type = some (codes "DATA")

-- The loop that writes a space and an argument for each argument.
unfoldable pub encode_args : List Str → Str
encode_args [] = []
encode_args (a ∷ args) = 32 ∷ (a ++ encode_args args)

unfoldable pub encode_command : Option Str → List Str → Result Str
unfolding encode_args
encode_command none args =
    throw (invalid_message (codes "Cannot encode message with invalid or NONE type"))
encode_command (some command) args =
    let encoded = command ++ (encode_args args ++ 10 ∷ []) in
    if ltb max_encoded_len (length encoded)
    then throw (invalid_message (codes "Encoded message exceeds maximum length"))
    else ok encoded

unfoldable pub encode : Message → Result Str
unfolding encode_command command_str
encode msg = encode_command (command_str msg.m_message_type) msg.m_args

-- The comparisons of `decode`, in order; `lookup_command` takes the first that holds.
abbrev pub commands : List (Str × MessageType)
commands =
    (codes "LOGIN", MessageType.login)
    ∷ (codes "CREATE", MessageType.create)
    ∷ (codes "PUSH", MessageType.push)
    ∷ (codes "POP", MessageType.pop)
    ∷ (codes "TOP", MessageType.top)
    ∷ (codes "SET", MessageType.set)
    ∷ (codes "GET", MessageType.get)
    ∷ (codes "ADD", MessageType.add)
    ∷ (codes "SUB", MessageType.sub)
    ∷ (codes "MUL", MessageType.mul)
    ∷ (codes "DIV", MessageType.div)
    ∷ (codes "BEGIN", MessageType.begin)
    ∷ (codes "COMMIT", MessageType.commit)
    ∷ (codes "BYE", MessageType.bye)
    ∷ (codes "OK", MessageType.ok)
    ∷ (codes "FAILED", MessageType.failed)
    ∷ (codes "ERROR", MessageType.error)
    ∷ (codes "DATA", MessageType.data_type)
    ∷ []

unfoldable pub lookup_command : Str → List (Str × MessageType) → Result MessageType
unfolding ◌=str◌
lookup_command s [] = throw (invalid_message (codes "Unknown command"))
lookup_command s ((command, t) ∷ rest) = if s =str command then ok t else lookup_command s rest

-- The text of a FAILED or ERROR message is one argument, spaces included.
unfoldable pub command_args : Str → Str → List Str
unfolding ◌=str◌ words split_words
command_args command rest =
    if command =str codes "FAILED" || command =str codes "ERROR" then rest ∷ [] else words rest

abbrev split_at : Str → Option (Str × Str) → Str × List Str
unfolding command_args
split_at line none = (line, [])
split_at line (some (command, rest)) = (command, command_args command rest)

-- The command of a line and its arguments.
unfoldable pub split_command : Str → Str × List Str
unfolding split_at split_space
split_command line = split_at line (split_space line)

unfoldable pub check_valid : Message → Result Message
check_valid msg =
    if is_valid msg
    then ok msg
    else throw (invalid_message (codes "Invalid message format for the given type"))

unfoldable pub decode_line : Str → Result Message
unfolding split_command lookup_command check_valid
decode_line line =
    if is_empty line
    then throw (invalid_message (codes "Message is empty"))
    else let (command, args) = split_command line in
      (lookup_command command commands >>= λ t. check_valid (message t args))

-- The text without its newline.
unfoldable pub strip_newline : Option (Str × ℕ) → Result Str
strip_newline none = throw (invalid_message (codes "Message is not terminated by newline"))
strip_newline (some (front, back)) =
    if back == 10
    then ok front
    else throw (invalid_message (codes "Message is not terminated by newline"))

unfoldable pub decode : Str → Result Message
unfolding strip_newline split_last skip_spaces decode_line
decode encoded_msg =
    if ltb max_encoded_len (length encoded_msg)
    then throw (invalid_message (codes "Encoded message exceeds maximum length"))
    else (strip_newline (split_last encoded_msg) >>= λ line. decode_line (skip_spaces line))
