-- ===== src/Serialization/Tokens.antt =====
-- message_serialization.cpp: words, spaces and the names of commands.
use mathlib.Core.List.{append-nil}
use a_multi_threaded_key_val.Prelude.{
  ◌≡◌, refl, ap, ◌∙◌, Bool, not, true, false, ◌||◌, Option, none, some, List, [], ◌∷◌, ◌++◌, all,
  arith,
}
use a_multi_threaded_key_val.Text.{
  Str, codes, is_space, ◌=str◌, skip_spaces, split_space, split_words, words,
}
use a_multi_threaded_key_val.Exceptions.{ok}
use a_multi_threaded_key_val.Message.{MessageType, is_identifier_tail, is_identifier, is_value}
use a_multi_threaded_key_val.Serialization.{command_str, encode_args, commands, lookup_command}

abbrev is_solid : Str → Bool
is_solid s = all (λ b. not (is_space b)) s

split_words-append :
    (a s : Str)
    → is_solid a ≡ true
    → split_words (a ++ s) ≡ (a ++ (split_words s).0, (split_words s).1)
unfolding split_words
split_words-append [] s h = refl
split_words-append (c ∷ a) s h = ground (arith, split_words-append a s)

pub value-is_solid : (a : Str) → is_value a ≡ true → is_solid a ≡ true
unfolding is_value
value-is_solid [] h = refl
value-is_solid (c ∷ a) h = h

words-append :
    (a s : Str) (ws : List Str)
    → is_value a ≡ true
    → split_words s ≡ ([], ws)
    → words (a ++ s) ≡ a ∷ ws
unfolding words is_value
words-append [] s ws h e = ground arith
words-append (c ∷ a) s ws h e = rw (split_words-append (c ∷ a) s h, e, append-nil)

-- Arguments that are values are split at the spaces that `encode_args` writes.
split_words-encode_args :
    (args : List Str) → all is_value args ≡ true → split_words (encode_args args) ≡ ([], args)
unfolding encode_args
split_words-encode_args [] h = unfold split_words in refl
split_words-encode_args (a ∷ args) h =
    let e : words (a ++ encode_args args) ≡ a ∷ args =
      words-append a (encode_args args) args (ground arith)
        (split_words-encode_args args (ground arith)) in
    let space : split_words (32 ∷ (a ++ encode_args args)) ≡ ([], words (a ++ encode_args args)) =
      unfold split_words words in refl in
    space ∙ ap (λ ws. ([], ws)) e

pub words-encode_args :
    (a : Str) (args : List Str)
    → is_value a ≡ true
    → all is_value args ≡ true
    → words (a ++ encode_args args) ≡ a ∷ args
words-encode_args a args ha h =
    words-append a (encode_args args) args ha (split_words-encode_args args h)

tail-is_solid : (s : Str) → all is_identifier_tail s ≡ true → is_solid s ≡ true
tail-is_solid [] h = refl
tail-is_solid (c ∷ s) h = ground (arith, tail-is_solid s)

pub identifier-is_value : (s : Str) → is_identifier s ≡ true → is_value s ≡ true
unfolding is_identifier is_value
identifier-is_value [] h = ground arith
identifier-is_value (c ∷ s) h = ground (arith, tail-is_solid s)

pub skip_spaces-append : (a s : Str) → is_value a ≡ true → skip_spaces (a ++ s) ≡ a ++ s
unfolding skip_spaces is_value
skip_spaces-append [] s h = ground arith
skip_spaces-append (c ∷ a) s h = ground arith

pub split_space-append : (a s : Str) → is_solid a ≡ true → split_space (a ++ 32 ∷ s) ≡ some (a, s)
unfolding split_space
split_space-append [] s h = refl
split_space-append (c ∷ a) s h = ground (arith, split_space-append a s)

pub split_space-solid : (a : Str) → is_solid a ≡ true → split_space a ≡ none
unfolding split_space
split_space-solid [] h = refl
split_space-solid (c ∷ a) h = ground (arith, split_space-solid a)

-- FAILED and ERROR, whose argument is a text.
abbrev pub is_text : MessageType → Bool
is_text MessageType.failed = true
is_text MessageType.error = true
is_text _ = false

pub record IsCommand (t : MessageType) (command : Str) : Type 0 where
  pub solid : is_value command ≡ true
  pub found : lookup_command command commands ≡ ok t
  pub text : (command =str codes "FAILED" || command =str codes "ERROR") ≡ is_text t

abbrev OnSome : (Str → Type 0) → Option Str → Type 0
OnSome P none = Unit
OnSome P (some s) = P s

IsCommand-command_str : (t : MessageType) → OnSome (IsCommand t) (command_str t)
unfolding command_str is_value lookup_command ◌=str◌
IsCommand-command_str MessageType.none_type = tt
IsCommand-command_str _ = record { solid = refl; found = refl; text = refl }

pub command_str-IsCommand :
    (t : MessageType) (command : Str) → command_str t ≡ some command → IsCommand t command
command_str-IsCommand t command e = rw e at (IsCommand-command_str t)
