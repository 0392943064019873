-- ===== src/Serialization/Canonical.antt =====
-- message_serialization.cpp: `encode` behind `decode`.
use mathlib.Core.List.{append-nil}
use a_multi_threaded_key_val.Prelude.{
  suc, ◌+◌, ◌≤◌, ◌<◌, ◌≡◌, refl, true, false, ◌||◌, some, List, [], ◌∷◌, ◌++◌, length,
  length-append, arith, ◌==◌, ltb, is_empty, Bool-cases, Option-cases, inl, inr, ltb-false,
  ltb-false→le, All,
}
use a_multi_threaded_key_val.Text.{
  Str, codes, is_space, ◌=str◌, =str→eq, skip_spaces, length-skip_spaces, split_last,
  length-split_last, split_space, flush, split_words, words,
}
use a_multi_threaded_key_val.Exceptions.{Result, ok, throw, ◌>>=◌}
use a_multi_threaded_key_val.Message.{MessageType, Message, message, is_valid, max_encoded_len}
use a_multi_threaded_key_val.Serialization.{
  command_str, encode_args, encode_command, encode, commands, lookup_command, command_args,
  split_command, decode_line, check_valid, strip_newline, decode,
}
use a_multi_threaded_key_val.Serialization.RoundTrip.{decode-encode}

-- Where a step and what follows it give a value, the step gives one first.
module _ {V W : Type 0} (rest : V → Result W) (w : W) where
  >>=-eq_ok :
      (first : Result V) → first >>= rest ≡ ok w → (v : V) × (first ≡ ok v) × (rest v ≡ ok w)
  >>=-eq_ok (throw thrown) given = absurd (ground arith)
  >>=-eq_ok (ok v) given = (v, refl, given)

length-flush :
    (w : Str) (ws : List Str)
    → length (encode_args (flush w ws)) ≤ suc (length w + length (encode_args ws))
unfolding encode_args
length-flush [] ws = omega arith
length-flush (c ∷ w) ws = omega (arith, length-append w (encode_args ws))

-- The space that the tokens of a text need, each with one separator.
length-split_words :
    (s : Str) → length (split_words s).0 + length (encode_args (split_words s).1) ≤ length s
unfolding split_words
length-split_words [] = unfold encode_args in omega arith
length-split_words (c ∷ s) = elim (Bool-cases (is_space c)) [
  | inl space ↦
      rw space
        (omega (arith, length-flush (split_words s).0 (split_words s).1, length-split_words s))
  | inr other ↦ rw other (omega (arith, length-split_words s))
]

length-words : (s : Str) → length (encode_args (words s)) ≤ suc (length s)
unfolding words
length-words s =
    omega (arith, length-flush (split_words s).0 (split_words s).1, length-split_words s)

length-split_space :
    (s command rest : Str)
    → split_space s ≡ some (command, rest)
    → length s ≡ length command + suc (length rest)
unfolding split_space
length-split_space [] command rest h = absurd (ground arith)
length-split_space (c ∷ s) command rest h = elim (Bool-cases (c == 32)) [
  | inl space ↦ ground (arith, rw space at h)
  | inr other ↦ elim (Option-cases (split_space s)) [
    | inl e ↦ absurd (ground (arith, rw (other, e) at h))
    | inr (r, e) ↦ ground (arith, rw (other, e) at h, length-split_space s r.0 r.1 e)
  ]
]

-- A command that is looked up is the one that `encode` writes for its type.
abbrev Entry : Str × MessageType → Type 0
Entry (s, t) = command_str t ≡ some s

lookup_command_sound :
    (s : Str) (table : List (Str × MessageType)) (t : MessageType)
    → All Entry table
    → lookup_command s table ≡ ok t
    → command_str t ≡ some s
unfolding lookup_command
lookup_command_sound s [] t h e = absurd (ground arith)
lookup_command_sound s ((c, u) ∷ rest) t h e = elim (Bool-cases (s =str c)) [
  | inl same ↦ ground (arith, rw same at e, h.0, =str→eq s c same)
  | inr other ↦ lookup_command_sound s rest t h.1 (rw other at e)
]

commands-Entry : All Entry commands
unfolding command_str
commands-Entry = (
  refl,
  (
    refl,
    (
      refl,
      (
        refl,
        (
          refl,
          (
            refl,
            (
              refl,
              (
                refl,
                (refl, (refl, (refl, (refl, (refl, (refl, (refl, (refl, (refl, (refl, tt)))))))))),
              ),
            ),
          ),
        ),
      ),
    ),
  ),
)

length-command_args :
    (command rest : Str) → length (encode_args (command_args command rest)) ≤ suc (length rest)
unfolding command_args
length-command_args command rest =
    elim (Bool-cases (command =str codes "FAILED" || command =str codes "ERROR")) [
      | inl text ↦ rw text (unfold encode_args in rw append-nil (omega arith))
      | inr plain ↦ rw plain (length-words rest)
    ]

length-split_command :
    (line : Str)
    → length (split_command line).0 + length (encode_args (split_command line).1) ≤ length line
unfolding split_command
length-split_command line = elim (Option-cases (split_space line)) [
  | inl e ↦ rw e (unfold encode_args in omega arith)
  | inr (r, e) ↦
      rw e (omega (arith, length-split_space line r.0 r.1 e, length-command_args r.0 r.1))
]

check_valid-eq_ok : (m msg : Message) → check_valid m ≡ ok msg → (m ≡ msg) × (is_valid m ≡ true)
unfolding check_valid
check_valid-eq_ok m msg h = elim (Bool-cases (is_valid m)) [
  | inl valid ↦ (ground (arith, rw valid at h), valid)
  | inr bad ↦ absurd (ground (arith, rw bad at h))
]

decode_line-eq_ok :
    (line : Str) (msg : Message)
    → decode_line line ≡ ok msg
    → (is_valid msg ≡ true)
      × (command : Str) × (command_str msg.m_message_type ≡ some command)
      × (length command + length (encode_args msg.m_args) ≤ length line)
unfolding decode_line
decode_line-eq_ok line msg h = elim (Bool-cases (is_empty line)) [
  | inl empty ↦ absurd (ground (arith, rw empty at h))
  | inr filled ↦
      let (t, found, k) =
        >>=-eq_ok _ _ (lookup_command (split_command line).0 commands) (rw filled at h) in
      let (same, valid) = check_valid-eq_ok (message t (split_command line).1) msg k in
      rw (← same) (
        valid,
        (split_command line).0,
        lookup_command_sound (split_command line).0 commands t commands-Entry found,
        length-split_command line,
      )
]

encode-eq_ok :
    (msg : Message) (command : Str)
    → command_str msg.m_message_type ≡ some command
    → length command + length (encode_args msg.m_args) < max_encoded_len
    → encode msg ≡ ok (command ++ (encode_args msg.m_args ++ 10 ∷ []))
unfolding encode_command
encode-eq_ok msg command e h =
    let fits : ltb max_encoded_len (length (command ++ (encode_args msg.m_args ++ 10 ∷ [])))
        ≡ false =
      ltb-false _ _ (
        omega (
          arith,
          length-append command (encode_args msg.m_args ++ 10 ∷ []),
          length-append (encode_args msg.m_args) (10 ∷ []),
        )) in
    unfold encode in rw e (rw fits)

strip_newline-eq_ok :
    (s line : Str) → strip_newline (split_last s) ≡ ok line → length s ≡ length line + 1
strip_newline-eq_ok s line h = elim (Option-cases (split_last s)) [
  | inl e ↦ absurd (let k = rw e at h in unfold strip_newline in ground arith)
  | inr (r, e) ↦
      (let k = rw e at h in unfold strip_newline in ground (arith, length-split_last s r.0 r.1 e))
]

-- A message that `decode` reads is valid, and `encode` writes it in a text that is no longer than
-- the one that was read and that is decoded to the same message.
pub decode-canonical :
    (s : Str) (msg : Message)
    → decode s ≡ ok msg
    → (is_valid msg ≡ true)
      × (t : Str) × (encode msg ≡ ok t)
      × (length t ≤ length s)
      × (decode t ≡ ok msg)
unfolding decode
decode-canonical s msg h = elim (Bool-cases (ltb max_encoded_len (length s))) [
  | inl long ↦ absurd (ground (arith, rw long at h))
  | inr short ↦
      let (line, e, k) = >>=-eq_ok _ _ (strip_newline (split_last s)) (rw short at h) in
      let (valid, command, found, size) = decode_line-eq_ok (skip_spaces line) msg k in
      let total = strip_newline-eq_ok s line e in
      let room : length command + length (encode_args msg.m_args) < max_encoded_len =
        omega (arith, length-skip_spaces line, ltb-false→le max_encoded_len (length s) short) in
      let written = encode-eq_ok msg command found room in
      (
        valid,
        command ++ (encode_args msg.m_args ++ 10 ∷ []),
        written,
        omega (
          arith,
          length-skip_spaces line,
          length-append command (encode_args msg.m_args ++ 10 ∷ []),
          length-append (encode_args msg.m_args) (10 ∷ []),
        ),
        decode-encode msg _ valid written,
      )
]
