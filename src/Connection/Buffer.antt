-- ===== src/Connection/Buffer.antt =====
-- client_connection.cpp: the buffer of `chat_with_client`.
use a_multi_threaded_key_val.Prelude.{
  ℕ, ◌≤◌, ◌≡◌, refl, ap, ◌∙◌, Bool, true, false, not, ◌&&◌, some, [], ◌∷◌, ◌++◌, length, all,
  ltb-false, ◌==◌, arith, Option-cases, inl, inr,
}
use a_multi_threaded_key_val.Text.{Str, codes, split_last}
use a_multi_threaded_key_val.Exceptions.{throw, ok, invalid_message}
use a_multi_threaded_key_val.Message.{Message, is_valid, max_encoded_len}
use a_multi_threaded_key_val.Serialization.{encode, decode, strip_newline}
use a_multi_threaded_key_val.Serialization.RoundTrip.{decode-encode}
use a_multi_threaded_key_val.Connection.{World, returned}
use a_multi_threaded_key_val.Connection.Chat.{c_string, chat_step}
use a_multi_threaded_key_val.Connection.Arithmetic.{with_text}
use a_multi_threaded_key_val.Connection.Rounds.{error_text, chat_step-invalid}

-- Neither the NUL nor the newline.
abbrev pub is_inner : ℕ → Bool
is_inner c = not (c == 0) && not (c == 10)

c_string-inner : (s : Str) → all is_inner s ≡ true → c_string s ≡ s
unfolding c_string
c_string-inner [] h = refl
c_string-inner (c ∷ s) h = ground (arith, h, c_string-inner s)

all-split_last :
    (s front : Str) (c : ℕ)
    → all is_inner s ≡ true
    → split_last s ≡ some (front, c)
    → is_inner c ≡ true
unfolding split_last
all-split_last [] front c h e = ground arith
all-split_last (a ∷ []) front c h e = ground arith
all-split_last (a ∷ b ∷ s) front c h e = elim (Option-cases (split_last (b ∷ s))) [
  | inl n ↦ ground (arith, n)
  | inr (r, k) ↦ ground (arith, k, all-split_last (b ∷ s) r.0 r.1)
]

abbrev pub not_terminated : Str
not_terminated = codes "Message is not terminated by newline"

decode-inner :
    (s : Str)
    → all is_inner s ≡ true
    → length s ≤ 1024
    → decode s ≡ throw (invalid_message not_terminated)
unfolding decode strip_newline
decode-inner s h short =
    rw (ltb-false max_encoded_len (length s) short) (elim (Option-cases (split_last s)) [
      | inl e ↦ rw e refl
      | inr (r, e) ↦
          let other : (r.1 == 10) ≡ false = ground (arith, all-split_last s r.0 r.1 h e) in
          rw (e, other) refl
    ])

-- A protocol message that takes all of the 1024 bytes that a message may take is one that `decode`
-- reads, but on its first 1023 bytes, which are what the server's buffer has room for, a round
-- answers ERROR and ends the chat. Its bytes before the newline are no NUL and no newline.
pub full_message_is_refused :
    (msg : Message) (front : Str) (w : World)
    → is_valid msg ≡ true
    → encode msg ≡ ok (front ++ 10 ∷ [])
    → length front ≡ 1023
    → all is_inner front ≡ true
    → (decode (front ++ 10 ∷ []) ≡ ok msg)
      × (chat_step front w ≡ (returned false, with_text (error_text not_terminated) w))
full_message_is_refused msg front w valid e long inner = (
  decode-encode msg (front ++ 10 ∷ []) valid e,
  chat_step-invalid front not_terminated w
      (ap decode (c_string-inner front inner) ∙ decode-inner front inner (omega (arith, long))),
)
