-- ===== src/Connection/Stops.antt =====
-- client_connection.cpp: the lines that end the loop of `chat_with_client`.
use a_multi_threaded_key_val.Prelude.{
  ◌≡◌, refl, ap, ◌⊎◌, inl, inr, Bool, true, false, List, [], ◌∷◌, ◌++◌,
}
use a_multi_threaded_key_val.Text.{Str}
use a_multi_threaded_key_val.Exceptions.{Exception, ok, throw}
use a_multi_threaded_key_val.Message.{MessageType, Message}
use a_multi_threaded_key_val.Serialization.{encode, decode}
use a_multi_threaded_key_val.Connection.{
  World, Action, Outcome, returned, raised, blocked, undefined, pure, gets, continue, ◌>>=◌,
}
use a_multi_threaded_key_val.Connection.Handlers.{handle_bye, ok_response}
use a_multi_threaded_key_val.Connection.Chat.{
  c_string, dispatch, serve, chat_step, chat_with_client,
}
use a_multi_threaded_key_val.Connection.Arithmetic.{with_text}
use a_multi_threaded_key_val.Connection.Autocommit.{ok_text}
use a_multi_threaded_key_val.Connection.Rounds.{
  chat_step-serve, respond-eq, malformed_line_ends_the_chat,
}

encode-ok : encode ok_response ≡ ok ok_text
unfolding encode
encode-ok = refl

serve-bye :
    (req : Message) (w : World)
    → req.m_message_type ≡ MessageType.bye
    → serve req w ≡ (returned false, with_text ok_text w)
unfolding serve dispatch handle_bye ◌>>=◌ gets pure
serve-bye req w e = simp (e, respond-eq ok_response ok_text w encode-ok)

-- BYE is answered with OK whatever the state of the connection, and ends the loop; nothing else
-- changes.
pub bye_round :
    (buf : Str) (w : World) (req : Message)
    → decode (c_string buf) ≡ ok req
    → req.m_message_type ≡ MessageType.bye
    → chat_step buf w ≡ (returned false, with_text ok_text w)
bye_round buf w req d e = chat_step-serve buf w _ req (returned false) d (serve-bye req w e)

-- The line is a BYE, or no message of the protocol.
abbrev pub IsFinal : Str → Type 0
IsFinal buf =
    ((req : Message) × (decode (c_string buf) ≡ ok req) × (req.m_message_type ≡ MessageType.bye))
    ⊎ ((e : Exception) × (decode (c_string buf) ≡ throw e))

chat_step-IsFinal : (buf : Str) (w : World) → IsFinal buf → (chat_step buf w).0 ≡ returned false
chat_step-IsFinal buf w (inl (req, d, e)) = ap (λ r. r.0) (bye_round buf w req d e)
chat_step-IsFinal buf w (inr (e, d)) =
    let (what, same, round) = malformed_line_ends_the_chat buf w e d in ap (λ r. r.0) round

continue-eq :
    (o : Outcome Bool) (f g : Bool → Action (Unit {0})) (w : World)
    → ((b : Bool) (v : World) → f b v ≡ g b v)
    → continue o f w ≡ continue o g w
continue-eq (returned b) f g w h = h b w
continue-eq (raised e) f g w h = refl
continue-eq blocked f g w h = refl
continue-eq undefined f g w h = refl

while_active-eq :
    (active : Bool) (a b : Action (Unit {0})) (v : World)
    → a v ≡ b v
    → (elim active as (λ x. Action (Unit {0})) [ true ↦ a | false ↦ pure tt ]) v
      ≡ (elim active as (λ x. Action (Unit {0})) [ true ↦ b | false ↦ pure tt ]) v
while_active-eq true a b v e = e
while_active-eq false a b v e = refl

-- The loop ends with the first line that is a BYE or no message of the protocol: whatever the lines
-- before it do, no line behind it is served.
pub chat_ends_at :
    (before after : List Str) (buf : Str) (w : World)
    → IsFinal buf
    → chat_with_client (before ++ (buf ∷ after)) w ≡ chat_with_client (before ++ (buf ∷ [])) w
unfolding chat_with_client ◌>>=◌
chat_ends_at [] after buf w final = rw (chat_step-IsFinal buf w final) refl
chat_ends_at (line ∷ before) after buf w final =
    continue-eq (chat_step line w).0 _ _ (chat_step line w).1
      λ active v. while_active-eq active _ _ v (chat_ends_at before after buf v final)
