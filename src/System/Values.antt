-- ===== src/System/Values.antt =====
-- The values that the server holds and the texts that it sends, over the steps of the system.
use mathlib.Core.List.{append-nil}
use a_multi_threaded_key_val.Prelude.{
  ℕ, ◌≡◌, true, false, List, [], ◌∷◌, ◌++◌, length, length-append, All, ltb, ltb-false, arith,
}
use a_multi_threaded_key_val.Text.{Str, codes}
use a_multi_threaded_key_val.Exceptions.{ok}
use a_multi_threaded_key_val.Message.{MessageType, message, max_encoded_len}
use a_multi_threaded_key_val.Serialization.{encode, decode}
use a_multi_threaded_key_val.ValueStack
use a_multi_threaded_key_val.Connection.{World, returned, gets, pure, ◌>>=◌, stack_top}
use a_multi_threaded_key_val.Connection.Handlers.{handle_top}
use a_multi_threaded_key_val.Connection.Chat.{c_string, chat_step, serve, dispatch}
use a_multi_threaded_key_val.Connection.Arithmetic.{with_text}
use a_multi_threaded_key_val.Connection.Rounds.{chat_step-serve, respond-eq}
use a_multi_threaded_key_val.Connection.Values.{fitting, IsFitting, FittingTable, IsAnswer}
use a_multi_threaded_key_val.System.{System, Reach, view}
use a_multi_threaded_key_val.System.Kept.{Reach-AllKept}

-- In a reachable state, every committed and every pending value of a table, and every value on the
-- stack of a connection, is a value of the protocol that fits a message.
pub values_fit :
    {codes : ℕ → ℕ} {s : System}
    → Reach codes s
    → ((p : ℕ) → FittingTable (s.server.cell p))
      × ((i : ℕ) → All IsFitting (s.conns i).m_stack.m_vector)
values_fit r = let k = Reach-AllKept fitting r in (k.0.0, λ i. (k.1 i).0)

-- In a reachable state, every text that the server has sent to a connection is one that `decode`
-- reads as a response: OK, FAILED, ERROR, or DATA with a value that fits.
pub answers_decode :
    {codes : ℕ → ℕ} {s : System} → Reach codes s → (i : ℕ) → All IsAnswer (s.conns i).written
answers_decode r i = ((Reach-AllKept fitting r).1 i).1

abbrev pub data_text : Str → Str
data_text value = codes "DATA " ++ (value ++ 10 ∷ [])

pub encode-data :
    (value : Str)
    → IsFitting value
    → encode (message MessageType.data_type (value ∷ [])) ≡ ok (data_text value)
unfolding encode
encode-data value g =
    let fits : ltb max_encoded_len (length (data_text value)) ≡ false =
      ltb-false _ _ (omega (arith, g.1, length-append value (10 ∷ []))) in
    rw append-nil (rw fits)

stack_top-eq :
    (value : Str) (rest : List Str) (w : World)
    → w.conn.m_stack.m_vector ≡ value ∷ rest
    → stack_top w ≡ (returned value, w)
unfolding stack_top ValueStack.get_top
stack_top-eq value rest w top = rw top

-- The value on the top of a stack of values that fit.
top_fits :
    {value : Str} {rest : List Str} (vs : List Str)
    → All IsFitting vs
    → vs ≡ value ∷ rest
    → IsFitting value
top_fits vs g e = (rw e at g).0

pub serve-top :
    (value : Str) (rest : List Str) (w : World)
    → IsFitting value
    → w.conn.m_logged_in ≡ true
    → w.conn.m_stack.m_vector ≡ value ∷ rest
    → serve (message MessageType.top []) w ≡ (returned true, with_text (data_text value) w)
unfolding serve dispatch handle_top ◌>>=◌ gets pure
serve-top value rest w g logged_in top =
    simp (logged_in, stack_top-eq value rest w top, respond-eq _ _ w (encode-data value g))

-- In a reachable state, TOP of a logged-in connection with a value on its stack is answered with a
-- DATA message that holds the value on the top, which always fits a message; nothing else changes.
top_answers :
    {codes : ℕ → ℕ} {s : System}
    → Reach codes s
    → (i : ℕ) (buf value : Str) (rest : List Str)
    → decode (c_string buf) ≡ ok (message MessageType.top [])
    → (s.conns i).m_logged_in ≡ true
    → (s.conns i).m_stack.m_vector ≡ value ∷ rest
    → chat_step buf (view i s) ≡ (returned true, with_text (data_text value) (view i s))
top_answers {s = s} r i buf value rest d logged_in top =
    chat_step-serve buf (view i s) _ (message MessageType.top []) _ d (
      serve-top value rest (view i s)
        (top_fits (s.conns i).m_stack.m_vector ((values_fit r).1 i) top) logged_in top)
