-- ===== src/Examples/Rounds.antt =====
-- The theorems on the rounds of a connection and on its handlers at concrete inputs.
use a_multi_threaded_key_val.Prelude.{ℕ, ◌≡◌, refl, true, false, none, some, [], ◌∷◌, ◌++◌, arith}
use a_multi_threaded_key_val.Text.{codes}
use a_multi_threaded_key_val.Map.{find}
use a_multi_threaded_key_val.Exceptions.{ok, throw, invalid_message}
use a_multi_threaded_key_val.Message.{MessageType, message}
use a_multi_threaded_key_val.Serialization.{decode}
use a_multi_threaded_key_val.Server.{new_server}
use a_multi_threaded_key_val.Connection.{World, blocked, returned, mem, table_at, new_connection}
use a_multi_threaded_key_val.Connection.Handlers.{handle_get, handle_set}
use a_multi_threaded_key_val.Connection.Chat.{c_string, chat_step}
use a_multi_threaded_key_val.Connection.Arithmetic.{with_stack}
use a_multi_threaded_key_val.Connection.Rounds.{failed_text}
use a_multi_threaded_key_val.Connection.Endings.{
  conflict, EndedBy, conflict_rolls_back, commit_publishes, cleared, Published,
}
use a_multi_threaded_key_val.Connection.Autocommit.{stored, get_after_set}
use a_multi_threaded_key_val.Scenarios.{line, contended, conflicting, quiet, run}
use a_multi_threaded_key_val.System.Tables.{tables-AllFormed}
use a_multi_threaded_key_val.System.{view}

waits : (chat_step (line "GET t k") (view 1 contended.last)).0 ≡ blocked
unfolding run
waits = refl

abbrev w₀ : World
w₀ = view 0 conflicting.last

decodes :
    decode (c_string (line "GET t k")) ≡ ok (message MessageType.get (codes "t" ∷ codes "k" ∷ []))
unfolding run
decodes = refl

logged_in : w₀.conn.m_logged_in ≡ true
unfolding run
logged_in = refl

busy : w₀.conn.m_in_transaction ≡ true
unfolding run
busy = refl

found : find (codes "t") w₀.server.set_of_table ≡ some 0
unfolding run
found = refl

other : mem 0 w₀.conn.locked_tables ≡ false
unfolding run
other = refl

taken : (table_at 0 w₀).table_mutex ≡ some 1
unfolding run
taken = refl

conflict_rolls_back_example :
    let v = (chat_step (line "GET t k") w₀).1 in
    ((chat_step (line "GET t k") w₀).0 ≡ returned true)
    × EndedBy cleared w₀ v
    × ((q : ℕ) → (table_at q v).key_value ≡ (table_at q w₀).key_value)
    × (v.conn.written ≡ failed_text (conflict (codes "t")) ∷ w₀.conn.written)
conflict_rolls_back_example =
    conflict_rolls_back (line "GET t k") (codes "t") (codes "k") w₀ 0 1 decodes logged_in busy found
      other taken (omega arith)

commit_decodes : decode (c_string (line "COMMIT")) ≡ ok (message MessageType.commit [])
unfolding run
commit_decodes = refl

in_transaction : (view 0 contended.last).conn.m_in_transaction ≡ true
unfolding run
in_transaction = refl

has_logged_in : (view 0 contended.last).conn.m_logged_in ≡ true
unfolding run
has_logged_in = refl

commit_publishes_example :
    let w = view 0 contended.last in
    let v = (chat_step (line "COMMIT") w).1 in
    ((chat_step (line "COMMIT") w).0 ≡ returned true)
    × (v.conn.m_in_transaction ≡ false)
    × (v.conn.locked_tables ≡ [])
    × ((q : ℕ) → mem q w.conn.locked_tables ≡ true → Published (table_at q w) (table_at q v))
    × ((q : ℕ) → mem q w.conn.locked_tables ≡ false → table_at q v ≡ table_at q w)
    × (v.conn.written ≡ (codes "OK" ++ 10 ∷ []) ∷ w.conn.written)
commit_publishes_example =
    commit_publishes (line "COMMIT") (view 0 contended.last) commit_decodes has_logged_in
      in_transaction (tables-AllFormed contended.reach)

abbrev w₁ : World
w₁ = view 0 quiet.last

quiet_found : find (codes "t") w₁.server.set_of_table ≡ some 0
unfolding run
quiet_found = refl

quiet_idle : w₁.conn.m_in_transaction ≡ false
unfolding run
quiet_idle = refl

quiet_free : (table_at 0 w₁).table_mutex ≡ none
unfolding run
quiet_free = refl

quiet_clean : (table_at 0 w₁).key_value_temp ≡ []
unfolding run
quiet_clean = refl

get_after_set_example :
    let r =
      handle_get
        (message MessageType.get (codes "t" ∷ codes "k" ∷ []))
        (handle_set
          (message MessageType.set (codes "t" ∷ codes "k" ∷ []))
          (with_stack (codes "41" ∷ []) w₁)).1 in
    (r.0 ≡ returned tt)
    × (r.1.conn.m_stack.m_vector ≡ codes "41" ∷ [])
    × (table_at 0 r.1 ≡ stored (codes "k") (codes "41") (table_at 0 w₁))
get_after_set_example =
    get_after_set (codes "t") (codes "k") w₁ 0 quiet_idle quiet_found quiet_free quiet_clean
      (codes "41") []

-- A connection that has just been accepted.
abbrev fresh : World
fresh = record { server = new_server (λ _. 0); conn = new_connection 0 }

begin_decodes : decode (c_string (line "BEGIN")) ≡ ok (message MessageType.begin [])
unfolding run
begin_decodes = refl

malformed : decode (c_string (line "HELLO")) ≡ throw (invalid_message (codes "Unknown command"))
unfolding run
malformed = refl
