-- ===== src/System/Guards/Rounds.antt =====
-- A thread that takes the mutex and then leaves the block of its Guard makes a round.
use a_multi_threaded_key_val.Prelude.{ℕ, ◌≡◌, ◌≢◌, some, none}
use a_multi_threaded_key_val.Text.{Str}
use a_multi_threaded_key_val.ValueStack
use a_multi_threaded_key_val.Connection.{World, table_at}
use a_multi_threaded_key_val.System.{System}
use a_multi_threaded_key_val.System.Guards.{Block, Enters, gets_in, sets_in}

abbrev pub line_of : {i : ℕ} {s : System} {b : Block} {p : ℕ} {w : World} → Enters i s b p w → Str
line_of (gets_in buf name key p t d u o f l) = buf
line_of (sets_in buf name key value rest p t d u o v f l) = buf

-- What the thread has done when it comes to the block.
record Taken (i : ℕ) (s : System) (p : ℕ) (w : World) : Type 0 where
  free : (s.server.cell p).table_mutex ≡ none
  table : table_at p w ≡ record (s.server.cell p) { table_mutex = some (s.conns i).thread }
  others : (q : ℕ) → q ≢ p → table_at q w ≡ s.server.cell q
