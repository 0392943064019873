-- ===== src/Connection/Tidy.antt =====
-- client_connection.cpp: a round of `chat_with_client`, and the keys of the tables' maps.
use a_multi_threaded_key_val.Prelude.{ℕ, All, List, [], ◌∷◌}
use a_multi_threaded_key_val.Text.{Str}
use a_multi_threaded_key_val.Server.{Server}
use a_multi_threaded_key_val.Table.Refinement.{IsWellFormed, operations-IsWellFormed}
use a_multi_threaded_key_val.Connection.{World, Action}
use a_multi_threaded_key_val.Connection.Chat.{chat_step}
use a_multi_threaded_key_val.Connection.Upkeep.{Upkeep}
use a_multi_threaded_key_val.Connection.Kept.{Kept-chat_step}

pub units-All : (vs : List Str) → All (λ _. Unit {0}) vs
units-All [] = tt
units-All (v ∷ vs) = (tt, units-All vs)

-- Distinct keys, whatever the values are.
abbrev pub forming : Upkeep
forming = record {
  Good = λ _. Unit;
  TableOk = IsWellFormed;
  ConnOk = λ _. Unit;
  NamesOk = λ m n. Unit;
  new_ok = λ i. tt;
  created_ok = λ name. (tt, tt);
  no_names_ok = tt;
  named_ok = λ name m n absent h. tt;
  mutex_ok = λ t o h. h;
  set_ok = λ key value t g h. (operations-IsWellFormed t key value h).0;
  get_ok = λ key value t h e. tt;
  commit_ok = λ t h. (operations-IsWellFormed t [] [] h).1;
  rollback_ok = λ t h. (operations-IsWellFormed t [] [] h).2;
  flags_ok = λ c l b ps h. tt;
  stack_ok = λ c vs g h. tt;
  stack_good = λ c h. units-All c.m_stack.m_vector;
  spoken_ok = λ c msg text r e h. tt;
  number_good = λ z h. tt;
  read_good = λ line value msg d e g. tt;
}

-- All tables of a server are well-formed.
abbrev pub AllFormed : Server → Type 0
AllFormed srv = (p : ℕ) → IsWellFormed (srv.cell p)

pub record Tidy {ℓ} {A : Type ℓ} (m : Action A) : Type ℓ where
  pub keeps : (w : World) → AllFormed w.server → AllFormed (m w).1.server

-- One round of the loop keeps every table of the server well-formed, however it ends: the keys of
-- the table's two maps stay distinct.
pub Tidy-chat_step : (buf : Str) → Tidy (chat_step buf)
Tidy-chat_step buf = record {
  keeps = λ w h. ((Kept-chat_step forming buf).keeps w ((h, tt), tt)).0.0;
}
