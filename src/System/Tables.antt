-- ===== src/System/Tables.antt =====
-- The keys of the tables' maps, over the steps of the system.
use a_multi_threaded_key_val.Prelude.{ℕ}
use a_multi_threaded_key_val.Connection.Tidy.{AllFormed, forming}
use a_multi_threaded_key_val.System.{System, Reach}
use a_multi_threaded_key_val.System.Kept.{Reach-AllKept}

-- In a reachable state every table is well-formed: the keys of each of its two maps are distinct.
pub tables-AllFormed : {codes : ℕ → ℕ} {s : System} → Reach codes s → AllFormed s.server
tables-AllFormed r = (Reach-AllKept forming r).0.0
