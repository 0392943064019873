-- ===== src/System/Visits/Loops.antt =====
-- The steps of the system are among those that visit one table of a loop at a time.
use a_multi_threaded_key_val.Prelude.{ℕ, refl, none}
use a_multi_threaded_key_val.System.{System, Reach, start, next}
use a_multi_threaded_key_val.System.Visits.{FineReach, fine_start, fine_next, whole}

-- What the system reaches in whole rounds, it reaches in these steps.
pub Reach-FineReach :
    {codes : ℕ → ℕ} {s : System}
    → Reach codes s
    → FineReach codes (record { system = s; ending = λ i. none })
Reach-FineReach (start fd) = fine_start fd
Reach-FineReach (next r i st) = fine_next (Reach-FineReach r) i (whole refl st)
