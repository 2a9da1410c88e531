-- ===== src/Diag/Quiet.antt =====
-- What the log shows of the diagnosis.
use lanrunner.Common.{ℕ, ◌≡◌, refl, true, ◌==◌, arith}
use lanrunner.Diag.{Diag, evaluate, set, verdict_of, rank}

same_number : (n : ℕ) → (n == n) ≡ true
same_number n = ground arith

-- An evaluation that finds nothing new since the one before leaves the diagnosis as it is and logs nothing.
pub evaluate-evaluate :
    (d : Diag) (peers sessions : ℕ)
    → evaluate (evaluate d peers sessions).0 peers sessions ≡ ((evaluate d peers sessions).0, 0)
unfolding evaluate set verdict_of
evaluate-evaluate d peers sessions = rw (same_number (rank (verdict_of d peers sessions))) refl
