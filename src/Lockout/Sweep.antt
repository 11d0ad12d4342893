-- ===== src/Lockout/Sweep.antt =====
-- `sweep` of api/shared/authlockout.go discards only what cannot change a decision.
use authserver.Common.{ℕ, ◌≤◌, false, ◌≡◌, arith}
use authserver.Lockout.{Config, FailState, verdict, counted, engages, matters, no_failures}

-- An entry that a sweep discards answers, at the time of the sweep and at any later one, what an
-- entry that has no failures answers.
pub sweep-verdict :
    (cfg : Config) (now later : ℕ) (v : FailState)
    → matters cfg now v ≡ false
    → now ≤ later
    → verdict cfg later v ≡ verdict cfg later no_failures
unfolding verdict counted engages matters
sweep-verdict cfg now later v h l = ground arith
