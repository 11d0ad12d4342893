-- ===== src/Lockout/Threshold.antt =====
-- The threshold of api/shared/authlockout.go: the failure that engages a lockout.
use authserver.Common.{ℕ, ◌+◌, ◌≤◌, ◌<◌, List, [], ◌∷◌, ◌≡◌, arith, leb, length, All, All, ◌∙◌, ap}
use authserver.Lockout.{Config, FailState, fail, verdict, counted, first_of, engages, no_failures}

-- Failures of one identity at these times, the first one first.
unfoldable pub failures : Config → List ℕ → FailState → FailState
failures cfg [] v = v
failures cfg (t ∷ ts) v = failures cfg ts (fail cfg t v)

-- A time in the window that the first failure opens.
abbrev pub Within : Config → ℕ → ℕ → Type 0
Within cfg start t = (start ≤ t) × (t ≤ start + cfg.auth_fail_window)

abbrev pub counting : ℕ → ℕ → FailState
counting n start = record { fail_count = n; first_failure = start; locked_until = 0 }

fail-first :
    (cfg : Config) (start : ℕ)
    → 1 < cfg.auth_fail_max
    → fail cfg start no_failures ≡ counting 1 start
unfolding fail counted first_of engages
fail-first cfg start h = ground (arith, h)

fail-counting :
    (cfg : Config) (start t n : ℕ)
    → Within cfg start t
    → 0 < n
    → n + 1 < cfg.auth_fail_max
    → fail cfg t (counting n start) ≡ counting (n + 1) start
unfolding fail counted first_of engages
fail-counting cfg start t n h p q = ground (arith, h, p, q)

failures-counting :
    (cfg : Config) (start n : ℕ) (ts : List ℕ)
    → All (Within cfg start) ts
    → 0 < n
    → n + length ts < cfg.auth_fail_max
    → failures cfg ts (counting n start) ≡ counting (n + length ts) start
unfolding failures
failures-counting cfg start n [] h p q = ap (λ m. counting m start) (omega arith)
failures-counting cfg start n (t ∷ ts) h p q =
    ap (failures cfg ts) (fail-counting cfg start t n h.0 p (omega arith))
    ∙ failures-counting cfg start (n + 1) ts h.1 (omega arith) (omega arith)
    ∙ ap (λ m. counting m start) (omega arith)

verdict-counting :
    (cfg : Config) (start t n : ℕ)
    → Within cfg start t
    → 0 < n
    → (verdict cfg t (counting n start)).engaged ≡ leb cfg.auth_fail_max (n + 1)
unfolding verdict counted engages
verdict-counting cfg start t n h p = ground (arith, h, p)

-- When the failures of an identity all fall into the window that its first failure opens, and those
-- before the last are fewer than the maximum, the last one engages the lockout exactly when it makes
-- them as many as the maximum.
pub failures-engage :
    (cfg : Config) (start last : ℕ) (ts : List ℕ)
    → All (Within cfg start) ts
    → Within cfg start last
    → length ts + 1 < cfg.auth_fail_max
    → (verdict cfg last (failures cfg (start ∷ ts) no_failures)).engaged
      ≡ leb cfg.auth_fail_max (length ts + 2)
unfolding failures
failures-engage cfg start last ts h l b =
    ap (λ v. (verdict cfg last (failures cfg ts v)).engaged) (fail-first cfg start (omega arith))
    ∙ ap (λ v. (verdict cfg last v).engaged)
        (failures-counting cfg start 1 ts h (omega arith) (omega arith))
    ∙ verdict-counting cfg start last (1 + length ts) l (omega arith)
    ∙ ap (leb cfg.auth_fail_max) (omega arith)
