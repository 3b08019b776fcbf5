-- ===== src/Cleaner/Limits.antt =====
-- The limits that the cleaner goes by (operator/cfg/config.go, cleaner.go).
use k8up.Prelude.{Option, none, some, arith}
use k8up.Prelude.Int.{pos, ◌≤ℤ◌}
use k8up.JobObject.{JobObject}
use k8up.Cleaner.{GlobalLimits, history_limits}

-- No limit is negative, whatever the configuration and the spec say.
pub history_limits_nonneg :
    (c : GlobalLimits) (l : Option JobObject)
    → (pos 0 ≤ℤ (history_limits c l).successful) × (pos 0 ≤ℤ (history_limits c l).failed)
unfolding history_limits
history_limits_nonneg c none = ground arith
history_limits_nonneg c (some o) = ground arith
