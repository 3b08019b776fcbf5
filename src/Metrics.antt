-- ===== src/Metrics.antt =====
-- The counters and gauges of operator/monitoring/prometheus.go, keyed by their label values.
use k8up.Prelude.{
  ℕ, suc, ◌+◌, String, ◌≡◌, Bool, ◌&&◌, Option, none, some, arith, str_eq, if◌then◌else◌,
}
use k8up.Prelude.Int.{ℤ, pos, negsuc, ◌+ℤ◌}
use k8up.JobObject.{JobType, job_type_string}

pub record Metrics : Type 0 where
  -- By namespace and job type.
  pub failure : String → String → ℕ
  pub success : String → String → ℕ
  pub total : String → String → ℕ
  -- By namespace.
  pub schedules : String → ℤ
  -- By namespace, schedule and job type.
  pub last_job : String → String → String → Option Bool

abbrev pub no_metrics : Metrics
no_metrics = record {
  failure = λ n t. 0;
  success = λ n t. 0;
  total = λ n t. 0;
  schedules = λ n. pos 0;
  last_job = λ n s t. none;
}

-- Inc of a counter under two labels.
abbrev pub bump : String → String → (String → String → ℕ) → String → String → ℕ
bump n t f m u = if str_eq n m && str_eq t u then suc (f m u) else f m u

abbrev pub shift : ℤ → String → (String → ℤ) → String → ℤ
shift d n g m = if str_eq n m then g m +ℤ d else g m

unfoldable pub inc_failure_counters : String → JobType → Metrics → Metrics
inc_failure_counters n t m = record m {
  failure = bump n (job_type_string t) m.failure;
  total = bump n (job_type_string t) m.total;
}

unfoldable pub inc_success_counters : String → JobType → Metrics → Metrics
inc_success_counters n t m = record m {
  success = bump n (job_type_string t) m.success;
  total = bump n (job_type_string t) m.total;
}

unfoldable pub inc_registered_schedules_gauge : String → Metrics → Metrics
inc_registered_schedules_gauge n m = record m { schedules = shift (pos 1) n m.schedules }

unfoldable pub dec_registered_schedules_gauge : String → Metrics → Metrics
dec_registered_schedules_gauge n m = record m { schedules = shift (negsuc 0) n m.schedules }

unfoldable pub set_schedule_last_job_status : String → String → JobType → Bool → Metrics → Metrics
set_schedule_last_job_status n s t b m = record m {
  last_job = λ n' s' t'.
      if str_eq n n' && (str_eq s s' && str_eq (job_type_string t) t')
      then some b
      else m.last_job n' s' t';
}

-- The total counts every failure and every success.
pub record IsBalanced (m : Metrics) : Type 0 where
  pub at : (n t : String) → m.total n t ≡ m.failure n t + m.success n t

pub inc_failure_counters-IsBalanced :
    (n : String) (t : JobType) (m : Metrics)
    → IsBalanced m
    → IsBalanced (inc_failure_counters n t m)
unfolding inc_failure_counters
inc_failure_counters-IsBalanced n t m h = record { at = λ n' t'. ground (arith, h.at n' t') }

pub inc_success_counters-IsBalanced :
    (n : String) (t : JobType) (m : Metrics)
    → IsBalanced m
    → IsBalanced (inc_success_counters n t m)
unfolding inc_success_counters
inc_success_counters-IsBalanced n t m h = record { at = λ n' t'. ground (arith, h.at n' t') }
