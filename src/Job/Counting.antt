-- ===== src/Job/Counting.antt =====
-- How often the metrics count a job (operator/job/job.go, operator/monitoring/prometheus.go).
use k8up.Prelude.{
  String, ◌≡◌, refl, Bool, true, false, Option, none, some, arith, if◌then◌else◌, Bool-cases, inl,
  inr, ◌∙◌, ◌&&◌,
}
use k8up.Status.{ConditionApi, Status, has_succeeded, has_failed, has_failed_pre_backup}
use k8up.Status.Queries.{outcome, failed, succeeded}
use k8up.JobObject.{JobObject, JobType}
use k8up.Metrics.{
  Metrics, IsBalanced, inc_success_counters, inc_failure_counters, inc_success_counters-IsBalanced,
  inc_failure_counters-IsBalanced, set_schedule_last_job_status,
}
use k8up.Job.{
  BatchJob, on_success, on_failure, on_start, mark_succeeded, mark_failed, report_last,
  update_status, job_has_succeeded, job_has_failed,
}
use k8up.Job.Outcomes.{update_status-outcome}

-- The counters of two metrics are the same.
pub record SameCounters (m n : Metrics) : Type 0 where
  pub total : m.total ≡ n.total
  pub success : m.success ≡ n.success
  pub failure : m.failure ≡ n.failure

SameCounters-refl : (m : Metrics) → SameCounters m m
SameCounters-refl m = record { total = refl; success = refl; failure = refl }

SameCounters-trans : {a b c : Metrics} → SameCounters a b → SameCounters b c → SameCounters a c
SameCounters-trans p q = record {
  total = p.total ∙ q.total;
  success = p.success ∙ q.success;
  failure = p.failure ∙ q.failure;
}

SameCounters-IsBalanced : {a b : Metrics} → SameCounters a b → IsBalanced b → IsBalanced a
SameCounters-IsBalanced p h = record { at = λ n t. rw (p.total, p.success, p.failure) (h.at n t) }

IsBalanced-if :
    (c : Bool) {m n : Metrics} → IsBalanced m → IsBalanced n → IsBalanced (if c then m else n)
IsBalanced-if true h k = h
IsBalanced-if false h k = k

report_last-SameCounters :
    (l : Option String) (ns : String) (t : JobType) (ok : Bool) (m : Metrics)
    → SameCounters (report_last l ns t ok m) m
unfolding report_last set_schedule_last_job_status
report_last-SameCounters none ns t ok m = SameCounters-refl m
report_last-SameCounters (some s) ns t ok m = record {
  total = refl;
  success = refl;
  failure = refl;
}

module _ (api : ConditionApi) where
  on_success-counted :
      (b : BatchJob) (o : JobObject) (s : Status) (m : Metrics)
      → SameCounters
          (on_success api b o (s, m)).1
          (if has_succeeded api s then m else inc_success_counters b.namespace o.job_type m)
  unfolding on_success mark_succeeded
  on_success-counted b o s m = elim (Bool-cases (has_succeeded api s)) [
    | inl h ↦ rw h (report_last-SameCounters _ _ _ _ _)
    | inr h ↦ rw h (report_last-SameCounters _ _ _ _ _)
  ]

  on_failure-counted :
      (b : BatchJob) (o : JobObject) (s : Status) (m : Metrics)
      → SameCounters
          (on_failure api b o (s, m)).1
          (if has_failed api s then m else inc_failure_counters b.namespace o.job_type m)
  unfolding on_failure mark_failed
  on_failure-counted b o s m = elim (Bool-cases (has_failed api s)) [
    | inl h ↦ rw h (report_last-SameCounters _ _ _ _ _)
    | inr h ↦ rw h (report_last-SameCounters _ _ _ _ _)
  ]

  success-IsBalanced :
      (c : Bool) (b : BatchJob) (o : JobObject) (sm : Status × Metrics)
      → IsBalanced sm.1
      → IsBalanced (if c then on_success api b o sm else sm).1
  success-IsBalanced true b o (s, m) h =
      SameCounters-IsBalanced (on_success-counted b o s m)
        (IsBalanced-if _ h (inc_success_counters-IsBalanced b.namespace o.job_type m h))
  success-IsBalanced false b o sm h = h

  failure-IsBalanced :
      (c : Bool) (b : BatchJob) (o : JobObject) (sm : Status × Metrics)
      → IsBalanced sm.1
      → IsBalanced (if c then on_failure api b o sm else sm).1
  failure-IsBalanced true b o (s, m) h =
      SameCounters-IsBalanced (on_failure-counted b o s m)
        (IsBalanced-if _ h (inc_failure_counters-IsBalanced b.namespace o.job_type m h))
  failure-IsBalanced false b o sm h = h

  start_counters :
      (c : Bool) (b : BatchJob) (sm : Status × Metrics)
      → (if c then on_start api b sm else sm).1 ≡ sm.1
  unfolding on_start
  start_counters true b (s, m) = refl
  start_counters false b sm = refl

  -- Whatever the batch job says, the total stays the sum of the failures and the successes.
  pub update_status-IsBalanced :
      (b : BatchJob) (o : JobObject) (m : Metrics)
      → IsBalanced m
      → IsBalanced (update_status api b o m).1
  unfolding update_status
  update_status-IsBalanced b o m h =
      rw (start_counters _ b _)
        (failure-IsBalanced _ b o _ (success-IsBalanced _ b o (o.status, m) h))

  success_counted :
      (c : Bool) (b : BatchJob) (o : JobObject) (s : Status) (m : Metrics)
      → (c ≡ true → has_succeeded api s ≡ true)
      → SameCounters (if c then on_success api b o (s, m) else (s, m)).1 m
  success_counted true b o s m h = rw (h refl) at (on_success-counted b o s m)
  success_counted false b o s m h = SameCounters-refl m

  failure_counted :
      (c : Bool) (b : BatchJob) (o : JobObject) (sm : Status × Metrics)
      → (c ≡ true → has_failed api sm.0 ≡ true)
      → SameCounters (if c then on_failure api b o sm else sm).1 sm.1
  failure_counted true b o (s, m) h = rw (h refl) at (on_failure-counted b o s m)
  failure_counted false b o sm h = SameCounters-refl _

  has_failed_of_outcome : (s : Status) → outcome api s ≡ failed → has_failed api s ≡ true
  unfolding outcome
  has_failed_of_outcome s h = ground arith

  has_succeeded_of_outcome : (s : Status) → outcome api s ≡ succeeded → has_succeeded api s ≡ true
  unfolding outcome
  has_succeeded_of_outcome s h = ground arith

  failed_before :
      (c : Bool) (b : BatchJob) (o : JobObject) (s : Status) (m : Metrics)
      → (c ≡ true → outcome api s ≡ succeeded)
      → outcome api s ≡ failed
      → has_failed api (if c then on_success api b o (s, m) else (s, m)).0 ≡ true
  failed_before true b o s m hs hf = cc (hs refl)
  failed_before false b o s m hs hf = has_failed_of_outcome s hf

  no_recount :
      (b : BatchJob) (o : JobObject) (m : Metrics)
      → (job_has_succeeded b.conditions ≡ true → outcome api o.status ≡ succeeded)
      → (job_has_failed b.conditions ≡ true → outcome api o.status ≡ failed)
      → SameCounters (update_status api b o m).1 m
  unfolding update_status
  no_recount b o m hs hf = rw (start_counters _ b _) (
      SameCounters-trans (failure_counted _ b o _ (λ e. failed_before _ b o o.status m hs (hf e)))
        (success_counted _ b o o.status m (λ e. has_succeeded_of_outcome _ (hs e))))

  -- A second update by the same batch job counts nothing, for a job that does not both succeed and
  -- fail and whose pre-backup has not failed.
  pub second_update_counts_nothing :
      (b : BatchJob) (o : JobObject) (m : Metrics)
      → has_failed_pre_backup api o.status ≡ false
      → (job_has_succeeded b.conditions && job_has_failed b.conditions) ≡ false
      → let (o', m') = update_status api b o m in SameCounters (update_status api b o' m').1 m'
  second_update_counts_nothing b o m pre one =
      no_recount b _ _ (λ s. ground (arith, update_status-outcome api b o m))
        (λ f. ground (arith, update_status-outcome api b o m))
