-- ===== src/BackupController/Verdict.antt =====
-- The status that a backup takes from its batch jobs (operator/backupcontroller/controller.go).
use k8up.Prelude.{
  ℕ, ◌+◌, ◌≡◌, ◌≤◌, refl, sym, Bool, true, false, ◌&&◌, some, List, [], ◌∷◌, length, anyb, arith,
  ltb, ◌==◌, if◌then◌else◌,
}
use k8up.Status.{ConditionApi, has_started, has_failed_pre_backup}
use k8up.Status.Queries.{outcome, failed, succeeded}
use k8up.Status.Updates.{outcome-set_started}
use k8up.JobObject.{JobObject}
use k8up.Metrics.{Metrics}
use k8up.Job.{BatchJob, Answer, job_has_succeeded, job_has_failed, job_has_started}
use k8up.Job.Outcomes.{outcome-mark_succeeded, outcome-mark_failed}
use k8up.BackupController.{
  Counts, no_counts, one_if, count_one, count_jobs, verdict, reconcile_backup_status,
  backup_message, owned_by,
}

abbrev pub allb {ℓ} : {A : Type ℓ} → (A → Bool) → List A → Bool
allb p [] = true
allb p (x ∷ xs) = p x && allb p xs

-- The number of elements that pass a test.
countb {ℓ} : {A : Type ℓ} → (A → Bool) → List A → ℕ
countb p [] = 0
countb p (x ∷ xs) = one_if (p x) + countb p xs

module _ {ℓ} {A : Type ℓ} (p : A → Bool) where
  countb_bound : (xs : List A) → countb p xs ≤ length xs
  unfolding countb
  countb_bound [] = omega arith
  countb_bound (x ∷ xs) = ground (arith, countb_bound xs)

  countb_all : (xs : List A) → (length xs == countb p xs) ≡ allb p xs
  unfolding countb
  countb_all [] = refl
  countb_all (x ∷ xs) = ground (arith, countb_all xs, countb_bound xs)

  countb_any : (xs : List A) → ltb 0 (countb p xs) ≡ anyb p xs
  unfolding countb
  countb_any [] = refl
  countb_any (x ∷ xs) = ground (arith, countb_any xs)

abbrev succeeds : BatchJob → Bool
succeeds b = job_has_succeeded b.conditions

abbrev fails : BatchJob → Bool
fails b = job_has_failed b.conditions

abbrev starts : BatchJob → Bool
starts b = job_has_started b.conditions

count_jobs_lem :
    (bs : List BatchJob) (n : Counts)
    → ((count_jobs bs n).succeeded ≡ n.succeeded + countb succeeds bs)
      × ((count_jobs bs n).failed ≡ n.failed + countb fails bs)
      × ((count_jobs bs n).started ≡ n.started + countb starts bs)
unfolding count_jobs countb
count_jobs_lem [] n = (omega arith, omega arith, omega arith)
count_jobs_lem (b ∷ bs) n =
    let (s, f, t) = count_jobs_lem bs (count_one b n) in
    (omega (arith, s), omega (arith, f), omega (arith, t))

-- The counts of the loop, by the tests on the whole list.
counted :
    (bs : List BatchJob)
    → let n = count_jobs bs no_counts in
      ((length bs == n.succeeded) ≡ allb succeeds bs)
      × (ltb 0 n.failed ≡ anyb fails bs)
      × (ltb 0 n.started ≡ anyb starts bs)
counted bs =
    let (s, f, t) = count_jobs_lem bs no_counts in
    ground (arith, s, f, t, countb_all succeeds bs, countb_any fails bs, countb_any starts bs)

module _ (api : ConditionApi) (o : JobObject) (m : Metrics) where
  verdict-outcome :
      (jobs : ℕ) (n : Counts)
      → let s' = (verdict api jobs n o m).0 in
        (outcome api s' ≡ (
          if jobs == n.succeeded
          then (if has_failed_pre_backup api o.status then failed else succeeded)
          else if ltb 0 n.failed
          then failed
          else outcome api o.status))
        × (has_started api s' ≡ (
            if jobs == n.succeeded
            then false
            else if ltb 0 n.failed
            then false
            else if ltb 0 n.started
            then true
            else has_started api o.status))
  unfolding verdict
  verdict-outcome jobs n =
      let message = backup_message (owned_by o) n in
      ground (
        arith,
        outcome-mark_succeeded api (owned_by o) o.namespace o.job_type message o.status m,
        outcome-mark_failed api (owned_by o) o.namespace o.job_type message o.status m,
        outcome-set_started api message o.status,
      )

  verdict_by :
      (jobs : ℕ) (n : Counts) (all some_failed some_started : Bool)
      → (jobs == n.succeeded) ≡ all
      → ltb 0 n.failed ≡ some_failed
      → ltb 0 n.started ≡ some_started
      → let s' = (verdict api jobs n o m).0 in
        (outcome api s' ≡ (
          if all
          then (if has_failed_pre_backup api o.status then failed else succeeded)
          else if some_failed
          then failed
          else outcome api o.status))
        × (has_started api s' ≡ (
            if all
            then false
            else if some_failed
            then false
            else if some_started
            then true
            else has_started api o.status))
  verdict_by jobs n all some_failed some_started s f t =
      rw (sym s, sym f, sym t) (verdict-outcome jobs n)

  -- After ReconcileJobStatus of a backup that has batch jobs, its outcome is success if all of them
  -- have succeeded (failure, where the pre-backup had failed), else failure if any has failed, even
  -- while others run, else what it was. It counts as started if none of this holds and a job has
  -- started, and otherwise as before unless its outcome was set.
  pub reconcile_backup_status-outcome :
      (b : BatchJob) (bs : List BatchJob) (u : Answer)
      → let jobs = b ∷ bs in
        let s' = (reconcile_backup_status api (some jobs) u o m).1.status in
        (outcome api s' ≡ (
          if allb (λ j. job_has_succeeded j.conditions) jobs
          then (if has_failed_pre_backup api o.status then failed else succeeded)
          else if anyb (λ j. job_has_failed j.conditions) jobs
          then failed
          else outcome api o.status))
        × (has_started api s' ≡ (
            if allb (λ j. job_has_succeeded j.conditions) jobs
            then false
            else if anyb (λ j. job_has_failed j.conditions) jobs
            then false
            else if anyb (λ j. job_has_started j.conditions) jobs
            then true
            else has_started api o.status))
  unfolding reconcile_backup_status
  reconcile_backup_status-outcome b bs u =
      let (s, f, t) = counted (b ∷ bs) in
      verdict_by (length (b ∷ bs)) (count_jobs (b ∷ bs) no_counts) _ _ _ s f t
