-- ===== src/Controllers/Passes.antt =====
-- One pass of the controllers of checks, prunes, restores and archives
-- (operator/*controller/controller.go) over the batch job of their object.
use k8up.Prelude.{
  ℕ, ◌≡◌, refl, ◌∙◌, true, false, ◌||◌, Option, arith, if◌then◌else◌, Bool-cases, inl, inr,
}
use k8up.Status.{ConditionApi, Status, has_started, has_finished}
use k8up.Status.Queries.{outcome, failed, succeeded}
use k8up.JobObject.{JobObject}
use k8up.Metrics.{Metrics}
use k8up.Job.{
  BatchJob, found, done, update_status, job_has_started, job_has_failed, job_has_succeeded,
}
use k8up.Job.Outcomes.{update_status-outcome, reconcile_job_status-found}
use k8up.Backends.{Backend, Configuration}
use k8up.Controllers.{Pass, Answers, Executor, Lock, requeue, proceed, provision_job}

module _ (api : ConditionApi) where
  -- A job that has started has neither succeeded nor failed.
  pub started_alone :
      (b : BatchJob)
      → job_has_started b.conditions ≡ true
      → (job_has_failed b.conditions ≡ false) × (job_has_succeeded b.conditions ≡ false)
  unfolding job_has_started job_has_failed job_has_succeeded
  started_alone b h = (ground arith, ground arith)

  pub outcome_finished : (s : Status) → outcome api s ≡ failed → has_finished api s ≡ true
  unfolding outcome has_finished
  outcome_finished s h = ground arith

  pub outcome_succeeded_finished :
      (s : Status) → outcome api s ≡ succeeded → has_finished api s ≡ true
  unfolding outcome has_finished
  outcome_succeeded_finished s h = ground arith

  -- After an update by a job that is over, the object has finished.
  update_finishes :
      (b : BatchJob) (o : JobObject) (m : Metrics)
      → (job_has_failed b.conditions || job_has_succeeded b.conditions) ≡ true
      → has_finished api (update_status api b o m).0.status ≡ true
  update_finishes b o m h = ground (
    arith,
    update_status-outcome api b o m,
    outcome_finished (update_status api b o m).0.status,
    outcome_succeeded_finished (update_status api b o m).0.status,
  )

  -- After an update by a job that is over, the object does not count as started.
  update_stops :
      (b : BatchJob) (o : JobObject) (m : Metrics)
      → job_has_started b.conditions ≡ false
      → (job_has_failed b.conditions || job_has_succeeded b.conditions) ≡ true
      → has_started api (update_status api b o m).0.status ≡ false
  update_stops b o m n h = ground (arith, update_status-outcome api b o m)

  update_starts :
      (b : BatchJob) (o : JobObject) (m : Metrics)
      → job_has_started b.conditions ≡ true
      → has_started api (update_status api b o m).0.status ≡ true
  update_starts b o m h = ground (arith, update_status-outcome api b o m)

module _ {ℓ} {S : Type ℓ} (api : ConditionApi) where
  -- The state after the update of the status by a batch job.
  abbrev pub updated : BatchJob → Pass S → Pass S
  updated b p =
      let (o, m) = update_status api b p.object p.metrics in record p { object = o; metrics = m }

module _ {ℓ} {S : Type ℓ} (api : ConditionApi) (c : Configuration) where
  with_update :
      (lock : Lock S) (delay : ℕ) (ex : Executor S) (backend : Option Backend) (a : Answers)
      (p : Pass S) (b : BatchJob)
      → a.job ≡ found b
      → a.update ≡ done
      → provision_job api c lock delay ex backend a p
        ≡ proceed api c lock delay ex backend a (updated api b p)
  unfolding provision_job
  with_update lock delay ex backend a p b hj hu =
      rw (hj, hu, reconcile_job_status-found api b done p.object p.metrics) refl

  -- If the batch job of the object is found, is running or over, and the status can be updated, no
  -- pass starts anything: it comes back after five seconds while the job runs, and cleans up and does
  -- not come back once it is over.
  pub provision_job-existing :
      (lock : Lock S) (delay : ℕ) (ex : Executor S) (backend : Option Backend) (a : Answers)
      (p : Pass S) (b : BatchJob)
      → a.job ≡ found b
      → a.update ≡ done
      → (job_has_started b.conditions
          || (job_has_failed b.conditions || job_has_succeeded b.conditions))
        ≡ true
      → provision_job api c lock delay ex backend a p ≡ (
          if job_has_started b.conditions
          then (requeue 5, updated api b p)
          else (requeue 0, ex.cleanup (updated api b p)))
  unfolding proceed
  provision_job-existing lock delay ex backend a p b hj hu h =
      with_update lock delay ex backend a p b hj hu
      ∙ elim (Bool-cases (job_has_started b.conditions)) [
        | inl s ↦ rw (update_starts api b p.object p.metrics s, s) refl
        | inr n ↦
            let over : (job_has_failed b.conditions || job_has_succeeded b.conditions) ≡ true =
              ground arith in
            rw
              (
                update_stops api b p.object p.metrics n over,
                update_finishes api b p.object p.metrics over,
                n,
              )
              refl
      ]
