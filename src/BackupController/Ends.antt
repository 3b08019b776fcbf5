-- ===== src/BackupController/Ends.antt =====
-- Passes over a backup whose batch jobs run or are over (operator/backupcontroller/controller.go).
use k8up.Prelude.{
  ◌≡◌, refl, Bool, true, false, ◌||◌, Option, some, List, [], ◌∷◌, anyb, arith, if◌then◌else◌,
}
use k8up.Status.{
  ConditionApi, has_started, has_finished, condition_scrubbed, condition_pre_backup_pod_ready,
}
use k8up.Job.{BatchJob, Answer, done, job_has_succeeded, job_has_failed, job_has_started}
use k8up.Backends.{Backend, Configuration, repository_of}
use k8up.JobObject.{backup_type}
use k8up.Locker.{try_run}
use k8up.Controllers.{Pass, Answers, Executor, requeue, reply_after}
use k8up.Controllers.Passes.{outcome_finished, outcome_succeeded_finished}
use k8up.BackupController.{
  reconcile_backup_status, provision_backup, go_on, wind_up, scrubbed_reason, stopped_reason,
  is_prebackup_failed,
}
use k8up.BackupController.Verdict.{allb, reconcile_backup_status-outcome}

-- Whether all of a backup's jobs have succeeded, or one has failed.
abbrev pub is_over : List BatchJob → Bool
is_over jobs =
    allb (λ j. job_has_succeeded j.conditions) jobs || anyb (λ j. job_has_failed j.conditions) jobs

module _ {ℓ} {S : Type ℓ} (api : ConditionApi) where
  -- The state after the status was taken from the jobs.
  abbrev pub reconciled : List BatchJob → Answer → Pass S → Pass S
  reconciled jobs u p =
      let (ok, o, m) = reconcile_backup_status api (some jobs) u p.object p.metrics in
      record p { object = o; metrics = m }

  answered :
      (b : BatchJob) (bs : List BatchJob) (p : Pass S)
      → (reconcile_backup_status api (some (b ∷ bs)) done p.object p.metrics).0 ≡ true
  unfolding reconcile_backup_status
  answered b bs p = refl

  over_status :
      (b : BatchJob) (bs : List BatchJob) (p : Pass S)
      → is_over (b ∷ bs) ≡ true
      → let s = (reconciled (b ∷ bs) done p).object.status in
        (has_started api s ≡ false) × (has_finished api s ≡ true)
  over_status b bs p h =
      let s = (reconciled (b ∷ bs) done p).object.status in
      let l = reconcile_backup_status-outcome api p.object p.metrics b bs done in
      ground (arith, l, outcome_finished api s, outcome_succeeded_finished api s)

module _ {ℓ} {S : Type ℓ} (api : ConditionApi) (c : Configuration) (stop : Pass S → Pass S) where
  -- If all batch jobs of a backup have succeeded or one has failed, and the status can be updated, a
  -- pass starts nothing, whether or not other jobs still run: it cleans up unless that was done, and
  -- then stops the pre-backup pods and comes back after 30 seconds, or ends the matter if the
  -- condition of the pre-backup pods says that they are stopped, that there are none, or "Failed".
  pub provision_backup-over :
      (ex : Executor S) (backend : Option Backend) (a : Answers) (p : Pass S) (b : BatchJob)
      (bs : List BatchJob)
      → a.update ≡ done
      → is_over (b ∷ bs) ≡ true
      → let p1 = reconciled api (b ∷ bs) done p in
        let p2 =
          if scrubbed_reason (api.find p1.object.status.conditions condition_scrubbed)
          then p1
          else ex.cleanup p1 in
        provision_backup api c stop ex backend (some (b ∷ bs)) a p ≡ (
          if stopped_reason (api.find p2.object.status.conditions condition_pre_backup_pod_ready)
          then (requeue 0, p2)
          else (requeue 30, stop p2))
  unfolding provision_backup go_on wind_up
  provision_backup-over ex backend a p b bs u h =
      let (s, f) = over_status api b bs p h in rw (u, answered api b bs p, s, f) refl

  -- If none of a backup's jobs has failed, one has not succeeded and one has started, a pass only
  -- updates the status and comes back after five seconds.
  pub provision_backup-running :
      (ex : Executor S) (backend : Option Backend) (a : Answers) (p : Pass S) (b : BatchJob)
      (bs : List BatchJob)
      → a.update ≡ done
      → is_over (b ∷ bs) ≡ false
      → anyb (λ j. job_has_started j.conditions) (b ∷ bs) ≡ true
      → provision_backup api c stop ex backend (some (b ∷ bs)) a p
        ≡ (requeue 5, reconciled api (b ∷ bs) done p)
  unfolding provision_backup go_on
  provision_backup-running ex backend a p b bs u h t =
      let l = reconcile_backup_status-outcome api p.object p.metrics b bs done in
      let s : has_started api (reconciled api (b ∷ bs) done p).object.status ≡ true =
        ground (arith, l) in
      rw (u, answered api b bs p, s) refl

  -- A backup without batch jobs that is neither running nor over, and whose pre-backup has not
  -- failed, is started through the locker.
  pub provision_backup-pending :
      (ex : Executor S) (backend : Option Backend) (a : Answers) (p : Pass S)
      → has_started api p.object.status ≡ false
      → has_finished api p.object.status ≡ false
      → is_prebackup_failed api p.object ≡ false
      → provision_backup api c stop ex backend (some []) a p
        ≡ reply_after 30 a.run_failure
            (try_run (a.jobs (repository_of c backend)) backup_type ex.limit ex.execute p)
  unfolding provision_backup go_on reconcile_backup_status
  provision_backup-pending ex backend a p s f i = rw (s, f, i) refl

  -- A backup without batch jobs that is over, cleaned up, and whose pre-backup pods are taken to be
  -- stopped is left as it is.
  pub provision_backup-stopped :
      (ex : Executor S) (backend : Option Backend) (a : Answers) (p : Pass S)
      → has_started api p.object.status ≡ false
      → has_finished api p.object.status ≡ true
      → scrubbed_reason (api.find p.object.status.conditions condition_scrubbed) ≡ true
      → stopped_reason (api.find p.object.status.conditions condition_pre_backup_pod_ready) ≡ true
      → provision_backup api c stop ex backend (some []) a p ≡ (requeue 0, p)
  unfolding provision_backup go_on wind_up reconcile_backup_status
  provision_backup-stopped ex backend a p s f u t = rw (s, f, u, t) refl
