-- ===== src/Job/Outcomes.antt =====
-- The outcome that a K8up object takes from its batch job (operator/job/job.go).
use k8up.Prelude.{String, ◌≡◌, refl, ◌∙◌, Bool, true, false, ◌||◌, arith, if◌then◌else◌}
use k8up.Status.{
  ConditionApi, Status, has_started, has_failed_pre_backup, set_succeeded, set_failed, set_started,
  set_finished,
}
use k8up.Status.Queries.{outcome, failed, succeeded}
use k8up.Status.Updates.{
  outcome-set_succeeded, outcome-set_failed, outcome-set_started, outcome-set_finished,
}
use k8up.JobObject.{JobObject, JobType}
use k8up.Metrics.{Metrics}
use k8up.Job.{
  Answer, is_done, found, missing, reconcile_job_status, update_with, BatchJob, on_success,
  on_failure, on_start, mark_succeeded, mark_failed, update_status, job_has_succeeded,
  job_has_failed, job_has_started, status_message,
}

module _ (api : ConditionApi) where
  pre_backup_kept_succeeded :
      (m1 m2 : String) (s : Status)
      → has_failed_pre_backup api (set_finished api m1 (set_succeeded api m2 s))
        ≡ has_failed_pre_backup api s
  unfolding has_failed_pre_backup set_finished set_succeeded
  pre_backup_kept_succeeded m1 m2 s = simp (api.find-set, api.find-remove) refl

  pub outcome-mark_succeeded :
      (name ns : String) (t : JobType) (message : String) (s : Status) (m : Metrics)
      → let s' = (mark_succeeded api name ns t message (s, m)).0 in
        (outcome api s' ≡ (if has_failed_pre_backup api s then failed else succeeded))
        × (has_started api s' ≡ false)
        × (has_failed_pre_backup api s' ≡ has_failed_pre_backup api s)
  unfolding mark_succeeded
  outcome-mark_succeeded name ns t message s m = (
    rw ((outcome-set_finished api _ _).3) ((outcome-set_succeeded api message s).0),
    (outcome-set_finished api _ _).0,
    pre_backup_kept_succeeded _ message s,
  )

  pub outcome-mark_failed :
      (name ns : String) (t : JobType) (message : String) (s : Status) (m : Metrics)
      → let s' = (mark_failed api name ns t message (s, m)).0 in
        (outcome api s' ≡ failed) × (has_started api s' ≡ false)
  unfolding mark_failed
  outcome-mark_failed name ns t message s m = (
    rw ((outcome-set_finished api _ _).3) ((outcome-set_failed api message s).0),
    (outcome-set_finished api _ _).0,
  )

  pub success_stage :
      (c : Bool) (b : BatchJob) (o : JobObject) (s : Status) (m : Metrics)
      → let s' = (if c then on_success api b o (s, m) else (s, m)).0 in
        (outcome api s' ≡ (
          if c then (if has_failed_pre_backup api s then failed else succeeded) else outcome api s))
        × (has_started api s' ≡ (if c then false else has_started api s))
  unfolding on_success
  success_stage true b o s m =
      let l = outcome-mark_succeeded b.name b.namespace o.job_type (status_message b) s m in
      (l.0, l.1)
  success_stage false b o s m = (refl, refl)

  failure_stage :
      (c : Bool) (b : BatchJob) (o : JobObject) (sm : Status × Metrics)
      → let s' = (if c then on_failure api b o sm else sm).0 in
        (outcome api s' ≡ (if c then failed else outcome api sm.0))
        × (has_started api s' ≡ (if c then false else has_started api sm.0))
  unfolding on_failure
  failure_stage true b o (s, m) =
      outcome-mark_failed b.name b.namespace o.job_type (status_message b) s m
  failure_stage false b o sm = (refl, refl)

  start_stage :
      (c : Bool) (b : BatchJob) (sm : Status × Metrics)
      → let s' = (if c then on_start api b sm else sm).0 in
        (outcome api s' ≡ outcome api sm.0)
        × (has_started api s' ≡ (if c then true else has_started api sm.0))
  unfolding on_start
  start_stage true b (s, m) = let l = outcome-set_started api (status_message b) s in (l.2, l.0)
  start_stage false b sm = (refl, refl)

  -- After an update the object has the outcome that the batch job's conditions call for: failed if
  -- the job has failed, else succeeded if it has succeeded (failed, where the pre-backup had failed),
  -- else the outcome that it had. It counts as started exactly when the job has neither condition, or
  -- when neither holds and the object counted as started before.
  pub update_status-outcome :
      (b : BatchJob) (o : JobObject) (m : Metrics)
      → let s' = (update_status api b o m).0.status in
        (outcome api s' ≡ (
          if job_has_failed b.conditions
          then failed
          else if job_has_succeeded b.conditions
          then (if has_failed_pre_backup api o.status then failed else succeeded)
          else outcome api o.status))
        × (has_started api s' ≡ (
            if job_has_started b.conditions
            then true
            else if job_has_failed b.conditions || job_has_succeeded b.conditions
            then false
            else has_started api o.status))
  unfolding update_status
  update_status-outcome b o m = (
    rw ((start_stage _ b _).0, (failure_stage _ b o _).0, (success_stage _ b o o.status m).0) refl,
    rw ((start_stage _ b _).1, (failure_stage _ b o _).1, (success_stage _ b o o.status m).1)
        (ground arith),
  )

  set_failed-pre_backup :
      (m1 m2 : String) (s : Status)
      → has_failed_pre_backup api (set_finished api m1 (set_failed api m2 s))
        ≡ has_failed_pre_backup api s
  unfolding has_failed_pre_backup set_finished set_failed
  set_failed-pre_backup m1 m2 s = simp (api.find-set, api.find-remove) refl

  set_started-pre_backup :
      (m : String) (s : Status)
      → has_failed_pre_backup api (set_started api m s) ≡ has_failed_pre_backup api s
  unfolding has_failed_pre_backup set_started
  set_started-pre_backup m s = simp api.find-set refl

  success_pre_backup :
      (c : Bool) (b : BatchJob) (o : JobObject) (sm : Status × Metrics)
      → has_failed_pre_backup api (if c then on_success api b o sm else sm).0
        ≡ has_failed_pre_backup api sm.0
  unfolding on_success mark_succeeded
  success_pre_backup true b o (s, m) = pre_backup_kept_succeeded _ _ s
  success_pre_backup false b o sm = refl

  failure_pre_backup :
      (c : Bool) (b : BatchJob) (o : JobObject) (sm : Status × Metrics)
      → has_failed_pre_backup api (if c then on_failure api b o sm else sm).0
        ≡ has_failed_pre_backup api sm.0
  unfolding on_failure mark_failed
  failure_pre_backup true b o (s, m) = set_failed-pre_backup _ _ s
  failure_pre_backup false b o sm = refl

  start_pre_backup :
      (c : Bool) (b : BatchJob) (sm : Status × Metrics)
      → has_failed_pre_backup api (if c then on_start api b sm else sm).0
        ≡ has_failed_pre_backup api sm.0
  unfolding on_start
  start_pre_backup true b (s, m) = set_started-pre_backup _ s
  start_pre_backup false b sm = refl

  -- An update by the batch job leaves alone whether the pre-backup has failed.
  pub has_failed_pre_backup-update_status :
      (b : BatchJob) (o : JobObject) (m : Metrics)
      → has_failed_pre_backup api (update_status api b o m).0.status
        ≡ has_failed_pre_backup api o.status
  unfolding update_status
  has_failed_pre_backup-update_status b o m =
      start_pre_backup _ b _ ∙ (failure_pre_backup _ b o _ ∙ success_pre_backup _ b o (o.status, m))

  pub reconcile_job_status-found :
      (b : BatchJob) (u : Answer) (o : JobObject) (m : Metrics)
      → reconcile_job_status api (found b) u o m
        ≡ (let (o', m') = update_status api b o m in (is_done u, o', m'))
  unfolding reconcile_job_status update_with
  reconcile_job_status-found b u o m = refl

  pub reconcile_job_status-missing :
      (u : Answer) (o : JobObject) (m : Metrics)
      → reconcile_job_status api missing u o m ≡ (true, o, m)
  unfolding reconcile_job_status update_with
  reconcile_job_status-missing u o m = refl
