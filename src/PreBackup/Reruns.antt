-- ===== src/PreBackup/Reruns.antt =====
-- How a stop of the pre-backup deployments undoes a failed pre-backup
-- (operator/backupcontroller/prebackup.go, controller.go, api/v1/status.go).
use k8up.Prelude.{
  String, Bool-cases, inl, inr, ◌≡◌, refl, true, false, Option, none, some, List, [], ◌∷◌, arith,
}
use k8up.Status.{
  Condition, condition_scrubbed, reason_failed, ConditionApi, Status, has_failed, has_succeeded,
  has_finished, has_started, has_failed_pre_backup, condition_pre_backup_pod_ready,
  condition_completed, set_condition, reason_finished,
}
use k8up.JobObject.{backup_type}
use k8up.Locker.{try_run}
use k8up.Backends.{Backend, Configuration, repository_of}
use k8up.Controllers.{Pass, Answers, Executor, reply_after, requeue}
use k8up.BackupController.{provision_backup, is_prebackup_failed, scrubbed_reason}
use k8up.BackupController.Ends.{provision_backup-pending, provision_backup-stopped}
use k8up.PreBackup.Verdict.{failed_in, true_holds}
use k8up.PreBackup.{
  ApiServer, Deployment, Deployments, Naming, PreBackupPod, generate_deployments,
  fetch_pre_backup_pod_templates,
}
use k8up.PreBackup.Running.{
  Work, patch_conditions, pre_backup_false, pre_backup_true, delete_pre_backup_deployment,
  delete_all, stop_from, stop_pre_backup_deployments, ready_message,
}

module _ (api : ConditionApi) where
  -- The backup has no condition of completion and is not progressing.
  pub record IsOpen (w : Work) : Type 0 where
    pub not_completed : api.find w.object.status.conditions condition_completed ≡ none
    pub not_started : has_started api w.object.status ≡ false

module _ {ℓ} {L : Type ℓ} (api : ConditionApi) (k8s : ApiServer L) where
  patched-IsOpen :
      (r m : String) (w : Work) → IsOpen api w → IsOpen api (pre_backup_false api r m w)
  unfolding pre_backup_false patch_conditions set_condition has_started
  patched-IsOpen r m w h = record {
    not_completed = simp api.find-set h.not_completed;
    not_started = simp api.find-set h.not_started;
  }

  deleted_one-IsOpen :
      (d : Deployment) (w : Work)
      → IsOpen api w
      → IsOpen api (delete_pre_backup_deployment api k8s d w)
  unfolding delete_pre_backup_deployment
  deleted_one-IsOpen d w h = elim (Bool-cases (k8s.delete_fails d.name)) [
    | inl e ↦ rw e (patched-IsOpen _ "could not delete deployment" w h)
    | inr e ↦ rw e (record { not_completed = h.not_completed; not_started = h.not_started })
  ]

  deleted-IsOpen :
      (ds : List Deployment) (w : Work) → IsOpen api w → IsOpen api (delete_all api k8s ds w)
  unfolding delete_all
  deleted-IsOpen [] w h = h
  deleted-IsOpen (d ∷ ds) w h = deleted-IsOpen ds _ (deleted_one-IsOpen d w h)

  ended-IsOpen : (r m : String) (w : Work) → IsOpen api w → IsOpen api (pre_backup_true api r m w)
  unfolding pre_backup_true patch_conditions set_condition has_started
  ended-IsOpen r m w h = record {
    not_completed = simp api.find-set h.not_completed;
    not_started = simp api.find-set h.not_started;
  }

  -- An open backup whose pre-backup has not failed has not finished.
  open_unfinished :
      (w : Work) → IsOpen api w → failed_in api w ≡ false → has_finished api w.object.status ≡ false
  unfolding has_finished has_failed has_succeeded
  open_unfinished w h f = simp (f, h.not_completed) refl

  ended_not_prebackup_failed :
      (m : String) (w : Work)
      → is_prebackup_failed api (pre_backup_true api reason_finished m w).object ≡ false
  unfolding is_prebackup_failed pre_backup_true patch_conditions set_condition
  ended_not_prebackup_failed m w = simp api.find-set refl

  -- Whatever the pre-backup's condition said before, if StopPreBackupDeployments finds pre-backup
  -- pods, a backup that has no condition of completion, is not progressing and has no batch job is
  -- not over afterwards: the next pass starts it through the locker, even where the first pass took
  -- the pre-backup to have failed.
  pub stopped_backup_restarts :
      (c : Configuration) (n : Naming) (selectors : Option (List L)) (p : PreBackupPod)
      (ps : List PreBackupPod) (ex : Executor Deployments) (backend : Option Backend) (a : Answers)
      (w : Work)
      → fetch_pre_backup_pod_templates k8s selectors ≡ some (p ∷ ps)
      → IsOpen api w
      → let stop = stop_pre_backup_deployments api k8s n selectors in
        (has_finished api (stop w).object.status ≡ false)
        × (provision_backup api c stop ex backend (some []) a (stop w)
            ≡ reply_after 30 a.run_failure (
                try_run
                  (a.jobs (repository_of c backend))
                  backup_type
                  ex.limit
                  ex.execute
                  (stop w)))
  unfolding stop_pre_backup_deployments stop_from
  stopped_backup_restarts c n selectors p ps ex backend a w f h =
      let ds = generate_deployments n w.object.namespace (p ∷ ps) in
      let deleted = delete_all api k8s ds w in
      let stopped = pre_backup_true api reason_finished ready_message deleted in
      let still_open = ended-IsOpen reason_finished ready_message deleted (deleted-IsOpen ds w h) in
      let unfinished =
        open_unfinished stopped still_open (true_holds api reason_finished ready_message deleted) in
      rw f (
        unfinished,
        provision_backup-pending api c _ ex backend a stopped still_open.not_started unfinished
            (ended_not_prebackup_failed ready_message deleted),
      )

failed_is_over :
    (api : ConditionApi) (s : Status)
    → has_failed_pre_backup api s ≡ true
    → has_finished api s ≡ true
unfolding has_finished has_failed
failed_is_over api s h = ground arith

module _ {ℓ} {S : Type ℓ} (api : ConditionApi) where
  -- A backup without batch jobs whose pre-backup has failed with the reason "Failed" and that has been
  -- cleaned up is left alone: the deployments of its other pre-backup pods are never stopped.
  pub failed_pre_backup_is_left :
      (c : Configuration) (stop : Pass S → Pass S) (ex : Executor S) (backend : Option Backend)
      (a : Answers) (p : Pass S) (pre : Condition)
      → api.find p.object.status.conditions condition_pre_backup_pod_ready ≡ some pre
      → pre.reason ≡ reason_failed
      → has_failed_pre_backup api p.object.status ≡ true
      → has_started api p.object.status ≡ false
      → scrubbed_reason (api.find p.object.status.conditions condition_scrubbed) ≡ true
      → provision_backup api c stop ex backend (some []) a p ≡ (requeue 0, p)
  failed_pre_backup_is_left c stop ex backend a p pre f r h s u =
      provision_backup-stopped api c stop ex backend a p s (failed_is_over api p.object.status h) u
        (rw (f, r) refl)
