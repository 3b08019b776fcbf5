-- ===== src/BackupController/Examples.antt =====
-- Passes over a backup.
use k8up.Prelude.{◌≡◌, ◌∙◌, refl, true, false, none, some, List, [], ◌∷◌, anyb, if◌then◌else◌}
use k8up.Prelude.Int.{pos}
use k8up.Status.{
  has_started, has_failed_pre_backup, condition_true, condition_scrubbed,
  condition_pre_backup_pod_ready,
}
use k8up.Status.Plain.{plain}
use k8up.Status.Queries.{outcome, failed, succeeded}
use k8up.JobObject.{JobObject, backup_type}
use k8up.Metrics.{no_metrics}
use k8up.Job
use k8up.Job.{
  BatchJob, found, missing, done, job_complete, job_failed, job_has_started, job_has_failed,
  job_has_succeeded,
}
use k8up.Locker.{new_job}
use k8up.Backends.{Configuration}
use k8up.Controllers.{Pass, Answers, Executor, other, requeue}
use k8up.BackupController.{
  provision_backup, reconcile_backup_status, scrubbed_reason, stopped_reason,
}
use k8up.BackupController.Verdict.{allb, reconcile_backup_status-outcome}
use k8up.BackupController.Ends.{reconciled, provision_backup-over}

abbrev settings : Configuration
settings = record {
  s3_endpoint = "http://minio";
  s3_bucket = "global";
  restore_s3_access_key = "";
  restore_s3_secret_access_key = "";
  restore_s3_endpoint = "";
  restore_s3_bucket = "";
}

abbrev nightly : JobObject
nightly = record {
  name = "nightly";
  namespace = "shop";
  job_type = backup_type;
  created = 3;
  labels = [];
  owners = [];
  status = record { started = false; finished = false; exclusive = false; conditions = [] };
  keep_jobs = none;
  failed_limit = none;
  successful_limit = none;
}

abbrev pass : Pass (List BatchJob)
pass = record { object = nightly; metrics = no_metrics; rest = [] }

abbrev executor : Executor (List BatchJob)
executor = record {
  execute = λ p. (false, record p { rest = new_job backup_type "backup-nightly" ∷ p.rest });
  cleanup = λ p. p;
  limit = pos 0;
}

abbrev answers : Answers
answers = record {
  job = missing;
  update = done;
  status_failure = other;
  jobs = λ repository. found [];
  run_failure = other;
}

abbrev stop : Pass (List BatchJob) → Pass (List BatchJob)
stop p = record p { rest = [] }

abbrev with : List Job.JobCondition → BatchJob
with cs = record (new_job backup_type "backup-nightly") { conditions = cs }

abbrev lost : BatchJob
lost = with (record { kind = job_failed; status = condition_true } ∷ [])

abbrev good : BatchJob
good = with (record { kind = job_complete; status = condition_true } ∷ [])

-- One job has failed while another runs: the backup has failed.
mixed_run :
    outcome plain
      (reconcile_backup_status plain (some (lost ∷ with [] ∷ [])) done nightly no_metrics).1.status
    ≡ failed
unfolding reconcile_backup_status
mixed_run =
    (reconcile_backup_status-outcome plain nightly no_metrics lost (with [] ∷ []) done).0
    ∙ (unfold job_has_succeeded job_has_failed Job.find_status_condition in refl)

reconcile_backup_status-outcome_example :
    let jobs = lost ∷ with [] ∷ [] in
    let s' = (reconcile_backup_status plain (some jobs) done nightly no_metrics).1.status in
    (outcome plain s' ≡ (
      if allb (λ j. job_has_succeeded j.conditions) jobs
      then (if has_failed_pre_backup plain nightly.status then failed else succeeded)
      else if anyb (λ j. job_has_failed j.conditions) jobs
      then failed
      else outcome plain nightly.status))
    × (has_started plain s' ≡ (
        if allb (λ j. job_has_succeeded j.conditions) jobs
        then false
        else if anyb (λ j. job_has_failed j.conditions) jobs
        then false
        else if anyb (λ j. job_has_started j.conditions) jobs
        then true
        else has_started plain nightly.status))
reconcile_backup_status-outcome_example =
    reconcile_backup_status-outcome plain nightly no_metrics lost (with [] ∷ []) done

provision_backup-over_example :
    let p1 = reconciled plain (good ∷ []) done pass in
    let p2 =
      if scrubbed_reason (plain.find p1.object.status.conditions condition_scrubbed)
      then p1
      else executor.cleanup p1 in
    provision_backup plain settings stop executor none (some (good ∷ [])) answers pass ≡ (
      if stopped_reason (plain.find p2.object.status.conditions condition_pre_backup_pod_ready)
      then (requeue 0, p2)
      else (requeue 30, stop p2))
provision_backup-over_example =
    provision_backup-over plain settings stop executor none answers pass good [] refl
      (unfold job_has_succeeded job_has_failed Job.find_status_condition in refl)
