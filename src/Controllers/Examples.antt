-- ===== src/Controllers/Examples.antt =====
-- Passes of the controllers over some objects.
use k8up.Prelude.{◌≡◌, refl, false, not, ◌&&◌, none, some, List, [], ◌∷◌, anyb, if◌then◌else◌, Bool}
use k8up.Prelude.Int.{pos}
use k8up.Status.{Status, has_started, has_finished, condition_true}
use k8up.Status.Plain.{plain}
use k8up.JobObject.{JobObject, check_type, backup_type}
use k8up.Metrics.{no_metrics}
use k8up.Job
use k8up.Job.{
  BatchJob, found, missing, done, refused, job_complete, job_has_started, job_has_failed,
  job_has_succeeded,
}
use k8up.Locker.{new_job, is_active}
use k8up.Backends.{Configuration}
use k8up.Controllers.{
  Pass, Answers, Executor, conflict, other, requeue, provision_job, provision_check,
}
use k8up.Controllers.Passes.{provision_job-existing, updated}
use k8up.Controllers.Starts.{IsPending, provision_check-pending}
use k8up.Locker.{try_run_exclusively}

abbrev settings : Configuration
settings = record {
  s3_endpoint = "http://minio";
  s3_bucket = "global";
  restore_s3_access_key = "";
  restore_s3_secret_access_key = "";
  restore_s3_endpoint = "";
  restore_s3_bucket = "";
}

abbrev fresh : Status
fresh = record { started = false; finished = false; exclusive = false; conditions = [] }

abbrev weekly : JobObject
weekly = record {
  name = "weekly";
  namespace = "shop";
  job_type = check_type;
  created = 3;
  labels = [];
  owners = [];
  status = fresh;
  keep_jobs = none;
  failed_limit = none;
  successful_limit = none;
}

-- The rest of the state is the list of the batch jobs.
abbrev pass : Pass (List BatchJob)
pass = record { object = weekly; metrics = no_metrics; rest = [] }

abbrev executor : Executor (List BatchJob)
executor = record {
  execute = λ p. (false, record p { rest = new_job check_type "check-weekly" ∷ p.rest });
  cleanup = λ p. p;
  limit = pos 1;
}

abbrev answers : List BatchJob → Answers
answers bs = record {
  job = missing;
  update = done;
  status_failure = other;
  jobs = λ repository. found bs;
  run_failure = other;
}

abbrev complete : BatchJob
complete = record (new_job check_type "check-weekly") {
  active = 0;
  conditions = record { kind = job_complete; status = condition_true } ∷ [];
}

weekly-IsPending : (bs : List BatchJob) → IsPending plain (answers bs) pass
weekly-IsPending bs = record {
  no_job = refl;
  not_started = unfold has_started in refl;
  not_finished = unfold has_finished in refl;
}

abbrev busy : List BatchJob
busy = record (new_job backup_type "backup-nightly") { active = 1 } ∷ []

provision_job-existing_example :
    provision_job plain settings try_run_exclusively 30 executor none
      (record (answers []) { job = found complete })
      pass
    ≡ (if job_has_started complete.conditions
        then (requeue 5, updated plain complete pass)
        else (requeue 0, updated plain complete pass))
provision_job-existing_example =
    provision_job-existing plain settings try_run_exclusively 30 executor none
      (record (answers []) { job = found complete }) pass complete refl refl
      (unfold job_has_started job_has_failed job_has_succeeded Job.find_status_condition in refl)

provision_check-pending_example :
    let (r, p') = provision_check plain settings executor none (answers busy) pass in
    let alone = not (anyb is_active busy) in
    (p' ≡ (if alone then (executor.execute pass).1 else pass))
    × (r.requeue_after ≡ 30)
    × (r.error ≡ (if alone && false then some other else none))
provision_check-pending_example =
    provision_check-pending plain settings executor none (answers busy) pass busy
      (weekly-IsPending busy) refl

abbrev refusing : Answers
refusing = record (answers []) { job = found complete; update = refused; status_failure = conflict }

abbrev never_deleted : JobObject → Bool
never_deleted o = false
