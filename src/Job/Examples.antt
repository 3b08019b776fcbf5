-- ===== src/Job/Examples.antt =====
-- Runs of the status of batch jobs.
use k8up.Prelude.{◌≡◌, refl, true, false, none, some, [], ◌∷◌, if◌then◌else◌, ◌||◌}
use k8up.Status.{
  Status, has_started, has_failed_pre_backup, set_condition, condition_true, condition_false,
  condition_pre_backup_pod_ready, reason_failed,
}
use k8up.Status.Plain.{plain}
use k8up.Status.Queries.{outcome, failed, succeeded}
use k8up.JobObject.{JobObject, backup_type}
use k8up.Job
use k8up.Metrics
use k8up.Status
use k8up.Metrics.{no_metrics, IsBalanced}
use k8up.Job.{
  BatchJob, job_complete, label_schedule_name, update_status, job_has_succeeded, job_has_failed,
  job_has_started,
}
use k8up.Job.Outcomes.{update_status-outcome}
use k8up.Job.Counting.{SameCounters, second_update_counts_nothing}

abbrev fresh : Status
fresh = record { started = false; finished = false; exclusive = false; conditions = [] }

abbrev object : Status → JobObject
object s = record {
  name = "nightly";
  namespace = "shop";
  job_type = backup_type;
  created = 7;
  labels = (label_schedule_name, "nights") ∷ [];
  owners = [];
  status = s;
  keep_jobs = none;
  failed_limit = none;
  successful_limit = none;
}

abbrev complete : BatchJob
complete = record {
  name = "backup-nightly-0";
  namespace = "shop";
  labels = [];
  active = 0;
  succeeded = 1;
  failed = 0;
  conditions = record { kind = job_complete; status = condition_true } ∷ [];
}

one_success :
    let m = (update_status plain complete (object fresh) no_metrics).1 in
    (m.success "shop" "backup" ≡ 1)
    × (m.total "shop" "backup" ≡ 1)
    × (m.total "shop" "check" ≡ 0)
    × (m.last_job "shop" "nights" "backup" ≡ some true)
unfolding update_status Job.mark_succeeded job_has_succeeded job_has_failed job_has_started
    Status.has_succeeded Metrics.inc_success_counters Metrics.set_schedule_last_job_status
    Job.report_last Job.find_status_condition Status.set_finished Status.set_succeeded
one_success = (refl, refl, refl, refl)

update_status-outcome_example :
    let s' = (update_status plain complete (object fresh) no_metrics).0.status in
    (outcome plain s' ≡ (
      if job_has_failed complete.conditions
      then failed
      else if job_has_succeeded complete.conditions
      then (if has_failed_pre_backup plain fresh then failed else succeeded)
      else outcome plain fresh))
    × (has_started plain s' ≡ (
        if job_has_started complete.conditions
        then true
        else if job_has_failed complete.conditions || job_has_succeeded complete.conditions
        then false
        else has_started plain fresh))
update_status-outcome_example = update_status-outcome plain complete (object fresh) no_metrics

second_update_counts_nothing_example :
    let (o', m') = update_status plain complete (object fresh) no_metrics in
    SameCounters (update_status plain complete o' m').1 m'
second_update_counts_nothing_example =
    second_update_counts_nothing plain complete (object fresh) no_metrics
      (unfold has_failed_pre_backup in refl)
      (unfold job_has_succeeded job_has_failed Job.find_status_condition in refl)
