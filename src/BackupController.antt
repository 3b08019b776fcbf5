-- ===== src/BackupController.antt =====
-- The controller of backups (operator/backupcontroller/controller.go), whose status follows all the
-- batch jobs that carry the backup's label.
pub mod Verdict
pub mod Ends
mod Examples
use k8up.Prelude.{
  ℕ, ◌+◌, String, Bool, true, false, not, ◌||◌, Option, none, some, List, [], ◌∷◌, ltb, ◌==◌,
  length, str_eq, concat, itoa, if◌then◌else◌,
}
use k8up.Status.{
  Condition, ConditionApi, Status, has_started, has_finished, set_started, condition_scrubbed,
  condition_pre_backup_pod_ready, reason_succeeded, reason_finished, reason_failed,
  reason_no_pre_backup_pods_found, reason_retrieval_failed,
}
use k8up.JobObject.{JobObject, backup_type, job_type_string}
use k8up.Metrics.{Metrics}
use k8up.Job.{
  BatchJob, Answer, is_done, job_has_succeeded, job_has_failed, job_has_started, mark_succeeded,
  mark_failed,
}
use k8up.Locker.{try_run}
use k8up.Backends.{Backend, Configuration, repository_of}
use k8up.Controllers.{Reply, Pass, Executor, Answers, requeue, fail, reply_after}

-- The counts of ReconcileJobStatus of the backup controller.
pub record Counts : Type 0 where
  pub succeeded : ℕ
  pub failed : ℕ
  pub started : ℕ

abbrev pub one_if : Bool → ℕ
one_if b = if b then 1 else 0

abbrev pub count_one : BatchJob → Counts → Counts
count_one b n = record {
  succeeded = n.succeeded + one_if (job_has_succeeded b.conditions);
  failed = n.failed + one_if (job_has_failed b.conditions);
  started = n.started + one_if (job_has_started b.conditions);
}

unfoldable pub count_jobs : List BatchJob → Counts → Counts
count_jobs [] n = n
count_jobs (b ∷ bs) n = count_jobs bs (count_one b n)

abbrev no_counts : Counts
no_counts = record { succeeded = 0; failed = 0; started = 0 }

-- `%q` of a name, which has no character that is escaped.
pub backup_message : String → Counts → String
backup_message owned_by n = concat (
    "\""
    ∷ owned_by
    ∷ "\" has "
    ∷ itoa n.succeeded
    ∷ " succeeded, "
    ∷ itoa n.failed
    ∷ " failed, and "
    ∷ itoa n.started
    ∷ " started jobs"
    ∷ [])

unfoldable pub owned_by : JobObject → String
owned_by o = concat (job_type_string o.job_type ∷ "_" ∷ o.name ∷ [])

-- isPrebackupFailed
abbrev pub failed_reason : Option Condition → Bool
failed_reason none = false
failed_reason (some c) = str_eq c.reason reason_failed || str_eq c.reason reason_retrieval_failed

-- The reasons by which the pre-backup pods are taken to be stopped.
abbrev pub stopped_reason : Option Condition → Bool
stopped_reason none = false
stopped_reason (some c) =
    str_eq c.reason reason_finished
    || (str_eq c.reason reason_failed || str_eq c.reason reason_no_pre_backup_pods_found)

abbrev pub scrubbed_reason : Option Condition → Bool
scrubbed_reason none = false
scrubbed_reason (some c) = str_eq c.reason reason_succeeded

module _ (api : ConditionApi) where
  unfoldable pub is_prebackup_failed : JobObject → Bool
  is_prebackup_failed o =
      failed_reason (api.find o.status.conditions condition_pre_backup_pod_ready)

  -- The status by the counts, for a number of jobs.
  unfoldable pub verdict : ℕ → Counts → JobObject → Metrics → Status × Metrics
  unfolding backup_message owned_by
  verdict jobs n o m =
      let message = backup_message (owned_by o) n in
      let success = mark_succeeded api (owned_by o) o.namespace o.job_type message (o.status, m) in
      let failure = mark_failed api (owned_by o) o.namespace o.job_type message (o.status, m) in
      if jobs == n.succeeded
      then success
      else if ltb 0 n.failed
      then failure
      else if ltb 0 n.started
      then (set_started api message o.status, m)
      else (o.status, m)

  -- ReconcileJobStatus: `owned` is what List answers for the backup's label, `none` for an error.
  unfoldable pub reconcile_backup_status :
      Option (List BatchJob) → Answer → JobObject → Metrics → Bool × JobObject × Metrics
  unfolding count_jobs verdict
  reconcile_backup_status none update o m = (false, o, m)
  reconcile_backup_status (some []) update o m = (true, o, m)
  reconcile_backup_status (some (b ∷ bs)) update o m =
      let (s, m') = verdict (length (b ∷ bs)) (count_jobs (b ∷ bs) no_counts) o m in
      (is_done update, record o { status = s }, m')

module _ {ℓ} {S : Type ℓ} (api : ConditionApi) (c : Configuration) (stop : Pass S → Pass S) where
  -- What is done with a backup that has ended; `stop` is StopPreBackupDeployments.
  wind_up : Executor S → Pass S → Reply × Pass S
  wind_up ex p =
      let scrubbed = scrubbed_reason (api.find p.object.status.conditions condition_scrubbed) in
      let p' = if scrubbed then p else ex.cleanup p in
      let pre = api.find p'.object.status.conditions condition_pre_backup_pod_ready in
      if stopped_reason pre then (requeue 0, p') else (requeue 30, stop p')

  go_on : Executor S → Option Backend → Answers → Pass S → Reply × Pass S
  unfolding wind_up is_prebackup_failed
  go_on ex backend a p =
      if has_started api p.object.status
      then (requeue 5, p)
      else if has_finished api p.object.status || is_prebackup_failed api p.object
      then wind_up ex p
      else reply_after 30 a.run_failure
          (try_run (a.jobs (repository_of c backend)) backup_type ex.limit ex.execute p)

  -- Provision of the backup controller
  unfoldable pub provision_backup :
      Executor S → Option Backend → Option (List BatchJob) → Answers → Pass S → Reply × Pass S
  unfolding go_on
  provision_backup ex backend owned a p =
      let (ok, o, m) = reconcile_backup_status api owned a.update p.object p.metrics in
      let p' = record p { object = o; metrics = m } in
      if ok then go_on ex backend a p' else (fail a.status_failure, p')
