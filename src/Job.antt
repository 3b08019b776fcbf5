-- ===== src/Job.antt =====
-- How the state of a batch job becomes the status of the K8up object (operator/job/job.go). The
-- object is returned changed, next to the metrics.
pub mod Outcomes
pub mod Counting
mod Examples
use k8up.Prelude.{
  ℕ, String, Bool, true, false, not, Option, none, some, List, [], ◌∷◌, if◌then◌else◌, str_eq,
  concat, lookup, itoa, ◌&&◌,
}
use k8up.Status.{
  ConditionApi, ConditionStatus, is_true, Status, has_succeeded, has_failed, set_succeeded,
  set_failed, set_finished, set_started,
}
use k8up.JobObject.{JobObject, JobType}
use k8up.Metrics.{Metrics, inc_success_counters, inc_failure_counters, set_schedule_last_job_status}

-- batchv1.JobCondition and the fields of batchv1.Job that K8up reads.
pub record JobCondition : Type 0 where
  pub kind : String
  pub status : ConditionStatus

pub record BatchJob : Type 0 where
  pub name : String
  pub namespace : String
  pub labels : List (String × String)
  pub active : ℕ
  pub succeeded : ℕ
  pub failed : ℕ
  pub conditions : List JobCondition

abbrev pub job_complete : String
job_complete = "Complete"

abbrev pub job_failed : String
job_failed = "Failed"

abbrev pub label_schedule_name : String
label_schedule_name = "k8up.io/schedule-name"

-- FindStatusCondition of operator/job
unfoldable pub find_status_condition : List JobCondition → String → Option JobCondition
find_status_condition [] t = none
find_status_condition (c ∷ cs) t = if str_eq c.kind t then some c else find_status_condition cs t

abbrev holds : Option JobCondition → Bool
holds none = false
holds (some c) = is_true c.status

abbrev is_nil : Option JobCondition → Bool
is_nil none = true
is_nil (some c) = false

unfoldable pub job_has_succeeded : List JobCondition → Bool
job_has_succeeded cs = holds (find_status_condition cs job_complete)

unfoldable pub job_has_failed : List JobCondition → Bool
job_has_failed cs = holds (find_status_condition cs job_failed)

unfoldable pub job_has_started : List JobCondition → Bool
job_has_started cs =
    is_nil (find_status_condition cs job_complete) && is_nil (find_status_condition cs job_failed)

-- What a call of the Kubernetes API answers, as far as K8up tells the answers apart.
pub data Answer : Type 0 where
  done not_found refused : Answer

abbrev pub is_done : Answer → Bool
is_done done = true
is_done _ = false

pub data KubeResult {ℓ} (A : Type ℓ) : Type ℓ where
  found : A → KubeResult A
  missing : KubeResult A
  broken : KubeResult A

pub report_last : Option String → String → JobType → Bool → Metrics → Metrics
report_last none ns t ok m = m
report_last (some schedule) ns t ok m = set_schedule_last_job_status ns schedule t ok m

pub status_message : BatchJob → String
status_message b = concat (
    "job '"
    ∷ b.name
    ∷ "' has "
    ∷ itoa b.active
    ∷ " active, "
    ∷ itoa b.succeeded
    ∷ " succeeded and "
    ∷ itoa b.failed
    ∷ " failed pods"
    ∷ [])

module _ (api : ConditionApi) where
  -- SetSucceeded of operator/job
  unfoldable pub mark_succeeded :
      String → String → JobType → String → Status × Metrics → Status × Metrics
  mark_succeeded name ns t message (s, m) =
      let counted = if not (has_succeeded api s) then inc_success_counters ns t m else m in
      (
        set_finished api (concat ("job '" ∷ name ∷ "' completed successfully" ∷ []))
            (set_succeeded api message s),
        counted,
      )

  -- SetFailed of operator/job
  unfoldable pub mark_failed :
      String → String → JobType → String → Status × Metrics → Status × Metrics
  mark_failed name ns t message (s, m) =
      let counted = if not (has_failed api s) then inc_failure_counters ns t m else m in
      (
        set_finished api (concat ("job '" ∷ name ∷ "' has failed" ∷ [])) (set_failed api message s),
        counted,
      )

  pub on_success : BatchJob → JobObject → Status × Metrics → Status × Metrics
  unfolding report_last
  on_success b o sm =
      let (s, m) = mark_succeeded b.name b.namespace o.job_type (status_message b) sm in
      (s, report_last (lookup label_schedule_name o.labels) b.namespace o.job_type true m)

  pub on_failure : BatchJob → JobObject → Status × Metrics → Status × Metrics
  unfolding report_last
  on_failure b o sm =
      let (s, m) = mark_failed b.name b.namespace o.job_type (status_message b) sm in
      (s, report_last (lookup label_schedule_name o.labels) b.namespace o.job_type false m)

  pub on_start : BatchJob → Status × Metrics → Status × Metrics
  on_start b (s, m) = (set_started api (status_message b) s, m)

  -- UpdateStatus
  unfoldable pub update_status : BatchJob → JobObject → Metrics → JobObject × Metrics
  unfolding on_success on_failure on_start
  update_status b o m =
      let after_success =
        if job_has_succeeded b.conditions then on_success b o (o.status, m) else (o.status, m) in
      let after_failure =
        if job_has_failed b.conditions then on_failure b o after_success else after_success in
      let (s, m') =
        if job_has_started b.conditions then on_start b after_failure else after_failure in
      (record o { status = s }, m')

  update_with : KubeResult BatchJob → Answer → JobObject → Metrics → Bool × JobObject × Metrics
  update_with missing update o m = (true, o, m)
  update_with broken update o m = (false, o, m)
  update_with (found b) update o m = let (o', m') = update_status b o m in (is_done update, o', m')

  -- ReconcileJobStatus: `job` is what Get answers and `update` what Status().Update does; `false`
  -- stands for an error that is returned.
  unfoldable pub reconcile_job_status :
      KubeResult BatchJob → Answer → JobObject → Metrics → Bool × JobObject × Metrics
  unfolding update_with
  reconcile_job_status job update o m = update_with job update o m
