-- ===== src/Controllers.antt =====
-- The generic controller (operator/reconciler/reconciler.go), the controllers of checks, prunes,
-- restores and archives (operator/*controller/controller.go). What the API server answers is a parameter of a pass; a
-- pass is a function from the state it finds, of which `rest` stands for what the executors change.
pub mod Passes
pub mod Starts
pub mod Conflicts
mod Examples
use k8up.Prelude.{
  ℕ, suc, ◌+◌, String, Bool, true, false, not, ◌||◌, Option, none, some, List, [], ◌∷◌, ltb, ◌==◌,
  length, str_eq, concat, itoa, if◌then◌else◌,
}
use k8up.Prelude.Int.{ℤ}
use k8up.Status.{
  Condition, ConditionApi, Status, has_started, has_finished, set_started, condition_scrubbed,
  condition_pre_backup_pod_ready, reason_succeeded, reason_finished, reason_failed,
  reason_no_pre_backup_pods_found,
}
use k8up.JobObject.{JobObject, JobType, backup_type, restore_type, archive_type, job_type_string}
use k8up.Metrics.{Metrics}
use k8up.Job.{
  BatchJob, JobCondition, KubeResult, found, missing, broken, Answer, is_done, job_has_succeeded,
  job_has_failed, job_has_started, mark_succeeded, mark_failed, reconcile_job_status,
}
use k8up.Locker.{Tried, try_run, try_run_exclusively}
use k8up.Backends.{Backend, Configuration, repository_of}

-- An error as apierrors.IsConflict tells it apart.
pub data Failure : Type 0 where
  conflict other : Failure

-- controllerruntime.Result and the error: RequeueAfter in seconds, 0 for none.
pub record Reply : Type 0 where
  pub requeue_after : ℕ
  pub error : Option Failure

abbrev pub requeue : ℕ → Reply
requeue n = record { requeue_after = n; error = none }

abbrev pub fail : Failure → Reply
fail e = record { requeue_after = 0; error = some e }

-- The Reconciler interface of a controller, over the state that it works on.
pub record Reconciler {ℓ κ} (T : Type ℓ) (S : Type κ) : Type (ℓ ⊔ κ) where
  pub provision : T → S → Reply × S
  pub deprovision : T → S → Reply × S
  pub is_deleted : T → Bool

-- The end of Reconcile: a conflict is no error, but a reason to come back.
abbrev retry_conflict : Reply → Reply
retry_conflict r = elim r.error [ none ↦ r | some e ↦ elim e [ conflict ↦ requeue 1 | other ↦ r ] ]

module _ {ℓ κ} {T : Type ℓ} {S : Type κ} where
  provision_or_not : Reconciler T S → T → S → Reply × S
  provision_or_not r o s = if r.is_deleted o then r.deprovision o s else r.provision o s

  -- Reconcile: `get` is what Get answers.
  unfoldable pub reconcile : Reconciler T S → KubeResult T → Failure → S → Reply × S
  unfolding provision_or_not
  reconcile r missing e s = (requeue 0, s)
  reconcile r broken e s = (fail e, s)
  reconcile r (found o) e s = let (reply, s') = provision_or_not r o s in (retry_conflict reply, s')

-- What a pass of a controller works on.
pub record Pass {ℓ} (S : Type ℓ) : Type ℓ where
  pub object : JobObject
  pub metrics : Metrics
  pub rest : S

-- What the API server answers in a pass: to Get of the batch job, to the update of the status, and to
-- the locker's List for a repository; and which error a refused call is.
pub record Answers : Type 0 where
  pub job : KubeResult BatchJob
  pub update : Answer
  pub status_failure : Failure
  pub jobs : String → KubeResult (List BatchJob)
  pub run_failure : Failure

-- What a controller calls of its executor.
pub record Executor {ℓ} (S : Type ℓ) : Type ℓ where
  pub execute : Pass S → Bool × Pass S
  pub cleanup : Pass S → Pass S
  pub limit : ℤ

-- How a controller takes the lock: TryRun or TryRunExclusively on what List answers.
abbrev pub Lock {ℓ} : Type ℓ → Type ℓ
Lock S = KubeResult (List BatchJob) → (Pass S → Bool × Pass S) → Pass S → Tried × Pass S

abbrev pub error_of : Tried → Failure → Option Failure
error_of t e = if t.failed then some e else none

abbrev pub reply_after {ℓ} : {S : Type ℓ} → ℕ → Failure → Tried × Pass S → Reply × Pass S
reply_after delay e (t, p) = (record { requeue_after = delay; error = error_of t e }, p)

-- An archive without a restore spec gets an empty one, which its executor then reads.
abbrev spec_or_empty {κ} : {R : Type κ} → R → Option R → R
spec_or_empty empty none = empty
spec_or_empty empty (some spec) = spec

module _ {ℓ} {S : Type ℓ} (api : ConditionApi) (c : Configuration) where
  -- The end of each Provision: what is done by the status that was reconciled.
  proceed : Lock S → ℕ → Executor S → Option Backend → Answers → Pass S → Reply × Pass S
  proceed lock delay ex backend a p =
      if has_started api p.object.status
      then (requeue 5, p)
      else if has_finished api p.object.status
      then (requeue 0, ex.cleanup p)
      else reply_after delay a.run_failure (lock (a.jobs (repository_of c backend)) ex.execute p)

  -- What the four controllers of jobs other than backups have in common.
  unfoldable pub provision_job :
      Lock S → ℕ → Executor S → Option Backend → Answers → Pass S → Reply × Pass S
  unfolding proceed
  provision_job lock delay ex backend a p =
      let (ok, o, m) = reconcile_job_status api a.job a.update p.object p.metrics in
      let p' = record p { object = o; metrics = m } in
      if ok then proceed lock delay ex backend a p' else (fail a.status_failure, p')

  unfoldable pub provision_check : Executor S → Option Backend → Answers → Pass S → Reply × Pass S
  unfolding provision_job
  provision_check ex = provision_job try_run_exclusively 30 ex

  unfoldable pub provision_prune : Executor S → Option Backend → Answers → Pass S → Reply × Pass S
  unfolding provision_job
  provision_prune ex = provision_job try_run_exclusively 8 ex

  unfoldable pub provision_restore : Executor S → Option Backend → Answers → Pass S → Reply × Pass S
  unfolding provision_job
  provision_restore ex = provision_job (λ jobs. try_run jobs restore_type ex.limit) 30 ex

  unfoldable pub provision_archive {κ} :
      {R : Type κ}
      → R
      → Option R
      → (R → Executor S)
      → Option Backend
      → Answers
      → Pass S
      → Reply × Pass S
  unfolding provision_job
  provision_archive empty spec executor =
      let ex = executor (spec_or_empty empty spec) in
      provision_job (λ jobs. try_run jobs archive_type ex.limit) 30 ex

-- The five controllers do nothing with an object that is being deleted.
unfoldable pub job_reconciler {ℓ} :
    {S : Type ℓ} → (JobObject → Bool) → (Pass S → Reply × Pass S) → Reconciler JobObject (Pass S)
job_reconciler is_deleted provision = record {
  provision = λ o p. provision (record p { object = o });
  deprovision = λ o p. (requeue 0, p);
  is_deleted = is_deleted;
}
