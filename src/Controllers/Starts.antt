-- ===== src/Controllers/Starts.antt =====
-- When a controller starts the job of an object that has no batch job yet
-- (operator/*controller/controller.go, operator/locker/locker.go).
use k8up.Prelude.{
  ℕ, suc, ◌≡◌, refl, false, not, ◌&&◌, Option, none, some, List, anyb, ltb, if◌then◌else◌,
}
use k8up.Prelude.Int.{pos}
use k8up.Status.{ConditionApi, has_started, has_finished}
use k8up.JobObject.{restore_type}
use k8up.Job.{BatchJob, found, missing}
use k8up.Job.Outcomes.{reconcile_job_status-missing}
use k8up.Locker.{is_active, try_run_exclusively, try_run}
use k8up.Locker.Decisions.{try_run_exclusively_lem, try_run_lem, active_of, exclusive_in}
use k8up.Backends.{Backend, Configuration, repository_of}
use k8up.Controllers.{
  Pass, Answers, Executor, Lock, proceed, provision_job, provision_check, provision_prune,
  provision_restore, reply_after,
}

-- An object that is neither running nor over, and whose batch job does not exist.
pub record IsPending {ℓ} {S : Type ℓ} (api : ConditionApi) (a : Answers) (p : Pass S) : Type 0 where
  pub no_job : a.job ≡ missing
  pub not_started : has_started api p.object.status ≡ false
  pub not_finished : has_finished api p.object.status ≡ false

module _ {ℓ} {S : Type ℓ} (api : ConditionApi) (c : Configuration) where
  pending :
      (lock : Lock S) (delay : ℕ) (ex : Executor S) (backend : Option Backend) (a : Answers)
      (p : Pass S)
      → IsPending api a p
      → provision_job api c lock delay ex backend a p
        ≡ reply_after delay a.run_failure (lock (a.jobs (repository_of c backend)) ex.execute p)
  unfolding provision_job proceed
  pending lock delay ex backend a p h =
      rw
        (
          h.no_job,
          reconcile_job_status-missing api a.update p.object p.metrics,
          h.not_started,
          h.not_finished,
        )
        refl

  exclusive_pending :
      (delay : ℕ) (ex : Executor S) (backend : Option Backend) (a : Answers) (p : Pass S)
      (bs : List BatchJob)
      → IsPending api a p
      → a.jobs (repository_of c backend) ≡ found bs
      → let (r, p') = provision_job api c try_run_exclusively delay ex backend a p in
        let alone = not (anyb is_active bs) in
        (p' ≡ (if alone then (ex.execute p).1 else p))
        × (r.requeue_after ≡ delay)
        × (r.error ≡ (if alone && (ex.execute p).0 then some a.run_failure else none))
  exclusive_pending delay ex backend a p bs h e =
      let l = try_run_exclusively_lem bs ex.execute p in
      rw (pending try_run_exclusively delay ex backend a p h, e) (l.2, refl, rw l.1 refl)

  -- If the object of a check is neither running nor over and its batch job does not exist, a pass
  -- runs its executor exactly when no batch job of its repository is active; it comes back after 30
  -- seconds, and its error is the executor's.
  pub provision_check-pending :
      (ex : Executor S) (backend : Option Backend) (a : Answers) (p : Pass S) (bs : List BatchJob)
      → IsPending api a p
      → a.jobs (repository_of c backend) ≡ found bs
      → let (r, p') = provision_check api c ex backend a p in
        let alone = not (anyb is_active bs) in
        (p' ≡ (if alone then (ex.execute p).1 else p))
        × (r.requeue_after ≡ 30)
        × (r.error ≡ (if alone && (ex.execute p).0 then some a.run_failure else none))
  unfolding provision_check
  provision_check-pending ex backend a p bs h e = exclusive_pending 30 ex backend a p bs h e

  pub provision_prune-pending :
      (ex : Executor S) (backend : Option Backend) (a : Answers) (p : Pass S) (bs : List BatchJob)
      → IsPending api a p
      → a.jobs (repository_of c backend) ≡ found bs
      → let (r, p') = provision_prune api c ex backend a p in
        let alone = not (anyb is_active bs) in
        (p' ≡ (if alone then (ex.execute p).1 else p))
        × (r.requeue_after ≡ 8)
        × (r.error ≡ (if alone && (ex.execute p).0 then some a.run_failure else none))
  unfolding provision_prune
  provision_prune-pending ex backend a p bs h e = exclusive_pending 8 ex backend a p bs h e

  -- A pending restore with a positive limit runs its executor exactly when no active batch job of its
  -- repository is exclusive and the active pods of restores are below the limit.
  pub provision_restore-pending :
      (ex : Executor S) (backend : Option Backend) (a : Answers) (p : Pass S) (bs : List BatchJob)
      (n : ℕ)
      → IsPending api a p
      → a.jobs (repository_of c backend) ≡ found bs
      → ex.limit ≡ pos (suc n)
      → let (r, p') = provision_restore api c ex backend a p in
        let allowed = not (exclusive_in bs) && ltb (active_of restore_type bs) (suc n) in
        (p' ≡ (if allowed then (ex.execute p).1 else p))
        × (r.requeue_after ≡ 30)
        × (r.error ≡ (if allowed && (ex.execute p).0 then some a.run_failure else none))
  unfolding provision_restore
  provision_restore-pending ex backend a p bs n h e l =
      let t = try_run_lem bs ex.execute p restore_type n in
      rw (pending (λ jobs. try_run jobs restore_type ex.limit) 30 ex backend a p h, e, l)
        (t.2, refl, rw t.1 refl)
