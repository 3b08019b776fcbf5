-- ===== src/Locker/Decisions.antt =====
-- When the locker lets a job run (operator/locker/locker.go).
use k8up.Prelude.{
  ℕ, suc, ◌+◌, ◌≡◌, refl, Bool, false, not, ◌&&◌, List, [], ◌∷◌, leb, ltb, anyb, arith,
  if◌then◌else◌, ◌⊎◌,
}
use k8up.Prelude.Int.{ℤ, pos}
use k8up.JobObject.{JobType}
use k8up.Job.{BatchJob, found}
use k8up.Locker.{
  has_type, is_active, is_labelled_exclusive, count_reaches, is_concurrency_limit_reached,
  is_exclusive_job_running, running_jobs, try_run, try_run_exclusively, is_empty,
}

-- The active pods of the jobs of a type.
pub active_of : JobType → List BatchJob → ℕ
active_of t [] = 0
active_of t (b ∷ bs) = (if has_type t b then b.active else 0) + active_of t bs

count_reaches-active_of :
    (t : JobType) (n c : ℕ) (bs : List BatchJob)
    → leb (suc n) c ≡ false
    → count_reaches t (pos (suc n)) c bs ≡ leb (suc n) (c + active_of t bs)
unfolding count_reaches active_of
count_reaches-active_of t n c [] h = ground arith
count_reaches-active_of t n c (b ∷ bs) h =
    ground (arith, count_reaches-active_of t n c bs, count_reaches-active_of t n (c + b.active) bs)

-- With a positive limit it is reached exactly when the type's active pods add up to it.
limit_reached :
    (t : JobType) (n : ℕ) (bs : List BatchJob)
    → is_concurrency_limit_reached bs t (pos (suc n)) ≡ leb (suc n) (active_of t bs)
unfolding is_concurrency_limit_reached
limit_reached t n bs = ground (arith, count_reaches-active_of t n 0 bs)

active_of-running_jobs :
    (t : JobType) (bs : List BatchJob) → active_of t (running_jobs bs) ≡ active_of t bs
unfolding active_of running_jobs
active_of-running_jobs t [] = refl
active_of-running_jobs t (b ∷ bs) = ground (arith, active_of-running_jobs t bs)

-- Some active job of the list is labelled as exclusive.
abbrev pub exclusive_in : List BatchJob → Bool
exclusive_in bs = anyb (λ b. is_active b && is_labelled_exclusive b) bs

exclusive-running_jobs :
    (bs : List BatchJob) → is_exclusive_job_running (running_jobs bs) ≡ exclusive_in bs
unfolding is_exclusive_job_running running_jobs
exclusive-running_jobs [] = refl
exclusive-running_jobs (b ∷ bs) = ground (arith, exclusive-running_jobs bs)

pub is_empty-running_jobs :
    (bs : List BatchJob) → is_empty (running_jobs bs) ≡ not (anyb is_active bs)
unfolding running_jobs
is_empty-running_jobs [] = refl
is_empty-running_jobs (b ∷ bs) = ground (arith, is_empty-running_jobs bs)

module _ {ℓ} {S : Type ℓ} (bs : List BatchJob) (runnable : S → Bool × S) (s : S) where
  -- With a positive limit a job is run exactly when no active job is exclusive and the active pods of
  -- its type are below the limit. A job that is not run changes nothing, and is no error.
  pub try_run_lem :
      (t : JobType) (n : ℕ)
      → let (r, s') = try_run (found bs) t (pos (suc n)) runnable s in
        let allowed = not (exclusive_in bs) && ltb (active_of t bs) (suc n) in
        (r.did_run ≡ allowed)
        × (r.failed ≡ (allowed && (runnable s).0))
        × (s' ≡ (if allowed then (runnable s).1 else s))
  unfolding try_run
  try_run_lem t n =
      rw
        (
          limit_reached t n (running_jobs bs),
          active_of-running_jobs t bs,
          exclusive-running_jobs bs,
        )
        (ground arith)

  -- With the limit 0 only an exclusive job holds a job back.
  pub try_run_unlimited :
      (t : JobType)
      → let (r, s') = try_run (found bs) t (pos 0) runnable s in
        (r.did_run ≡ not (exclusive_in bs)) × (s' ≡ (if exclusive_in bs then s else (runnable s).1))
  unfolding try_run is_concurrency_limit_reached
  try_run_unlimited t = rw (exclusive-running_jobs bs) (ground arith)

  -- An exclusive job is run exactly when no job has an active pod, labelled or not.
  pub try_run_exclusively_lem :
      let (r, s') = try_run_exclusively (found bs) runnable s in
      let allowed = not (anyb is_active bs) in
      (r.did_run ≡ allowed)
      × (r.failed ≡ (allowed && (runnable s).0))
      × (s' ≡ (if allowed then (runnable s).1 else s))
  unfolding try_run_exclusively
  try_run_exclusively_lem = rw (is_empty-running_jobs bs) (ground arith)

  -- Whatever the limit, a job runs only beside jobs that are not exclusive, and a job that does not run
  -- changes nothing.
  pub try_run_held :
      (t : JobType) (limit : ℤ)
      → let s' = (try_run (found bs) t limit runnable s).1 in
        (s' ≡ s) ⊎ ((exclusive_in bs ≡ false) × (s' ≡ (runnable s).1))
  unfolding try_run
  try_run_held t limit = rw (exclusive-running_jobs bs) (ground arith)
