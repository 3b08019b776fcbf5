-- ===== src/Locker.antt =====
-- The locker of a repository (operator/locker/locker.go), and how the controllers start their jobs
-- through it. The mutex makes a call of TryRun or TryRunExclusively one step, so a call is a function
-- from the state that the runnable works on. Active counts are not negative.
pub mod Decisions
pub mod Exclusion
pub mod Pending
mod Examples
use k8up.Prelude.{
  ℕ, zero, suc, ◌+◌, String, Bool, true, false, not, ◌&&◌, ◌||◌, Option, none, some, List, [], ◌∷◌,
  ltb, ◌==◌, if◌then◌else◌, str_eq, lookup, filterb,
}
use k8up.Prelude.Int.{ℤ, pos, negsuc, leb_ℤ}
use k8up.JobObject.{
  JobType, backup_type, check_type, archive_type, restore_type, prune_type, schedule_type,
  job_type_string,
}
use k8up.Job.{BatchJob, KubeResult, found, missing, broken}

abbrev pub label_exclusive : String
label_exclusive = "k8upjob/exclusive"

abbrev pub label_type : String
label_type = "k8up.io/type"

-- Go's `m[k]` of a map to strings, which is "" for a missing key.
abbrev pub value_or_empty : Option String → String
value_or_empty none = ""
value_or_empty (some v) = v

abbrev pub is_active : BatchJob → Bool
is_active b = ltb 0 b.active

abbrev pub is_labelled_exclusive : BatchJob → Bool
is_labelled_exclusive b = str_eq (value_or_empty (lookup label_exclusive b.labels)) "true"

abbrev pub has_type : JobType → BatchJob → Bool
has_type t b = str_eq (value_or_empty (lookup label_type b.labels)) (job_type_string t)

unfoldable pub is_exclusive_job_running : List BatchJob → Bool
is_exclusive_job_running [] = false
is_exclusive_job_running (b ∷ bs) =
    let rest = is_exclusive_job_running bs in
    if is_active b && is_labelled_exclusive b then true else rest

-- The loop of isConcurrencyLimitReached.
pub count_reaches : JobType → ℤ → ℕ → List BatchJob → Bool
count_reaches t limit count [] = false
count_reaches t limit count (b ∷ bs) =
    let skipped = count_reaches t limit count bs in
    let counted = count_reaches t limit (count + b.active) bs in
    if not (has_type t b)
    then skipped
    else if leb_ℤ limit (pos (count + b.active))
    then true
    else counted

abbrev pub is_zero : ℤ → Bool
is_zero (pos n) = n == 0
is_zero (negsuc n) = false

unfoldable pub is_concurrency_limit_reached : List BatchJob → JobType → ℤ → Bool
unfolding count_reaches
is_concurrency_limit_reached bs t limit =
    if is_zero limit then false else count_reaches t limit 0 bs

-- fetchRunningJobs, of what List answers for the repository's label.
unfoldable pub running_jobs : List BatchJob → List BatchJob
running_jobs bs = filterb is_active bs

-- The Boolean result and whether there is an error.
pub record Tried : Type 0 where
  pub did_run : Bool
  pub failed : Bool

abbrev pub is_empty : List BatchJob → Bool
is_empty [] = true
is_empty (b ∷ bs) = false

module _ {ℓ} {S : Type ℓ} where
  -- A runnable returns whether it failed.
  run_it : (S → Bool × S) → S → Tried × S
  run_it runnable s =
      let (failed, s') = runnable s in (record { did_run = true; failed = failed }, s')

  unfoldable pub try_run : KubeResult (List BatchJob) → JobType → ℤ → (S → Bool × S) → S → Tried × S
  unfolding run_it running_jobs
  try_run (found bs) t limit runnable s =
      let running = running_jobs bs in
      let reached = is_concurrency_limit_reached running t limit in
      let should_run = not (is_exclusive_job_running running) && not reached in
      if should_run then run_it runnable s else (record { did_run = false; failed = false }, s)
  try_run missing t limit runnable s = (record { did_run = false; failed = true }, s)
  try_run broken t limit runnable s = (record { did_run = false; failed = true }, s)

  unfoldable pub try_run_exclusively : KubeResult (List BatchJob) → (S → Bool × S) → S → Tried × S
  unfolding run_it running_jobs
  try_run_exclusively (found bs) runnable s =
      if is_empty (running_jobs bs)
      then run_it runnable s
      else (record { did_run = false; failed = false }, s)
  try_run_exclusively missing runnable s = (record { did_run = false; failed = true }, s)
  try_run_exclusively broken runnable s = (record { did_run = false; failed = true }, s)

-- The labels by which the executors mark their batch jobs: restore, check and prune are exclusive.
unfoldable pub job_labels : JobType → List (String × String)
job_labels restore_type = (label_type, "restore") ∷ (label_exclusive, "true") ∷ []
job_labels check_type = (label_type, "check") ∷ (label_exclusive, "true") ∷ []
job_labels prune_type = (label_type, "prune") ∷ (label_exclusive, "true") ∷ []
job_labels t = (label_type, job_type_string t) ∷ []

-- The batch job that an executor creates: no pod of it is active yet.
unfoldable pub new_job : JobType → String → BatchJob
unfolding job_labels
new_job t name = record {
  name = name;
  namespace = "";
  labels = job_labels t;
  active = 0;
  succeeded = 0;
  failed = 0;
  conditions = [];
}

abbrev pub create : JobType → String → List BatchJob → Bool × List BatchJob
create t name bs = (false, new_job t name ∷ bs)

-- How the Provision of each controller starts its job: check and prune through TryRunExclusively, the
-- others through TryRun.
unfoldable pub start : JobType → ℤ → String → List BatchJob → Tried × List BatchJob
start check_type limit name bs = try_run_exclusively (found bs) (create check_type name) bs
start prune_type limit name bs = try_run_exclusively (found bs) (create prune_type name) bs
start t limit name bs = try_run (found bs) t limit (create t name) bs
