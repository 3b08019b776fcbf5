-- ===== src/Cleaner/Examples.antt =====
-- Runs of the cleaner.
use Prim.Native.Nat.{min}
use k8up.Prelude.{
  ℕ, ◌-◌, String, ◌≡◌, refl, false, none, some, List, [], ◌∷◌, ◌++◌, length, All, drop, take,
  before, first_with, to_list, str_eq, if◌then◌else◌,
}
use k8up.Prelude.Int.{pos, negsuc}
use k8up.Status
use k8up.Status.{Status, set_succeeded, set_failed, has_finished, has_succeeded, has_failed}
use k8up.Status.Plain.{plain}
use native.Mathlib.Omega.{arith}
use k8up.JobObject.{JobObject, backup_type, less}
use k8up.JobObject.Order.{sort}
use k8up.Job.{Answer, done, refused}
use k8up.Cleaner.{GlobalLimits, clean_group, clean_old_objects, group_by_status, history_limits}
use k8up.Cleaner.Retention.{is_refused, refusal, clean_group_keeps_newest, clean_group_runs}

abbrev fresh : Status
fresh = record { started = false; finished = false; exclusive = false; conditions = [] }

abbrev job : String → ℕ → Status → JobObject
job name at s = record {
  name = name;
  namespace = "shop";
  job_type = backup_type;
  created = at;
  labels = [];
  owners = [];
  status = s;
  keep_jobs = none;
  failed_limit = none;
  successful_limit = some (pos 1);
}

abbrev jobs : List JobObject
jobs =
    job "c" 30 (set_succeeded plain "" fresh)
    ∷ job "a" 10 (set_succeeded plain "" fresh)
    ∷ job "d" 40 fresh
    ∷ job "b" 20 (set_succeeded plain "" fresh)
    ∷ job "e" 50 (set_failed plain "" fresh)
    ∷ []

abbrev config : GlobalLimits
config = record { keep_jobs = negsuc 0; failed = pos 0; successful = pos 3 }

abbrev willing : JobObject → Answer
willing o = done

-- One successful job is kept, and no failed one.
clean_run :
    let r = clean_old_objects plain config (some (job "f" 60 fresh)) willing jobs in
    (r.deleted ≡ 3) × (r.error ≡ none) × (length r.requests ≡ 3)
unfolding clean_old_objects clean_group history_limits group_by_status sort less
    Status.has_succeeded Status.has_failed Status.set_succeeded Status.set_failed
clean_run = (refl, refl, refl)

clean_group_keeps_newest_example :
    let r = clean_group willing jobs (pos 2) in
    let kept = drop r.deleted (sort jobs) in
    (r.error ≡ none)
    × (r.requests ++ kept ≡ sort jobs)
    × (length kept ≡ min 5 2)
    × All (λ o. All (λ k. less k o ≡ false) kept) r.requests
clean_group_keeps_newest_example =
    clean_group_keeps_newest willing jobs (pos 2) (λ o. refl) (omega arith)

-- The second Delete is refused.
abbrev second_refused : JobObject → Answer
second_refused o = if str_eq o.name "b" then refused else done

clean_group_runs_example :
    let r = clean_group second_refused jobs (pos 2) in
    let due = take (5 - 2) (sort jobs) in
    let deleted = before (is_refused second_refused) due in
    let refused_one = first_with (is_refused second_refused) due in
    (r.requests ≡ deleted ++ to_list refused_one)
    × (r.deleted ≡ length deleted)
    × (r.error ≡ refusal refused_one)
clean_group_runs_example = clean_group_runs second_refused jobs (pos 2) (omega arith)
