-- ===== src/Cleaner.antt =====
-- Cleaning old, finished jobs (operator/executor/cleaner/cleaner.go, with the limits of
-- operator/cfg/config.go and of the specs of api/v1). The API server is a function `kube` from the
-- object of a Delete call to its answer; the calls are returned in order.
pub mod Limits
pub mod Retention
mod Examples
use k8up.Prelude.{
  ℕ, zero, suc, ◌+◌, Bool, true, false, Option, none, some, List, [], ◌∷◌, ◌++◌, length,
  if◌then◌else◌,
}
use k8up.Prelude.Int.{ℤ, pos, negsuc, ◌-ℤ◌, ltb_ℤ, leb_ℤ}
use k8up.Status.{ConditionApi, has_succeeded, has_failed}
use k8up.JobObject.{JobObject}
use k8up.JobObject.Order.{sort}
use k8up.Job.{Answer, done, not_found, refused}

-- The three limits of cfg.Configuration.
pub record GlobalLimits : Type 0 where
  pub keep_jobs : ℤ
  pub failed : ℤ
  pub successful : ℤ

abbrev pub max_int : ℤ → ℤ → ℤ
max_int x y = if ltb_ℤ y x then x else y

unfoldable pub global_failed_limit : GlobalLimits → ℤ
global_failed_limit c =
    if ltb_ℤ c.keep_jobs (pos 0)
    then max_int (pos 0) c.failed
    else if ltb_ℤ c.failed (pos 0)
    then max_int (pos 0) c.keep_jobs
    else max_int (pos 0) c.failed

unfoldable pub global_successful_limit : GlobalLimits → ℤ
global_successful_limit c =
    if ltb_ℤ c.keep_jobs (pos 0)
    then max_int (pos 0) c.successful
    else if ltb_ℤ c.successful (pos 0)
    then max_int (pos 0) c.keep_jobs
    else max_int (pos 0) c.successful

-- GetFailedJobsHistoryLimit, GetSuccessfulJobsHistoryLimit
abbrev or_else : Option ℤ → Option ℤ → Option ℤ
or_else none d = d
or_else (some n) d = some n

unfoldable pub get_failed_jobs_history_limit : JobObject → Option ℤ
get_failed_jobs_history_limit o = or_else o.failed_limit o.keep_jobs

unfoldable pub get_successful_jobs_history_limit : JobObject → Option ℤ
get_successful_jobs_history_limit o = or_else o.successful_limit o.keep_jobs

unfoldable pub get_or_default : Option ℤ → ℤ → ℤ
get_or_default none d = d
get_or_default (some n) d = if ltb_ℤ n (pos 0) then pos 0 else n

pub record HistoryLimits : Type 0 where
  pub successful : ℤ
  pub failed : ℤ

unfoldable pub history_limits : GlobalLimits → Option JobObject → HistoryLimits
unfolding global_failed_limit global_successful_limit get_or_default get_failed_jobs_history_limit
    get_successful_jobs_history_limit
history_limits c none = record {
  successful = global_successful_limit c;
  failed = global_failed_limit c;
}
history_limits c (some l) = record {
  successful = get_or_default (get_successful_jobs_history_limit l) (global_successful_limit c);
  failed = get_or_default (get_failed_jobs_history_limit l) (global_failed_limit c);
}

pub record Groups : Type 0 where
  pub running : List JobObject
  pub failed : List JobObject
  pub successful : List JobObject

module _ (api : ConditionApi) where
  -- The body of the loop of groupByStatus, which appends to the three lists.
  group_one : JobObject → Groups → Groups
  group_one o g =
      if has_succeeded api o.status
      then record g { successful = g.successful ++ o ∷ [] }
      else if has_failed api o.status
      then record g { failed = g.failed ++ o ∷ [] }
      else record g { running = g.running ++ o ∷ [] }

  pub group_from : Groups → List JobObject → Groups
  unfolding group_one
  group_from g [] = g
  group_from g (o ∷ os) = group_from (group_one o g) os

  unfoldable pub group_by_status : List JobObject → Groups
  unfolding group_from
  group_by_status os = group_from (record { running = []; failed = []; successful = [] }) os

pub data CleanError : Type 0 where
  -- "could not delete old …", for the object whose Delete was refused.
  could_not_delete : JobObject → CleanError
  -- jobObjects[i] past the end, which panics in Go.
  index_out_of_range : CleanError

pub record Cleaned : Type 0 where
  pub requests : List JobObject
  pub deleted : ℕ
  pub error : Option CleanError

-- deleteJob: `true` where it returns nil.
abbrev pub delete_ok : Answer → Bool
delete_ok done = true
delete_ok not_found = true
delete_ok refused = false

-- The loop of cleanOldObjects from index `i`, with `n` rounds left.
pub delete_from : (JobObject → Answer) → ℕ → ℕ → List JobObject → Cleaned
delete_from kube i zero os = record { requests = []; deleted = i; error = none }
delete_from kube i (suc n) [] = record {
  requests = [];
  deleted = i;
  error = some index_out_of_range;
}
delete_from kube i (suc n) (o ∷ os) =
    let rest = delete_from kube (suc i) n os in
    if delete_ok (kube o)
    then record rest { requests = o ∷ rest.requests }
    else record { requests = o ∷ []; deleted = i; error = some (could_not_delete o) }

abbrev pub to_nat : ℤ → ℕ
to_nat (pos n) = n
to_nat (negsuc n) = 0

-- cleanOldObjects
unfoldable pub clean_group : (JobObject → Answer) → List JobObject → ℤ → Cleaned
unfolding delete_from
clean_group kube os max =
    let num_to_delete = pos (length os) -ℤ max in
    if leb_ℤ num_to_delete (pos 0)
    then record { requests = []; deleted = 0; error = none }
    else delete_from kube 0 (to_nat num_to_delete) (sort os)

-- The failed jobs are cleaned only if the successful ones were.
pub then_failed : Option CleanError → Cleaned → Cleaned → Cleaned
then_failed none s f = record {
  requests = s.requests ++ f.requests;
  deleted = s.deleted + f.deleted;
  error = f.error;
}
then_failed (some e) s f = s

-- CleanOldObjects
unfoldable pub clean_old_objects :
    ConditionApi → GlobalLimits → Option JobObject → (JobObject → Answer) → List JobObject → Cleaned
unfolding then_failed
clean_old_objects api c limiter kube os =
    let limits = history_limits c limiter in
    let groups = group_by_status api os in
    let success_del = clean_group kube groups.successful limits.successful in
    let failed_del = clean_group kube groups.failed limits.failed in
    then_failed success_del.error success_del failed_del
