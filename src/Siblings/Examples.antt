-- ===== src/Siblings/Examples.antt =====
-- A cleanup beside the jobs of another schedule.
use k8up.Prelude.{
  ◌≡◌, refl, true, false, none, some, List, [], ◌∷◌, All, String, Bool, is_some, not, anyb, ◌&&◌,
}
use k8up.Prelude.Int.{pos}
use k8up.Status.{
  Condition, has_finished, condition_true, condition_completed, reason_succeeded,
  condition_scrubbed,
}
use k8up.Status.Plain.{plain}
use k8up.JobObject.{JobObject, OwnerReference, backup_type}
use k8up.Job.{Answer, done, refused}
use k8up.Cleaner.{GlobalLimits}
use k8up.BackupController.{scrubbed_reason}
use k8up.Cleaner.Retention.{is_refused}
use k8up.Siblings
use k8up.Siblings.{controller_uid, cleanup_old_resources}
use k8up.Siblings.Kept.{cleanup_old_resources-siblings, cleanup_old_resources-scrubbed}

abbrev limits : GlobalLimits
limits = record { keep_jobs = pos 0; failed = pos 0; successful = pos 0 }

abbrev completed : Condition
completed = record {
  kind = condition_completed;
  status = condition_true;
  reason = reason_succeeded;
  message = "";
}

abbrev schedule : Bool → String → OwnerReference
schedule marked uid = record {
  kind = "Schedule";
  api_version = "k8up.io/v1";
  uid = uid;
  controller = marked;
}

abbrev job_of : String → OwnerReference → JobObject
job_of name owner = record {
  name = name;
  namespace = "shop";
  job_type = backup_type;
  created = 1;
  labels = [];
  owners = owner ∷ [];
  status = record {
    started = true;
    finished = true;
    exclusive = false;
    conditions = completed ∷ [];
  };
  keep_jobs = none;
  failed_limit = none;
  successful_limit = none;
}

abbrev running : JobObject
running = job_of "now" (schedule true "u1")

-- An old job without the mark, and one of another schedule.
abbrev jobs : List JobObject
jobs = job_of "old" (schedule false "u1") ∷ job_of "other" (schedule true "u2") ∷ []

abbrev all_done : JobObject → Answer
all_done o = done

uid_run :
    (controller_uid (job_of "old" (schedule false "u1")) ≡ "u1") × (controller_uid running ≡ "u1")
unfolding controller_uid Siblings.get_controller_of Siblings.schedule_uid
uid_run = (refl, refl)

cleanup_old_resources-siblings_example :
    All
      (λ j. (has_finished plain j.status ≡ true) × (controller_uid j ≡ controller_uid running))
      (cleanup_old_resources plain limits all_done (some jobs) running).0
cleanup_old_resources-siblings_example =
    cleanup_old_resources-siblings plain limits all_done (some jobs) running

-- The Delete of the sibling is refused.
abbrev all_refused : JobObject → Answer
all_refused o = refused

cleanup_old_resources-scrubbed_example :
    let (requests, after) = cleanup_old_resources plain limits all_refused (some jobs) running in
    scrubbed_reason (plain.find after.status.conditions condition_scrubbed)
    ≡ (is_some (some jobs) && not (anyb (is_refused all_refused) requests))
cleanup_old_resources-scrubbed_example =
    cleanup_old_resources-scrubbed plain limits all_refused (some jobs) running
