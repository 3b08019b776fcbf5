-- ===== src/Siblings.antt =====
-- Which jobs a job cleans up after it has ended, and what it says of that
-- (operator/executor/generic.go). `list` is what List answers for the jobs of the type in the
-- namespace.
pub mod Kept
mod Examples
use k8up.Prelude.{
  String, Bool, true, false, ◌&&◌, Option, none, some, List, [], ◌∷◌, filterb, str_eq, starts_with,
  itoa, concat, if◌then◌else◌,
}
use k8up.Status.{
  ConditionApi, condition_true, condition_false, condition_scrubbed, reason_succeeded,
  reason_deletion_failed, reason_retrieval_failed, set_condition,
}
use k8up.JobObject.{JobObject, OwnerReference}
use k8up.Job.{Answer}
use k8up.Cleaner.{GlobalLimits, CleanError, Cleaned, clean_old_objects}

-- metav1.GetControllerOf: the first owner that is marked as the controller.
unfoldable pub get_controller_of : List OwnerReference → Option OwnerReference
get_controller_of [] = none
get_controller_of (r ∷ rs) = if r.controller then some r else get_controller_of rs

-- The loop over the owners without the mark.
unfoldable pub schedule_uid : List OwnerReference → String
schedule_uid [] = ""
schedule_uid (r ∷ rs) =
    if str_eq r.kind "Schedule" && starts_with r.api_version "k8up.io/"
    then r.uid
    else schedule_uid rs

abbrev uid_or : Option OwnerReference → String → String
uid_or none d = d
uid_or (some r) d = r.uid

unfoldable pub controller_uid : JobObject → String
unfolding get_controller_of schedule_uid
controller_uid o = uid_or (get_controller_of o.owners) (schedule_uid o.owners)

unfoldable pub filter_by_controller : List JobObject → JobObject → List JobObject
unfolding controller_uid
filter_by_controller jobs running =
    let owner_uid = controller_uid running in
    filterb (λ j. str_eq (controller_uid j) owner_uid) jobs

module _ (api : ConditionApi) (c : GlobalLimits) (kube : JobObject → Answer) where
  set_scrubbed : Bool → String → String → JobObject → JobObject
  set_scrubbed ok reason message o = record o {
    status =
        set_condition api condition_scrubbed reason (if ok then condition_true else condition_false)
          message o.status;
  }

  tell : Cleaned → Option CleanError → JobObject → JobObject
  unfolding set_scrubbed
  tell r none o =
      set_scrubbed true reason_succeeded (concat ("Deleted " ∷ itoa r.deleted ∷ " resources" ∷ []))
        o
  tell r (some e) o = set_scrubbed false reason_deletion_failed "could not cleanup old resources" o

  -- CleanupOldResources: the jobs that it asks to delete, and the running job with its condition.
  unfoldable pub cleanup_old_resources :
      Option (List JobObject) → JobObject → List JobObject × JobObject
  unfolding filter_by_controller tell set_scrubbed
  cleanup_old_resources none running = (
    [],
    set_scrubbed false reason_retrieval_failed "could not list objects to cleanup old resources"
        running,
  )
  cleanup_old_resources (some jobs) running =
      let r = clean_old_objects api c (some running) kube (filter_by_controller jobs running) in
      (r.requests, tell r r.error running)
