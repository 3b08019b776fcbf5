-- ===== src/Siblings/Kept.antt =====
-- The cleanup of a job stays among the jobs of its own owner (operator/executor/generic.go,
-- operator/executor/cleaner/cleaner.go).
use k8up.Prelude.{
  ◌≡◌, refl, true, Option, none, some, List, All, All-filterb, All-filterb_kept, All-map, All-pair,
  is_some, not, anyb, ◌&&◌, ◌∙◌, eq_iff, str_eq,
}
use k8up.Status.{ConditionApi, has_finished, condition_scrubbed, set_condition}
use k8up.JobObject.{JobObject}
use k8up.Job.{Answer}
use k8up.Cleaner.{GlobalLimits, Cleaned, CleanError, clean_old_objects, group_by_status}
use k8up.Cleaner.Limits.{history_limits_nonneg}
use k8up.Cleaner.Retention.{
  group_by_status_filters, clean_group-All, then_failed-All, clean_old_objects_finished,
  clean_old_objects_honest, is_refused,
}
use k8up.BackupController.{scrubbed_reason}
use k8up.Siblings.{controller_uid, filter_by_controller, cleanup_old_resources, tell, set_scrubbed}

module _ (api : ConditionApi) (c : GlobalLimits) (kube : JobObject → Answer) where
  -- What holds of all jobs holds of those that are deleted.
  clean_old_objects-All :
      (P : JobObject → Type 0) (l : Option JobObject) (os : List JobObject)
      → All P os
      → All P (clean_old_objects api c l kube os).requests
  unfolding clean_old_objects
  clean_old_objects-All P l os h =
      let g = group_by_status_filters api os in
      let limits = history_limits_nonneg c l in
      then_failed-All P _ _ _
        (clean_group-All P kube (group_by_status api os).successful _ limits.0
          (rw (g.2) (All-filterb_kept P _ os h)))
        (clean_group-All P kube (group_by_status api os).failed _ limits.1
          (rw (g.1) (All-filterb_kept P _ os h)))

  filter_by_controller-All :
      (jobs : List JobObject) (running : JobObject)
      → All (λ j. controller_uid j ≡ controller_uid running) (filter_by_controller jobs running)
  unfolding filter_by_controller
  filter_by_controller-All jobs running =
      All-map (λ j h. (eq_iff (controller_uid j) (controller_uid running)).0 h) _
        (All-filterb (λ j. str_eq (controller_uid j) (controller_uid running)) jobs)

  -- Whatever the API server answers and whatever the limits are, CleanupOldResources asks only for
  -- the deletion of jobs that have finished and whose controller is the running job's, so never of
  -- another schedule's jobs.
  pub cleanup_old_resources-siblings :
      (list : Option (List JobObject)) (running : JobObject)
      → All
          (λ j. (has_finished api j.status ≡ true) × (controller_uid j ≡ controller_uid running))
          (cleanup_old_resources api c kube list running).0
  unfolding cleanup_old_resources
  cleanup_old_resources-siblings none running = tt
  cleanup_old_resources-siblings (some jobs) running =
      let siblings = filter_by_controller jobs running in
      All-pair _ _ _ (clean_old_objects_finished api c (some running) kube siblings)
        (clean_old_objects-All _ (some running) siblings (filter_by_controller-All jobs running))

  tell_scrubbed :
      (r : Cleaned) (e : Option CleanError) (o : JobObject)
      → scrubbed_reason (api.find (tell api c kube r e o).status.conditions condition_scrubbed)
        ≡ not (is_some e)
  unfolding tell set_scrubbed set_condition
  tell_scrubbed r none o = simp api.find-set refl
  tell_scrubbed r (some e) o = simp api.find-set refl

  -- After CleanupOldResources the backup controller takes the job to be cleaned up exactly if List
  -- answered and none of the Deletes that were asked for was refused.
  pub cleanup_old_resources-scrubbed :
      (list : Option (List JobObject)) (running : JobObject)
      → let (requests, after) = cleanup_old_resources api c kube list running in
        scrubbed_reason (api.find after.status.conditions condition_scrubbed)
        ≡ (is_some list && not (anyb (is_refused kube) requests))
  unfolding cleanup_old_resources set_scrubbed set_condition
  cleanup_old_resources-scrubbed none running = simp api.find-set refl
  cleanup_old_resources-scrubbed (some jobs) running =
      let siblings = filter_by_controller jobs running in
      let r = clean_old_objects api c (some running) kube siblings in
      tell_scrubbed r r.error running
      ∙ rw (clean_old_objects_honest api c (some running) kube siblings) refl
