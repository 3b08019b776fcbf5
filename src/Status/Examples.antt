-- ===== src/Status/Examples.antt =====
-- Runs of the status updates over the plain conditions.
use k8up.Prelude.{◌≡◌, refl, false, []}
use k8up.Status.{
  Status, has_failed, has_succeeded, has_started, set_started, set_finished, set_succeeded,
  set_condition, condition_false, condition_pre_backup_pod_ready, reason_retrieval_failed,
}
use k8up.Status.Plain.{plain}
use k8up.Status.Queries.{outcome, failed, succeeded}

abbrev fresh : Status
fresh = record { started = false; finished = false; exclusive = false; conditions = [] }

abbrev after_success : Status
after_success = set_finished plain "done" (set_succeeded plain "ok" (set_started plain "go" fresh))

abbrev pre_backup_lost : Status
pre_backup_lost =
    set_condition plain condition_pre_backup_pod_ready reason_retrieval_failed condition_false ""
      fresh

success_run : (outcome plain after_success ≡ succeeded) × (has_started plain after_success ≡ false)
unfolding outcome has_failed has_succeeded has_started set_finished set_succeeded set_started
success_run = (refl, refl)

lost_run : outcome plain (set_succeeded plain "ok" pre_backup_lost) ≡ failed
unfolding outcome has_failed has_succeeded set_succeeded
lost_run = refl
