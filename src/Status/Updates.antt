-- ===== src/Status/Updates.antt =====
-- What the queries of api/v1/status.go answer after an update.
use k8up.Prelude.{String, ◌≡◌, refl, true, false, none, arith, if◌then◌else◌}
use k8up.Status.{
  ConditionApi, Status, has_failed, has_succeeded, has_failed_pre_backup, has_started,
  set_succeeded, set_failed, set_started, set_finished, condition_ready,
}
use k8up.Status.Queries.{outcome, failed, succeeded}

module _ (api : ConditionApi) (m : String) (s : Status) where
  -- Success is recorded, unless the pre-backup has failed: then the job counts as failed. Whether it
  -- has started is left as it was.
  pub outcome-set_succeeded :
      (outcome api (set_succeeded api m s)
        ≡ (if has_failed_pre_backup api s then failed else succeeded))
      × (has_started api (set_succeeded api m s) ≡ has_started api s)
  unfolding outcome has_succeeded has_failed has_started set_succeeded
  outcome-set_succeeded = (simp api.find-set (ground arith), simp api.find-set refl)

  -- A failure is recorded whatever was recorded before.
  pub outcome-set_failed :
      (outcome api (set_failed api m s) ≡ failed)
      × (has_started api (set_failed api m s) ≡ has_started api s)
  unfolding outcome has_succeeded has_failed has_started set_failed
  outcome-set_failed = (simp api.find-set (ground arith), simp api.find-set refl)

  -- A start marks the job as started and leaves its outcome alone.
  pub outcome-set_started :
      (has_started api (set_started api m s) ≡ true)
      × ((set_started api m s).started ≡ true)
      × (outcome api (set_started api m s) ≡ outcome api s)
  unfolding outcome has_succeeded has_failed has_started set_started
  outcome-set_started = (simp api.find-set refl, refl, simp api.find-set refl)

  -- An end clears the started mark and the ready condition, and leaves the outcome alone.
  pub outcome-set_finished :
      (has_started api (set_finished api m s) ≡ false)
      × ((set_finished api m s).finished ≡ true)
      × (api.find (set_finished api m s).conditions condition_ready ≡ none)
      × (outcome api (set_finished api m s) ≡ outcome api s)
  unfolding outcome has_succeeded has_failed has_started set_finished
  outcome-set_finished = (
    simp (api.find-set, api.find-remove) refl,
    refl,
    simp api.find-remove refl,
    simp (api.find-set, api.find-remove) refl,
  )
