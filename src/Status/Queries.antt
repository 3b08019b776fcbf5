-- ===== src/Status/Queries.antt =====
-- What the queries of api/v1/status.go say of one another.
use k8up.Prelude.{◌≡◌, refl, ◌||◌, ◌&&◌, Bool, true, false, arith}
use k8up.Status.{
  ConditionApi, Status, has_failed, has_succeeded, has_finished, has_failed_pre_backup,
}

-- How a job stands, which no job does in two ways.
pub data Outcome : Type 0 where
  unfinished failed succeeded : Outcome

abbrev pub outcome_of : Bool → Bool → Outcome
outcome_of true _ = failed
outcome_of false true = succeeded
outcome_of false false = unfinished

abbrev pub ended : Outcome → Bool
ended unfinished = false
ended _ = true

abbrev pub is_success : Outcome → Bool
is_success succeeded = true
is_success _ = false

module _ (api : ConditionApi) where
  unfoldable pub outcome : Status → Outcome
  outcome s = outcome_of (has_failed api s) (has_succeeded api s)

  pub failed_not_succeeded : (s : Status) → has_failed api s ≡ true → has_succeeded api s ≡ false
  unfolding has_failed has_succeeded
  failed_not_succeeded s h = ground arith

  pub succeeded_not_failed : (s : Status) → has_succeeded api s ≡ true → has_failed api s ≡ false
  unfolding has_failed has_succeeded
  succeeded_not_failed s h = ground arith

  -- No status has both failed and succeeded; it has finished exactly when it has done one of them;
  -- and it has succeeded exactly when its outcome says so, which a failed pre-backup rules out.
  pub outcome_exclusive :
      (s : Status)
      → ((has_failed api s && has_succeeded api s) ≡ false)
        × (has_finished api s ≡ ended (outcome s))
        × ((has_failed_pre_backup api s && is_success (outcome s)) ≡ false)
        × (has_succeeded api s ≡ is_success (outcome s))
  unfolding has_finished outcome
  outcome_exclusive s = (ground arith, ground arith, ground arith, ground arith)

  pub has_finished_lem :
      (s : Status) → has_finished api s ≡ (has_failed api s || has_succeeded api s)
  unfolding has_finished
  has_finished_lem s = refl
