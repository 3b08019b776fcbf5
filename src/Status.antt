-- ===== src/Status.antt =====
-- The status of a K8up job (api/v1/status.go) with the condition types and reasons of
-- api/v1/common_types.go. A condition keeps the four fields that K8up reads and writes.
-- `ConditionApi` stands for FindStatusCondition, SetStatusCondition and RemoveStatusCondition of
-- k8s.io/apimachinery, with what their documentation promises of the entry of a type.
pub mod Queries
pub mod Updates
pub mod Plain
mod Examples
use k8up.Prelude.{
  String, ◌≡◌, Bool, true, false, not, ◌&&◌, ◌||◌, Option, none, some, List, if◌then◌else◌, str_eq,
  contains, [], ◌∷◌,
}

-- metav1.ConditionStatus
pub data ConditionStatus : Type 0 where
  condition_true condition_false condition_unknown : ConditionStatus

abbrev pub is_true : ConditionStatus → Bool
is_true condition_true = true
is_true _ = false

abbrev pub is_false : ConditionStatus → Bool
is_false condition_false = true
is_false _ = false

abbrev pub is_unknown : ConditionStatus → Bool
is_unknown condition_unknown = true
is_unknown _ = false

pub record Condition : Type 0 where
  pub kind : String
  pub status : ConditionStatus
  pub reason : String
  pub message : String

abbrev pub condition_completed : String
condition_completed = "Completed"

abbrev pub condition_ready : String
condition_ready = "Ready"

abbrev pub condition_scrubbed : String
condition_scrubbed = "Scrubbed"

abbrev pub condition_progressing : String
condition_progressing = "Progressing"

abbrev pub condition_pre_backup_pod_ready : String
condition_pre_backup_pod_ready = "PreBackupPodReady"

abbrev pub reason_ready : String
reason_ready = "Ready"

abbrev pub reason_started : String
reason_started = "Started"

abbrev pub reason_finished : String
reason_finished = "Finished"

abbrev pub reason_succeeded : String
reason_succeeded = "Succeeded"

abbrev pub reason_failed : String
reason_failed = "Failed"

abbrev pub reason_creation_failed : String
reason_creation_failed = "CreationFailed"

abbrev pub reason_deletion_failed : String
reason_deletion_failed = "DeletionFailed"

abbrev pub reason_retrieval_failed : String
reason_retrieval_failed = "RetrievalFailed"

abbrev pub reason_no_pre_backup_pods_found : String
reason_no_pre_backup_pods_found = "NoPreBackupPodsFound"

abbrev pub reason_waiting : String
reason_waiting = "Waiting"

pub record Status : Type 0 where
  pub started : Bool
  pub finished : Bool
  pub exclusive : Bool
  pub conditions : List Condition

-- meta.FindStatusCondition, meta.SetStatusCondition, meta.RemoveStatusCondition
pub record ConditionApi : Type 0 where
  pub find : List Condition → String → Option Condition
  pub set : List Condition → Condition → List Condition
  pub remove : List Condition → String → List Condition
  pub find-set :
      (cs : List Condition) (c : Condition) (t : String)
      → find (set cs c) t ≡ (if str_eq c.kind t then some c else find cs t)
  pub find-remove :
      (cs : List Condition) (k t : String)
      → find (remove cs k) t ≡ (if str_eq k t then none else find cs t)

unfoldable pub match_any_reason : Condition → List String → Bool
match_any_reason c reasons = contains reasons c.reason

unfoldable pub is_pre_backup_failed : Condition → Bool
unfolding match_any_reason
is_pre_backup_failed c = not (
    match_any_reason c
      (reason_succeeded ∷ reason_waiting ∷ reason_no_pre_backup_pods_found ∷ reason_ready ∷ []))

-- The bodies of the `if` over what FindStatusCondition returns.
pre_backup_verdict : Option Condition → Bool
unfolding is_pre_backup_failed
pre_backup_verdict none = false
pre_backup_verdict (some c) = if is_pre_backup_failed c then is_false c.status else false

failed_verdict : Option Condition → Bool
unfolding match_any_reason
failed_verdict none = false
failed_verdict (some c) =
    if not (match_any_reason c (reason_succeeded ∷ [])) then is_true c.status else false

reason_verdict : String → (ConditionStatus → Bool) → Option Condition → Bool
unfolding match_any_reason
reason_verdict r p none = false
reason_verdict r p (some c) = if match_any_reason c (r ∷ []) then p c.status else false

module _ (api : ConditionApi) where
  unfoldable pub has_failed_pre_backup : Status → Bool
  unfolding pre_backup_verdict
  has_failed_pre_backup s =
      pre_backup_verdict (api.find s.conditions condition_pre_backup_pod_ready)

  unfoldable pub has_failed : Status → Bool
  unfolding has_failed_pre_backup failed_verdict
  has_failed s =
      if has_failed_pre_backup s
      then true
      else failed_verdict (api.find s.conditions condition_completed)

  unfoldable pub has_succeeded : Status → Bool
  unfolding has_failed_pre_backup reason_verdict
  has_succeeded s =
      if has_failed_pre_backup s
      then false
      else reason_verdict reason_succeeded is_true (api.find s.conditions condition_completed)

  unfoldable pub has_finished : Status → Bool
  unfolding has_failed has_succeeded
  has_finished s = has_failed s || has_succeeded s

  unfoldable pub has_started : Status → Bool
  unfolding reason_verdict
  has_started s =
      reason_verdict reason_started is_true (api.find s.conditions condition_progressing)

  unfoldable pub is_waiting_for_pre_backup : Status → Bool
  unfolding reason_verdict
  is_waiting_for_pre_backup s =
      reason_verdict reason_waiting is_unknown
        (api.find s.conditions condition_pre_backup_pod_ready)

  unfoldable pub set_condition : String → String → ConditionStatus → String → Status → Status
  set_condition k r st m s = record s {
    conditions = api.set s.conditions (record { kind = k; status = st; reason = r; message = m });
  }

  unfoldable pub set_started : String → Status → Status
  unfolding set_condition
  set_started m s =
      let ready =
        set_condition condition_ready reason_ready condition_true m (record s { started = true }) in
      set_condition condition_progressing reason_started condition_true "The job is progressing"
        ready

  unfoldable pub set_finished : String → Status → Status
  unfolding set_condition
  set_finished m s =
      let progressed =
        set_condition condition_progressing reason_finished condition_false m
          (record s { finished = true }) in
      record progressed { conditions = api.remove progressed.conditions condition_ready }

  unfoldable pub set_failed : String → Status → Status
  unfolding set_condition
  set_failed m s = set_condition condition_completed reason_failed condition_true m s

  unfoldable pub set_succeeded : String → Status → Status
  unfolding set_condition
  set_succeeded m s = set_condition condition_completed reason_succeeded condition_true m s
