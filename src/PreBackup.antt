-- ===== src/PreBackup.antt =====
-- The pre-backup pods of a backup (operator/backupcontroller/prebackup.go, prebackup_utils.go). The
-- state is the pass of the backup controller over the deployments of the namespace; what the API
-- server refuses is a parameter. Conditions are those of the object that the executor holds: that
-- patchConditions cannot write them to the API server is only logged. Of a deployment the fields
-- that K8up reads or sets are kept.
pub mod Running
pub mod Verdict
pub mod Stopping
pub mod Reruns
mod Examples
use k8up.Prelude.{
  ℕ, String, Bool, true, false, ◌&&◌, Option, none, some, List, [], ◌∷◌, map, ltb, str_eq, insert,
  lookup, without, concat, itoa, length, if◌then◌else◌,
}
use k8up.Status.{
  ConditionApi, ConditionStatus, condition_true, condition_false, condition_unknown, is_false,
  set_condition, condition_ready, condition_pre_backup_pod_ready, reason_ready, reason_waiting,
  reason_failed, reason_finished, reason_retrieval_failed, reason_creation_failed,
  reason_deletion_failed, reason_no_pre_backup_pods_found,
}
use k8up.Controllers.{Pass}

pub record PreBackupPod : Type 0 where
  pub name : String
  pub backup_command : String
  pub file_extension : String

-- appsv1.DeploymentCondition
pub record DeploymentCondition : Type 0 where
  pub kind : String
  pub status : ConditionStatus
  pub reason : String
  pub message : String

pub record Deployment : Type 0 where
  pub name : String
  pub namespace : String
  pub labels : List (String × String)
  pub pod_labels : List (String × String)
  pub pod_annotations : List (String × String)
  pub available_replicas : ℕ
  pub conditions : List DeploymentCondition

-- The deployments of a namespace by their names.
abbrev pub Deployments : Type 0
Deployments = List (String × Deployment)

-- What the API server answers: the pods of the namespace and of a label selector, `none` for an error
-- of List or of the selector's conversion, the deployments whose Get, Create and Delete it refuses,
-- and the order in which Go runs through the map of pods.
pub record ApiServer {ℓ} (L : Type ℓ) : Type ℓ where
  pub list : Option (List PreBackupPod)
  pub select : L → Option (List PreBackupPod)
  pub get_fails : String → Bool
  pub create_fails : String → Bool
  pub delete_fails : String → Bool
  pub order : List PreBackupPod → List PreBackupPod

-- The settings of the operator that name the annotations, and the UID of the backup.
pub record Naming : Type 0 where
  pub backup_command_annotation : String
  pub file_extension_annotation : String
  pub owner_uid : String

-- The loops of fetchPreBackupPodTemplates.
pub add_pods : List PreBackupPod → List (String × PreBackupPod) → List (String × PreBackupPod)
add_pods [] unique = unique
add_pods (p ∷ ps) unique = add_pods ps (insert p.name p unique)

abbrev values : List (String × PreBackupPod) → List PreBackupPod
values m = map (λ e. e.1) m

module _ {ℓ} {L : Type ℓ} (k8s : ApiServer L) where
  abbrev add_selected :
      Option (List PreBackupPod)
      → (List (String × PreBackupPod) → Option (List (String × PreBackupPod)))
      → List (String × PreBackupPod)
      → Option (List (String × PreBackupPod))
  add_selected none go unique = none
  add_selected (some ps) go unique = go (add_pods ps unique)

  pub collect_pods : List L → List (String × PreBackupPod) → Option (List (String × PreBackupPod))
  unfolding add_pods
  collect_pods [] unique = some unique
  collect_pods (l ∷ ls) unique = add_selected (k8s.select l) (collect_pods ls) unique

  abbrev in_order : Option (List (String × PreBackupPod)) → Option (List PreBackupPod)
  in_order none = none
  in_order (some unique) = some (k8s.order (values unique))

  -- `none` is an absent list of selectors.
  unfoldable pub fetch_pre_backup_pod_templates : Option (List L) → Option (List PreBackupPod)
  unfolding collect_pods
  fetch_pre_backup_pod_templates none = k8s.list
  fetch_pre_backup_pod_templates (some ls) = in_order (collect_pods ls [])

-- The loop body of generateDeployments.
unfoldable pub deployment_of : Naming → String → PreBackupPod → Deployment
deployment_of n namespace p = record {
  name = p.name;
  namespace = namespace;
  labels = ("k8up.io/preBackupPod", p.name) ∷ [];
  pod_labels =
      ("k8up.io/backupCommandPod", "true")
      ∷ ("k8up.io/preBackupPod", p.name)
      ∷ ("k8up.io/ownerBackupUID", n.owner_uid)
      ∷ [];
  pod_annotations =
      (n.backup_command_annotation, p.backup_command)
      ∷ (n.file_extension_annotation, p.file_extension)
      ∷ [];
  available_replicas = 0;
  conditions = [];
}

unfoldable pub generate_deployments : Naming → String → List PreBackupPod → List Deployment
unfolding deployment_of
generate_deployments n namespace ps = map (deployment_of n namespace) ps

unfoldable pub get_progressing_condition : List DeploymentCondition → Option DeploymentCondition
get_progressing_condition [] = none
get_progressing_condition (c ∷ cs) =
    if str_eq c.kind "Progressing" then some c else get_progressing_condition cs

unfoldable pub is_deadline_exceeded : DeploymentCondition → Bool
is_deadline_exceeded c = is_false c.status && str_eq c.reason "ProgressDeadlineExceeded"

unfoldable pub has_available_replica : Deployment → Bool
has_available_replica d = ltb 0 d.available_replicas

-- Whether a deployment is ready, or the message of the error.
pub data Readiness : Type 0 where
  ready waiting : Readiness
  exceeded : String → Readiness

abbrev by_condition : Option DeploymentCondition → Deployment → Readiness
by_condition none d = if has_available_replica d then ready else waiting
by_condition (some c) d =
    if is_deadline_exceeded c
    then exceeded (concat ("error starting pre backup pod " ∷ d.name ∷ ": " ∷ c.message ∷ []))
    else if has_available_replica d
    then ready
    else waiting

unfoldable pub is_pre_backup_deployment_ready : Deployment → Readiness
unfolding get_progressing_condition is_deadline_exceeded has_available_replica
is_pre_backup_deployment_ready d = by_condition (get_progressing_condition d.conditions) d

-- A Boolean result, whether there is an error, and the state.
pub record Started {ℓ} (S : Type ℓ) : Type ℓ where
  pub is_ready : Bool
  pub has_error : Bool
  pub state : S
