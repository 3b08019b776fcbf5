-- ===== src/PreBackup/Running.antt =====
-- Starting and stopping the pre-backup deployments (operator/backupcontroller/prebackup.go,
-- prebackup_utils.go, operator/job/status.go).
use k8up.Prelude.{
  String, true, false, Option, none, some, List, [], ◌∷◌, insert, lookup, without, concat, itoa,
  length, if◌then◌else◌,
}
use k8up.Status.{
  ConditionApi, ConditionStatus, condition_true, condition_false, condition_unknown, set_condition,
  condition_ready, condition_pre_backup_pod_ready, reason_ready, reason_waiting, reason_failed,
  reason_finished, reason_retrieval_failed, reason_creation_failed, reason_deletion_failed,
  reason_no_pre_backup_pods_found,
}
use k8up.Controllers.{Pass}
use k8up.PreBackup.{
  ApiServer, Deployment, Deployments, PreBackupPod, Naming, Started, Readiness, ready, waiting,
  exceeded, fetch_pre_backup_pod_templates, generate_deployments, is_pre_backup_deployment_ready,
}

abbrev pub Work : Type 0
Work = Pass Deployments

abbrev pub pod_error : String → Deployment → String
pod_error verb d =
    concat ("error " ∷ verb ∷ " pre backup pod '" ∷ d.namespace ∷ "/" ∷ d.name ∷ "'" ∷ [])

abbrev pub waiting_message : List Deployment → String
waiting_message ds =
    concat ("waiting for " ∷ itoa (length ds) ∷ " PreBackupPods to become ready" ∷ [])

abbrev pub ready_message : String
ready_message = "The resource is ready"

module _ (api : ConditionApi) where
  -- patchConditions, on the object that the executor holds
  unfoldable pub patch_conditions : ConditionStatus → String → String → String → Work → Work
  patch_conditions status reason message condition w = record w {
    object = record w.object {
      status = set_condition api condition reason status message w.object.status;
    };
  }

  unfoldable pub pre_backup_false : String → String → Work → Work
  unfolding patch_conditions
  pre_backup_false reason message w =
      patch_conditions condition_false reason message condition_pre_backup_pod_ready w

  unfoldable pub pre_backup_true : String → String → Work → Work
  unfolding patch_conditions
  pre_backup_true reason message w =
      patch_conditions condition_true reason message condition_pre_backup_pod_ready w

  unfoldable pub pre_backup_unknown : String → String → Work → Work
  unfolding patch_conditions
  pre_backup_unknown reason message w =
      patch_conditions condition_unknown reason message condition_pre_backup_pod_ready w

  -- An error of allDeploymentsAreReady is not passed on.
  unfoldable pub conclude : List Deployment → Started Work → Started Work
  unfolding pre_backup_true pre_backup_unknown
  conclude ds r =
      if r.has_error
      then record { is_ready = false; has_error = false; state = r.state }
      else if r.is_ready
      then record {
        is_ready = true;
        has_error = false;
        state = pre_backup_true reason_ready ready_message r.state;
      }
      else record {
        is_ready = false;
        has_error = false;
        state = pre_backup_unknown reason_waiting (waiting_message ds) r.state;
      }

unfoldable pub add_fetched :
    Option Deployment → Option (List Deployment) × Work → Work → Option (List Deployment) × Work
add_fetched none rest w = (none, w)
add_fetched (some d) (none, w') w = (none, w')
add_fetched (some d) (some ds, w') w = (some (d ∷ ds), w')

module _ {ℓ} {L : Type ℓ} (api : ConditionApi) (k8s : ApiServer L) where
  -- A deployment by Get, or by Create where there is none; `none` for an error.
  unfoldable pub got : Deployment → Option Deployment → Work → Option Deployment × Work
  unfolding pre_backup_false
  got d (some e) w = (some e, w)
  got d none w =
      if k8s.create_fails d.name
      then (none, pre_backup_false api reason_creation_failed (pod_error "creating" d) w)
      else (some d, record w { rest = insert d.name d w.rest })

  unfoldable pub fetch_or_create_pre_backup_deployment :
      Deployment → Work → Option Deployment × Work
  unfolding got
  fetch_or_create_pre_backup_deployment d w =
      if k8s.get_fails d.name
      then (none, pre_backup_false api reason_retrieval_failed (pod_error "getting" d) w)
      else got d (lookup d.name w.rest) w

  unfoldable pub delete_pre_backup_deployment : Deployment → Work → Work
  unfolding pre_backup_false
  delete_pre_backup_deployment d w =
      if k8s.delete_fails d.name
      then pre_backup_false api reason_deletion_failed "could not delete deployment" w
      else record w { rest = without d.name w.rest }

  unfoldable pub on_deployment : Deployment → Readiness → Started Work → Work → Started Work
  unfolding patch_conditions pre_backup_false delete_pre_backup_deployment
  on_deployment d ready rest w = rest
  on_deployment d waiting rest w = record { is_ready = false; has_error = false; state = w }
  on_deployment d (exceeded message) rest w =
      let failed = pre_backup_false api reason_failed message w in
      let told = patch_conditions api condition_true reason_failed message condition_ready failed in
      record { is_ready = false; has_error = true; state = delete_pre_backup_deployment d told }

  unfoldable pub all_deployments_are_ready : List Deployment → Work → Started Work
  unfolding on_deployment
  all_deployments_are_ready [] w = record { is_ready = true; has_error = false; state = w }
  all_deployments_are_ready (d ∷ ds) w =
      on_deployment d (is_pre_backup_deployment_ready d) (all_deployments_are_ready ds w) w

  -- The first loop of startAllPreBackupDeployments: Get writes what it finds into the template, so
  -- the loop answers the deployments as they are then.
  unfoldable pub fetch_all : List Deployment → Work → Option (List Deployment) × Work
  unfolding fetch_or_create_pre_backup_deployment add_fetched
  fetch_all [] w = (some [], w)
  fetch_all (d ∷ ds) w =
      let (o, w') = fetch_or_create_pre_backup_deployment d w in add_fetched o (fetch_all ds w') w'

  unfoldable pub on_fetched : Option (List Deployment) × Work → Started Work
  unfolding all_deployments_are_ready conclude
  on_fetched (none, w) = record { is_ready = false; has_error = true; state = w }
  on_fetched (some ds, w) = conclude api ds (all_deployments_are_ready ds w)

  unfoldable pub start_all_pre_backup_deployments : List Deployment → Work → Started Work
  unfolding fetch_all on_fetched
  start_all_pre_backup_deployments ds w = on_fetched (fetch_all ds w)

  unfoldable pub delete_all : List Deployment → Work → Work
  unfolding delete_pre_backup_deployment
  delete_all [] w = w
  delete_all (d ∷ ds) w = delete_all ds (delete_pre_backup_deployment d w)

  module _ (n : Naming) (selectors : Option (List L)) where
    unfoldable pub start_from : Option (List PreBackupPod) → Work → Started Work
    unfolding pre_backup_false pre_backup_true start_all_pre_backup_deployments generate_deployments
    start_from none w = record {
      is_ready = false;
      has_error = true;
      state =
          pre_backup_false api reason_retrieval_failed
            "error while retrieving container definitions" w;
    }
    start_from (some []) w = record {
      is_ready = true;
      has_error = false;
      state =
          pre_backup_true api reason_no_pre_backup_pods_found "no container definitions found" w;
    }
    start_from (some (p ∷ ps)) w =
        start_all_pre_backup_deployments (generate_deployments n w.object.namespace (p ∷ ps)) w

    unfoldable pub start_pre_backup : Work → Started Work
    unfolding start_from
    start_pre_backup w = start_from (fetch_pre_backup_pod_templates k8s selectors) w

    unfoldable pub stop_from : Option (List PreBackupPod) → Work → Work
    unfolding pre_backup_false pre_backup_true delete_all generate_deployments
    stop_from none w =
        pre_backup_false api reason_retrieval_failed "could not fetch pod templates" w
    stop_from (some []) w = pre_backup_true api reason_no_pre_backup_pods_found ready_message w
    stop_from (some (p ∷ ps)) w =
        pre_backup_true api reason_finished ready_message
          (delete_all (generate_deployments n w.object.namespace (p ∷ ps)) w)

    unfoldable pub stop_pre_backup_deployments : Work → Work
    unfolding stop_from
    stop_pre_backup_deployments w = stop_from (fetch_pre_backup_pod_templates k8s selectors) w
