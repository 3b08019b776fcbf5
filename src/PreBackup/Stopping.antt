-- ===== src/PreBackup/Stopping.antt =====
-- What stopping the pre-backup deployments removes, and what it says (operator/backupcontroller/prebackup.go).
use k8up.Prelude.{
  String, ◌≡◌, refl, ◌∙◌, Bool, true, false, not, ◌&&◌, Option, none, some, List, [], ◌∷◌, map,
  anyb, lookup, lookup-without, str_eq, eq_iff, arith, if◌then◌else◌,
}
use k8up.Status.{
  ConditionApi, Condition, condition_pre_backup_pod_ready, condition_true, reason_finished,
  set_condition,
}
use k8up.PreBackup.{
  ApiServer, Deployment, Naming, PreBackupPod, deployment_of, generate_deployments,
  fetch_pre_backup_pod_templates,
}
use k8up.PreBackup.Running.{
  Work, patch_conditions, pre_backup_false, pre_backup_true, delete_pre_backup_deployment,
  delete_all, stop_from, stop_pre_backup_deployments, ready_message,
}

abbrev pub templates_of : Option (List PreBackupPod) → List PreBackupPod
templates_of none = []
templates_of (some ps) = ps

abbrev pub finished : Condition
finished = record {
  kind = condition_pre_backup_pod_ready;
  status = condition_true;
  reason = reason_finished;
  message = ready_message;
}

-- One of the pre-backup pods has the name, and its deletion is not refused.
abbrev pub is_removed {ℓ} : {L : Type ℓ} → ApiServer L → String → List PreBackupPod → Bool
is_removed k8s k ps = anyb (λ p. str_eq p.name k && not (k8s.delete_fails p.name)) ps

module _ {ℓ} {L : Type ℓ} (api : ConditionApi) (k8s : ApiServer L) where
  delete_one :
      (d : Deployment) (w : Work) (k : String)
      → lookup k (delete_pre_backup_deployment api k8s d w).rest
        ≡ (if str_eq d.name k && not (k8s.delete_fails d.name) then none else lookup k w.rest)
  unfolding delete_pre_backup_deployment pre_backup_false patch_conditions
  delete_one d w k = ground (arith, lookup-without d.name k w.rest)

  delete_all-lookup :
      (n : Naming) (namespace : String) (ps : List PreBackupPod) (w : Work) (k : String)
      → lookup k (delete_all api k8s (map (deployment_of n namespace) ps) w).rest
        ≡ (if is_removed k8s k ps then none else lookup k w.rest)
  unfolding delete_all deployment_of
  delete_all-lookup n namespace [] w k = refl
  delete_all-lookup n namespace (p ∷ ps) w k =
      let d = deployment_of n namespace p in
      ground (
        arith,
        delete_all-lookup n namespace ps (delete_pre_backup_deployment api k8s d w) k,
        delete_one d w k,
      )

  stop_from-lookup :
      (n : Naming) (selectors : Option (List L)) (t : Option (List PreBackupPod)) (w : Work)
      (k : String)
      → lookup k (stop_from api k8s n selectors t w).rest
        ≡ (if is_removed k8s k (templates_of t) then none else lookup k w.rest)
  unfolding stop_from pre_backup_false pre_backup_true patch_conditions generate_deployments
  stop_from-lookup n selectors none w k = refl
  stop_from-lookup n selectors (some []) w k = refl
  stop_from-lookup n selectors (some (p ∷ ps)) w k =
      delete_all-lookup n w.object.namespace (p ∷ ps) w k

  -- Whatever the API server refuses, StopPreBackupDeployments removes exactly the deployments that
  -- have the name of a pre-backup pod it finds and whose deletion is not refused; every other
  -- deployment stays as it was.
  pub stop_pre_backup_deployments-lookup :
      (n : Naming) (selectors : Option (List L)) (w : Work) (k : String)
      → lookup k (stop_pre_backup_deployments api k8s n selectors w).rest ≡ (
          if is_removed k8s k (templates_of (fetch_pre_backup_pod_templates k8s selectors))
          then none
          else lookup k w.rest)
  unfolding stop_pre_backup_deployments
  stop_pre_backup_deployments-lookup n selectors w k =
      stop_from-lookup n selectors (fetch_pre_backup_pod_templates k8s selectors) w k

  stop_from-finished :
      (n : Naming) (selectors : Option (List L)) (p : PreBackupPod) (ps : List PreBackupPod)
      (w : Work)
      → api.find
          (stop_from api k8s n selectors (some (p ∷ ps)) w).object.status.conditions
          condition_pre_backup_pod_ready
        ≡ some finished
  unfolding stop_from pre_backup_true patch_conditions set_condition
  stop_from-finished n selectors p ps w = simp api.find-set refl

  refused_stays :
      (k : String) (ps : List PreBackupPod)
      → k8s.delete_fails k ≡ true
      → is_removed k8s k ps ≡ false
  refused_stays k [] h = refl
  refused_stays k (p ∷ ps) h =
      let same : str_eq p.name k ≡ true → k8s.delete_fails p.name ≡ true =
        λ e. rw ((eq_iff p.name k).0 e) h in
      ground (arith, refused_stays k ps h, same)

  -- If the API server refuses to delete the deployment of a pre-backup pod, it stays, and yet the
  -- condition says at the end that the pre-backup pods have finished.
  pub stop_hides_refusal :
      (n : Naming) (selectors : Option (List L)) (p : PreBackupPod) (ps : List PreBackupPod)
      (w : Work) (k : String)
      → fetch_pre_backup_pod_templates k8s selectors ≡ some (p ∷ ps)
      → k8s.delete_fails k ≡ true
      → let w' = stop_pre_backup_deployments api k8s n selectors w in
        (lookup k w'.rest ≡ lookup k w.rest)
        × (api.find w'.object.status.conditions condition_pre_backup_pod_ready ≡ some finished)
  unfolding stop_pre_backup_deployments
  stop_hides_refusal n selectors p ps w k f h = rw f (
    stop_from-lookup n selectors (some (p ∷ ps)) w k ∙ rw (refused_stays k (p ∷ ps) h) refl,
    stop_from-finished n selectors p ps w,
  )
