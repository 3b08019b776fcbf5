-- ===== src/PreBackup/Verdict.antt =====
-- What starting the pre-backup deployments answers, and what it leaves in the backup's conditions
-- (operator/backupcontroller/prebackup.go).
use k8up.Prelude.{
  String, ◌≡◌, refl, ◌∙◌, Bool, true, false, Option, none, some, List, [], ◌∷◌, Bool-cases, inl,
  inr, ◌⊎◌, contains, lookup, arith,
}
use k8up.Status.{
  ConditionApi, has_failed_pre_backup, is_waiting_for_pre_backup, reason_failed,
  reason_retrieval_failed, reason_creation_failed, reason_deletion_failed, reason_succeeded,
  reason_waiting, reason_no_pre_backup_pods_found, reason_ready, set_condition, condition_ready,
  condition_true, ConditionStatus,
}
use k8up.PreBackup.{
  ApiServer, Deployment, Naming, Started, Readiness, ready, waiting, exceeded, PreBackupPod,
  fetch_pre_backup_pod_templates, generate_deployments,
}
use k8up.PreBackup.Running.{
  pod_error, ready_message, waiting_message, Work, patch_conditions, pre_backup_false,
  pre_backup_true, pre_backup_unknown, got, fetch_or_create_pre_backup_deployment,
  delete_pre_backup_deployment, on_deployment, all_deployments_are_ready, conclude, add_fetched,
  fetch_all, on_fetched, start_all_pre_backup_deployments, start_from, start_pre_backup,
}

-- The reasons with which K8up says that the pre-backup has not failed.
abbrev fine : String → Bool
fine r =
    contains
      (reason_succeeded ∷ reason_waiting ∷ reason_no_pre_backup_pods_found ∷ reason_ready ∷ []) r

module _ (api : ConditionApi) where
  abbrev pub failed_in : Work → Bool
  failed_in w = has_failed_pre_backup api w.object.status

  abbrev pub waits_in : Work → Bool
  waits_in w = is_waiting_for_pre_backup api w.object.status

  pub false_fails :
      (r m : String) (w : Work) → fine r ≡ false → failed_in (pre_backup_false api r m w) ≡ true
  unfolding pre_backup_false patch_conditions has_failed_pre_backup set_condition
  false_fails r m w h = simp api.find-set (ground arith)

  pub true_holds : (r m : String) (w : Work) → failed_in (pre_backup_true api r m w) ≡ false
  unfolding pre_backup_true patch_conditions has_failed_pre_backup set_condition
  true_holds r m w = simp api.find-set (ground arith)

  unknown_waits :
      (m : String) (w : Work) → waits_in (pre_backup_unknown api reason_waiting m w) ≡ true
  unfolding pre_backup_unknown patch_conditions is_waiting_for_pre_backup set_condition
  unknown_waits m w = simp api.find-set refl

  other_condition :
      (st : ConditionStatus) (r m : String) (w : Work)
      → failed_in (patch_conditions api st r m condition_ready w) ≡ failed_in w
  unfolding patch_conditions has_failed_pre_backup set_condition
  other_condition st r m w = simp api.find-set refl

  -- An error leaves the pre-backup failed.
  abbrev ErrorFails : Started Work → Type 0
  ErrorFails r =
      (r.has_error ≡ true → failed_in r.state ≡ true) × (r.is_ready ≡ true → r.has_error ≡ false)

  -- What a start answers and the condition that it leaves: with an error the pre-backup has failed;
  -- if it is ready there is no error and it has not failed; and if it is neither, it waits or has
  -- failed.
  pub record IsTold (r : Started Work) : Type 0 where
    pub on_error : r.has_error ≡ true → failed_in r.state ≡ true
    pub on_ready : r.is_ready ≡ true → (r.has_error ≡ false) × (failed_in r.state ≡ false)
    pub on_wait :
        r.is_ready ≡ false
        → r.has_error ≡ false
        → (waits_in r.state ≡ true) ⊎ (failed_in r.state ≡ true)

module _ {ℓ} {L : Type ℓ} (api : ConditionApi) (k8s : ApiServer L) where
  deleting_failed :
      (d : Deployment) (w : Work)
      → failed_in api w ≡ true
      → failed_in api (delete_pre_backup_deployment api k8s d w) ≡ true
  unfolding delete_pre_backup_deployment
  deleting_failed d w h = elim (Bool-cases (k8s.delete_fails d.name)) [
    | inl e ↦ rw e (false_fails api reason_deletion_failed _ w refl)
    | inr e ↦ rw e h
  ]

  on_deployment-ErrorFails :
      (d : Deployment) (x : Readiness) (rest : Started Work) (w : Work)
      → ErrorFails api rest
      → ErrorFails api (on_deployment api k8s d x rest w)
  unfolding on_deployment
  on_deployment-ErrorFails d ready rest w h = h
  on_deployment-ErrorFails d waiting rest w h = (λ e. cc, λ e. refl)
  on_deployment-ErrorFails d (exceeded m) rest w h = (
    λ e.
        let failed = pre_backup_false api reason_failed m w in
        deleting_failed d
          (patch_conditions api condition_true reason_failed m condition_ready failed)
          (other_condition api condition_true reason_failed m failed
            ∙ false_fails api reason_failed m w refl),
    λ e. cc,
  )

  all_deployments-ErrorFails :
      (ds : List Deployment) (w : Work) → ErrorFails api (all_deployments_are_ready api k8s ds w)
  unfolding all_deployments_are_ready
  all_deployments-ErrorFails [] w = (λ e. cc, λ e. refl)
  all_deployments-ErrorFails (d ∷ ds) w =
      on_deployment-ErrorFails d _ _ w (all_deployments-ErrorFails ds w)

  conclude-IsTold :
      (ds : List Deployment) (r : Started Work) → ErrorFails api r → IsTold api (conclude api ds r)
  unfolding conclude
  conclude-IsTold ds r h = elim (Bool-cases r.has_error) [
    | inl e ↦ rw e (record { on_error = λ x. cc; on_ready = λ x. cc; on_wait = λ x y. inr (h.0 e) })
    | inr e ↦ elim (Bool-cases r.is_ready) [
      | inl t ↦
          rw (e, t)
            (record {
              on_error = λ x. cc;
              on_ready = λ x. (refl, true_holds api reason_ready ready_message r.state);
              on_wait = λ x y. absurd (cc);
            })
      | inr t ↦
          rw (e, t)
            (record {
              on_error = λ x. cc;
              on_ready = λ x. cc;
              on_wait = λ x y. inl (unknown_waits api (waiting_message ds) r.state);
            })
    ]
  ]

  got_failed :
      (d : Deployment) (o : Option Deployment) (w : Work)
      → (got api k8s d o w).0 ≡ none
      → failed_in api (got api k8s d o w).1 ≡ true
  unfolding got
  got_failed d (some e) w h = cc
  got_failed d none w h = elim (Bool-cases (k8s.create_fails d.name)) [
    | inl e ↦ rw e (false_fails api reason_creation_failed (pod_error "creating" d) w refl)
    | inr e ↦ cc (rw e at h)
  ]

  add_fetched-failed :
      (o : Option Deployment) (rest : Option (List Deployment) × Work) (w : Work)
      → (o ≡ none → failed_in api w ≡ true)
      → (rest.0 ≡ none → failed_in api rest.1 ≡ true)
      → (add_fetched o rest w).0 ≡ none
      → failed_in api (add_fetched o rest w).1 ≡ true
  unfolding add_fetched
  add_fetched-failed none rest w h k e = h refl
  add_fetched-failed (some d) (none, w') w h k e = k refl
  add_fetched-failed (some d) (some ds, w') w h k e = cc

  fetching_failed :
      (d : Deployment) (w : Work)
      → (fetch_or_create_pre_backup_deployment api k8s d w).0 ≡ none
      → failed_in api (fetch_or_create_pre_backup_deployment api k8s d w).1 ≡ true
  unfolding fetch_or_create_pre_backup_deployment
  fetching_failed d w h = elim (Bool-cases (k8s.get_fails d.name)) [
    | inl e ↦ rw e (false_fails api reason_retrieval_failed (pod_error "getting" d) w refl)
    | inr e ↦ rw e (got_failed d (lookup d.name w.rest) w (rw e at h))
  ]

  fetch_all_failed :
      (ds : List Deployment) (w : Work)
      → (fetch_all api k8s ds w).0 ≡ none
      → failed_in api (fetch_all api k8s ds w).1 ≡ true
  unfolding fetch_all
  fetch_all_failed [] w h = cc
  fetch_all_failed (d ∷ ds) w h =
      let f = fetch_or_create_pre_backup_deployment api k8s d w in
      add_fetched-failed f.0 (fetch_all api k8s ds f.1) f.1 (fetching_failed d w)
        (fetch_all_failed ds f.1) h

  on_fetched-IsTold :
      (f : Option (List Deployment) × Work)
      → (f.0 ≡ none → failed_in api f.1 ≡ true)
      → IsTold api (on_fetched api k8s f)
  unfolding on_fetched
  on_fetched-IsTold (none, w) h = record {
    on_error = λ e. h refl;
    on_ready = λ e. cc;
    on_wait = λ e x. cc;
  }
  on_fetched-IsTold (some ds, w) h = conclude-IsTold ds _ (all_deployments-ErrorFails ds w)

  start_from-IsTold :
      (n : Naming) (selectors : Option (List L)) (t : Option (List PreBackupPod)) (w : Work)
      → IsTold api (start_from api k8s n selectors t w)
  unfolding start_from start_all_pre_backup_deployments
  start_from-IsTold n selectors none w = record {
    on_error = λ e.
        false_fails api reason_retrieval_failed "error while retrieving container definitions" w
          refl;
    on_ready = λ e. cc;
    on_wait = λ e x. cc;
  }
  start_from-IsTold n selectors (some []) w = record {
    on_error = λ e. cc;
    on_ready = λ e.
        (refl, true_holds api reason_no_pre_backup_pods_found "no container definitions found" w);
    on_wait = λ e x. cc;
  }
  start_from-IsTold n selectors (some (p ∷ ps)) w =
      on_fetched-IsTold _ (fetch_all_failed (generate_deployments n w.object.namespace (p ∷ ps)) w)

  -- Whatever the API server answers, StartPreBackup tells the truth in the condition of the
  -- pre-backup pods: with an error the pre-backup has failed; if it is ready there is no error and
  -- the pre-backup has not failed; and if it is neither, it waits or has failed.
  pub start_pre_backup-IsTold :
      (n : Naming) (selectors : Option (List L)) (w : Work)
      → IsTold api (start_pre_backup api k8s n selectors w)
  unfolding start_pre_backup
  start_pre_backup-IsTold n selectors w =
      start_from-IsTold n selectors (fetch_pre_backup_pod_templates k8s selectors) w
