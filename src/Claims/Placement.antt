-- ===== src/Claims/Placement.antt =====
-- The items of a backup: which claims they stand for, and where the pods run that mount them.
use k8up.Prelude.{
  String, ◌≡◌, ◌≢◌, refl, Bool, true, false, not, ◌&&◌, ◌||◌, Option, none, some, List, [], ◌∷◌,
  lookup, anyb, All, All-map, str_eq, eq_refl, is_some, if◌then◌else◌, arith, ◌⊎◌, inl, inr,
  Bool-cases, Option-cases,
}
use k8up.Grouping.{BackupItem}
use k8up.Claims.{
  MountingPod, Claim, Volume, Settings, Verdict, skipped, panicked, chosen, annotation_hostname,
  find_node, is_rwo, is_wanted, args_of, pvc_pod_map, visit_claim, visit_claims,
  list_and_filter_pvcs, item_on, place, with_hostname,
}
use k8up.Claims.Mounted.{mounts, mounted_on, pvc_pod_map-mounted_on, pvc_pod_map-is_some}

module _ {T : Type 0} where
  Verdict-cases :
      (v : Verdict T)
      → (v ≡ skipped) ⊎ ((v ≡ panicked) ⊎ ((item : BackupItem T) × (v ≡ chosen item)))
  Verdict-cases skipped = inl refl
  Verdict-cases panicked = inr (inl refl)
  Verdict-cases (chosen item) = inr (inr (item, refl))

  -- An item is right for a claim: the claim has its name, is bound and wanted, and if its volume may
  -- be mounted by one node only, has no hostname annotation and is mounted by running pods, the
  -- item's node is the node of one of them.
  abbrev pub is_right : Settings → String → List (MountingPod T) → BackupItem T → Claim → Bool
  is_right cfg annotation ps item pvc =
      str_eq item.volume pvc.name
      && str_eq pvc.phase "Bound"
      && is_wanted cfg pvc (lookup annotation pvc.annotations)
      && (not (is_rwo pvc)
          || is_some (lookup annotation_hostname pvc.annotations)
          || not (anyb (mounts pvc.name) ps)
          || mounted_on ps pvc.name item.node)

  module _ (cfg : Settings) (parse_args : String → Option (List String))
      (get_volume : String → Option Volume) (annotation : String) (ps : List (MountingPod T)) where
    item_on-chosen :
        (pvc : Claim) (args : List String) (tolerations : List T) (target node : String)
        (item : BackupItem T)
        → item_on cfg parse_args get_volume pvc args tolerations target node ≡ chosen item
        → (item.volume ≡ pvc.name)
          × (item.node ≡ with_hostname (lookup annotation_hostname pvc.annotations) node)
    item_on-chosen pvc args tolerations target node item h = (cc (h), cc (h))

    place_unmounted :
        (pvc : Claim) (args : List String) (item : BackupItem T)
        → place cfg parse_args get_volume pvc args none ≡ chosen item
        → item.volume ≡ pvc.name
    place_unmounted pvc args item h =
        elim (Bool-cases (not cfg.enable_relaxed_scheduling && is_rwo pvc)) [
          | inr free ↦ (item_on-chosen pvc args [] "" "" item (rw free at h)).0
          | inl pinned ↦ elim (Option-cases (get_volume pvc.volume_name)) [
            | inl e ↦ absurd (cc (rw (pinned, e) at h))
            | inr (pv, e) ↦ elim (Option-cases (find_node pv pvc)) [
              | inl e' ↦ absurd (cc (rw (pinned, e, e') at h))
              | inr (node, e') ↦
                  (item_on-chosen pvc args [] "" node item (rw (pinned, e, e') at h)).0
            ]
          ]
        ]

    place_right :
        (pvc : Claim) (args : List String) (item : BackupItem T)
        → str_eq pvc.phase "Bound" ≡ true
        → is_wanted cfg pvc (lookup annotation pvc.annotations) ≡ true
        → place cfg parse_args get_volume pvc args (lookup pvc.name (pvc_pod_map ps []))
          ≡ chosen item
        → is_right cfg annotation ps item pvc ≡ true
    place_right pvc args item bound wanted h =
        elim (Option-cases (lookup pvc.name (pvc_pod_map ps []))) [
          | inl e ↦
              let name = place_unmounted pvc args item (rw e at h) in
              let unmounted : false ≡ (anyb (mounts pvc.name) ps || false) =
                rw e at (pvc_pod_map-is_some ps [] pvc.name) in
              rw (name, bound, wanted, eq_refl pvc.name) (ground (arith, unmounted))
          | inr (pod, e) ↦
              let (name, node) =
                item_on-chosen pvc args pod.tolerations pod.name
                  (if is_rwo pvc || not cfg.enable_relaxed_scheduling then pod.node_name else "")
                  item (rw e at h) in
              let mounted : mounted_on ps pvc.name pod.node_name ≡ true =
                elim (pvc_pod_map-mounted_on ps [] pvc.name pod e) [
                  | inl on ↦ on
                  | inr absent ↦ absurd (cc (absent))
                ] in
              rw (name, node, bound, wanted, eq_refl pvc.name)
                (elim (Option-cases (lookup annotation_hostname pvc.annotations)) [
                  | inl no_name ↦ rw no_name (ground (arith, mounted))
                  | inr (hostname, has_name) ↦ rw has_name (ground arith)
                ])
        ]

    visit_claim_right :
        (pvc : Claim) (item : BackupItem T)
        → visit_claim cfg parse_args get_volume annotation (pvc_pod_map ps []) pvc ≡ chosen item
        → is_right cfg annotation ps item pvc ≡ true
    unfolding visit_claim
    visit_claim_right pvc item h = elim (Bool-cases (str_eq pvc.phase "Bound")) [
      | inr unbound ↦ absurd (cc (rw unbound at h))
      | inl bound ↦ elim (Bool-cases (is_wanted cfg pvc (lookup annotation pvc.annotations))) [
        | inr unwanted ↦ absurd (cc (rw (bound, unwanted) at h))
        | inl wanted ↦
            elim (Option-cases
              (args_of parse_args (lookup cfg.backup_restic_args_annotation pvc.annotations))) [
                | inl e ↦ absurd (cc (rw (bound, wanted, e) at h))
                | inr (args, e) ↦
                    place_right pvc args item bound wanted (rw (bound, wanted, e) at h)
              ]
      ]
    ]

    place_no_panic :
        ((name : String) (pv : Volume) (pvc : Claim)
          → get_volume name ≡ some pv
          → is_some (find_node pv pvc) ≡ true)
        → (pvc : Claim) (args : List String) (pod : Option (MountingPod T))
        → place cfg parse_args get_volume pvc args pod ≢ panicked
    place_no_panic fine pvc args (some pod) h = cc (h)
    place_no_panic fine pvc args none h =
        elim (Bool-cases (not cfg.enable_relaxed_scheduling && is_rwo pvc)) [
          | inr free ↦ cc (rw free at h)
          | inl pinned ↦ elim (Option-cases (get_volume pvc.volume_name)) [
            | inl e ↦ cc (rw (pinned, e) at h)
            | inr (pv, e) ↦ elim (Option-cases (find_node pv pvc)) [
              | inl e' ↦ cc (rw e' at (fine pvc.volume_name pv pvc e))
              | inr (node, e') ↦ cc (rw (pinned, e, e') at h)
            ]
          ]
        ]

    visit_claim_no_panic :
        ((name : String) (pv : Volume) (pvc : Claim)
          → get_volume name ≡ some pv
          → is_some (find_node pv pvc) ≡ true)
        → (pvc : Claim)
        → visit_claim cfg parse_args get_volume annotation (pvc_pod_map ps []) pvc ≢ panicked
    unfolding visit_claim
    visit_claim_no_panic fine pvc h = elim (Bool-cases (str_eq pvc.phase "Bound")) [
      | inr unbound ↦ cc (rw unbound at h)
      | inl bound ↦ elim (Bool-cases (is_wanted cfg pvc (lookup annotation pvc.annotations))) [
        | inr unwanted ↦ cc (rw (bound, unwanted) at h)
        | inl wanted ↦
            elim (Option-cases
              (args_of parse_args (lookup cfg.backup_restic_args_annotation pvc.annotations))) [
                | inl e ↦ cc (rw (bound, wanted, e) at h)
                | inr (args, e) ↦
                    place_no_panic fine pvc args (lookup pvc.name (pvc_pod_map ps []))
                      (rw (bound, wanted, e) at h)
              ]
      ]
    ]

    abbrev IsRightFor : List Claim → BackupItem T → Type 0
    IsRightFor pvcs item = anyb (is_right cfg annotation ps item) pvcs ≡ true

    visit_claims_right :
        ((name : String) (pv : Volume) (pvc : Claim)
          → get_volume name ≡ some pv
          → is_some (find_node pv pvc) ≡ true)
        → (pvcs : List Claim)
        → (items : List (BackupItem T)) × (visit_claims cfg parse_args get_volume annotation
              (pvc_pod_map ps [])
              pvcs
            ≡ some items)
          × All (IsRightFor pvcs) items
    unfolding visit_claims
    visit_claims_right fine [] = ([], refl, tt)
    visit_claims_right fine (pvc ∷ pvcs) =
        let (items, there, right) = visit_claims_right fine pvcs in
        let right' : All (IsRightFor (pvc ∷ pvcs)) items =
          All-map (λ item r. ground (arith, r)) items right in
        elim (Verdict-cases
          (visit_claim cfg parse_args get_volume annotation (pvc_pod_map ps []) pvc)) [
            | inl skip ↦ (items, rw (skip, there) refl, right')
            | inr (inl panic) ↦ absurd (visit_claim_no_panic fine pvc panic)
            | inr (inr (item, e)) ↦ (
              item ∷ items,
              rw (e, there) refl,
              (ground (arith, visit_claim_right pvc item e), right'),
            )
          ]

    -- If the hostname expressions of the volumes that the client finds have a value, the listing does
    -- not panic, and every item it answers is right for one of the claims: the claim has the item's
    -- name, is bound and wanted, and if its volume may be mounted by one node only, has no hostname
    -- annotation and is mounted by running pods, the item's node is the node of one of them.
    pub list_and_filter_pvcs_right :
        ((name : String) (pv : Volume) (pvc : Claim)
          → get_volume name ≡ some pv
          → is_some (find_node pv pvc) ≡ true)
        → (pvcs : List Claim)
        → (items : List (BackupItem T)) × (list_and_filter_pvcs cfg parse_args get_volume annotation
              ps pvcs
            ≡ some items)
          × All (λ item. anyb (is_right cfg annotation ps item) pvcs ≡ true) items
    unfolding list_and_filter_pvcs
    list_and_filter_pvcs_right fine pvcs = visit_claims_right fine pvcs
