-- ===== src/Claims/Mounted.antt =====
-- The map from claims to the running pods that mount them.
use k8up.Prelude.{
  String, ◌≡◌, refl, ◌∙◌, Bool, true, ◌&&◌, ◌||◌, some, List, [], ◌∷◌, lookup, insert,
  lookup-insert, contains, anyb, str_eq, eq_refl, is_some, if◌then◌else◌, arith, ◌⊎◌, inl, inr,
  Bool-cases,
}
use k8up.Claims.{MountingPod, mount_all, pvc_pod_map}

module _ {T : Type 0} where
  abbrev pub mounts : String → MountingPod T → Bool
  mounts k p = str_eq p.phase "Running" && contains p.claims k

  -- A running pod on the node mounts the claim.
  abbrev pub mounted_on : List (MountingPod T) → String → String → Bool
  mounted_on ps k node = anyb (λ (p : MountingPod T). mounts k p && str_eq p.node_name node) ps

  mount_all-lookup :
      (p : MountingPod T) (cs : List String) (m : List (String × MountingPod T)) (k : String)
      → lookup k (mount_all p cs m) ≡ (if contains cs k then some p else lookup k m)
  mount_all-lookup p [] m k = refl
  mount_all-lookup p (c ∷ cs) m k =
      mount_all-lookup p cs (insert c p m) k ∙ rw (lookup-insert c k p m) (ground arith)

  node_of_some : {p q : MountingPod T} → some p ≡ some q → p.node_name ≡ q.node_name
  node_of_some h = cc (h)

  -- The pod that the map holds for a claim is a running pod that mounts it.
  pub pvc_pod_map-mounted_on :
      (ps : List (MountingPod T)) (m : List (String × MountingPod T)) (k : String)
      (pod : MountingPod T)
      → lookup k (pvc_pod_map ps m) ≡ some pod
      → (mounted_on ps k pod.node_name ≡ true) ⊎ (lookup k m ≡ some pod)
  unfolding pvc_pod_map
  pvc_pod_map-mounted_on [] m k pod h = inr h
  pvc_pod_map-mounted_on (p ∷ ps) m k pod h = elim (Bool-cases (str_eq p.phase "Running")) [
    | inl runs ↦ elim (pvc_pod_map-mounted_on ps (mount_all p p.claims m) k pod (rw runs at h)) [
      | inl later ↦ inl (ground (arith, later))
      | inr from_map ↦ elim (Bool-cases (contains p.claims k)) [
        | inl there ↦
            let held : some p ≡ some pod =
              rw (mount_all-lookup p p.claims m k, there) at from_map in
            inl (rw (runs, there, node_of_some held) (rw (eq_refl pod.node_name) refl))
        | inr absent ↦ inr (rw (mount_all-lookup p p.claims m k, absent) at from_map)
      ]
    ]
    | inr idle ↦ elim (pvc_pod_map-mounted_on ps m k pod (rw idle at h)) [
      | inl later ↦ inl (ground (arith, later))
      | inr from_map ↦ inr from_map
    ]
  ]

  pub pvc_pod_map-is_some :
      (ps : List (MountingPod T)) (m : List (String × MountingPod T)) (k : String)
      → is_some (lookup k (pvc_pod_map ps m)) ≡ (anyb (mounts k) ps || is_some (lookup k m))
  unfolding pvc_pod_map
  pvc_pod_map-is_some [] m k = refl
  pvc_pod_map-is_some (p ∷ ps) m k = ground (
    arith,
    pvc_pod_map-is_some ps m k,
    pvc_pod_map-is_some ps (mount_all p p.claims m) k,
    mount_all-lookup p p.claims m k,
  )
