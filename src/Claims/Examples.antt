-- ===== src/Claims/Examples.antt =====
-- A claim that a running pod mounts, one that nothing mounts, and one that is opted out.
use k8up.Prelude.{
  ℕ, String, ◌≡◌, refl, true, false, Option, some, List, [], ◌∷◌, All, anyb, is_some,
}
use k8up.Grouping.{BackupItem}
use k8up.Claims.{
  MountingPod, Claim, Volume, Settings, find_node, list_and_filter_pvcs, pvc_pod_map, visit_claim,
  visit_claims,
}
use k8up.Claims.Placement.{is_right, list_and_filter_pvcs_right}

abbrev settings : Settings
settings = record {
  skip_without_annotation = false;
  enable_relaxed_scheduling = false;
  backup_restic_args_annotation = "k8up.io/restic-args";
}

abbrev parse_one : String → Option (List String)
parse_one s = some (s ∷ [])

abbrev host_volume : Volume
host_volume = record {
  required =
      some
        (record { key = "kubernetes.io/hostname"; operator = "In"; values = "node-7" ∷ [] } ∷ []);
}

abbrev get_volume : String → Option Volume
get_volume name = some host_volume

abbrev claim : String → List (String × String) → Claim
claim name annotations = record {
  name = name;
  phase = "Bound";
  annotations = annotations;
  access_modes = "ReadWriteOnce" ∷ [];
  volume_name = name;
}

abbrev claims : List Claim
claims = claim "data" [] ∷ claim "idle" [] ∷ claim "scratch" (("k8up.io/backup", "false") ∷ []) ∷ []

abbrev running : List (MountingPod ℕ)
running =
    record {
      name = "db";
      phase = "Running";
      claims = "data" ∷ [];
      node_name = "node-1";
      tolerations = [];
    }
    ∷ []

abbrev item : String → String → String → BackupItem ℕ
item volume node pod = record {
  volume = volume;
  node = node;
  tolerations = [];
  target_pod = pod;
  restic_args = [];
}

claims_run :
    list_and_filter_pvcs settings parse_one get_volume "k8up.io/backup" running claims
    ≡ some (item "data" "node-1" "db" ∷ item "idle" "node-7" "" ∷ [])
unfolding list_and_filter_pvcs visit_claims visit_claim pvc_pod_map find_node
claims_run = refl

has_node :
    (name : String) (pv : Volume) (pvc : Claim)
    → get_volume name ≡ some pv
    → is_some (find_node pv pvc) ≡ true
unfolding find_node
has_node name pv pvc h = let same : host_volume ≡ pv = cc (h) in rw (← same) refl

list_and_filter_pvcs_right_example :
    (items : List (BackupItem ℕ)) × (list_and_filter_pvcs settings parse_one get_volume
        "k8up.io/backup" running claims
      ≡ some items)
    × All (λ i. anyb (is_right settings "k8up.io/backup" running i) claims ≡ true) items
list_and_filter_pvcs_right_example =
    list_and_filter_pvcs_right settings parse_one get_volume "k8up.io/backup" running has_node
      claims
