-- ===== src/Claims.antt =====
-- Which claims a backup covers and on which node (listAndFilterPVCs and findNode of
-- operator/backupcontroller/executor.go). `T` stands for tolerations. What the client answers and
-- the decoding of a JSON list are arguments.
pub mod Mounted
pub mod Placement
mod Examples
use k8up.Prelude.{
  ℕ, String, Bool, true, false, not, ◌&&◌, ◌||◌, Option, none, some, List, [], ◌∷◌, lookup, insert,
  contains, str_eq, is_some, if◌then◌else◌,
}
use k8up.Grouping.{BackupItem}

-- corev1.Pod, with the names of the claims that its volumes mount.
pub record MountingPod (T : Type 0) : Type 0 where
  pub name : String
  pub phase : String
  pub claims : List String
  pub node_name : String
  pub tolerations : List T

-- corev1.PersistentVolumeClaim
pub record Claim : Type 0 where
  pub name : String
  pub phase : String
  pub annotations : List (String × String)
  pub access_modes : List String
  pub volume_name : String

-- corev1.NodeSelectorRequirement
pub record MatchExpression : Type 0 where
  pub key : String
  pub operator : String
  pub values : List String

-- corev1.PersistentVolume: the match expressions of the required terms, one after the other; `none`
-- where NodeAffinity or its Required is nil.
pub record Volume : Type 0 where
  pub required : Option (List MatchExpression)

pub record Settings : Type 0 where
  pub skip_without_annotation : Bool
  pub enable_relaxed_scheduling : Bool
  pub backup_restic_args_annotation : String

abbrev pub annotation_hostname : String
annotation_hostname = "k8up.io/hostname"

-- What the loop does with a claim.
pub data Verdict (T : Type 0) : Type 0 where
  skipped panicked : Verdict T
  chosen : BackupItem T → Verdict T

-- strconv.ParseBool, with `false` for an error.
abbrev pub parse_bool : String → Bool
parse_bool s = contains ("1" ∷ "t" ∷ "T" ∷ "TRUE" ∷ "true" ∷ "True" ∷ []) s

abbrev pub value_or_empty : Option String → String
value_or_empty none = ""
value_or_empty (some v) = v

-- matchExpr.Values[0]
abbrev pub first_value : List String → Option String
first_value [] = none
first_value (v ∷ vs) = some v

-- The loop of findNode; `none` stands for a panic.
abbrev pub find_hostname : List MatchExpression → String → Option String
find_hostname [] default = some default
find_hostname (m ∷ ms) default =
    let rest = find_hostname ms default in
    if str_eq m.key "kubernetes.io/hostname" && str_eq m.operator "In"
    then first_value m.values
    else rest

abbrev pub find_in : Option (List MatchExpression) → String → Option String
find_in none default = some default
find_in (some ms) default = find_hostname ms default

unfoldable pub find_node : Volume → Claim → Option String
find_node pv pvc = find_in pv.required (value_or_empty (lookup annotation_hostname pvc.annotations))

abbrev pub is_rwo : Claim → Bool
is_rwo pvc = contains pvc.access_modes "ReadWriteOnce"

-- The tests up to "Adding to list", of the backup annotation.
abbrev pub is_wanted : Settings → Claim → Option String → Bool
is_wanted cfg pvc none =
    (contains pvc.access_modes "ReadWriteMany" || is_rwo pvc) && not cfg.skip_without_annotation
is_wanted cfg pvc (some annotation) = parse_bool annotation

abbrev pub with_hostname : Option String → String → String
with_hostname none node = node
with_hostname (some hostname) node = hostname

-- The restic arguments, or `none` where they do not parse.
abbrev pub args_of : (String → Option (List String)) → Option String → Option (List String)
args_of parse_args none = some []
args_of parse_args (some annotation) = parse_args annotation

module _ {T : Type 0} where
  abbrev pub mount_all :
      MountingPod T → List String → List (String × MountingPod T) → List (String × MountingPod T)
  mount_all pod [] m = m
  mount_all pod (c ∷ cs) m = mount_all pod cs (insert c pod m)

  -- pvcPodMap
  unfoldable pub pvc_pod_map :
      List (MountingPod T) → List (String × MountingPod T) → List (String × MountingPod T)
  pvc_pod_map [] m = m
  pvc_pod_map (p ∷ ps) m =
      if not (str_eq p.phase "Running")
      then pvc_pod_map ps m
      else pvc_pod_map ps (mount_all p p.claims m)

  module _ (cfg : Settings) (parse_args : String → Option (List String))
      (get_volume : String → Option Volume) where
    abbrev pub item_on : Claim → List String → List T → String → String → Verdict T
    item_on pvc args tolerations target_pod node = chosen (record {
      volume = pvc.name;
      node = with_hostname (lookup annotation_hostname pvc.annotations) node;
      tolerations = tolerations;
      target_pod = target_pod;
      restic_args = args;
    })

    -- A claim whose volume is read for its node: skipped if Get fails.
    abbrev pub on_found_node : Claim → List String → Option String → Verdict T
    on_found_node pvc args none = panicked
    on_found_node pvc args (some node) = item_on pvc args [] "" node

    abbrev pub on_volume : Claim → List String → Option Volume → Verdict T
    on_volume pvc args none = skipped
    on_volume pvc args (some pv) = on_found_node pvc args (find_node pv pvc)

    -- The choice of the node, for a claim that a running pod mounts and for another one.
    abbrev pub place : Claim → List String → Option (MountingPod T) → Verdict T
    place pvc args (some pod) =
        item_on pvc args pod.tolerations pod.name
          (if is_rwo pvc || not cfg.enable_relaxed_scheduling then pod.node_name else "")
    place pvc args none =
        if not cfg.enable_relaxed_scheduling && is_rwo pvc
        then on_volume pvc args (get_volume pvc.volume_name)
        else item_on pvc args [] "" ""

    abbrev pub place_with : Claim → Option (List String) → Option (MountingPod T) → Verdict T
    place_with pvc none pod = skipped
    place_with pvc (some args) pod = place pvc args pod

    -- The body of the loop over the claims.
    unfoldable pub visit_claim : String → List (String × MountingPod T) → Claim → Verdict T
    unfolding find_node
    visit_claim annotation m pvc =
        if not (str_eq pvc.phase "Bound")
        then skipped
        else if not (is_wanted cfg pvc (lookup annotation pvc.annotations))
        then skipped
        else place_with pvc
            (args_of parse_args (lookup cfg.backup_restic_args_annotation pvc.annotations))
            (lookup pvc.name m)

    abbrev pub keep : Verdict T → Option (List (BackupItem T)) → Option (List (BackupItem T))
    keep skipped rest = rest
    keep panicked rest = none
    keep (chosen item) none = none
    keep (chosen item) (some items) = some (item ∷ items)

    unfoldable pub visit_claims :
        String → List (String × MountingPod T) → List Claim → Option (List (BackupItem T))
    visit_claims annotation m [] = some []
    visit_claims annotation m (pvc ∷ pvcs) =
        keep (visit_claim annotation m pvc) (visit_claims annotation m pvcs)

    -- listAndFilterPVCs, of the pods and the claims that the client lists: `none` stands for a panic.
    unfoldable pub list_and_filter_pvcs :
        String → List (MountingPod T) → List Claim → Option (List (BackupItem T))
    list_and_filter_pvcs annotation pods pvcs = visit_claims annotation (pvc_pod_map pods []) pvcs
