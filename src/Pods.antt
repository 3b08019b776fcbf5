-- ===== src/Pods.antt =====
-- The pods whose annotations ask for a backup command (restic/kubernetes/pod_list.go).
pub mod Choice
mod Examples
use k8up.Prelude.{
  ℕ, String, Bool, true, false, not, ◌&&◌, ◌||◌, Option, none, some, List, [], ◌∷◌, contains,
  lookup, str_eq, if◌then◌else◌,
}

-- corev1.Pod, the fields that are read; `containers` are the names of the containers and `owners` the
-- UIDs of the owner references.
pub record Pod : Type 0 where
  pub name : String
  pub uid : String
  pub phase : String
  pub annotations : List (String × String)
  pub containers : List String
  pub owners : List String

pub record BackupPod : Type 0 where
  pub command : String
  pub pod_name : String
  pub container_name : String
  pub namespace : String
  pub file_extension : String

-- The client and the logger are left out; `err` tells whether an error was kept.
pub record PodLister : Type 0 where
  pub backup_command_annotation : String
  pub backup_container_annotation : String
  pub file_extension_annotation : String
  pub err : Bool
  pub namespace : String
  pub target_pods : List String
  pub skip_pre_backup : Bool

-- What ListPods answers. It panics on a pod without containers.
pub data Listed : Type 0 where
  pods : List BackupPod → Listed
  failed panicked : Listed

abbrev pub is_empty : List String → Bool
is_empty [] = true
is_empty (s ∷ ss) = false

abbrev pub value_or : Option String → String → String
value_or none d = d
value_or (some v) d = v

abbrev pub first_owner_id : Pod → List String → String
first_owner_id p [] = p.uid
first_owner_id p (o ∷ os) = o

abbrev pub owner_of : Pod → String
owner_of p = first_owner_id p p.owners

abbrev pub is_target : PodLister → Pod → Bool
is_target l p = is_empty l.target_pods || contains l.target_pods p.name

abbrev pub backup_pod : PodLister → Pod → String → String → BackupPod
backup_pod l p container command = record {
  command = command;
  pod_name = p.name;
  container_name = value_or (lookup l.backup_container_annotation p.annotations) container;
  namespace = l.namespace;
  file_extension = value_or (lookup l.file_extension_annotation p.annotations) "";
}

abbrev pub prepend : BackupPod → Option (List BackupPod) → Option (List BackupPod)
prepend b none = none
prepend b (some bs) = some (b ∷ bs)

-- The end of the loop's body: `unseen` and `seen` are the rest of the loop, with and without the
-- pod's owner among the seen ones.
abbrev pub choose :
    PodLister
    → Pod
    → String
    → Bool
    → Option String
    → Option (List BackupPod)
    → Option (List BackupPod)
    → Option (List BackupPod)
choose l p container is_seen none unseen seen = seen
choose l p container is_seen (some command) unseen seen =
    if is_seen then seen else prepend (backup_pod l p container command) unseen

-- The container that the loop's body starts from is Containers[0].
abbrev pub visit :
    PodLister
    → Pod
    → List String
    → Bool
    → Option (List BackupPod)
    → Option (List BackupPod)
    → Option (List BackupPod)
visit l p [] is_seen unseen seen = none
visit l p (container ∷ cs) is_seen unseen seen =
    if not (str_eq p.phase "Running")
    then seen
    else if not (is_target l p)
    then seen
    else choose l p container is_seen (lookup l.backup_command_annotation p.annotations) unseen seen

-- The loop, with the owners seen so far; `none` stands for a panic.
unfoldable pub collect : PodLister → List String → List Pod → Option (List BackupPod)
collect l same_owner [] = some []
collect l same_owner (p ∷ ps) =
    let unseen = collect l (owner_of p ∷ same_owner) ps in
    let seen = collect l same_owner ps in
    visit l p p.containers (contains same_owner (owner_of p)) unseen seen

abbrev pub answer : Option (List BackupPod) → Listed
answer none = panicked
answer (some bs) = pods bs

abbrev pub from_list : PodLister → Option (List Pod) → Listed
from_list l none = failed
from_list l (some ps) = answer (collect l [] ps)

-- ListPods, of what List answers for the namespace, with `none` for an error.
unfoldable pub list_pods : PodLister → Option (List Pod) → Listed
list_pods l listed =
    if l.err then failed else if l.skip_pre_backup then pods [] else from_list l listed
