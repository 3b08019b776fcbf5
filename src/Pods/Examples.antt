-- ===== src/Pods/Examples.antt =====
-- Pods of two owners and a pod that does not run.
use k8up.Prelude.{String, ◌≡◌, refl, false, some, List, [], ◌∷◌, map, filterb}
use k8up.Pods.{Pod, PodLister, pods, panicked, list_pods, collect}
use k8up.Pods.Choice.{asks, firsts, backup_of, list_pods_lem}

abbrev lister : PodLister
lister = record {
  backup_command_annotation = "k8up.io/backupcommand";
  backup_container_annotation = "k8up.io/backupcommand-container";
  file_extension_annotation = "k8up.io/file-extension";
  err = false;
  namespace = "ns";
  target_pods = [];
  skip_pre_backup = false;
}

abbrev pod : String → String → String → Pod
pod name phase owner = record {
  name = name;
  uid = name;
  phase = phase;
  annotations = ("k8up.io/backupcommand", "dump") ∷ ("k8up.io/file-extension", ".sql") ∷ [];
  containers = "main" ∷ [];
  owners = owner ∷ [];
}

abbrev some_pods : List Pod
some_pods = pod "db-0" "Running" "db" ∷ pod "db-1" "Running" "db" ∷ pod "old" "Failed" "job" ∷ []

list_pods_run :
    (list_pods lister (some some_pods)
      ≡ pods (
          record {
            command = "dump";
            pod_name = "db-0";
            container_name = "main";
            namespace = "ns";
            file_extension = ".sql";
          }
          ∷ []))
    × (list_pods lister (some (record (pod "x" "Failed" "y") { containers = [] } ∷ [])) ≡ panicked)
unfolding list_pods collect
list_pods_run = (refl, refl)

list_pods_lem_example :
    list_pods lister (some some_pods)
    ≡ pods (map (backup_of lister) (firsts (filterb (asks lister) some_pods)))
list_pods_lem_example = list_pods_lem lister some_pods refl refl (refl, (refl, (refl, tt)))
