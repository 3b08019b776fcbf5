-- ===== src/Snapshots/Examples.antt =====
-- A synchronisation that creates one object and deletes another one.
use k8up.Prelude.{String, ◌≡◌, refl, true, false, some, List, [], ◌∷◌, contains}
use k8up.Snapshots.{
  ResticSnapshot, Snapshot, Server, Synced, ids, sync_snapshot_list, create_and_delete, diff,
  filter_by_repo, filter_and_convert,
}
use k8up.Snapshots.Sync.{after, lists, sync_snapshot_list-agrees}

abbrev restic_snapshot : String → String → ResticSnapshot
restic_snapshot id host = record { id = id; time = 3; paths = "/data" ∷ []; hostname = host }

abbrev object : String → String → String → Snapshot
object name id repository = record {
  name = name;
  namespace = "ns";
  id = id;
  date = 1;
  paths = [];
  repository = repository;
}

abbrev in_restic : List ResticSnapshot
in_restic =
    restic_snapshot "aaaaaaaaaa" "ns"
    ∷ restic_snapshot "bbbbbbbbbb" "ns"
    ∷ restic_snapshot "cccccccccc" "other"
    ∷ []

abbrev in_cluster : List Snapshot
in_cluster =
    object "aaaaaaaa" "aaaaaaaaaa" "repo"
    ∷ object "dddddddd" "dddddddddd" "repo"
    ∷ object "eeeeeeee" "eeeeeeeeee" "elsewhere"
    ∷ []

abbrev willing : Server
willing = record { refuses_create = λ s. false; refuses_delete = λ s. false }

abbrev busy : Server
busy = record { refuses_create = λ s. true; refuses_delete = λ s. false }

sync_run :
    sync_snapshot_list willing (some in_cluster) in_restic "ns" "repo"
    ≡ some (record {
      created =
          record {
            name = "bbbbbbbb";
            namespace = "ns";
            id = "bbbbbbbbbb";
            date = 3;
            paths = "/data" ∷ [];
            repository = "repo";
          }
          ∷ [];
      deleted = object "dddddddd" "dddddddddd" "repo" ∷ [];
      failed = false;
    })
unfolding sync_snapshot_list create_and_delete diff filter_by_repo filter_and_convert
sync_run = refl

sync_snapshot_list-agrees_example :
    (sync : Synced) × (sync_snapshot_list willing (some in_cluster) in_restic "ns" "repo"
      ≡ some sync)
    × (sync.failed ≡ false)
    × (contains (ids (after (filter_by_repo in_cluster "repo") sync)) "bbbbbbbbbb"
        ≡ lists in_restic "ns" "bbbbbbbbbb")
sync_snapshot_list-agrees_example =
    sync_snapshot_list-agrees willing in_cluster in_restic "ns" "repo" "bbbbbbbbbb"
      (refl, (refl, (refl, tt))) (λ s. refl) (λ s. refl)

abbrev new : List Snapshot
new = object "bbbbbbbb" "bbbbbbbbbb" "repo" ∷ []
