-- ===== src/BackupRuns/Lists.antt =====
-- What a backup synchronises at its end (restic/cli/backup.go, restic/kubernetes/snapshots.go).
use k8up.Prelude.{String, ◌≡◌, refl, false, Option, some, List, All, contains}
use k8up.Snapshots.{ResticSnapshot, Snapshot, Server, Synced, filter_by_repo, ids}
use k8up.Snapshots.Sync.{sync_snapshot_list-agrees, Sliceable, lists, after}
use k8up.BackupRuns.{BackupConfig, send_snapshot_list, kept_snapshots}

-- If the synchronisation is not skipped, the API server answers List and refuses no request, and the
-- ID of every snapshot is long enough, the list of snapshots that is sent makes the repository have a
-- Snapshot object with an ID exactly if the list that restic printed has it for the hostname, or,
-- where that list could not be decoded, the list that the wrapper held before.
pub send_snapshot_list-agrees :
    (c : BackupConfig) (listing : Option (List ResticSnapshot)) (server : Server)
    (listed : List Snapshot) (kept : List ResticSnapshot) (id : String)
    → c.skip_snapshot_sync ≡ false
    → All Sliceable (kept_snapshots listing kept)
    → ((s : Snapshot) → server.refuses_create s ≡ false)
    → ((s : Snapshot) → server.refuses_delete s ≡ false)
    → (sync : Synced) × (send_snapshot_list c listing server (some listed) kept ≡ some (some sync))
      × (sync.failed ≡ false)
      × (contains (ids (after (filter_by_repo listed c.repository) sync)) id
          ≡ lists (kept_snapshots listing kept) c.hostname id)
unfolding send_snapshot_list
send_snapshot_list-agrees c listing server listed kept id skip h cr d =
    let (sync, there, fine, same) =
      sync_snapshot_list-agrees server listed (kept_snapshots listing kept) c.hostname c.repository
        id h cr d in
    (sync, rw (skip, there) refl, fine, same)
