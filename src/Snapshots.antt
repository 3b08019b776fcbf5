-- ===== src/Snapshots.antt =====
-- The synchronisation of the Snapshot objects in the cluster with the snapshots of a repository
-- (restic/kubernetes/snapshots.go). The API server is a function that tells which requests it
-- refuses. The ID and the repository of a listed Snapshot are taken to be set.
pub mod Sync
mod Examples
use text.Mathlib.Text.{get?}
use k8up.Prelude.{
  ℕ, String, Bool, true, false, not, Option, none, some, List, [], ◌∷◌, contains, map, filterb,
  str_eq, if◌then◌else◌,
}

-- dto.Snapshot, the fields that are read.
pub record ResticSnapshot : Type 0 where
  pub id : String
  pub time : ℕ
  pub paths : List String
  pub hostname : String

-- k8upv1.Snapshot
pub record Snapshot : Type 0 where
  pub name : String
  pub namespace : String
  pub id : String
  pub date : ℕ
  pub paths : List String
  pub repository : String

abbrev pub prepend : Snapshot → Option (List Snapshot) → Option (List Snapshot)
prepend s none = none
prepend s (some ss) = some (s ∷ ss)

abbrev pub convert : ResticSnapshot → String → String → String → Snapshot
convert r name namespace repository = record {
  name = name;
  namespace = namespace;
  id = r.id;
  date = r.time;
  paths = r.paths;
  repository = repository;
}

-- The name is the slice ID[:8]; `none` stands for the panic where the ID is shorter.
abbrev pub convert_one :
    ResticSnapshot
    → Option String
    → String
    → String
    → Option (List Snapshot)
    → Option (List Snapshot)
convert_one r none namespace repository rest = none
convert_one r (some name) namespace repository rest =
    prepend (convert r name namespace repository) rest

unfoldable pub filter_and_convert : List ResticSnapshot → String → String → Option (List Snapshot)
filter_and_convert [] namespace repository = some []
filter_and_convert (r ∷ rs) namespace repository =
    let rest = filter_and_convert rs namespace repository in
    if not (str_eq r.hostname namespace)
    then rest
    else convert_one r (get? r.id 0 8) namespace repository rest

unfoldable pub filter_by_repo : List Snapshot → String → List Snapshot
filter_by_repo ss repo = filterb (λ s. str_eq s.repository repo) ss

abbrev pub ids : List Snapshot → List String
ids ss = map (λ (s : Snapshot). s.id) ss

-- The snapshots that the function was called with, and whether a call failed.
unfoldable pub diff : List Snapshot → List String → (Snapshot → Bool) → List Snapshot × Bool
diff [] known refuses = ([], false)
diff (s ∷ ss) known refuses =
    let (rest, failed) = diff ss known refuses in
    if contains known s.id
    then (rest, failed)
    else if refuses s
    then (s ∷ [], true)
    else (s ∷ rest, failed)

-- The API server: which creations and deletions it refuses.
pub record Server : Type 0 where
  pub refuses_create : Snapshot → Bool
  pub refuses_delete : Snapshot → Bool

-- The requests of a synchronisation, and whether it answers an error.
pub record Synced : Type 0 where
  pub created : List Snapshot
  pub deleted : List Snapshot
  pub failed : Bool

-- createNewSnapshots, and deleteOldSnapshots if it succeeded.
unfoldable pub create_and_delete : Server → List Snapshot → List Snapshot → Synced
create_and_delete server new old =
    let (created, create_failed) = diff new (ids old) server.refuses_create in
    let (deleted, delete_failed) = diff old (ids new) server.refuses_delete in
    if create_failed
    then record { created = created; deleted = []; failed = true }
    else record { created = created; deleted = deleted; failed = delete_failed }

abbrev pub sync_with :
    Server → Option (List Snapshot) → Option (List Snapshot) → String → Option Synced
sync_with server listed none repository = none
sync_with server none (some new) repository =
    some (record { created = []; deleted = []; failed = true })
sync_with server (some old) (some new) repository =
    some (create_and_delete server new (filter_by_repo old repository))

-- SyncSnapshotList, of what List answers for the namespace (`none` for an error, also of the client's
-- creation). The result is `none` where it panics.
unfoldable pub sync_snapshot_list :
    Server → Option (List Snapshot) → List ResticSnapshot → String → String → Option Synced
sync_snapshot_list server listed rs namespace repository =
    sync_with server listed (filter_and_convert rs namespace repository) repository
