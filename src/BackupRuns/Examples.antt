-- ===== src/BackupRuns/Examples.antt =====
-- Backups of a directory with two folders and a file.
use k8up.Prelude.{
  String, ◌≡◌, refl, Bool, true, false, not, List, [], ◌∷◌, first_with, is_some, str_eq,
}
use k8up.Retention
use k8up.Snapshots.{Snapshot, Server, ResticSnapshot}
use k8up.BackupRuns
use k8up.BackupRuns.{
  BackupConfig, Mix, exclude, entries, backup, folder_backup_args, send_snapshot_list, iexclude,
}
use k8up.BackupRuns.Runs.{until_failure, folders_of, backup_folders}

abbrev mixes : Mix → List String
mixes exclude = "*.tmp" ∷ []
mixes _ = []

abbrev config : BackupConfig
config = record {
  mixes = mixes;
  exclude_caches = true;
  one_file_system = false;
  hostname = "shop";
  repository = "s3:http://minio/backups";
  skip_snapshot_sync = false;
}

abbrev data_dir : List (String × Bool)
data_dir = ("a", true) ∷ ("note.txt", false) ∷ ("b", true) ∷ []

args_run :
    folder_backup_args config (exclude ∷ iexclude ∷ []) [] ("nightly" ∷ []) "/data/a"
    ≡ "backup" ∷ "--host" ∷ "shop" ∷ "--json" ∷ "--exclude" ∷ "*.tmp" ∷ "--exclude-caches"
      ∷ "/data/a" ∷ "--tag" ∷ "nightly" ∷ []
unfolding folder_backup_args BackupRuns.mixin_backup_flags BackupRuns.mix_all BackupRuns.mix_flag
    Retention.combine Retention.apply_to_command Retention.expand
args_run = refl

abbrev fails_for_a : String → Bool
fails_for_a folder = str_eq folder "/data/a"

backup_run :
    ((backup fails_for_a "/data" (entries data_dir)).folders ≡ "/data/a" ∷ [])
    × ((backup (λ f. false) "/data" (entries data_dir)).folders ≡ "/data/a" ∷ "/data/b" ∷ [])
unfolding backup BackupRuns.backup_entries
backup_run = (refl, refl)

backup_folders_example :
    let r = backup fails_for_a "/data" (entries data_dir) in
    let failing = first_with fails_for_a (folders_of "/data" data_dir) in
    (r.folders ≡ until_failure fails_for_a "/data" (folders_of "/data" data_dir))
    × (r.has_error ≡ is_some failing)
    × (r.sends_list ≡ not (is_some failing))
backup_folders_example = backup_folders fails_for_a "/data" data_dir

abbrev object : Snapshot
object = record {
  name = "aabbccdd";
  namespace = "shop";
  id = "aabbccddeeff";
  date = 3;
  paths = "/data/a" ∷ [];
  repository = "s3:http://minio/backups";
}

abbrev willing : Server
willing = record { refuses_create = λ s. false; refuses_delete = λ s. false }

abbrev found : ResticSnapshot
found = record { id = "aabbccddeeff"; time = 3; paths = "/data/a" ∷ []; hostname = "shop" }
