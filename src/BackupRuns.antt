-- ===== src/BackupRuns.antt =====
-- A backup by the restic wrapper (restic/cli/backup.go, snapshots.go): the processes it runs, and the
-- list of snapshots that it sends to the cluster at the end. Whether a process ends well and what it
-- prints is a parameter. Statistics and webhooks, whose errors are only logged, are left out.
pub mod Runs
pub mod Lists
mod Examples
use k8up.Prelude.{
  String, Bool, true, false, Option, none, some, List, [], ◌∷◌, ◌++◌, concat, if◌then◌else◌,
}
use k8up.Retention.{Flags, pairs, combine, apply_to_command}
use k8up.Snapshots.{ResticSnapshot, Snapshot, Server, Synced, sync_snapshot_list}

-- The lists of the configuration that become flags, in the map toMix.
pub data Mix : Type 0 where
  exclude exclude_file exclude_if_present files_from files_from_raw files_from_verbatim : Mix
  iexclude iexclude_file : Mix

pub mix_flag : Mix → String
mix_flag exclude = "--exclude"
mix_flag exclude_file = "--exclude-file"
mix_flag exclude_if_present = "--exclude-if-present"
mix_flag files_from = "--files-from"
mix_flag files_from_raw = "--files-from-raw"
mix_flag files_from_verbatim = "--files-from-verbatim"
mix_flag iexclude = "--iexclude"
mix_flag iexclude_file = "--iexclude-file"

pub record BackupConfig : Type 0 where
  pub mixes : Mix → List String
  pub exclude_caches : Bool
  pub one_file_system : Bool
  pub hostname : String
  pub repository : String
  pub skip_snapshot_sync : Bool

abbrev mix_one : String → List String → Flags → Flags
mix_one key [] flags = flags
mix_one key (v ∷ vs) flags = combine flags ((key, v ∷ vs) ∷ [])

-- The loop over toMix, in the order in which Go iterates over it.
pub mix_all : BackupConfig → List Mix → Flags → Flags
unfolding mix_flag
mix_all c [] flags = flags
mix_all c (k ∷ ks) flags = mix_all c ks (mix_one (mix_flag k) (c.mixes k) flags)

unfoldable pub mixin_backup_flags : BackupConfig → List Mix → Flags → Flags
unfolding mix_all
mixin_backup_flags c order flags =
    let mixed = mix_all c order flags in
    let caches =
      if c.exclude_caches then combine mixed (("--exclude-caches", []) ∷ []) else mixed in
    if c.one_file_system then combine caches (("--one-file-system", []) ∷ []) else caches

-- The arguments of the process that folderBackup runs through triggerBackup.
unfoldable pub folder_backup_args :
    BackupConfig → List Mix → Flags → List String → String → List String
unfolding mixin_backup_flags
folder_backup_args c order global tags dir =
    let flags = combine global (("--host", c.hostname ∷ []) ∷ ("--json", []) ∷ []) in
    apply_to_command (mixin_backup_flags c order flags) "backup" (dir ∷ []) ++ pairs "--tag" tags

-- What the backup directory holds: `missing_dir` where it does not exist.
pub data BackupDir : Type 0 where
  missing_dir unreadable_dir : BackupDir
  entries : List (String × Bool) → BackupDir

-- The processes that were started, and whether one of them failed.
pub record FolderRuns : Type 0 where
  pub started : List String
  pub failed : Bool

-- The loop over the entries, of which the second part tells the directories. path.Join of two clean
-- names.
unfoldable pub backup_entries : (String → Bool) → String → List (String × Bool) → FolderRuns
backup_entries fails dir [] = record { started = []; failed = false }
backup_entries fails dir ((name, is_dir) ∷ es) =
    let rest = backup_entries fails dir es in
    let folder = concat (dir ∷ "/" ∷ name ∷ []) in
    if is_dir
    then (if fails folder
        then record { started = folder ∷ []; failed = true }
        else record { started = folder ∷ rest.started; failed = rest.failed })
    else rest

abbrev pub kept_snapshots : Option (List ResticSnapshot) → List ResticSnapshot → List ResticSnapshot
kept_snapshots none kept = kept
kept_snapshots (some snapshots) kept = snapshots

-- sendSnapshotList: `listing` is what `restic snapshots` prints, `none` where it cannot be decoded.
-- The error is only logged, and the snapshots that the wrapper holds are synchronised: `none` where
-- that is skipped.
unfoldable pub send_snapshot_list :
    BackupConfig
    → Option (List ResticSnapshot)
    → Server
    → Option (List Snapshot)
    → List ResticSnapshot
    → Option (Option Synced)
send_snapshot_list c listing server listed kept =
    if c.skip_snapshot_sync
    then none
    else some
        (sync_snapshot_list server listed (kept_snapshots listing kept) c.hostname c.repository)

-- Backup: the folders whose process was started, whether it answers an error, and whether it sent the
-- list of snapshots.
pub record BackupRun : Type 0 where
  pub folders : List String
  pub has_error : Bool
  pub sends_list : Bool

abbrev ended : FolderRuns → BackupRun
ended r = record {
  folders = r.started;
  has_error = r.failed;
  sends_list = if r.failed then false else true;
}

unfoldable pub backup : (String → Bool) → String → BackupDir → BackupRun
unfolding backup_entries
backup fails dir missing_dir = record { folders = []; has_error = false; sends_list = true }
backup fails dir unreadable_dir = record { folders = []; has_error = true; sends_list = false }
backup fails dir (entries es) = ended (backup_entries fails dir es)
