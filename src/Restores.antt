-- ===== src/Restores.antt =====
-- Restores and archives by the restic wrapper (restic/cli/restore.go, snapshots.go, archive.go). What
-- a restic process prints, and whether it ended well, is a parameter; so are the decoder of a line of
-- `restic ls` and the texts of a snapshot's time. The index of an empty list of paths panics in Go,
-- and is the error of its own here.
pub mod Choice
pub mod Files
pub mod Archived
mod Examples
use Prim.Native.Char.{code}
use Prim.Native.String
use k8up.Prelude.{
  ℕ, suc, String, Bool, true, false, not, ◌&&◌, ◌||◌, Option, none, some, List, [], ◌∷◌, ◌++◌, ◌==◌,
  leb, str_eq, starts_with, concat, if◌then◌else◌,
}
use k8up.Retention.{Flags, pairs, apply_to_command}

-- dto.Snapshot, with what its time prints as.
pub record ListedSnapshot : Type 0 where
  pub id : String
  pub time_text : String
  pub time_rfc3339 : String
  pub paths : List String
  pub hostname : String

-- fileNode, the fields that decide something.
pub record FileNode : Type 0 where
  pub kind : String
  pub path : String

-- The last snapshot whose time begins with the filter.
unfoldable pub last_matching : String → List ListedSnapshot → Option ListedSnapshot
last_matching filter [] = none
last_matching filter (s ∷ ss) = elim (last_matching filter ss) [
  | some t ↦ some t
  | none ↦ if starts_with s.time_text filter then some s else none
]

unfoldable pub last_of {ℓ} : {A : Type ℓ} → List A → Option A
last_of [] = none
last_of (x ∷ []) = some x
last_of (x ∷ (y ∷ xs)) = last_of (y ∷ xs)

unfoldable pub first_with_id : String → List ListedSnapshot → Option ListedSnapshot
first_with_id id [] = none
first_with_id id (s ∷ ss) = if starts_with s.id id then some s else first_with_id id ss

abbrev pub or_last : Option ListedSnapshot → Option ListedSnapshot → Option ListedSnapshot
or_last (some s) last = some s
or_last none last = last

-- getLatestSnapshot; `none` is an error.
unfoldable pub get_latest_snapshot : List ListedSnapshot → String → String → Option ListedSnapshot
unfolding last_matching last_of first_with_id
get_latest_snapshot snapshots id filter =
    if str_eq id ""
    then (if str_eq filter ""
        then last_of snapshots
        else or_last (last_matching filter snapshots) (last_of snapshots))
    else first_with_id id snapshots

-- strings.Split(s, "\n")
unfoldable pub split_lines : String → List String
split_lines String.[] = "" ∷ []
split_lines (String.◌∷◌ c s) = elim (split_lines s) [
  | [] ↦ []
  | l ∷ ls ↦ if code c == 10 then "" ∷ (l ∷ ls) else String.◌∷◌ c l ∷ ls
]

module _ (parse_node : String → Option FileNode) where
  -- The loop of isRestoreSingleFile over the lines after the first; `none` is an error.
  unfoldable pub scan : ℕ → List String → Option Bool
  scan count [] = some (count == 1)
  scan count (l ∷ ls) =
      let next = scan count ls in
      let counted = scan (suc count) ls in
      if str_eq l "" then next else elim (parse_node l) [
        | none ↦ none
        | some n ↦
            if str_eq n.kind "dir"
            then some false
            else if str_eq n.kind "file"
            then (if leb 2 (suc count) then some false else counted)
            else (if leb 2 count then some false else next)
      ]

  abbrev after_header : (String → Bool) → List String → Option Bool
  after_header is_snapshot [] = none
  after_header is_snapshot (l ∷ ls) = if is_snapshot l then scan 0 ls else none

  -- isRestoreSingleFile on what `restic ls --json` printed.
  unfoldable pub is_restore_single_file : (String → Bool) → String → Option Bool
  unfolding scan split_lines
  is_restore_single_file is_snapshot output = after_header is_snapshot (split_lines output)

pub record FolderOptions : Type 0 where
  pub dir : String
  pub filter : String
  pub delete : Bool
  pub verify : Bool
  pub trim_path : Bool

abbrev flag_if : Bool → List String → List String
flag_if b args = if b then args else []

abbrev trimmed : ListedSnapshot → List String → Option String
trimmed s [] = none
trimmed s (p ∷ ps) = some (concat (s.id ∷ ":" ∷ p ∷ []))

-- The snapshot that `restic restore` is given: with its first path, unless it has a single file.
unfoldable pub restored_snapshot : ListedSnapshot → Bool → Bool → Option String
restored_snapshot s single trim_path =
    if not single && trim_path then trimmed s s.paths else some s.id

unfoldable pub restore_args : Flags → FolderOptions → String → List String
restore_args global o snap = apply_to_command global "restore" (
    snap
    ∷ ("--target"
        ∷ (o.dir
            ∷ (flag_if (not (str_eq o.filter "")) ("--include" ∷ o.filter ∷ [])
                ++ (flag_if o.verify ("--verify" ∷ []) ++ flag_if o.delete ("--delete" ∷ []))))))

abbrev map_args : Flags → FolderOptions → Option String → Option (List String)
map_args global o none = none
map_args global o (some snap) = some (restore_args global o snap)

abbrev with_single : Flags → FolderOptions → ListedSnapshot → Option Bool → Option (List String)
with_single global o s none = none
with_single global o s (some single) = map_args global o (restored_snapshot s single o.trim_path)

-- folderRestore: the arguments of the `restic restore` that it runs, `none` for an error or a panic.
-- How that process ends is not looked at.
unfoldable pub folder_restore :
    (String → Option FileNode)
    → (String → Bool)
    → Flags
    → FolderOptions
    → ListedSnapshot
    → String
    → Option (List String)
unfolding is_restore_single_file restored_snapshot restore_args
folder_restore parse_node is_snapshot global o s listing =
    with_single global o s (is_restore_single_file parse_node is_snapshot listing)

-- extractFileNodes: the files of a listing, whose number, last one and paths are answered.
abbrev as_file : Option FileNode → List FileNode → List FileNode
as_file none rest = rest
as_file (some n) rest = if str_eq n.kind "file" then n ∷ rest else rest

unfoldable pub files_of : (String → Option FileNode) → List String → List FileNode
files_of parse_node [] = []
files_of parse_node (l ∷ ls) = as_file (parse_node l) (files_of parse_node ls)

unfoldable pub extract_file_nodes : (String → Option FileNode) → String → List FileNode
unfolding files_of split_lines
extract_file_nodes parse_node output = files_of parse_node (split_lines output)

-- strings.Replace(s, "/", "", 1), the name in the tar header.
unfoldable pub without_first_slash : String → String
without_first_slash String.[] = ""
without_first_slash (String.◌∷◌ c s) =
    let rest = without_first_slash s in if code c == b'/' then s else String.◌∷◌ c rest

abbrev root_of : List FileNode → List String → Option (String × Option String)
root_of (n ∷ []) paths = some (n.path, some (without_first_slash n.path))
root_of _ paths = elim (last_of paths) [ none ↦ none | some p ↦ some (p, none) ]

-- getSnapshotRoot: the path to dump and the name in the tar header, if there is one.
unfoldable pub get_snapshot_root :
    (String → Option FileNode) → ListedSnapshot → String → Option (String × Option String)
unfolding extract_file_nodes last_of without_first_slash
get_snapshot_root parse_node s listing = root_of (extract_file_nodes parse_node listing) s.paths

-- What the process of `restic snapshots` prints: `none` where it cannot be decoded, and with the
-- snapshots whether it ended with an error.
abbrev pub Listing : Type 0
Listing = Option (List ListedSnapshot × Bool)

-- listSnapshots, for Snapshots and LastSnapshots alike, which ignores whether only the latest are
-- wanted: its arguments, and its error with the snapshots that are then kept.
unfoldable pub list_snapshots_args : Flags → List String → List String → Bool → List String
list_snapshots_args global tags paths last =
    apply_to_command global "snapshots" ("--json" ∷ [])
    ++ (pairs "--tag" tags ++ pairs "--path" paths)

unfoldable pub list_snapshots : Listing → List ListedSnapshot → Bool × List ListedSnapshot
list_snapshots none kept = (true, kept)
list_snapshots (some (snapshots, failed)) kept = (failed, snapshots)

-- parsePath, of which only the log and the name of the uploaded file are made: the last path, `none` for
-- the panic. path.Base of it is left out.
unfoldable pub parse_path : List String → Option String
unfolding last_of
parse_path paths = last_of paths

pub data RestoreType : Type 0 where
  folder s3 unknown : RestoreType

-- What the processes of a restore print and whether the transfer to S3 and the webhook fail.
pub record Host : Type 0 where
  pub listing : List String → List String → Listing
  pub ls : ListedSnapshot → String
  pub parse_node : String → Option FileNode
  pub is_snapshot : String → Bool
  pub transfer_fails : ListedSnapshot → Bool
  pub webhook_fails : ListedSnapshot → Bool

-- A run: whether it answers an error, the snapshots that are kept, the arguments of `restic restore`,
-- and the snapshots whose restore was sent to the webhook.
pub record RestoreRun : Type 0 where
  pub has_error : Bool
  pub kept : List ListedSnapshot
  pub commands : List (List String)
  pub sent : List ListedSnapshot

abbrev pub failed_run : List ListedSnapshot → RestoreRun
failed_run kept = record { has_error = true; kept = kept; commands = []; sent = [] }

module _ (h : Host) (global : Flags) (kind : RestoreType) (o : FolderOptions) where
  -- SendWebhook, after a restore without error.
  notify : ListedSnapshot → List ListedSnapshot → List (List String) → RestoreRun
  notify s kept commands = record {
    has_error = h.webhook_fails s;
    kept = kept;
    commands = commands;
    sent = if h.webhook_fails s then [] else s ∷ [];
  }

  on_folder : ListedSnapshot → List ListedSnapshot → Option (List String) → RestoreRun
  unfolding notify
  on_folder s kept none = failed_run kept
  on_folder s kept (some args) = notify s kept (args ∷ [])

  -- s3Restore, which panics for a snapshot without paths, and the webhook after it.
  on_s3 : ListedSnapshot → List ListedSnapshot → Option String → RestoreRun
  unfolding notify
  on_s3 s kept none = failed_run kept
  on_s3 s kept (some name) = if h.transfer_fails s then failed_run kept else notify s kept []

  -- The switch on the type of the restore.
  pub run_restore : RestoreType → ListedSnapshot → List ListedSnapshot → RestoreRun
  unfolding notify on_folder on_s3 folder_restore parse_path
  run_restore folder s kept =
      on_folder s kept (folder_restore h.parse_node h.is_snapshot global o s (h.ls s))
  run_restore s3 s kept = on_s3 s kept (parse_path s.paths)
  run_restore unknown s kept = failed_run kept

  on_latest : Option ListedSnapshot → List ListedSnapshot → RestoreRun
  unfolding run_restore
  on_latest none kept = failed_run kept
  on_latest (some s) kept = run_restore kind s kept

  -- Restore
  unfoldable pub restore :
      String → String → List String → List String → List ListedSnapshot → RestoreRun
  unfolding list_snapshots get_latest_snapshot on_latest
  restore id filter tags paths kept =
      let (failed, snapshots) = list_snapshots (h.listing tags paths) kept in
      if failed
      then failed_run snapshots
      else on_latest (get_latest_snapshot snapshots id filter) snapshots

  after : RestoreRun → RestoreRun → RestoreRun
  after first next = if first.has_error then first else record {
    has_error = next.has_error;
    kept = next.kept;
    commands = first.commands ++ next.commands;
    sent = first.sent ++ next.sent;
  }

  -- A round of the loop of Archive, which panics first for a snapshot without paths.
  archive_one : String → ListedSnapshot → List ListedSnapshot → Option String → RestoreRun
  unfolding restore
  archive_one filter v kept none = failed_run kept
  archive_one filter v kept (some name) = restore v.id filter [] [] kept

  -- The loop of Archive.
  unfoldable pub archive_from : String → List ListedSnapshot → List ListedSnapshot → RestoreRun
  unfolding restore after archive_one parse_path
  archive_from filter [] kept = record { has_error = false; kept = kept; commands = []; sent = [] }
  archive_from filter (v ∷ vs) kept =
      let first = archive_one filter v kept (parse_path v.paths) in
      after first (archive_from filter vs first.kept)

  -- Archive, which logs an error of the listing and goes on.
  unfoldable pub archive : String → List String → List String → List ListedSnapshot → RestoreRun
  unfolding list_snapshots archive_from
  archive filter tags paths kept =
      let (failed, snapshots) = list_snapshots (h.listing tags paths) kept in
      archive_from filter snapshots snapshots
