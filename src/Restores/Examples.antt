-- ===== src/Restores/Examples.antt =====
-- Restores from a repository with three snapshots.
use k8up.Prelude.{
  String, ◌≡◌, refl, Bool, true, false, not, ◌&&◌, Option, none, some, List, [], ◌∷◌, All, anyb,
  before, str_eq, ◌⊎◌, ◌==◌, if◌then◌else◌,
}
use k8up.Retention.{apply_to_command}
use k8up.Restores
use k8up.Restores.{
  ListedSnapshot, FileNode, Host, FolderOptions, s3, archive, get_latest_snapshot, last_of,
  parse_path, split_lines, scan, is_restore_single_file, folder_restore, get_snapshot_root,
  first_with_id,
}
use k8up.Restores.Choice.{IsLastOf, matches, get_latest_snapshot-last}
use k8up.Restores.Files.{files, is_node, is_restore_single_file_lem}
use k8up.Restores.Archived.{has_no_path, archive_every}

abbrev snapshot : String → String → ListedSnapshot
snapshot id time = record {
  id = id;
  time_text = time;
  time_rfc3339 = time;
  paths = "/data/db" ∷ [];
  hostname = "shop";
}

abbrev first : ListedSnapshot
first = snapshot "aa11" "2024-01-01 10:00"

abbrev second : ListedSnapshot
second = snapshot "bb22" "2024-01-01 22:00"

abbrev third : ListedSnapshot
third = snapshot "cc33" "2024-01-02 10:00"

abbrev all : List ListedSnapshot
all = first ∷ second ∷ third ∷ []

-- By a short ID, by a day, by a day without snapshots, and without any of them.
choice_run :
    (get_latest_snapshot all "bb" "" ≡ some second)
    × (get_latest_snapshot all "" "2024-01-01" ≡ some second)
    × (get_latest_snapshot all "" "2023" ≡ some third)
    × (get_latest_snapshot all "" "" ≡ some third)
    × (get_latest_snapshot all "dd" "" ≡ none)
unfolding get_latest_snapshot Restores.last_matching last_of first_with_id
choice_run = (refl, refl, refl, refl, refl)

get_latest_snapshot-last_example :
    (t : ListedSnapshot) × (get_latest_snapshot all "" "2024-01-01" ≡ some t)
    × (IsLastOf (matches "2024-01-01") all t
        ⊎ (All (λ u. matches "2024-01-01" u ≡ false) all × (last_of all ≡ some t)))
get_latest_snapshot-last_example =
    get_latest_snapshot-last "2024-01-01" first (second ∷ third ∷ []) refl

-- A line is "d…" for a directory and "f…" for a file.
abbrev parse : String → Option FileNode
parse l =
    if str_eq l "d"
    then some (record { kind = "dir"; path = "/data" })
    else if str_eq l "f"
    then some (record { kind = "file"; path = "/data/dump.sql" })
    else none

abbrev is_header : String → Bool
is_header l = str_eq l "h"

single_run :
    (is_restore_single_file parse is_header "h\nf\n" ≡ some true)
    × (is_restore_single_file parse is_header "h\nf\nd\n" ≡ some false)
    × (is_restore_single_file parse is_header "h\nf\nf\n" ≡ some false)
    × (is_restore_single_file parse is_header "h\n" ≡ some false)
    × (is_restore_single_file parse is_header "" ≡ none)
unfolding is_restore_single_file split_lines scan
single_run = (refl, refl, refl, refl, refl)

is_restore_single_file_lem_example :
    is_restore_single_file parse is_header "h\nf\n"
    ≡ some (not (anyb (is_node parse "dir") ("f" ∷ "" ∷ [])) && (files parse ("f" ∷ "" ∷ []) == 1))
is_restore_single_file_lem_example =
    is_restore_single_file_lem parse is_header "h\nf\n" "h" ("f" ∷ "" ∷ [])
      (unfold split_lines in refl) refl (refl, (refl, tt))

abbrev options : FolderOptions
options = record { dir = "/restore"; filter = ""; delete = false; verify = true; trim_path = true }

folder_run :
    (folder_restore parse is_header [] options third "h\nd\n"
      ≡ some ("restore" ∷ "cc33:/data/db" ∷ "--target" ∷ "/restore" ∷ "--verify" ∷ []))
    × (folder_restore parse is_header [] options third "h\nf\n"
        ≡ some ("restore" ∷ "cc33" ∷ "--target" ∷ "/restore" ∷ "--verify" ∷ []))
    × (get_snapshot_root parse third "h\nf\n" ≡ some ("/data/dump.sql", some "data/dump.sql"))
unfolding folder_restore is_restore_single_file split_lines scan Restores.restored_snapshot
    Restores.restore_args apply_to_command get_snapshot_root Restores.extract_file_nodes
    Restores.files_of Restores.without_first_slash
folder_run = (refl, refl, refl)

abbrev host : Host
host = record {
  listing = λ tags paths. some (all, false);
  ls = λ s. "h\nf\n";
  parse_node = parse;
  is_snapshot = is_header;
  transfer_fails = λ s. false;
  webhook_fails = λ s. false;
}

-- The third snapshot has no path.
abbrev pathless : List ListedSnapshot
pathless = first ∷ second ∷ record third { paths = [] } ∷ []

abbrev pathless_host : Host
pathless_host = record host { listing = λ tags paths. some (pathless, false) }

archive_every_example :
    ((archive pathless_host [] s3 options "" [] [] []).has_error ≡ anyb has_no_path pathless)
    × ((archive pathless_host [] s3 options "" [] [] []).sent ≡ before has_no_path pathless)
archive_every_example =
    archive_every pathless_host [] options "" [] [] [] pathless pathless
      (record { transfers = λ s. refl; hooks = λ s. refl }) refl refl
      (unfold get_latest_snapshot first_with_id in (refl, (refl, (refl, tt))))

archive_run :
    (anyb has_no_path pathless ≡ true) × (before has_no_path pathless ≡ first ∷ second ∷ [])
unfolding parse_path last_of
archive_run = (refl, refl)
