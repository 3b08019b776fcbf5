-- ===== src/BackupRuns/Runs.antt =====
-- Which folders a backup runs restic for (restic/cli/backup.go).
use k8up.Prelude.{
  String, ◌≡◌, refl, ap, Bool, true, false, not, List, [], ◌∷◌, ◌++◌, before, first_with, to_list,
  is_some, concat, arith, if◌then◌else◌, Bool-cases, inl, inr,
}
use k8up.BackupRuns.{entries, backup_entries, backup}

-- The paths of the directories among the entries.
abbrev pub folders_of : String → List (String × Bool) → List String
folders_of dir [] = []
folders_of dir ((name, is_dir) ∷ es) =
    let rest = folders_of dir es in if is_dir then concat (dir ∷ "/" ∷ name ∷ []) ∷ rest else rest

module _ (fails : String → Bool) (dir : String) where
  -- The folders before the first for which it fails, and that one.
  abbrev pub until_failure : List String → List String
  until_failure folders = before fails folders ++ to_list (first_with fails folders)

  backup_entries_lem :
      (es : List (String × Bool))
      → let r = backup_entries fails dir es in
        (r.started ≡ until_failure (folders_of dir es))
        × (r.failed ≡ is_some (first_with fails (folders_of dir es)))
  unfolding backup_entries
  backup_entries_lem [] = (refl, refl)
  backup_entries_lem ((name, false) ∷ es) = backup_entries_lem es
  backup_entries_lem ((name, true) ∷ es) =
      let folder = concat (dir ∷ "/" ∷ name ∷ []) in
      let (s, f) = backup_entries_lem es in
      elim (Bool-cases (fails folder)) [
        | inl e ↦ rw e (refl, refl)
        | inr e ↦ rw e (ap (λ xs. folder ∷ xs) s, f)
      ]

  -- A backup of a directory that can be read runs restic for its folders in their order, for all before
  -- the first for which it fails and for that one, and for no other. It answers an error exactly if
  -- there is such a folder, and sends the list of snapshots exactly if there is none.
  pub backup_folders :
      (es : List (String × Bool))
      → let r = backup fails dir (entries es) in
        let failing = first_with fails (folders_of dir es) in
        (r.folders ≡ until_failure (folders_of dir es))
        × (r.has_error ≡ is_some failing)
        × (r.sends_list ≡ not (is_some failing))
  unfolding backup
  backup_folders es = let (s, f) = backup_entries_lem es in (s, f, ground (arith, f))
