-- ===== src/Restores/Archived.antt =====
-- What an archive restores (restic/cli/archive.go, snapshots.go, restore.go).
use k8up.Prelude.{
  String, ◌≡◌, refl, ap, Bool, false, not, is_some, anyb, before, some, Option-cases, inl, inr,
  List, [], ◌∷◌, All,
}
use k8up.Retention.{Flags}
use k8up.Restores.{
  ListedSnapshot, Host, FolderOptions, s3, restore, archive, archive_from, archive_one, on_s3,
  parse_path, after, run_restore, notify, on_latest, get_latest_snapshot, list_snapshots,
}

abbrev pub has_no_path : ListedSnapshot → Bool
has_no_path v = not (is_some (parse_path v.paths))

module _ (h : Host) (global : Flags) (o : FolderOptions) where
  -- No transfer to S3 and no call of the webhook fails.
  pub record IsWell : Type 0 where
    pub transfers : (s : ListedSnapshot) → h.transfer_fails s ≡ false
    pub hooks : (s : ListedSnapshot) → h.webhook_fails s ≡ false

  restored :
      (filter : String) (kept all : List ListedSnapshot) (v : ListedSnapshot) (name : String)
      → IsWell
      → h.listing [] [] ≡ some (all, false)
      → get_latest_snapshot all v.id filter ≡ some v
      → parse_path v.paths ≡ some name
      → archive_one h global s3 o filter v kept (parse_path v.paths)
        ≡ record { has_error = false; kept = all; commands = []; sent = v ∷ [] }
  unfolding archive_one restore list_snapshots on_latest run_restore on_s3 notify
  restored filter kept all v name w l e n = rw (n, l, e, n, w.transfers v, w.hooks v) refl

  archived :
      (filter : String) (all vs kept : List ListedSnapshot)
      → IsWell
      → h.listing [] [] ≡ some (all, false)
      → All (λ v. get_latest_snapshot all v.id filter ≡ some v) vs
      → ((archive_from h global s3 o filter vs kept).has_error ≡ anyb has_no_path vs)
        × ((archive_from h global s3 o filter vs kept).sent ≡ before has_no_path vs)
  unfolding archive_from after archive_one
  archived filter all [] kept w l k = (refl, refl)
  archived filter all (v ∷ vs) kept w l (e, k) = elim (Option-cases (parse_path v.paths)) [
    | inl n ↦ rw n (refl, refl)
    | inr (name, n) ↦
        let (f, t) = archived filter all vs all w l k in
        rw (restored filter kept all v name w l e n, n) (f, ap (λ xs. v ∷ xs) t)
  ]

  -- If both listings can be decoded and end well, no transfer and no webhook fails, and each listed
  -- snapshot is the one that its ID chooses in the whole repository, an archive to S3 restores the
  -- listed snapshots, in the order of the list and not only the latest ones, up to the first without a
  -- path. At that one it ends with an error, the panic of its empty list of paths; if there is none it
  -- has restored all and answers no error.
  pub archive_every :
      (filter : String) (tags paths : List String) (kept vs all : List ListedSnapshot)
      → IsWell
      → h.listing tags paths ≡ some (vs, false)
      → h.listing [] [] ≡ some (all, false)
      → All (λ v. get_latest_snapshot all v.id filter ≡ some v) vs
      → ((archive h global s3 o filter tags paths kept).has_error ≡ anyb has_no_path vs)
        × ((archive h global s3 o filter tags paths kept).sent ≡ before has_no_path vs)
  unfolding archive list_snapshots
  archive_every filter tags paths kept vs all w e l k = rw e (archived filter all vs vs w l k)
