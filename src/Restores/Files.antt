-- ===== src/Restores/Files.antt =====
-- When a restore takes a snapshot to have a single file (restic/cli/restore.go).
use k8up.Prelude.{
  ℕ, suc, ◌+◌, ◌≤◌, String, ◌≡◌, ◌∙◌, Bool, true, false, not, ◌&&◌, ◌||◌, Option, none, some, List,
  [], ◌∷◌, All, anyb, str_eq, ◌==◌, arith, if◌then◌else◌, Option-cases, inl, inr, is_some,
}
use k8up.Restores.{FileNode, scan, split_lines, is_restore_single_file}

module _ (parse_node : String → Option FileNode) where
  abbrev has_kind : String → Option FileNode → Bool
  has_kind k none = false
  has_kind k (some n) = str_eq n.kind k

  -- Whether a line is that of a node of the kind. An empty line is skipped.
  abbrev pub is_node : String → String → Bool
  is_node k l = not (str_eq l "") && has_kind k (parse_node l)

  -- The number of files.
  pub files : List String → ℕ
  files [] = 0
  files (l ∷ ls) = (if is_node "file" l then 1 else 0) + files ls

  abbrev pub is_readable : String → Bool
  is_readable l = str_eq l "" || is_some (parse_node l)

  scan_lem :
      (n : ℕ) (ls : List String)
      → n ≤ 1
      → All (λ l. is_readable l ≡ true) ls
      → scan parse_node n ls ≡ some (not (anyb (is_node "dir") ls) && (n + files ls == 1))
  unfolding scan files
  scan_lem n [] h k = ground arith
  scan_lem n (l ∷ ls) h (r, k) =
      let counted : suc n ≤ 1
          → scan parse_node (suc n) ls
            ≡ some (not (anyb (is_node "dir") ls) && (suc n + files ls == 1)) =
        λ q. scan_lem (suc n) ls q k in
      elim (Option-cases (parse_node l)) [
        | inl e ↦
            let blank : (str_eq l "" || false) ≡ true = rw e at r in
            rw e (ground (arith, blank, scan_lem n ls h k))
        | inr (d, e) ↦ rw e (ground (arith, scan_lem n ls h k, counted))
      ]

  -- If restic lists a snapshot with its header first and every further line is empty or that of a
  -- node, the snapshot counts as a single file exactly if no node is a directory and one is a file.
  pub is_restore_single_file_lem :
      (is_snapshot : String → Bool) (output header : String) (ls : List String)
      → split_lines output ≡ header ∷ ls
      → is_snapshot header ≡ true
      → All (λ l. is_readable l ≡ true) ls
      → is_restore_single_file parse_node is_snapshot output
        ≡ some (not (anyb (is_node "dir") ls) && (files ls == 1))
  unfolding is_restore_single_file
  is_restore_single_file_lem is_snapshot output header ls e h k =
      rw (e, h) (scan_lem 0 ls (ground arith) k ∙ ground arith)
