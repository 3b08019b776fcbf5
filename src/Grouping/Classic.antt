-- ===== src/Grouping/Classic.antt =====
-- Classic scheduling: the jobs against the list of items.
use mathlib.Core.List.{append-nil, append_assoc}
use k8up.Prelude.{
  ℕ, suc, String, ◌≡◌, refl, sym, ◌∙◌, Bool, false, Option, none, some, List, [], ◌∷◌, ◌++◌, lookup,
  insert, lookup-insert, str_eq, eq_iff, filterb, Bool-cases, inl, inr,
}
use k8up.Grouping.{
  BackupItem, JobItem, unless_empty, classic_key, job_or_new, add_claim, group_classic, group_items,
}

-- The first of two.
abbrev either :
    Option (String × List String) → Option (String × List String) → Option (String × List String)
either none y = y
either (some x) y = some x

either-none : (x : Option (String × List String)) → x ≡ either x none
either-none none = refl
either-none (some x) = refl

module _ {T : Type 0} (backup_name : String) where
  abbrev pub has_key : String → BackupItem T → Bool
  has_key k item = str_eq (classic_key backup_name item) k

  abbrev pub volumes_of : Option (JobItem T) → List String
  volumes_of none = []
  volumes_of (some j) = j.volumes

  abbrev pub pods_of : Option (JobItem T) → List String
  pods_of none = []
  pods_of (some j) = j.target_pods

  abbrev pub gather : (BackupItem T → List String) → List (BackupItem T) → List String
  gather f [] = []
  gather f (item ∷ items) = f item ++ gather f items

  -- The node and the arguments of the first item.
  abbrev pub first_of : List (BackupItem T) → Option (String × List String)
  first_of [] = none
  first_of (item ∷ items) = some (item.node, item.restic_args)

  abbrev pub node_and_args : Option (JobItem T) → Option (String × List String)
  node_and_args none = none
  node_and_args (some j) = some (j.job.node, j.restic_args)

  abbrev added : ℕ → BackupItem T → Option (JobItem T) → JobItem T
  added index item j = add_claim backup_name item (job_or_new backup_name j index item)

  added-volumes :
      (index : ℕ) (item : BackupItem T) (j : Option (JobItem T))
      → volumes_of (some (added index item j)) ≡ volumes_of j ++ item.volume ∷ []
  added-volumes index item none = refl
  added-volumes index item (some j) = refl

  added-pods :
      (index : ℕ) (item : BackupItem T) (j : Option (JobItem T))
      → pods_of (some (added index item j)) ≡ pods_of j ++ unless_empty item.target_pod
  added-pods index item none = refl
  added-pods index item (some j) = refl

  -- What the items add to a job can be read off the items with its key.
  group_classic-gather :
      (view : Option (JobItem T) → List String) (part : BackupItem T → List String)
      → ((index : ℕ) (item : BackupItem T) (j : Option (JobItem T))
          → view (some (added index item j)) ≡ view j ++ part item)
      → (k : String) (index : ℕ) (items : List (BackupItem T)) (jobs : List (String × JobItem T))
      → view (lookup k (group_classic backup_name index items jobs))
        ≡ view (lookup k jobs) ++ gather part (filterb (has_key k) items)
  unfolding group_classic
  group_classic-gather view part h k index [] jobs = sym (append-nil (view (lookup k jobs)))
  group_classic-gather view part h k index (item ∷ items) jobs =
      let key = classic_key backup_name item in
      let j = added index item (lookup key jobs) in
      group_classic-gather view part h k (suc index) items (insert key j jobs)
      ∙ elim (Bool-cases (has_key k item)) [
        | inl here ↦
            let same : key ≡ k = (eq_iff key k).0 here in
            rw (lookup-insert key k j jobs, here, h index item (lookup key jobs), same)
              (append_assoc (view (lookup k jobs)) (part item)
                (gather part (filterb (has_key k) items)))
        | inr other ↦ rw (lookup-insert key k j jobs, other) refl
      ]

  added-node_and_args :
      (index : ℕ) (item : BackupItem T) (j : Option (JobItem T))
      → node_and_args (some (added index item j))
        ≡ either (node_and_args j) (some (item.node, item.restic_args))
  added-node_and_args index item none = refl
  added-node_and_args index item (some j) = refl

  group_classic-first :
      (k : String) (index : ℕ) (items : List (BackupItem T)) (jobs : List (String × JobItem T))
      → node_and_args (lookup k (group_classic backup_name index items jobs))
        ≡ either (node_and_args (lookup k jobs)) (first_of (filterb (has_key k) items))
  unfolding group_classic
  group_classic-first k index [] jobs = either-none (node_and_args (lookup k jobs))
  group_classic-first k index (item ∷ items) jobs =
      let key = classic_key backup_name item in
      let j = added index item (lookup key jobs) in
      group_classic-first k (suc index) items (insert key j jobs)
      ∙ elim (Bool-cases (has_key k item)) [
        | inl here ↦
            let same : key ≡ k = (eq_iff key k).0 here in
            rw
              (
                lookup-insert key k j jobs,
                here,
                added-node_and_args index item (lookup key jobs),
                same,
              )
              refl
        | inr other ↦ rw (lookup-insert key k j jobs, other) refl
      ]

  -- In classic scheduling, the job under a key takes the claims of exactly the items with this key, in
  -- their order, and the pods that mount them; it has the node and the arguments of the first of them,
  -- and there is no job if there is no such item.
  pub group_items_classic :
      (k : String) (items : List (BackupItem T))
      → let j = lookup k (group_items backup_name false items) in
        let mine = filterb (has_key k) items in
        (volumes_of j ≡ gather (λ (i : BackupItem T). i.volume ∷ []) mine)
        × (pods_of j ≡ gather (λ (i : BackupItem T). unless_empty i.target_pod) mine)
        × (node_and_args j ≡ first_of mine)
  unfolding group_items
  group_items_classic k items = (
    group_classic-gather volumes_of (λ (i : BackupItem T). i.volume ∷ []) added-volumes k 0 items
        [],
    group_classic-gather pods_of (λ (i : BackupItem T). unless_empty i.target_pod) added-pods k 0
        items [],
    group_classic-first k 0 items [],
  )
