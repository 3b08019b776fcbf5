-- ===== src/Grouping/Relaxed.antt =====
-- Relaxed scheduling: one job per claim (startBackup of operator/backupcontroller/executor.go).
use text.Mathlib.TextLemmas.{append-nil}
use k8up.Prelude.{
  ℕ, zero, ◌+◌, ◌≤◌, ◌<◌, ◌≢◌, arith, All, length, get_elem?, itoa, itoa_injective, concat, eq_iff,
  eq_refl, Bool-cases, inl, inr, suc, String, ◌≡◌, refl, ◌∙◌, Bool, true, false, Option, none, some,
  List, [], ◌∷◌, lookup, insert, lookup-insert, str_eq, if◌then◌else◌,
}
use k8up.Grouping.{
  BackupItem, JobItem, relaxed_key, relaxed_item, group_relaxed, group_items, unless_empty,
}

-- The first of two.
abbrev pub or_this {ℓ} : {A : Type ℓ} → Option A → Option A → Option A
or_this none y = y
or_this (some x) y = some x

or_none : {A : Type 0} (x : Option A) → or_this x none ≡ x
or_none none = refl
or_none (some x) = refl

or_this_if :
    {A : Type 0} (x : Option A) (b : Bool) (a : A) (z : Option A)
    → or_this x (if b then some a else z) ≡ or_this (or_this x (if b then some a else none)) z
or_this_if none true a z = refl
or_this_if none false a z = refl
or_this_if (some x) b a z = refl

other_numeral : (m n : ℕ) → m ≢ n → str_eq (itoa m) (itoa n) ≡ false
other_numeral m n d = elim (Bool-cases (str_eq (itoa m) (itoa n))) [
  | inl e ↦ absurd (d (itoa_injective m n ((eq_iff (itoa m) (itoa n)).0 e)))
  | inr e ↦ e
]

length-insert :
    {V : Type 0} (k : String) (v : V) (m : List (String × V))
    → lookup k m ≡ none
    → length (insert k v m) ≡ suc (length m)
length-insert k v [] h = refl
length-insert k v ((j, w) ∷ m) h = ground (arith, h, length-insert k v m)

module _ {T : Type 0} (backup_name : String) where
  -- The job of the last item with the key, where the items are numbered from `index`.
  abbrev pub last_with : String → ℕ → List (BackupItem T) → Option (JobItem T)
  last_with k index [] = none
  last_with k index (item ∷ items) = or_this (last_with k (suc index) items) (
      if str_eq (relaxed_key backup_name index item) k
      then some (relaxed_item backup_name index item)
      else none)

  group_relaxed_from :
      (k : String) (index : ℕ) (items : List (BackupItem T)) (jobs : List (String × JobItem T))
      → lookup k (group_relaxed backup_name index items jobs)
        ≡ or_this (last_with k index items) (lookup k jobs)
  unfolding group_relaxed
  group_relaxed_from k index [] jobs = refl
  group_relaxed_from k index (item ∷ items) jobs =
      let key = relaxed_key backup_name index item in
      let j = relaxed_item backup_name index item in
      group_relaxed_from k (suc index) items (insert key j jobs)
      ∙ rw (lookup-insert key k j jobs)
          (or_this_if (last_with k (suc index) items) (str_eq key k) j (lookup k jobs))

  group_relaxed_last :
      (k : String) (items : List (BackupItem T))
      → lookup k (group_relaxed backup_name 0 items []) ≡ last_with k 0 items
  group_relaxed_last k items = group_relaxed_from k 0 items [] ∙ or_none (last_with k 0 items)

  -- The item has no restic arguments of its own.
  abbrev pub IsPlain : BackupItem T → Type 0
  IsPlain item = item.restic_args ≡ []

  plain_key :
      (index : ℕ) (item : BackupItem T)
      → IsPlain item
      → relaxed_key backup_name index item ≡ itoa index
  plain_key index item h = rw h (append-nil (itoa index))

  last_with-none :
      (k index : ℕ) (items : List (BackupItem T))
      → All IsPlain items
      → k < index
      → last_with (itoa k) index items ≡ none
  last_with-none k index [] h lt = refl
  last_with-none k index (item ∷ items) (p, h) lt =
      rw
        (
          plain_key index item p,
          other_numeral index k (omega arith),
          last_with-none k (suc index) items h (omega arith),
        )
        refl

  last_with_at :
      (k index i : ℕ) (items : List (BackupItem T)) (item : BackupItem T)
      → All IsPlain items
      → index + i ≡ k
      → get_elem? items i ≡ some item
      → last_with (itoa k) index items ≡ some (relaxed_item backup_name k item)
  last_with_at k index i [] item h e at = absurd (cc at)
  last_with_at k index zero (x ∷ items) item (p, h) e at =
      let same : index ≡ k = omega arith in
      let this : x ≡ item = cc in
      rw
        (
          last_with-none k (suc index) items h (omega arith),
          plain_key index x p,
          same,
          eq_refl (itoa k),
          this,
        )
        refl
  last_with_at k index (suc i) (x ∷ items) item (p, h) e at =
      rw (last_with_at k (suc index) i items item h (omega arith) at) refl

  length-group_relaxed :
      (index : ℕ) (items : List (BackupItem T)) (jobs : List (String × JobItem T))
      → All IsPlain items
      → ((j : ℕ) → index ≤ j → lookup (itoa j) jobs ≡ none)
      → length (group_relaxed backup_name index items jobs) ≡ length jobs + length items
  unfolding group_relaxed
  length-group_relaxed index [] jobs h free = omega arith
  length-group_relaxed index (item ∷ items) jobs (p, h) free =
      let j = relaxed_item backup_name index item in
      let more = insert (itoa index) j jobs in
      let free' : (i : ℕ) → suc index ≤ i → lookup (itoa i) more ≡ none = λ i le.
        lookup-insert (itoa index) (itoa i) j jobs
        ∙ rw (other_numeral index i (λ e. omega arith)) (free i (omega arith)) in
      let added = length-insert (itoa index) j jobs (free index (omega arith)) in
      rw (plain_key index item p)
        (length-group_relaxed (suc index) items more h free' ∙ omega (arith, added))

  -- In relaxed scheduling of claims without arguments of their own, every claim gets one job, which holds
  -- that claim and its pod alone and runs on its node, and there is no other job.
  pub group_items_one_each :
      (items : List (BackupItem T)) (i : ℕ) (item : BackupItem T)
      → All IsPlain items
      → get_elem? items i ≡ some item
      → (lookup (itoa i) (group_items backup_name true items)
          ≡ some (record {
            job = record {
              name = concat ("backup" ∷ "-" ∷ backup_name ∷ "-" ∷ itoa i ∷ []);
              node = item.node;
              tolerations = item.tolerations;
            };
            target_pods = unless_empty item.target_pod;
            volumes = unless_empty item.volume;
            restic_args = item.restic_args;
            skip_pre_backup = true;
          }))
        × (length (group_items backup_name true items) ≡ length items)
  unfolding group_items
  group_items_one_each items i item h at = (
    group_relaxed_last (itoa i) items ∙ last_with_at i 0 i items item h (omega arith) at,
    length-group_relaxed 0 items [] h (λ j le. refl) ∙ omega arith,
  )
