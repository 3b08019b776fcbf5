-- ===== src/Locker/Exclusion.antt =====
-- What runs side by side on one repository, over every sequence of starts through the locker, of jobs
-- that end and of pods that come and go, where each start finds the pods of the earlier jobs active.
-- Locker/Pending.antt is about runs where they are not.
use k8up.Prelude.{
  ℕ, zero, suc, ◌+◌, ◌≤◌, ◌≡◌, refl, String, Bool, true, false, not, ◌||◌, List, [], ◌∷◌, length,
  anyb, All, arith, Bool-cases, ◌⊎◌, inl, inr,
}
use k8up.Prelude.Int.{ℤ}
use k8up.JobObject.{
  JobType, backup_type, check_type, archive_type, restore_type, prune_type, schedule_type,
}
use k8up.Job.{BatchJob, found}
use k8up.Locker.{
  has_type, is_active, is_labelled_exclusive, new_job, create, start, try_run, try_run_exclusively,
}
use k8up.Locker.Decisions.{exclusive_in, try_run_exclusively_lem, try_run_held}

-- The jobs that may run only when they are alone.
abbrev pub is_solo : BatchJob → Bool
is_solo b = has_type check_type b || has_type prune_type b

abbrev one_if : Bool → ℕ
one_if true = 1
one_if false = 0

unfoldable pub solos : List BatchJob → ℕ
solos [] = 0
solos (b ∷ bs) = one_if (is_solo b) + solos bs

unfoldable pub exclusives : List BatchJob → ℕ
exclusives [] = 0
exclusives (b ∷ bs) = one_if (is_labelled_exclusive b) + exclusives bs

abbrev pub remove_at : ℕ → List BatchJob → List BatchJob
remove_at i [] = []
remove_at zero (b ∷ bs) = bs
remove_at (suc i) (b ∷ bs) = b ∷ remove_at i bs

abbrev pub set_active : ℕ → ℕ → List BatchJob → List BatchJob
set_active i n [] = []
set_active zero n (b ∷ bs) = record b { active = n } ∷ bs
set_active (suc i) n (b ∷ bs) = b ∷ set_active i n bs

-- One step of the repository's active jobs, under the limits of the job types.
pub data Step (limit : JobType → ℤ) : List BatchJob → List BatchJob → Type 0 where
  launch :
      (t : JobType) (name : String) (bs : List BatchJob)
      → Step limit bs (start t (limit t) name bs).1
  end : (i : ℕ) (bs : List BatchJob) → Step limit bs (remove_at i bs)
  pods : (i n : ℕ) (bs : List BatchJob) → Step limit bs (set_active i n bs)

pub data Reach (limit : JobType → ℤ) : List BatchJob → Type 0 where
  idle : Reach limit []
  next : {bs cs : List BatchJob} → Reach limit bs → Step limit bs cs → Reach limit cs

-- A start finds a pod of every job active that has been created and has not ended.
unfoldable pub IsSettled : {limit : JobType → ℤ} {bs cs : List BatchJob} → Step limit bs cs → Type 0
IsSettled (launch t name bs) = All (λ b. is_active b ≡ true) bs
IsSettled (end i bs) = Unit
IsSettled (pods i n bs) = Unit

-- Every start of the run does.
unfoldable pub IsSteady : {limit : JobType → ℤ} {bs : List BatchJob} → Reach limit bs → Type 0
unfolding IsSettled
IsSteady idle = Unit
IsSteady (next r s) = IsSettled s × IsSteady r

pub record IsExclusive (bs : List BatchJob) : Type 0 where
  -- Check and prune jobs carry the exclusive label.
  pub marked : All (λ b. (not (is_solo b) || is_labelled_exclusive b) ≡ true) bs
  -- At most one exclusive job runs.
  pub one : exclusives bs ≤ 1
  -- Beside a check or a prune nothing runs.
  pub alone : (solos bs ≡ 0) ⊎ (length bs ≤ 1)

solos-le-exclusives :
    (bs : List BatchJob)
    → All (λ b. (not (is_solo b) || is_labelled_exclusive b) ≡ true) bs
    → solos bs ≤ exclusives bs
unfolding solos exclusives
solos-le-exclusives [] h = omega arith
solos-le-exclusives (b ∷ bs) h = ground (arith, solos-le-exclusives bs h.1)

exclusives-zero :
    (bs : List BatchJob)
    → All (λ b. is_active b ≡ true) bs
    → exclusive_in bs ≡ false
    → exclusives bs ≡ 0
unfolding exclusives
exclusives-zero [] h e = refl
exclusives-zero (b ∷ bs) h e = ground (arith, exclusives-zero bs h.1)

nothing_active :
    (bs : List BatchJob) → All (λ b. is_active b ≡ true) bs → anyb is_active bs ≡ false → bs ≡ []
nothing_active [] h e = refl
nothing_active (b ∷ bs) h e = ground arith

-- The check and prune jobs that an executor creates carry the label.
new_job_marked :
    (t : JobType) (name : String)
    → (not (is_solo (new_job t name)) || is_labelled_exclusive (new_job t name)) ≡ true
unfolding new_job
new_job_marked backup_type name = refl
new_job_marked _ name = refl

abbrev pub is_solo_type : JobType → Bool
is_solo_type check_type = true
is_solo_type prune_type = true
is_solo_type _ = false

new_job_solo : (t : JobType) (name : String) → is_solo (new_job t name) ≡ is_solo_type t
unfolding new_job
new_job_solo backup_type name = refl
new_job_solo _ name = refl

one_if-le : (b : Bool) → one_if b ≤ 1
one_if-le true = omega arith
one_if-le false = omega arith

module _ (t : JobType) (name : String) (bs : List BatchJob) (v : IsExclusive bs)
    (live : All (λ b. is_active b ≡ true) bs) where
  -- An exclusive start, on top of nothing.
  start_alone : bs ≡ [] → IsExclusive (new_job t name ∷ bs)
  unfolding exclusives
  start_alone e = rw e (record {
    marked = (new_job_marked t name, tt);
    one = omega (arith, one_if-le (is_labelled_exclusive (new_job t name)));
    alone = inr (omega arith);
  })

  -- A start of a job that need not be alone, on top of jobs that are not exclusive.
  start_beside :
      is_solo_type t ≡ false → exclusive_in bs ≡ false → IsExclusive (new_job t name ∷ bs)
  unfolding solos exclusives
  start_beside s e =
      let none_exclusive = exclusives-zero bs live e in
      let few = solos-le-exclusives bs v.marked in
      record {
        marked = (new_job_marked t name, v.marked);
        one = omega (arith, none_exclusive, one_if-le (is_labelled_exclusive (new_job t name)));
        alone = inl (rw (new_job_solo t name, s) (omega (arith, few, none_exclusive)));
      }

  shared_start :
      (limit : ℤ)
      → is_solo_type t ≡ false
      → IsExclusive (try_run (found bs) t limit (create t name) bs).1
  shared_start limit s = elim (try_run_held bs (create t name) bs t limit) [
    | inl e ↦ rw e v
    | inr (e, r) ↦ rw r (start_beside s e)
  ]

  solo_start : IsExclusive (try_run_exclusively (found bs) (create t name) bs).1
  solo_start = elim (Bool-cases (anyb is_active bs)) [
    | inl e ↦ rw ((try_run_exclusively_lem bs (create t name) bs).2, e) v
    | inr e ↦
        rw ((try_run_exclusively_lem bs (create t name) bs).2, e)
          (start_alone (nothing_active bs live e))
  ]

start-IsExclusive :
    (t : JobType) (limit : ℤ) (name : String) (bs : List BatchJob)
    → IsExclusive bs
    → All (λ b. is_active b ≡ true) bs
    → IsExclusive (start t limit name bs).1
unfolding start
start-IsExclusive check_type limit name bs v l = solo_start check_type name bs v l
start-IsExclusive prune_type limit name bs v l = solo_start prune_type name bs v l
start-IsExclusive backup_type limit name bs v l = shared_start backup_type name bs v l limit refl
start-IsExclusive archive_type limit name bs v l = shared_start archive_type name bs v l limit refl
start-IsExclusive restore_type limit name bs v l = shared_start restore_type name bs v l limit refl
start-IsExclusive schedule_type limit name bs v l =
    shared_start schedule_type name bs v l limit refl

All-remove_at :
    (P : BatchJob → Type 0) (i : ℕ) (bs : List BatchJob) → All P bs → All P (remove_at i bs)
All-remove_at P zero [] h = tt
All-remove_at P (suc i) [] h = tt
All-remove_at P zero (b ∷ bs) h = h.1
All-remove_at P (suc i) (b ∷ bs) h = (h.0, All-remove_at P i bs h.1)

remove_at_fewer :
    (i : ℕ) (bs : List BatchJob)
    → (exclusives (remove_at i bs) ≤ exclusives bs)
      × (solos (remove_at i bs) ≤ solos bs)
      × (length (remove_at i bs) ≤ length bs)
unfolding exclusives solos
remove_at_fewer zero [] = omega arith
remove_at_fewer (suc i) [] = omega arith
remove_at_fewer zero (b ∷ bs) = omega arith
remove_at_fewer (suc i) (b ∷ bs) = omega (arith, remove_at_fewer i bs)

fewer_alone : (s s' l l' : ℕ) → s' ≤ s → l' ≤ l → (s ≡ 0) ⊎ (l ≤ 1) → (s' ≡ 0) ⊎ (l' ≤ 1)
fewer_alone s s' l l' p q (inl h) = inl (omega arith)
fewer_alone s s' l l' p q (inr h) = inr (omega arith)

set_active_marked :
    (i n : ℕ) (bs : List BatchJob)
    → All (λ b. (not (is_solo b) || is_labelled_exclusive b) ≡ true) bs
    → All (λ b. (not (is_solo b) || is_labelled_exclusive b) ≡ true) (set_active i n bs)
set_active_marked zero n [] h = tt
set_active_marked (suc i) n [] h = tt
set_active_marked zero n (b ∷ bs) h = h
set_active_marked (suc i) n (b ∷ bs) h = (h.0, set_active_marked i n bs h.1)

set_active_same :
    (i n : ℕ) (bs : List BatchJob)
    → (exclusives (set_active i n bs) ≡ exclusives bs)
      × (solos (set_active i n bs) ≡ solos bs)
      × (length (set_active i n bs) ≡ length bs)
unfolding exclusives solos
set_active_same zero n [] = omega arith
set_active_same (suc i) n [] = omega arith
set_active_same zero n (b ∷ bs) = omega arith
set_active_same (suc i) n (b ∷ bs) = omega (arith, set_active_same i n bs)

Step-IsExclusive :
    {limit : JobType → ℤ} {bs cs : List BatchJob} (s : Step limit bs cs)
    → IsSettled s
    → IsExclusive bs
    → IsExclusive cs
unfolding IsSettled
Step-IsExclusive {limit} (launch t name bs) l v = start-IsExclusive t (limit t) name bs v l
Step-IsExclusive (end i bs) l v =
    let fewer = remove_at_fewer i bs in
    record {
      marked = All-remove_at _ i bs v.marked;
      one = omega (arith, fewer, v.one);
      alone = fewer_alone _ _ _ _ fewer.1 fewer.2 v.alone;
    }
Step-IsExclusive (pods i n bs) l v =
    let same = set_active_same i n bs in
    record {
      marked = set_active_marked i n bs v.marked;
      one = omega (arith, same, v.one);
      alone = rw (same.1, same.2) v.alone;
    }

Reach-all :
    {limit : JobType → ℤ} {bs : List BatchJob} (r : Reach limit bs) → IsSteady r → IsExclusive bs
unfolding exclusives solos IsSteady
Reach-all idle h = record { marked = tt; one = omega arith; alone = inl refl }
Reach-all (next r s) h = Step-IsExclusive s h.0 (Reach-all r h.1)

-- On every run from an idle repository each of whose starts finds an active pod of every job that has
-- been created and has not ended, at most one exclusive job (restore, check or prune) is there, and
-- while a check or a prune is, no other job is.
pub Reach-IsExclusive :
    (limit : JobType → ℤ) (bs : List BatchJob) (r : Reach limit bs)
    → IsSteady r
    → (exclusives bs ≤ 1) × ((solos bs ≡ 0) ⊎ (length bs ≤ 1))
Reach-IsExclusive limit bs r h = let v = Reach-all r h in (v.one, v.alone)
