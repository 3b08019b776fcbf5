-- ===== src/Cleaner/Retention.antt =====
-- What the cleaner deletes and what it keeps (operator/executor/cleaner/cleaner.go).
use Prim.Native.Nat.{min}
use k8up.Prelude.{
  ℕ, zero, suc, ◌+◌, ◌-◌, ◌≤◌, leb, leb→le, ◌≡◌, refl, ◌∙◌, ap, true, false, not, Option, none,
  some, List, [], ◌∷◌, ◌++◌, take, drop, length, All, All-append, All-append_left, All-map,
  All-filterb, filterb, before, first_with, to_list, Bool, anyb, is_some, ◌||◌, arith, Bool-cases,
  inl, inr, take-append-drop, length-drop,
}
use mathlib.Core.List.{append-nil, append_assoc}
use k8up.Prelude.Int.{ℤ, pos, ◌≤ℤ◌}
use k8up.Status.{ConditionApi, has_succeeded, has_failed, has_finished}
use k8up.Status.Queries.{succeeded_not_failed, has_finished_lem}
use k8up.JobObject.{JobObject, less}
use k8up.JobObject.Order.{sort, sort-All, sort-IsSorted, IsSorted-cut, length-sort}
use k8up.Job.{Answer}
use k8up.Cleaner.Limits.{history_limits_nonneg}
use k8up.Cleaner.{
  clean_old_objects, then_failed, history_limits, GlobalLimits, Groups, group_from, group_by_status,
  CleanError, could_not_delete, Cleaned, delete_ok, delete_from, clean_group, to_nat,
}

delete_from_all :
    (kube : JobObject → Answer) (i n : ℕ) (os : List JobObject)
    → ((o : JobObject) → delete_ok (kube o) ≡ true)
    → n ≤ length os
    → delete_from kube i n os ≡ record { requests = take n os; deleted = i + n; error = none }
unfolding delete_from
delete_from_all kube i zero os ok h = ground arith
delete_from_all kube i (suc n) [] ok h = absurd (omega arith)
delete_from_all kube i (suc n) (o ∷ os) ok h =
    rw (ok o, delete_from_all kube (suc i) n os ok (omega arith)) (ground arith)

-- The early return is the loop with no rounds.
clean_group_loop :
    (kube : JobObject → Answer) (os : List JobObject) (m : ℕ)
    → clean_group kube os (pos m) ≡ delete_from kube 0 (length os - m) (sort os)
unfolding clean_group
clean_group_loop kube os m = elim (Bool-cases (leb (length os) m)) [
  | inl e ↦
      let none_left : length os - m ≡ 0 = omega (arith, leb→le (length os) m e) in
      rw none_left (ground (arith, leb→le (length os) m))
  | inr e ↦ ground arith
]

clean_group_all :
    (kube : JobObject → Answer) (os : List JobObject) (m : ℕ)
    → ((o : JobObject) → delete_ok (kube o) ≡ true)
    → clean_group kube os (pos m)
      ≡ record { requests = take (length os - m) (sort os); deleted = length os - m; error = none }
clean_group_all kube os m ok = rw (clean_group_loop kube os m) (
    rw (delete_from_all kube 0 (length os - m) (sort os) ok (omega (arith, length-sort os)))
      (ground arith))

clean_group_deleted :
    (kube : JobObject → Answer) (os : List JobObject) (max : ℤ)
    → ((o : JobObject) → delete_ok (kube o) ≡ true)
    → pos 0 ≤ℤ max
    → clean_group kube os max ≡ record {
      requests = take (length os - to_nat max) (sort os);
      deleted = length os - to_nat max;
      error = none;
    }
clean_group_deleted kube os (pos m) ok h = clean_group_all kube os m ok
clean_group_deleted kube os (ℤ.negsuc m) ok h = absurd (omega arith)

-- If no Delete is refused, a group of jobs is cut down to the newest `max` of it: the requests and
-- the kept jobs make up the group in order of age, nothing kept is older than anything deleted, the
-- count is right and there is no error.
pub clean_group_keeps_newest :
    (kube : JobObject → Answer) (os : List JobObject) (max : ℤ)
    → ((o : JobObject) → delete_ok (kube o) ≡ true)
    → pos 0 ≤ℤ max
    → let r = clean_group kube os max in
      let kept = drop r.deleted (sort os) in
      (r.error ≡ none)
      × (r.requests ++ kept ≡ sort os)
      × (length kept ≡ min (length os) (to_nat max))
      × All (λ o. All (λ k. less k o ≡ false) kept) r.requests
clean_group_keeps_newest kube os (pos m) ok h = rw (clean_group_all kube os m ok) (
  refl,
  take-append-drop _ (sort os),
  omega (arith, length-drop (length os - m) (sort os), length-sort os),
  IsSorted-cut (length os - m) (sort os) (sort-IsSorted os),
)
clean_group_keeps_newest kube os (ℤ.negsuc m) ok h = absurd (omega arith)

-- The Delete of the object is refused.
abbrev pub is_refused : (JobObject → Answer) → JobObject → Bool
is_refused kube o = not (delete_ok (kube o))

-- The error that tells of a refused Delete.
abbrev pub refusal : Option JobObject → Option CleanError
refusal none = none
refusal (some o) = some (could_not_delete o)

-- What a run over the objects that are due comes to.
abbrev pub run_of : (JobObject → Answer) → ℕ → List JobObject → Cleaned
run_of kube i due = record {
  requests = before (is_refused kube) due ++ to_list (first_with (is_refused kube) due);
  deleted = i + length (before (is_refused kube) due);
  error = refusal (first_with (is_refused kube) due);
}

delete_from-run_of :
    (kube : JobObject → Answer) (i n : ℕ) (os : List JobObject)
    → n ≤ length os
    → delete_from kube i n os ≡ run_of kube i (take n os)
unfolding delete_from
delete_from-run_of kube i zero os h = ground arith
delete_from-run_of kube i (suc n) [] h = absurd (omega arith)
delete_from-run_of kube i (suc n) (o ∷ os) h = elim (Bool-cases (delete_ok (kube o))) [
  | inl e ↦ rw (e, delete_from-run_of kube (suc i) n os (omega arith)) (ground arith)
  | inr e ↦ rw e (ground arith)
]

delete_from_prefix :
    (kube : JobObject → Answer) (i n : ℕ) (os : List JobObject)
    → (delete_from kube i n os).requests ++ drop (length (delete_from kube i n os).requests) os ≡ os
unfolding delete_from
delete_from_prefix kube i zero os = refl
delete_from_prefix kube i (suc n) [] = refl
delete_from_prefix kube i (suc n) (o ∷ os) = elim (Bool-cases (delete_ok (kube o))) [
  | inl e ↦ rw e (ap (◌∷◌ o) (delete_from_prefix kube (suc i) n os))
  | inr e ↦ rw e
]

clean_group_prefix :
    (kube : JobObject → Answer) (os : List JobObject) (max : ℤ)
    → pos 0 ≤ℤ max
    → let r = clean_group kube os max in r.requests ++ drop (length r.requests) (sort os) ≡ sort os
clean_group_prefix kube os (pos m) h =
    rw (clean_group_loop kube os m) (delete_from_prefix kube 0 (length os - m) (sort os))
clean_group_prefix kube os (ℤ.negsuc m) h = absurd (omega arith)

-- Whatever the API server answers, with a limit that is not negative: of the oldest objects, as many as
-- the group has above the limit, those before the first whose Delete is refused are deleted and counted,
-- in order of age. The refused Delete is the last that is asked for, and the error names its object;
-- without one there is no error.
pub clean_group_runs :
    (kube : JobObject → Answer) (os : List JobObject) (max : ℤ)
    → pos 0 ≤ℤ max
    → let r = clean_group kube os max in
      let due = take (length os - to_nat max) (sort os) in
      let deleted = before (is_refused kube) due in
      let refused_one = first_with (is_refused kube) due in
      (r.requests ≡ deleted ++ to_list refused_one)
      × (r.deleted ≡ length deleted)
      × (r.error ≡ refusal refused_one)
clean_group_runs kube os (pos m) h =
    let n = length os - m in
    let fits : n ≤ length (sort os) = omega (arith, length-sort os) in
    rw (clean_group_loop kube os m, delete_from-run_of kube 0 n (sort os) fits)
      (refl, omega arith, refl)
clean_group_runs kube os (ℤ.negsuc m) h = absurd (omega arith)

module _ (api : ConditionApi) where
  group_from-filterb :
      (g : Groups) (os : List JobObject)
      → group_from api g os ≡ record {
        running = g.running ++ filterb (λ o. not (has_finished api o.status)) os;
        failed = g.failed ++ filterb (λ o. has_failed api o.status) os;
        successful = g.successful ++ filterb (λ o. has_succeeded api o.status) os;
      }
  unfolding group_from
  group_from-filterb g [] = simp append-nil refl
  group_from-filterb g (o ∷ os) = elim (Bool-cases (has_succeeded api o.status)) [
    | inl s ↦
        let f = succeeded_not_failed api o.status s in
        rw (has_finished_lem api o.status, f, s) (group_from-filterb _ os ∙ simp append_assoc refl)
    | inr s ↦ elim (Bool-cases (has_failed api o.status)) [
      | inl f ↦
          rw (has_finished_lem api o.status, f, s)
            (group_from-filterb _ os ∙ simp append_assoc refl)
      | inr f ↦
          rw (has_finished_lem api o.status, f, s)
            (group_from-filterb _ os ∙ simp append_assoc refl)
    ]
  ]

  -- The three groups are the running, the failed and the successful jobs, each in the list's order.
  pub group_by_status_filters :
      (os : List JobObject)
      → let g = group_by_status api os in
        (g.running ≡ filterb (λ o. not (has_finished api o.status)) os)
        × (g.failed ≡ filterb (λ o. has_failed api o.status) os)
        × (g.successful ≡ filterb (λ o. has_succeeded api o.status) os)
  unfolding group_by_status
  group_by_status_filters os = rw (group_from-filterb _ os) (refl, refl, refl)

All-prefix :
    (P : JobObject → Type 0) (xs ys zs : List JobObject) → xs ++ ys ≡ zs → All P zs → All P xs
All-prefix P xs ys zs e h = All-append_left P xs ys (rw e h)

-- Objects in a group of which all have P are asked for deletion only where P holds.
pub clean_group-All :
    (P : JobObject → Type 0) (kube : JobObject → Answer) (os : List JobObject) (max : ℤ)
    → pos 0 ≤ℤ max
    → All P os
    → All P (clean_group kube os max).requests
clean_group-All P kube os max h all =
    All-prefix P _ _ (sort os) (clean_group_prefix kube os max h) (sort-All P os all)

pub then_failed-All :
    (P : JobObject → Type 0) (e : Option CleanError) (s f : Cleaned)
    → All P s.requests
    → All P f.requests
    → All P (then_failed e s f).requests
unfolding then_failed
then_failed-All P none s f h k = All-append P s.requests f.requests h k
then_failed-All P (some e) s f h k = h

module _ (api : ConditionApi) (c : GlobalLimits) (l : Option JobObject)
    (kube : JobObject → Answer) where
  finished_of_succeeded :
      (os : List JobObject)
      → All (λ o. has_finished api o.status ≡ true) (filterb (λ o. has_succeeded api o.status) os)
  finished_of_succeeded os =
      All-map (λ o h. rw (has_finished_lem api o.status, h) (ground arith)) _ (All-filterb _ os)

  finished_of_failed :
      (os : List JobObject)
      → All (λ o. has_finished api o.status ≡ true) (filterb (λ o. has_failed api o.status) os)
  finished_of_failed os =
      All-map (λ o h. rw (has_finished_lem api o.status, h)) _ (All-filterb _ os)

  -- Whatever the API server answers, no job is deleted that has not finished.
  pub clean_old_objects_finished :
      (os : List JobObject)
      → All (λ o. has_finished api o.status ≡ true) (clean_old_objects api c l kube os).requests
  unfolding clean_old_objects
  clean_old_objects_finished os =
      let g = group_by_status_filters api os in
      let limits = history_limits_nonneg c l in
      then_failed-All (λ o. has_finished api o.status ≡ true) _ _ _
        (clean_group-All _ kube (group_by_status api os).successful _ limits.0
          (rw (g.2) (finished_of_succeeded os)))
        (clean_group-All _ kube (group_by_status api os).failed _ limits.1
          (rw (g.1) (finished_of_failed os)))

  -- If no Delete is refused, the surplus over each of the two limits is deleted, and no more.
  pub clean_old_objects_counts :
      (os : List JobObject)
      → ((o : JobObject) → delete_ok (kube o) ≡ true)
      → let r = clean_old_objects api c l kube os in
        let limits = history_limits c l in
        (r.error ≡ none)
        × (r.deleted
            ≡ (length (filterb (λ o. has_succeeded api o.status) os) - to_nat limits.successful)
              + (length (filterb (λ o. has_failed api o.status) os) - to_nat limits.failed))
  unfolding clean_old_objects
  clean_old_objects_counts os ok =
      let g = group_by_status_filters api os in
      let limits = history_limits_nonneg c l in
      rw
        (
          clean_group_deleted kube (group_by_status api os).successful _ ok limits.0,
          clean_group_deleted kube (group_by_status api os).failed _ ok limits.1,
          g.1,
          g.2,
        )
        (refl, refl)

-- A run has an error exactly if one of the Deletes that it asked for was refused.
IsHonest : (JobObject → Answer) → Cleaned → Type 0
IsHonest kube r = is_some r.error ≡ anyb (is_refused kube) r.requests

anyb-append :
    (p : JobObject → Bool) (xs ys : List JobObject) → anyb p (xs ++ ys) ≡ (anyb p xs || anyb p ys)
anyb-append p [] ys = refl
anyb-append p (x ∷ xs) ys = ground (arith, anyb-append p xs ys)

anyb-first_with :
    (p : JobObject → Bool) (xs : List JobObject)
    → is_some (refusal (first_with p xs)) ≡ anyb p (before p xs ++ to_list (first_with p xs))
anyb-first_with p [] = refl
anyb-first_with p (x ∷ xs) = elim (Bool-cases (p x)) [
  | inl e ↦ rw e (ground (arith, e))
  | inr e ↦ rw e (ground (arith, e, anyb-first_with p xs))
]

clean_group-IsHonest :
    (kube : JobObject → Answer) (os : List JobObject) (max : ℤ)
    → pos 0 ≤ℤ max
    → IsHonest kube (clean_group kube os max)
unfolding IsHonest
clean_group-IsHonest kube os max h =
    let (r, d, e) = clean_group_runs kube os max h in
    let due = take (length os - to_nat max) (sort os) in
    rw (r, e) (anyb-first_with (is_refused kube) due)

then_failed-IsHonest :
    (kube : JobObject → Answer) (e : Option CleanError) (s f : Cleaned)
    → is_some e ≡ anyb (is_refused kube) s.requests
    → IsHonest kube s
    → IsHonest kube f
    → IsHonest kube (then_failed e s f)
unfolding IsHonest then_failed
then_failed-IsHonest kube none s f n h k =
    ground (arith, anyb-append (is_refused kube) s.requests f.requests, n, k)
then_failed-IsHonest kube (some x) s f n h k = h

pub clean_old_objects_honest :
    (api : ConditionApi) (c : GlobalLimits) (l : Option JobObject) (kube : JobObject → Answer)
    (os : List JobObject)
    → let r = clean_old_objects api c l kube os in
      is_some r.error ≡ anyb (is_refused kube) r.requests
unfolding clean_old_objects IsHonest
clean_old_objects_honest api c l kube os =
    let limits = history_limits_nonneg c l in
    let groups = group_by_status api os in
    let s = clean_group-IsHonest kube groups.successful _ limits.0 in
    then_failed-IsHonest kube _ _ _ s s (clean_group-IsHonest kube groups.failed _ limits.1)
