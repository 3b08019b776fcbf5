-- ===== src/Schedules/Effective.antt =====
-- The effective schedules of a Schedule's status as a map from job types.
use k8up.Prelude.{
  ℕ, suc, ◌+◌, ◌≤◌, String, ◌≡◌, refl, true, not, ◌&&◌, Option, none, some, ◌==◌, List, [], ◌∷◌,
  ◌++◌, ◌||◌, arith, if◌then◌else◌,
}
use k8up.JobObject.{JobType, same_type, same_type_trans}
use k8up.Schedules.{
  Identity, EffectiveSchedule, update_effective, set_effective_schedule,
  cleanup_effective_schedules, get_effective_schedule, create_random_schedule, is_random,
}

-- The first generated schedule of the job type.
abbrev pub generated : JobType → List EffectiveSchedule → Option String
generated t [] = none
generated t (e ∷ es) = if same_type e.job_type t then some e.generated_schedule else generated t es

abbrev pub count_of : JobType → List EffectiveSchedule → ℕ
count_of t [] = 0
count_of t (e ∷ es) = if same_type e.job_type t then suc (count_of t es) else count_of t es

-- No job type has two effective schedules.
pub record IsUnique (es : List EffectiveSchedule) : Type 0 where
  pub at_most_one : (t : JobType) → count_of t es ≤ 1

update_effective-found :
    (k : JobType) (schedule : String) (es : List EffectiveSchedule)
    → (update_effective k schedule es).1 ≡ not (count_of k es == 0)
update_effective-found k schedule [] = ground arith
update_effective-found k schedule (e ∷ es) = ground (arith, update_effective-found k schedule es)

count_of-update_effective :
    (t k : JobType) (schedule : String) (es : List EffectiveSchedule)
    → count_of t (update_effective k schedule es).0 ≡ count_of t es
count_of-update_effective t k schedule [] = refl
count_of-update_effective t k schedule (e ∷ es) =
    ground (arith, count_of-update_effective t k schedule es)

count_of-append :
    (t : JobType) (es fs : List EffectiveSchedule)
    → count_of t (es ++ fs) ≡ count_of t es + count_of t fs
count_of-append t [] fs = omega arith
count_of-append t (e ∷ es) fs = ground (arith, count_of-append t es fs)

generated-update_effective :
    (t k : JobType) (schedule : String) (es : List EffectiveSchedule)
    → generated t (update_effective k schedule es).0 ≡ (
        if same_type k t && (update_effective k schedule es).1
        then some schedule
        else generated t es)
generated-update_effective t k schedule [] = ground arith
generated-update_effective t k schedule (e ∷ es) =
    ground (arith, generated-update_effective t k schedule es, same_type_trans e.job_type k t)

generated-append :
    (t : JobType) (es : List EffectiveSchedule) (f : EffectiveSchedule)
    → generated t (es ++ f ∷ [])
      ≡ (if count_of t es == 0 then generated t (f ∷ []) else generated t es)
generated-append t [] f = ground arith
generated-append t (e ∷ es) f = ground (arith, generated-append t es f)

generated-none :
    (t : JobType) (es : List EffectiveSchedule) → count_of t es ≡ 0 → generated t es ≡ none
generated-none t [] h = refl
generated-none t (e ∷ es) h = ground (arith, generated-none t es)

count_of_same :
    (k t : JobType) (es : List EffectiveSchedule)
    → same_type k t ≡ true
    → count_of k es ≡ count_of t es
count_of_same k t [] h = refl
count_of_same k t (e ∷ es) h =
    ground (arith, count_of_same k t es h, same_type_trans e.job_type k t)

-- After setEffectiveSchedule the job type has the given schedule, and every other type its old one.
pub generated-set_effective_schedule :
    (t k : JobType) (schedule : String) (es : List EffectiveSchedule)
    → generated t (set_effective_schedule k schedule es)
      ≡ (if same_type k t then some schedule else generated t es)
unfolding set_effective_schedule
generated-set_effective_schedule t k schedule es = ground (
  arith,
  generated-update_effective t k schedule es,
  generated-append t (update_effective k schedule es).0
      (record { job_type = k; generated_schedule = schedule }),
  update_effective-found k schedule es,
  count_of-update_effective t k schedule es,
  generated-none t es,
  count_of_same k t es,
)

pub set_effective_schedule-IsUnique :
    (k : JobType) (schedule : String) (es : List EffectiveSchedule)
    → IsUnique es
    → IsUnique (set_effective_schedule k schedule es)
unfolding set_effective_schedule
set_effective_schedule-IsUnique k schedule es u = record {
  at_most_one = λ t. ground (
    arith,
    u.at_most_one t,
    count_of-append t (update_effective k schedule es).0
        (record { job_type = k; generated_schedule = schedule } ∷ []),
    update_effective-found k schedule es,
    count_of-update_effective t k schedule es,
    count_of_same k t es,
  );
}

count_of-cleanup :
    (t k : JobType) (new_schedule : String) (es : List EffectiveSchedule)
    → count_of t (cleanup_effective_schedules k new_schedule es)
      ≡ (if same_type k t && not (is_random new_schedule) then 0 else count_of t es)
unfolding cleanup_effective_schedules
count_of-cleanup t k new_schedule [] = ground arith
count_of-cleanup t k new_schedule (e ∷ es) =
    ground (arith, count_of-cleanup t k new_schedule es, same_type_trans e.job_type k t)

-- After cleanupEffectiveSchedules the job type has an effective schedule only if it had one and the
-- new schedule is random; every other type keeps its own.
pub generated-cleanup_effective_schedules :
    (t k : JobType) (new_schedule : String) (es : List EffectiveSchedule)
    → generated t (cleanup_effective_schedules k new_schedule es)
      ≡ (if same_type k t && not (is_random new_schedule) then none else generated t es)
unfolding cleanup_effective_schedules
generated-cleanup_effective_schedules t k new_schedule [] = ground arith
generated-cleanup_effective_schedules t k new_schedule (e ∷ es) = ground (
  arith,
  generated-cleanup_effective_schedules t k new_schedule es,
  same_type_trans e.job_type k t,
)

pub cleanup_effective_schedules-IsUnique :
    (k : JobType) (new_schedule : String) (es : List EffectiveSchedule)
    → IsUnique es
    → IsUnique (cleanup_effective_schedules k new_schedule es)
cleanup_effective_schedules-IsUnique k new_schedule es u = record {
  at_most_one = λ t. ground (arith, u.at_most_one t, count_of-cleanup t k new_schedule es);
}

module _ (checksum : String → ℕ) (o : Identity) (t : JobType) (original : String) where
  -- The effective schedule of a job type does not depend on the effective schedules that the status
  -- holds: a generated schedule found there is never reused.
  pub get_effective_schedule_fresh :
      (es fs : List EffectiveSchedule)
      → (get_effective_schedule checksum o t original es).0
        ≡ (get_effective_schedule checksum o t original fs).0
  unfolding get_effective_schedule
  get_effective_schedule_fresh es fs = ground arith

  -- What the status holds after cleanupEffectiveSchedules and getEffectiveSchedule, in this order as
  -- in createJobList: for the job type the effective schedule if the schedule is random, the old one
  -- where it could not be randomized, and nothing if it is not random; for another type its old one.
  pub get_effective_schedule-cleanup :
      (k : JobType) (es : List EffectiveSchedule)
      → let (effective, fs) =
          get_effective_schedule checksum o t original
            (cleanup_effective_schedules t original es) in
        let failed = (create_random_schedule checksum o t original).1 in
        generated k fs ≡ (
          if not (same_type t k) || (is_random original && failed)
          then generated k es
          else if is_random original
          then some effective
          else none)
  unfolding get_effective_schedule is_random
  get_effective_schedule-cleanup k es = ground (
    arith,
    generated-set_effective_schedule k t (create_random_schedule checksum o t original).0
        (cleanup_effective_schedules t original es),
    generated-cleanup_effective_schedules k t original es,
  )

  pub get_effective_schedule-IsUnique :
      (es : List EffectiveSchedule)
      → IsUnique es
      → IsUnique (get_effective_schedule checksum o t original es).1
  unfolding get_effective_schedule
  get_effective_schedule-IsUnique es u = record {
    at_most_one = λ k. ground (
      arith,
      u.at_most_one k,
      (set_effective_schedule-IsUnique t (create_random_schedule checksum o t original).0 es
            u).at_most_one
          k,
    );
  }

  -- Cleaning up and recording the effective schedule of a job type, as createJobList does, leaves at
  -- most one effective schedule of each type, if there was at most one of each before.
  pub get_effective_schedule-cleanup-IsUnique :
      (es : List EffectiveSchedule)
      → IsUnique es
      → IsUnique
          (get_effective_schedule checksum o t original
            (cleanup_effective_schedules t original es)).1
  get_effective_schedule-cleanup-IsUnique es u =
      get_effective_schedule-IsUnique (cleanup_effective_schedules t original es)
        (cleanup_effective_schedules-IsUnique t original es u)
