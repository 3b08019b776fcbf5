-- ===== src/ScheduleHandler/Registered.antt =====
-- What createJobList registers with the scheduler.
use text.Mathlib.TextLemmas.{append_cancel_left, append_cancel_right}
use k8up.Prelude.{
  ℕ, String, ◌≡◌, refl, sym, ◌∙◌, true, false, Option, none, some, List, [], ◌∷◌, anyb, str_eq,
  eq_iff, eq_refl, if◌then◌else◌, Bool-cases, inl, inr,
}
use k8up.JobObject.{
  JobType, job_type_string, same_type, same_type_eq, same_type_refl, job_type_string_injective,
}
use k8up.Scheduler.{CronApi}
use k8up.Scheduler.Links.{IsLinked, set_schedule-IsLinked, remove_schedule-IsLinked}
use k8up.Scheduler.Agreement.{scheduled, set_schedule-scheduled, remove_schedule-scheduled}
use k8up.Schedules.{Identity, get_effective_schedule, cleanup_effective_schedules}
use k8up.Schedules.Effective.{get_effective_schedule_fresh}
use k8up.ScheduleHandler.{
  JobSpec, ScheduleSpec, Merges, Template, Handled, key_of, new_template, drop_job, add_job,
  handle_job, create_job_list,
}

-- The keys of two job types of one object differ.
pub key_of_injective : (o : Identity) (t u : JobType) → key_of o t ≡ key_of o u → t ≡ u
unfolding key_of
key_of_injective o t u e = job_type_string_injective t u (
    append_cancel_right (job_type_string t) (job_type_string u) "" (
      append_cancel_left "/" _ _ (
        append_cancel_left o.name _ _
          (append_cancel_left "/" _ _ (append_cancel_left o.namespace _ _ e)))))

pub key_of-same : (o : Identity) (t u : JobType) → str_eq (key_of o t) (key_of o u) ≡ same_type t u
key_of-same o t u = elim (Bool-cases (same_type t u)) [
  | inl e ↦ rw (same_type_eq t u e, same_type_refl u) (eq_refl (key_of o u))
  | inr e ↦ elim (Bool-cases (str_eq (key_of o t) (key_of o u))) [
    | inl here ↦
        let same : t ≡ u = key_of_injective o t u ((eq_iff (key_of o t) (key_of o u)).0 here) in
        absurd (cc (same_type_refl u, same, e))
    | inr there ↦ cc (there, e)
  ]
]

module _ {C B R X : Type 0} (api : CronApi C (Template B R X)) (merges : Merges B R X)
    (global_resources : R) (checksum : String → ℕ) (o : Identity) (spec : ScheduleSpec B R X) where
  abbrev pub effective_of : JobType → String → String
  effective_of t original = (get_effective_schedule checksum o t original []).0

  -- What shall run for a job type: nothing where its spec is nil.
  abbrev pub plan : JobType → Option (JobSpec B R X) → Option (String × Template B R X)
  plan t none = none
  plan t (some j) = some (effective_of t j.schedule, new_template merges global_resources spec t j)

  abbrev pub Parses : JobType → Option (JobSpec B R X) → Type 0
  Parses t none = Unit
  Parses t (some j) = api.parses (effective_of t j.schedule) ≡ true

  handle_job_lem :
      (t : JobType) (j : Option (JobSpec B R X)) (s : Handled C (Template B R X))
      → IsLinked api s.scheduler
      → Parses t j
      → ((handle_job api merges global_resources checksum o spec t j s).0 ≡ false)
        × IsLinked api (handle_job api merges global_resources checksum o spec t j s).1.scheduler
        × ((k : String)
            → scheduled api k
                (handle_job api merges global_resources checksum o spec t j s).1.scheduler
              ≡ (if str_eq (key_of o t) k then plan t j else scheduled api k s.scheduler))
  unfolding drop_job add_job
  handle_job_lem t none s v good = (
    refl,
    remove_schedule-IsLinked api (key_of o t) s.scheduler v,
    λ k. remove_schedule-scheduled api (key_of o t) k s.scheduler v,
  )
  handle_job_lem t (some j) s v good =
      let es = cleanup_effective_schedules t j.schedule s.effective_schedules in
      let job = new_template merges global_resources spec t j in
      rw (get_effective_schedule_fresh checksum o t j.schedule es []) (
        let set = λ (k : String).
          set_schedule-scheduled api (key_of o t) k (effective_of t j.schedule) job s.scheduler v
            good in
        (
          rw (set "").0 refl,
          set_schedule-IsLinked api (key_of o t) (effective_of t j.schedule) job s.scheduler v
              (set "").0,
          λ k. (set k).1,
        ))

  -- What shall run under a key after the job types of the list are handled: the plan of the type that
  -- the key belongs to, and what ran before under the key of none.
  abbrev pub wanted :
      List JobType → String → Option (String × Template B R X) → Option (String × Template B R X)
  wanted [] k before = before
  wanted (t ∷ ts) k before =
      if str_eq (key_of o t) k then plan t (spec.specs t) else wanted ts k before

  wanted_planned :
      (t : JobType) (ts : List JobType) (k : String)
      → key_of o t ≡ k
      → wanted ts k (plan t (spec.specs t)) ≡ plan t (spec.specs t)
  wanted_planned t [] k e = refl
  wanted_planned t (u ∷ us) k e = elim (Bool-cases (str_eq (key_of o u) k)) [
    | inl here ↦
        let same : u ≡ t = key_of_injective o u t ((eq_iff (key_of o u) k).0 here ∙ sym e) in
        rw (here, same) refl
    | inr there ↦ rw there (wanted_planned t us k e)
  ]

  wanted_step :
      (t : JobType) (ts : List JobType) (k : String) (before : Option (String × Template B R X))
      → wanted ts k (if str_eq (key_of o t) k then plan t (spec.specs t) else before)
        ≡ wanted (t ∷ ts) k before
  wanted_step t ts k before = elim (Bool-cases (str_eq (key_of o t) k)) [
    | inl here ↦ rw here (wanted_planned t ts k ((eq_iff (key_of o t) k).0 here))
    | inr there ↦ rw there refl
  ]

  -- Let the references and the entries of the scheduler belong together, and let the cron table parse
  -- the effective schedule of every job type that has a spec. Whatever the order of the types is,
  -- createJobList then answers no error and keeps the references and the entries together; under the
  -- key of a type it handled runs the merged template by the effective schedule, or nothing if its
  -- spec is nil, and under every other key what ran before.
  pub create_job_list_lem :
      (order : List JobType) (k : String) (s : Handled C (Template B R X))
      → IsLinked api s.scheduler
      → ((t : JobType) → Parses t (spec.specs t))
      → let (failed, s') = create_job_list api merges global_resources checksum o spec order s in
        (failed ≡ false)
        × IsLinked api s'.scheduler
        × (scheduled api k s'.scheduler ≡ wanted order k (scheduled api k s.scheduler))
  unfolding create_job_list
  create_job_list_lem [] k s v good = (refl, v, refl)
  create_job_list_lem (t ∷ ts) k s v good =
      let (ok, v', ran) = handle_job_lem t (spec.specs t) s v (good t) in
      let (rest_ok, linked, rest_ran) = create_job_list_lem ts k _ v' good in
      rw ok (rest_ok, linked, rest_ran ∙ rw (ran k) (wanted_step t ts k _))

  wanted_member :
      (order : List JobType) (t : JobType) (before : Option (String × Template B R X))
      → anyb (λ u. same_type u t) order ≡ true
      → wanted order (key_of o t) before ≡ plan t (spec.specs t)
  wanted_member [] t before h = absurd (cc (h))
  wanted_member (u ∷ us) t before h = elim (Bool-cases (same_type u t)) [
    | inl e ↦ rw (same_type_eq u t e, eq_refl (key_of o t)) refl
    | inr e ↦ elim (Bool-cases (str_eq (key_of o u) (key_of o t))) [
      | inl here ↦
          let same : u ≡ t = key_of_injective o u t ((eq_iff (key_of o u) (key_of o t)).0 here) in
          rw (here, same) refl
      | inr there ↦ rw there (wanted_member us t before (rw e at h))
    ]
  ]

  -- Let the references and the entries of the scheduler belong together, and let the cron table parse
  -- the effective schedule of every job type that has a spec. Then for a job type in both of two
  -- orders in which Go may iterate over the types, the same runs after createJobList.
  pub create_job_list_order :
      (order order' : List JobType) (t : JobType) (s : Handled C (Template B R X))
      → IsLinked api s.scheduler
      → ((u : JobType) → Parses u (spec.specs u))
      → anyb (λ u. same_type u t) order ≡ true
      → anyb (λ u. same_type u t) order' ≡ true
      → let one = create_job_list api merges global_resources checksum o spec order s in
        let other = create_job_list api merges global_resources checksum o spec order' s in
        scheduled api (key_of o t) one.1.scheduler ≡ scheduled api (key_of o t) other.1.scheduler
  create_job_list_order order order' t s v good h h' =
      let one = create_job_list_lem order (key_of o t) s v good in
      let other = create_job_list_lem order' (key_of o t) s v good in
      one.2 ∙ wanted_member order t _ h ∙ sym (wanted_member order' t _ h') ∙ sym other.2
