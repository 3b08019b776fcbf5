-- ===== src/ScheduleHandler/Drift.antt =====
-- The gauge of registered schedules against what is registered with the scheduler.
use k8up.Prelude.{
  ℕ, ◌+◌, String, ◌≡◌, refl, Bool, true, false, not, ◌&&◌, ◌||◌, Option, none, some, List, [], ◌∷◌,
  anyb, str_eq, eq_refl, if◌then◌else◌, is_some, arith, Bool-cases, inl, inr,
}
use k8up.Prelude.Int.{ℤ, pos_part, neg_part}
use k8up.JobObject.{
  JobType, same_type, same_type_sym, backup_type, check_type, archive_type, restore_type,
  prune_type, schedule_type,
}
use k8up.Metrics.{inc_registered_schedules_gauge, dec_registered_schedules_gauge}
use k8up.Scheduler.{CronApi, Scheduler, has_schedule}
use k8up.Scheduler.Agreement.{has_schedule-set_schedule, has_schedule-remove_schedule}
use k8up.Scheduler.Failure.{set_schedule-refused}
use k8up.Schedules.Effective.{get_effective_schedule_fresh}
use k8up.Schedules.{Identity, get_effective_schedule, cleanup_effective_schedules}
use k8up.ScheduleHandler.{
  JobSpec, ScheduleSpec, Merges, Template, Handled, key_of, new_template, drop_job, add_job,
  handle_job, create_job_list, deprovision, remove_all,
}
use k8up.ScheduleHandler.Registered.{key_of-same, effective_of}

-- b - a is the difference from g to g'.
abbrev pub Moved : ℤ → ℤ → ℕ → ℕ → Type 0
Moved g g' a b = pos_part g' + neg_part g + a ≡ pos_part g + neg_part g' + b

abbrev bit : Bool → ℕ
bit true = 1
bit false = 0

one_of_five :
    (t : JobType) (b : Bool)
    → same_type t schedule_type ≡ false
    → anyb
          (λ u. same_type u t)
          (prune_type ∷ archive_type ∷ restore_type ∷ backup_type ∷ check_type ∷ [])
        || b
      ≡ true
one_of_five backup_type b h = refl
one_of_five check_type b h = refl
one_of_five archive_type b h = refl
one_of_five restore_type b h = refl
one_of_five prune_type b h = refl
one_of_five schedule_type b h = absurd (cc (h))

module _ {C B R X : Type 0} (api : CronApi C (Template B R X)) (merges : Merges B R X)
    (global_resources : R) (checksum : String → ℕ) (o : Identity) (spec : ScheduleSpec B R X) where
  has_schedule-handle_job :
      (t : JobType) (k : String) (j : Option (JobSpec B R X)) (s : Handled C (Template B R X))
      → (handle_job api merges global_resources checksum o spec t j s).0 ≡ false
      → has_schedule api k
          (handle_job api merges global_resources checksum o spec t j s).1.scheduler
        ≡ (if str_eq (key_of o t) k then is_some j else has_schedule api k s.scheduler)
  unfolding drop_job add_job
  has_schedule-handle_job t k none s ok =
      has_schedule-remove_schedule api (key_of o t) k s.scheduler
  has_schedule-handle_job t k (some j) s ok = ground (
    arith,
    has_schedule-set_schedule api (key_of o t) k
        (get_effective_schedule checksum o t j.schedule
          (cleanup_effective_schedules t j.schedule s.effective_schedules)).0
        (new_template merges global_resources spec t j) s.scheduler,
  )

  handle_job-Moved :
      (t : JobType) (j : Option (JobSpec B R X)) (s : Handled C (Template B R X))
      → Moved
          (s.metrics.schedules o.namespace)
          ((handle_job api merges global_resources checksum o spec t j s).1.metrics.schedules
            o.namespace)
          (bit (has_schedule api (key_of o t) s.scheduler))
          (bit (is_some j))
  unfolding drop_job add_job inc_registered_schedules_gauge dec_registered_schedules_gauge
  handle_job-Moved t none s = ground (arith, eq_refl o.namespace)
  handle_job-Moved t (some j) s = ground (arith, eq_refl o.namespace)

  -- How many of the job types have a key that counts as scheduled.
  abbrev pub registered : List JobType → Scheduler C (Template B R X) → ℕ
  registered [] s = 0
  registered (t ∷ ts) s = bit (has_schedule api (key_of o t) s) + registered ts s

  registered-handle_job :
      (t : JobType) (j : Option (JobSpec B R X)) (ts : List JobType)
      (s : Handled C (Template B R X))
      → (handle_job api merges global_resources checksum o spec t j s).0 ≡ false
      → anyb (λ u. same_type u t) ts ≡ false
      → registered ts (handle_job api merges global_resources checksum o spec t j s).1.scheduler
        ≡ registered ts s.scheduler
  registered-handle_job t j [] s ok h = refl
  registered-handle_job t j (u ∷ us) s ok h = ground (
    arith,
    registered-handle_job t j us s ok,
    has_schedule-handle_job t (key_of o u) j s ok,
    key_of-same o t u,
    same_type_sym t u,
  )

  has_schedule-create_job_list :
      (t : JobType) (ts : List JobType) (s : Handled C (Template B R X))
      → (create_job_list api merges global_resources checksum o spec ts s).0 ≡ false
      → anyb (λ u. same_type u t) ts ≡ false
      → has_schedule api
          (key_of o t)
          (create_job_list api merges global_resources checksum o spec ts s).1.scheduler
        ≡ has_schedule api (key_of o t) s.scheduler
  unfolding create_job_list
  has_schedule-create_job_list t [] s ok h = refl
  has_schedule-create_job_list t (u ∷ us) s ok h =
      let step = handle_job api merges global_resources checksum o spec u (spec.specs u) s in
      elim (Bool-cases step.0) [
        | inl bad ↦ absurd (cc (rw bad at ok))
        | inr fine ↦ rw fine (
            ground (
              arith,
              has_schedule-create_job_list t us step.1,
              has_schedule-handle_job u (key_of o t) (spec.specs u) s fine,
              key_of-same o u t,
            ))
      ]

  -- No type twice.
  abbrev pub no_repeats : List JobType → Bool
  no_repeats [] = true
  no_repeats (t ∷ ts) = not (anyb (λ u. same_type u t) ts) && no_repeats ts

  -- If createJobList answers no error, over an order of the job types without repetition, the gauge of
  -- the namespace moves by as much as the number of these types that count as scheduled.
  pub create_job_list-Moved :
      (order : List JobType) (s : Handled C (Template B R X))
      → no_repeats order ≡ true
      → (create_job_list api merges global_resources checksum o spec order s).0 ≡ false
      → let s' = (create_job_list api merges global_resources checksum o spec order s).1 in
        Moved
          (s.metrics.schedules o.namespace)
          (s'.metrics.schedules o.namespace)
          (registered order s.scheduler)
          (registered order s'.scheduler)
  unfolding create_job_list
  create_job_list-Moved [] s h ok = refl
  create_job_list-Moved (t ∷ ts) s h ok =
      let step = handle_job api merges global_resources checksum o spec t (spec.specs t) s in
      elim (Bool-cases step.0) [
        | inl bad ↦ absurd (cc (rw bad at ok))
        | inr fine ↦
            let rest_ok = rw fine at ok in
            rw fine (
              ground (
                arith,
                create_job_list-Moved ts step.1,
                handle_job-Moved t (spec.specs t) s,
                registered-handle_job t (spec.specs t) ts s fine,
                has_schedule-create_job_list t ts step.1,
                has_schedule-handle_job t (key_of o t) (spec.specs t) s fine,
                eq_refl (key_of o t),
              ))
      ]

  -- If a job type is not scheduled and the cron table cannot parse its effective schedule, the handler
  -- answers an error and the type stays unscheduled, but the gauge of the namespace is one higher.
  pub add_job_unparsable :
      (t : JobType) (j : JobSpec B R X) (s : Handled C (Template B R X))
      → has_schedule api (key_of o t) s.scheduler ≡ false
      → api.parses (effective_of api merges global_resources checksum o spec t j.schedule) ≡ false
      → let (failed, s') = add_job api merges global_resources checksum o spec t j s in
        (failed ≡ true)
        × (has_schedule api (key_of o t) s'.scheduler ≡ false)
        × Moved (s.metrics.schedules o.namespace) (s'.metrics.schedules o.namespace) 0 1
  unfolding add_job inc_registered_schedules_gauge
  add_job_unparsable t j s new bad =
      let es = cleanup_effective_schedules t j.schedule s.effective_schedules in
      let refused =
        set_schedule-refused api (key_of o t)
          (effective_of api merges global_resources checksum o spec t j.schedule)
          (new_template merges global_resources spec t j) s.scheduler bad in
      rw (get_effective_schedule_fresh checksum o t j.schedule es [], refused)
        (ground (
          arith,
          has_schedule-set_schedule api (key_of o t) (key_of o t)
              (effective_of api merges global_resources checksum o spec t j.schedule)
              (new_template merges global_resources spec t j) s.scheduler,
          refused,
          eq_refl o.namespace,
        ))

  has_schedule-remove_all :
      (ts : List JobType) (t : JobType) (s : Scheduler C (Template B R X))
      → anyb (λ u. same_type u t) ts || not (has_schedule api (key_of o t) s) ≡ true
      → has_schedule api (key_of o t) (remove_all api merges global_resources checksum o spec ts s)
        ≡ false
  unfolding remove_all
  has_schedule-remove_all [] t s h = ground arith
  has_schedule-remove_all (u ∷ us) t s h = has_schedule-remove_all us t _ (
      ground
        (arith, has_schedule-remove_schedule api (key_of o u) (key_of o t) s, key_of-same o u t))

  -- After Deprovision no job type of the object counts as scheduled, and the gauge of registered
  -- schedules is for every namespace what it was.
  pub deprovision_lem :
      (t : JobType) (n : String) (s : Handled C (Template B R X))
      → same_type t schedule_type ≡ false
      → let s' = deprovision api merges global_resources checksum o spec s in
        (has_schedule api (key_of o t) s'.scheduler ≡ false)
        × (s'.metrics.schedules n ≡ s.metrics.schedules n)
  unfolding deprovision
  deprovision_lem t n s h = (
    has_schedule-remove_all
        (prune_type ∷ archive_type ∷ restore_type ∷ backup_type ∷ check_type ∷ []) t s.scheduler
        (one_of_five t _ h),
    refl,
  )
