-- ===== src/ScheduleHandler.antt =====
-- The handler of a Schedule (operator/schedulecontroller/handler.go) and the controller's
-- Deprovision. The scheduler of the process, the effective schedules of the object's status and the
-- metrics are the state. `B`, `R` and `X` stand for backends, resources and pod security contexts,
-- and `Merges` for dario.cat/mergo, which fills the unset fields of its first argument.
pub mod Registered
pub mod Drift
mod Examples
use k8up.Prelude.{
  ℕ, String, Bool, true, false, not, Option, none, some, List, [], ◌∷◌, concat, if◌then◌else◌,
}
use k8up.JobObject.{
  JobType, job_type_string, backup_type, check_type, archive_type, restore_type, prune_type,
}
use k8up.Metrics.{Metrics, inc_registered_schedules_gauge, dec_registered_schedules_gauge}
use k8up.Scheduler.{CronApi, Scheduler, set_schedule, remove_schedule, has_schedule}
use k8up.Schedules.{
  Identity, EffectiveSchedule, cleanup_effective_schedules, get_effective_schedule,
}

-- The fields of a job's schedule spec that the handler reads or fills.
pub record JobSpec (B R X : Type 0) : Type 0 where
  pub schedule : String
  pub pod_config_ref : Option String
  pub backend : Option B
  pub resources : R
  pub pod_security_context : Option X

-- ScheduleSpec, with `none` for a nil spec of a job type.
pub record ScheduleSpec (B R X : Type 0) : Type 0 where
  pub specs : JobType → Option (JobSpec B R X)
  pub pod_config_ref : Option String
  pub backend : Option B
  pub resource_requirements_template : R
  pub pod_security_context : Option X

pub record Merges (B R X : Type 0) : Type 0 where
  -- Of a backend with one that may be nil.
  pub backends : B → Option B → B
  pub resources : R → R → R
  pub security_contexts : X → X → X

-- The job object that a run of the schedule creates: its type and its merged spec.
pub record Template (B R X : Type 0) : Type 0 where
  pub job_type : JobType
  pub spec : JobSpec B R X

unfoldable pub key_of : Identity → JobType → String
key_of o t = concat (o.namespace ∷ "/" ∷ o.name ∷ "/" ∷ job_type_string t ∷ [])

module _ {B R X : Type 0} (merges : Merges B R X) (global_resources : R) where
  abbrev pub merge_resources : ScheduleSpec B R X → R → R
  merge_resources spec r =
      merges.resources (merges.resources r spec.resource_requirements_template) global_resources

  abbrev pub merge_backend : Option B → Option B → Option B
  merge_backend defaults none = defaults
  merge_backend defaults (some b) = some (merges.backends b defaults)

  abbrev pub merge_security_context : Option X → Option X → Option X
  merge_security_context defaults none = defaults
  merge_security_context none (some x) = some x
  merge_security_context (some d) (some x) = some (merges.security_contexts x d)

  unfoldable pub merge_with_defaults : ScheduleSpec B R X → JobSpec B R X → JobSpec B R X
  merge_with_defaults spec j = record j {
    resources = merge_resources spec j.resources;
    backend = merge_backend spec.backend j.backend;
    pod_security_context = merge_security_context spec.pod_security_context j.pod_security_context;
  }

  abbrev pub or_else : Option String → Option String → Option String
  or_else none defaults = defaults
  or_else (some r) defaults = some r

  -- The constructor functions of createJobList, which are alike for the five types.
  unfoldable pub new_template : ScheduleSpec B R X → JobType → JobSpec B R X → Template B R X
  unfolding merge_with_defaults
  new_template spec t j =
      let merged = merge_with_defaults spec j in
      record {
        job_type = t;
        spec = record merged { pod_config_ref = or_else merged.pod_config_ref spec.pod_config_ref };
      }

pub record Handled (C J : Type 0) : Type 0 where
  pub scheduler : Scheduler C J
  pub effective_schedules : List EffectiveSchedule
  pub metrics : Metrics

module _ {C B R X : Type 0} (api : CronApi C (Template B R X)) (merges : Merges B R X)
    (global_resources : R) (checksum : String → ℕ) (o : Identity) (spec : ScheduleSpec B R X) where
  -- A nil spec.
  unfoldable pub drop_job : JobType → Handled C (Template B R X) → Handled C (Template B R X)
  drop_job t s =
      let has = has_schedule api (key_of o t) s.scheduler in
      record {
        scheduler = remove_schedule api (key_of o t) s.scheduler;
        effective_schedules = cleanup_effective_schedules t "" s.effective_schedules;
        metrics = if has then dec_registered_schedules_gauge o.namespace s.metrics else s.metrics;
      }

  unfoldable pub add_job :
      JobType → JobSpec B R X → Handled C (Template B R X) → Bool × Handled C (Template B R X)
  add_job t j s =
      let has = has_schedule api (key_of o t) s.scheduler in
      let (effective, es) =
        get_effective_schedule checksum o t j.schedule
          (cleanup_effective_schedules t j.schedule s.effective_schedules) in
      let (ok, scheduler) =
        set_schedule api (key_of o t) effective (new_template merges global_resources spec t j)
          s.scheduler in
      (
        not ok,
        record {
          scheduler = scheduler;
          effective_schedules = es;
          metrics = if has then s.metrics else inc_registered_schedules_gauge o.namespace s.metrics;
        },
      )

  -- One round of createJobList's loop, with whether it returns an error.
  abbrev pub handle_job :
      JobType
      → Option (JobSpec B R X)
      → Handled C (Template B R X)
      → Bool × Handled C (Template B R X)
  handle_job t none s = (false, drop_job t s)
  handle_job t (some j) s = add_job t j s

  -- The loop of createJobList over the job types in the order in which Go iterates over the map.
  unfoldable pub create_job_list :
      List JobType → Handled C (Template B R X) → Bool × Handled C (Template B R X)
  create_job_list [] s = (false, s)
  create_job_list (t ∷ ts) s =
      let (failed, s') = handle_job t (spec.specs t) s in
      let rest = create_job_list ts s' in if failed then (true, s') else rest

  remove_all : List JobType → Scheduler C (Template B R X) → Scheduler C (Template B R X)
  remove_all [] s = s
  remove_all (t ∷ ts) s = remove_all ts (remove_schedule api (key_of o t) s)

  -- Deprovision, less the finalizer.
  unfoldable pub deprovision : Handled C (Template B R X) → Handled C (Template B R X)
  unfolding remove_all
  deprovision s = record s {
    scheduler =
        remove_all (prune_type ∷ archive_type ∷ restore_type ∷ backup_type ∷ check_type ∷ [])
          s.scheduler;
  }
