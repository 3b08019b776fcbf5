-- ===== src/ScheduleHandler/Examples.antt =====
-- Schedules with a backup, and with an annual random check.
use k8up.Prelude.{
  ℕ, String, ◌≡◌, refl, Bool, false, Option, none, some, List, [], ◌∷◌, itoa, ◌==◌, if◌then◌else◌,
}
use k8up.JobObject.{
  JobType, backup_type, check_type, archive_type, restore_type, prune_type, schedule_type,
}
use k8up.Metrics.{no_metrics}
use k8up.Scheduler.{new_scheduler, has_schedule}
use k8up.Scheduler.Table.{Table, table}
use k8up.Scheduler.Links.{IsLinked, new_scheduler-IsLinked}
use k8up.Scheduler.Agreement.{scheduled}
use k8up.Schedules.{
  Identity, get_effective_schedule, create_random_schedule, randomize_schedule,
  remainder_from_modulo,
}
use k8up.ScheduleHandler.{
  JobSpec, ScheduleSpec, Merges, Template, Handled, key_of, create_job_list, deprovision,
}
use k8up.ScheduleHandler.Registered.{Parses, wanted, create_job_list_lem}
use k8up.ScheduleHandler.Drift.{Moved, registered, create_job_list-Moved, deprovision_lem}

abbrev Job : Type 0
Job = Template String ℕ Bool

-- Fills what is not set.
abbrev merges : Merges String ℕ Bool
merges = record {
  backends = λ b d. b;
  resources = λ r d. if r == 0 then d else r;
  security_contexts = λ x d. x;
}

abbrev nightly : Identity
nightly = record { namespace = "ns"; name = "nightly" }

abbrev checksum : String → ℕ
checksum s = 123452

abbrev job_spec : String → JobSpec String ℕ Bool
job_spec schedule = record {
  schedule = schedule;
  pod_config_ref = none;
  backend = none;
  resources = 0;
  pod_security_context = none;
}

abbrev only_backup : JobType → Option (JobSpec String ℕ Bool)
only_backup backup_type = some (job_spec "@daily-random")
only_backup _ = none

abbrev spec : ScheduleSpec String ℕ Bool
spec = record {
  specs = only_backup;
  pod_config_ref = some "pods";
  backend = some "s3:bucket";
  resource_requirements_template = 5;
  pod_security_context = none;
}

abbrev order : List JobType
order = prune_type ∷ backup_type ∷ check_type ∷ restore_type ∷ archive_type ∷ []

abbrev fresh : Handled (Table Job) Job
fresh = record { scheduler = new_scheduler []; effective_schedules = []; metrics = no_metrics }

fresh-IsLinked : IsLinked table fresh.scheduler
fresh-IsLinked = new_scheduler-IsLinked table [] (λ id. refl)

parses : (t : JobType) → Parses table merges 7 checksum nightly spec t (only_backup t)
unfolding get_effective_schedule create_random_schedule randomize_schedule remainder_from_modulo
    itoa
parses backup_type = refl
parses check_type = tt
parses archive_type = tt
parses restore_type = tt
parses prune_type = tt
parses schedule_type = tt

create_job_list_lem_example :
    let (failed, s') = create_job_list table merges 7 checksum nightly spec order fresh in
    (failed ≡ false)
    × IsLinked table s'.scheduler
    × (scheduled table "ns/nightly/backup" s'.scheduler
        ≡ wanted table merges 7 checksum nightly spec order "ns/nightly/backup"
            (scheduled table "ns/nightly/backup" fresh.scheduler))
create_job_list_lem_example =
    create_job_list_lem table merges 7 checksum nightly spec order "ns/nightly/backup" fresh
      fresh-IsLinked parses

create_job_list-Moved_example :
    let s' = (create_job_list table merges 7 checksum nightly spec order fresh).1 in
    Moved
      (no_metrics.schedules "ns")
      (s'.metrics.schedules "ns")
      (registered table merges 7 checksum nightly spec order fresh.scheduler)
      (registered table merges 7 checksum nightly spec order s'.scheduler)
create_job_list-Moved_example =
    create_job_list-Moved table merges 7 checksum nightly spec order fresh refl
      (create_job_list_lem table merges 7 checksum nightly spec order "" fresh fresh-IsLinked
        parses).0

deprovision_lem_example :
    let s = (create_job_list table merges 7 checksum nightly spec order fresh).1 in
    let s' = deprovision table merges 7 checksum nightly spec s in
    (has_schedule table (key_of nightly backup_type) s'.scheduler ≡ false)
    × (s'.metrics.schedules "ns" ≡ s.metrics.schedules "ns")
deprovision_lem_example =
    deprovision_lem table merges 7 checksum nightly spec backup_type "ns"
      (create_job_list table merges 7 checksum nightly spec order fresh).1 refl
