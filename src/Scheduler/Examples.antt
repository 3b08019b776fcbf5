-- ===== src/Scheduler/Examples.antt =====
-- A scheduler with two schedules of one object.
use k8up.Prelude.{String, ◌≡◌, refl, none, some, []}
use k8up.Scheduler.{ScheduleRef, Scheduler, new_scheduler, set_schedule, remove_existing, store}
use k8up.Scheduler.Table.{Table, table}
use k8up.Scheduler.Agreement.{scheduled}

abbrev backup_key : String
backup_key = "ns/nightly/backup"

abbrev check_key : String
check_key = "ns/nightly/check"

abbrev fresh : Scheduler (Table String) String
fresh = new_scheduler []

abbrev one : Scheduler (Table String) String
one = (set_schedule table backup_key "5 4 * * *" "backup" fresh).1

-- The second function replaces the first one, whose entry is removed.
replaced_run :
    let s = (set_schedule table backup_key "6 5 * * *" "again" one).1 in
    (scheduled table backup_key s ≡ some ("6 5 * * *", "again")) × (table.entry s.cron 0 ≡ none)
unfolding set_schedule store remove_existing scheduled
replaced_run = (refl, refl)

abbrev backup_ref : ScheduleRef String
backup_ref = record { entry_id = 0; schedule = "5 4 * * *"; runnable = "backup" }
