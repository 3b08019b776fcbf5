-- ===== src/Lib.antt =====
-- A verification library of the K8up operator (Go): backups of Kubernetes volumes with restic.
--
-- The operator watches objects (Backup, Check, Archive, Restore, Prune, Schedule) and turns each of
-- them into batch jobs that run restic. Its parts, and the files that model them:
--
-- - Status: the conditions of a job object and the queries and updates of them
--   (api/v1/status.go, api/v1/common_types.go). FindStatusCondition, SetStatusCondition and
--   RemoveStatusCondition belong to k8s.io/apimachinery and are the record ConditionApi, with their
--   documented effect on the entry of a type; Status/Plain.antt meets it.
-- - JobObject: the objects and their order by age (api/v1/job_object.go).
-- - Metrics: the counters and gauges (operator/monitoring/prometheus.go).
-- - Job: how the state of a batch job becomes the status of its object (operator/job/job.go). The
--   object and the metrics are passed along, where the code changes them in place.
-- - Cleaner: the history limits and the deletion of old jobs (operator/executor/cleaner/cleaner.go,
--   operator/cfg/config.go). The API server is a function from a deletion to its answer.
-- - Locker: which jobs may run side by side on a repository (operator/locker/locker.go), with the
--   starts of the five controllers. A call under the mutex is one step. A job that has been created has no
--   active pod yet, and its pods come and go in steps of their own.
-- - Scheduler: the table of cron entries and the references to them by key
--   (operator/scheduler/scheduler.go). github.com/robfig/cron/v3 is the record CronApi, with the
--   documented effect of AddFunc and Remove; Scheduler/Table.antt meets it.
-- - Schedules: random schedules and the effective schedules in the status of a Schedule
--   (operator/schedulecontroller/randomizer.go, effectiveschedule.go). SHA1 of the seed is any function.
-- - ScheduleHandler: createJobList and Deprovision (operator/schedulecontroller/handler.go,
--   controller.go), over the scheduler, the effective schedules and the metrics. The order in which Go
--   iterates over the map of job types is an argument. The merges of dario.cat/mergo are parameters.
-- - Snapshots: the synchronisation of Snapshot objects with a repository (restic/kubernetes/snapshots.go).
-- - Pods: the pods whose annotations ask for a backup command (restic/kubernetes/pod_list.go).
-- - Claims: which claims a backup covers and on which node (listAndFilterPVCs and findNode of
--   operator/backupcontroller/executor.go). The index of an empty list of values is a panic.
-- - Grouping: how the covered claims become batch jobs (startBackup of the same file), up to the map of
--   job items; creating them in the cluster is left out.
-- - Retention: the retention policy, its validation and the arguments of `restic forget`, with the flags
--   of the restic wrapper (restic/cfg/config.go, restic/cli/prune.go, flags.go, restic.go).
-- - RestoreConfig: the validation of a restore's configuration (restic/cfg/config.go).
-- - Locks: the loop that waits for the locks of a repository (restic/cli/wait.go). What the commands
--   answer in each round is an argument, and the rounds are fuel: any number that covers the locked ones.
-- - Backends: the repository strings and the credentials of the seven backends, and the choice of an
--   object's repository (api/v1/backend.go, operator/cfg/config.go).
-- - Controllers: the generic controller (operator/reconciler/reconciler.go) and a pass of the controllers
--   of checks, prunes, restores and archives (operator/*controller/controller.go). A pass is a function
--   from the state it finds; what the API server answers and what the executors do are parameters.
-- - BackupController: the status of a backup by its batch jobs and a pass of its controller
--   (operator/backupcontroller/controller.go).
-- - PreBackup: the deployments of the pre-backup pods (operator/backupcontroller/prebackup.go,
--   prebackup_utils.go, operator/job/status.go). The state is a pass of the backup controller over the
--   deployments of the namespace, so that a stop can be followed by the next pass. Conditions are those
--   of the object in memory.
-- - Siblings: which old jobs a job cleans up (operator/executor/generic.go), over Cleaner.
-- - Restores: the choice of a snapshot, restores and archives (restic/cli/restore.go, snapshots.go,
--   archive.go). The transfer to S3 is one answer; a panic is an error.
-- - BackupRuns: the processes of a backup and the synchronisation at its end (restic/cli/backup.go), over
--   Retention's flags and Snapshots.
-- - Wrapper: the order in which the restic wrapper does its work (cmd/restic/main.go).
-- - Volumes: the volumes and mounts of a job's pod and its TLS arguments (operator/utils/utils.go).
-- - EnvVars: the environment and the arguments of the jobs of checks, prunes, restores and archives
--   (operator/executor/envvarconverter.go, setupEnvVars and setupArgs of operator/*controller/executor.go),
--   and the job of a restore. A nil pointer that is read is the outcome `panicked`.
--   mergo.Merge is the record MergeApi, with its documented effect on an entry; EnvVars/Plain.antt meets it.
--
-- Texts are native strings; Go's maps keyed by strings are association lists or functions; Go's int is
-- ℤ where it can be negative and ℕ where it counts, without a bound: the numbers counted are numbers of
-- objects. Loops recur on their lists; fuel is used in Locks, and in the decimal printer, where a
-- number is given more rounds than it has digits. Log messages are left out.
pub mod Prelude
pub mod Status
pub mod JobObject
pub mod Metrics
pub mod Job
pub mod Cleaner
pub mod Locker
pub mod Scheduler
pub mod Schedules
pub mod ScheduleHandler
pub mod Snapshots
pub mod Pods
pub mod Grouping
pub mod Claims
pub mod Retention
pub mod Locks
pub mod RestoreConfig
pub mod Backends
pub mod Controllers
pub mod BackupController
pub mod PreBackup
pub mod Siblings
pub mod Restores
pub mod BackupRuns
pub mod Wrapper
pub mod Volumes
pub mod EnvVars
