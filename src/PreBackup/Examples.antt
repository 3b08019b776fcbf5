-- ===== src/PreBackup/Examples.antt =====
-- Runs of the pre-backup of a backup.
use k8up.Prelude.{
  ◌≡◌, refl, String, true, false, none, some, List, [], ◌∷◌, lookup, if◌then◌else◌, str_eq,
}
use k8up.Prelude.Int.{pos}
use k8up.Status.{
  Status, Condition, has_started, has_finished, condition_true, condition_false, condition_scrubbed,
  condition_pre_backup_pod_ready, reason_failed, reason_succeeded, reason_creation_failed,
  has_failed_pre_backup,
}
use k8up.Status
use k8up.Status.Plain.{plain}
use k8up.JobObject.{backup_type}
use k8up.Metrics.{no_metrics}
use k8up.Job.{found, missing, done}
use k8up.Locker.{try_run}
use k8up.Backends.{Configuration}
use k8up.Controllers.{Answers, Executor, other, reply_after}
use k8up.BackupController.{provision_backup}
use k8up.PreBackup
use k8up.PreBackup.Running
use k8up.PreBackup.{
  ApiServer, PreBackupPod, Deployments, Deployment, Naming, DeploymentCondition,
  fetch_pre_backup_pod_templates, deployment_of,
}
use k8up.PreBackup.Running.{Work, start_pre_backup, stop_pre_backup_deployments, pre_backup_false}
use k8up.PreBackup.Verdict.{IsTold, start_pre_backup-IsTold}
use k8up.PreBackup.Stopping.{
  stop_pre_backup_deployments-lookup, stop_hides_refusal, is_removed, templates_of, finished,
}
use k8up.PreBackup.Reruns.{stopped_backup_restarts}

abbrev naming : Naming
naming = record {
  backup_command_annotation = "k8up.io/backupcommand";
  file_extension_annotation = "k8up.io/file-extension";
  owner_uid = "u-1";
}

abbrev database : PreBackupPod
database = record { name = "db"; backup_command = "pg_dump"; file_extension = ".sql" }

abbrev queue : PreBackupPod
queue = record { name = "mq"; backup_command = "dump"; file_extension = ".bin" }

-- Selectors are names, and the deletion of "mq" is refused.
abbrev k8s : ApiServer String
k8s = record {
  list = some (database ∷ queue ∷ []);
  select = λ name. if str_eq name "db" then some (database ∷ []) else some (database ∷ queue ∷ []);
  get_fails = λ name. false;
  create_fails = λ name. false;
  delete_fails = λ name. str_eq name "mq";
  order = λ ps. ps;
}

abbrev status_of : List Condition → Status
status_of cs = record { started = false; finished = false; exclusive = false; conditions = cs }

abbrev work_of : List Condition → Deployments → Work
work_of cs ds = record {
  object = record {
    name = "nightly";
    namespace = "shop";
    job_type = backup_type;
    created = 3;
    labels = [];
    owners = [];
    status = status_of cs;
    keep_jobs = none;
    failed_limit = none;
    successful_limit = none;
  };
  metrics = no_metrics;
  rest = ds;
}

abbrev deployed : PreBackupPod → Deployment
deployed p = record {
  name = p.name;
  namespace = "shop";
  labels = [];
  pod_labels = [];
  pod_annotations = [];
  available_replicas = 1;
  conditions = [];
}

abbrev up : Deployments
up = ("db", deployed database) ∷ ("mq", deployed queue) ∷ []

-- The pods of several selectors are each started once.
select_run :
    fetch_pre_backup_pod_templates k8s (some ("db" ∷ "all" ∷ [])) ≡ some (database ∷ queue ∷ [])
unfolding fetch_pre_backup_pod_templates PreBackup.collect_pods PreBackup.add_pods
select_run = refl

-- The first start creates the deployments and waits for them.
start_run :
    ((start_pre_backup plain k8s naming none (work_of [] [])).is_ready ≡ false)
    × ((start_pre_backup plain k8s naming none (work_of [] up)).is_ready ≡ true)
unfolding start_pre_backup fetch_pre_backup_pod_templates Running.start_from
    Running.start_all_pre_backup_deployments Running.fetch_all Running.on_fetched
    Running.add_fetched Running.fetch_or_create_pre_backup_deployment Running.got Running.conclude
    Running.all_deployments_are_ready Running.on_deployment PreBackup.generate_deployments
    PreBackup.deployment_of PreBackup.is_pre_backup_deployment_ready
    PreBackup.get_progressing_condition PreBackup.has_available_replica
start_run = (refl, refl)

stop_pre_backup_deployments-lookup_example :
    lookup "db" (stop_pre_backup_deployments plain k8s naming none (work_of [] up)).rest ≡ (
      if is_removed k8s "db" (templates_of (fetch_pre_backup_pod_templates k8s none))
      then none
      else lookup "db" up)
stop_pre_backup_deployments-lookup_example =
    stop_pre_backup_deployments-lookup plain k8s naming none (work_of [] up) "db"

stop_hides_refusal_example :
    let w' = stop_pre_backup_deployments plain k8s naming none (work_of [] up) in
    (lookup "mq" w'.rest ≡ some (deployed queue))
    × (plain.find w'.object.status.conditions condition_pre_backup_pod_ready ≡ some finished)
stop_hides_refusal_example =
    stop_hides_refusal plain k8s naming none database (queue ∷ []) (work_of [] up) "mq"
      (unfold fetch_pre_backup_pod_templates in refl) refl

start_pre_backup-IsTold_example :
    IsTold plain (start_pre_backup plain k8s naming none (work_of [] []))
start_pre_backup-IsTold_example = start_pre_backup-IsTold plain k8s naming none (work_of [] [])

abbrev settings : Configuration
settings = record {
  s3_endpoint = "http://minio";
  s3_bucket = "global";
  restore_s3_access_key = "";
  restore_s3_secret_access_key = "";
  restore_s3_endpoint = "";
  restore_s3_bucket = "";
}

abbrev executor : Executor Deployments
executor = record { execute = λ p. (false, p); cleanup = λ p. p; limit = pos 0 }

abbrev answers : Answers
answers = record {
  job = missing;
  update = done;
  status_failure = other;
  jobs = λ repository. found [];
  run_failure = other;
}

abbrev creation_failed : Condition
creation_failed = record {
  kind = condition_pre_backup_pod_ready;
  status = condition_false;
  reason = reason_creation_failed;
  message = "error creating pre backup pod";
}

abbrev not_created : Work
not_created = work_of (creation_failed ∷ []) []

-- Before the stop this backup has finished.
not_created_run : has_finished plain not_created.object.status ≡ true
unfolding has_finished Status.has_failed has_failed_pre_backup Status.is_pre_backup_failed
    Status.match_any_reason
not_created_run = refl

stopped_backup_restarts_example :
    let stop = stop_pre_backup_deployments plain k8s naming none in
    (has_finished plain (stop not_created).object.status ≡ false)
    × (provision_backup plain settings stop executor none (some []) answers (stop not_created)
        ≡ reply_after 30 other
            (try_run (found []) backup_type (pos 0) executor.execute (stop not_created)))
stopped_backup_restarts_example =
    stopped_backup_restarts plain k8s settings naming none database (queue ∷ []) executor none
      answers not_created (unfold fetch_pre_backup_pod_templates in refl)
      (record { not_completed = refl; not_started = unfold has_started in refl })

abbrev deadline : Condition
deadline = record {
  kind = condition_pre_backup_pod_ready;
  status = condition_false;
  reason = reason_failed;
  message = "error starting pre backup pod";
}

abbrev scrubbed : Condition
scrubbed = record {
  kind = condition_scrubbed;
  status = condition_true;
  reason = reason_succeeded;
  message = "";
}

abbrev late : Work
late = work_of (deadline ∷ scrubbed ∷ []) (("db", deployed database) ∷ [])
