-- ===== src/EnvVars/Examples.antt =====
-- The environments of jobs with and without a backend.
use k8up.Prelude.{◌≡◌, refl, true, false, not, none, some, [], ◌∷◌}
use k8up.Prelude.Int.{pos, negsuc}
use k8up.Backends.{Backend}
use k8up.EnvVars.{Configuration, convert, convert_all}
use k8up.EnvVars.Executors.{
  RetentionPolicy, RestoreMethod, with_defaults, check_vars, prune_vars, archive_vars, restore_vars,
  prune_setup_args, build_list_args,
}
use k8up.EnvVars.Repository.{IsFor, jobs-IsFor}
use k8up.EnvVars.Restoring.{
  RestoreObject, JobParts, panicked, mutate_restore, volume_config, is_done, is_panicked,
  has_target, mutate_restore-target,
}
use k8up.EnvVars.Plain.{plain}
use k8up.Volumes.{append_tls_options_args}

abbrev config : Configuration
config = record {
  backends = record {
    s3_endpoint = "http://minio";
    s3_bucket = "all";
    restore_s3_access_key = "";
    restore_s3_secret_access_key = "";
    restore_s3_endpoint = "";
    restore_s3_bucket = "";
  };
  stats_url = "http://stats";
  repo_password = "p";
  access_key = "a";
  secret_access_key = "b";
  restic_options = "";
  prom_url = "http://prom";
  cluster_name = "main";
  skip_snapshot_sync = false;
  pod_var_dir = "/k8up";
}

abbrev server : Backend
server = record {
  repo_password = some (record { secret = "repo"; key = "password" });
  azure = none;
  b2 = none;
  gcs = none;
  local = none;
  rest = some (record { url = "https://rest/x"; user = none; password = none });
  s3 = none;
  swift = none;
}

abbrev policy : RetentionPolicy
policy = record {
  keep_last = pos 3;
  keep_hourly = pos 0;
  keep_daily = negsuc 0;
  keep_weekly = pos 0;
  keep_monthly = pos 0;
  keep_yearly = pos 0;
  keep_tags = "a" ∷ "b" ∷ [];
  tags = "nightly" ∷ [];
}

abbrev to_bucket : RestoreMethod
to_bucket = record { s3 = none; folder = none; tls_options = none; volume_mounts = none }

prune_args_run :
    prune_setup_args config policy none ≡ "-varDir" ∷ "/k8up" ∷ "-prune" ∷ "--tag" ∷ "nightly" ∷ []
unfolding prune_setup_args build_list_args append_tls_options_args
prune_args_run = refl

-- A repository that is set first is converted last, and a source wins over a text.
convert_run :
    convert (
      ("RESTIC_REPOSITORY", record { string_env = some "s3:x"; env_var_source = none })
      ∷ (
        "USER",
        record {
          string_env = some "u";
          env_var_source = some (record { secret = "s"; key = "k" });
        },
      )
      ∷ [])
    ≡ record { name = "USER"; value = ""; value_from = some (record { secret = "s"; key = "k" }) }
      ∷ record { name = "RESTIC_REPOSITORY"; value = "s3:x"; value_from = none }
      ∷ []
unfolding convert convert_all
convert_run = refl

jobs-IsFor_example :
    IsFor config (some server) (with_defaults plain config "ns" (check_vars config (some server)))
    × IsFor config
        (some server)
        (with_defaults plain config "ns" (prune_vars config policy (some server)))
    × IsFor config
        (some server)
        (with_defaults plain config "ns" (restore_vars config to_bucket (some server)))
    × IsFor config
        (some server)
        (with_defaults plain config "ns" (archive_vars config none (some server)))
jobs-IsFor_example = jobs-IsFor plain config "ns" policy to_bucket none (some server)

abbrev into_claim : RestoreObject
into_claim = record {
  namespace = "ns";
  tags = [];
  paths = [];
  restore_filter = "";
  delete = true;
  snapshot = "abc";
  restore_time_filter = "";
  method = some (record {
    s3 = none;
    folder = some (record { claim_name = some "data" });
    tls_options = none;
    volume_mounts = none;
  });
  backend = none;
  backend_tls = none;
  backend_mounts = none;
  volumes = none;
}

abbrev fresh_job : JobParts
fresh_job = record { exclusive = false; env = []; volumes = []; mounts = []; args = [] }

-- A restore whose method has neither a bucket nor a folder.
abbrev undefined_restore : RestoreObject
undefined_restore = record into_claim { method = some to_bucket }

undefined_restore_run : mutate_restore plain config undefined_restore (some fresh_job) ≡ panicked
unfolding mutate_restore volume_config
undefined_restore_run = refl

mutate_restore-target_example :
    (is_done (mutate_restore plain config into_claim (some fresh_job))
      ≡ has_target into_claim.method)
    × (is_panicked (mutate_restore plain config into_claim (some fresh_job))
        ≡ not (has_target into_claim.method))
mutate_restore-target_example = mutate_restore-target plain config into_claim fresh_job
