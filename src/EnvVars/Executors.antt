-- ===== src/EnvVars/Executors.antt =====
-- What the executors put into the environment and the arguments of their jobs: setupEnvVars and
-- setupArgs of operator/checkcontroller/executor.go, operator/prunecontroller/executor.go and
-- operator/archivecontroller/executor.go and setupEnvVars of operator/restorecontroller/executor.go, and RetentionPolicy of api/v1/prune_types.go.
use k8up.Prelude.{String, Option, none, some, List, [], ◌∷◌, ◌++◌, suc, itoa, str_eq, if◌then◌else◌}
use k8up.Grouping.{join}
use k8up.Prelude.Int.{ℤ, pos}
use k8up.Backends.{EnvValue, from_secret, plain_value, Env, Backend, S3Spec, restore_env_vars}
use k8up.Volumes.{VolumeMount, TlsOptions, append_tls_options_args}
use k8up.EnvVars.{
  Vars, EnvVar, Configuration, MergeApi, set_string, set_env_var_source, set_backend, default_env,
  convert,
}

-- The end of each setupEnvVars.
unfoldable pub with_defaults : MergeApi → Configuration → String → Vars → List EnvVar
with_defaults api c namespace vars = convert (api.merge vars (default_env c namespace))

-- The check's setupEnvVars up to Merge.
unfoldable pub check_vars : Configuration → Option Backend → Vars
unfolding set_string set_backend
check_vars c backend =
    let own = set_backend c backend [] in
    set_string "CLUSTER_NAME" c.cluster_name (set_string "PROM_URL" c.prom_url own)

-- k8upv1.RetentionPolicy
pub record RetentionPolicy : Type 0 where
  pub keep_last : ℤ
  pub keep_hourly : ℤ
  pub keep_daily : ℤ
  pub keep_weekly : ℤ
  pub keep_monthly : ℤ
  pub keep_yearly : ℤ
  pub keep_tags : List String
  pub tags : List String

-- `if n > 0 { vars.SetString(key, strconv.Itoa(n)) }`
unfoldable pub set_keep : String → ℤ → Vars → Vars
unfolding set_string
set_keep k (pos (suc n)) vars = set_string k (itoa (suc n)) vars
set_keep k _ vars = vars

unfoldable pub set_keep_daily : ℤ → Vars → Vars
unfolding set_string
set_keep_daily (pos (suc n)) vars = set_string "KEEP_DAILY" (itoa (suc n)) vars
set_keep_daily _ vars = set_string "KEEP_DAILY" "14" vars

unfoldable pub set_keep_tags : List String → Vars → Vars
unfolding set_string
set_keep_tags [] vars = vars
set_keep_tags (t ∷ ts) vars = set_string "KEEP_TAGS" (join (t ∷ ts)) vars

-- The prune's setupEnvVars up to Merge.
unfoldable pub prune_vars : Configuration → RetentionPolicy → Option Backend → Vars
unfolding set_keep set_keep_daily set_keep_tags set_backend set_string
prune_vars c r backend =
    let last = set_keep "KEEP_LAST" r.keep_last [] in
    let hourly = set_keep "KEEP_HOURLY" r.keep_hourly last in
    let daily = set_keep_daily r.keep_daily hourly in
    let weekly = set_keep "KEEP_WEEKLY" r.keep_weekly daily in
    let monthly = set_keep "KEEP_MONTHLY" r.keep_monthly weekly in
    let yearly = set_keep "KEEP_YEARLY" r.keep_yearly monthly in
    let tags = set_keep_tags r.keep_tags yearly in
    let prom = set_string "PROM_URL" c.prom_url (set_backend c backend tags) in
    if c.skip_snapshot_sync then set_string "BACKUP_SKIP_SNAPSHOT_SYNC" "true" prom else prom

-- k8upv1.FolderRestore: the name in the claim's source, which may be nil.
pub record FolderRestore : Type 0 where
  pub claim_name : Option String

-- k8upv1.RestoreMethod
pub record RestoreMethod : Type 0 where
  pub s3 : Option S3Spec
  pub folder : Option FolderRestore
  pub tls_options : Option TlsOptions
  pub volume_mounts : Option (List VolumeMount)

-- The body of the loop over RestoreEnvVars: an empty value becomes a source that is nil.
abbrev pub set_restore_value : String → EnvValue → Vars → Vars
set_restore_value k (from_secret ref) vars = set_env_var_source k (some ref) vars
set_restore_value k (plain_value v) vars =
    if str_eq v "" then set_env_var_source k none vars else set_string k v vars

unfoldable pub set_restore_values : Option Env → Vars → Vars
unfolding set_env_var_source set_string
set_restore_values none vars = vars
set_restore_values (some []) vars = vars
set_restore_values (some ((k, v) ∷ env)) vars =
    set_restore_values (some env) (set_restore_value k v vars)

-- What a restore method sets, with the directory of its folder.
unfoldable pub set_restore_method : Configuration → String → RestoreMethod → Vars → Vars
unfolding set_restore_values set_string
set_restore_method c dir m vars =
    let values = set_restore_values (restore_env_vars c.backends m.s3) vars in
    elim m.folder [ none ↦ values | some f ↦ set_string "RESTORE_DIR" dir values ]

-- The archive's setupEnvVars up to Merge; `none` where RestoreSpec or its method is nil.
unfoldable pub archive_vars : Configuration → Option RestoreMethod → Option Backend → Vars
unfolding set_restore_method set_backend
archive_vars c none backend = set_backend c backend []
archive_vars c (some m) backend = set_backend c backend (set_restore_method c "/archive" m [])

-- The restore's setupEnvVars up to Merge.
unfoldable pub restore_vars : Configuration → RestoreMethod → Option Backend → Vars
unfolding set_restore_method set_backend
restore_vars c m backend = set_backend c backend (set_restore_method c "/restore" m [])

-- BuildListArgs
unfoldable pub build_list_args : String → List String → List String
build_list_args cli_arg [] = []
build_list_args cli_arg (v ∷ vs) = cli_arg ∷ v ∷ build_list_args cli_arg vs

-- setupArgs of the three; `tls` is what the backend has, and `none` without a backend.
unfoldable pub check_setup_args : Configuration → Option TlsOptions → List String
check_setup_args c tls = "-varDir" ∷ c.pod_var_dir ∷ "-check" ∷ append_tls_options_args tls ""

unfoldable pub prune_setup_args : Configuration → RetentionPolicy → Option TlsOptions → List String
unfolding build_list_args
prune_setup_args c r tls =
    "-varDir" ∷ c.pod_var_dir ∷ "-prune" ∷ build_list_args "--tag" r.tags
    ++ append_tls_options_args tls ""

-- `tags` is empty where RestoreSpec is nil.
unfoldable pub archive_setup_args :
    Configuration → List String → Option TlsOptions → Option RestoreMethod → List String
unfolding build_list_args
archive_setup_args c tags tls m =
    "-varDir" ∷ c.pod_var_dir ∷ "-archive" ∷ "-restoreType" ∷ "s3" ∷ build_list_args "--tag" tags
    ++ append_tls_options_args tls ""
    ++ elim m [ none ↦ [] | some r ↦ append_tls_options_args r.tls_options "restore" ]
