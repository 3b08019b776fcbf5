-- ===== src/EnvVars.antt =====
-- The environment of the batch jobs: the converter and the defaults (operator/executor/envvarconverter.go)
-- and what the executors of checks, prunes and archives put into it (setupEnvVars of
-- operator/checkcontroller/executor.go, operator/prunecontroller/executor.go and
-- operator/archivecontroller/executor.go), with their arguments (setupArgs). The order of an association
-- list is the order in which Go iterates over the map.
pub mod Converted
pub mod Executors
pub mod Own
pub mod Repository
pub mod Restoring
mod Plain
mod Examples
use k8up.Prelude.{
  String, Bool, true, false, not, Option, none, some, List, [], ◌∷◌, ◌++◌, itoa, concat, insert,
  lookup, str_eq, ◌≡◌, if◌then◌else◌,
}
use k8up.Prelude.Int.{ℤ, pos}
use k8up.Backends
use k8up.Backends.{
  SecretKey, EnvValue, from_secret, plain_value, Env, Backend, S3Spec, backend_string,
  get_credential_env, get_global_repository, restore_env_vars,
}
use k8up.Volumes.{TlsOptions, append_tls_options_args}

-- envVarEntry
pub record EnvVarEntry : Type 0 where
  pub string_env : Option String
  pub env_var_source : Option SecretKey

-- corev1.EnvVar
pub record EnvVar : Type 0 where
  pub name : String
  pub value : String
  pub value_from : Option SecretKey

abbrev pub Vars : Type 0
Vars = List (String × EnvVarEntry)

unfoldable pub set_string : String → String → Vars → Vars
set_string k v vars = insert k (record { string_env = some v; env_var_source = none }) vars

unfoldable pub set_env_var_source : String → Option SecretKey → Vars → Vars
set_env_var_source k v vars = insert k (record { string_env = none; env_var_source = v }) vars

abbrev pub restic_repository_env : String
restic_repository_env = "RESTIC_REPOSITORY"

abbrev pub value_of : EnvVarEntry → String
value_of e = elim e.env_var_source [
  | none ↦ elim e.string_env [ none ↦ "" | some s ↦ s ]
  | some r ↦ ""
]

abbrev pub env_var : String × EnvVarEntry → EnvVar
env_var (k, e) = record { name = k; value = value_of e; value_from = e.env_var_source }

-- The local variables of Convert.
pub record Converting : Type 0 where
  pub vars : List EnvVar
  pub repository : Option EnvVar

-- The body of the loop of Convert.
abbrev pub convert_entry : Converting → String × EnvVarEntry → Converting
convert_entry c (k, e) =
    if str_eq k restic_repository_env
    then record { vars = c.vars; repository = some (env_var (k, e)) }
    else record { vars = c.vars ++ env_var (k, e) ∷ []; repository = c.repository }

unfoldable pub convert_all : Converting → Vars → Converting
convert_all c [] = c
convert_all c (e ∷ es) = convert_all (convert_entry c e) es

abbrev pub converted : Converting → List EnvVar
converted c = elim c.repository [ none ↦ c.vars | some v ↦ c.vars ++ v ∷ [] ]

unfoldable pub convert : Vars → List EnvVar
unfolding convert_all
convert vars = converted (convert_all (record { vars = []; repository = none }) vars)

-- No key stands twice.
pub IsMap : Vars → Type 0
IsMap [] = Unit
IsMap ((k, e) ∷ vars) = (lookup k vars ≡ none) × IsMap vars

abbrev pub is_zero : EnvVarEntry → Bool
is_zero e = elim e.string_env [
  | none ↦ elim e.env_var_source [ none ↦ true | some r ↦ false ]
  | some s ↦ false
]

-- mergo.Merge of dario.cat/mergo on two maps: entries of the first that are not zero stay, and those that
-- it has not are taken from the second. An error that it answers is only logged.
pub record MergeApi : Type 0 where
  pub merge : Vars → Vars → Vars
  pub merge-IsMap : (own source : Vars) → IsMap (merge own source)
  pub kept :
      (own source : Vars) (k : String) (e : EnvVarEntry)
      → lookup k own ≡ some e
      → is_zero e ≡ false
      → lookup k (merge own source) ≡ some e
  pub added :
      (own source : Vars) (k : String)
      → lookup k own ≡ none
      → lookup k (merge own source) ≡ lookup k source

-- The fields of cfg.Configuration that are read here.
pub record Configuration : Type 0 where
  pub backends : Backends.Configuration
  pub stats_url : String
  pub repo_password : String
  pub access_key : String
  pub secret_access_key : String
  pub restic_options : String
  pub prom_url : String
  pub cluster_name : String
  pub skip_snapshot_sync : Bool
  pub pod_var_dir : String

-- DefaultEnv
unfoldable pub default_env : Configuration → String → Vars
unfolding set_string
default_env c namespace =
    let stats = set_string "STATS_URL" c.stats_url [] in
    let repository = set_string restic_repository_env (get_global_repository c.backends) stats in
    let password = set_string "RESTIC_PASSWORD" c.repo_password repository in
    let id = set_string "AWS_ACCESS_KEY_ID" c.access_key password in
    let secret = set_string "AWS_SECRET_ACCESS_KEY" c.secret_access_key id in
    let defaults = set_string "HOSTNAME" namespace secret in
    if str_eq c.restic_options ""
    then defaults
    else set_string "RESTIC_OPTIONS" c.restic_options defaults

-- The loop over GetCredentialEnv, whose values are all sources.
unfoldable pub set_credentials : Option Env → Vars → Vars
unfolding set_env_var_source
set_credentials none vars = vars
set_credentials (some []) vars = vars
set_credentials (some ((k, from_secret ref) ∷ env)) vars =
    set_credentials (some env) (set_env_var_source k (some ref) vars)
set_credentials (some ((k, plain_value v) ∷ env)) vars =
    set_credentials (some env) (set_env_var_source k none vars)

unfoldable pub set_backend : Configuration → Option Backend → Vars → Vars
unfolding set_credentials set_string
set_backend c none vars = vars
set_backend c (some b) vars =
    set_string restic_repository_env (backend_string c.backends b)
      (set_credentials (get_credential_env c.backends b) vars)
