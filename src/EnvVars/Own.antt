-- ===== src/EnvVars/Own.antt =====
-- What the executors themselves say of the repository, before the defaults (setupEnvVars of
-- operator/checkcontroller/executor.go, operator/prunecontroller/executor.go,
-- operator/restorecontroller/executor.go and operator/archivecontroller/executor.go).
use k8up.Prelude.{
  String, false, ◌≡◌, refl, ◌∙◌, Option, none, some, List, [], ◌∷◌, zero, suc, str_eq, itoa, concat,
  lookup, lookup-insert, Bool-cases, Option-cases, inl, inr,
}
use k8up.Grouping.{join}
use k8up.Prelude.Int.{ℤ, pos, negsuc}
use k8up.Backends.{
  EnvValue, from_secret, plain_value, Backend, backend_string, get_credential_env, restore_env_vars,
  S3Spec, SecretKey, or_default, secret_or, restore_s3_endpoint_env, restore_s3_access_key_id_env,
  restore_s3_secret_access_key_env,
}
use k8up.EnvVars.{
  Vars, EnvVarEntry, Configuration, set_string, set_env_var_source, set_backend, set_credentials,
  restic_repository_env,
}
use k8up.EnvVars.Executors.{
  RetentionPolicy, RestoreMethod, check_vars, prune_vars, archive_vars, restore_vars, set_keep,
  set_keep_daily, set_keep_tags, set_restore_method, set_restore_value, set_restore_values,
}

abbrev pub entry_of : String → EnvVarEntry
entry_of v = record { string_env = some v; env_var_source = none }

-- What the entries before the defaults say of the repository.
abbrev pub own_repository : Configuration → Option Backend → Option EnvVarEntry
own_repository c none = none
own_repository c (some b) = some (entry_of (backend_string c.backends b))

-- What the map has for the repository.
pub record Says (o : Option EnvVarEntry) (vars : Vars) : Type 0 where
  pub found : lookup restic_repository_env vars ≡ o

pub empty-Says : Says none []
empty-Says = record { found = refl }

module _ {o : Option EnvVarEntry} {vars : Vars} where
  set_string-Says :
      (k v : String)
      → str_eq k restic_repository_env ≡ false
      → Says o vars
      → Says o (set_string k v vars)
  unfolding set_string
  set_string-Says k v h s = record {
    found = lookup-insert k restic_repository_env (entry_of v) vars ∙ rw (h, s.found);
  }

  set_source-Says :
      (k : String) (ref : Option SecretKey)
      → str_eq k restic_repository_env ≡ false
      → Says o vars
      → Says o (set_env_var_source k ref vars)
  unfolding set_env_var_source
  set_source-Says k ref h s = record {
    found =
        lookup-insert k restic_repository_env (record { string_env = none; env_var_source = ref })
          vars
        ∙ rw (h, s.found);
  }

  set_keep-Says :
      (k : String) (n : ℤ)
      → str_eq k restic_repository_env ≡ false
      → Says o vars
      → Says o (set_keep k n vars)
  unfolding set_keep
  set_keep-Says k (pos (suc n)) h s = set_string-Says k (itoa (suc n)) h s
  set_keep-Says k (pos zero) h s = s
  set_keep-Says k (negsuc n) h s = s

  set_keep_daily-Says : (n : ℤ) → Says o vars → Says o (set_keep_daily n vars)
  unfolding set_keep_daily
  set_keep_daily-Says (pos (suc n)) s = set_string-Says "KEEP_DAILY" (itoa (suc n)) refl s
  set_keep_daily-Says (pos zero) s = set_string-Says "KEEP_DAILY" "14" refl s
  set_keep_daily-Says (negsuc n) s = set_string-Says "KEEP_DAILY" "14" refl s

  set_keep_tags-Says : (ts : List String) → Says o vars → Says o (set_keep_tags ts vars)
  unfolding set_keep_tags
  set_keep_tags-Says [] s = s
  set_keep_tags-Says (t ∷ ts) s = set_string-Says "KEEP_TAGS" (join (t ∷ ts)) refl s

  set_restore_value-Says :
      (k : String) (v : EnvValue)
      → str_eq k restic_repository_env ≡ false
      → Says o vars
      → Says o (set_restore_value k v vars)
  set_restore_value-Says k (from_secret ref) h s = set_source-Says k (some ref) h s
  set_restore_value-Says k (plain_value v) h s = elim (Bool-cases (str_eq v "")) [
    | inl e ↦ rw e (set_source-Says k none h s)
    | inr e ↦ rw e (set_string-Says k v h s)
  ]

set_backend-Says :
    (c : Configuration) (b : Option Backend) {vars : Vars}
    → Says none vars
    → Says (own_repository c b) (set_backend c b vars)
unfolding set_backend set_string
set_backend-Says c none h = h
set_backend-Says c (some b) {vars} h = record {
  found =
      lookup-insert restic_repository_env restic_repository_env
        (entry_of (backend_string c.backends b))
        (set_credentials (get_credential_env c.backends b) vars);
}

pub check_vars-Says :
    (c : Configuration) (b : Option Backend) → Says (own_repository c b) (check_vars c b)
unfolding check_vars
check_vars-Says c b =
    set_string-Says "CLUSTER_NAME" c.cluster_name refl
      (set_string-Says "PROM_URL" c.prom_url refl (set_backend-Says c b empty-Says))

pub prune_vars-Says :
    (c : Configuration) (r : RetentionPolicy) (b : Option Backend)
    → Says (own_repository c b) (prune_vars c r b)
unfolding prune_vars
prune_vars-Says c r b =
    let hourly =
      set_keep-Says "KEEP_HOURLY" r.keep_hourly refl
        (set_keep-Says "KEEP_LAST" r.keep_last refl empty-Says) in
    let weekly =
      set_keep-Says "KEEP_WEEKLY" r.keep_weekly refl (set_keep_daily-Says r.keep_daily hourly) in
    let yearly =
      set_keep-Says "KEEP_YEARLY" r.keep_yearly refl
        (set_keep-Says "KEEP_MONTHLY" r.keep_monthly refl weekly) in
    let prom =
      set_string-Says "PROM_URL" c.prom_url refl
        (set_backend-Says c b (set_keep_tags-Says r.keep_tags yearly)) in
    elim (Bool-cases c.skip_snapshot_sync) [
      | inl s ↦ rw s (set_string-Says "BACKUP_SKIP_SNAPSHOT_SYNC" "true" refl prom)
      | inr s ↦ rw s prom
    ]

restore_values-Says :
    (c : Configuration) (s3 : Option S3Spec)
    → Says none (set_restore_values (restore_env_vars c.backends s3) [])
unfolding set_restore_values restore_env_vars
restore_values-Says c none = empty-Says
restore_values-Says c (some b) =
    let config = c.backends in
    let endpoint = plain_value (
      concat (
        or_default b.endpoint config.restore_s3_endpoint
        ∷ "/"
        ∷ or_default b.bucket config.restore_s3_bucket
        ∷ [])) in
    set_restore_value-Says restore_s3_endpoint_env endpoint refl (
      set_restore_value-Says restore_s3_secret_access_key_env
        (secret_or b.secret_access_key config.restore_s3_secret_access_key) refl
        (set_restore_value-Says restore_s3_access_key_id_env
          (secret_or b.access_key_id config.restore_s3_access_key) refl empty-Says))

set_restore_method-Says :
    (c : Configuration) (dir : String) (m : RestoreMethod)
    → Says none (set_restore_method c dir m [])
unfolding set_restore_method
set_restore_method-Says c dir m = elim (Option-cases m.folder) [
  | inl e ↦ rw e (restore_values-Says c m.s3)
  | inr (f, e) ↦ rw e (set_string-Says "RESTORE_DIR" dir refl (restore_values-Says c m.s3))
]

pub archive_vars-Says :
    (c : Configuration) (m : Option RestoreMethod) (b : Option Backend)
    → Says (own_repository c b) (archive_vars c m b)
unfolding archive_vars
archive_vars-Says c none b = set_backend-Says c b empty-Says
archive_vars-Says c (some m) b = set_backend-Says c b (set_restore_method-Says c "/archive" m)

pub restore_vars-Says :
    (c : Configuration) (m : RestoreMethod) (b : Option Backend)
    → Says (own_repository c b) (restore_vars c m b)
unfolding restore_vars
restore_vars-Says c m b = set_backend-Says c b (set_restore_method-Says c "/restore" m)
