-- ===== src/Backends/Credentials.antt =====
-- The variables that a backend adds to the environment of a job (api/v1/backend.go).
use k8up.Prelude.{
  String, ◌≡◌, refl, ◌∙◌, false, Option, none, some, List, [], ◌∷◌, str_eq, lookup, lookup-insert,
}
use k8up.Backends.{
  Env, SecretKey, EnvValue, from_secret, Configuration, Backend, BackendInterface,
  get_credential_env, get_supported_backends, first_backend, add_env_var_from_secret,
  azure_env_vars, b2_env_vars, gcs_env_vars, rest_env_vars, s3_env_vars, restic_password_env,
  env_of, as_backend,
}

abbrev pub secret_value : Option SecretKey → Option EnvValue
secret_value none = none
secret_value (some ref) = some (from_secret ref)

add_lookup :
    (k j : String) (ref : Option SecretKey) (vars : Env)
    → str_eq k j ≡ false
    → lookup j (add_env_var_from_secret k ref vars) ≡ lookup j vars
unfolding add_env_var_from_secret
add_lookup k j none vars h = refl
add_lookup k j (some ref) vars h = lookup-insert k j (from_secret ref) vars ∙ rw h refl

-- The function leaves the entry of the repository password alone.
Keeps : (Env → Env) → Type 0
Keeps f = (vars : Env) → lookup restic_password_env (f vars) ≡ lookup restic_password_env vars

two_adds-Keeps :
    (j k : String) (p q : Option SecretKey)
    → str_eq j restic_password_env ≡ false
    → str_eq k restic_password_env ≡ false
    → Keeps (λ vars. add_env_var_from_secret k q (add_env_var_from_secret j p vars))
unfolding Keeps
two_adds-Keeps j k p q h i vars = add_lookup k _ q _ i ∙ add_lookup j _ p vars h

unchanged_Keeps : Keeps (λ vars. vars)
unfolding Keeps
unchanged_Keeps vars = refl

-- Every backend of the list leaves it alone.
AllKeep : List (Option BackendInterface) → Type 0
AllKeep [] = Unit
AllKeep (none ∷ bs) = AllKeep bs
AllKeep (some b ∷ bs) = Keeps b.env_vars × AllKeep bs

as_backend-AllKeep {ℓ} :
    {A : Type ℓ} (string : A → String) (f : A → Env → Env) (o : Option A)
    (bs : List (Option BackendInterface))
    → ((a : A) → Keeps (f a))
    → AllKeep bs
    → AllKeep (as_backend string f o ∷ bs)
unfolding AllKeep
as_backend-AllKeep string f none bs h k = k
as_backend-AllKeep string f (some a) bs h k = (h a, k)

first_env :
    (bs : List (Option BackendInterface)) (vars env : Env)
    → AllKeep bs
    → env_of (first_backend bs) vars ≡ some env
    → lookup restic_password_env env ≡ lookup restic_password_env vars
unfolding AllKeep first_backend Keeps
first_env [] vars env k h = cc
first_env (none ∷ bs) vars env k h = first_env bs vars env k h
first_env (some b ∷ bs) vars env k h = cc (h, k.0 vars)

supported-AllKeep : (c : Configuration) (b : Backend) → AllKeep (get_supported_backends c b)
unfolding get_supported_backends azure_env_vars b2_env_vars gcs_env_vars rest_env_vars s3_env_vars
    AllKeep
supported-AllKeep c b =
    as_backend-AllKeep _ _ b.azure _
      (λ a. two_adds-Keeps _ _ a.account_key a.account_name refl refl)
      (as_backend-AllKeep _ _ b.b2 _ (λ a. two_adds-Keeps _ _ a.account_id a.account_key refl refl)
        (as_backend-AllKeep _ _ b.gcs _
          (λ a. two_adds-Keeps _ _ a.project_id a.access_token refl refl)
          (as_backend-AllKeep _ _ b.local _ (λ a. unchanged_Keeps)
            (as_backend-AllKeep _ _ b.rest _ (λ a. two_adds-Keeps _ _ a.password a.user refl refl)
              (as_backend-AllKeep _ _ b.s3 _
                (λ a. two_adds-Keeps _ _ a.access_key_id a.secret_access_key refl refl)
                (as_backend-AllKeep _ _ b.swift [] (λ a. unchanged_Keeps) tt))))))

added_password :
    (ref : Option SecretKey)
    → lookup restic_password_env (add_env_var_from_secret restic_password_env ref [])
      ≡ secret_value ref
unfolding add_env_var_from_secret
added_password none = refl
added_password (some ref) = refl

-- Whatever the backend is, the variables of its credentials have the repository password exactly as
-- the spec gives it.
pub get_credential_env-password :
    (c : Configuration) (b : Backend) (env : Env)
    → get_credential_env c b ≡ some env
    → lookup restic_password_env env ≡ secret_value b.repo_password
unfolding get_credential_env
get_credential_env-password c b env h =
    first_env (get_supported_backends c b) _ env (supported-AllKeep c b) h
    ∙ added_password b.repo_password
