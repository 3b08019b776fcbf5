-- ===== src/Backends.antt =====
-- The backends of a restic repository (api/v1/backend.go) and the global settings that they fall back
-- on (operator/cfg/config.go). A secret reference is the name of a secret and a key in it; a map of
-- environment variables is an association list. TLS options, mounts and EnvFrom are only passed on.
pub mod Rest
pub mod Slashes
pub mod Credentials
mod Examples
use Prim.Native.Char.{Char, code}
use k8up.Prelude.{
  String, Bool, true, false, ◌&&◌, Option, none, some, List, [], ◌∷◌, ◌==◌, str_eq, concat, insert,
  if◌then◌else◌,
}

-- corev1.SecretKeySelector
pub record SecretKey : Type 0 where
  pub secret : String
  pub key : String

-- corev1.EnvVarSource with a SecretKeyRef, or the value itself.
pub data EnvValue : Type 0 where
  from_secret : SecretKey → EnvValue
  plain_value : String → EnvValue

abbrev pub Env : Type 0
Env = List (String × EnvValue)

-- The fields of cfg.Configuration that the backends read.
pub record Configuration : Type 0 where
  pub s3_endpoint : String
  pub s3_bucket : String
  pub restore_s3_access_key : String
  pub restore_s3_secret_access_key : String
  pub restore_s3_endpoint : String
  pub restore_s3_bucket : String

pub record LocalSpec : Type 0 where
  pub mount_path : String

pub record S3Spec : Type 0 where
  pub endpoint : String
  pub bucket : String
  pub access_key_id : Option SecretKey
  pub secret_access_key : Option SecretKey

pub record GcsSpec : Type 0 where
  pub bucket : String
  pub project_id : Option SecretKey
  pub access_token : Option SecretKey

pub record AzureSpec : Type 0 where
  pub container : String
  pub path : String
  pub account_name : Option SecretKey
  pub account_key : Option SecretKey

pub record SwiftSpec : Type 0 where
  pub container : String
  pub path : String

pub record B2Spec : Type 0 where
  pub bucket : String
  pub path : String
  pub account_id : Option SecretKey
  pub account_key : Option SecretKey

pub record RestServerSpec : Type 0 where
  pub url : String
  pub user : Option SecretKey
  pub password : Option SecretKey

pub record Backend : Type 0 where
  pub repo_password : Option SecretKey
  pub azure : Option AzureSpec
  pub b2 : Option B2Spec
  pub gcs : Option GcsSpec
  pub local : Option LocalSpec
  pub rest : Option RestServerSpec
  pub s3 : Option S3Spec
  pub swift : Option SwiftSpec

-- The names of the environment variables.
abbrev pub restic_password_env : String
restic_password_env = "RESTIC_PASSWORD"

abbrev pub aws_access_key_id_env : String
aws_access_key_id_env = "AWS_ACCESS_KEY_ID"

abbrev pub aws_secret_access_key_env : String
aws_secret_access_key_env = "AWS_SECRET_ACCESS_KEY"

abbrev pub azure_account_env : String
azure_account_env = "AZURE_ACCOUNT_NAME"

abbrev pub azure_account_key_env : String
azure_account_key_env = "AZURE_ACCOUNT_KEY"

abbrev pub gcs_project_id_env : String
gcs_project_id_env = "GOOGLE_PROJECT_ID"

abbrev pub gcs_access_token_env : String
gcs_access_token_env = "GOOGLE_ACCESS_TOKEN"

abbrev pub b2_account_id_env : String
b2_account_id_env = "B2_ACCOUNT_ID"

abbrev pub b2_account_key_env : String
b2_account_key_env = "B2_ACCOUNT_KEY"

abbrev pub rest_user_env : String
rest_user_env = "USER"

abbrev pub rest_password_env : String
rest_password_env = "PASSWORD"

abbrev pub restore_s3_endpoint_env : String
restore_s3_endpoint_env = "RESTORE_S3ENDPOINT"

abbrev pub restore_s3_access_key_id_env : String
restore_s3_access_key_id_env = "RESTORE_ACCESSKEYID"

abbrev pub restore_s3_secret_access_key_env : String
restore_s3_secret_access_key_env = "RESTORE_SECRETACCESSKEY"

-- addEnvVarFromSecret
unfoldable pub add_env_var_from_secret : String → Option SecretKey → Env → Env
add_env_var_from_secret k none vars = vars
add_env_var_from_secret k (some ref) vars = insert k (from_secret ref) vars

-- strings.TrimRight(s, "/")
unfoldable pub trim_right_slash : String → String
trim_right_slash String.[] = ""
trim_right_slash (String.◌∷◌ c s) =
    let rest = trim_right_slash s in
    if str_eq rest "" && (code c == b'/') then "" else String.◌∷◌ c rest

-- What follows "://" at the start of a text.
after_separator : String → Option String
after_separator (String.◌∷◌ c (String.◌∷◌ d (String.◌∷◌ e s))) =
    if (code c == b':') && ((code d == b'/') && (code e == b'/')) then some s else none
after_separator _ = none

cut_here : Option String → Char → String × String × Bool → String × String × Bool
cut_here (some after) c r = ("", after, true)
cut_here none c (before, after, found) = (String.◌∷◌ c before, after, found)

-- strings.Cut(s, "://"): what precedes and what follows the first separator, and whether there is one.
unfoldable pub cut : String → String × String × Bool
unfolding cut_here after_separator
cut String.[] = ("", "", false)
cut (String.◌∷◌ c s) = let rest = cut s in cut_here (after_separator (String.◌∷◌ c s)) c rest

abbrev pub or_default : String → String → String
or_default s d = if str_eq s "" then d else s

-- String and EnvVars of the seven specs.
unfoldable pub local_string : LocalSpec → String
local_string b = b.mount_path

unfoldable pub s3_string : Configuration → S3Spec → String
unfolding trim_right_slash
s3_string c b = concat (
    "s3:"
    ∷ trim_right_slash (or_default b.endpoint c.s3_endpoint)
    ∷ "/"
    ∷ or_default b.bucket c.s3_bucket
    ∷ [])

unfoldable pub gcs_string : GcsSpec → String
gcs_string b = concat ("gs:" ∷ b.bucket ∷ ":/" ∷ [])

unfoldable pub azure_string : AzureSpec → String
azure_string b = concat ("azure:" ∷ b.container ∷ ":" ∷ or_default b.path "/" ∷ [])

unfoldable pub swift_string : SwiftSpec → String
swift_string b = concat ("swift:" ∷ b.container ∷ ":" ∷ b.path ∷ [])

unfoldable pub b2_string : B2Spec → String
b2_string b = concat ("b2:" ∷ b.bucket ∷ ":" ∷ b.path ∷ [])

unfoldable pub rest_string : RestServerSpec → String
unfolding cut
rest_string b =
    let (protocol, url, found) = cut b.url in
    concat ("rest:" ∷ protocol ∷ "://" ∷ "$(USER)" ∷ ":" ∷ "$(PASSWORD)" ∷ "@" ∷ url ∷ [])

unfoldable pub s3_env_vars : S3Spec → Env → Env
unfolding add_env_var_from_secret
s3_env_vars b vars =
    let with_id = add_env_var_from_secret aws_access_key_id_env b.access_key_id vars in
    add_env_var_from_secret aws_secret_access_key_env b.secret_access_key with_id

unfoldable pub gcs_env_vars : GcsSpec → Env → Env
unfolding add_env_var_from_secret
gcs_env_vars b vars =
    let with_id = add_env_var_from_secret gcs_project_id_env b.project_id vars in
    add_env_var_from_secret gcs_access_token_env b.access_token with_id

unfoldable pub azure_env_vars : AzureSpec → Env → Env
unfolding add_env_var_from_secret
azure_env_vars b vars =
    let with_key = add_env_var_from_secret azure_account_key_env b.account_key vars in
    add_env_var_from_secret azure_account_env b.account_name with_key

unfoldable pub b2_env_vars : B2Spec → Env → Env
unfolding add_env_var_from_secret
b2_env_vars b vars =
    let with_id = add_env_var_from_secret b2_account_id_env b.account_id vars in
    add_env_var_from_secret b2_account_key_env b.account_key with_id

unfoldable pub rest_env_vars : RestServerSpec → Env → Env
unfolding add_env_var_from_secret
rest_env_vars b vars =
    let with_password = add_env_var_from_secret rest_password_env b.password vars in
    add_env_var_from_secret rest_user_env b.user with_password

-- BackendInterface
pub record BackendInterface : Type 0 where
  pub string : String
  pub env_vars : Env → Env

abbrev as_backend {ℓ} :
    {A : Type ℓ} → (A → String) → (A → Env → Env) → Option A → Option BackendInterface
as_backend string env_vars none = none
as_backend string env_vars (some b) = some (record { string = string b; env_vars = env_vars b })

abbrev no_env_vars {ℓ} : {A : Type ℓ} → A → Env → Env
no_env_vars b vars = vars

unfoldable pub get_supported_backends : Configuration → Backend → List (Option BackendInterface)
get_supported_backends c b =
    as_backend azure_string azure_env_vars b.azure
    ∷ as_backend b2_string b2_env_vars b.b2
    ∷ as_backend gcs_string gcs_env_vars b.gcs
    ∷ as_backend local_string no_env_vars b.local
    ∷ as_backend rest_string rest_env_vars b.rest
    ∷ as_backend (s3_string c) s3_env_vars b.s3
    ∷ as_backend swift_string no_env_vars b.swift
    ∷ []

-- The loops that skip the backends that are nil.
unfoldable pub first_backend : List (Option BackendInterface) → Option BackendInterface
first_backend [] = none
first_backend (none ∷ bs) = first_backend bs
first_backend (some b ∷ bs) = some b

abbrev string_of : Option BackendInterface → String
string_of none = ""
string_of (some b) = b.string

unfoldable pub backend_string : Configuration → Backend → String
unfolding get_supported_backends first_backend
backend_string c b = string_of (first_backend (get_supported_backends c b))

abbrev env_of : Option BackendInterface → Env → Option Env
env_of none vars = none
env_of (some b) vars = some (b.env_vars vars)

-- `none` is a nil map.
unfoldable pub get_credential_env : Configuration → Backend → Option Env
unfolding get_supported_backends first_backend add_env_var_from_secret
get_credential_env c b =
    env_of (first_backend (get_supported_backends c b))
      (add_env_var_from_secret restic_password_env b.repo_password [])

unfoldable pub is_backend_equal_to : Configuration → Backend → Option Backend → Bool
unfolding backend_string
is_backend_equal_to c b none = false
is_backend_equal_to c b (some other) = str_eq (backend_string c b) (backend_string c other)

abbrev pub secret_or : Option SecretKey → String → EnvValue
secret_or (some ref) v = from_secret ref
secret_or none v = plain_value v

unfoldable pub restore_env_vars : Configuration → Option S3Spec → Option Env
restore_env_vars c none = none
restore_env_vars c (some b) =
    let with_id =
      insert restore_s3_access_key_id_env (secret_or b.access_key_id c.restore_s3_access_key) [] in
    let with_secret =
      insert restore_s3_secret_access_key_env
        (secret_or b.secret_access_key c.restore_s3_secret_access_key) with_id in
    some (
      insert restore_s3_endpoint_env
        (plain_value (
          concat (
            or_default b.endpoint c.restore_s3_endpoint
            ∷ "/"
            ∷ or_default b.bucket c.restore_s3_bucket
            ∷ [])))
        with_secret)

unfoldable pub get_global_repository : Configuration → String
get_global_repository c = concat ("s3:" ∷ c.s3_endpoint ∷ "/" ∷ c.s3_bucket ∷ [])

-- How the controllers choose the repository of an object.
unfoldable pub repository_of : Configuration → Option Backend → String
unfolding backend_string get_global_repository
repository_of c none = get_global_repository c
repository_of c (some b) = backend_string c b
