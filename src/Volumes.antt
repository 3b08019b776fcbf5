-- ===== src/Volumes.antt =====
-- The volumes and mounts of a job's pod and its TLS arguments (operator/utils/utils.go). The specs of
-- claims, secrets and config maps are only passed on and are texts here.
pub mod Mounts
mod Examples
use k8up.Prelude.{
  String, Bool, true, false, not, ◌&&◌, Option, none, some, List, [], ◌∷◌, ◌++◌, anyb, concat,
  str_eq, if◌then◌else◌,
}

-- corev1.VolumeMount
pub record VolumeMount : Type 0 where
  pub name : String
  pub mount_path : String

pub data VolumeSource : Type 0 where
  empty_dir : VolumeSource
  claim secret config_map : String → VolumeSource

pub record Volume : Type 0 where
  pub name : String
  pub source : VolumeSource

-- k8upv1.RunnableVolumeSpec
pub record RunnableVolumeSpec : Type 0 where
  pub name : String
  pub persistent_volume_claim : Option String
  pub secret : Option String
  pub config_map : Option String

abbrev pub data_dir_name : String
data_dir_name = "k8up-dir"

abbrev pub restic_tmp_dir_name : String
restic_tmp_dir_name = "restic-tmp-dir"

abbrev pub restic_cache_dir_name : String
restic_cache_dir_name = "restic-cache-dir"

abbrev empty_volume : String → Volume
empty_volume n = record { name = n; source = empty_dir }

abbrev source_of : Option String → Option String → Option String → Option VolumeSource
source_of (some c) s m = some (claim c)
source_of none (some s) m = some (secret s)
source_of none none (some m) = some (config_map m)
source_of none none none = none

abbrev with_source : String → Option VolumeSource → List Volume → List Volume
with_source n none rest = rest
with_source n (some s) rest = record { name = n; source = s } ∷ rest

unfoldable pub more_volumes : List RunnableVolumeSpec → List Volume
more_volumes [] = []
more_volumes (v ∷ vs) =
    with_source v.name (source_of v.persistent_volume_claim v.secret v.config_map) (more_volumes vs)

-- AttachEmptyDirVolumes
unfoldable pub attach_empty_dir_volumes : Option (List RunnableVolumeSpec) → List Volume
unfolding more_volumes
attach_empty_dir_volumes volumes =
    empty_volume data_dir_name
    ∷ empty_volume restic_tmp_dir_name
    ∷ empty_volume restic_cache_dir_name
    ∷ elim volumes [ none ↦ [] | some vs ↦ more_volumes vs ]

abbrev pub same_mount : VolumeMount → VolumeMount → Bool
same_mount m n = str_eq m.name n.name && str_eq m.mount_path n.mount_path

-- The inner loops: a mount that is there already is skipped.
pub add_mounts : List VolumeMount → List VolumeMount → List VolumeMount
add_mounts ms [] = ms
add_mounts ms (v ∷ vs) =
    let skipped = add_mounts ms vs in
    let added = add_mounts (ms ++ v ∷ []) vs in if anyb (same_mount v) ms then skipped else added

pub add_all_mounts : List VolumeMount → List (Option (List VolumeMount)) → List VolumeMount
unfolding add_mounts
add_all_mounts ms [] = ms
add_all_mounts ms (none ∷ vms) = add_all_mounts ms vms
add_all_mounts ms (some vs ∷ vms) = add_all_mounts (add_mounts ms vs) vms

abbrev mount : String → String → VolumeMount
mount n p = record { name = n; mount_path = p }

abbrev pub base_mounts : String → List VolumeMount
base_mounts pod_var_dir =
    mount data_dir_name pod_var_dir
    ∷ mount restic_tmp_dir_name "/tmp"
    ∷ mount restic_cache_dir_name "/.cache"
    ∷ []

-- AttachEmptyDirVolumeMounts
unfoldable pub attach_empty_dir_volume_mounts :
    String → List (Option (List VolumeMount)) → List VolumeMount
unfolding add_all_mounts
attach_empty_dir_volume_mounts pod_var_dir vms = add_all_mounts (base_mounts pod_var_dir) vms

-- k8upv1.TLSOptions
pub record TlsOptions : Type 0 where
  pub ca_cert : String
  pub client_cert : String
  pub client_key : String

abbrev arg_name : String → String → String → String
arg_name prefix plain prefixed =
    if str_eq prefix "" then plain else concat ("-" ∷ prefix ∷ prefixed ∷ [])

abbrev given : String → Bool
given s = not (str_eq s "")

-- AppendTLSOptionsArgs, with "" where no prefix is passed.
unfoldable pub append_tls_options_args : Option TlsOptions → String → List String
append_tls_options_args none prefix = []
append_tls_options_args (some o) prefix =
    (if given o.ca_cert then arg_name prefix "-caCert" "CaCert" ∷ o.ca_cert ∷ [] else [])
    ++ (if given o.client_cert && given o.client_key
        then arg_name prefix "-clientCert" "ClientCert"
          ∷ o.client_cert
          ∷ arg_name prefix "-clientKey" "ClientKey"
          ∷ o.client_key
          ∷ []
        else [])
