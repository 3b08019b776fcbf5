-- ===== src/Volumes/Examples.antt =====
-- Mounts with a double.
use k8up.Prelude.{◌≡◌, refl, ◌||◌, none, some, [], ◌∷◌, anyb}
use k8up.Volumes
use k8up.Volumes.{
  VolumeMount, TlsOptions, same_mount, base_mounts, attach_empty_dir_volume_mounts,
  append_tls_options_args,
}
use k8up.Volumes.Mounts.{IsDistinct, is_asked, attach_empty_dir_volume_mounts-IsDistinct}

abbrev certs : VolumeMount
certs = record { name = "certs"; mount_path = "/mnt/tls" }

mounts_run :
    attach_empty_dir_volume_mounts "/k8up"
      (some (certs ∷ certs ∷ []) ∷ none ∷ some (certs ∷ []) ∷ [])
    ≡ record { name = "k8up-dir"; mount_path = "/k8up" }
      ∷ record { name = "restic-tmp-dir"; mount_path = "/tmp" }
      ∷ record { name = "restic-cache-dir"; mount_path = "/.cache" }
      ∷ certs
      ∷ []
unfolding attach_empty_dir_volume_mounts Volumes.add_all_mounts Volumes.add_mounts
mounts_run = refl

-- A client certificate without its key is left out.
tls_run :
    append_tls_options_args
      (some (record { ca_cert = "/ca.crt"; client_cert = "/tls.crt"; client_key = "" }))
      "restore"
    ≡ "-restoreCaCert" ∷ "/ca.crt" ∷ []
unfolding append_tls_options_args
tls_run = refl

attach_empty_dir_volume_mounts-IsDistinct_example :
    IsDistinct (attach_empty_dir_volume_mounts "/k8up" (some (certs ∷ certs ∷ []) ∷ []))
    × (anyb
          (same_mount certs)
          (attach_empty_dir_volume_mounts "/k8up" (some (certs ∷ certs ∷ []) ∷ []))
        ≡ (anyb (same_mount certs) (base_mounts "/k8up")
            || is_asked certs (some (certs ∷ certs ∷ []) ∷ [])))
attach_empty_dir_volume_mounts-IsDistinct_example =
    attach_empty_dir_volume_mounts-IsDistinct "/k8up" (some (certs ∷ certs ∷ []) ∷ []) certs
