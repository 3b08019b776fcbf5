-- ===== src/EnvVars/Restoring.antt =====
-- The job of a restore (operator/restorecontroller/executor.go): what createRestoreObject makes of the
-- job that MutateBatchJob answers. A pointer that is nil and is read is a panic.
use k8up.Prelude.{
  String, Bool, true, false, not, ◌≡◌, refl, Option, none, some, List, [], ◌∷◌, ◌++◌, str_eq,
  if◌then◌else◌, is_some, Option-cases, inl, inr,
}
use k8up.Backends.{Backend, S3Spec}
use k8up.Volumes.{
  Volume, VolumeMount, claim, RunnableVolumeSpec, TlsOptions, append_tls_options_args,
  attach_empty_dir_volumes, attach_empty_dir_volume_mounts,
}
use k8up.EnvVars.{EnvVar, Configuration, MergeApi}
use k8up.EnvVars.Executors.{
  RestoreMethod, FolderRestore, with_defaults, restore_vars, build_list_args,
}

-- The fields of k8upv1.Restore and of its backend that are read here.
pub record RestoreObject : Type 0 where
  pub namespace : String
  pub tags : List String
  pub paths : List String
  pub restore_filter : String
  pub delete : Bool
  pub snapshot : String
  pub restore_time_filter : String
  pub method : Option RestoreMethod
  pub backend : Option Backend
  pub backend_tls : Option TlsOptions
  pub backend_mounts : Option (List VolumeMount)
  pub volumes : Option (List RunnableVolumeSpec)

-- The parts of a batch job that the executor changes.
pub record JobParts : Type 0 where
  pub exclusive : Bool
  pub env : List EnvVar
  pub volumes : List Volume
  pub mounts : List VolumeMount
  pub args : List String

pub data Mutated : Type 0 where
  panicked failed : Mutated
  done : JobParts → Mutated

abbrev optional_arg : String → String → List String
optional_arg flag v = if str_eq v "" then [] else flag ∷ v ∷ []

-- The switch of setupArgs.
abbrev pub restore_type : RestoreMethod → Option String
restore_type m = elim m.folder [
  | some f ↦ some "folder"
  | none ↦ elim m.s3 [ some s ↦ some "s3" | none ↦ none ]
]

-- setupArgs, with `none` for its error.
unfoldable pub setup_args : Configuration → RestoreObject → RestoreMethod → Option (List String)
unfolding build_list_args append_tls_options_args
setup_args c r m =
    let selected =
      "-varDir" ∷ c.pod_var_dir ∷ "-restore" ∷ build_list_args "--tag" r.tags
      ++ build_list_args "--path" r.paths
      ++ optional_arg "-restoreFilter" r.restore_filter
      ++ (if r.delete then "--delete" ∷ [] else [])
      ++ optional_arg "-restoreSnap" r.snapshot
      ++ optional_arg "-restoreTimeFilter" r.restore_time_filter in
    elim (restore_type m) [
      | none ↦ none
      | some t ↦ some (
          selected
          ++ "-restoreType" ∷ t ∷ append_tls_options_args r.backend_tls ""
          ++ append_tls_options_args m.tls_options "restore")
    ]

-- volumeConfig, with `none` for a panic.
unfoldable pub volume_config : RestoreMethod → Option (List Volume × List VolumeMount)
volume_config m = elim m.s3 [
  | some s ↦ some ([], [])
  | none ↦ elim m.folder [
    | none ↦ none
    | some f ↦ elim f.claim_name [
      | none ↦ none
      | some n ↦ some (
        record { name = n; source = claim n } ∷ [],
        record { name = n; mount_path = "/restore" } ∷ [],
      )
    ]
  ]
]

abbrev mounts_of : Option (List VolumeMount) → List VolumeMount
mounts_of none = []
mounts_of (some ms) = ms

-- attachTLSVolumeMounts
unfoldable pub attach_tls_volume_mounts :
    Configuration → RestoreObject → RestoreMethod → List VolumeMount
attach_tls_volume_mounts c r m =
    attach_empty_dir_volume_mounts c.pod_var_dir
      (some (mounts_of r.backend_mounts ++ mounts_of m.volume_mounts) ∷ [])

abbrev with_args : JobParts → Option (List String) → Mutated
with_args j none = failed
with_args j (some args) = done (record {
  exclusive = j.exclusive;
  env = j.env;
  volumes = j.volumes;
  mounts = j.mounts;
  args = args;
})

abbrev with_volumes :
    MergeApi
    → Configuration
    → RestoreObject
    → RestoreMethod
    → JobParts
    → Option (List Volume × List VolumeMount)
    → Mutated
with_volumes api c r m j none = panicked
with_volumes api c r m j (some (volumes, mounts)) =
    with_args
      (record {
        exclusive = true;
        env = j.env ++ with_defaults api c r.namespace (restore_vars c m r.backend);
        volumes = j.volumes ++ volumes ++ attach_empty_dir_volumes r.volumes;
        mounts = j.mounts ++ mounts ++ attach_tls_volume_mounts c r m;
        args = j.args;
      })
      (setup_args c r m)

abbrev with_method :
    MergeApi → Configuration → RestoreObject → JobParts → Option RestoreMethod → Mutated
with_method api c r j none = panicked
with_method api c r j (some m) = with_volumes api c r m j (volume_config m)

-- The function that createRestoreObject passes to CreateOrUpdate; `none` is an error of MutateBatchJob.
unfoldable pub mutate_restore : MergeApi → Configuration → RestoreObject → Option JobParts → Mutated
unfolding volume_config setup_args
mutate_restore api c r none = failed
mutate_restore api c r (some j) = with_method api c r j r.method

-- The spec names a bucket, or a folder with its claim.
abbrev pub has_target : Option RestoreMethod → Bool
has_target none = false
has_target (some m) = elim m.s3 [
  | some s ↦ true
  | none ↦ elim m.folder [ none ↦ false | some f ↦ is_some f.claim_name ]
]

abbrev pub is_done : Mutated → Bool
is_done panicked = false
is_done failed = false
is_done (done j) = true

abbrev pub is_panicked : Mutated → Bool
is_panicked panicked = true
is_panicked failed = false
is_panicked (done j) = false

-- What the job of a restore comes to, by its target.
ByTarget : Mutated → Bool → Type 0
ByTarget x b = (is_done x ≡ b) × (is_panicked x ≡ not b)

with_method-ByTarget :
    (api : MergeApi) (c : Configuration) (r : RestoreObject) (j : JobParts) (s3 : Option S3Spec)
    (folder : Option FolderRestore) (tls : Option TlsOptions) (mounts : Option (List VolumeMount))
    → let m : RestoreMethod = record {
      s3 = s3;
      folder = folder;
      tls_options = tls;
      volume_mounts = mounts;
    } in
      ByTarget (with_method api c r j (some m)) (has_target (some m))
unfolding ByTarget volume_config setup_args
with_method-ByTarget api c r j (some s) (some f) tls mounts = (refl, refl)
with_method-ByTarget api c r j (some s) none tls mounts = (refl, refl)
with_method-ByTarget api c r j none none tls mounts = (refl, refl)
with_method-ByTarget api c r j none (some f) tls mounts = elim (Option-cases f.claim_name) [
  | inl e ↦ rw e (refl, refl)
  | inr (n, e) ↦ rw e (refl, refl)
]

-- Once MutateBatchJob has succeeded, the job of a restore that has a target is made, and a restore
-- without one makes the operator panic: the error about an undefined method never comes.
pub mutate_restore-target :
    (api : MergeApi) (c : Configuration) (r : RestoreObject) (j : JobParts)
    → (is_done (mutate_restore api c r (some j)) ≡ has_target r.method)
      × (is_panicked (mutate_restore api c r (some j)) ≡ not (has_target r.method))
unfolding mutate_restore ByTarget
mutate_restore-target api c r j = elim (Option-cases r.method) [
  | inl e ↦ rw e (refl, refl)
  | inr (m, e) ↦ rw e (
      with_method-ByTarget api c (record r { method = some m }) j m.s3 m.folder m.tls_options
        m.volume_mounts)
]
