-- ===== src/EnvVars/Repository.antt =====
-- The repository in the environment of a job (setupEnvVars of operator/checkcontroller/executor.go,
-- operator/prunecontroller/executor.go, operator/restorecontroller/executor.go and
-- operator/archivecontroller/executor.go) against the one that the controllers choose.
use k8up.Prelude.{
  String, false, ◌≡◌, refl, ◌∙◌, Option, none, some, List, [], ◌∷◌, ◌++◌, str_eq, Bool-cases, inl,
  inr, All,
}
use k8up.Backends.{Backend, backend_string, get_global_repository, repository_of}
use k8up.EnvVars.{
  Vars, EnvVar, Configuration, MergeApi, set_string, default_env, restic_repository_env,
}
use k8up.EnvVars.Executors.{
  RetentionPolicy, RestoreMethod, with_defaults, check_vars, prune_vars, archive_vars, restore_vars,
}
use k8up.EnvVars.Converted.{convert-last, others, others-All}
use k8up.EnvVars.Own.{
  Says, entry_of, own_repository, check_vars-Says, prune_vars-Says, archive_vars-Says,
  restore_vars-Says,
}

default_env-Says :
    (c : Configuration) (namespace : String)
    → Says (some (entry_of (get_global_repository c.backends))) (default_env c namespace)
unfolding default_env set_string
default_env-Says c namespace = elim (Bool-cases (str_eq c.restic_options "")) [
  | inl s ↦ rw s (record { found = refl })
  | inr s ↦ rw s (record { found = refl })
]

merged-Says :
    (api : MergeApi) (c : Configuration) (namespace : String) (b : Option Backend) (own : Vars)
    → Says (own_repository c b) own
    → Says (some (entry_of (repository_of c.backends b))) (api.merge own (default_env c namespace))
unfolding repository_of
merged-Says api c namespace none own h =
    let own_none = api.added own (default_env c namespace) restic_repository_env h.found in
    record { found = own_none ∙ (default_env-Says c namespace).found }
merged-Says api c namespace (some b) own h = record {
  found =
      api.kept own (default_env c namespace) restic_repository_env
        (entry_of (backend_string c.backends b)) h.found refl;
}

-- The last variable is the repository that the object stands for, and no other has its name.
pub IsFor : Configuration → Option Backend → List EnvVar → Type 0
IsFor c b env =
    (before : List EnvVar) × (env
      ≡ before
        ++ record {
          name = restic_repository_env;
          value = repository_of c.backends b;
          value_from = none;
        }
          ∷ [])
    × All (λ v. str_eq v.name restic_repository_env ≡ false) before

with_defaults-IsFor :
    (api : MergeApi) (c : Configuration) (namespace : String) (b : Option Backend) (own : Vars)
    → Says (own_repository c b) own
    → IsFor c b (with_defaults api c namespace own)
unfolding with_defaults IsFor
with_defaults-IsFor api c namespace b own h =
    let all = api.merge own (default_env c namespace) in
    (
      others all,
      convert-last all (entry_of (repository_of c.backends b))
          (api.merge-IsMap own (default_env c namespace))
          (merged-Says api c namespace b own h).found,
      others-All all,
    )

-- The job of a check, of a prune, of a restore and of an archive is told one repository, after all other
-- variables, and it is the one by which the controllers lock the object: its backend's, or the global
-- one if it has none.
pub jobs-IsFor :
    (api : MergeApi) (c : Configuration) (namespace : String) (r : RetentionPolicy)
    (m : RestoreMethod) (o : Option RestoreMethod) (b : Option Backend)
    → IsFor c b (with_defaults api c namespace (check_vars c b))
      × IsFor c b (with_defaults api c namespace (prune_vars c r b))
      × IsFor c b (with_defaults api c namespace (restore_vars c m b))
      × IsFor c b (with_defaults api c namespace (archive_vars c o b))
jobs-IsFor api c namespace r m o b = (
  with_defaults-IsFor api c namespace b (check_vars c b) (check_vars-Says c b),
  with_defaults-IsFor api c namespace b (prune_vars c r b) (prune_vars-Says c r b),
  with_defaults-IsFor api c namespace b (restore_vars c m b) (restore_vars-Says c m b),
  with_defaults-IsFor api c namespace b (archive_vars c o b) (archive_vars-Says c o b),
)
