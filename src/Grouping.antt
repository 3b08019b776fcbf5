-- ===== src/Grouping.antt =====
-- How the backup executor groups what it backs up into batch jobs (startBackup and createJob of
-- operator/backupcontroller/executor.go). `T` stands for tolerations. The Go map of job items is an
-- association list, of which the order has no meaning.
pub mod Classic
pub mod Relaxed
mod Examples
use k8up.Prelude.{
  ℕ, suc, ◌+◌, String, Bool, true, false, not, Option, none, some, List, [], ◌∷◌, ◌++◌, concat,
  itoa, lookup, insert, str_eq, is_some, if◌then◌else◌,
}

-- backupItem. The volume is the claim of this name.
pub record BackupItem (T : Type 0) : Type 0 where
  pub volume : String
  pub node : String
  pub tolerations : List T
  pub target_pod : String
  pub restic_args : List String

-- The batch job of createJob, with "" for no node selector.
pub record NewJob (T : Type 0) : Type 0 where
  pub name : String
  pub node : String
  pub tolerations : List T

pub record JobItem (T : Type 0) : Type 0 where
  pub job : NewJob T
  pub target_pods : List String
  pub volumes : List String
  pub restic_args : List String
  pub skip_pre_backup : Bool

-- strings.Join(args, ",")
abbrev pub join : List String → String
join [] = ""
join (a ∷ []) = a
join (a ∷ (b ∷ bs)) = concat (a ∷ "," ∷ join (b ∷ bs) ∷ [])

abbrev pub unless_empty : String → List String
unless_empty s = if str_eq s "" then [] else s ∷ []

module _ {T : Type 0} (backup_name : String) where
  abbrev pub create_job : String → String → List T → NewJob T
  create_job name node tolerations = record {
    name = concat ("backup" ∷ "-" ∷ backup_name ∷ "-" ∷ name ∷ []);
    node = node;
    tolerations = tolerations;
  }

  abbrev pub new_item : ℕ → BackupItem T → JobItem T
  new_item index item = record {
    job = create_job (itoa index) item.node item.tolerations;
    target_pods = [];
    volumes = [];
    restic_args = item.restic_args;
    skip_pre_backup = true;
  }

  -- Relaxed scheduling: one job per claim.
  abbrev pub relaxed_key : ℕ → BackupItem T → String
  relaxed_key index item = concat (itoa index ∷ join item.restic_args ∷ [])

  abbrev pub relaxed_item : ℕ → BackupItem T → JobItem T
  relaxed_item index item =
      let new = new_item index item in
      record new { target_pods = unless_empty item.target_pod; volumes = unless_empty item.volume }

  unfoldable pub group_relaxed :
      ℕ → List (BackupItem T) → List (String × JobItem T) → List (String × JobItem T)
  group_relaxed index [] jobs = jobs
  group_relaxed index (item ∷ items) jobs =
      group_relaxed (suc index) items
        (insert (relaxed_key index item) (relaxed_item index item) jobs)

  -- Classic scheduling: claims with one node and equal arguments share a job.
  abbrev pub classic_key : BackupItem T → String
  classic_key item = concat (item.node ∷ join item.restic_args ∷ [])

  abbrev pub job_or_new : Option (JobItem T) → ℕ → BackupItem T → JobItem T
  job_or_new none index item = new_item index item
  job_or_new (some j) index item = j

  abbrev pub add_claim : BackupItem T → JobItem T → JobItem T
  add_claim item j = record j {
    target_pods = j.target_pods ++ unless_empty item.target_pod;
    volumes = j.volumes ++ item.volume ∷ [];
  }

  unfoldable pub group_classic :
      ℕ → List (BackupItem T) → List (String × JobItem T) → List (String × JobItem T)
  group_classic index [] jobs = jobs
  group_classic index (item ∷ items) jobs =
      let key = classic_key item in
      group_classic (suc index) items
        (insert key (add_claim item (job_or_new (lookup key jobs) index item)) jobs)

  unfoldable pub group_items : Bool → List (BackupItem T) → List (String × JobItem T)
  group_items relaxed items = if relaxed then group_relaxed 0 items [] else group_classic 0 items []

  -- The job for the pods with backup commands, if there are any.
  unfoldable pub with_pre_backup :
      List String → List (String × JobItem T) → List (String × JobItem T)
  with_pre_backup [] jobs = jobs
  with_pre_backup (p ∷ ps) jobs =
      insert "prebackup"
        (record {
          job = create_job "prebackup" "" [];
          target_pods = p ∷ ps;
          volumes = [];
          restic_args = [];
          skip_pre_backup = false;
        })
        jobs
