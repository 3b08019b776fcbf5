-- ===== src/Wrapper.antt =====
-- The order in which the restic wrapper does its work (cmd/restic/main.go). Whether a step fails is a
-- parameter. Reading the flags, sleeping and the pods of a backup, whose execs are input and output,
-- are left out: the backup of the annotated pods is one step.
pub mod Plan
mod Examples
use k8up.Prelude.{Bool, true, false, not, ◌||◌, List, [], ◌∷◌, if◌then◌else◌}

pub data Step : Type 0 where
  init unlock list_snapshots wait_for_locks prune check restore archive : Step
  backup_pods backup_dir : Step

pub record Tasks : Type 0 where
  pub do_prune : Bool
  pub do_check : Bool
  pub do_restore : Bool
  pub do_archive : Bool

-- The steps that were begun, and whether the run answers an error.
pub record Progress : Type 0 where
  pub begun : List Step
  pub failed : Bool

abbrev nothing : Progress
nothing = record { begun = []; failed = false }

module _ (fails : Step → Bool) where
  -- `if err := step(); err != nil { return err }` and what comes after it.
  abbrev pub before : Step → Progress → Progress
  before s next =
      if fails s
      then record { begun = s ∷ []; failed = true }
      else record next { begun = s ∷ next.begun }

  -- A step whose error is only logged.
  abbrev pub regardless : Step → Progress → Progress
  regardless s next = record next { begun = s ∷ next.begun }

  -- doPrune, doCheck, doRestore, doArchive, each followed by the next.
  abbrev pub task : Bool → Step → Progress → Progress
  task wanted s next = if wanted then before s next else next

  unfoldable pub do_non_backup_tasks : Tasks → Progress
  do_non_backup_tasks c =
      task c.do_prune prune
        (task c.do_check check (task c.do_restore restore (task c.do_archive archive nothing)))

  unfoldable pub do_backup : Progress
  do_backup = before backup_pods (before backup_dir nothing)

  unfoldable pub wait_for_end_of_concurrent_operations : Tasks → Progress → Progress
  wait_for_end_of_concurrent_operations c next =
      if c.do_prune || c.do_check then before wait_for_locks next else next

  unfoldable pub restic_initialization : Progress → Progress
  restic_initialization next = before init (regardless unlock (before list_snapshots next))

  unfoldable pub run : Tasks → Progress
  unfolding do_non_backup_tasks do_backup wait_for_end_of_concurrent_operations
      restic_initialization
  run c = restic_initialization (
      wait_for_end_of_concurrent_operations c (
        if c.do_prune || (c.do_check || (c.do_restore || c.do_archive))
        then do_non_backup_tasks c
        else do_backup))
