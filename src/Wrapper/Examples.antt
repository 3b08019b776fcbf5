-- ===== src/Wrapper/Examples.antt =====
-- Runs of the wrapper.
use k8up.Prelude.{◌≡◌, refl, Bool, true, false, [], ◌∷◌}
use k8up.Wrapper
use k8up.Wrapper.{
  Step, Tasks, init, unlock, list_snapshots, wait_for_locks, prune, check, backup_pods, backup_dir,
  run,
}
use k8up.Wrapper.Plan.{plan, follow, run-follow}

abbrev prune_and_check : Tasks
prune_and_check = record {
  do_prune = true;
  do_check = true;
  do_restore = false;
  do_archive = false;
}

abbrev backup_only : Tasks
backup_only = record { do_prune = false; do_check = false; do_restore = false; do_archive = false }

-- Stale locks cannot be removed, and pruning fails.
abbrev trouble : Step → Bool
trouble unlock = true
trouble prune = true
trouble _ = false

failing_steps :
    (run trouble prune_and_check ≡ record {
      begun = init ∷ unlock ∷ list_snapshots ∷ wait_for_locks ∷ prune ∷ [];
      failed = true;
    })
    × (run trouble backup_only ≡ record {
      begun = init ∷ unlock ∷ list_snapshots ∷ backup_pods ∷ backup_dir ∷ [];
      failed = false;
    })
unfolding run Wrapper.do_non_backup_tasks Wrapper.do_backup Wrapper.restic_initialization
    Wrapper.wait_for_end_of_concurrent_operations
failing_steps = (refl, refl)

run-follow_example : run trouble prune_and_check ≡ follow trouble (plan prune_and_check)
run-follow_example = run-follow trouble prune_and_check
