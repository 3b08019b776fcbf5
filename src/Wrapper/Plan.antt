-- ===== src/Wrapper/Plan.antt =====
-- The wrapper follows a plan that its tasks decide (cmd/restic/main.go).
use k8up.Prelude.{◌≡◌, Bool, true, false, not, ◌||◌, List, [], ◌∷◌, ◌++◌, arith, if◌then◌else◌}
use k8up.Wrapper.{
  Step, init, unlock, list_snapshots, wait_for_locks, prune, check, restore, archive, backup_pods,
  backup_dir, Tasks, Progress, run, do_non_backup_tasks, do_backup,
  wait_for_end_of_concurrent_operations, restic_initialization,
}

abbrev only_if : Bool → Step → List Step
only_if wanted s = if wanted then s ∷ [] else []

abbrev pub wants_task : Tasks → Bool
wants_task c = c.do_prune || (c.do_check || (c.do_restore || c.do_archive))

-- All steps, if none fails.
abbrev pub plan : Tasks → List Step
plan c =
    init
    ∷ unlock
    ∷ list_snapshots
    ∷ (only_if (c.do_prune || c.do_check) wait_for_locks
        ++ (only_if c.do_prune prune
            ++ (only_if c.do_check check
                ++ (only_if c.do_restore restore
                    ++ (only_if c.do_archive archive
                        ++ (only_if (not (wants_task c)) backup_pods
                            ++ only_if (not (wants_task c)) backup_dir))))))

-- A failure of the removal of stale locks is let pass.
abbrev pub stops : (Step → Bool) → Step → Bool
stops fails unlock = false
stops fails s = fails s

-- The steps of a plan up to the first that stops it.
pub follow : (Step → Bool) → List Step → Progress
follow fails [] = record { begun = []; failed = false }
follow fails (s ∷ ss) =
    let next = follow fails ss in
    if stops fails s
    then record { begun = s ∷ []; failed = true }
    else record next { begun = s ∷ next.begun }

-- Whatever steps fail, the wrapper begins exactly the steps of the plan, in its order, up to the
-- first that fails, and answers an error exactly if one failed; only the removal of stale locks may
-- fail without effect.
pub run-follow : (fails : Step → Bool) (c : Tasks) → run fails c ≡ follow fails (plan c)
unfolding run do_non_backup_tasks do_backup wait_for_end_of_concurrent_operations
    restic_initialization follow
run-follow fails c = ground arith
