-- ===== src/Locker/Examples.antt =====
-- Starts on one repository.
use k8up.Prelude.{
  All, map, ◌≤◌, ◌≡◌, refl, true, false, not, ◌&&◌, List, [], ◌∷◌, length, ltb, ◌⊎◌, if◌then◌else◌,
}
use k8up.Prelude.Int.{ℤ, pos}
use k8up.JobObject.{JobType, backup_type, prune_type, restore_type}
use k8up.Job.{BatchJob, found}
use k8up.Locker
use k8up.Locker.{
  new_job, create, start, try_run, try_run_exclusively, is_active, is_labelled_exclusive,
}
use k8up.Locker.Decisions.{active_of, exclusive_in, try_run_lem}
use k8up.Locker.Pending.{numerals, prunes_side_by_side}
use k8up.Locker.Exclusion.{
  Reach, IsSteady, IsSettled, set_active, pods, idle, next, launch, exclusives, solos,
  Reach-IsExclusive,
}

abbrev active : BatchJob → BatchJob
active b = record b { active = 1 }

abbrev backups : List BatchJob
backups = active (new_job backup_type "backup-a") ∷ active (new_job backup_type "backup-b") ∷ []

abbrev no_limit : JobType → ℤ
no_limit t = pos 0

-- A third backup is held back by the limit 2, and runs under the limit 3.
limit_run :
    ((start backup_type (pos 2) "backup-c" backups).0.did_run ≡ false)
    × ((start backup_type (pos 3) "backup-c" backups).0.did_run ≡ true)
unfolding start try_run Locker.is_concurrency_limit_reached Locker.is_exclusive_job_running new_job
limit_run = (refl, refl)

prune_waits : (start prune_type (pos 0) "prune-a" backups).1 ≡ backups
unfolding start try_run_exclusively new_job
prune_waits = refl

try_run_lem_example :
    let (r, s') = try_run (found backups) backup_type (pos 2) (create backup_type "c") backups in
    let allowed = not (exclusive_in backups) && ltb (active_of backup_type backups) 2 in
    (r.did_run ≡ allowed)
    × (r.failed ≡ (allowed && false))
    × (s' ≡ (if allowed then new_job backup_type "c" ∷ backups else backups))
try_run_lem_example = try_run_lem backups (create backup_type "c") backups backup_type 1

-- A backup whose pod is active before a restore is started beside it.
abbrev one_backup : List BatchJob
one_backup = set_active 0 1 (start backup_type (pos 0) "b" []).1

abbrev two_starts : List BatchJob
two_starts = (start restore_type (pos 0) "r" one_backup).1

abbrev two_starts_run : Reach no_limit two_starts
two_starts_run =
    next (next (next idle (launch backup_type "b" [])) (pods 0 1 _))
      (launch restore_type "r" one_backup)

two_starts-IsSteady : IsSteady two_starts_run
unfolding IsSteady IsSettled start try_run new_job Locker.is_concurrency_limit_reached
    Locker.is_exclusive_job_running
two_starts-IsSteady = ((refl, tt), (tt, (tt, tt)))

Reach-IsExclusive_example :
    (exclusives two_starts ≤ 1) × ((solos two_starts ≡ 0) ⊎ (length two_starts ≤ 1))
Reach-IsExclusive_example = Reach-IsExclusive no_limit two_starts two_starts_run two_starts-IsSteady

prunes_side_by_side_example :
    (bs : List BatchJob) × Reach no_limit bs
    × (solos bs ≡ 2)
    × (map (λ b. b.name) bs ≡ numerals 2)
    × All (λ b. is_active b ≡ true) bs
prunes_side_by_side_example = prunes_side_by_side no_limit 2
