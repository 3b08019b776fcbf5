-- ===== src/Locker/Pending.antt =====
-- What becomes of exclusion when a start does not find the pods of the earlier jobs active
-- (operator/locker/locker.go), as right after the creation of a job.
use k8up.Prelude.{
  ℕ, zero, suc, ◌+◌, ◌≡◌, refl, ◌∙◌, ap, true, false, List, [], ◌∷◌, map, itoa, String, anyb, All,
  arith,
}
use k8up.Prelude.Int.{ℤ}
use k8up.JobObject.{JobType, prune_type}
use k8up.Job.{BatchJob}
use k8up.Locker.{is_active, new_job, start, try_run_exclusively}
use k8up.Locker.Decisions.{is_empty-running_jobs}
use k8up.Locker.Exclusion.{Reach, idle, next, launch, pods, set_active, solos}

-- Prunes named by their numbers, of which the last k that were started have no active pod, and the m
-- before them have one each.
abbrev prunes : ℕ → ℕ → List BatchJob
prunes zero zero = []
prunes zero (suc m) = record (new_job prune_type (itoa m)) { active = 1 } ∷ prunes zero m
prunes (suc k) m = new_job prune_type (itoa (k + m)) ∷ prunes k m

none_active : (k : ℕ) → anyb is_active (prunes k zero) ≡ false
unfolding new_job
none_active zero = refl
none_active (suc k) = none_active k

launched :
    (limit : ℤ) (k : ℕ)
    → (start prune_type limit (itoa (k + zero)) (prunes k zero)).1 ≡ prunes (suc k) zero
unfolding start try_run_exclusively
launched limit k = rw (is_empty-running_jobs (prunes k zero), none_active k)

activated : (k m : ℕ) → set_active k 1 (prunes (suc k) m) ≡ prunes k (suc m)
activated zero m =
    ap (λ j. record (new_job prune_type (itoa j)) { active = 1 } ∷ prunes zero m) (omega arith)
activated (suc k) m =
    let e : suc k + m ≡ k + suc m = omega arith in
    ap (λ bs. new_job prune_type (itoa (suc k + m)) ∷ bs) (activated k m)
    ∙ ap (λ j. new_job prune_type (itoa j) ∷ prunes k (suc m)) e

-- The numerals below n.
abbrev pub numerals : ℕ → List String
numerals zero = []
numerals (suc n) = itoa n ∷ numerals n

prunes_names : (m : ℕ) → map (λ b. b.name) (prunes zero m) ≡ numerals m
unfolding new_job
prunes_names zero = refl
prunes_names (suc m) = ap (λ ns. itoa m ∷ ns) (prunes_names m)

prunes_active : (m : ℕ) → All (λ b. is_active b ≡ true) (prunes zero m)
prunes_active zero = tt
prunes_active (suc m) = (refl, prunes_active m)

prunes_solo : (m : ℕ) → solos (prunes zero m) ≡ m
unfolding solos new_job
prunes_solo zero = refl
prunes_solo (suc m) = omega (arith, prunes_solo m)

module _ (limit : JobType → ℤ) where
  Reach-pending : (k : ℕ) → Reach limit (prunes k zero)
  Reach-pending zero = idle
  Reach-pending (suc k) =
      rw (launched (limit prune_type) k) at
        (next (Reach-pending k) (launch prune_type (itoa (k + zero)) (prunes k zero)))

  Reach-active : (k m n : ℕ) → k + m ≡ n → Reach limit (prunes k m) → Reach limit (prunes zero n)
  Reach-active zero m n e r = let e' : m ≡ n = omega arith in rw e' at r
  Reach-active (suc k) m n e r =
      Reach-active k (suc m) n (omega arith)
        (rw (activated k m) at (next r (pods k 1 (prunes (suc k) m))))

  -- Whatever the limits are, the starts can come before the pods: for every number n, a run from an
  -- idle repository ends with n prunes, of different names, that all have an active pod.
  pub prunes_side_by_side :
      (n : ℕ)
      → (bs : List BatchJob) × Reach limit bs
        × (solos bs ≡ n)
        × (map (λ b. b.name) bs ≡ numerals n)
        × All (λ b. is_active b ≡ true) bs
  prunes_side_by_side n = (
    prunes zero n,
    Reach-active n zero n (omega arith) (Reach-pending n),
    prunes_solo n,
    prunes_names n,
    prunes_active n,
  )
