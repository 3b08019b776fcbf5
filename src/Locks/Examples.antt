-- ===== src/Locks/Examples.antt =====
-- A repository that is locked for two rounds.
use k8up.Prelude.{
  ℕ, zero, suc, ◌<◌, String, ◌≡◌, refl, true, false, Option, some, List, [], ◌∷◌, arith,
}
use k8up.Locks.{Repository, waiting, done, wait}
use k8up.Locks.Waiting.{is_locked, wait_returns}

abbrev locks_of : ℕ → Option (List String)
locks_of zero = some ("a" ∷ "b" ∷ [])
locks_of (suc zero) = some ("b" ∷ [])
locks_of (suc (suc k)) = some []

abbrev repository : Repository
repository = record { unlock = λ k. false; locks = locks_of }

locked_twice : (k : ℕ) → k < 2 → is_locked (locks_of k) ≡ true
locked_twice zero lt = refl
locked_twice (suc zero) lt = refl
locked_twice (suc (suc k)) lt = absurd (omega arith)

wait_returns_example : (wait 2 repository ≡ waiting) × (wait 3 repository ≡ done)
wait_returns_example = wait_returns 2 2 repository (λ k. refl) locked_twice refl (omega arith)
