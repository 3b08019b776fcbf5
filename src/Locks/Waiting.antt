-- ===== src/Locks/Waiting.antt =====
-- When Wait returns.
use k8up.Prelude.{
  ℕ, zero, suc, ◌+◌, ◌<◌, ◌≤◌, String, ◌≡◌, refl, ◌∙◌, Bool, true, false, Option, none, some, List,
  [], ◌∷◌, arith, Bool-cases, inl, inr, ◌⊎◌,
}
use k8up.Locks.{Repository, Wait, waiting, done, on_locks, wait_loop, wait}

abbrev pub is_empty_list : Option (List String) → Bool
is_empty_list none = false
is_empty_list (some []) = true
is_empty_list (some (l ∷ ls)) = false

-- A list with at least one lock.
abbrev pub is_locked : Option (List String) → Bool
is_locked none = false
is_locked (some []) = false
is_locked (some (l ∷ ls)) = true

on_locks-locked :
    (i : ℕ) (o : Option (List String)) (rest : Wait)
    → is_locked o ≡ true
    → on_locks i o false rest ≡ rest
on_locks-locked i none rest h = absurd (cc (h))
on_locks-locked i (some []) rest h = absurd (cc (h))
on_locks-locked i (some (l ∷ ls)) rest h = refl

on_locks-free :
    (i : ℕ) (o : Option (List String)) (b : Bool) (rest : Wait)
    → is_empty_list o ≡ true
    → on_locks i o b rest ≡ done
on_locks-free i none b rest h = absurd (cc (h))
on_locks-free i (some []) b rest h = refl
on_locks-free i (some (l ∷ ls)) b rest h = absurd (cc (h))

plus_zero : (i : ℕ) → i + 0 ≡ i
plus_zero i = omega arith

zero_plus : (n : ℕ) → 0 + n ≡ n
zero_plus n = omega arith

plus_suc : (i n : ℕ) → i + suc n ≡ suc i + n
plus_suc i n = omega arith

wait_loop-done :
    (n i : ℕ) (r : Repository)
    → ((k : ℕ) → r.unlock k ≡ false)
    → ((k : ℕ) → k < i + n → is_locked (r.locks k) ≡ true)
    → is_empty_list (r.locks (i + n)) ≡ true
    → wait_loop (suc n) r i ≡ done
unfolding wait_loop
wait_loop-done zero i r u h free =
    on_locks-free i (r.locks i) (r.unlock (suc i)) waiting (rw (plus_zero i) at free)
wait_loop-done (suc n) i r u h free = rw (u (suc i)) (
    on_locks-locked i (r.locks i) (wait_loop (suc n) r (suc i)) (h i (omega arith))
    ∙ wait_loop-done n (suc i) r u (λ k lt. h k (omega arith)) (rw (plus_suc i n) at free))

wait_loop-waiting :
    (k i : ℕ) (r : Repository)
    → ((j : ℕ) → r.unlock j ≡ false)
    → ((j : ℕ) → j < i + k → is_locked (r.locks j) ≡ true)
    → wait_loop k r i ≡ waiting
unfolding wait_loop
wait_loop-waiting zero i r u h = refl
wait_loop-waiting (suc k) i r u h = rw (u (suc i)) (
    on_locks-locked i (r.locks i) (wait_loop k r (suc i)) (h i (omega arith))
    ∙ wait_loop-waiting k (suc i) r u (λ j lt. h j (omega arith)))

-- If no Unlock fails, the first n lists of locks are not empty and the next one is, Wait has not
-- returned after any number k of rounds up to n, and returns without error in the round after them.
pub wait_returns :
    (n k : ℕ) (r : Repository)
    → ((j : ℕ) → r.unlock j ≡ false)
    → ((j : ℕ) → j < n → is_locked (r.locks j) ≡ true)
    → is_empty_list (r.locks n) ≡ true
    → k ≤ n
    → (wait k r ≡ waiting) × (wait (suc n) r ≡ done)
unfolding wait
wait_returns n k r u h free le = rw (u 0) (
  wait_loop-waiting k 0 r u (λ j lt. h j (omega arith)),
  wait_loop-done n 0 r u (λ j lt. h j (omega arith)) (rw (zero_plus n) free),
)

on_locks-done :
    (i : ℕ) (o : Option (List String)) (b : Bool) (rest : Wait)
    → on_locks i o b rest ≡ done
    → (is_empty_list o ≡ true) ⊎ (rest ≡ done)
on_locks-done i none b rest h = absurd (cc (h))
on_locks-done i (some []) b rest h = inl refl
on_locks-done i (some (l ∷ ls)) true rest h = absurd (cc (h))
on_locks-done i (some (l ∷ ls)) false rest h = inr h

wait_loop-free :
    (rounds i : ℕ) (r : Repository)
    → wait_loop rounds r i ≡ done
    → (k : ℕ) × (k < i + rounds) × (is_empty_list (r.locks k) ≡ true)
unfolding wait_loop
wait_loop-free zero i r h = absurd (cc (h))
wait_loop-free (suc rounds) i r h =
    elim (on_locks-done i (r.locks i) (r.unlock (suc i)) (wait_loop rounds r (suc i)) h) [
      | inl free ↦ (i, omega arith, free)
      | inr later ↦
          let (k, lt, free) = wait_loop-free rounds (suc i) r later in (k, omega arith, free)
    ]

-- If Wait returns without error, one of its rounds got an empty list of locks.
pub wait-free :
    (rounds : ℕ) (r : Repository)
    → wait rounds r ≡ done
    → (k : ℕ) × (k < rounds) × (is_empty_list (r.locks k) ≡ true)
unfolding wait
wait-free rounds r h = elim (Bool-cases (r.unlock 0)) [
  | inl e ↦ absurd (cc (rw e at h))
  | inr e ↦ let (k, lt, free) = wait_loop-free rounds 0 r (rw e at h) in (k, omega arith, free)
]
