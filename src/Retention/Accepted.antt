-- ===== src/Retention/Accepted.antt =====
-- What the validation of a retention policy accepts, and the arguments of an accepted policy.
use k8up.Prelude.{
  ℕ, String, ◌≡◌, refl, Bool, true, false, not, ◌&&◌, ◌||◌, Option, none, some, List, [], ◌∷◌,
  is_some, str_eq, ◌==◌, if◌then◌else◌, arith, Option-cases, inl, inr, ◌⊎◌,
}
use k8up.Prelude.Int.{ℤ, pos, negsuc}
use k8up.Retention.{
  Keep, Policy, PolicyError, check_keep_n, check_keep_within, check_duration, validate_prune,
  keep_flag, print_int, keep_n_args,
}

abbrev pub every {ℓ} : {A : Type ℓ} → (A → Bool) → List A → Bool
every p [] = true
every p (x ∷ xs) = p x && every p xs

abbrev pub is_negative : ℤ → Bool
is_negative (pos n) = false
is_negative (negsuc n) = true

abbrev pub is_zero : ℤ → Bool
is_zero (pos n) = n == 0
is_zero (negsuc n) = false

-- A duration of more than nothing.
abbrev pub is_lasting : Option ℤ → Bool
is_lasting none = false
is_lasting (some d) = not (is_zero d) && not (is_negative d)

Number-cases : (z : ℤ) → ((n : ℕ) × (z ≡ pos n)) ⊎ ((n : ℕ) × (z ≡ negsuc n))
Number-cases (pos n) = inl (n, refl)
Number-cases (negsuc n) = inr (n, refl)

module _ (parse_duration : String → Option ℤ) (c : Policy) where
  abbrev pub is_valid_within : Keep → Bool
  is_valid_within k = str_eq (c.keep_within k) "" || is_lasting (parse_duration (c.keep_within k))

  check_keep_n-every :
      (ks : List Keep)
      → not (is_some (check_keep_n c ks)) ≡ every (λ k. not (is_negative (c.keep_n k))) ks
  check_keep_n-every [] = refl
  check_keep_n-every (k ∷ ks) = elim (Number-cases (c.keep_n k)) [
    | inl (n, e) ↦ rw e (ground (arith, check_keep_n-every ks))
    | inr (n, e) ↦ rw e (ground (arith, check_keep_n-every ks))
  ]

  check_duration-lasting :
      (k : Keep) (d : Option ℤ) (rest : Option PolicyError)
      → not (is_some (check_duration k d rest)) ≡ (is_lasting d && not (is_some rest))
  check_duration-lasting k none rest = refl
  check_duration-lasting k (some (pos n)) rest = ground arith
  check_duration-lasting k (some (negsuc n)) rest = ground arith

  check_keep_within-every :
      (ks : List Keep)
      → not (is_some (check_keep_within parse_duration c ks)) ≡ every is_valid_within ks
  check_keep_within-every [] = refl
  check_keep_within-every (k ∷ ks) = ground (
    arith,
    check_keep_within-every ks,
    check_duration-lasting k (parse_duration (c.keep_within k))
        (check_keep_within parse_duration c ks),
  )

  -- In whatever orders Go iterates over the arguments, validatePrune accepts a policy exactly if no
  -- pruning is asked for, or no number is negative and every duration that is given can be parsed
  -- and is longer than nothing.
  pub validate_prune_lem :
      (order order' : List Keep)
      → not (is_some (validate_prune parse_duration order order' c)) ≡ (
          not c.do_prune
          || every (λ k. not (is_negative (c.keep_n k))) order && every is_valid_within order')
  unfolding validate_prune
  validate_prune_lem order order' = elim (Option-cases (check_keep_n c order)) [
    | inl e ↦ rw e (ground (arith, check_keep_n-every order, check_keep_within-every order'))
    | inr (x, e) ↦ rw e (ground (arith, check_keep_n-every order, check_keep_within-every order'))
  ]

  -- One argument with its number for each number that is not zero.
  abbrev pub number_args : List Keep → List String
  number_args [] = []
  number_args (k ∷ ks) =
      let rest = number_args ks in
      if is_zero (c.keep_n k) then rest else keep_flag k ∷ print_int (c.keep_n k) ∷ rest

  keep_n_args-number_args :
      (ks : List Keep)
      → every (λ k. not (is_negative (c.keep_n k))) ks ≡ true
      → keep_n_args c ks ≡ number_args ks
  keep_n_args-number_args [] h = refl
  keep_n_args-number_args (k ∷ ks) h = elim (Number-cases (c.keep_n k)) [
    | inl (n, e) ↦ rw e (ground (arith, keep_n_args-number_args ks, rw e at h))
    | inr (n, e) ↦ absurd (cc (rw e at h))
  ]

  -- For a policy that validatePrune accepts where pruning is asked for, Prune passes every number that
  -- is not zero on to restic: none is left out for its sign.
  pub validate_prune-keep_n_args :
      (order order' : List Keep)
      → c.do_prune ≡ true
      → validate_prune parse_duration order order' c ≡ none
      → keep_n_args c order ≡ number_args order
  validate_prune-keep_n_args order order' asked ok =
      keep_n_args-number_args order (ground (arith, validate_prune_lem order order', asked, ok))
