-- ===== src/Scheduler/Table.antt =====
-- A cron table that keeps its entries in a list, where an identifier is a position and is never used
-- again: it stands for github.com/robfig/cron/v3 where the scheduler is run.
use k8up.Prelude.{
  ℕ, zero, suc, ◌==◌, String, ◌≡◌, refl, Bool, not, ◌&&◌, Option, none, some, List, [], ◌∷◌, ◌++◌,
  arith, if◌then◌else◌, is_some, str_eq, length,
}
use k8up.Scheduler.{CronApi}

module _ {A : Type 0} where
  abbrev pub at : List (Option A) → ℕ → Option A
  at [] k = none
  at (x ∷ xs) zero = x
  at (x ∷ xs) (suc k) = at xs k

  abbrev pub clear : List (Option A) → ℕ → List (Option A)
  clear [] k = []
  clear (x ∷ xs) zero = none ∷ xs
  clear (x ∷ xs) (suc k) = x ∷ clear xs k

  pub at-end : (xs : List (Option A)) → at xs (length xs) ≡ none
  at-end [] = refl
  at-end (x ∷ xs) = at-end xs

  pub at-append :
      (xs : List (Option A)) (x : A) (k : ℕ)
      → at (xs ++ some x ∷ []) k ≡ (if length xs == k then some x else at xs k)
  at-append [] x zero = refl
  at-append [] x (suc k) = ground arith
  at-append (y ∷ xs) x zero = ground arith
  at-append (y ∷ xs) x (suc k) = ground (arith, at-append xs x k)

  pub at-clear :
      (xs : List (Option A)) (i k : ℕ) → at (clear xs i) k ≡ (if i == k then none else at xs k)
  at-clear [] i k = ground arith
  at-clear (x ∷ xs) zero zero = ground arith
  at-clear (x ∷ xs) zero (suc k) = ground arith
  at-clear (x ∷ xs) (suc i) zero = ground arith
  at-clear (x ∷ xs) (suc i) (suc k) = ground (arith, at-clear xs i k)

abbrev pub Table : Type 0 → Type 0
Table J = List (Option (String × J))

abbrev pub is_spec : String → Bool
is_spec spec = not (str_eq spec "") && not (str_eq spec "@annually-random")

abbrev pub add_entry : {J : Type 0} → Table J → String → J → Option ℕ × Table J
add_entry c spec j = if is_spec spec then (some (length c), c ++ some (spec, j) ∷ []) else (none, c)

pub add_entry-parses :
    {J : Type 0} (c : Table J) (spec : String) (j : J)
    → is_some (add_entry c spec j).0 ≡ is_spec spec
add_entry-parses c spec j = ground arith

pub add_entry-length :
    {J : Type 0} (c : Table J) (spec : String) (j : J) (id : ℕ)
    → (add_entry c spec j).0 ≡ some id
    → (id ≡ length c) × ((add_entry c spec j).1 ≡ c ++ some (spec, j) ∷ [])
add_entry-length c spec j id e = ground arith

pub add_entry-unchanged :
    {J : Type 0} (c : Table J) (spec : String) (j : J)
    → (add_entry c spec j).0 ≡ none
    → (add_entry c spec j).1 ≡ c
add_entry-unchanged c spec j e = ground arith

abbrev pub table : {J : Type 0} → CronApi (Table J) J
table = record {
  parses = is_spec;
  add = add_entry;
  remove = clear;
  entry = at;
  add-parses = add_entry-parses;
  entry-add = λ c spec j id k e.
      let (same, grown) = add_entry-length c spec j id e in
      rw (grown, same) (at-append c (spec, j) k);
  entry-add_fresh = λ c spec j id e. rw (add_entry-length c spec j id e).0 (at-end c);
  entry-add_failed = λ c spec j k e. rw (add_entry-unchanged c spec j e);
  entry-remove = at-clear;
}
