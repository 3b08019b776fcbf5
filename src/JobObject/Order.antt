-- ===== src/JobObject/Order.antt =====
-- Sorting job objects by `Less`, oldest first (the use of `sort.Sort` on api/v1/job_object.go). The
-- sort of the Go library is not stable, but two objects that neither precedes the other have one
-- creation time and one name, so that a list of distinct names has one sorted order.
use mathlib.Core.List.{Perm}
use mathlib.Core.List.Perm
use k8up.Prelude.{
  ℕ, zero, suc, length, take, drop, All-drop, ◌≡◌, refl, true, false, List, [], ◌∷◌, All, arith,
  if◌then◌else◌, Bool-cases, inl, inr, str_lt_asymm, str_lt_le_trans,
}
use k8up.JobObject.{JobObject, less}

pub less_asymm : (a b : JobObject) → less a b ≡ true → less b a ≡ false
unfolding less
less_asymm a b h = ground (arith, str_lt_asymm a.name b.name)

pub less_le_trans : (a b c : JobObject) → less b a ≡ false → less c b ≡ false → less c a ≡ false
unfolding less
less_le_trans a b c h k = ground (arith, str_lt_le_trans a.name b.name c.name)

insert_sorted : JobObject → List JobObject → List JobObject
insert_sorted x [] = x ∷ []
insert_sorted x (y ∷ ys) = if less y x then y ∷ insert_sorted x ys else x ∷ y ∷ ys

-- sort.Sort
unfoldable pub sort : List JobObject → List JobObject
unfolding insert_sorted
sort [] = []
sort (x ∷ xs) = insert_sorted x (sort xs)

-- No object precedes one that stands before it.
abbrev pub IsSorted : List JobObject → Type 0
IsSorted [] = Unit
IsSorted (x ∷ xs) = All (λ y. less y x ≡ false) xs × IsSorted xs

insert_sorted-All :
    (P : JobObject → Type 0) (x : JobObject) (xs : List JobObject)
    → P x
    → All P xs
    → All P (insert_sorted x xs)
unfolding insert_sorted
insert_sorted-All P x [] px h = (px, tt)
insert_sorted-All P x (y ∷ ys) px h = elim (Bool-cases (less y x)) [
  | inl e ↦ rw e (h.0, insert_sorted-All P x ys px h.1)
  | inr e ↦ rw e (px, h)
]

older_than-All :
    (x y : JobObject) (zs : List JobObject)
    → less y x ≡ false
    → All (λ z. less z y ≡ false) zs
    → All (λ z. less z x ≡ false) zs
older_than-All x y [] h k = tt
older_than-All x y (z ∷ zs) h k = (less_le_trans x y z h k.0, older_than-All x y zs h k.1)

insert_sorted-IsSorted :
    (x : JobObject) (xs : List JobObject) → IsSorted xs → IsSorted (insert_sorted x xs)
unfolding insert_sorted
insert_sorted-IsSorted x [] h = (tt, tt)
insert_sorted-IsSorted x (y ∷ ys) h = elim (Bool-cases (less y x)) [
  | inl e ↦ rw e (insert_sorted-All _ x ys (less_asymm y x e) h.0, insert_sorted-IsSorted x ys h.1)
  | inr e ↦ rw e ((e, older_than-All x y ys e h.0), h)
]

pub sort-IsSorted : (xs : List JobObject) → IsSorted (sort xs)
unfolding sort
sort-IsSorted [] = tt
sort-IsSorted (x ∷ xs) = insert_sorted-IsSorted x (sort xs) (sort-IsSorted xs)

insert_sorted-Perm : (x : JobObject) (xs : List JobObject) → Perm (insert_sorted x xs) (x ∷ xs)
unfolding insert_sorted
insert_sorted-Perm x [] = Perm.refl (x ∷ [])
insert_sorted-Perm x (y ∷ ys) = elim (Bool-cases (less y x)) [
  | inl e ↦ rw e (Perm.trans (Perm.cons y (insert_sorted-Perm x ys)) (Perm.swap x y ys))
  | inr e ↦ rw e (Perm.refl (x ∷ y ∷ ys))
]

pub sort-Perm : (xs : List JobObject) → Perm (sort xs) xs
unfolding sort
sort-Perm [] = Perm.refl []
sort-Perm (x ∷ xs) = Perm.trans (insert_sorted-Perm x (sort xs)) (Perm.cons x (sort-Perm xs))

pub sort-All : (P : JobObject → Type 0) (xs : List JobObject) → All P xs → All P (sort xs)
unfolding sort
sort-All P [] h = tt
sort-All P (x ∷ xs) h = insert_sorted-All P x (sort xs) h.0 (sort-All P xs h.1)

length-insert_sorted :
    (x : JobObject) (xs : List JobObject) → length (insert_sorted x xs) ≡ suc (length xs)
unfolding insert_sorted
length-insert_sorted x [] = refl
length-insert_sorted x (y ∷ ys) = ground (arith, length-insert_sorted x ys)

pub length-sort : (xs : List JobObject) → length (sort xs) ≡ length xs
unfolding sort
length-sort [] = refl
length-sort (x ∷ xs) = omega (arith, length-insert_sorted x (sort xs), length-sort xs)

-- In a sorted list nothing behind a cut precedes anything before it.
pub IsSorted-cut :
    (n : ℕ) (xs : List JobObject)
    → IsSorted xs
    → All (λ x. All (λ y. less y x ≡ false) (drop n xs)) (take n xs)
IsSorted-cut zero xs h = tt
IsSorted-cut (suc n) [] h = tt
IsSorted-cut (suc n) (x ∷ xs) h = (All-drop _ n xs h.0, IsSorted-cut n xs h.1)
