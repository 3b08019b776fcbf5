-- ===== src/Scheduler/Keys.antt =====
-- Entries of an association list under one key and under another.
use k8up.Prelude.{
  String, ◌≡◌, sym, false, none, some, List, arith, lookup, without, lookup-without, eq_iff, str_eq,
  Bool-cases, inl, inr,
}
use mathlib.Core.Logic.{◌⊎◌}

module _ {V : Type 0} where
  pub other_key :
      (key k : String) (m : List (String × V)) {r : V}
      → lookup key m ≡ none
      → lookup k m ≡ some r
      → str_eq key k ≡ false
  other_key key k m n h = elim (Bool-cases (str_eq key k)) [
    | inl e ↦ cc (sym n, rw (← (eq_iff key k).0 e) at h)
    | inr e ↦ e
  ]

  -- Two values under keys that are equal as texts are one.
  pub different_key :
      (key k : String) (m : List (String × V)) {r r' : V}
      → lookup key m ≡ some r
      → lookup k m ≡ some r'
      → (str_eq key k ≡ false) ⊎ (r ≡ r')
  different_key key k m h h' = elim (Bool-cases (str_eq key k)) [
    | inl e ↦ inr (cc ((eq_iff key k).0 e))
    | inr e ↦ inl e
  ]

  pub lookup-without-some :
      (key k : String) (m : List (String × V)) {r : V}
      → lookup k (without key m) ≡ some r
      → (str_eq key k ≡ false) × (lookup k m ≡ some r)
  lookup-without-some key k m h = ground (arith, lookup-without key k m)
