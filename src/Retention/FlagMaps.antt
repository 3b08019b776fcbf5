-- ===== src/Retention/FlagMaps.antt =====
-- Combine as an operation on maps from flags to values.
use k8up.Prelude.{
  String, ◌≡◌, refl, ◌∙◌, Bool, true, not, ◌&&◌, Option, none, some, List, [], ◌∷◌, is_some, lookup,
  insert, lookup-insert, str_eq, eq_iff, if◌then◌else◌, arith, Bool-cases, Option-cases, inl, inr,
}
use k8up.Retention.{Flags, append_to, combine_from, combine}

-- No key twice, as in a Go map.
abbrev pub is_map : Flags → Bool
is_map [] = true
is_map ((k, v) ∷ f) = not (is_some (lookup k f)) && is_map f

abbrev pub both : Option (List String) → Option (List String) → Option (List String)
both x none = x
both x (some values) = some (append_to x values)

combine_from_lem :
    (k : String) (first combined second : Flags)
    → is_map second ≡ true
    → lookup k (combine_from first combined second) ≡ (
        if is_some (lookup k second)
        then both (lookup k first) (lookup k second)
        else lookup k combined)
combine_from_lem k first combined [] h = refl
combine_from_lem k first combined ((key, values) ∷ second) h =
    let new = append_to (lookup key first) values in
    combine_from_lem k first (insert key new combined) second (ground (arith, h))
    ∙ elim (Bool-cases (str_eq key k)) [
      | inl here ↦
          let same : key ≡ k = (eq_iff key k).0 here in
          elim (Option-cases (lookup key second)) [
            | inl e ↦ rw (lookup-insert key k new combined, here, ← same, e) refl
            | inr (x, e) ↦ absurd (cc (rw e at h))
          ]
      | inr other ↦ rw (lookup-insert key k new combined, other) refl
    ]

-- Where the second flags have no key twice, a flag of Combine's result has the values of the first
-- followed by those of the second.
pub combine_lem :
    (k : String) (first second : Flags)
    → is_map second ≡ true
    → lookup k (combine first second) ≡ both (lookup k first) (lookup k second)
unfolding combine
combine_lem k first second h =
    combine_from_lem k first first second h
    ∙ elim (Option-cases (lookup k second)) [ inl e ↦ rw e refl | inr (values, e) ↦ rw e refl ]
