-- ===== src/EnvVars/Plain.antt =====
-- A plain implementation of `MergeApi`, which shows that its laws can be met: the entries of the first
-- map are put over those of the second.
use k8up.Prelude.{
  String, ◌≡◌, refl, ◌∙◌, Option, none, some, [], ◌∷◌, lookup, insert, lookup-insert, str_eq,
  eq_iff, arith, Bool-cases, inl, inr,
}
use k8up.EnvVars.{Vars, EnvVarEntry, IsMap, MergeApi}

abbrev pub put_all : Vars → Vars → Vars
put_all [] vars = vars
put_all ((k, e) ∷ own) vars = insert k e (put_all own vars)

pub lookup-put_all :
    (own vars : Vars) (j : String)
    → lookup j (put_all own vars) ≡ elim (lookup j own) [ none ↦ lookup j vars | some e ↦ some e ]
lookup-put_all [] vars j = refl
lookup-put_all ((k, e) ∷ own) vars j = elim (Bool-cases (str_eq k j)) [
  | inl s ↦ lookup-insert k j e (put_all own vars) ∙ rw s refl
  | inr s ↦ lookup-insert k j e (put_all own vars) ∙ rw s (lookup-put_all own vars j)
]

insert-IsMap : (k : String) (e : EnvVarEntry) (vars : Vars) → IsMap vars → IsMap (insert k e vars)
unfolding IsMap
insert-IsMap k e [] h = (refl, tt)
insert-IsMap k e ((j, f) ∷ vars) (n, h) = elim (Bool-cases (str_eq j k)) [
  | inl s ↦ rw s (n, h)
  | inr s ↦ rw s (
    ground (arith, lookup-insert k j e vars, eq_iff j k, eq_iff k j, n, s),
    insert-IsMap k e vars h,
  )
]

pub put_all-IsMap : (own vars : Vars) → IsMap vars → IsMap (put_all own vars)
put_all-IsMap [] vars h = h
put_all-IsMap ((k, e) ∷ own) vars h = insert-IsMap k e (put_all own vars) (put_all-IsMap own vars h)

pub empty-IsMap : IsMap []
unfolding IsMap
empty-IsMap = tt

pub same_again :
    (o : Option EnvVarEntry)
    → elim o as (λ x. Option EnvVarEntry) [ none ↦ none | some e ↦ some e ] ≡ o
same_again none = refl
same_again (some e) = refl

abbrev pub merge_plain : Vars → Vars → Vars
merge_plain own source = put_all own (put_all source [])

abbrev pub plain : MergeApi
plain = record {
  merge = merge_plain;
  merge-IsMap =
      λ own source. put_all-IsMap own (put_all source []) (put_all-IsMap source [] empty-IsMap);
  kept = λ own source k e h z. lookup-put_all own (put_all source []) k ∙ rw h refl;
  added = λ own source k h.
      lookup-put_all own (put_all source []) k
      ∙ rw (h, lookup-put_all source [] k) (same_again (lookup k source));
}
