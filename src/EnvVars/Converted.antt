-- ===== src/EnvVars/Converted.antt =====
-- The converter puts the repository last (operator/executor/envvarconverter.go).
use k8up.Prelude.{
  String, Bool, false, not, ◌≡◌, refl, sym, ap, ◌∙◌, none, some, List, [], ◌∷◌, ◌++◌, map, str_eq,
  lookup, eq_iff, arith, Bool-cases, inl, inr, filterb, All,
}
use k8up.EnvVars.{
  Vars, EnvVar, EnvVarEntry, Converting, env_var, convert, convert_all, restic_repository_env,
  IsMap,
}

abbrev pub is_other : String × EnvVarEntry → Bool
is_other (k, e) = not (str_eq k restic_repository_env)

-- The variables but for the repository, in the order of the map.
abbrev pub others : Vars → List EnvVar
others vars = map env_var (filterb is_other vars)

append_assoc : (xs ys zs : List EnvVar) → (xs ++ ys) ++ zs ≡ xs ++ (ys ++ zs)
append_assoc [] ys zs = refl
append_assoc (x ∷ xs) ys zs = rw (append_assoc xs ys zs)

append_nil : (xs : List EnvVar) → xs ++ [] ≡ xs
append_nil [] = refl
append_nil (x ∷ xs) = rw (append_nil xs)

convert_all-none :
    (vs : Vars) (c : Converting)
    → lookup restic_repository_env vs ≡ none
    → convert_all c vs ≡ record { vars = c.vars ++ others vs; repository = c.repository }
unfolding convert_all
convert_all-none [] c h = rw (append_nil c.vars)
convert_all-none ((k, e) ∷ vs) c h = elim (Bool-cases (str_eq k restic_repository_env)) [
  | inl s ↦ absurd (ground (arith, s, h))
  | inr s ↦
      let added : Converting = record {
        vars = c.vars ++ env_var (k, e) ∷ [];
        repository = c.repository;
      } in
      rw (
        s,
        convert_all-none vs added (ground (arith, s, h)),
        append_assoc c.vars (env_var (k, e) ∷ []) (others vs),
      )
]

convert_all-some :
    (vs : Vars) (c : Converting) (e : EnvVarEntry)
    → IsMap vs
    → lookup restic_repository_env vs ≡ some e
    → convert_all c vs ≡ record {
      vars = c.vars ++ others vs;
      repository = some (env_var (restic_repository_env, e));
    }
unfolding convert_all IsMap
convert_all-some [] c e m h = absurd (ground (arith, h))
convert_all-some ((k, f) ∷ vs) c e (n, m) h = elim (Bool-cases (str_eq k restic_repository_env)) [
  | inl s ↦
      let found : Converting = record { vars = c.vars; repository = some (env_var (k, f)) } in
      let p : k ≡ restic_repository_env = ground (arith, eq_iff k restic_repository_env, s) in
      let q : some f ≡ some e = ground (arith, s, h) in
      let r : f ≡ e = cc in
      let n' : lookup restic_repository_env vs ≡ none = ap (λ j. lookup j vs) (sym p) ∙ n in
      rw (s, convert_all-none vs found n', p, r)
  | inr s ↦
      let added : Converting = record {
        vars = c.vars ++ env_var (k, f) ∷ [];
        repository = c.repository;
      } in
      rw (
        s,
        convert_all-some vs added e m (ground (arith, s, h)),
        append_assoc c.vars (env_var (k, f) ∷ []) (others vs),
      )
]

-- The repository is the last variable that Convert answers, and no other has its name.
pub convert-last :
    (vs : Vars) (e : EnvVarEntry)
    → IsMap vs
    → lookup restic_repository_env vs ≡ some e
    → convert vs ≡ others vs ++ env_var (restic_repository_env, e) ∷ []
unfolding convert
convert-last vs e m h = rw (convert_all-some vs (record { vars = []; repository = none }) e m h)

pub others-All : (vs : Vars) → All (λ v. str_eq v.name restic_repository_env ≡ false) (others vs)
others-All [] = tt
others-All ((k, e) ∷ vs) = elim (Bool-cases (str_eq k restic_repository_env)) [
  | inl s ↦ rw s (others-All vs)
  | inr s ↦ rw s (s, others-All vs)
]
