-- ===== src/Restores/Choice.antt =====
-- Which snapshot is restored (restic/cli/restore.go).
use k8up.Prelude.{
  String, ◌≡◌, refl, ap, Bool, true, false, Option, none, some, List, [], ◌∷◌, ◌++◌, All,
  starts_with, str_eq, if◌then◌else◌, Bool-cases, inl, inr, ◌⊎◌,
}
use k8up.Restores.{ListedSnapshot, last_matching, last_of, get_latest_snapshot, or_last}

-- The element is the last one of the list for which the test holds.
pub record IsLastOf {ℓ} {A : Type ℓ} (p : A → Bool) (xs : List A) (x : A) : Type ℓ where
  pub before : List A
  pub after : List A
  pub parts : xs ≡ before ++ x ∷ after
  pub passes : p x ≡ true
  pub rest : All (λ y. p y ≡ false) after

module _ (filter : String) where
  abbrev pub matches : ListedSnapshot → Bool
  matches s = starts_with s.time_text filter

  -- What it means that the snapshot is chosen: it is the last that matches, or none does.
  Chosen : Option ListedSnapshot → List ListedSnapshot → Type 0
  Chosen none ss = All (λ s. matches s ≡ false) ss
  Chosen (some t) ss = IsLastOf matches ss t

  choose_next : ListedSnapshot → Option ListedSnapshot → Option ListedSnapshot
  choose_next s (some t) = some t
  choose_next s none = if matches s then some s else none

  choose_next-Chosen :
      (s : ListedSnapshot) (ss : List ListedSnapshot) (r : Option ListedSnapshot)
      → Chosen r ss
      → Chosen (choose_next s r) (s ∷ ss)
  unfolding Chosen choose_next
  choose_next-Chosen s ss (some t) h = record {
    before = s ∷ h.before;
    after = h.after;
    parts = ap (λ xs. s ∷ xs) h.parts;
    passes = h.passes;
    rest = h.rest;
  }
  choose_next-Chosen s ss none h = elim (Bool-cases (matches s)) [
    | inl e ↦ rw e (record { before = []; after = ss; parts = refl; passes = e; rest = h })
    | inr e ↦ rw e (e, h)
  ]

  last_matching-Chosen : (ss : List ListedSnapshot) → Chosen (last_matching filter ss) ss
  unfolding Chosen last_matching choose_next
  last_matching-Chosen [] = tt
  last_matching-Chosen (s ∷ ss) = choose_next-Chosen s ss _ (last_matching-Chosen ss)

  last_exists :
      (s : ListedSnapshot) (ss : List ListedSnapshot)
      → (t : ListedSnapshot) × (last_of (s ∷ ss) ≡ some t)
  unfolding last_of
  last_exists s [] = (s, refl)
  last_exists s (t ∷ ss) = last_exists t ss

  from_choice :
      (s : ListedSnapshot) (ss : List ListedSnapshot) (r : Option ListedSnapshot)
      → Chosen r (s ∷ ss)
      → (t : ListedSnapshot) × (or_last r (last_of (s ∷ ss)) ≡ some t)
        × (IsLastOf matches (s ∷ ss) t
            ⊎ (All (λ u. matches u ≡ false) (s ∷ ss) × (last_of (s ∷ ss) ≡ some t)))
  unfolding Chosen
  from_choice s ss none h = let (t, e) = last_exists s ss in (t, e, inr (h, e))
  from_choice s ss (some t) h = (t, refl, inl h)

  -- Without an ID and with a time filter, a repository that has snapshots yields one: the last whose
  -- time begins with the filter, or the last of all if there is none.
  pub get_latest_snapshot-last :
      (s : ListedSnapshot) (ss : List ListedSnapshot)
      → str_eq filter "" ≡ false
      → (t : ListedSnapshot) × (get_latest_snapshot (s ∷ ss) "" filter ≡ some t)
        × (IsLastOf matches (s ∷ ss) t
            ⊎ (All (λ u. matches u ≡ false) (s ∷ ss) × (last_of (s ∷ ss) ≡ some t)))
  unfolding get_latest_snapshot
  get_latest_snapshot-last s ss h =
      rw h (from_choice s ss (last_matching filter (s ∷ ss)) (last_matching-Chosen (s ∷ ss)))
