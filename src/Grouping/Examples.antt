-- ===== src/Grouping/Examples.antt =====
-- Claims on two nodes, and two relaxed jobs under one key.
use k8up.Prelude.{
  ℕ, String, ◌≡◌, refl, true, false, List, [], ◌∷◌, lookup, filterb, itoa, length, some, concat,
}
use k8up.Grouping.{BackupItem, group_items, group_classic, group_relaxed, unless_empty}
use k8up.Grouping.Classic.{
  has_key, volumes_of, pods_of, gather, node_and_args, first_of, group_items_classic,
}
use k8up.Grouping.Relaxed.{group_items_one_each}

abbrev claim : String → String → List String → BackupItem ℕ
claim volume node args = record {
  volume = volume;
  node = node;
  tolerations = [];
  target_pod = "pod";
  restic_args = args;
}

abbrev claims : List (BackupItem ℕ)
claims = claim "a" "node-1" [] ∷ claim "b" "node-2" [] ∷ claim "c" "node-1" [] ∷ []

classic_run :
    volumes_of "nightly" (lookup "node-1" (group_items "nightly" false claims)) ≡ "a" ∷ "c" ∷ []
unfolding group_items group_classic itoa
classic_run = refl

group_items_classic_example :
    let j = lookup "node-1" (group_items "nightly" false claims) in
    let mine = filterb (has_key "nightly" "node-1") claims in
    (volumes_of "nightly" j ≡ gather "nightly" (λ (i : BackupItem ℕ). i.volume ∷ []) mine)
    × (pods_of "nightly" j
        ≡ gather "nightly" (λ (i : BackupItem ℕ). unless_empty i.target_pod) mine)
    × (node_and_args "nightly" j ≡ first_of "nightly" mine)
group_items_classic_example = group_items_classic "nightly" "node-1" claims

-- The second item's key is its number, 1, and its argument is the digit that makes it 10.
abbrev eleven : List (BackupItem ℕ)
eleven =
    claim "v0" "" []
    ∷ claim "v1" "" ("0" ∷ [])
    ∷ claim "v2" "" []
    ∷ claim "v3" "" []
    ∷ claim "v4" "" []
    ∷ claim "v5" "" []
    ∷ claim "v6" "" []
    ∷ claim "v7" "" []
    ∷ claim "v8" "" []
    ∷ claim "v9" "" []
    ∷ claim "v10" "" []
    ∷ []

relaxed_run :
    (length (group_items "nightly" true eleven) ≡ 10)
    × (volumes_of "nightly" (lookup "10" (group_items "nightly" true eleven)) ≡ "v10" ∷ [])
unfolding group_items group_relaxed itoa
relaxed_run = (refl, refl)

group_items_one_each_example :
    (lookup (itoa 1) (group_items "nightly" true claims)
      ≡ some (record {
        job = record {
          name = concat ("backup" ∷ "-" ∷ "nightly" ∷ "-" ∷ itoa 1 ∷ []);
          node = "node-2";
          tolerations = [];
        };
        target_pods = unless_empty "pod";
        volumes = unless_empty "b";
        restic_args = [];
        skip_pre_backup = true;
      }))
    × (length (group_items "nightly" true claims) ≡ 3)
group_items_one_each_example =
    group_items_one_each "nightly" claims 1 (claim "b" "node-2" []) (refl, (refl, (refl, tt))) refl
