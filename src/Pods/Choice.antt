-- ===== src/Pods/Choice.antt =====
-- ListPods against a description without the map of seen owners: the pods that ask for a backup, the
-- first of each owner.
use k8up.Prelude.{
  String, ◌≡◌, refl, ◌∙◌, Bool, true, false, not, ◌&&◌, Option, some, List, [], ◌∷◌, contains,
  lookup, map, filterb, All, str_eq, eq_iff, if◌then◌else◌, is_some, arith, Bool-cases,
  Option-cases, inl, inr,
}
use k8up.Pods.{
  Pod, BackupPod, PodLister, is_empty, visit, pods, is_target, owner_of, backup_pod, collect,
  list_pods, value_or, prepend,
}

-- A running target pod with a backup command.
abbrev pub asks : PodLister → Pod → Bool
asks l p =
    str_eq p.phase "Running"
    && is_target l p
    && is_some (lookup l.backup_command_annotation p.annotations)

abbrev pub same_owner : Pod → Pod → Bool
same_owner p q = str_eq (owner_of p) (owner_of q)

-- The first of each owner.
abbrev pub firsts : List Pod → List Pod
firsts [] = []
firsts (p ∷ ps) = p ∷ filterb (λ q. not (same_owner p q)) (firsts ps)

abbrev pub first_container : List String → String
first_container [] = ""
first_container (c ∷ cs) = c

abbrev pub backup_of : PodLister → Pod → BackupPod
backup_of l p =
    backup_pod l p (first_container p.containers)
      (value_or (lookup l.backup_command_annotation p.annotations) "")

abbrev pub has_container : Pod → Bool
has_container p = not (is_empty p.containers)

module _ {A : Type 0} where
  filterb_twice :
      (p q : A → Bool) (xs : List A) → filterb p (filterb q xs) ≡ filterb (λ x. q x && p x) xs
  filterb_twice p q [] = refl
  filterb_twice p q (x ∷ xs) = ground (arith, filterb_twice p q xs)

  filterb_ext : (p q : A → Bool) (xs : List A) → ((x : A) → p x ≡ q x) → filterb p xs ≡ filterb q xs
  filterb_ext p q [] h = refl
  filterb_ext p q (x ∷ xs) h = ground (arith, filterb_ext p q xs h, h x)

  filterb_all : (xs : List A) → filterb (λ x. true) xs ≡ xs
  filterb_all [] = refl
  filterb_all (x ∷ xs) = rw (filterb_all xs) refl

-- The owner has not been seen.
abbrev is_new : List String → Pod → Bool
is_new seen q = not (contains seen (owner_of q))

seen_first :
    (seen : List String) (p : Pod) (ps : List Pod)
    → contains seen (owner_of p) ≡ true
    → filterb (is_new seen) (filterb (λ q. not (same_owner p q)) ps) ≡ filterb (is_new seen) ps
seen_first seen p ps h =
    filterb_twice (is_new seen) (λ q. not (same_owner p q)) ps
    ∙ filterb_ext _ (is_new seen) ps (λ q. elim (Bool-cases (str_eq (owner_of p) (owner_of q))) [
      | inl e ↦
          let there : contains seen (owner_of q) ≡ true =
            rw ((eq_iff (owner_of p) (owner_of q)).0 e) at h in
          rw (e, there) refl
      | inr e ↦ rw e refl
    ])

unseen_first :
    (seen : List String) (p : Pod) (ps : List Pod)
    → filterb (is_new seen) (filterb (λ q. not (same_owner p q)) ps)
      ≡ filterb (is_new (owner_of p ∷ seen)) ps
unseen_first seen p ps =
    filterb_twice (is_new seen) (λ q. not (same_owner p q)) ps
    ∙ filterb_ext _ (is_new (owner_of p ∷ seen)) ps (λ q. ground arith)

visit_lem :
    (l : PodLister) (p : Pod) (cs : List String) (is_seen : Bool)
    (unseen seen : Option (List BackupPod))
    → not (is_empty cs) ≡ true
    → visit l p cs is_seen unseen seen ≡ (
        if asks l p && not is_seen
        then prepend
            (backup_pod l p
              (first_container cs)
              (value_or (lookup l.backup_command_annotation p.annotations) ""))
            unseen
        else seen)
visit_lem l p [] is_seen unseen seen h = absurd (cc (h))
visit_lem l p (c ∷ cs) is_seen unseen seen h =
    elim (Option-cases (lookup l.backup_command_annotation p.annotations)) [
      | inl e ↦ rw e (ground arith)
      | inr (command, e) ↦ rw e (ground arith)
    ]

collect_lem :
    (l : PodLister) (seen : List String) (ps : List Pod)
    → All (λ p. has_container p ≡ true) ps
    → collect l seen ps
      ≡ some (map (backup_of l) (filterb (is_new seen) (firsts (filterb (asks l) ps))))
unfolding collect
collect_lem l seen [] h = refl
collect_lem l seen (p ∷ ps) h =
    rw
      (
        visit_lem l p p.containers (contains seen (owner_of p)) (collect l (owner_of p ∷ seen) ps)
            (collect l seen ps) h.0,
        collect_lem l seen ps h.1,
        collect_lem l (owner_of p ∷ seen) ps h.1,
      )
      (elim (Bool-cases (asks l p)) [
        | inl wanted ↦ elim (Bool-cases (contains seen (owner_of p))) [
          | inl old ↦ rw (wanted, old, seen_first seen p (firsts (filterb (asks l) ps)) old) refl
          | inr new ↦ rw (wanted, new, unseen_first seen p (firsts (filterb (asks l) ps))) refl
        ]
        | inr ignored ↦ rw ignored refl
      ])

-- If no error was kept, the pre-backup is not skipped, List answers, and every pod has a container,
-- ListPods answers the backup pods of exactly the running target pods that have a backup command, in
-- the order of the list and only the first pod of each owner.
pub list_pods_lem :
    (l : PodLister) (ps : List Pod)
    → l.err ≡ false
    → l.skip_pre_backup ≡ false
    → All (λ p. has_container p ≡ true) ps
    → list_pods l (some ps) ≡ pods (map (backup_of l) (firsts (filterb (asks l) ps)))
unfolding list_pods
list_pods_lem l ps ok not_skipped h =
    rw (collect_lem l [] ps h, filterb_all (firsts (filterb (asks l) ps)))
      (ground (arith, ok, not_skipped))
