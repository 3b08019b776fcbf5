-- ===== src/Volumes/Mounts.antt =====
-- The mounts of a pod have no double (operator/utils/utils.go).
use k8up.Prelude.{
  String, ◌≡◌, refl, Bool, true, false, ◌||◌, Option, none, some, List, [], ◌∷◌, ◌++◌, anyb, eq_iff,
  arith, Bool-cases, inl, inr,
}
use k8up.Volumes.{
  VolumeMount, same_mount, add_mounts, add_all_mounts, base_mounts, attach_empty_dir_volume_mounts,
}

-- No two mounts of the list have the same name and path.
pub IsDistinct : List VolumeMount → Type 0
IsDistinct [] = Unit
IsDistinct (m ∷ ms) = (anyb (same_mount m) ms ≡ false) × IsDistinct ms

same_sym : (m n : VolumeMount) → same_mount m n ≡ same_mount n m
same_sym m n = ground (
  arith,
  eq_iff m.name n.name,
  eq_iff n.name m.name,
  eq_iff m.mount_path n.mount_path,
  eq_iff n.mount_path m.mount_path,
)

anyb-append :
    (p : VolumeMount → Bool) (ms ns : List VolumeMount)
    → anyb p (ms ++ ns) ≡ (anyb p ms || anyb p ns)
anyb-append p [] ns = refl
anyb-append p (m ∷ ms) ns = ground (arith, anyb-append p ms ns)

appended-IsDistinct :
    (ms : List VolumeMount) (v : VolumeMount)
    → anyb (same_mount v) ms ≡ false
    → IsDistinct ms
    → IsDistinct (ms ++ v ∷ [])
unfolding IsDistinct
appended-IsDistinct [] v h k = (refl, tt)
appended-IsDistinct (m ∷ ms) v h (f, k) = (
  ground (arith, h, f, anyb-append (same_mount m) ms (v ∷ []), same_sym m v),
  appended-IsDistinct ms v (ground (arith, h)) k,
)

add_mounts-IsDistinct : (ms vs : List VolumeMount) → IsDistinct ms → IsDistinct (add_mounts ms vs)
unfolding add_mounts
add_mounts-IsDistinct ms [] h = h
add_mounts-IsDistinct ms (v ∷ vs) h = elim (Bool-cases (anyb (same_mount v) ms)) [
  | inl e ↦ rw e (add_mounts-IsDistinct ms vs h)
  | inr e ↦ rw e (add_mounts-IsDistinct (ms ++ v ∷ []) vs (appended-IsDistinct ms v e h))
]

add_all_mounts-IsDistinct :
    (ms : List VolumeMount) (vms : List (Option (List VolumeMount)))
    → IsDistinct ms
    → IsDistinct (add_all_mounts ms vms)
unfolding add_all_mounts
add_all_mounts-IsDistinct ms [] h = h
add_all_mounts-IsDistinct ms (none ∷ vms) h = add_all_mounts-IsDistinct ms vms h
add_all_mounts-IsDistinct ms (some vs ∷ vms) h =
    add_all_mounts-IsDistinct (add_mounts ms vs) vms (add_mounts-IsDistinct ms vs h)

-- A mount that is the same as one that is there may stand for it.
same_trans :
    (k v x : VolumeMount) → same_mount v x ≡ true → same_mount k v ≡ true → same_mount k x ≡ true
same_trans k v x h j = ground (
  arith,
  eq_iff k.name v.name,
  eq_iff v.name x.name,
  eq_iff k.name x.name,
  eq_iff k.mount_path v.mount_path,
  eq_iff v.mount_path x.mount_path,
  eq_iff k.mount_path x.mount_path,
)

stands_for :
    (k v : VolumeMount) (ms : List VolumeMount)
    → anyb (same_mount v) ms ≡ true
    → same_mount k v ≡ true
    → anyb (same_mount k) ms ≡ true
stands_for k v [] h j = cc
stands_for k v (x ∷ ms) h j = ground (arith, stands_for k v ms, same_trans k v x)

anyb-add_mounts :
    (k : VolumeMount) (ms vs : List VolumeMount)
    → anyb (same_mount k) (add_mounts ms vs) ≡ (anyb (same_mount k) ms || anyb (same_mount k) vs)
unfolding add_mounts
anyb-add_mounts k ms [] = ground arith
anyb-add_mounts k ms (v ∷ vs) = ground (
  arith,
  anyb-add_mounts k ms vs,
  anyb-add_mounts k (ms ++ v ∷ []) vs,
  anyb-append (same_mount k) ms (v ∷ []),
  stands_for k v ms,
)

-- The mount is in one of the lists that are given.
abbrev pub is_asked : VolumeMount → List (Option (List VolumeMount)) → Bool
is_asked k [] = false
is_asked k (none ∷ vms) = is_asked k vms
is_asked k (some vs ∷ vms) = anyb (same_mount k) vs || is_asked k vms

anyb-add_all_mounts :
    (k : VolumeMount) (ms : List VolumeMount) (vms : List (Option (List VolumeMount)))
    → anyb (same_mount k) (add_all_mounts ms vms) ≡ (anyb (same_mount k) ms || is_asked k vms)
unfolding add_all_mounts
anyb-add_all_mounts k ms [] = ground arith
anyb-add_all_mounts k ms (none ∷ vms) = anyb-add_all_mounts k ms vms
anyb-add_all_mounts k ms (some vs ∷ vms) =
    ground (arith, anyb-add_all_mounts k (add_mounts ms vs) vms, anyb-add_mounts k ms vs)

base-IsDistinct : (dir : String) → IsDistinct (base_mounts dir)
unfolding IsDistinct
base-IsDistinct dir = (refl, (refl, (refl, tt)))

-- The mounts of a pod have no two with the same name and path, and they are, but for the order and
-- for doubles, the three of k8up and all that are asked for.
pub attach_empty_dir_volume_mounts-IsDistinct :
    (dir : String) (vms : List (Option (List VolumeMount))) (k : VolumeMount)
    → IsDistinct (attach_empty_dir_volume_mounts dir vms)
      × (anyb (same_mount k) (attach_empty_dir_volume_mounts dir vms)
          ≡ (anyb (same_mount k) (base_mounts dir) || is_asked k vms))
unfolding attach_empty_dir_volume_mounts
attach_empty_dir_volume_mounts-IsDistinct dir vms k = (
  add_all_mounts-IsDistinct (base_mounts dir) vms (base-IsDistinct dir),
  anyb-add_all_mounts k (base_mounts dir) vms,
)
