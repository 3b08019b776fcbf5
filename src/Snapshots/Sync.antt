-- ===== src/Snapshots/Sync.antt =====
-- What SyncSnapshotList makes of the Snapshot objects of a repository.
use text.Mathlib.Text.{get?}
use k8up.Prelude.{
  String, ◌≡◌, refl, ◌∙◌, Bool, true, false, not, ◌&&◌, ◌||◌, some, List, [], ◌∷◌, ◌++◌, contains,
  filterb, anyb, All, str_eq, eq_iff, arith, is_some, Bool-cases, Option-cases, inl, inr, ◌⊎◌,
}
use k8up.Snapshots.{
  ResticSnapshot, Snapshot, Server, Synced, convert, filter_and_convert, filter_by_repo, ids, diff,
  create_and_delete, sync_snapshot_list,
}

abbrev pub is_missing : List String → Snapshot → Bool
is_missing known s = not (contains known s.id)

diff-unrefused :
    (ss : List Snapshot) (known : List String) (refuses : Snapshot → Bool)
    → ((s : Snapshot) → refuses s ≡ false)
    → diff ss known refuses ≡ (filterb (is_missing known) ss, false)
unfolding diff
diff-unrefused [] known refuses h = refl
diff-unrefused (s ∷ ss) known refuses h =
    rw (diff-unrefused ss known refuses h) (ground (arith, h s))

contains-filterb :
    (known : List String) (ss : List Snapshot) (id : String)
    → contains (ids (filterb (is_missing known) ss)) id
      ≡ (contains (ids ss) id && not (contains known id))
contains-filterb known [] id = refl
contains-filterb known (s ∷ ss) id = elim (Bool-cases (str_eq s.id id)) [
  | inl e ↦
      let same : s.id ≡ id = (eq_iff s.id id).0 e in
      ground (arith, contains-filterb known ss id, same)
  | inr e ↦ ground (arith, contains-filterb known ss id)
]

contains-append :
    (ss ts : List Snapshot) (id : String)
    → contains (ids (ss ++ ts)) id ≡ (contains (ids ss) id || contains (ids ts) id)
contains-append [] ts id = refl
contains-append (s ∷ ss) ts id = ground (arith, contains-append ss ts id)

-- The objects of the repository after the requests: the old ones less the deleted ones, and the
-- created ones.
abbrev pub after : List Snapshot → Synced → List Snapshot
after old sync = filterb (is_missing (ids sync.deleted)) old ++ sync.created

create_and_delete-agrees :
    (server : Server) (new old : List Snapshot) (id : String)
    → ((s : Snapshot) → server.refuses_create s ≡ false)
    → ((s : Snapshot) → server.refuses_delete s ≡ false)
    → ((create_and_delete server new old).failed ≡ false)
      × (contains (ids (after old (create_and_delete server new old))) id ≡ contains (ids new) id)
unfolding create_and_delete
create_and_delete-agrees server new old id c d =
    rw
      (
        diff-unrefused new (ids old) server.refuses_create c,
        diff-unrefused old (ids new) server.refuses_delete d,
      )
      (
        refl,
        rw
            (
              contains-append (filterb (is_missing (ids (filterb (is_missing (ids new)) old))) old)
                  (filterb (is_missing (ids old)) new) id,
              contains-filterb (ids (filterb (is_missing (ids new)) old)) old id,
              contains-filterb (ids new) old id,
              contains-filterb (ids old) new id,
            )
            (ground arith),
      )

-- The ID is long enough for its slice.
abbrev pub Sliceable : ResticSnapshot → Type 0
Sliceable r = is_some (get? r.id 0 8) ≡ true

abbrev pub lists : List ResticSnapshot → String → String → Bool
lists rs namespace id = anyb (λ r. str_eq r.hostname namespace && str_eq r.id id) rs

converted :
    (rs : List ResticSnapshot) (namespace repository : String)
    → All Sliceable rs
    → (new : List Snapshot) × (filter_and_convert rs namespace repository ≡ some new)
      × ((id : String) → contains (ids new) id ≡ lists rs namespace id)
unfolding filter_and_convert
converted [] namespace repository h = ([], refl, λ id. refl)
converted (r ∷ rs) namespace repository h =
    let (new, there, same) = converted rs namespace repository h.1 in
    elim (Bool-cases (str_eq r.hostname namespace)) [
      | inl mine ↦ elim (Option-cases (get? r.id 0 8)) [
        | inl short ↦ absurd (cc (rw short at (h.0)))
        | inr (name, e) ↦ (
          convert r name namespace repository ∷ new,
          rw (there, mine, e) refl,
          λ id. rw (mine, same id) refl,
        )
      ]
      | inr other ↦ (new, rw (there, other) refl, λ id. rw other (same id))
    ]

-- If the ID of every snapshot has at least the eight bytes that make its name, and the API server
-- answers List and refuses no request, SyncSnapshotList succeeds, and afterwards the repository has
-- a Snapshot object with an ID exactly if restic lists a snapshot with this ID for the namespace.
pub sync_snapshot_list-agrees :
    (server : Server) (listed : List Snapshot) (rs : List ResticSnapshot)
    (namespace repository id : String)
    → All Sliceable rs
    → ((s : Snapshot) → server.refuses_create s ≡ false)
    → ((s : Snapshot) → server.refuses_delete s ≡ false)
    → (sync : Synced) × (sync_snapshot_list server (some listed) rs namespace repository
        ≡ some sync)
      × (sync.failed ≡ false)
      × (contains (ids (after (filter_by_repo listed repository) sync)) id ≡ lists rs namespace id)
unfolding sync_snapshot_list
sync_snapshot_list-agrees server listed rs namespace repository id h c d =
    let (new, there, same) = converted rs namespace repository h in
    let old = filter_by_repo listed repository in
    let (ok, agrees) = create_and_delete-agrees server new old id c d in
    (create_and_delete server new old, rw there refl, ok, agrees ∙ same id)

diff-All :
    (ss : List Snapshot) (known : List String) (refuses : Snapshot → Bool)
    → All (λ (s : Snapshot). contains known s.id ≡ false) (diff ss known refuses).0
unfolding diff
diff-All [] known refuses = tt
diff-All (s ∷ ss) known refuses = elim (Bool-cases (contains known s.id)) [
  | inl e ↦ rw e (diff-All ss known refuses)
  | inr e ↦ elim (Bool-cases (refuses s)) [
    | inl r ↦ rw (e, r) (e, tt)
    | inr r ↦ rw (e, r) (e, diff-All ss known refuses)
  ]
]

diff_complete :
    (ss : List Snapshot) (known : List String) (refuses : Snapshot → Bool) (id : String)
    → (diff ss known refuses).1 ≡ false
    → contains (ids ss) id ≡ true
    → (contains known id || contains (ids (diff ss known refuses).0) id) ≡ true
unfolding diff
diff_complete [] known refuses id ok h = ground arith
diff_complete (s ∷ ss) known refuses id ok h =
    ground (arith, diff_complete ss known refuses id, eq_iff s.id id)

-- Whatever the API server refuses, a synchronisation deletes only Snapshot objects whose ID is not
-- among the new ones, and none at all unless every new ID has an object, old or created.
pub create_and_delete_order :
    (server : Server) (new old : List Snapshot) (id : String)
    → let sync = create_and_delete server new old in
      All (λ (s : Snapshot). contains (ids new) s.id ≡ false) sync.deleted
      × ((sync.deleted ≡ [])
          ⊎ ((contains (ids new) id
                && not (contains (ids old) id || contains (ids sync.created) id))
              ≡ false))
unfolding create_and_delete
create_and_delete_order server new old id =
    elim (Bool-cases (diff new (ids old) server.refuses_create).1) [
      | inl failed ↦ rw failed (tt, inl refl)
      | inr fine ↦ rw fine (
        diff-All old (ids new) server.refuses_delete,
        inr (ground (arith, diff_complete new (ids old) server.refuses_create id)),
      )
    ]
