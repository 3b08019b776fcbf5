-- ===== src/Scheduler/Links.antt =====
-- The references of the scheduler and the entries of the cron table belong together.
use k8up.Prelude.{
  ℕ, ◌==◌, String, ◌≡◌, ◌≢◌, refl, sym, ◌∙◌, ap, true, false, none, some, arith, lookup, insert,
  lookup-insert, lookup-without, eq_iff, eq_refl, str_eq, Bool-cases, Option-cases, inl, inr,
}
use mathlib.Core.Logic.{◌⊎◌}
use k8up.Scheduler.{
  CronApi, ScheduleRef, Scheduler, new_scheduler, set_schedule, remove_schedule, remove_existing,
  store,
}
use k8up.Scheduler.Keys.{other_key, different_key, lookup-without-some}

module _ {C J : Type 0} (api : CronApi C J) where
  -- Every reference leads to its entry, two keys never share one, and every entry has a reference.
  pub record IsLinked (s : Scheduler C J) : Type 0 where
    pub live :
        (key : String) (ref : ScheduleRef J)
        → lookup key s.schedules ≡ some ref
        → api.entry s.cron ref.entry_id ≡ some (ref.schedule, ref.runnable)
    pub distinct :
        (key other : String) (ref ref' : ScheduleRef J)
        → lookup key s.schedules ≡ some ref
        → lookup other s.schedules ≡ some ref'
        → ref.entry_id ≡ ref'.entry_id
        → key ≡ other
    pub owned :
        (id : ℕ) (e : String × J)
        → api.entry s.cron id ≡ some e
        → (key : String) × (ref : ScheduleRef J) × (lookup key s.schedules ≡ some ref)
          × (ref.entry_id ≡ id)

  -- A new scheduler over a table without entries.
  pub new_scheduler-IsLinked :
      (c : C) → ((id : ℕ) → api.entry c id ≡ none) → IsLinked (new_scheduler c)
  new_scheduler-IsLinked c empty = record {
    live = λ key ref e. cc (e);
    distinct = λ key other ref ref' e e' same. cc (e);
    owned = λ id e h. absurd (cc (h, empty id));
  }

  module _ (key : String) (s : Scheduler C J) (v : IsLinked s) where
    removed_live :
        (k : String) (ref : ScheduleRef J)
        → str_eq key k ≡ false
        → lookup k s.schedules ≡ some ref
        → api.entry (remove_existing api (lookup key s.schedules) s.cron) ref.entry_id
          ≡ some (ref.schedule, ref.runnable)
    unfolding remove_existing
    removed_live k ref ne e = elim (Option-cases (lookup key s.schedules)) [
      | inl none_there ↦ rw none_there (v.live k ref e)
      | inr (old, there) ↦ rw there (
          ground (
            arith,
            api.entry-remove s.cron old.entry_id ref.entry_id,
            v.live k ref e,
            v.distinct key k old ref there e,
            eq_iff key k,
          ))
    ]

    removed_owned :
        (id : ℕ) (e : String × J)
        → api.entry (remove_existing api (lookup key s.schedules) s.cron) id ≡ some e
        → (k : String) × (ref : ScheduleRef J) × (lookup k s.schedules ≡ some ref)
          × (ref.entry_id ≡ id)
          × (str_eq key k ≡ false)
    unfolding remove_existing
    removed_owned id e h = elim (Option-cases (lookup key s.schedules)) [
      | inl none_there ↦
          let (k, ref, there, same) = v.owned id e (rw none_there at h) in
          (k, ref, there, same, other_key key k s.schedules none_there there)
      | inr (old, old_there) ↦
          let kept : api.entry (api.remove s.cron old.entry_id) id ≡ some e = rw old_there at h in
          let (k, ref, there, same) =
            v.owned id e (ground (arith, api.entry-remove s.cron old.entry_id id)) in
          (
            k,
            ref,
            there,
            same,
            ground (
              arith,
              api.entry-remove s.cron old.entry_id id,
              different_key key k s.schedules old_there there,
            ),
          )
    ]

  -- RemoveSchedule keeps the references and the entries together: every reference leads to its
  -- entry, two keys never share an entry, and every entry has a reference.
  pub remove_schedule-IsLinked :
      (key : String) (s : Scheduler C J) → IsLinked s → IsLinked (remove_schedule api key s)
  unfolding remove_schedule
  remove_schedule-IsLinked key s v = record {
    live = λ k ref e.
        let kept = lookup-without-some key k s.schedules e in
        removed_live key s v k ref kept.0 kept.1;
    distinct = λ k j ref ref' e e' same.
        v.distinct k j ref ref' (lookup-without-some key k s.schedules e).1
          (lookup-without-some key j s.schedules e').1 same;
    owned = λ id e h.
        let (k, ref, there, same, ne) = removed_owned key s v id e h in
        (k, ref, rw (lookup-without key k s.schedules, ne) there, same);
  }

  store_stored :
      (id : ℕ) (c : C) (key schedule : String) (fn : J) (s : Scheduler C J)
      → store api (some id, c) key schedule fn s ≡ (
        true,
        record {
          cron = c;
          schedules =
              insert key (record { entry_id = id; schedule = schedule; runnable = fn }) s.schedules;
        },
      )
  unfolding store
  store_stored id c key schedule fn s = refl

  module _ (key schedule : String) (fn : J) (s : Scheduler C J) (v : IsLinked s) where
    cleared : C
    cleared = remove_existing api (lookup key s.schedules) s.cron

    module _ (id : ℕ) (added : (api.add cleared schedule fn).0 ≡ some id) where
      new_ref : ScheduleRef J
      new_ref = record { entry_id = id; schedule = schedule; runnable = fn }

      after : Scheduler C J
      after = record {
        cron = (api.add cleared schedule fn).1;
        schedules = insert key new_ref s.schedules;
      }

      -- No key but the new one has the new entry.
      not_new :
          (k : String) (ref : ScheduleRef J)
          → str_eq key k ≡ false
          → lookup k s.schedules ≡ some ref
          → ref.entry_id ≢ id
      unfolding cleared
      not_new k ref ne e same = cc (
        sym (removed_live key s v k ref ne e),
        rw (← same) at (api.entry-add_fresh cleared schedule fn id added),
      )

      after_cases :
          (k : String) (ref : ScheduleRef J)
          → lookup k after.schedules ≡ some ref
          → ((key ≡ k) × (ref ≡ new_ref))
            ⊎ ((str_eq key k ≡ false) × (lookup k s.schedules ≡ some ref))
      unfolding after
      after_cases k ref e = elim (Bool-cases (str_eq key k)) [
        | inl here ↦
            inl ((eq_iff key k).0 here, cc (sym e, lookup-insert key k new_ref s.schedules, here))
        | inr there ↦ inr (there, rw (lookup-insert key k new_ref s.schedules, there) at e)
      ]

      after_live :
          (k : String) (ref : ScheduleRef J)
          → lookup k after.schedules ≡ some ref
          → api.entry after.cron ref.entry_id ≡ some (ref.schedule, ref.runnable)
      unfolding after new_ref cleared
      after_live k ref e = elim (after_cases k ref e) [
        | inl (here, new) ↦ rw new (ground (arith, api.entry-add cleared schedule fn id id added))
        | inr (ne, old) ↦ ground (
          arith,
          api.entry-add cleared schedule fn id ref.entry_id added,
          not_new k ref ne old,
          removed_live key s v k ref ne old,
        )
      ]

      after_distinct :
          (k j : String) (ref ref' : ScheduleRef J)
          → lookup k after.schedules ≡ some ref
          → lookup j after.schedules ≡ some ref'
          → ref.entry_id ≡ ref'.entry_id
          → k ≡ j
      unfolding new_ref
      after_distinct k j ref ref' e e' same = elim (after_cases k ref e) [
        | inl (here, new) ↦ elim (after_cases j ref' e') [
          | inl (here', new') ↦ sym here ∙ here'
          | inr (ne, old) ↦
              absurd (not_new j ref' ne old (sym same ∙ ap (λ (r : ScheduleRef J). r.entry_id) new))
        ]
        | inr (ne, old) ↦ elim (after_cases j ref' e') [
          | inl (here', new') ↦
              absurd (not_new k ref ne old (same ∙ ap (λ (r : ScheduleRef J). r.entry_id) new'))
          | inr (ne', old') ↦ v.distinct k j ref ref' old old' same
        ]
      ]

      after_owned :
          (i : ℕ) (e : String × J)
          → api.entry after.cron i ≡ some e
          → (k : String) × (ref : ScheduleRef J) × (lookup k after.schedules ≡ some ref)
            × (ref.entry_id ≡ i)
      unfolding after new_ref cleared
      after_owned i e h = elim (Bool-cases (id == i)) [
        | inl here ↦ (
          key,
          new_ref,
          rw (lookup-insert key key new_ref s.schedules, eq_refl key),
          ground arith,
        )
        | inr there ↦
            let old = rw (api.entry-add cleared schedule fn id i added, there) at h in
            let (k, ref, found, same, ne) = removed_owned key s v i e old in
            (k, ref, rw (lookup-insert key k new_ref s.schedules, ne) found, same)
      ]

      after-IsLinked : IsLinked after
      after-IsLinked = record { live = after_live; distinct = after_distinct; owned = after_owned }

  -- A SetSchedule that answers no error keeps the references and the entries together: every
  -- reference leads to its entry, two keys never share an entry, and every entry has a reference.
  pub set_schedule-IsLinked :
      (key schedule : String) (fn : J) (s : Scheduler C J)
      → IsLinked s
      → (set_schedule api key schedule fn s).0 ≡ true
      → IsLinked (set_schedule api key schedule fn s).1
  unfolding set_schedule store cleared after new_ref
  set_schedule-IsLinked key schedule fn s v ok =
      let c = cleared key schedule fn s v in
      elim (Option-cases (api.add c schedule fn).0) [
        | inl refused ↦ absurd (cc (rw refused at ok))
        | inr (id, added) ↦ rw added (after-IsLinked key schedule fn s v id added)
      ]
