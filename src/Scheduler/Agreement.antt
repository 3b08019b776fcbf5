-- ===== src/Scheduler/Agreement.antt =====
-- What is scheduled under a key, and SetSchedule and RemoveSchedule as updates of that map.
use k8up.Prelude.{
  ℕ, String, ◌≡◌, refl, true, false, Option, none, some, arith, if◌then◌else◌, is_some, lookup,
  insert, lookup-insert, lookup-without, Option-cases, inl, inr, str_eq, ◌||◌,
}
use k8up.Scheduler.{
  CronApi, ScheduleRef, Scheduler, set_schedule, remove_schedule, has_schedule, remove_existing,
  store,
}
use k8up.Scheduler.Links.{IsLinked, set_schedule-IsLinked, remove_schedule-IsLinked}

module _ {C J : Type 0} (api : CronApi C J) where
  abbrev entry_of : Option (ScheduleRef J) → C → Option (String × J)
  entry_of none c = none
  entry_of (some ref) c = api.entry c ref.entry_id

  -- The entry of the cron table that runs for the key.
  unfoldable pub scheduled : String → Scheduler C J → Option (String × J)
  scheduled key s = entry_of (lookup key s.schedules) s.cron

  abbrev planned : Option (ScheduleRef J) → Option (String × J)
  planned none = none
  planned (some ref) = some (ref.schedule, ref.runnable)

  scheduled-planned :
      (key : String) (s : Scheduler C J)
      → IsLinked api s
      → scheduled key s ≡ planned (lookup key s.schedules)
  unfolding scheduled
  scheduled-planned key s v = elim (Option-cases (lookup key s.schedules)) [
    | inl e ↦ rw e
    | inr (ref, e) ↦ rw e (v.live key ref e)
  ]

  accepted :
      (c : C) (schedule : String) (fn : J)
      → api.parses schedule ≡ true
      → (id : ℕ) × ((api.add c schedule fn).0 ≡ some id)
  accepted c schedule fn good = elim (Option-cases (api.add c schedule fn).0) [
    | inl e ↦ absurd (cc (good, rw e at (api.add-parses c schedule fn)))
    | inr found ↦ found
  ]

  set_schedule_stored :
      (key schedule : String) (fn : J) (s : Scheduler C J)
      → api.parses schedule ≡ true
      → (id : ℕ) × ((set_schedule api key schedule fn s).0 ≡ true)
        × ((set_schedule api key schedule fn s).1.schedules
            ≡ insert key (record { entry_id = id; schedule = schedule; runnable = fn }) s.schedules)
  unfolding set_schedule store
  set_schedule_stored key schedule fn s good =
      let (id, added) =
        accepted (remove_existing api (lookup key s.schedules) s.cron) schedule fn good in
      (id, rw added refl, rw added refl)

  pub set_schedule-scheduled :
      (key k schedule : String) (fn : J) (s : Scheduler C J)
      → IsLinked api s
      → api.parses schedule ≡ true
      → ((set_schedule api key schedule fn s).0 ≡ true)
        × (scheduled k (set_schedule api key schedule fn s).1
            ≡ (if str_eq key k then some (schedule, fn) else scheduled k s))
  set_schedule-scheduled key k schedule fn s v good =
      let (id, ok, schedules) = set_schedule_stored key schedule fn s good in
      let v' = set_schedule-IsLinked api key schedule fn s v ok in
      (
        ok,
        rw
            (
              scheduled-planned k (set_schedule api key schedule fn s).1 v',
              scheduled-planned k s v,
              schedules,
              lookup-insert key k _ s.schedules,
            )
            (ground arith),
      )

  -- In a scheduler whose references and entries belong together, after RemoveSchedule nothing runs
  -- under the key, and every other key runs what it ran before.
  pub remove_schedule-scheduled :
      (key k : String) (s : Scheduler C J)
      → IsLinked api s
      → scheduled k (remove_schedule api key s) ≡ (if str_eq key k then none else scheduled k s)
  unfolding remove_schedule
  remove_schedule-scheduled key k s v =
      rw
        (
          scheduled-planned k (remove_schedule api key s) (remove_schedule-IsLinked api key s v),
          scheduled-planned k s v,
          lookup-without key k s.schedules,
        )
        (ground arith)

  -- In a scheduler whose references and entries belong together, HasSchedule answers whether an
  -- entry of the cron table runs under the key.
  pub has_schedule-scheduled :
      (key : String) (s : Scheduler C J)
      → IsLinked api s
      → has_schedule api key s ≡ is_some (scheduled key s)
  unfolding has_schedule
  has_schedule-scheduled key s v = elim (Option-cases (lookup key s.schedules)) [
    | inl e ↦ rw (scheduled-planned key s v, e) refl
    | inr (ref, e) ↦ rw (scheduled-planned key s v, e) refl
  ]

  pub has_schedule-set_schedule :
      (key k schedule : String) (fn : J) (s : Scheduler C J)
      → has_schedule api k (set_schedule api key schedule fn s).1 ≡ (
          if str_eq key k
          then (set_schedule api key schedule fn s).0 || has_schedule api k s
          else has_schedule api k s)
  unfolding has_schedule set_schedule store
  has_schedule-set_schedule key k schedule fn s =
      elim (Option-cases
        (api.add (remove_existing api (lookup key s.schedules) s.cron) schedule fn).0) [
          | inl e ↦ rw e (ground arith)
          | inr (id, e) ↦ rw e (rw (lookup-insert key k _ s.schedules) (ground arith))
        ]

  pub has_schedule-remove_schedule :
      (key k : String) (s : Scheduler C J)
      → has_schedule api k (remove_schedule api key s)
        ≡ (if str_eq key k then false else has_schedule api k s)
  unfolding has_schedule remove_schedule
  has_schedule-remove_schedule key k s = rw (lookup-without key k s.schedules) (ground arith)
