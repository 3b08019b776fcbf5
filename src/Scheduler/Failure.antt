-- ===== src/Scheduler/Failure.antt =====
-- SetSchedule with a spec that the cron table cannot parse.
use k8up.Prelude.{String, ◌≡◌, refl, true, false, none, some, arith, lookup, Option-cases, inl, inr}
use k8up.Scheduler.{
  CronApi, ScheduleRef, Scheduler, set_schedule, has_schedule, remove_existing, store,
}

module _ {C J : Type 0} (api : CronApi C J) where
  refused :
      (c : C) (schedule : String) (fn : J)
      → api.parses schedule ≡ false
      → (api.add c schedule fn).0 ≡ none
  refused c schedule fn bad = elim (Option-cases (api.add c schedule fn).0) [
    | inl e ↦ e
    | inr (id, e) ↦ absurd (cc (bad, rw e at (api.add-parses c schedule fn)))
  ]

  -- SetSchedule with a spec that does not parse answers an error.
  pub set_schedule-refused :
      (key schedule : String) (fn : J) (s : Scheduler C J)
      → api.parses schedule ≡ false
      → (set_schedule api key schedule fn s).0 ≡ false
  unfolding set_schedule store
  set_schedule-refused key schedule fn s bad =
      rw (refused (remove_existing api (lookup key s.schedules) s.cron) schedule fn bad) refl

  -- If the key is registered and the new spec does not parse, SetSchedule answers an error, the key
  -- still counts as scheduled, and the entry that its reference leads to has left the cron table.
  pub set_schedule_unparsable :
      (key schedule : String) (fn : J) (ref : ScheduleRef J) (s : Scheduler C J)
      → lookup key s.schedules ≡ some ref
      → api.parses schedule ≡ false
      → ((set_schedule api key schedule fn s).0 ≡ false)
        × (has_schedule api key (set_schedule api key schedule fn s).1 ≡ true)
        × (api.entry (set_schedule api key schedule fn s).1.cron ref.entry_id ≡ none)
  unfolding set_schedule store has_schedule remove_existing
  set_schedule_unparsable key schedule fn ref s there bad =
      let c = api.remove s.cron ref.entry_id in
      let none_added = refused c schedule fn bad in
      rw (there, none_added)
        (
          refl,
          rw there,
          ground (
            arith,
            api.entry-add_failed c schedule fn ref.entry_id none_added,
            api.entry-remove s.cron ref.entry_id ref.entry_id,
          ),
        )
