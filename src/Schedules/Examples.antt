-- ===== src/Schedules/Examples.antt =====
-- Random schedules of one object, with a checksum that is a constant.
use k8up.Prelude.{ℕ, String, ◌≡◌, refl, true, false, List, [], ◌∷◌, itoa}
use k8up.JobObject.{check_type}
use k8up.Schedules.{
  Identity, EffectiveSchedule, randomize_schedule, remainder_from_modulo, is_random,
  is_non_standard,
}
use k8up.Schedules.Random.{
  CronFields, IsInRange, fixed, fixed_fields, definition_of, cron_text, weekly,
  randomize_schedule_lem,
}

abbrev checksum : String → ℕ
checksum s = 123452

abbrev nightly : Identity
nightly = record { namespace = "ns"; name = "nightly" }

weekly_run : randomize_schedule checksum "" "@weekly-random" ≡ ("32 20 * * 2", false)
unfolding randomize_schedule remainder_from_modulo itoa
weekly_run = refl

random_run :
    (is_random "@daily-random" ≡ true)
    × (is_random "daily-random" ≡ false)
    × (is_random "@daily" ≡ false)
unfolding is_random is_non_standard
random_run = (refl, refl, refl)

randomize_schedule_lem_example :
    (f : CronFields) × IsInRange f
    × (fixed f ≡ fixed_fields weekly)
    × (randomize_schedule checksum "ns/nightly@check" (definition_of weekly) ≡ (cron_text f, false))
randomize_schedule_lem_example = randomize_schedule_lem checksum "ns/nightly@check" weekly

abbrev old : List EffectiveSchedule
old = record { job_type = check_type; generated_schedule = "1 1 * * *" } ∷ []
