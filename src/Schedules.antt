-- ===== src/Schedules.antt =====
-- The random schedules (operator/schedulecontroller/randomizer.go, effectiveschedule.go, and
-- ScheduleDefinition of api/v1/schedule_types.go). `checksum` stands for SHA1 of the seed, read as a
-- number, and may be any function.
pub mod Random
pub mod Effective
mod Examples
use Prim.Native.String
use k8up.Prelude.{
  ℕ, ◌+◌, ◌%◌, String, Bool, true, false, not, ◌&&◌, ◌||◌, List, [], ◌∷◌, ◌++◌, concat, str_eq,
  starts_with, itoa, if◌then◌else◌,
}
use k8up.JobObject.{JobType, job_type_string, same_type}

-- strings.HasSuffix
abbrev pub ends_with : String → String → Bool
ends_with String.[] t = str_eq "" t
ends_with (String.◌∷◌ c s) t = str_eq (String.◌∷◌ c s) t || ends_with s t

unfoldable pub is_non_standard : String → Bool
is_non_standard s = starts_with s "@"

unfoldable pub is_random : String → Bool
unfolding is_non_standard
is_random s = is_non_standard s && ends_with s "-random"

abbrev pub hourly_random : String
hourly_random = "@hourly-random"

abbrev pub daily_random : String
daily_random = "@daily-random"

abbrev pub yearly_random : String
yearly_random = "@yearly-random"

abbrev pub annually_random : String
annually_random = "@annually-random"

abbrev pub monthly_random : String
monthly_random = "@monthly-random"

abbrev pub weekly_random : String
weekly_random = "@weekly-random"

-- The name and the namespace of a Schedule.
pub record Identity : Type 0 where
  pub namespace : String
  pub name : String

unfoldable pub create_seed : Identity → JobType → String
create_seed o t = concat (o.namespace ∷ "/" ∷ o.name ∷ "@" ∷ job_type_string t ∷ [])

unfoldable pub remainder_from_modulo : ℕ → ℕ → ℕ → ℕ
remainder_from_modulo dividend divisor offset = offset + dividend % divisor

-- The schedule, and whether there is an error. An empty case of a Go switch does not fall through.
unfoldable pub randomize_schedule : (String → ℕ) → String → String → String × Bool
unfolding remainder_from_modulo
randomize_schedule checksum seed original =
    let sum = checksum seed in
    let minute = itoa (remainder_from_modulo sum 60 0) in
    let hour = itoa (remainder_from_modulo sum 24 0) in
    let day_of_month = itoa (remainder_from_modulo sum 27 1) in
    let month = itoa (remainder_from_modulo sum 12 1) in
    let weekday = itoa (remainder_from_modulo sum 6 0) in
    if str_eq original hourly_random
    then (concat (minute ∷ " * * * *" ∷ []), false)
    else if str_eq original daily_random
    then (concat (minute ∷ " " ∷ hour ∷ " * * *" ∷ []), false)
    else if str_eq original monthly_random
    then (concat (minute ∷ " " ∷ hour ∷ " " ∷ day_of_month ∷ " * *" ∷ []), false)
    else if str_eq original annually_random
    then (original, false)
    else if str_eq original yearly_random
    then (concat (minute ∷ " " ∷ hour ∷ " " ∷ day_of_month ∷ " " ∷ month ∷ " *" ∷ []), false)
    else if str_eq original weekly_random
    then (concat (minute ∷ " " ∷ hour ∷ " * * " ∷ weekday ∷ []), false)
    else (original, true)

pub record EffectiveSchedule : Type 0 where
  pub job_type : JobType
  pub generated_schedule : String

unfoldable pub create_random_schedule : (String → ℕ) → Identity → JobType → String → String × Bool
create_random_schedule checksum o t original =
    randomize_schedule checksum (create_seed o t) original

-- The loop of setEffectiveSchedule: the new list, and whether a matching element was found.
abbrev pub update_effective :
    JobType → String → List EffectiveSchedule → List EffectiveSchedule × Bool
update_effective t schedule [] = ([], false)
update_effective t schedule (e ∷ es) =
    let (rest, found) = update_effective t schedule es in
    if same_type e.job_type t
    then (record e { generated_schedule = schedule } ∷ rest, true)
    else (e ∷ rest, found)

unfoldable pub set_effective_schedule :
    JobType → String → List EffectiveSchedule → List EffectiveSchedule
set_effective_schedule t schedule es =
    let (updated, found) = update_effective t schedule es in
    if found
    then updated
    else updated ++ record { job_type = t; generated_schedule = schedule } ∷ []

unfoldable pub cleanup_effective_schedules :
    JobType → String → List EffectiveSchedule → List EffectiveSchedule
unfolding is_random is_non_standard
cleanup_effective_schedules t new_schedule [] = []
cleanup_effective_schedules t new_schedule (e ∷ es) =
    let rest = cleanup_effective_schedules t new_schedule es in
    if not (same_type e.job_type t)
    then e ∷ rest
    else if is_random new_schedule
    then e ∷ rest
    else rest

unfoldable pub get_effective_schedule :
    (String → ℕ)
    → Identity
    → JobType
    → String
    → List EffectiveSchedule
    → String × List EffectiveSchedule
unfolding is_random is_non_standard set_effective_schedule
get_effective_schedule checksum o t original es =
    let (randomized, failed) = create_random_schedule checksum o t original in
    if not (is_non_standard original) || not (is_random original)
    then (original, es)
    else if failed
    then (original, es)
    else (randomized, set_effective_schedule t randomized es)
