-- ===== src/Schedules/Random.antt =====
-- The texts that randomizeSchedule makes, against the five fields of a cron schedule.
use text.Mathlib.TextLemmas.{append_assoc}
use k8up.Prelude.{
  ℕ, ◌+◌, ◌%◌, ◌≤◌, String, ◌≡◌, refl, sym, ◌∙◌, Bool, true, false, not, anyb, Option, none, some,
  [], ◌∷◌, concat, itoa, is_some, arith, if◌then◌else◌, str_eq,
}
use k8up.Schedules.{
  randomize_schedule, remainder_from_modulo, hourly_random, daily_random, weekly_random,
  monthly_random, yearly_random, annually_random,
}

-- Minute, hour, day of the month, month and day of the week, where `none` is a star.
pub record CronFields : Type 0 where
  pub minute : ℕ
  pub hour : Option ℕ
  pub day_of_month : Option ℕ
  pub month : Option ℕ
  pub weekday : Option ℕ

abbrev pub field : Option ℕ → String
field none = "*"
field (some n) = itoa n

abbrev pub cron_text : CronFields → String
cron_text f = concat (
    itoa f.minute
    ∷ " "
    ∷ field f.hour
    ∷ " "
    ∷ field f.day_of_month
    ∷ " "
    ∷ field f.month
    ∷ " "
    ∷ field f.weekday
    ∷ [])

abbrev pub Within : ℕ → ℕ → Option ℕ → Type 0
Within low high none = Unit
Within low high (some n) = (low ≤ n) × (n ≤ high)

-- Every month has a day up to 27.
pub record IsInRange (f : CronFields) : Type 0 where
  pub minute_range : f.minute ≤ 59
  pub hour_range : Within 0 23 f.hour
  pub day_range : Within 1 27 f.day_of_month
  pub month_range : Within 1 12 f.month
  pub weekday_range : Within 0 6 f.weekday

pub data Period : Type 0 where
  hourly daily weekly monthly yearly : Period

abbrev pub definition_of : Period → String
definition_of hourly = hourly_random
definition_of daily = daily_random
definition_of weekly = weekly_random
definition_of monthly = monthly_random
definition_of yearly = yearly_random

-- Whether hour, day of the month, month and day of the week are fixed.
abbrev pub fixed_fields : Period → Bool × Bool × Bool × Bool
fixed_fields hourly = (false, false, false, false)
fixed_fields daily = (true, false, false, false)
fixed_fields weekly = (true, false, false, true)
fixed_fields monthly = (true, true, false, false)
fixed_fields yearly = (true, true, true, false)

abbrev pub fixed : CronFields → Bool × Bool × Bool × Bool
fixed f = (is_some f.hour, is_some f.day_of_month, is_some f.month, is_some f.weekday)

abbrev fields_for : ℕ → Period → CronFields
fields_for sum p =
    let (with_hour, with_day, with_month, with_weekday) = fixed_fields p in
    record {
      minute = remainder_from_modulo sum 60 0;
      hour = if with_hour then some (remainder_from_modulo sum 24 0) else none;
      day_of_month = if with_day then some (remainder_from_modulo sum 27 1) else none;
      month = if with_month then some (remainder_from_modulo sum 12 1) else none;
      weekday = if with_weekday then some (remainder_from_modulo sum 6 0) else none;
    }

Within-if :
    (here : Bool) (low high n : ℕ)
    → low ≤ n
    → n ≤ high
    → Within low high (if here then some n else none)
Within-if true low high n h k = (h, k)
Within-if false low high n h k = tt

fields_for-IsInRange : (sum : ℕ) (p : Period) → IsInRange (fields_for sum p)
unfolding remainder_from_modulo
fields_for-IsInRange sum p =
    let (with_hour, with_day, with_month, with_weekday) = fixed_fields p in
    record {
      minute_range = omega arith;
      hour_range = Within-if with_hour 0 23 (0 + sum % 24) (omega arith) (omega arith);
      day_range = Within-if with_day 1 27 (1 + sum % 27) (omega arith) (omega arith);
      month_range = Within-if with_month 1 12 (1 + sum % 12) (omega arith) (omega arith);
      weekday_range = Within-if with_weekday 0 6 (0 + sum % 6) (omega arith) (omega arith);
    }

two_stars : (t : String) → concat (" " ∷ "*" ∷ " " ∷ "*" ∷ " " ∷ t ∷ []) ≡ concat (" * * " ∷ t ∷ [])
two_stars t =
    sym (append_assoc " " "*" (concat (" " ∷ "*" ∷ " " ∷ t ∷ [])))
    ∙ sym (append_assoc " *" " " (concat ("*" ∷ " " ∷ t ∷ [])))
    ∙ sym (append_assoc " * " "*" (concat (" " ∷ t ∷ [])))
    ∙ sym (append_assoc " * *" " " (concat (t ∷ [])))

-- Whatever the checksum of the seed is, randomizeSchedule turns each of the hourly, daily, weekly,
-- monthly and yearly random definitions into a cron schedule without error: its fixed fields are those
-- of the period and the others are stars, every field is in cron's range, and the day of the month is
-- at most 27.
pub randomize_schedule_lem :
    (checksum : String → ℕ) (seed : String) (p : Period)
    → (f : CronFields) × IsInRange f
      × (fixed f ≡ fixed_fields p)
      × (randomize_schedule checksum seed (definition_of p) ≡ (cron_text f, false))
unfolding randomize_schedule remainder_from_modulo
randomize_schedule_lem checksum seed hourly =
    (fields_for (checksum seed) hourly, fields_for-IsInRange (checksum seed) hourly, refl, refl)
randomize_schedule_lem checksum seed daily =
    (fields_for (checksum seed) daily, fields_for-IsInRange (checksum seed) daily, refl, refl)
randomize_schedule_lem checksum seed weekly = (
  fields_for (checksum seed) weekly,
  fields_for-IsInRange (checksum seed) weekly,
  refl,
  rw (two_stars (itoa (remainder_from_modulo (checksum seed) 6 0))) refl,
)
randomize_schedule_lem checksum seed monthly =
    (fields_for (checksum seed) monthly, fields_for-IsInRange (checksum seed) monthly, refl, refl)
randomize_schedule_lem checksum seed yearly =
    (fields_for (checksum seed) yearly, fields_for-IsInRange (checksum seed) yearly, refl, refl)

abbrev pub is_period : String → Bool
is_period s =
    anyb (str_eq s)
      (hourly_random ∷ daily_random ∷ weekly_random ∷ monthly_random ∷ yearly_random ∷ [])

-- randomizeSchedule gives back every definition but those five as it is, with an error unless it is
-- "@annually-random".
pub randomize_schedule_unchanged :
    (checksum : String → ℕ) (seed original : String)
    → is_period original ≡ false
    → randomize_schedule checksum seed original ≡ (original, not (str_eq original annually_random))
unfolding randomize_schedule
randomize_schedule_unchanged checksum seed original h = ground arith
