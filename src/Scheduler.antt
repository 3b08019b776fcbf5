-- ===== src/Scheduler.antt =====
-- The scheduler (operator/scheduler/scheduler.go): a cron table and, by key, references to its
-- entries. `CronApi` stands for github.com/robfig/cron/v3: AddFunc takes a spec that it can parse and
-- gives its entry an identifier that no entry has, Remove drops an entry, and the rest stays.
mod Keys
pub mod Links
pub mod Table
pub mod Failure
pub mod Agreement
mod Examples
use k8up.Prelude.{
  ℕ, ◌==◌, String, ◌≡◌, Bool, true, false, Option, none, some, List, [], if◌then◌else◌, is_some,
  lookup, insert, without,
}

-- `C` is the state of the table and `J` the type of its functions. AddFunc answers `none` for an error.
pub record CronApi (C J : Type 0) : Type 0 where
  pub parses : String → Bool
  pub add : C → String → J → Option ℕ × C
  pub remove : C → ℕ → C
  pub entry : C → ℕ → Option (String × J)
  pub add-parses : (c : C) (spec : String) (j : J) → is_some (add c spec j).0 ≡ parses spec
  pub entry-add :
      (c : C) (spec : String) (j : J) (id k : ℕ)
      → (add c spec j).0 ≡ some id
      → entry (add c spec j).1 k ≡ (if id == k then some (spec, j) else entry c k)
  pub entry-add_fresh :
      (c : C) (spec : String) (j : J) (id : ℕ) → (add c spec j).0 ≡ some id → entry c id ≡ none
  pub entry-add_failed :
      (c : C) (spec : String) (j : J) (k : ℕ)
      → (add c spec j).0 ≡ none
      → entry (add c spec j).1 k ≡ entry c k
  pub entry-remove :
      (c : C) (id k : ℕ) → entry (remove c id) k ≡ (if id == k then none else entry c k)

-- scheduleRef
pub record ScheduleRef (J : Type 0) : Type 0 where
  pub entry_id : ℕ
  pub schedule : String
  pub runnable : J

pub record Scheduler (C J : Type 0) : Type 0 where
  pub cron : C
  pub schedules : List (String × ScheduleRef J)

-- newScheduler, over a table just made by cron.New.
abbrev pub new_scheduler : {C J : Type 0} → C → Scheduler C J
new_scheduler c = record { cron = c; schedules = [] }

module _ {C J : Type 0} (api : CronApi C J) where
  -- cron.Remove of what is registered under the key, if anything is.
  pub remove_existing : Option (ScheduleRef J) → C → C
  remove_existing none c = c
  remove_existing (some ref) c = api.remove c ref.entry_id

  pub store : Option ℕ × C → String → String → J → Scheduler C J → Bool × Scheduler C J
  store (none, c) key schedule fn s = (false, record s { cron = c })
  store (some id, c) key schedule fn s = (
    true,
    record {
      cron = c;
      schedules =
          insert key (record { entry_id = id; schedule = schedule; runnable = fn }) s.schedules;
    },
  )

  -- `false` stands for the error "cannot set schedule".
  unfoldable pub set_schedule : String → String → J → Scheduler C J → Bool × Scheduler C J
  unfolding remove_existing store
  set_schedule key schedule fn s =
      let c = remove_existing (lookup key s.schedules) s.cron in
      store (api.add c schedule fn) key schedule fn s

  unfoldable pub remove_schedule : String → Scheduler C J → Scheduler C J
  unfolding remove_existing
  remove_schedule key s = record {
    cron = remove_existing (lookup key s.schedules) s.cron;
    schedules = without key s.schedules;
  }

  unfoldable pub has_schedule : String → Scheduler C J → Bool
  has_schedule key s = is_some (lookup key s.schedules)
