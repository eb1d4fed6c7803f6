-- ===== src/Scheduler/Contracts.antt =====
-- src/acabot/runtime/scheduler/contracts.py: schedules, task snapshots, database rows and the
-- storage form of a schedule. Times and durations are whole ticks, so that a duration or a time
-- that is not positive is 0.
use aca_bot.Prelude.{
  ℕ, String, ◌≡◌, refl, Bool, Option, none, some, [], ◌∷◌, str_eq, if◌then◌else◌, Dict, lookup,
}
use aca_bot.Errors.{Result, ok, err, value_error, type_error, key_error, ◌>>=◌}

pub data MisfirePolicy : Type 0 where
  skip fire_once : MisfirePolicy

pub data Schedule : Type 0 where
  cron : String → Schedule
  interval : ℕ → Schedule
  one_shot : ℕ → Schedule

-- `dict[str, Any]` that the scheduler passes on and never reads.
abbrev pub Metadata : Type 0
Metadata = Dict String

-- A value of a `schedule_spec`.
pub data Field : Type 0 where
  text : String → Field
  number : ℕ → Field

pub record ScheduledTaskInfo : Type 0 where
  pub task_id : String
  pub owner : String
  pub schedule : Schedule
  pub persist : Bool
  pub misfire_policy : MisfirePolicy
  pub next_fire_at : Option ℕ
  pub created_at : ℕ
  pub updated_at : ℕ
  pub last_fired_at : Option ℕ
  pub enabled : Bool
  pub metadata : Metadata

pub record ScheduledTaskRow : Type 0 where
  pub task_id : String
  pub owner : String
  pub schedule_type : String
  pub schedule_spec : Dict Field
  pub misfire_policy : MisfirePolicy
  pub next_fire_at : Option ℕ
  pub enabled : Bool
  pub created_at : ℕ
  pub updated_at : ℕ
  pub last_fired_at : Option ℕ
  pub metadata : Metadata

unfoldable pub schedule_to_type_and_spec : Schedule → String × Dict Field
schedule_to_type_and_spec (cron expr) = ("cron", ("cron_expr", text expr) ∷ [])
schedule_to_type_and_spec (interval seconds) =
    ("interval", ("interval_seconds", number seconds) ∷ [])
schedule_to_type_and_spec (one_shot fire_at) = ("one_shot", ("fire_at", number fire_at) ∷ [])

-- `spec[key]` where the schedule wants a text, or a number. Python would carry a value of the
-- other kind on to its first use; here it is an error at once.
as_text : Option Field → Result String
as_text none = err key_error
as_text (some (text s)) = ok s
as_text (some (number n)) = err type_error

as_number : Option Field → Result ℕ
as_number none = err key_error
as_number (some (text s)) = err type_error
as_number (some (number n)) = ok n

unfoldable pub spec_to_schedule : String → Dict Field → Result Schedule
unfolding as_text as_number
spec_to_schedule schedule_type spec =
    if str_eq schedule_type "cron"
    then (do expr ← as_text (lookup "cron_expr" spec); ok (cron expr))
    else if str_eq schedule_type "interval"
    then (do seconds ← as_number (lookup "interval_seconds" spec); ok (interval seconds))
    else if str_eq schedule_type "one_shot"
    then (do fire_at ← as_number (lookup "fire_at" spec); ok (one_shot fire_at))
    else err value_error

-- A schedule that was written to the database is read back unchanged.
pub spec_to_schedule-schedule_to_type_and_spec :
    (s : Schedule)
    → spec_to_schedule (schedule_to_type_and_spec s).0 (schedule_to_type_and_spec s).1 ≡ ok s
unfolding spec_to_schedule schedule_to_type_and_spec lookup
spec_to_schedule-schedule_to_type_and_spec (cron expr) = refl
spec_to_schedule-schedule_to_type_and_spec (interval seconds) = refl
spec_to_schedule-schedule_to_type_and_spec (one_shot fire_at) = refl
