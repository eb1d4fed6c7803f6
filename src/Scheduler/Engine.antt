-- ===== src/Scheduler/Engine.antt =====
-- RuntimeScheduler of src/acabot/runtime/scheduler/scheduler.py: its state and the scheduling
-- helpers.
--
-- No method but the worker's waits suspends: the store's lock is never held across a suspension
-- and sqlite3 is called synchronously. So a method is one state transition. What `time.time()`
-- returns is an argument at each place where it is called.
use aca_bot.Prelude.{
  ℕ, suc, ◌+◌, ◌<◌, String, Bool, true, false, not, ◌&&◌, Option, none, some, List, [], map, str_eq,
  if◌then◌else◌, leb, ◌==◌, Dict, place,
}
use aca_bot.Errors.{Result, ok, err, value_error, type_error}
use aca_bot.Scheduler.Contracts.{
  Schedule, cron, interval, one_shot, MisfirePolicy, Metadata, ScheduledTaskInfo,
}
use aca_bot.Scheduler.Store.{Table}

-- The package croniter: what the scheduler calls of it, and that `get_next` lies after its start. A
-- valid expression is taken to have a next time: the error of one that never comes is left out.
pub record Croniter : Type 0 where
  pub is_valid : String → Bool
  pub get_next : String → ℕ → ℕ
  pub get_next_after : (expr : String) (start : ℕ) → start < get_next expr start

-- A handle of a callback.
abbrev pub Callback : Type 0
Callback = ℕ

-- An entry object is known by its task and a serial number, which no later entry shares.
pub record HeapEntry : Type 0 where
  pub serial : ℕ
  pub fire_at : ℕ
  pub task_id : String
  pub cancelled : Bool

pub record TaskRecord : Type 0 where
  pub task_id : String
  pub owner : String
  pub schedule : Schedule
  pub callback : Option Callback
  pub persist : Bool
  pub misfire_policy : MisfirePolicy
  pub next_fire_at : Option ℕ
  pub created_at : ℕ
  pub updated_at : ℕ
  pub last_fired_at : Option ℕ
  pub enabled : Bool
  pub metadata : Metadata
  pub heap_entry : Option ℕ

-- A resolver may raise.
abbrev pub Resolver : Type 0
Resolver = ScheduledTaskInfo → Result (Option Callback)

pub record Scheduler : Type 0 where
  pub store : Option Table
  pub tasks : Dict TaskRecord
  pub heap : List HeapEntry
  pub next_serial : ℕ
  pub wake_event : Bool
  pub worker_task : Bool
  pub running_callbacks : List (String × Callback)
  pub callback_resolver : Option Resolver
  pub started : Bool
  pub stopping : Bool

-- `RuntimeScheduler.__init__`
abbrev pub init : Option Table → Scheduler
init store = record {
  store = store;
  tasks = [];
  heap = [];
  next_serial = 0;
  wake_event = false;
  worker_task = false;
  running_callbacks = [];
  callback_resolver = none;
  started = false;
  stopping = false;
}

unfoldable pub set_callback_resolver : Resolver → Scheduler → Scheduler
set_callback_resolver resolver s = record s { callback_resolver = some resolver }

-- `_HeapEntry` is ordered by `fire_at` alone. The heap is kept in its order; among equal times
-- heapq promises no order.
abbrev pub earlier : HeapEntry → HeapEntry → Bool
earlier a b = leb a.fire_at b.fire_at

unfoldable pub heappush : HeapEntry → List HeapEntry → List HeapEntry
unfolding place
heappush = place earlier

-- `entry.cancelled = True` on the entry object that the heap holds, if it still does.
unfoldable pub cancel_entry : String → Option ℕ → List HeapEntry → List HeapEntry
cancel_entry tid none heap = heap
cancel_entry tid (some n) heap =
    map (λ e. if e.serial == n && str_eq e.task_id tid then record e { cancelled = true } else e)
      heap

abbrev pub entry_of : Option TaskRecord → Option ℕ
entry_of none = none
entry_of (some r) = r.heap_entry

-- `_enqueue`: the serial number of the new entry, and the state that holds it.
unfoldable pub enqueue : String → ℕ → Scheduler → ℕ × Scheduler
unfolding heappush
enqueue tid fire_at s = (
  s.next_serial,
  record s {
    heap =
        heappush
          (record { serial = s.next_serial; fire_at = fire_at; task_id = tid; cancelled = false })
          s.heap;
    next_serial = suc s.next_serial;
  },
)

-- The write to the store that only persisted tasks make, and only where there is a store.
abbrev pub persisting : Bool → (Table → Table) → Option Table → Option Table
persisting persist write none = none
persisting persist write (some t) = some (if persist then write t else t)

module _ (croniter : Croniter) where
  open croniter use {is_valid, get_next}

  unfoldable pub validate_schedule : Schedule → Result (Unit {0})
  validate_schedule (cron expr) = if not (is_valid expr) then err value_error else ok tt
  validate_schedule (interval seconds) = if leb seconds 0 then err value_error else ok tt
  validate_schedule (one_shot fire_at) = if leb fire_at 0 then err value_error else ok tt

  unfoldable pub compute_initial_fire : Schedule → (now : ℕ) → ℕ
  compute_initial_fire (cron expr) now = get_next expr now
  compute_initial_fire (interval seconds) now = now + seconds
  compute_initial_fire (one_shot fire_at) now = fire_at

  unfoldable pub compute_next_fire : Schedule → (after : ℕ) → Option ℕ
  compute_next_fire (cron expr) after = some (get_next expr after)
  compute_next_fire (interval seconds) after = some (after + seconds)
  compute_next_fire (one_shot fire_at) after = none

  unfoldable pub compute_resumed_fire : Schedule → (now : ℕ) → Result ℕ
  compute_resumed_fire (cron expr) now = ok (get_next expr now)
  compute_resumed_fire (interval seconds) now = ok (now + seconds)
  compute_resumed_fire (one_shot fire_at) now =
      if leb fire_at now then err value_error else ok fire_at

  unfoldable pub advance_to_future : Schedule → (now : ℕ) → Result ℕ
  advance_to_future (cron expr) now = ok (get_next expr now)
  advance_to_future (interval seconds) now = ok (now + seconds)
  advance_to_future (one_shot fire_at) now = err type_error
