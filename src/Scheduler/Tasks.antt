-- ===== src/Scheduler/Tasks.antt =====
-- The public task management of RuntimeScheduler (src/acabot/runtime/scheduler/scheduler.py).
use aca_bot.Prelude.{
  ℕ, String, Bool, true, false, Option, none, some, List, [], ◌∷◌, map, str_eq, if◌then◌else◌, Dict,
  lookup, insert, remove, values,
}
use aca_bot.Errors.{Result, ok, err}
use aca_bot.Scheduler.Contracts.{
  Schedule, MisfirePolicy, Metadata, ScheduledTaskInfo, ScheduledTaskRow, schedule_to_type_and_spec,
}
use aca_bot.Scheduler.Store
use aca_bot.Scheduler.Store.{Table}
use aca_bot.Scheduler.Engine.{
  Croniter, Callback, TaskRecord, Scheduler, cancel_entry, entry_of, enqueue, persisting,
  validate_schedule, compute_initial_fire, compute_resumed_fire,
}

-- The arguments of `register`.
pub record Registration : Type 0 where
  pub task_id : String
  pub owner : String
  pub schedule : Schedule
  pub callback : Callback
  pub persist : Bool
  pub misfire_policy : MisfirePolicy
  pub metadata : Metadata

-- A disabled task has no time of its own; a re-registered one keeps the time that it had.
abbrev pub kept_fire_at : Option TaskRecord → (initial : ℕ) → ℕ
kept_fire_at none initial = initial
kept_fire_at (some r) initial = elim r.next_fire_at [ none ↦ initial | some t ↦ t ]

abbrev pub kept_created_at : Option TaskRecord → (now : ℕ) → ℕ
kept_created_at none now = now
kept_created_at (some r) now = r.created_at

abbrev pub kept_last_fired_at : Option TaskRecord → Option ℕ
kept_last_fired_at none = none
kept_last_fired_at (some r) = r.last_fired_at

-- The record that `register` builds, with its entry in the heap.
unfoldable pub new_record : Registration → Option TaskRecord → (fire_at now serial : ℕ) → TaskRecord
new_record a existing fire_at now serial = record {
  task_id = a.task_id;
  owner = a.owner;
  schedule = a.schedule;
  callback = some a.callback;
  persist = a.persist;
  misfire_policy = a.misfire_policy;
  next_fire_at = some fire_at;
  created_at = kept_created_at existing now;
  updated_at = now;
  last_fired_at = kept_last_fired_at existing;
  enabled = true;
  metadata = a.metadata;
  heap_entry = some serial;
}

-- `ScheduledTaskRow(…)` as `register` builds it from the record.
unfoldable pub row_of : TaskRecord → ScheduledTaskRow
row_of r = record {
  task_id = r.task_id;
  owner = r.owner;
  schedule_type = (schedule_to_type_and_spec r.schedule).0;
  schedule_spec = (schedule_to_type_and_spec r.schedule).1;
  misfire_policy = r.misfire_policy;
  next_fire_at = r.next_fire_at;
  enabled = r.enabled;
  created_at = r.created_at;
  updated_at = r.updated_at;
  last_fired_at = r.last_fired_at;
  metadata = r.metadata;
}

-- `register` behind its validation. The old entry is cancelled, the new record and its row are
-- written, and a new entry is queued.
unfoldable pub register_valid :
    Registration → Option TaskRecord → (fire_at now : ℕ) → Scheduler → Scheduler
unfolding new_record row_of enqueue
register_valid a existing fire_at now s =
    let cancelled : Scheduler = record s {
      heap = cancel_entry a.task_id (entry_of existing) s.heap;
    } in
    let (serial, queued) = enqueue a.task_id fire_at cancelled in
    let r : TaskRecord = new_record a existing fire_at now serial in
    record queued {
      tasks = insert a.task_id r s.tasks;
      store = persisting a.persist (Store.upsert (row_of r)) s.store;
      wake_event = true;
    }

-- `cancel` of a task that is there.
unfoldable pub drop_task : String → TaskRecord → Scheduler → Scheduler
drop_task tid r s = record s {
  tasks = remove tid s.tasks;
  heap = cancel_entry tid r.heap_entry s.heap;
  store = persisting r.persist (λ t. (Store.delete tid t).1) s.store;
  wake_event = true;
}

unfoldable pub cancel : String → Scheduler → Bool × Scheduler
unfolding drop_task
cancel tid s = elim (lookup tid s.tasks) [ none ↦ (false, s) | some r ↦ (true, drop_task tid r s) ]

unfoldable pub pause_task : String → TaskRecord → (now stored : ℕ) → Scheduler → Scheduler
pause_task tid r now stored s = record s {
  tasks =
      insert tid
        (record r { heap_entry = none; enabled = false; next_fire_at = none; updated_at = now })
        s.tasks;
  heap = cancel_entry tid r.heap_entry s.heap;
  store = persisting r.persist (Store.disable tid none stored) s.store;
  wake_event = true;
}

-- `now` is read for the record and `stored` by the store.
unfoldable pub disable : String → (now stored : ℕ) → Scheduler → Bool × Scheduler
unfolding pause_task
disable tid now stored s = elim (lookup tid s.tasks) [
  | none ↦ (false, s)
  | some r ↦ if r.enabled then (true, pause_task tid r now stored s) else (true, s)
]

unfoldable pub resume_task : String → TaskRecord → (fire_at now stored : ℕ) → Scheduler → Scheduler
unfolding enqueue
resume_task tid r fire_at now stored s =
    let (serial, queued) = enqueue tid fire_at s in
    record queued {
      tasks =
          insert tid
            (record r {
              heap_entry = some serial;
              enabled = true;
              next_fire_at = some fire_at;
              updated_at = now;
            })
            s.tasks;
      store = persisting r.persist (Store.enable tid fire_at stored) s.store;
      wake_event = true;
    }

-- `tasks` with the owner, in the order of the dict.
abbrev pub owned_by : String → Dict TaskRecord → List String
owned_by owner [] = []
owned_by owner ((tid, r) ∷ m) =
    if str_eq r.owner owner then tid ∷ owned_by owner m else owned_by owner m

unfoldable pub cancel_all : List String → Scheduler → Scheduler
unfolding cancel
cancel_all [] s = s
cancel_all (tid ∷ tids) s = cancel_all tids (cancel tid s).1

unfoldable pub unregister_by_owner : String → Scheduler → List String × Scheduler
unfolding cancel_all
unregister_by_owner owner s =
    let tids = owned_by owner s.tasks in
    let after = cancel_all tids s in
    (
      tids,
      record after { store = persisting true (λ t. (Store.delete_by_owner owner t).1) after.store },
    )

-- One snapshot of `list_tasks`.
unfoldable pub info_of : TaskRecord → ScheduledTaskInfo
info_of r = record {
  task_id = r.task_id;
  owner = r.owner;
  schedule = r.schedule;
  persist = r.persist;
  misfire_policy = r.misfire_policy;
  next_fire_at = r.next_fire_at;
  created_at = r.created_at;
  updated_at = r.updated_at;
  last_fired_at = r.last_fired_at;
  enabled = r.enabled;
  metadata = r.metadata;
}

unfoldable pub list_tasks : Scheduler → List ScheduledTaskInfo
unfolding info_of
list_tasks s = map info_of (values s.tasks)

module _ (croniter : Croniter) where
  -- `initial` is read by `_compute_initial_fire`, and `now` after it.
  unfoldable pub register :
      Registration → (initial now : ℕ) → Scheduler → Result (Unit {0}) × Scheduler
  unfolding register_valid validate_schedule
  register a initial now s = elim (validate_schedule croniter a.schedule) [
    | err e ↦ (err e, s)
    | ok _ ↦
        let existing = lookup a.task_id s.tasks in
        (
          ok tt,
          register_valid a existing
              (kept_fire_at existing (compute_initial_fire croniter a.schedule initial)) now s,
        )
  ]

  abbrev resume_if_due :
      String → TaskRecord → Result ℕ → (now stored : ℕ) → Scheduler → Result Bool × Scheduler
  resume_if_due tid r (err e) now stored s = (err e, s)
  resume_if_due tid r (ok fire_at) now stored s = (ok true, resume_task tid r fire_at now stored s)

  -- `resumed` is read for the next time, `now` for the record and `stored` by the store.
  unfoldable pub enable : String → (resumed now stored : ℕ) → Scheduler → Result Bool × Scheduler
  unfolding resume_task
  enable tid resumed now stored s = elim (lookup tid s.tasks) [
    | none ↦ (ok false, s)
    | some r ↦
        if r.enabled
        then (ok true, s)
        else resume_if_due tid r (compute_resumed_fire croniter r.schedule resumed) now stored s
  ]
