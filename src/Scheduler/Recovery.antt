-- ===== src/Scheduler/Recovery.antt =====
-- The life cycle of RuntimeScheduler: recovery from the store, rebinding of callbacks, start and
-- stop (src/acabot/runtime/scheduler/scheduler.py).
use aca_bot.Prelude.{
  ℕ, String, Bool, true, false, Option, none, some, List, [], ◌∷◌, ltb, if◌then◌else◌, lookup,
  insert, is_some,
}
use aca_bot.Errors.{Result, ok, err, ◌>>=◌}
use aca_bot.Scheduler.Contracts.{
  Schedule, one_shot, MisfirePolicy, skip, fire_once, ScheduledTaskInfo, ScheduledTaskRow,
  spec_to_schedule,
}
use aca_bot.Scheduler.Store
use aca_bot.Scheduler.Store.{Table}
use aca_bot.Scheduler.Engine.{
  Croniter, Callback, TaskRecord, Scheduler, Resolver, enqueue, persisting, compute_resumed_fire,
  advance_to_future,
}
use aca_bot.Scheduler.Tasks.{list_tasks}

-- What recovery decides for a row: whether it is enabled, its next time, and the store's part.
pub record Decision : Type 0 where
  pub enabled : Bool
  pub next_fire_at : Option ℕ
  pub store : Option Table

-- A time that passed while nothing ran.
unfoldable pub decide_misfire :
    Croniter → MisfirePolicy → Schedule → String → (now stored : ℕ) → Option Table → Result Decision
decide_misfire croniter skip (one_shot fire_at) tid now stored st = ok (record {
  enabled = false;
  next_fire_at = none;
  store = persisting true (Store.disable tid none stored) st;
})
decide_misfire croniter skip schedule tid now stored st = do
  next ← advance_to_future croniter schedule now
  ok (record {
    enabled = true;
    next_fire_at = some next;
    store = persisting true (Store.enable tid next stored) st;
  })
decide_misfire croniter fire_once schedule tid now stored st =
    ok (record { enabled = true; next_fire_at = some now; store = st })

unfoldable pub decide :
    Croniter
    → ScheduledTaskRow
    → Schedule
    → Bool
    → Option ℕ
    → (now stored : ℕ) → Option Table
    → Result Decision
unfolding decide_misfire
decide croniter row schedule false next now stored st =
    ok (record { enabled = false; next_fire_at = next; store = st })
decide croniter row schedule true (some next) now stored st =
    if ltb next now
    then decide_misfire croniter row.misfire_policy schedule row.task_id now stored st
    else ok (record { enabled = true; next_fire_at = some next; store = st })
decide croniter row schedule true none now stored st = do
  next ← compute_resumed_fire croniter schedule now
  ok (record {
    enabled = true;
    next_fire_at = some next;
    store = persisting true (Store.enable row.task_id next stored) st;
  })

unfoldable pub recovered_record :
    ScheduledTaskRow → Schedule → Bool → Option ℕ → (entry : Option ℕ) → TaskRecord
recovered_record row schedule enabled next entry = record {
  task_id = row.task_id;
  owner = row.owner;
  schedule = schedule;
  callback = none;
  persist = true;
  misfire_policy = row.misfire_policy;
  next_fire_at = if enabled then next else none;
  created_at = row.created_at;
  updated_at = row.updated_at;
  last_fired_at = row.last_fired_at;
  enabled = enabled;
  metadata = row.metadata;
  heap_entry = entry;
}

-- The record of a decided row, queued if it is enabled and has a time.
unfoldable pub install :
    ScheduledTaskRow → Schedule → Bool → Option ℕ → Option Table → Scheduler → Scheduler
unfolding recovered_record enqueue
install row schedule true (some next) st s =
    let (serial, queued) = enqueue row.task_id next s in
    record queued {
      tasks =
          insert row.task_id (recovered_record row schedule true (some next) (some serial)) s.tasks;
      store = st;
    }
install row schedule enabled next st s = record s {
  tasks = insert row.task_id (recovered_record row schedule enabled next none) s.tasks;
  store = st;
}

abbrev bind_callback :
    String → TaskRecord → Result (Option Callback) → Scheduler → Result (Unit {0}) × Scheduler
bind_callback tid r (err e) s = (err e, s)
bind_callback tid r (ok c) s =
    (ok tt, record s { tasks = insert tid (record r { callback = c }) s.tasks })

-- One task of the loop of `_rebind_persisted_callbacks`.
unfoldable pub rebind_task :
    Resolver → ScheduledTaskInfo → Scheduler → Result (Unit {0}) × Scheduler
rebind_task resolver info s = elim (lookup info.task_id s.tasks) [
  | none ↦ (ok tt, s)
  | some r ↦
      if is_some r.callback then (ok tt, s) else bind_callback info.task_id r (resolver info) s
]

unfoldable pub rebind_tasks :
    Resolver → List ScheduledTaskInfo → Scheduler → Result (Unit {0}) × Scheduler
unfolding rebind_task
rebind_tasks resolver [] s = (ok tt, s)
rebind_tasks resolver (info ∷ infos) s =
    let (r, s') = rebind_task resolver info s in
    let rest = rebind_tasks resolver infos s' in elim r [ ok _ ↦ rest | err e ↦ (err e, s') ]

unfoldable pub rebind_persisted_callbacks : Scheduler → Result (Unit {0}) × Scheduler
unfolding rebind_tasks
rebind_persisted_callbacks s = elim s.callback_resolver [
  | none ↦ (ok tt, s)
  | some resolver ↦ rebind_tasks resolver (list_tasks s) s
]

abbrev pub start_worker : Result (Unit {0}) × Scheduler → Result (Unit {0}) × Scheduler
start_worker (err e, s) = (err e, s)
start_worker (ok _, s) = (ok tt, record s { worker_task = true; started = true })

abbrev pub rebind_and_start : Result (Unit {0}) × Scheduler → Result (Unit {0}) × Scheduler
rebind_and_start (err e, s) = (err e, s)
rebind_and_start (ok _, s) = start_worker (rebind_persisted_callbacks s)

module _ (croniter : Croniter) where
  abbrev install_decided :
      ScheduledTaskRow → Schedule → Result Decision → Scheduler → Result (Unit {0}) × Scheduler
  install_decided row schedule (err e) s = (err e, s)
  install_decided row schedule (ok d) s =
      (ok tt, install row schedule d.enabled d.next_fire_at d.store s)

  -- One row of `_recover_persisted_tasks`; a task that is there already is passed over.
  unfoldable pub recover_row :
      ScheduledTaskRow → (now stored : ℕ) → Scheduler → Result (Unit {0}) × Scheduler
  unfolding decide install
  recover_row row now stored s =
      if is_some (lookup row.task_id s.tasks)
      then (ok tt, s)
      else elim (spec_to_schedule row.schedule_type row.schedule_spec) [
        | err e ↦ (err e, s)
        | ok schedule ↦
            install_decided row schedule
              (decide croniter row schedule row.enabled row.next_fire_at now stored s.store) s
      ]

  -- An exception ends the loop and leaves what the rows before it did.
  unfoldable pub recover_rows :
      List ScheduledTaskRow → (now stored : ℕ) → Scheduler → Result (Unit {0}) × Scheduler
  unfolding recover_row
  recover_rows [] now stored s = (ok tt, s)
  recover_rows (row ∷ rows) now stored s =
      let (r, s') = recover_row row now stored s in
      let rest = recover_rows rows now stored s' in elim r [ ok _ ↦ rest | err e ↦ (err e, s') ]

  unfoldable pub recover_persisted_tasks :
      (now stored : ℕ) → Scheduler → Result (Unit {0}) × Scheduler
  unfolding recover_rows
  recover_persisted_tasks now stored s = elim s.store [
    | none ↦ (ok tt, s)
    | some t ↦ recover_rows (Store.list_all t) now stored s
  ]

  unfoldable pub start : (now stored : ℕ) → Scheduler → Result (Unit {0}) × Scheduler
  unfolding recover_persisted_tasks rebind_persisted_callbacks
  start now stored s =
      if s.started then (ok tt, s) else rebind_and_start (recover_persisted_tasks now stored s)

-- The worker sees `_stopping` when the wake event ends its wait, and ends with no further round;
-- then the running callbacks are awaited. Tasks and heap stay.
unfoldable pub stop : Scheduler → Scheduler
stop s =
    if s.started
    then record s {
      wake_event = true;
      worker_task = false;
      running_callbacks = [];
      started = false;
      stopping = false;
    }
    else s
