-- ===== src/Scheduler/Worker.antt =====
-- The worker loop of RuntimeScheduler and the start of callbacks
-- (src/acabot/runtime/scheduler/scheduler.py).
use aca_bot.Prelude.{
  ℕ, zero, suc, ◌-◌, String, Bool, true, false, Option, none, some, List, [], ◌∷◌, ◌++◌, ltb,
  if◌then◌else◌, lookup, insert, take, drop,
}
use aca_bot.Scheduler.Store
use aca_bot.Scheduler.Engine.{
  Croniter, HeapEntry, TaskRecord, Scheduler, enqueue, persisting, compute_next_fire,
}

-- What one round of the loop did: it waits for the wake event, or for at most a delay; it dropped
-- an entry that is cancelled or whose task is gone or paused; or it fired a task.
pub data Round : Type 0 where
  wait_event : Round
  wait_delay : ℕ → Round
  dropped : Round
  fired : String → Round

abbrev pub waits : Round → Bool
waits wait_event = true
waits (wait_delay d) = true
waits dropped = false
waits (fired tid) = false

-- `_fire_task`: the callback is started as a task of its own, which swallows its exceptions.
unfoldable pub fire_task : TaskRecord → Scheduler → Scheduler
fire_task r s = elim r.callback [
  | none ↦ s
  | some c ↦ record s { running_callbacks = s.running_callbacks ++ (r.task_id, c) ∷ [] }
]

-- `_execute_callback` has ended, by a return or by an exception that was logged, and
-- `add_done_callback` discards its task.
unfoldable pub callback_done : ℕ → Scheduler → Scheduler
callback_done i s = record s {
  running_callbacks = take i s.running_callbacks ++ drop (suc i) s.running_callbacks;
}

-- What follows the firing: the next entry, or the end of the task.
unfoldable pub reschedule : TaskRecord → Option ℕ → (fired_at stored : ℕ) → Scheduler → Scheduler
unfolding enqueue
reschedule r (some next) fired_at stored s =
    let (serial, queued) = enqueue r.task_id next s in
    record queued {
      tasks =
          insert r.task_id
            (record r {
              last_fired_at = some fired_at;
              updated_at = fired_at;
              next_fire_at = some next;
              heap_entry = some serial;
            })
            s.tasks;
      store =
          persisting r.persist
            (Store.update_schedule_state r.task_id (some next) true (some fired_at) stored) s.store;
    }
reschedule r none fired_at stored s = record s {
  tasks =
      insert r.task_id
        (record r {
          last_fired_at = some fired_at;
          updated_at = fired_at;
          enabled = false;
          next_fire_at = none;
          heap_entry = none;
        })
        s.tasks;
  store =
      persisting r.persist (Store.update_schedule_state r.task_id none false (some fired_at) stored)
        s.store;
}

module _ (croniter : Croniter) where
  -- The rounds that pop a due entry. `s` has lost the entry already.
  unfoldable pub fire_entry : HeapEntry → (fired_at stored : ℕ) → Scheduler → Round × Scheduler
  unfolding fire_task reschedule
  fire_entry e fired_at stored s = elim (lookup e.task_id s.tasks) [
    | none ↦ (dropped, s)
    | some r ↦
        if r.enabled
        then (
          fired r.task_id,
          reschedule r (compute_next_fire croniter r.schedule fired_at) fired_at stored
              (fire_task r s),
        )
        else (dropped, s)
  ]

  -- A round at the heap's list: `now` is read for the delay, `fired_at` before the firing and
  -- `stored` by the store.
  unfoldable pub round_at :
      List HeapEntry → (now fired_at stored : ℕ) → Scheduler → Round × Scheduler
  unfolding fire_entry
  round_at [] now fired_at stored s = (wait_event, record s { wake_event = false })
  round_at (e ∷ rest) now fired_at stored s =
      if e.cancelled
      then (dropped, record s { heap = rest })
      else if ltb now e.fire_at
      then (wait_delay (e.fire_at - now), record s { wake_event = false })
      else fire_entry e fired_at stored (record s { heap = rest })

  -- The body of the `while` of `_worker_loop`.
  unfoldable pub worker_round : (now fired_at stored : ℕ) → Scheduler → Round × Scheduler
  unfolding round_at
  worker_round now fired_at stored s = round_at s.heap now fired_at stored s

  -- The loop up to its next wait, on a clock that stands still meanwhile; `none` is no wait
  -- within the fuel.
  unfoldable pub run_until_wait : ℕ → (now : ℕ) → Scheduler → Option (Round × Scheduler)
  unfolding worker_round
  run_until_wait zero now s = none
  run_until_wait (suc fuel) now s =
      let (round, s') = worker_round now now now s in
      let rest = run_until_wait fuel now s' in if waits round then some (round, s') else rest
