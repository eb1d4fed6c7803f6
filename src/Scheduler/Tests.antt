-- ===== src/Scheduler/Tests.antt =====
-- Examples of the scheduler's theorems.
use aca_bot.Prelude.{
  suc, ◌≡◌, refl, true, false, none, some, List, [], ◌∷◌, length, lookup, remove, arith,
}
use aca_bot.Errors.{ok}
use aca_bot.Scheduler.Contracts.{
  interval, one_shot, skip, ScheduledTaskRow, number, spec_to_schedule,
}
use aca_bot.Scheduler.Engine
use aca_bot.Scheduler.Engine.{Croniter, TaskRecord, Scheduler, init}
use aca_bot.Scheduler.Tasks
use aca_bot.Scheduler.Tasks.{Registration}
use aca_bot.Scheduler.Worker.{Round, waits, worker_round, run_until_wait}
use aca_bot.Scheduler.Recovery
use aca_bot.Scheduler.Consistency.{IsConsistent, IsConsistent-init}
use aca_bot.Scheduler.Backing.{AllBacked}
use aca_bot.Scheduler.Progress.{ArePositive, run_until_wait-total}
use aca_bot.Scheduler.Timing.{Promise, Leaves, worker_round-Promise, worker_round-Leaves}
use aca_bot.Scheduler.Owners.{unregister_by_owner-tasks, listed, of_others, is_owned}
use aca_bot.Scheduler.Restored.{Recovered, recover_row-Recovered, store-register-cancel}
use aca_bot.Scheduler.Reach
use aca_bot.Scheduler.Reach.{Op, run, run-init-IsConsistent, run-AllBacked}

-- Every tick is a cron time.
abbrev every_tick : Croniter
every_tick = record {
  is_valid = λ expr. true;
  get_next = λ expr start. suc start;
  get_next_after = λ expr start. omega arith;
}

abbrev report : Registration
report = record {
  task_id = "report";
  owner = "news";
  schedule = interval 60;
  callback = 1;
  persist = true;
  misfire_policy = skip;
  metadata = [];
}

abbrev ping : Registration
ping = record {
  task_id = "ping";
  owner = "chat";
  schedule = one_shot 130;
  callback = 2;
  persist = false;
  misfire_policy = skip;
  metadata = [];
}

abbrev session : List Op
session =
    Reach.register report 160 100
    ∷ Reach.register ping 130 100
    ∷ Reach.worker_round 130 130 130
    ∷ Reach.disable "report" 140 140
    ∷ Reach.enable "report" 210 150 150
    ∷ Reach.worker_round 220 220 220
    ∷ Reach.cancel "ping"
    ∷ []

abbrev served : Scheduler
served = run every_tick session (init (some []))

run-init-IsConsistent_example : IsConsistent (run every_tick session (init (some [])))
run-init-IsConsistent_example = run-init-IsConsistent every_tick session (some [])

empty-AllBacked : AllBacked (init (some []))
unfolding lookup
empty-AllBacked tid = tt

run-AllBacked_example : AllBacked (run every_tick session (init (some [])))
run-AllBacked_example =
    run-AllBacked every_tick session (init (some [])) (tt, (tt, (tt, (tt, (tt, (tt, (tt, tt)))))))
      (IsConsistent-init (some [])) empty-AllBacked

served-IsConsistent : IsConsistent served
served-IsConsistent = run-init-IsConsistent every_tick session (some [])

worker_round-Promise_example : Promise 300 served (worker_round every_tick 300 300 300 served).0
worker_round-Promise_example =
    worker_round-Promise every_tick 300 300 300 served served-IsConsistent

worker_round-Leaves_example :
    Leaves every_tick 300 300 300 served (worker_round every_tick 300 300 300 served)
worker_round-Leaves_example = worker_round-Leaves every_tick 300 300 300 served served-IsConsistent

-- A task is due, and its entry lies behind one that was cancelled.
abbrev due : Scheduler
due = record (init none) {
  tasks =
      (
        "report",
        record {
          task_id = "report";
          owner = "news";
          schedule = interval 60;
          callback = some 1;
          persist = false;
          misfire_policy = skip;
          next_fire_at = some 160;
          created_at = 100;
          updated_at = 100;
          last_fired_at = none;
          enabled = true;
          metadata = [];
          heap_entry = some 1;
        },
      )
      ∷ [];
  heap =
      record { serial = 0; fire_at = 150; task_id = "report"; cancelled = true }
      ∷ record { serial = 1; fire_at = 160; task_id = "report"; cancelled = false }
      ∷ [];
  next_serial = 2;
}

due-ArePositive : ArePositive due
unfolding lookup
due-ArePositive tid r h = ground arith

run_until_wait-total_example :
    (round : Round) × (s' : Scheduler) × (run_until_wait every_tick (suc (length due.heap)) 300 due
      ≡ some (round, s'))
    × (waits round ≡ true)
run_until_wait-total_example = run_until_wait-total every_tick 300 due due-ArePositive

abbrev late_row : ScheduledTaskRow
late_row = record {
  task_id = "report";
  owner = "news";
  schedule_type = "interval";
  schedule_spec = ("interval_seconds", number 60) ∷ [];
  misfire_policy = skip;
  next_fire_at = some 160;
  enabled = true;
  created_at = 100;
  updated_at = 100;
  last_fired_at = none;
  metadata = [];
}

accepted : (Recovery.recover_row every_tick late_row 1000 1000 (init (some []))).0 ≡ ok tt
unfolding Recovery.recover_row Recovery.decide Recovery.decide_misfire spec_to_schedule lookup
    Engine.advance_to_future
accepted = refl

recover_row-Recovered_example :
    Recovered every_tick late_row 1000 (
      lookup "report" (Recovery.recover_row every_tick late_row 1000 1000 (init (some []))).1.tasks)
recover_row-Recovered_example =
    recover_row-Recovered every_tick late_row 1000 1000 (init (some [])) (unfold lookup in refl)
      accepted

abbrev unsaved : Registration
unsaved = record report { persist = false }

abbrev with_row : Scheduler
with_row = init (some (late_row ∷ []))

registered : (Tasks.register every_tick unsaved 160 100 with_row).0 ≡ ok tt
unfolding Tasks.register
registered = refl

store-register-cancel_example :
    (Tasks.cancel "report" (Tasks.register every_tick unsaved 160 100 with_row).1).1.store
    ≡ some (late_row ∷ [])
store-register-cancel_example =
    store-register-cancel every_tick unsaved 160 100 with_row refl registered

abbrev idle_ping : TaskRecord
idle_ping = record {
  task_id = "ping";
  owner = "chat";
  schedule = one_shot 130;
  callback = none;
  persist = false;
  misfire_policy = skip;
  next_fire_at = none;
  created_at = 100;
  updated_at = 100;
  last_fired_at = none;
  enabled = false;
  metadata = [];
  heap_entry = none;
}

abbrev two_owners : Scheduler
two_owners = record due { tasks = ("ping", idle_ping) ∷ due.tasks }

left : lookup "ping" (Tasks.unregister_by_owner "news" two_owners).1.tasks ≡ some idle_ping
unfolding Tasks.unregister_by_owner Tasks.cancel_all Tasks.cancel Tasks.drop_task Tasks.owned_by
    lookup remove
left = refl

unregister_by_owner-tasks_example :
    (lookup "ping" (Tasks.unregister_by_owner "news" two_owners).1.tasks
      ≡ of_others "news" (lookup "ping" two_owners.tasks))
    × (listed "ping" (Tasks.unregister_by_owner "news" two_owners).0
        ≡ is_owned "news" (lookup "ping" two_owners.tasks))
unfolding lookup
unregister_by_owner-tasks_example =
    unregister_by_owner-tasks "news" two_owners (refl, (refl, tt)) "ping"
