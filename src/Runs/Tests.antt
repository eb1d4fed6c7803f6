-- ===== src/Runs/Tests.antt =====
-- Examples of the run managers' theorems.
use aca_bot.Prelude.{◌≡◌, refl, some, List, [], ◌∷◌, lookup, insert}
use aca_bot.Errors.{ok, err, integrity_error}
use aca_bot.Runs.Records.{
  RunStep, Opening, mark_running, mark_waiting_approval, mark_completed, running,
}
use aca_bot.Runs.Memory
use aca_bot.Runs.Memory.{Memory, or_empty}
use aca_bot.Runs.Store
use aca_bot.Runs.Store.{has_step}
use aca_bot.Runs.Backed
use aca_bot.Runs.Backed.{Backed}
use aca_bot.Runs.Simulation.{Simulates, Simulates-init}
use aca_bot.Runs.Equivalence
use aca_bot.Runs.Equivalence.{Op, step-Simulates, memory_step, backed_step}
use aca_bot.Runs.Lifecycle.{IsSound, after, after-init-IsSound}

abbrev opening : Opening
opening = record {
  event_id = "e1";
  timestamp = 100;
  thread_id = "t1";
  actor_id = "a1";
  agent_id = "g1";
  metadata = ("source", "chat") ∷ [];
  model_snapshot = some "m1";
}

abbrev first_step : RunStep
first_step = record {
  step_id = "s1";
  run_id = "r1";
  step_type = "tool";
  status = "done";
  thread_id = "t1";
  payload = [];
  created_at = 101;
  step_seq = 0;
}

abbrev second_step : RunStep
second_step = record first_step { step_id = "s2" }

abbrev calls : List Op
calls =
    Equivalence.open_run opening "r1"
    ∷ Equivalence.mark "r1" mark_running
    ∷ Equivalence.append_step first_step
    ∷ Equivalence.append_step second_step
    ∷ Equivalence.mark "r1" (mark_waiting_approval "tool" [])
    ∷ Equivalence.cancel "r1"
    ∷ Equivalence.mark "r2" (mark_completed 120)
    ∷ Equivalence.get "r1"
    ∷ Equivalence.list_runs (some 5) (running ∷ []) "t1"
    ∷ []

abbrev no_rows : Backed
no_rows = Backed.init (record { runs = []; steps = [] })

-- The store refuses a step id that it has, which the in-memory manager accepts.
taken :
    (Store.append_step first_step (record { runs = []; steps = first_step ∷ [] })).0
    ≡ err integrity_error
unfolding Store.append_step
taken = refl

after-init-IsSound_example : IsSound (after calls Memory.init)
after-init-IsSound_example = after-init-IsSound calls

abbrev open_calls : List Op
open_calls = Equivalence.open_run opening "r1" ∷ Equivalence.append_step first_step ∷ []

abbrev opened_once : Memory
opened_once = after open_calls Memory.init

second : (Memory.append_step first_step opened_once).0 ≡ ok 2
unfolding after Memory.append_step Memory.open_run Memory.numbered lookup insert
second = refl

abbrev open_op : Op
open_op = Equivalence.open_run opening "r1"

abbrev step_op : Op
step_op = Equivalence.append_step first_step

abbrev stepped : Memory
stepped = (memory_step step_op (memory_step open_op Memory.init).1).1

abbrev stepped_rows : Backed
stepped_rows = (backed_step step_op (backed_step open_op no_rows).1).1

stepped-Simulates : Simulates stepped stepped_rows
unfolding Backed.open_run Store.create_run lookup has_step
stepped-Simulates =
    (step-Simulates step_op (memory_step open_op Memory.init).1 (backed_step open_op no_rows).1
      (step-Simulates open_op Memory.init no_rows Simulates-init refl).1 refl).1
