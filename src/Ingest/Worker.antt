-- ===== src/Ingest/Worker.antt =====
-- `LongTermMemoryIngestor` of src/acabot/runtime/memory/long_term_ingestor.py: the dirty threads, the
-- wake event and the worker loop, cut at its awaits. `process` is `_process_thread` with the `except`
-- around it.
use mathlib.Core.List.{List}
use aca_bot.Prelude.{
  ℕ, zero, suc, String, Bool, true, false, Option, none, some, [], ◌∷◌, sort, str_geb, str_eq,
  if◌then◌else◌,
}
use aca_bot.Runs.Records.{contains}

-- `waiting`: the worker stands at `await self._wake_event.wait()`. A set stands as a list in which
-- no element comes twice.
pub record Ingestor (W : Type 0) : Type 0 where
  pub dirty_threads : List String
  pub wake : Bool
  pub stopping : Bool
  pub waiting : Bool
  pub world : W

-- What a pass through the loop did.
pub data Pass : Type 0 where
  returned waits : Pass
  processed : String → Pass

pub data Event : Type 0 where
  marked : String → Event
  passed : (marks : List String) → Event
  resumed : Event

abbrev pub by_text : String → String → Bool
by_text a b = str_geb b a

unfoldable pub take_out : String → List String → List String
take_out t [] = []
take_out t (x ∷ xs) = if str_eq x t then xs else x ∷ take_out t xs

-- The ingestor when its worker starts.
abbrev pub started : {W : Type 0} → W → Ingestor W
started w = record {
  dirty_threads = [];
  wake = false;
  stopping = false;
  waiting = false;
  world = w;
}

module _ {W : Type 0} where
  unfoldable pub mark_dirty : String → Ingestor W → Ingestor W
  unfolding contains
  mark_dirty thread_id s = record s {
    dirty_threads =
        if contains s.dirty_threads thread_id then s.dirty_threads else thread_id ∷ s.dirty_threads;
    wake = true;
  }

  unfoldable pub mark_each : List String → Ingestor W → Ingestor W
  unfolding mark_dirty
  mark_each [] s = s
  mark_each (t ∷ ts) s = mark_each ts (mark_dirty t s)

  unfoldable pub taken_first : List String → Ingestor W → Option String × Ingestor W
  unfolding take_out
  taken_first [] s = (none, s)
  taken_first (t ∷ ts) s = (some t, record s { dirty_threads = take_out t s.dirty_threads })

  unfoldable pub take_next_dirty_thread : Ingestor W → Option String × Ingestor W
  unfolding sort taken_first
  take_next_dirty_thread s = taken_first (sort by_text s.dirty_threads) s

  -- `await self._wake_event.wait()` returns once the event is set.
  unfoldable pub resume : Ingestor W → Ingestor W
  resume s = if s.wake then record s { waiting = false } else s

  module _ (process : String → W → W) where
    unfoldable pub go_on : (marks : List String) → Option String × Ingestor W → Pass × Ingestor W
    unfolding mark_each
    go_on marks (some t, s) =
        (processed t, mark_each marks (record s { world = process t s.world }))
    go_on marks (none, s) = (waits, record s { wake = false; waiting = true })

    -- One pass of a worker that does not wait. `marks` come in while it processes a thread; nothing
    -- comes in between the clearing of the event and the wait for it.
    unfoldable pub worker_pass : (marks : List String) → Ingestor W → Pass × Ingestor W
    unfolding take_next_dirty_thread go_on
    worker_pass marks s =
        if s.stopping then (returned, s) else go_on marks (take_next_dirty_thread s)

    abbrev pub pass_on : Pass → Ingestor W → List String × Ingestor W → List String × Ingestor W
    pass_on returned s rest = ([], s)
    pass_on waits s rest = ([], s)
    pass_on (processed t) s rest = (t ∷ rest.0, rest.1)

    -- The passes up to the next wait, without marks meanwhile, and the threads that they process.
    unfoldable pub worker_loop : (fuel : ℕ) → Ingestor W → List String × Ingestor W
    unfolding worker_pass
    worker_loop zero s = ([], s)
    worker_loop (suc fuel) s =
        let (pass, t) = worker_pass [] s in let rest = worker_loop fuel t in pass_on pass t rest

    -- A mark, a pass of the worker with the marks that come in meanwhile, or its return from the wait.
    unfoldable pub step : Event → Ingestor W → Ingestor W
    unfolding mark_dirty worker_pass resume
    step (marked t) s = mark_dirty t s
    step (passed marks) s = if s.waiting then s else (worker_pass marks s).1
    step resumed s = resume s

    unfoldable pub run : List Event → Ingestor W → Ingestor W
    unfolding step
    run [] s = s
    run (e ∷ es) s = run es (step e s)

    -- A worker that waits does nothing.
    unfoldable pub run_worker : (fuel : ℕ) → Ingestor W → List String × Ingestor W
    unfolding worker_loop
    run_worker fuel s = if s.waiting then ([], s) else worker_loop fuel s
