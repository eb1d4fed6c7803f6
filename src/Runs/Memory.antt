-- ===== src/Runs/Memory.antt =====
-- InMemoryRunManager of src/acabot/runtime/storage/runs.py.
use aca_bot.Prelude.{
  ℕ, ◌+◌, max, String, Bool, true, false, ◌||◌, Option, none, some, List, [], ◌∷◌, ◌++◌, str_eq,
  if◌then◌else◌, Dict, lookup, insert, values, keep, sort, ◌==◌, is_some,
}
use aca_bot.Errors.{Result, ok, err, key_error}
use aca_bot.Runs.Records.{
  RunStatus, RunRecord, RunStep, Opening, opened, Mark, apply_mark, contains, has_status, is_active,
  by_seq, by_time, newest_first, limited, last_slice,
}

pub record Memory : Type 0 where
  pub runs : Dict RunRecord
  pub steps : Dict (List RunStep)
  pub next_step_seq : Dict ℕ
  pub cancel_requested : List String

abbrev pub init : Memory
init = record { runs = []; steps = []; next_step_seq = []; cancel_requested = [] }

-- `run_id` is what `_new_id()` returns.
unfoldable pub open_run : Opening → (run_id : String) → Memory → Memory
open_run o run_id m = record m {
  runs = insert run_id (opened o run_id) m.runs;
  steps = insert run_id [] m.steps;
  next_step_seq = insert run_id 1 m.next_step_seq;
}

unfoldable pub get : String → Memory → Option RunRecord
get run_id m = lookup run_id m.runs

-- A `mark_…` method.
unfoldable pub mark : String → Mark → Memory → Result (Unit {0}) × Memory
mark run_id k m = elim (lookup run_id m.runs) [
  | none ↦ (err key_error, m)
  | some run ↦ (ok tt, record m { runs = insert run_id (apply_mark k run) m.runs })
]

abbrev pub or_one : Option ℕ → ℕ
or_one none = 1
or_one (some n) = n

abbrev pub or_empty : Option (List RunStep) → List RunStep
or_empty none = []
or_empty (some l) = l

-- The step with its number, which is assigned where the caller gave none.
unfoldable pub numbered : RunStep → ℕ → RunStep
numbered step next = if step.step_seq == 0 then record step { step_seq = next } else step

abbrev pub record_step : RunStep → Memory → Memory
record_step step m = record m {
  next_step_seq =
      insert step.run_id (max (or_one (lookup step.run_id m.next_step_seq)) (step.step_seq + 1))
        m.next_step_seq;
  steps = insert step.run_id (or_empty (lookup step.run_id m.steps) ++ step ∷ []) m.steps;
}

-- Returns the number of the step, which is written to the caller's object.
unfoldable pub append_step : RunStep → Memory → Result ℕ × Memory
unfolding numbered
append_step step m = elim (lookup step.run_id m.runs) [
  | none ↦ (err key_error, m)
  | some run ↦
      let s = numbered step (or_one (lookup step.run_id m.next_step_seq)) in
      (ok s.step_seq, record_step s m)
]

unfoldable pub list_active : Memory → List RunRecord
unfolding is_active
list_active m = keep (λ (run : RunRecord). is_active run.status) (values m.runs)

-- An empty set of statuses and an empty thread id filter nothing.
abbrev pub wanted : List RunStatus → String → RunRecord → Bool
wanted [] thread_id run = str_eq thread_id "" || str_eq run.thread_id thread_id
wanted (s ∷ statuses) thread_id run =
    if has_status (s ∷ statuses) run.status
    then str_eq thread_id "" || str_eq run.thread_id thread_id
    else false

unfoldable pub list_runs : Option ℕ → List RunStatus → String → Memory → List RunRecord
unfolding has_status
list_runs limit statuses thread_id m =
    limited limit (sort newest_first (keep (wanted statuses thread_id) (values m.runs)))

abbrev pub of_type : List String → RunStep → Bool
of_type [] step = true
of_type (t ∷ types) step = contains (t ∷ types) step.step_type

abbrev sliced : Option ℕ → Bool → List RunStep → List RunStep
sliced none latest steps = steps
sliced (some n) true steps = last_slice n steps
sliced (some n) false steps = limited (some n) steps

unfoldable pub list_steps : String → Option ℕ → List String → Bool → Memory → List RunStep
unfolding contains
list_steps run_id limit types latest m =
    sliced limit latest (sort by_seq (keep (of_type types) (or_empty (lookup run_id m.steps))))

abbrev all_steps : List (List RunStep) → List RunStep
all_steps [] = []
all_steps (items ∷ rest) = items ++ all_steps rest

unfoldable pub list_thread_steps : String → Option ℕ → List String → Bool → Memory → List RunStep
unfolding contains
list_thread_steps thread_id limit types latest m = sliced limit latest (
    sort by_time (
      keep (of_type types)
        (keep (λ (step : RunStep). str_eq step.thread_id thread_id) (all_steps (values m.steps)))))

unfoldable pub cancel : String → Memory → Bool × Memory
cancel run_id m =
    if is_some (lookup run_id m.runs)
    then (true, record m { cancel_requested = run_id ∷ m.cancel_requested })
    else (false, m)

unfoldable pub is_cancel_requested : String → Memory → Bool
unfolding contains
is_cancel_requested run_id m = contains m.cancel_requested run_id
