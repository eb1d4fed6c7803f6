-- ===== src/Runs/Store.antt =====
-- SQLiteRunStore of src/acabot/runtime/storage/sqlite_stores.py: the tables `runs` and
-- `run_steps`. Each method is one transaction.
use aca_bot.Prelude.{
  ℕ, ◌+◌, max, String, Bool, true, false, ◌||◌, Option, none, some, List, [], ◌∷◌, ◌++◌, str_eq,
  if◌then◌else◌, Dict, lookup, insert, values, keep, sort, leb, is_some,
}
use aca_bot.Errors.{Result, ok, err, integrity_error}
use aca_bot.Runs.Records.{
  RunStatus, RunRecord, RunStep, contains, has_status, by_seq, by_time, newest_first, limited,
  last_rows,
}
use aca_bot.Runs.Memory.{wanted, of_type, numbered}

-- The table `runs` by its primary key, and the rows of `run_steps` in the order of insertion.
pub record RunStore : Type 0 where
  pub runs : Dict RunRecord
  pub steps : List RunStep

-- INSERT fails on a key that is there.
unfoldable pub create_run : RunRecord → RunStore → Result (Unit {0}) × RunStore
create_run run st =
    if is_some (lookup run.run_id st.runs)
    then (err integrity_error, st)
    else (ok tt, record st { runs = insert run.run_id run st.runs })

unfoldable pub get_run : String → RunStore → Option RunRecord
get_run run_id st = lookup run_id st.runs

-- UPDATE … WHERE run_id = ? changes nothing if there is no such row.
unfoldable pub update_run : RunRecord → RunStore → RunStore
update_run run st =
    if is_some (lookup run.run_id st.runs)
    then record st { runs = insert run.run_id run st.runs }
    else st

abbrev oldest_first : RunRecord → RunRecord → Bool
oldest_first a b = leb a.started_at b.started_at

unfoldable pub list_active_runs : List RunStatus → RunStore → List RunRecord
unfolding has_status
list_active_runs statuses st =
    sort oldest_first (keep (λ (run : RunRecord). has_status statuses run.status) (values st.runs))

unfoldable pub list_runs : Option ℕ → List RunStatus → String → RunStore → List RunRecord
unfolding has_status
list_runs limit statuses thread_id st =
    limited limit (sort newest_first (keep (wanted statuses thread_id) (values st.runs)))

-- SELECT COALESCE(MAX(step_seq), 0) … WHERE run_id = ?
unfoldable pub max_seq : String → List RunStep → ℕ
max_seq run_id [] = 0
max_seq run_id (step ∷ steps) =
    if str_eq step.run_id run_id
    then max step.step_seq (max_seq run_id steps)
    else max_seq run_id steps

-- Whether a row has the primary key.
unfoldable pub has_step : String → List RunStep → Bool
has_step step_id [] = false
has_step step_id (step ∷ steps) = str_eq step.step_id step_id || has_step step_id steps

-- Returns the number of the step. INSERT fails on a step id that is there.
unfoldable pub append_step : RunStep → RunStore → Result ℕ × RunStore
unfolding numbered max_seq has_step
append_step step st =
    let s = numbered step (max_seq step.run_id st.steps + 1) in
    if has_step step.step_id st.steps
    then (err integrity_error, st)
    else (ok s.step_seq, record st { steps = st.steps ++ s ∷ [] })

abbrev sliced : Option ℕ → Bool → List RunStep → List RunStep
sliced none latest steps = steps
sliced (some n) true steps = last_rows n steps
sliced (some n) false steps = limited (some n) steps

unfoldable pub get_run_steps : String → Option ℕ → List String → Bool → RunStore → List RunStep
unfolding contains
get_run_steps run_id limit types latest st = sliced limit latest (
    sort by_seq
      (keep (of_type types) (keep (λ (step : RunStep). str_eq step.run_id run_id) st.steps)))

unfoldable pub get_thread_steps : String → Option ℕ → List String → Bool → RunStore → List RunStep
unfolding contains
get_thread_steps thread_id limit types latest st = sliced limit latest (
    sort by_time
      (keep (of_type types) (keep (λ (step : RunStep). str_eq step.thread_id thread_id) st.steps)))
