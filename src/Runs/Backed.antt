-- ===== src/Runs/Backed.antt =====
-- StoreBackedRunManager of src/acabot/runtime/storage/runs.py: a cache over the store.
use aca_bot.Prelude.{
  ℕ, String, Bool, true, false, Option, none, some, List, [], ◌∷◌, Dict, lookup, insert,
}
use aca_bot.Errors.{Result, ok, err, key_error}
use aca_bot.Runs.Records.{
  RunStatus, RunRecord, RunStep, Opening, opened, Mark, apply_mark, contains, queued, running,
  waiting_approval,
}
use aca_bot.Runs.Store
use aca_bot.Runs.Store.{RunStore}

pub record Backed : Type 0 where
  pub store : RunStore
  pub runs : Dict RunRecord
  pub cancel_requested : List String

abbrev pub init : RunStore → Backed
init store = record { store = store; runs = []; cancel_requested = [] }

-- The record is cached before the store may refuse it.
unfoldable pub open_run : Opening → (run_id : String) → Backed → Result (Unit {0}) × Backed
open_run o run_id b =
    let run = opened o run_id in
    let (r, st) = Store.create_run run b.store in
    (r, record b { runs = insert run_id run b.runs; store = st })

abbrev cache_found : String → Option RunRecord → Backed → Option RunRecord × Backed
cache_found run_id none b = (none, b)
cache_found run_id (some run) b = (some run, record b { runs = insert run_id run b.runs })

unfoldable pub get : String → Backed → Option RunRecord × Backed
get run_id b = elim (lookup run_id b.runs) [
  | some run ↦ (some run, b)
  | none ↦ cache_found run_id (Store.get_run run_id b.store) b
]

abbrev mark_found : String → Mark → Option RunRecord × Backed → Result (Unit {0}) × Backed
mark_found run_id k (none, b) = (err key_error, b)
mark_found run_id k (some run, b) =
    let run' = apply_mark k run in
    (ok tt, record b { runs = insert run_id run' b.runs; store = Store.update_run run' b.store })

-- A `mark_…` method: the cached object changes, and is written through.
unfoldable pub mark : String → Mark → Backed → Result (Unit {0}) × Backed
unfolding get
mark run_id k b = mark_found run_id k (get run_id b)

abbrev append_found : RunStep → Option RunRecord × Backed → Result ℕ × Backed
append_found step (none, b) = (err key_error, b)
append_found step (some run, b) =
    let (r, st) = Store.append_step step b.store in (r, record b { store = st })

unfoldable pub append_step : RunStep → Backed → Result ℕ × Backed
unfolding get
append_step step b = append_found step (get step.run_id b)

-- `for run in runs: self._runs[run.run_id] = run`
unfoldable pub cache_all : List RunRecord → Dict RunRecord → Dict RunRecord
cache_all [] cache = cache
cache_all (run ∷ runs) cache = cache_all runs (insert run.run_id run cache)

unfoldable pub list_active : Backed → List RunRecord × Backed
unfolding cache_all
list_active b =
    let runs = Store.list_active_runs (queued ∷ running ∷ waiting_approval ∷ []) b.store in
    (runs, record b { runs = cache_all runs b.runs })

unfoldable pub list_runs : Option ℕ → List RunStatus → String → Backed → List RunRecord × Backed
unfolding cache_all
list_runs limit statuses thread_id b =
    let runs = Store.list_runs limit statuses thread_id b.store in
    (runs, record b { runs = cache_all runs b.runs })

unfoldable pub list_steps : String → Option ℕ → List String → Bool → Backed → List RunStep
list_steps run_id limit types latest b = Store.get_run_steps run_id limit types latest b.store

unfoldable pub list_thread_steps : String → Option ℕ → List String → Bool → Backed → List RunStep
list_thread_steps thread_id limit types latest b =
    Store.get_thread_steps thread_id limit types latest b.store

abbrev request_found : String → Option RunRecord × Backed → Bool × Backed
request_found run_id (none, b) = (false, b)
request_found run_id (some run, b) =
    (true, record b { cancel_requested = run_id ∷ b.cancel_requested })

unfoldable pub cancel : String → Backed → Bool × Backed
unfolding get
cancel run_id b = request_found run_id (get run_id b)

unfoldable pub is_cancel_requested : String → Backed → Bool
unfolding contains
is_cancel_requested run_id b = contains b.cancel_requested run_id
