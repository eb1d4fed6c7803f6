-- ===== src/Runs/Simulation.antt =====
-- When a state of the store-backed run manager stands for one of the in-memory manager.
use aca_bot.Prelude.{
  ℕ, suc, max, String, ◌≡◌, refl, Bool, true, false, none, some, List, [], ◌∷◌, ◌++◌, arith, str_eq,
  eq_iff, if◌then◌else◌, Dict, lookup, insert, lookup-insert, keep, Option-cases, Bool-cases, inl,
  inr, IsDistinct,
}
use aca_bot.Runs.Records.{RunRecord, RunStep, Mark, mark_running, apply_mark}
use aca_bot.Runs.Memory
use aca_bot.Runs.Memory.{Memory, wanted, of_type, numbered, or_one, or_empty}
use aca_bot.Runs.Store
use aca_bot.Runs.Store.{RunStore, max_seq}
use aca_bot.Runs.Backed
use aca_bot.Runs.Backed.{Backed, cache_all}

-- The rows of a run.
abbrev pub rows_of : String → List RunStep → List RunStep
rows_of run_id steps = keep (λ (step : RunStep). str_eq step.run_id run_id) steps

-- The cache holds nothing that the store does not.
abbrev pub IsCached : Dict RunRecord → Dict RunRecord → Type 0
IsCached cache runs =
    (run_id : String) (run : RunRecord)
    → lookup run_id cache ≡ some run
    → lookup run_id runs ≡ some run

-- `b` stands for `m`: the same runs, steps, next numbers and cancel requests.
pub record Simulates (m : Memory) (b : Backed) : Type 0 where
  pub same_runs : m.runs ≡ b.store.runs
  pub cached : IsCached b.runs b.store.runs
  pub distinct : IsDistinct b.store.runs
  pub keyed :
      (run_id : String) (run : RunRecord)
      → lookup run_id b.store.runs ≡ some run
      → run.run_id ≡ run_id
  pub same_cancels : m.cancel_requested ≡ b.cancel_requested
  pub same_steps :
      (run_id : String) → or_empty (lookup run_id m.steps) ≡ rows_of run_id b.store.steps
  pub same_numbers :
      (run_id : String)
      → or_one (lookup run_id m.next_step_seq) ≡ suc (max_seq run_id b.store.steps)
  pub unused :
      (run_id : String)
      → lookup run_id b.store.runs ≡ none
      → (rows_of run_id b.store.steps ≡ []) × (max_seq run_id b.store.steps ≡ 0)

pub Simulates-init : Simulates Memory.init (Backed.init (record { runs = []; steps = [] }))
unfolding lookup max_seq
Simulates-init = record {
  same_runs = refl;
  cached = λ i r h. h;
  distinct = tt;
  keyed = λ i r h. cc;
  same_cancels = refl;
  same_steps = λ i. refl;
  same_numbers = λ i. refl;
  unused = λ i h. (refl, refl);
}

pub IsCached-insert :
    (cache runs : Dict RunRecord) (k : String) (run : RunRecord)
    → lookup k runs ≡ some run
    → IsCached cache runs
    → IsCached (insert k run cache) runs
IsCached-insert cache runs k run there c run_id r h =
    ground (arith, eq_iff k run_id, lookup-insert k run_id run cache, c run_id r)

-- `get` finds what the store has, and changes at most the cache.
pub get_absent :
    (k : String) (b : Backed)
    → IsCached b.runs b.store.runs
    → lookup k b.store.runs ≡ none
    → Backed.get k b ≡ (none, b)
unfolding Backed.get Store.get_run
get_absent k b c h = elim (Option-cases (lookup k b.runs)) [
  | inl e ↦ rw (e, h, Backed.get) refl
  | inr (run, e) ↦ absurd (ground (arith, c k run))
]

pub get_present :
    (k : String) (b : Backed) (run : RunRecord)
    → IsCached b.runs b.store.runs
    → lookup k b.store.runs ≡ some run
    → (cache : Dict RunRecord) × IsCached cache b.store.runs
      × (Backed.get k b ≡ (some run, record b { runs = cache }))
unfolding Backed.get Store.get_run
get_present k b run c h = elim (Option-cases (lookup k b.runs)) [
  | inl e ↦ (
    insert k run b.runs,
    IsCached-insert b.runs b.store.runs k run h c,
    rw (e, h, Backed.get) refl,
  )
  | inr (r, e) ↦
      let same : r ≡ run = cc (c k r e, h) in (b.runs, c, rw (e, Backed.get) (rw same refl))
]

pub run_id-apply_mark : (k : Mark) (run : RunRecord) → (apply_mark k run).run_id ≡ run.run_id
unfolding apply_mark
run_id-apply_mark mark_running run = refl
run_id-apply_mark _ run = refl

-- The steps after one more is appended.
pub rows_of-append :
    (k : String) (steps : List RunStep) (step : RunStep)
    → rows_of k (steps ++ step ∷ [])
      ≡ (if str_eq step.run_id k then rows_of k steps ++ step ∷ [] else rows_of k steps)
rows_of-append k [] step = ground arith
rows_of-append k (x ∷ steps) step = ground (arith, rows_of-append k steps step)

pub max_if :
    (matches own : Bool) (a m n : ℕ)
    → (if own then max a (if matches then max m n else m) else if matches then max m n else m)
      ≡ (if matches then max (if own then max a m else m) n else if own then max a m else m)
max_if true true a m n = omega arith
max_if true false a m n = refl
max_if false true a m n = refl
max_if false false a m n = refl

pub max_seq-append :
    (k : String) (steps : List RunStep) (step : RunStep)
    → max_seq k (steps ++ step ∷ [])
      ≡ (if str_eq step.run_id k then max (max_seq k steps) step.step_seq else max_seq k steps)
unfolding max_seq
max_seq-append k [] step = elim (Bool-cases (str_eq step.run_id k)) [
  | inl e ↦ rw (e, max_seq) (omega arith)
  | inr e ↦ rw (e, max_seq) refl
]
max_seq-append k (x ∷ steps) step =
    rw (max_seq-append k steps step)
      (max_if (str_eq step.run_id k) (str_eq x.run_id k) x.step_seq (max_seq k steps) step.step_seq)
