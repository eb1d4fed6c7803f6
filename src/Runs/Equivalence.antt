-- ===== src/Runs/Equivalence.antt =====
-- Whole conversations with the two run managers, and their replies.
use aca_bot.Prelude.{
  ℕ, String, ◌≡◌, refl, sym, ap, Bool, false, Option, none, some, List, [], ◌∷◌, arith, Dict,
  lookup, insert, values, keep, sort, Option-cases, inl, inr, All, All-keep, All-take, All-sort,
  All-lookup,
}
use aca_bot.Errors.{Result, ok}
use aca_bot.Runs.Records.{
  RunStatus, RunRecord, RunStep, Opening, Mark, contains, newest_first, limited, by_seq,
}
use aca_bot.Runs.Memory
use aca_bot.Runs.Memory.{Memory, wanted, numbered, of_type}
use aca_bot.Runs.Store
use aca_bot.Runs.Store.{RunStore, has_step}
use aca_bot.Runs.Backed
use aca_bot.Runs.Backed.{Backed, cache_all}
use aca_bot.Runs.Simulation.{IsCached, Simulates, IsCached-insert, get_absent, get_present}
use aca_bot.Runs.Refinement.{
  recached, get-Simulates, mark-Simulates, requested, open_run-Simulates, same_numbered,
  step_recorded,
}

IsCached-cache_all :
    (found : List RunRecord) (cache runs : Dict RunRecord)
    → All (λ (run : RunRecord). lookup run.run_id runs ≡ some run) found
    → IsCached cache runs
    → IsCached (cache_all found cache) runs
unfolding cache_all
IsCached-cache_all [] cache runs a c = c
IsCached-cache_all (run ∷ found) cache runs a c =
    IsCached-cache_all found (insert run.run_id run cache) runs a.1
      (IsCached-insert cache runs run.run_id run a.0 c)

run_id-numbered : (step : RunStep) (n : ℕ) → (numbered step n).run_id ≡ step.run_id
unfolding numbered
run_id-numbered step n = ground arith

module _ (m : Memory) (b : Backed) (s : Simulates m b) where
  append_step-Simulates :
      (step : RunStep)
      → has_step step.step_id b.store.steps ≡ false
      → ((Backed.append_step step b).0 ≡ (Memory.append_step step m).0)
        × Simulates (Memory.append_step step m).1 (Backed.append_step step b).1
  unfolding Memory.append_step Backed.append_step Store.append_step
  append_step-Simulates step new = elim (Option-cases (lookup step.run_id b.store.runs)) [
    | inl h ↦
        let h' : lookup step.run_id m.runs ≡ none = rw s.same_runs h in
        rw (h', get_absent step.run_id b s.cached h, Memory.append_step, Backed.append_step)
          (refl, s)
    | inr (run, h) ↦
        let (cache, c, e) = get_present step.run_id b run s.cached h in
        let h' : lookup step.run_id m.runs ≡ some run = rw s.same_runs h in
        let n = numbered step (Memory.or_one (lookup step.run_id m.next_step_seq)) in
        let there : lookup n.run_id b.store.runs ≡ some run = rw run_id-numbered h in
        rw (h', e, Memory.append_step, Backed.append_step)
          (rw (new, same_numbered m b s step, Store.append_step)
            (refl, step_recorded m b s n run there cache c))
  ]

  cancel-Simulates :
      (k : String)
      → ((Backed.cancel k b).0 ≡ (Memory.cancel k m).0)
        × Simulates (Memory.cancel k m).1 (Backed.cancel k b).1
  unfolding Memory.cancel Backed.cancel
  cancel-Simulates k = elim (Option-cases (lookup k b.store.runs)) [
    | inl h ↦
        let h' : lookup k m.runs ≡ none = rw s.same_runs h in
        rw (h', get_absent k b s.cached h, Memory.cancel, Backed.cancel) (refl, s)
    | inr (run, h) ↦
        let (cache, c, e) = get_present k b run s.cached h in
        let h' : lookup k m.runs ≡ some run = rw s.same_runs h in
        rw (h', e, Memory.cancel, Backed.cancel)
          (refl, requested m (record b { runs = cache }) (recached m b s cache c) k)
  ]

  stored_found :
      All (λ (run : RunRecord). lookup run.run_id b.store.runs ≡ some run) (values b.store.runs)
  stored_found = All-lookup (λ (run : RunRecord). run.run_id) b.store.runs s.distinct s.keyed

  list_runs-Simulates :
      (limit : Option ℕ) (statuses : List RunStatus) (thread_id : String)
      → ((Backed.list_runs limit statuses thread_id b).0
          ≡ Memory.list_runs limit statuses thread_id m)
        × Simulates m (Backed.list_runs limit statuses thread_id b).1
  unfolding Memory.list_runs Backed.list_runs Store.list_runs
  list_runs-Simulates limit statuses thread_id = (
    ap (λ runs. limited limit (sort newest_first (keep (wanted statuses thread_id) (values runs))))
        (sym s.same_runs),
    recached m b s _
        (IsCached-cache_all (limited limit sorted) b.runs b.store.runs (cut limit) s.cached),
  )
    where
      sorted : List RunRecord
      sorted = sort newest_first (keep (wanted statuses thread_id) (values b.store.runs))

      all : All (λ (run : RunRecord). lookup run.run_id b.store.runs ≡ some run) sorted
      all = All-sort newest_first _ _ (All-keep _ (wanted statuses thread_id) _ stored_found)

      cut :
          (limit : Option ℕ)
          → All
              (λ (run : RunRecord). lookup run.run_id b.store.runs ≡ some run)
              (limited limit sorted)
      cut none = all
      cut (some n) = All-take _ n sorted all

  -- Without `latest` the steps of a run are listed alike.
  list_steps-Simulates :
      (k : String) (limit : Option ℕ) (types : List String)
      → Backed.list_steps k limit types false b ≡ Memory.list_steps k limit types false m
  unfolding Memory.list_steps Backed.list_steps Store.get_run_steps
  list_steps-Simulates k none types =
      ap (λ l. sort by_seq (keep (of_type types) l)) (sym (s.same_steps k))
  list_steps-Simulates k (some n) types =
      ap (λ l. limited (some n) (sort by_seq (keep (of_type types) l))) (sym (s.same_steps k))

pub data Op : Type 0 where
  open_run : Opening → (run_id : String) → Op
  get : String → Op
  mark : String → Mark → Op
  append_step : RunStep → Op
  cancel : String → Op
  is_cancel_requested : String → Op
  list_runs : Option ℕ → List RunStatus → String → Op
  list_steps : String → Option ℕ → List String → Op

pub data Reply : Type 0 where
  finished : Result (Unit {0}) → Reply
  found : Option RunRecord → Reply
  number : Result ℕ → Reply
  flag : Bool → Reply
  runs : List RunRecord → Reply
  steps : List RunStep → Reply

abbrev pub memory_step : Op → Memory → Reply × Memory
memory_step (open_run o k) m = (finished (ok tt), Memory.open_run o k m)
memory_step (get k) m = (found (Memory.get k m), m)
memory_step (mark k mk) m = (finished (Memory.mark k mk m).0, (Memory.mark k mk m).1)
memory_step (append_step s) m = (number (Memory.append_step s m).0, (Memory.append_step s m).1)
memory_step (cancel k) m = (flag (Memory.cancel k m).0, (Memory.cancel k m).1)
memory_step (is_cancel_requested k) m = (flag (Memory.is_cancel_requested k m), m)
memory_step (list_runs limit statuses t) m = (runs (Memory.list_runs limit statuses t m), m)
memory_step (list_steps k limit types) m = (steps (Memory.list_steps k limit types false m), m)

abbrev pub backed_step : Op → Backed → Reply × Backed
backed_step (open_run o k) b = (finished (Backed.open_run o k b).0, (Backed.open_run o k b).1)
backed_step (get k) b = (found (Backed.get k b).0, (Backed.get k b).1)
backed_step (mark k mk) b = (finished (Backed.mark k mk b).0, (Backed.mark k mk b).1)
backed_step (append_step s) b = (number (Backed.append_step s b).0, (Backed.append_step s b).1)
backed_step (cancel k) b = (flag (Backed.cancel k b).0, (Backed.cancel k b).1)
backed_step (is_cancel_requested k) b = (flag (Backed.is_cancel_requested k b), b)
backed_step (list_runs limit statuses t) b =
    (runs (Backed.list_runs limit statuses t b).0, (Backed.list_runs limit statuses t b).1)
backed_step (list_steps k limit types) b = (steps (Backed.list_steps k limit types false b), b)

-- Each new run gets an id that no run has, and each step one that no step of the table has, as
-- `uuid4` does.
abbrev pub IsFresh : Op → Backed → Type 0
IsFresh (open_run o k) b = lookup k b.store.runs ≡ none
IsFresh (append_step step) b = has_step step.step_id b.store.steps ≡ false
IsFresh _ b = Unit

abbrev pub AreFresh : List Op → Backed → Type 0
AreFresh [] b = Unit
AreFresh (op ∷ ops) b = IsFresh op b × AreFresh ops (backed_step op b).1

unfoldable pub memory_replies : List Op → Memory → List Reply
memory_replies [] m = []
memory_replies (op ∷ ops) m = (memory_step op m).0 ∷ memory_replies ops (memory_step op m).1

unfoldable pub backed_replies : List Op → Backed → List Reply
backed_replies [] b = []
backed_replies (op ∷ ops) b = (backed_step op b).0 ∷ backed_replies ops (backed_step op b).1

pub step-Simulates :
    (op : Op) (m : Memory) (b : Backed)
    → Simulates m b
    → IsFresh op b
    → ((backed_step op b).0 ≡ (memory_step op m).0)
      × Simulates (memory_step op m).1 (backed_step op b).1
step-Simulates (open_run o k) m b s f =
    let (e, t) = open_run-Simulates m b s o k f in (ap finished e, t)
step-Simulates (get k) m b s f = let (e, t) = get-Simulates m b s k in (ap found e, t)
step-Simulates (mark k mk) m b s f = let (e, t) = mark-Simulates m b s k mk in (ap finished e, t)
step-Simulates (append_step x) m b s f =
    let (e, t) = append_step-Simulates m b s x f in (ap number e, t)
step-Simulates (cancel k) m b s f = let (e, t) = cancel-Simulates m b s k in (ap flag e, t)
step-Simulates (is_cancel_requested k) m b s f = (
  unfold Memory.is_cancel_requested Backed.is_cancel_requested in
      ap (λ l. flag (contains l k)) (sym s.same_cancels),
  s,
)
step-Simulates (list_runs limit statuses t) m b s f =
    let (e, u) = list_runs-Simulates m b s limit statuses t in (ap runs e, u)
step-Simulates (list_steps k limit types) m b s f =
    (ap steps (list_steps-Simulates m b s k limit types), s)
