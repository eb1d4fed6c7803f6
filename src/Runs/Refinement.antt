-- ===== src/Runs/Refinement.antt =====
-- The calls of the two run managers, one by one, on states that stand for each other.
use aca_bot.Prelude.{
  suc, ◌+◌, max, String, ◌≡◌, refl, sym, ap, none, some, [], ◌∷◌, ◌++◌, arith, eq_iff, Dict, lookup,
  insert, lookup-insert, ◌∙◌, Option-cases, inl, inr, insert-IsDistinct,
}
use aca_bot.Errors.{ok}
use aca_bot.Runs.Records.{RunRecord, RunStep, Opening, opened, Mark, apply_mark}
use aca_bot.Runs.Memory
use aca_bot.Runs.Memory.{Memory, wanted, of_type, numbered, or_one, or_empty}
use aca_bot.Runs.Store
use aca_bot.Runs.Store.{RunStore, max_seq}
use aca_bot.Runs.Backed
use aca_bot.Runs.Backed.{Backed, cache_all}
use aca_bot.Runs.Simulation.{
  IsCached, Simulates, get_absent, get_present, run_id-apply_mark, rows_of-append, max_seq-append,
}

module _ (m : Memory) (b : Backed) (s : Simulates m b) where
  -- A change of the cache alone.
  pub recached :
      (cache : Dict RunRecord)
      → IsCached cache b.store.runs
      → Simulates m (record b { runs = cache })
  recached cache c = record {
    same_runs = s.same_runs;
    cached = c;
    distinct = s.distinct;
    keyed = s.keyed;
    same_cancels = s.same_cancels;
    same_steps = s.same_steps;
    same_numbers = s.same_numbers;
    unused = s.unused;
  }

  -- `get` returns the same record, or nothing in both.
  pub get-Simulates :
      (k : String) → ((Backed.get k b).0 ≡ Memory.get k m) × Simulates m (Backed.get k b).1
  unfolding Memory.get
  get-Simulates k = elim (Option-cases (lookup k b.store.runs)) [
    | inl h ↦ rw (get_absent k b s.cached h) (rw s.same_runs (sym h), s)
    | inr (run, h) ↦
        let (cache, c, e) = get_present k b run s.cached h in
        rw e (rw s.same_runs (sym h), recached cache c)
  ]

  mark_run :
      (k : String) (run run' : RunRecord) (cache : Dict RunRecord)
      → lookup k b.store.runs ≡ some run
      → run'.run_id ≡ k
      → IsCached cache b.store.runs
      → Simulates
          (record m { runs = insert k run' m.runs })
          (record b {
            runs = insert k run' cache;
            store = record b.store { runs = insert k run' b.store.runs };
          })
  mark_run k run run' cache found key c = record {
    same_runs = ap (insert k run') s.same_runs;
    cached = λ i r h.
        ground (arith, lookup-insert k i run' cache, lookup-insert k i run' b.store.runs, c i r);
    distinct = insert-IsDistinct k run' b.store.runs s.distinct;
    keyed = λ i r h. ground (arith, lookup-insert k i run' b.store.runs, eq_iff k i, s.keyed i r);
    same_cancels = s.same_cancels;
    same_steps = s.same_steps;
    same_numbers = s.same_numbers;
    unused = λ i h. s.unused i (ground (arith, lookup-insert k i run' b.store.runs));
  }

  -- A `mark_…` method succeeds or fails alike.
  pub mark-Simulates :
      (k : String) (mk : Mark)
      → ((Backed.mark k mk b).0 ≡ (Memory.mark k mk m).0)
        × Simulates (Memory.mark k mk m).1 (Backed.mark k mk b).1
  unfolding Memory.mark Backed.mark Store.update_run apply_mark
  mark-Simulates k mk = elim (Option-cases (lookup k b.store.runs)) [
    | inl h ↦
        let h' : lookup k m.runs ≡ none = rw s.same_runs h in
        rw (h', get_absent k b s.cached h, Memory.mark, Backed.mark) (refl, s)
    | inr (run, h) ↦
        let (cache, c, e) = get_present k b run s.cached h in
        let h' : lookup k m.runs ≡ some run = rw s.same_runs h in
        let key : (apply_mark mk run).run_id ≡ k = run_id-apply_mark mk run ∙ s.keyed k run h in
        rw (h', e, Memory.mark, Backed.mark)
          (refl, rw (key, h) (mark_run k run (apply_mark mk run) cache h key c))
  ]

  pub requested :
      (k : String)
      → Simulates
          (record m { cancel_requested = k ∷ m.cancel_requested })
          (record b { cancel_requested = k ∷ b.cancel_requested })
  requested k = record {
    same_runs = s.same_runs;
    cached = s.cached;
    distinct = s.distinct;
    keyed = s.keyed;
    same_cancels = ap (◌∷◌ k) s.same_cancels;
    same_steps = s.same_steps;
    same_numbers = s.same_numbers;
    unused = s.unused;
  }

  pub open_run-Simulates :
      (o : Opening) (k : String)
      → lookup k b.store.runs ≡ none
      → ((Backed.open_run o k b).0 ≡ ok tt)
        × Simulates (Memory.open_run o k m) (Backed.open_run o k b).1
  unfolding Memory.open_run Backed.open_run Store.create_run opened
  open_run-Simulates o k fresh =
      let run = opened o k in
      rw (fresh, Backed.open_run)
        (
          refl,
          record {
            same_runs = ap (insert k run) s.same_runs;
            cached = λ i r h. ground (
              arith,
              lookup-insert k i run b.runs,
              lookup-insert k i run b.store.runs,
              s.cached i r,
            );
            distinct = insert-IsDistinct k run b.store.runs s.distinct;
            keyed = λ i r h.
                ground (arith, lookup-insert k i run b.store.runs, eq_iff k i, s.keyed i r);
            same_cancels = s.same_cancels;
            same_steps = λ i.
                ground (
                  arith,
                  lookup-insert k i [] m.steps,
                  eq_iff k i,
                  s.same_steps i,
                  s.unused k fresh,
                );
            same_numbers = λ i. ground (
              arith,
              lookup-insert k i 1 m.next_step_seq,
              eq_iff k i,
              s.same_numbers i,
              s.unused k fresh,
            );
            unused = λ i h. s.unused i (ground (arith, lookup-insert k i run b.store.runs));
          },
        )

  -- The two number a step alike.
  pub same_numbered :
      (step : RunStep)
      → numbered step (max_seq step.run_id b.store.steps + 1)
        ≡ numbered step (or_one (lookup step.run_id m.next_step_seq))
  same_numbered step = ap (numbered step) (
      let e : max_seq step.run_id b.store.steps + 1 ≡ suc (max_seq step.run_id b.store.steps) =
        omega arith in
      e ∙ sym (s.same_numbers step.run_id))

  pub step_recorded :
      (step : RunStep) (run : RunRecord)
      → lookup step.run_id b.store.runs ≡ some run
      → (cache : Dict RunRecord) → IsCached cache b.store.runs
      → Simulates
          (record m {
            next_step_seq =
                insert step.run_id
                  (max (or_one (lookup step.run_id m.next_step_seq)) (step.step_seq + 1))
                  m.next_step_seq;
            steps = insert step.run_id (or_empty (lookup step.run_id m.steps) ++ step ∷ []) m.steps;
          })
          (record b { runs = cache; store = record b.store { steps = b.store.steps ++ step ∷ [] } })
  step_recorded step run found cache c = record {
    same_runs = s.same_runs;
    cached = c;
    distinct = s.distinct;
    keyed = s.keyed;
    same_cancels = s.same_cancels;
    same_steps = λ i.
        rw (rows_of-append i b.store.steps step, lookup-insert)
          (ground (arith, eq_iff step.run_id i, s.same_steps i, s.same_steps step.run_id));
    same_numbers = λ i.
        rw (max_seq-append i b.store.steps step, lookup-insert)
          (ground (arith, eq_iff step.run_id i, s.same_numbers i, s.same_numbers step.run_id));
    unused = λ i h.
        rw (rows_of-append i b.store.steps step, max_seq-append i b.store.steps step)
          (ground (arith, eq_iff step.run_id i, s.unused i h));
  }
