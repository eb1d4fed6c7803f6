-- ===== src/Runs/Latest.antt =====
-- Listing the latest steps of a run with the two run managers.
use aca_bot.Prelude.{
  ℕ, suc, ◌-◌, String, ◌≡◌, refl, sym, ap, true, false, none, some, List, [], arith, keep, sort,
  lookup, length, drop_all, ◌∙◌, ◌==◌,
}
use aca_bot.Runs.Records.{RunStep, by_seq, last_slice, last_rows}
use aca_bot.Runs.Memory
use aca_bot.Runs.Memory.{Memory, of_type, or_empty}
use aca_bot.Runs.Store
use aca_bot.Runs.Backed
use aca_bot.Runs.Backed.{Backed}
use aca_bot.Runs.Simulation.{Simulates, rows_of}

last_slice-suc : (n : ℕ) (xs : List RunStep) → last_slice (suc n) xs ≡ last_rows (suc n) xs
last_slice-suc n xs = let some_rows : (suc n == 0) ≡ false = ground arith in rw some_rows refl

module _ (m : Memory) (b : Backed) (s : Simulates m b) (k : String) (types : List String) where
  -- In states that stand for each other, with `latest`, the two managers list the same steps of a run for every limit but 0.
  pub list_steps-latest :
      (n : ℕ)
      → Backed.list_steps k (some (suc n)) types true b
        ≡ Memory.list_steps k (some (suc n)) types true m
  unfolding Memory.list_steps Backed.list_steps Store.get_run_steps
  list_steps-latest n =
      ap (λ l. last_rows (suc n) (sort by_seq (keep (of_type types) l))) (sym (s.same_steps k))
      ∙ sym (last_slice-suc n (sort by_seq (keep (of_type types) (or_empty (lookup k m.steps)))))

  -- With `latest` and the limit 0 the in-memory manager lists all steps of the run, and the
  -- store-backed one none.
  pub list_steps-latest_zero :
      (Memory.list_steps k (some 0) types true m ≡ Memory.list_steps k none types true m)
      × (Backed.list_steps k (some 0) types true b ≡ [])
  unfolding Memory.list_steps Backed.list_steps Store.get_run_steps
  list_steps-latest_zero =
      let rows = sort by_seq (keep (of_type types) (rows_of k b.store.steps)) in
      (refl, drop_all (length rows - 0) rows (omega arith))
