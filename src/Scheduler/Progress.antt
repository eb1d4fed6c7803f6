-- ===== src/Scheduler/Progress.antt =====
-- How many rounds the worker's loop makes between two waits.
use aca_bot.Prelude.{
  ℕ, zero, suc, ◌≤◌, ◌<◌, String, ◌≡◌, refl, sym, ap, Bool, true, false, ◌||◌, Option, none, some,
  List, [], ◌∷◌, arith, if◌then◌else◌, lookup, lookup-insert_inv, subst, Option-cases, inl, inr,
  length, leb, ltb, if-holds, ◌∙◌,
}
use aca_bot.Scheduler.Contracts.{Schedule, cron, interval, one_shot}
use aca_bot.Scheduler.Engine.{
  Croniter, HeapEntry, TaskRecord, Scheduler, heappush, compute_next_fire,
}
use aca_bot.Scheduler.Worker.{
  Round, fire_task, reschedule, fire_entry, round_at, worker_round, run_until_wait, waits,
}
use aca_bot.Scheduler.Preservation.{fresh}

-- The entries that a round at `now` would pop.
stale : ℕ → HeapEntry → Bool
stale now e = e.cancelled || leb e.fire_at now

backlog : ℕ → List HeapEntry → ℕ
unfolding stale
backlog now [] = 0
backlog now (e ∷ heap) = if stale now e then suc (backlog now heap) else backlog now heap

backlog-le-length : (now : ℕ) (heap : List HeapEntry) → backlog now heap ≤ length heap
unfolding backlog
backlog-le-length now [] = omega arith
backlog-le-length now (e ∷ heap) = ground (arith, backlog-le-length now heap)

-- An entry for a later time is no backlog.
backlog-heappush :
    (now : ℕ) (k : String) (n t : ℕ) (heap : List HeapEntry)
    → now < t
    → backlog now (heappush (fresh k n t) heap) ≡ backlog now heap
unfolding backlog heappush
backlog-heappush now k n t [] h = ground arith
backlog-heappush now k n t (e ∷ heap) h = ground (arith, backlog-heappush now k n t heap)

-- `register` accepts no other interval.
abbrev pub IsPositive : Schedule → Type 0
IsPositive (cron expr) = Unit
IsPositive (interval seconds) = 0 < seconds
IsPositive (one_shot fire_at) = Unit

abbrev pub ArePositive : Scheduler → Type 0
ArePositive s =
    (tid : String) (r : TaskRecord) → lookup tid s.tasks ≡ some r → IsPositive r.schedule

heap-fire_task : (r : TaskRecord) (s : Scheduler) → (fire_task r s).heap ≡ s.heap
unfolding fire_task
heap-fire_task r s = ground arith

pub tasks-fire_task : (r : TaskRecord) (s : Scheduler) → (fire_task r s).tasks ≡ s.tasks
unfolding fire_task
tasks-fire_task r s = ground arith

module _ (croniter : Croniter) (now : ℕ) where
  next-after :
      (schedule : Schedule) (t : ℕ)
      → IsPositive schedule
      → compute_next_fire croniter schedule now ≡ some t
      → now < t
  unfolding compute_next_fire
  next-after (cron expr) t h e = ground (arith, croniter.get_next_after expr now)
  next-after (interval seconds) t h e = ground arith
  next-after (one_shot fire_at) t h e = cc

  backlog-reschedule :
      (r : TaskRecord) (next : Option ℕ) (s : Scheduler)
      → ((t : ℕ) → next ≡ some t → now < t)
      → backlog now (reschedule r next now now s).heap ≡ backlog now s.heap
  unfolding reschedule
  backlog-reschedule r (some t) s h =
      backlog-heappush now r.task_id s.next_serial t s.heap (h t refl)
  backlog-reschedule r none s h = refl

  backlog-fire_entry :
      (e : HeapEntry) (s : Scheduler)
      → ArePositive s
      → backlog now (fire_entry croniter e now now s).1.heap ≡ backlog now s.heap
  unfolding fire_entry
  backlog-fire_entry e s p = elim (Option-cases (lookup e.task_id s.tasks)) [
    | inl x ↦ rw (x, fire_entry)
    | inr (r, x) ↦
        rw (x, fire_entry)
          (if-holds (λ (o : Round × Scheduler). backlog now o.1.heap ≡ backlog now s.heap) r.enabled
            (λ _.
              backlog-reschedule r (compute_next_fire croniter r.schedule now) (fire_task r s)
                (λ t. next-after r.schedule t (p e.task_id r x))
              ∙ ap (backlog now) (heap-fire_task r s))
            (λ _. refl))
  ]

  backlog-stale :
      (e : HeapEntry) (rest : List HeapEntry)
      → stale now e ≡ true
      → backlog now (e ∷ rest) ≡ suc (backlog now rest)
  unfolding backlog
  backlog-stale e rest h = rw (h, backlog)

  -- A round that does not wait takes one entry off the backlog.
  abbrev Shrinks : ℕ → Round × Scheduler → Type 0
  Shrinks n (round, s') = waits round ≡ false → suc (backlog now s'.heap) ≡ n

  round_at-backlog :
      (heap : List HeapEntry) (s : Scheduler)
      → ArePositive s
      → Shrinks (backlog now heap) (round_at croniter heap now now now s)
  unfolding round_at stale
  round_at-backlog [] s p = λ w. cc
  round_at-backlog (e ∷ rest) s p =
      if-holds (Shrinks (backlog now (e ∷ rest))) e.cancelled
        (λ x w. sym (backlog-stale e rest (rw x)))
        λ x.
          if-holds (Shrinks (backlog now (e ∷ rest))) (ltb now e.fire_at) (λ _ w. cc)
            λ due w.
              ap suc (backlog-fire_entry e (record s { heap = rest }) p)
              ∙ sym (backlog-stale e rest (ground arith))

  reschedule-ArePositive :
      (r : TaskRecord) (next : Option ℕ) (s : Scheduler)
      → IsPositive r.schedule
      → ArePositive s
      → ArePositive (reschedule r next now now s)
  unfolding reschedule
  reschedule-ArePositive r (some t) s own p tid q found =
      elim (lookup-insert_inv r.task_id tid _ q s.tasks found) [
        | inl e ↦ subst (λ (x : TaskRecord). IsPositive x.schedule) (sym e) own
        | inr h ↦ p tid q h
      ]
  reschedule-ArePositive r none s own p tid q found =
      elim (lookup-insert_inv r.task_id tid _ q s.tasks found) [
        | inl e ↦ subst (λ (x : TaskRecord). IsPositive x.schedule) (sym e) own
        | inr h ↦ p tid q h
      ]

  abbrev Positively : Round × Scheduler → Type 0
  Positively (round, s') = ArePositive s'

  fire_entry-ArePositive :
      (e : HeapEntry) (s : Scheduler) → ArePositive s → Positively (fire_entry croniter e now now s)
  unfolding fire_entry
  fire_entry-ArePositive e s p = elim (Option-cases (lookup e.task_id s.tasks)) [
    | inl x ↦ rw (x, fire_entry) p
    | inr (r, x) ↦
        rw (x, fire_entry)
          (if-holds Positively r.enabled
            (λ _.
              reschedule-ArePositive r (compute_next_fire croniter r.schedule now) (fire_task r s)
                (p e.task_id r x)
                (subst
                  (λ m.
                    (tid : String) (q : TaskRecord) → lookup tid m ≡ some q → IsPositive q.schedule)
                  (sym (tasks-fire_task r s)) p))
            (λ _. p))
  ]

  round_at-ArePositive :
      (heap : List HeapEntry) (s : Scheduler)
      → ArePositive s
      → Positively (round_at croniter heap now now now s)
  unfolding round_at
  round_at-ArePositive [] s p = p
  round_at-ArePositive (e ∷ rest) s p =
      if-holds Positively e.cancelled (λ _. p)
        λ _.
          if-holds Positively (ltb now e.fire_at) (λ _. p)
            (λ _. fire_entry-ArePositive e (record s { heap = rest }) p)

  -- The outcome of a run that reached a wait.
  abbrev Waited : Option (Round × Scheduler) → Type 0
  Waited none = ⊥
  Waited (some (round, s')) = (waits round ≡ true) × ArePositive s'

  run_until_wait_lem :
      (fuel : ℕ) (s : Scheduler)
      → ArePositive s
      → backlog now s.heap < fuel
      → Waited (run_until_wait croniter fuel now s)
  unfolding run_until_wait
  run_until_wait_lem zero s p h = absurd (omega arith)
  run_until_wait_lem (suc fuel) s p h =
      let after = worker_round croniter now now now s in
      let p' : ArePositive after.1 = unfold worker_round in round_at-ArePositive s.heap s p in
      if-holds Waited (waits after.0) (λ w. (w, p'))
        λ w. run_until_wait_lem fuel after.1 p' (
          let one : suc (backlog now after.1.heap) ≡ backlog now s.heap =
            unfold worker_round in round_at-backlog s.heap s p w in
          omega arith)

  -- If every interval is positive, the loop reaches a wait after at most as many rounds as the heap
  -- has entries, and one more, on a clock that stands still meanwhile: it does not spin.
  pub run_until_wait-total :
      (s : Scheduler)
      → ArePositive s
      → (round : Round) × (s' : Scheduler) × (run_until_wait croniter (suc (length s.heap)) now s
          ≡ some (round, s'))
        × (waits round ≡ true)
  run_until_wait-total s p =
      waited (run_until_wait croniter (suc (length s.heap)) now s)
        (run_until_wait_lem (suc (length s.heap)) s p (omega (arith, backlog-le-length now s.heap)))
    where
      waited :
          (o : Option (Round × Scheduler))
          → Waited o
          → (round : Round) × (s' : Scheduler) × (o ≡ some (round, s')) × (waits round ≡ true)
      waited none w = absurd w
      waited (some (round, s')) w = (round, s', refl, w.0)
