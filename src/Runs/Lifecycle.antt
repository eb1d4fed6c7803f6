-- ===== src/Runs/Lifecycle.antt =====
-- The life of the runs that the in-memory manager holds, and the numbers of their steps.
use aca_bot.Prelude.{
  ℕ, ◌+◌, ◌≤◌, ◌<◌, max, String, ◌≡◌, refl, sym, Bool, not, some, List, [], ◌∷◌, arith, str_eq,
  if-holds, Dict, lookup, insert, lookup-insert, lookup-insert_inv, is_some, Option-cases,
  Bool-cases, inl, inr, All, All-append,
}
use aca_bot.Errors.{ok}
use aca_bot.Runs.Records.{
  RunStatus, RunRecord, RunStep, Opening, opened, Mark, apply_mark, is_active, Payload,
  waiting_approval, mark_running, mark_waiting_approval, mark_completed, mark_completed_with_errors,
  mark_failed, mark_cancelled, mark_interrupted,
}
use aca_bot.Runs.Memory
use aca_bot.Runs.Memory.{Memory, init, numbered, or_one, or_empty, record_step}
use aca_bot.Runs.Equivalence
use aca_bot.Runs.Equivalence.{Op, memory_step}

-- Only a run that waits for an approval has something to approve.
abbrev pub IsIdle : RunStatus → Payload → Type 0
IsIdle waiting_approval context = Unit
IsIdle _ context = context ≡ []

-- A run has an end just if it is not active.
pub record IsSettled (run : RunRecord) : Type 0 where
  pub ended : is_some run.finished_at ≡ not (is_active run.status)
  pub idle : IsIdle run.status run.approval_context

apply_mark-IsSettled : (k : Mark) (run : RunRecord) → IsSettled (apply_mark k run)
unfolding apply_mark is_active
apply_mark-IsSettled mark_running run = record { ended = refl; idle = refl }
apply_mark-IsSettled (mark_waiting_approval reason context) run = record { ended = refl; idle = tt }
apply_mark-IsSettled (mark_completed now) run = record { ended = refl; idle = refl }
apply_mark-IsSettled (mark_completed_with_errors summary now) run = record {
  ended = refl;
  idle = refl;
}
apply_mark-IsSettled (mark_failed error now) run = record { ended = refl; idle = refl }
apply_mark-IsSettled (mark_cancelled reason now) run = record { ended = refl; idle = refl }
apply_mark-IsSettled (mark_interrupted reason now) run = record { ended = refl; idle = refl }

opened-IsSettled : (o : Opening) (run_id : String) → IsSettled (opened o run_id)
unfolding opened is_active
opened-IsSettled o run_id = record { ended = refl; idle = refl }

-- Every run is settled, and no step of a run has a number from the next one on.
pub record IsSound (m : Memory) : Type 0 where
  pub settled : (k : String) (run : RunRecord) → lookup k m.runs ≡ some run → IsSettled run
  pub numbers :
      (k : String)
      → All
          (λ (s : RunStep). s.step_seq < or_one (lookup k m.next_step_seq))
          (or_empty (lookup k m.steps))

stored :
    (runs : Dict RunRecord) (k : String) (run : RunRecord)
    → IsSettled run
    → ((j : String) (r : RunRecord) → lookup j runs ≡ some r → IsSettled r)
    → (j : String) (r : RunRecord) → lookup j (insert k run runs) ≡ some r
    → IsSettled r
stored runs k run s all j r h = elim (lookup-insert_inv k j run r runs h) [
  | inl e ↦ rw e s
  | inr e ↦ all j r e
]

higher :
    (n m : ℕ) (steps : List RunStep)
    → n ≤ m
    → All (λ (s : RunStep). s.step_seq < n) steps
    → All (λ (s : RunStep). s.step_seq < m) steps
higher n m [] h a = tt
higher n m (s ∷ steps) h a = (omega (arith, a.0), higher n m steps h a.1)

module _ (m : Memory) (i : IsSound m) where
  open_run-IsSound : (o : Opening) (k : String) → IsSound (Memory.open_run o k m)
  unfolding Memory.open_run
  open_run-IsSound o k = record {
    settled = stored m.runs k (opened o k) (opened-IsSettled o k) i.settled;
    numbers = λ j. elim (Bool-cases (str_eq k j)) [
      | inl e ↦ rw lookup-insert (rw (lookup-insert, e) tt)
      | inr e ↦ rw lookup-insert (rw (lookup-insert, e) (i.numbers j))
    ];
  }

  mark-IsSound : (k : String) (mk : Mark) → IsSound (Memory.mark k mk m).1
  unfolding Memory.mark
  mark-IsSound k mk = elim (Option-cases (lookup k m.runs)) [
    | inl e ↦ rw (e, Memory.mark) i
    | inr (run, e) ↦
        rw (e, Memory.mark)
          (record {
            settled = stored m.runs k (apply_mark mk run) (apply_mark-IsSettled mk run) i.settled;
            numbers = i.numbers;
          })
  ]

  record_step-IsSound : (s : RunStep) → IsSound (record_step s m)
  record_step-IsSound s = record {
    settled = i.settled;
    numbers = λ j. elim (Bool-cases (str_eq s.run_id j)) [
      | inl e ↦
          let below : ℕ → List RunStep → Type 0 =
            λ n steps. All (λ (x : RunStep). x.step_seq < n) steps in
          let n = or_one (lookup s.run_id m.next_step_seq) in
          rw lookup-insert (
            rw (lookup-insert, e)
              (All-append _ (or_empty (lookup s.run_id m.steps)) (s ∷ [])
                (higher n (max n (s.step_seq + 1)) _ (omega arith) (i.numbers s.run_id))
                (omega arith, tt)))
      | inr e ↦ rw lookup-insert (rw (lookup-insert, e) (i.numbers j))
    ];
  }

  append_step-IsSound : (step : RunStep) → IsSound (Memory.append_step step m).1
  unfolding Memory.append_step
  append_step-IsSound step = elim (Option-cases (lookup step.run_id m.runs)) [
    | inl e ↦ rw (e, Memory.append_step) i
    | inr (run, e) ↦
        rw (e, Memory.append_step)
          (record_step-IsSound (numbered step (or_one (lookup step.run_id m.next_step_seq))))
  ]

  cancel-IsSound : (k : String) → IsSound (Memory.cancel k m).1
  unfolding Memory.cancel
  cancel-IsSound k =
      if-holds (λ (r : Bool × Memory). IsSound r.1) (is_some (lookup k m.runs))
        (λ _. record { settled = i.settled; numbers = i.numbers }) (λ _. i)

  -- In a sound state a step that gets its number from the manager gets one above those of all steps of its run.
  pub append_step-number :
      (step : RunStep) (n : ℕ)
      → step.step_seq ≡ 0
      → (Memory.append_step step m).0 ≡ ok n
      → All (λ (s : RunStep). s.step_seq < n) (or_empty (lookup step.run_id m.steps))
  unfolding Memory.append_step numbered
  append_step-number step n z h = elim (Option-cases (lookup step.run_id m.runs)) [
    | inl e ↦ absurd (let h' = (rw (e, Memory.append_step) at h) in ground arith)
    | inr (run, e) ↦
        let h' : ok (numbered step (or_one (lookup step.run_id m.next_step_seq))).step_seq ≡ ok n =
          (rw (e, Memory.append_step) at h) in
        let h'' : ok (or_one (lookup step.run_id m.next_step_seq)) ≡ ok n = (rw z at h') in
        let same : or_one (lookup step.run_id m.next_step_seq) ≡ n = cc h'' in
        rw (sym same) (i.numbers step.run_id)
  ]

unfoldable pub after : List Op → Memory → Memory
after [] m = m
after (op ∷ ops) m = after ops (memory_step op m).1

step-IsSound : (op : Op) (m : Memory) → IsSound m → IsSound (memory_step op m).1
step-IsSound (Equivalence.open_run o k) m i = open_run-IsSound m i o k
step-IsSound (Equivalence.mark k mk) m i = mark-IsSound m i k mk
step-IsSound (Equivalence.append_step s) m i = append_step-IsSound m i s
step-IsSound (Equivalence.cancel k) m i = cancel-IsSound m i k
step-IsSound (Equivalence.get k) m i = i
step-IsSound (Equivalence.is_cancel_requested k) m i = i
step-IsSound (Equivalence.list_runs limit statuses t) m i = i
step-IsSound (Equivalence.list_steps k limit types) m i = i

pub after-IsSound : (ops : List Op) (m : Memory) → IsSound m → IsSound (after ops m)
unfolding after
after-IsSound [] m i = i
after-IsSound (op ∷ ops) m i = after-IsSound ops (memory_step op m).1 (step-IsSound op m i)

init-IsSound : IsSound init
unfolding lookup
init-IsSound = record { settled = λ k run h. absurd (ground arith); numbers = λ k. tt }

-- Whatever is called, every run of the in-memory manager has an end just if its status is no active
-- one, has something to approve only while it waits for an approval, and has no step with a number
-- that is still to be given.
pub after-init-IsSound : (ops : List Op) → IsSound (after ops init)
after-init-IsSound ops = after-IsSound ops init init-IsSound
