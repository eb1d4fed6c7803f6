-- ===== src/Ingest/Drained.antt =====
-- The worker up to its next wait, and the wake event.
use mathlib.Core.List.{Perm}
use mathlib.Core.List.Perm
use aca_bot.Prelude.{
  ℕ, zero, suc, ◌≤◌, String, true, false, List, [], ◌∷◌, ◌≡◌, ◌⊎◌, refl, sym, subst, ap, ◌∙◌, arith,
  inl, inr, Bool-cases, if-holds, sort, length, eq_iff, str_eq,
}
use aca_bot.Runs.Records.{contains}
use aca_bot.Texts.{contains-sort, contains_self}
use aca_bot.Ingest.Worker.{
  Ingestor, Pass, waits, processed, by_text, take_out, mark_dirty, taken_first,
  take_next_dirty_thread, go_on, mark_each, worker_pass, pass_on, worker_loop, Event, marked,
  passed, resumed, started, resume, step, run, run_worker,
}

take_out-Perm : (t : String) (xs : List String) → contains xs t ≡ true → Perm (t ∷ take_out t xs) xs
unfolding take_out contains
take_out-Perm t [] h = absurd (ground arith)
take_out-Perm t (x ∷ xs) h = elim (Bool-cases (str_eq x t)) [
  | inl e ↦
      rw e (
        subst (λ (y : String). Perm (t ∷ xs) (y ∷ xs)) (sym ((eq_iff x t).0 e))
          (Perm.refl (t ∷ xs)))
  | inr e ↦
      rw e
        (Perm.trans (Perm.swap x t (take_out t xs)) (Perm.cons x (take_out-Perm t xs (rw e at h))))
]

length-take_out :
    (t : String) (xs : List String)
    → contains xs t ≡ true
    → suc (length (take_out t xs)) ≡ length xs
unfolding take_out contains
length-take_out t [] h = absurd (ground arith)
length-take_out t (x ∷ xs) h = elim (Bool-cases (str_eq x t)) [
  | inl e ↦ rw e refl
  | inr e ↦ rw e (ap suc (length-take_out t xs (rw e at h)))
]

contains-empty : (x : String) → contains [] x ≡ false
unfolding contains
contains-empty x = refl

-- The empty list is sorted from the empty one only.
sort-empty : (xs : List String) → sort by_text xs ≡ [] → xs ≡ []
sort-empty [] h = refl
sort-empty (x ∷ xs) h =
    let q : contains (sort by_text (x ∷ xs)) x ≡ true =
      contains-sort by_text x (x ∷ xs) ∙ contains_self x xs in
    let r : contains (sort by_text (x ∷ xs)) x ≡ false =
      ap (λ (l : List String). contains l x) h ∙ contains-empty x in
    absurd (ground arith)

-- The first of the sorted list is in the list.
contains-first :
    (t : String) (ts xs : List String) → sort by_text xs ≡ t ∷ ts → contains xs t ≡ true
contains-first t ts xs h =
    sym (contains-sort by_text t xs) ∙ ap (λ (l : List String). contains l t) h ∙ contains_self t ts

List-cases : (xs : List String) → (xs ≡ []) ⊎ ((t : String) × (ts : List String) × (xs ≡ t ∷ ts))
List-cases [] = inl refl
List-cases (t ∷ ts) = inr (t, ts, refl)

module _ {W : Type 0} (process : String → W → W) where
  worker_pass-none :
      (marks : List String) (s : Ingestor W)
      → s.stopping ≡ false
      → sort by_text s.dirty_threads ≡ []
      → worker_pass process marks s ≡ (waits, record s { wake = false; waiting = true })
  unfolding worker_pass take_next_dirty_thread taken_first go_on
  worker_pass-none marks s stop e = rw (stop, e) refl

  worker_pass-some :
      (marks : List String) (s : Ingestor W) (t : String) (ts : List String)
      → s.stopping ≡ false
      → sort by_text s.dirty_threads ≡ t ∷ ts
      → worker_pass process marks s ≡ (
        processed t,
        mark_each marks
            (record s { dirty_threads = take_out t s.dirty_threads; world = process t s.world }),
      )
  unfolding worker_pass take_next_dirty_thread taken_first go_on
  worker_pass-some marks s t ts stop e = rw (stop, e) refl

  -- All threads that were dirty are processed, each once, none is left, and the worker waits.
  abbrev pub IsDrained : Ingestor W → List String × Ingestor W → Type 0
  IsDrained s r = Perm r.0 s.dirty_threads × (r.1.dirty_threads ≡ []) × (r.1.waiting ≡ true)

  abbrev passed_on : (fuel : ℕ) → Pass × Ingestor W → List String × Ingestor W
  passed_on fuel q = pass_on process q.0 q.1 (worker_loop process fuel q.1)

  worker_loop-IsDrained :
      (fuel : ℕ) (s : Ingestor W)
      → s.stopping ≡ false
      → suc (length s.dirty_threads) ≤ fuel
      → IsDrained s (worker_loop process fuel s)
  unfolding worker_loop
  worker_loop-IsDrained zero s stop en = absurd (omega arith)
  worker_loop-IsDrained (suc fuel) s stop en = elim (List-cases (sort by_text s.dirty_threads)) [
    | inl e ↦
        let empty : s.dirty_threads ≡ [] = sort-empty s.dirty_threads e in
        subst (λ (q : Pass × Ingestor W). IsDrained s (passed_on fuel q))
          (sym (worker_pass-none [] s stop e))
          (subst (λ (l : List String). Perm [] l) (sym empty) (Perm.refl []), empty, refl)
    | inr (t, ts, e) ↦
        let here : contains s.dirty_threads t ≡ true = contains-first t ts s.dirty_threads e in
        let next : Ingestor W = record s {
          dirty_threads = take_out t s.dirty_threads;
          world = process t s.world;
        } in
        let (all, empty, idle) =
          worker_loop-IsDrained fuel next stop
            (omega (arith, length-take_out t s.dirty_threads here)) in
        subst (λ (q : Pass × Ingestor W). IsDrained s (passed_on fuel q))
          (sym (worker_pass-some [] s t ts stop e))
          (Perm.trans (Perm.cons t all) (take_out-Perm t s.dirty_threads here), empty, idle)
  ]

  -- A worker that waits without a wake-up has nothing to do, and nobody stops it.
  abbrev IsAwake : Ingestor W → Type 0
  IsAwake s =
      (s.stopping ≡ false) × ((s.waiting ≡ false) ⊎ (s.wake ≡ true) ⊎ (s.dirty_threads ≡ []))

  mark_dirty-IsAwake : (t : String) (s : Ingestor W) → IsAwake s → IsAwake (mark_dirty t s)
  unfolding mark_dirty
  mark_dirty-IsAwake t s a = (a.0, inr (inl refl))

  mark_each-IsAwake : (ts : List String) (s : Ingestor W) → IsAwake s → IsAwake (mark_each ts s)
  unfolding mark_each
  mark_each-IsAwake [] s a = a
  mark_each-IsAwake (t ∷ ts) s a = mark_each-IsAwake ts (mark_dirty t s) (mark_dirty-IsAwake t s a)

  worker_pass-IsAwake :
      (marks : List String) (s : Ingestor W)
      → IsAwake s
      → s.waiting ≡ false
      → IsAwake (worker_pass process marks s).1
  worker_pass-IsAwake marks s a w = elim (List-cases (sort by_text s.dirty_threads)) [
    | inl e ↦
        subst (λ (q : Pass × Ingestor W). IsAwake q.1) (sym (worker_pass-none marks s a.0 e))
          (a.0, inr (inr (sort-empty s.dirty_threads e)))
    | inr (t, ts, e) ↦
        subst (λ (q : Pass × Ingestor W). IsAwake q.1) (sym (worker_pass-some marks s t ts a.0 e))
          (mark_each-IsAwake marks
            (record s { dirty_threads = take_out t s.dirty_threads; world = process t s.world })
            (a.0, inl w))
  ]

  step-IsAwake : (e : Event) (s : Ingestor W) → IsAwake s → IsAwake (step process e s)
  unfolding step resume
  step-IsAwake (marked t) s a = mark_dirty-IsAwake t s a
  step-IsAwake (passed marks) s a =
      if-holds IsAwake s.waiting (λ w. a) (λ w. worker_pass-IsAwake marks s a w)
  step-IsAwake resumed s a = if-holds IsAwake s.wake (λ w. (a.0, inl refl)) (λ w. a)

  run-IsAwake : (es : List Event) (s : Ingestor W) → IsAwake s → IsAwake (run process es s)
  unfolding run
  run-IsAwake [] s a = a
  run-IsAwake (e ∷ es) s a = run-IsAwake es (step process e s) (step-IsAwake e s a)

  idle-IsDrained : (s : Ingestor W) → s.dirty_threads ≡ [] → s.waiting ≡ true → IsDrained s ([], s)
  idle-IsDrained s empty w =
      (subst (λ (l : List String). Perm [] l) (sym empty) (Perm.refl []), empty, w)

  nothing_dirty :
      (s : Ingestor W)
      → (s.waiting ≡ false) ⊎ (s.wake ≡ true) ⊎ (s.dirty_threads ≡ [])
      → s.waiting ≡ true
      → s.wake ≡ false
      → s.dirty_threads ≡ []
  nothing_dirty s (inl h) w k = absurd (ground arith)
  nothing_dirty s (inr (inl h)) w k = absurd (ground arith)
  nothing_dirty s (inr (inr h)) w k = h

  run_worker-IsDrained :
      (s : Ingestor W)
      → IsAwake s
      → IsDrained s (run_worker process (suc (length s.dirty_threads)) (resume s))
  unfolding run_worker resume
  run_worker-IsDrained s (stop, a) =
      let fuel = suc (length s.dirty_threads) in
      if-holds (λ (t : Ingestor W). IsDrained s (run_worker process fuel t)) s.wake
        (λ w. worker_loop-IsDrained fuel (record s { waiting = false }) stop (omega arith))
        (λ w.
          if-holds (IsDrained s) s.waiting (λ i. idle-IsDrained s (nothing_dirty s a i w) i)
            (λ i. worker_loop-IsDrained fuel s stop (omega arith)))

  -- Whatever marks, passes and wake-ups came since the worker started, its next passes up to a
  -- wait, without marks meanwhile, process every thread that is dirty, each once, and leave none:
  -- no mark is ever lost, and one pass more than there are dirty threads is enough.
  pub run_worker-run :
      (es : List Event) (w : W)
      → let s = run process es (started w) in
        IsDrained s (run_worker process (suc (length s.dirty_threads)) (resume s))
  run_worker-run es w =
      run_worker-IsDrained (run process es (started w))
        (run-IsAwake es (started w) (refl, inl refl))
