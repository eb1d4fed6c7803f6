-- ===== src/Scheduler/Timing.antt =====
-- When the worker fires a task, and how long it sleeps.
use aca_bot.Prelude.{
  ℕ, ◌+◌, ◌-◌, ◌≤◌, ◌<◌, String, ◌≡◌, refl, ap, true, false, Option, none, some, List, [], ◌∷◌,
  arith, str_eq, lookup, lookup-insert_self, Bool-cases, Option-cases, inl, inr, is_some, ◌∙◌, All,
  ltb, if-holds,
}
use aca_bot.Scheduler.Engine.{
  Croniter, HeapEntry, TaskRecord, Scheduler, earlier, compute_next_fire,
}
use aca_bot.Scheduler.Worker.{
  Round, wait_event, wait_delay, dropped, fired, reschedule, fire_entry, round_at, worker_round,
}
use aca_bot.Scheduler.Heap.{live, queued}
use aca_bot.Scheduler.Consistency.{IsConsistent, IsFlagged}
use aca_bot.Scheduler.Rounds.{front_record, front_enabled, front_key}

live-ge :
    (tid : String) (n t d : ℕ) (heap : List HeapEntry)
    → All (λ (e : HeapEntry). d ≤ e.fire_at) heap
    → live tid heap ≡ (n, t) ∷ []
    → d ≤ t
unfolding live
live-ge tid n t d [] a h = ground arith
live-ge tid n t d (e ∷ heap) a h = elim (Bool-cases e.cancelled) [
  | inl x ↦ live-ge tid n t d heap a.1 (ground arith)
  | inr x ↦ elim (Bool-cases (str_eq e.task_id tid)) [
    | inl y ↦ ground arith
    | inr y ↦ live-ge tid n t d heap a.1 (ground arith)
  ]
]

All-le :
    (e : HeapEntry) (d : ℕ) (heap : List HeapEntry)
    → d ≤ e.fire_at
    → All (λ y. earlier e y ≡ true) heap
    → All (λ (y : HeapEntry). d ≤ y.fire_at) heap
All-le e d [] h a = tt
All-le e d (y ∷ heap) h a = (ground arith, All-le e d heap h a.1)

-- The live entry of an enabled task.
live_enabled :
    (s : Scheduler) (tid : String) (r : TaskRecord)
    → IsConsistent s
    → lookup tid s.tasks ≡ some r
    → r.enabled ≡ true
    → (n : ℕ) × (t : ℕ) × (r.next_fire_at ≡ some t) × (live tid s.heap ≡ (n, t) ∷ [])
unfolding queued
live_enabled s tid r c found on =
    let f : IsFlagged tid (some r) = rw found at (c.flagged tid) in
    let l : live tid s.heap ≡ queued (some r) = c.live_queued tid ∙ ap queued found in
    elim (Option-cases r.heap_entry) [
      | inl e ↦ absurd (ground (arith, f.1))
      | inr (n, e) ↦ elim (Option-cases r.next_fire_at) [
        | inl q ↦ absurd (ground (arith, f.2))
        | inr (t, q) ↦ (n, t, q, ground arith)
      ]
    ]

-- What a round promises about the tasks of the state that it began with.
abbrev pub Promise : ℕ → Scheduler → Round → Type 0
Promise now s wait_event =
    (tid : String) (r : TaskRecord) → lookup tid s.tasks ≡ some r → r.enabled ≡ false
Promise now s (wait_delay d) =
    (0 < d)
    × ((tid : String) (r : TaskRecord)
        → lookup tid s.tasks ≡ some r
        → r.enabled ≡ true
        → (t : ℕ) × (r.next_fire_at ≡ some t) × (now + d ≤ t))
Promise now s dropped = Unit
Promise now s (fired tid) =
    (r : TaskRecord) × (lookup tid s.tasks ≡ some r)
    × (r.enabled ≡ true)
    × ((t : ℕ) × (r.next_fire_at ≡ some t) × (t ≤ now))

module _ (croniter : Croniter) (now fired_at stored : ℕ) (s : Scheduler) (c : IsConsistent s) where
  wait_event-Promise : s.heap ≡ [] → Promise now s wait_event
  unfolding live
  wait_event-Promise e tid r found = elim (Bool-cases r.enabled) [
    | inl on ↦
        let (n, t, q, l) = live_enabled s tid r c found on in
        absurd (let p : live tid [] ≡ (n, t) ∷ [] = rw e at l in ground arith)
    | inr off ↦ off
  ]

  wait_delay-Promise :
      (e : HeapEntry) (rest : List HeapEntry)
      → s.heap ≡ e ∷ rest
      → ltb now e.fire_at ≡ true
      → Promise now s (wait_delay (e.fire_at - now))
  wait_delay-Promise e rest front h = (
    ground arith,
    λ tid r found on.
        let (n, t, q, l) = live_enabled s tid r c found on in
        let sorted = rw front at c.sorted in
        let le : e.fire_at ≤ t =
          live-ge tid n t e.fire_at (e ∷ rest)
            (omega arith, All-le e e.fire_at rest (omega arith) sorted.0) (rw front at l) in
        (t, q, ground arith),
  )

  fired-Promise :
      (e : HeapEntry) (rest : List HeapEntry)
      → s.heap ≡ e ∷ rest
      → e.cancelled ≡ false
      → ltb now e.fire_at ≡ false
      → Promise now s (fire_entry croniter e fired_at stored (record s { heap = rest })).0
  unfolding fire_entry
  fired-Promise e rest front x due =
      let (r, found, entry, next, alone) = front_record e rest s front c x in
      let on : r.enabled ≡ true = front_enabled e rest s front c x in
      let key : r.task_id ≡ e.task_id = front_key e rest s front c x in
      rw (found, on, fire_entry) (r, rw key found, on, (e.fire_at, next, ground arith))

  round_at-Promise :
      (heap : List HeapEntry)
      → s.heap ≡ heap
      → Promise now s (round_at croniter heap now fired_at stored s).0
  unfolding round_at
  round_at-Promise [] e = wait_event-Promise e
  round_at-Promise (e ∷ rest) front =
      if-holds (λ (p : Round × Scheduler). Promise now s p.0) e.cancelled (λ _. tt)
        λ x.
          if-holds (λ (p : Round × Scheduler). Promise now s p.0) (ltb now e.fire_at)
            (wait_delay-Promise e rest front) (fired-Promise e rest front x)

  -- In a consistent state a round of the worker fires a task only if its record is there, enabled
  -- and due. A wait for the event means that no task is enabled, and a wait with a delay is
  -- positive and ends no later than the time of any enabled task.
  pub worker_round-Promise : Promise now s (worker_round croniter now fired_at stored s).0
  unfolding worker_round
  worker_round-Promise = round_at-Promise s.heap refl

-- What the record of a fired task is afterwards.
abbrev pub Rescheduled : Croniter → ℕ → TaskRecord → Option TaskRecord → Type 0
Rescheduled croniter fired_at r none = ⊥
Rescheduled croniter fired_at r (some r') =
    (r'.next_fire_at ≡ compute_next_fire croniter r.schedule fired_at)
    × (r'.enabled ≡ is_some (compute_next_fire croniter r.schedule fired_at))
    × (r'.last_fired_at ≡ some fired_at)

module _ (croniter : Croniter) (now fired_at stored : ℕ) where
  reschedule_lem :
      (r : TaskRecord) (next : Option ℕ) (s : Scheduler)
      → r.enabled ≡ true
      → next ≡ compute_next_fire croniter r.schedule fired_at
      → Rescheduled croniter fired_at r
          (lookup r.task_id (reschedule r next fired_at stored s).tasks)
  unfolding reschedule
  reschedule_lem r (some t) s on e = rw lookup-insert_self (e, on ∙ ap is_some e, refl)
  reschedule_lem r none s on e = rw lookup-insert_self (e, ap is_some e, refl)

  -- What a round leaves of a task that it fired.
  abbrev pub Leaves : Scheduler → Round × Scheduler → Type 0
  Leaves s (fired tid, s') =
      (r : TaskRecord)
      → lookup tid s.tasks ≡ some r
      → Rescheduled croniter fired_at r (lookup tid s'.tasks)
  Leaves s (wait_event, s') = s'.tasks ≡ s.tasks
  Leaves s (wait_delay d, s') = s'.tasks ≡ s.tasks
  Leaves s (dropped, s') = s'.tasks ≡ s.tasks

  module _ (s : Scheduler) (c : IsConsistent s) where
    fire_entry-Leaves :
        (e : HeapEntry) (rest : List HeapEntry)
        → s.heap ≡ e ∷ rest
        → e.cancelled ≡ false
        → Leaves s (fire_entry croniter e fired_at stored (record s { heap = rest }))
    unfolding fire_entry
    fire_entry-Leaves e rest front x =
        let (r, found, entry, next, alone) = front_record e rest s front c x in
        let on : r.enabled ≡ true = front_enabled e rest s front c x in
        let key : r.task_id ≡ e.task_id = front_key e rest s front c x in
        rw (found, on, fire_entry)
          λ q same.
            let there : lookup r.task_id s.tasks ≡ some r = rw key found in
            let same_record : q ≡ r = cc (same, there) in
            rw same_record (reschedule_lem r _ _ on refl)

    round_at-Leaves :
        (heap : List HeapEntry)
        → s.heap ≡ heap
        → Leaves s (round_at croniter heap now fired_at stored s)
    unfolding round_at
    round_at-Leaves [] e = refl
    round_at-Leaves (e ∷ rest) front =
        if-holds (Leaves s) e.cancelled (λ _. refl)
          λ x.
            if-holds (Leaves s) (ltb now e.fire_at) (λ _. refl)
              (λ _. fire_entry-Leaves e rest front x)

    -- In a consistent state a fired task gets the next time of its schedule and stays enabled, if
    -- there is one, and is disabled with no time if there is none, as after a one-shot; the firing
    -- time is recorded. A round that fires nothing leaves the task table as it is.
    pub worker_round-Leaves : Leaves s (worker_round croniter now fired_at stored s)
    unfolding worker_round
    worker_round-Leaves = round_at-Leaves s.heap refl
