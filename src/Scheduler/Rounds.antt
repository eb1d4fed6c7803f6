-- ===== src/Scheduler/Rounds.antt =====
-- The worker's rounds and the scheduler's invariant.
use aca_bot.Prelude.{
  ℕ, String, ◌≡◌, refl, sym, ap, true, false, Option, none, some, List, [], ◌∷◌, arith, str_eq,
  eq_refl, lookup, lookup-insert, Option-cases, inl, inr, is_some, ◌∙◌, IsSorted, ltb, if-holds,
}
use aca_bot.Scheduler.Engine.{Croniter, HeapEntry, TaskRecord, Scheduler, Callback, earlier}
use aca_bot.Scheduler.Worker.{Round, fire_task, reschedule, fire_entry, round_at, worker_round}
use aca_bot.Scheduler.Heap.{live, queued, live-heappush_ne, heappush-IsSorted}
use aca_bot.Scheduler.Consistency.{IsConsistent, IsFlagged, IsConsistent-change}
use aca_bot.Scheduler.Preservation.{fresh, live-fresh}

-- The live entry at the front is the one that its task's record names, and the only one.
pub front_entry :
    (e : HeapEntry) (rest : List HeapEntry) (o : Option TaskRecord)
    → e.cancelled ≡ false
    → live e.task_id (e ∷ rest) ≡ queued o
    → (r : TaskRecord) × (o ≡ some r)
      × (r.heap_entry ≡ some e.serial)
      × (r.next_fire_at ≡ some e.fire_at)
      × (live e.task_id rest ≡ [])
unfolding live queued
front_entry e rest none u h = ground (arith, eq_refl e.task_id)
front_entry e rest (some r) u h = (
  r,
  refl,
  ground (arith, eq_refl e.task_id),
  ground (arith, eq_refl e.task_id),
  ground (arith, eq_refl e.task_id),
)

live-tail_ne :
    (e : HeapEntry) (rest : List HeapEntry) (tid : String)
    → str_eq e.task_id tid ≡ false
    → live tid (e ∷ rest) ≡ live tid rest
unfolding live
live-tail_ne e rest tid h = ground arith

module _ (e : HeapEntry) (rest : List HeapEntry) (s : Scheduler) (front : s.heap ≡ e ∷ rest)
    (c : IsConsistent s) where
  IsSorted-rest : IsSorted earlier rest
  IsSorted-rest = (let p : IsSorted earlier (e ∷ rest) = rw front at c.sorted in p.1)

  pop_cancelled-IsConsistent : e.cancelled ≡ true → IsConsistent (record s { heap = rest })
  unfolding live
  pop_cancelled-IsConsistent x = record {
    live_queued = λ tid. ground (arith, c.live_queued tid);
    flagged = c.flagged;
    sorted = IsSorted-rest;
  }

  module _ (r : TaskRecord) (found : lookup e.task_id s.tasks ≡ some r)
      (alone : live e.task_id rest ≡ []) (running : List (String × Callback)) where
    abbrev popped : Scheduler
    popped = record s { heap = rest; running_callbacks = running }

    own_key : r.task_id ≡ e.task_id
    own_key = (let f : IsFlagged e.task_id (some r) = rw found at (c.flagged e.task_id) in f.0)

    kept : (tid : String) → str_eq r.task_id tid ≡ false → live tid rest ≡ live tid s.heap
    kept tid h = rw front (sym (live-tail_ne e rest tid (rw own_key at h)))

    alone_own : live r.task_id rest ≡ []
    alone_own = rw own_key alone

    pub reschedule-IsConsistent :
        (next : Option ℕ) (fired_at stored : ℕ)
        → r.enabled ≡ true
        → IsConsistent (reschedule r next fired_at stored popped)
    reschedule-IsConsistent (some t) fired_at stored on =
        IsConsistent-change r.task_id
          (some (record r {
            last_fired_at = some fired_at;
            updated_at = fired_at;
            next_fire_at = some t;
            heap_entry = some s.next_serial;
          }))
          s (reschedule r (some t) fired_at stored popped)
          (λ tid. unfold reschedule in lookup-insert r.task_id tid _ s.tasks)
          (λ tid h.
            unfold reschedule in
            live-heappush_ne tid (fresh r.task_id s.next_serial t) rest h ∙ kept tid h)
          c (unfold reschedule queued in live-fresh r.task_id s.next_serial t rest alone_own)
          (refl, sym on, sym on)
          (unfold reschedule in
            heappush-IsSorted (fresh r.task_id s.next_serial t) rest IsSorted-rest)
    reschedule-IsConsistent none fired_at stored on =
        IsConsistent-change r.task_id
          (some (record r {
            last_fired_at = some fired_at;
            updated_at = fired_at;
            enabled = false;
            next_fire_at = none;
            heap_entry = none;
          }))
          s (reschedule r none fired_at stored popped)
          (λ tid. unfold reschedule in lookup-insert r.task_id tid _ s.tasks)
          (λ tid h. unfold reschedule in kept tid h) c (unfold reschedule queued in alone_own)
          (refl, refl, refl) (unfold reschedule in IsSorted-rest)

  module _ (x : e.cancelled ≡ false) where
    pub front_record :
        (r : TaskRecord) × (lookup e.task_id s.tasks ≡ some r)
        × (r.heap_entry ≡ some e.serial)
        × (r.next_fire_at ≡ some e.fire_at)
        × (live e.task_id rest ≡ [])
    front_record =
        front_entry e rest (lookup e.task_id s.tasks) x (rw front at (c.live_queued e.task_id))

    pub front_enabled : front_record.0.enabled ≡ true
    front_enabled =
        let (r, found, entry, next, alone) = front_record in
        let f : IsFlagged e.task_id (some r) = rw found at (c.flagged e.task_id) in
        sym f.1 ∙ ap is_some entry

    pub front_key : front_record.0.task_id ≡ e.task_id
    front_key =
        let (r, found, entry, next, alone) = front_record in
        let f : IsFlagged e.task_id (some r) = rw found at (c.flagged e.task_id) in f.0

    -- A round that pops a live entry fires its task.
    pub fire_entry-IsConsistent :
        (croniter : Croniter) (fired_at stored : ℕ)
        → IsConsistent (fire_entry croniter e fired_at stored (record s { heap = rest })).1
    unfolding fire_entry fire_task
    fire_entry-IsConsistent croniter fired_at stored =
        let (r, found, entry, next, alone) = front_record in
        let on : r.enabled ≡ true = front_enabled in
        elim (Option-cases r.callback) [
          | inl p ↦
              rw (found, on, p, fire_entry, fire_task)
                (reschedule-IsConsistent r found alone s.running_callbacks _ fired_at stored on)
          | inr (cb, p) ↦
              rw (found, on, p, fire_entry, fire_task)
                (reschedule-IsConsistent r found alone _ _ fired_at stored on)
        ]

module _ (croniter : Croniter) (now fired_at stored : ℕ) where
  round_at-IsConsistent :
      (heap : List HeapEntry) (s : Scheduler)
      → s.heap ≡ heap
      → IsConsistent s
      → IsConsistent (round_at croniter heap now fired_at stored s).1
  unfolding round_at
  round_at-IsConsistent [] s e c = record {
    live_queued = c.live_queued;
    flagged = c.flagged;
    sorted = c.sorted;
  }
  round_at-IsConsistent (e ∷ rest) s front c =
      if-holds (λ (p : Round × Scheduler). IsConsistent p.1) e.cancelled
        (pop_cancelled-IsConsistent e rest s front c)
        λ x.
          if-holds (λ (p : Round × Scheduler). IsConsistent p.1) (ltb now e.fire_at)
            (λ _. record { live_queued = c.live_queued; flagged = c.flagged; sorted = c.sorted })
            (λ _. fire_entry-IsConsistent e rest s front c x croniter fired_at stored)

  pub worker_round-IsConsistent :
      (s : Scheduler)
      → IsConsistent s
      → IsConsistent (worker_round croniter now fired_at stored s).1
  unfolding worker_round
  worker_round-IsConsistent s c = round_at-IsConsistent s.heap s refl c
