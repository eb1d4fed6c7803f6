-- ===== src/Scheduler/Restart.antt =====
-- Recovery, rebinding, start and stop, and the scheduler's invariant.
use aca_bot.Prelude.{
  ℕ, String, ◌≡◌, refl, ap, Bool, true, false, Option, none, some, List, [], ◌∷◌, arith, lookup,
  insert, lookup-insert, Bool-cases, Option-cases, ◌⊎◌, inl, inr, is_some, if-holds, ◌∙◌,
}
use aca_bot.Errors.{Error, Result, ok, err}
use aca_bot.Scheduler.Contracts.{Schedule, ScheduledTaskInfo, ScheduledTaskRow, spec_to_schedule}
use aca_bot.Scheduler.Store
use aca_bot.Scheduler.Store.{Table}
use aca_bot.Scheduler.Engine.{Croniter, Callback, TaskRecord, Scheduler, Resolver}
use aca_bot.Scheduler.Tasks.{list_tasks}
use aca_bot.Scheduler.Recovery.{
  Decision, decide_misfire, decide, recovered_record, install, recover_row, recover_rows,
  recover_persisted_tasks, rebind_task, rebind_tasks, rebind_persisted_callbacks, start_worker,
  rebind_and_start, start, stop,
}
use aca_bot.Scheduler.Heap.{live, queued, live-heappush_ne, heappush-IsSorted}
use aca_bot.Scheduler.Consistency.{IsConsistent, IsFlagged, IsConsistent-change}
use aca_bot.Scheduler.Preservation.{fresh, live-fresh}

pub Result-cases :
    {A : Type 0} (r : Result A) → ((e : Error) × (r ≡ err e)) ⊎ ((a : A) × (r ≡ ok a))
Result-cases (ok a) = inr (a, refl)
Result-cases (err e) = inl (e, refl)

-- A row that is decided to be enabled has a time.
pub decide-timed :
    (croniter : Croniter) (row : ScheduledTaskRow) (schedule : Schedule) (enabled : Bool)
    (next : Option ℕ) (now stored : ℕ) (st : Option Table) (d : Decision)
    → decide croniter row schedule enabled next now stored st ≡ ok d
    → (d.enabled ≡ false) ⊎ (is_some d.next_fire_at ≡ true)
unfolding decide decide_misfire
decide-timed croniter row schedule enabled next now stored st d h = ground arith

module _ (row : ScheduledTaskRow) (schedule : Schedule) (st : Option Table) (s : Scheduler)
    (absent : lookup row.task_id s.tasks ≡ none) (c : IsConsistent s) where
  live_absent : live row.task_id s.heap ≡ []
  live_absent = c.live_queued row.task_id ∙ ap queued absent ∙ (unfold queued in refl)

  install_queued-IsConsistent :
      (next : ℕ) → IsConsistent (install row schedule true (some next) st s)
  install_queued-IsConsistent next =
      IsConsistent-change k
        (some (recovered_record row schedule true (some next) (some s.next_serial))) s
        (install row schedule true (some next) st s)
        (λ tid. unfold install in lookup-insert k tid _ s.tasks)
        (λ tid h. unfold install in live-heappush_ne tid (fresh k s.next_serial next) s.heap h) c
        (unfold install queued in live-fresh k s.next_serial next s.heap live_absent)
        (unfold recovered_record in (refl, refl, refl))
        (unfold install in heappush-IsSorted (fresh k s.next_serial next) s.heap c.sorted)
    where
      k : String
      k = row.task_id

  install_disabled-IsConsistent :
      (next : Option ℕ) → IsConsistent (install row schedule false next st s)
  install_disabled-IsConsistent next =
      IsConsistent-change row.task_id (some (recovered_record row schedule false next none)) s
        (install row schedule false next st s)
        (λ tid. unfold install in lookup-insert row.task_id tid _ s.tasks)
        (λ tid h. unfold install in refl) c (unfold install queued in live_absent)
        (unfold recovered_record in (refl, refl, refl)) (unfold install in c.sorted)

  pub install-IsConsistent :
      (enabled : Bool) (next : Option ℕ)
      → (enabled ≡ false) ⊎ (is_some next ≡ true)
      → IsConsistent (install row schedule enabled next st s)
  install-IsConsistent true (some next) h = install_queued-IsConsistent next
  install-IsConsistent true none h = absurd (ground arith)
  install-IsConsistent false next h = install_disabled-IsConsistent next

-- A callback is no part of the invariant.
bind-IsConsistent :
    (k : String) (r : TaskRecord) (cb : Option Callback) (s : Scheduler)
    → lookup k s.tasks ≡ some r
    → IsConsistent s
    → IsConsistent (record s { tasks = insert k (record r { callback = cb }) s.tasks })
bind-IsConsistent k r cb s found c =
    IsConsistent-change k (some (record r { callback = cb })) s
      (record s { tasks = insert k (record r { callback = cb }) s.tasks })
      (λ tid. lookup-insert k tid _ s.tasks) (λ tid h. refl) c
      (c.live_queued k ∙ ap queued found ∙ (unfold queued in refl))
      (let f : IsFlagged k (some r) = rw found at (c.flagged k) in f) c.sorted

rebind_task-IsConsistent :
    (resolver : Resolver) (info : ScheduledTaskInfo) (s : Scheduler)
    → IsConsistent s
    → IsConsistent (rebind_task resolver info s).1
unfolding rebind_task
rebind_task-IsConsistent resolver info s c = elim (Option-cases (lookup info.task_id s.tasks)) [
  | inl e ↦ rw (e, rebind_task) c
  | inr (r, e) ↦ elim (Bool-cases (is_some r.callback)) [
    | inl has ↦ rw (e, has, rebind_task) c
    | inr lacks ↦ elim (Result-cases (resolver info)) [
      | inl (x, p) ↦ rw (e, lacks, p, rebind_task) c
      | inr (cb, p) ↦ rw (e, lacks, p, rebind_task) (bind-IsConsistent info.task_id r cb s e c)
    ]
  ]
]

rebind_tasks-IsConsistent :
    (resolver : Resolver) (infos : List ScheduledTaskInfo) (s : Scheduler)
    → IsConsistent s
    → IsConsistent (rebind_tasks resolver infos s).1
unfolding rebind_tasks
rebind_tasks-IsConsistent resolver [] s c = c
rebind_tasks-IsConsistent resolver (info ∷ infos) s c =
    let d = rebind_task-IsConsistent resolver info s c in
    elim (Result-cases (rebind_task resolver info s).0) [
      | inl (e, p) ↦ rw (p, rebind_tasks) d
      | inr (u, p) ↦ rw (p, rebind_tasks) (rebind_tasks-IsConsistent resolver infos _ d)
    ]

rebind_persisted_callbacks-IsConsistent :
    (s : Scheduler) → IsConsistent s → IsConsistent (rebind_persisted_callbacks s).1
unfolding rebind_persisted_callbacks
rebind_persisted_callbacks-IsConsistent s c = elim (Option-cases s.callback_resolver) [
  | inl e ↦ rw (e, rebind_persisted_callbacks) c
  | inr (resolver, e) ↦
      rw (e, rebind_persisted_callbacks) (rebind_tasks-IsConsistent resolver (list_tasks s) s c)
]

start_worker-IsConsistent :
    (p : Result (Unit {0}) × Scheduler) → IsConsistent p.1 → IsConsistent (start_worker p).1
start_worker-IsConsistent (err e, s) c = c
start_worker-IsConsistent (ok u, s) c = record {
  live_queued = c.live_queued;
  flagged = c.flagged;
  sorted = c.sorted;
}

rebind_and_start-IsConsistent :
    (p : Result (Unit {0}) × Scheduler) → IsConsistent p.1 → IsConsistent (rebind_and_start p).1
rebind_and_start-IsConsistent (err e, s) c = c
rebind_and_start-IsConsistent (ok u, s) c =
    start_worker-IsConsistent (rebind_persisted_callbacks s)
      (rebind_persisted_callbacks-IsConsistent s c)

module _ (croniter : Croniter) where
  recover_row-IsConsistent :
      (row : ScheduledTaskRow) (now stored : ℕ) (s : Scheduler)
      → IsConsistent s
      → IsConsistent (recover_row croniter row now stored s).1
  unfolding recover_row
  recover_row-IsConsistent row now stored s c = elim (Option-cases (lookup row.task_id s.tasks)) [
    | inr (r, present) ↦ rw (present, recover_row) c
    | inl absent ↦ elim (Result-cases (spec_to_schedule row.schedule_type row.schedule_spec)) [
      | inl (e, p) ↦ rw (absent, p, recover_row) c
      | inr (schedule, p) ↦
          elim (Result-cases
            (decide croniter row schedule row.enabled row.next_fire_at now stored s.store)) [
              | inl (e, q) ↦ rw (absent, p, q, recover_row) c
              | inr (d, q) ↦
                  rw (absent, p, q, recover_row)
                    (install-IsConsistent row schedule d.store s absent c d.enabled d.next_fire_at (
                      decide-timed croniter row schedule row.enabled row.next_fire_at now stored
                        s.store d q))
            ]
    ]
  ]

  recover_rows-IsConsistent :
      (rows : List ScheduledTaskRow) (now stored : ℕ) (s : Scheduler)
      → IsConsistent s
      → IsConsistent (recover_rows croniter rows now stored s).1
  unfolding recover_rows
  recover_rows-IsConsistent [] now stored s c = c
  recover_rows-IsConsistent (row ∷ rows) now stored s c =
      let d = recover_row-IsConsistent row now stored s c in
      elim (Result-cases (recover_row croniter row now stored s).0) [
        | inl (e, p) ↦ rw (p, recover_rows) d
        | inr (u, p) ↦ rw (p, recover_rows) (recover_rows-IsConsistent rows now stored _ d)
      ]

  pub recover_persisted_tasks-IsConsistent :
      (now stored : ℕ) (s : Scheduler)
      → IsConsistent s
      → IsConsistent (recover_persisted_tasks croniter now stored s).1
  unfolding recover_persisted_tasks
  recover_persisted_tasks-IsConsistent now stored s c = elim (Option-cases s.store) [
    | inl e ↦ rw (e, recover_persisted_tasks) c
    | inr (t, e) ↦
        rw (e, recover_persisted_tasks)
          (recover_rows-IsConsistent (Store.list_all t) now stored s c)
  ]

  pub start-IsConsistent :
      (now stored : ℕ) (s : Scheduler)
      → IsConsistent s
      → IsConsistent (start croniter now stored s).1
  unfolding start
  start-IsConsistent now stored s c =
      if-holds (λ (p : Result (Unit {0}) × Scheduler). IsConsistent p.1) s.started (λ _. c)
        λ _.
          rebind_and_start-IsConsistent (recover_persisted_tasks croniter now stored s)
            (recover_persisted_tasks-IsConsistent now stored s c)

pub stop-IsConsistent : (s : Scheduler) → IsConsistent s → IsConsistent (stop s)
unfolding stop
stop-IsConsistent s c =
    if-holds IsConsistent s.started
      (λ _. record { live_queued = c.live_queued; flagged = c.flagged; sorted = c.sorted }) (λ _. c)
