-- ===== src/Scheduler/Backing.antt =====
-- The rows of persisted tasks under the task management and the worker.
use aca_bot.Prelude.{
  ℕ, String, ◌≡◌, refl, sym, subst, Bool, true, false, Option, none, some, List, [], ◌∷◌, eq_refl,
  if-holds, lookup, insert, lookup-insert, lookup-remove, Option-cases, inl, inr, ltb,
}
use aca_bot.Errors.{Result}
use aca_bot.Scheduler.Store
use aca_bot.Scheduler.Store.{Table, find_row, find_row-upsert, find_row-delete}
use aca_bot.Scheduler.Engine.{
  Croniter, Callback, HeapEntry, TaskRecord, Scheduler, validate_schedule, compute_resumed_fire,
}
use aca_bot.Scheduler.Tasks.{
  Registration, new_record, row_of, register_valid, register, drop_task, cancel, pause_task,
  disable, resume_task, enable,
}
use aca_bot.Scheduler.Worker.{Round, fire_task, reschedule, fire_entry, round_at, worker_round}
use aca_bot.Scheduler.Consistency.{IsConsistent}
use aca_bot.Scheduler.Restart.{Result-cases}
use aca_bot.Scheduler.Rounds.{front_record, front_enabled, front_key}
use aca_bot.Scheduler.Durability.{
  HasRow, Backed, IsBacked, IsBacked-change, Touches-upsert, Touches-delete, Touches-update,
  idle_backed, HasRow-update,
}

abbrev pub AllBacked : Scheduler → Type 0
AllBacked s = IsBacked s.tasks s.store

own_row : (r : TaskRecord) (t : Table) → HasRow r (find_row r.task_id (Store.upsert (row_of r) t))
unfolding row_of
own_row r t =
    rw (find_row-upsert (row_of r) r.task_id t, eq_refl r.task_id)
      (record {
        same_owner = refl;
        same_type = refl;
        same_spec = refl;
        same_time = refl;
        same_state = refl;
      })

register_valid-AllBacked :
    (a : Registration) (existing : Option TaskRecord) (fire_at now : ℕ) (s : Scheduler)
    → AllBacked s
    → AllBacked (register_valid a existing fire_at now s)
unfolding register_valid
register_valid-AllBacked a existing fire_at now s b =
    let r = new_record a existing fire_at now s.next_serial in
    IsBacked-change a.task_id (some r) s.tasks (insert a.task_id r s.tasks)
      (λ tid. lookup-insert a.task_id tid r s.tasks) a.persist (Store.upsert (row_of r)) s.store b
      (Touches-upsert (row_of r)) (λ t _ _ _. own_row r t) (λ t _ h. idle_backed r _ h)

module _ (k : String) (r : TaskRecord) (s : Scheduler) (found : lookup k s.tasks ≡ some r)
    (b : AllBacked s) where
  -- The row of the record that is found.
  row_found : (t : Table) → s.store ≡ some t → r.persist ≡ true → HasRow r (find_row k t)
  row_found t e h =
      let all : (tid : String) → Backed (lookup tid s.tasks) (find_row tid t) =
        subst (IsBacked s.tasks) e b in
      let own : Backed (some r) (find_row k t) = rw found at (all k) in own h

  drop_task-AllBacked : AllBacked (drop_task k r s)
  unfolding drop_task
  drop_task-AllBacked =
      IsBacked-change k none s.tasks _ (λ tid. lookup-remove k tid s.tasks) r.persist _ s.store b
        (Touches-delete k) (λ t _ _. tt) (λ t _ _. tt)

  pause_task-AllBacked : (now stored : ℕ) → AllBacked (pause_task k r now stored s)
  unfolding pause_task Store.disable
  pause_task-AllBacked now stored =
      IsBacked-change k (some r') s.tasks (insert k r' s.tasks)
        (λ tid. lookup-insert k tid r' s.tasks) r.persist (Store.disable k none stored) s.store b
        (Touches-update k _ (λ row. refl))
        (λ t e h _.
          HasRow-update k r r' _ t (λ row. refl)
            (λ row m. record {
              same_owner = m.same_owner;
              same_type = m.same_type;
              same_spec = m.same_spec;
              same_time = refl;
              same_state = refl;
            })
            (row_found t e h))
        (λ t _ h. idle_backed r' _ h)
    where
      r' : TaskRecord
      r' = record r { heap_entry = none; enabled = false; next_fire_at = none; updated_at = now }

  resume_task-AllBacked :
      (fire_at now stored : ℕ) → AllBacked (resume_task k r fire_at now stored s)
  unfolding resume_task Store.enable
  resume_task-AllBacked fire_at now stored =
      IsBacked-change k (some r') s.tasks (insert k r' s.tasks)
        (λ tid. lookup-insert k tid r' s.tasks) r.persist (Store.enable k fire_at stored) s.store b
        (Touches-update k _ (λ row. refl))
        (λ t e h _.
          HasRow-update k r r' _ t (λ row. refl)
            (λ row m. record {
              same_owner = m.same_owner;
              same_type = m.same_type;
              same_spec = m.same_spec;
              same_time = refl;
              same_state = refl;
            })
            (row_found t e h))
        (λ t _ h. idle_backed r' _ h)
    where
      r' : TaskRecord
      r' = record r {
        heap_entry = some s.next_serial;
        enabled = true;
        next_fire_at = some fire_at;
        updated_at = now;
      }

  reschedule-AllBacked :
      (key : r.task_id ≡ k) (next : Option ℕ) (fired_at stored : ℕ)
      → r.enabled ≡ true
      → AllBacked (reschedule r next fired_at stored s)
  unfolding reschedule Store.update_schedule_state
  reschedule-AllBacked key (some n) fired_at stored on =
      IsBacked-change r.task_id (some r') s.tasks (insert r.task_id r' s.tasks)
        (λ tid. lookup-insert r.task_id tid r' s.tasks) r.persist
        (Store.update_schedule_state r.task_id (some n) true (some fired_at) stored) s.store b
        (Touches-update r.task_id _ (λ row. refl))
        (λ t e h _.
          HasRow-update r.task_id r r' _ t (λ row. refl)
            (λ row m. record {
              same_owner = m.same_owner;
              same_type = m.same_type;
              same_spec = m.same_spec;
              same_time = refl;
              same_state = sym on;
            })
            (subst (λ j. HasRow r (find_row j t)) (sym key) (row_found t e h)))
        (λ t _ h. idle_backed r' _ h)
    where
      r' : TaskRecord
      r' = record r {
        last_fired_at = some fired_at;
        updated_at = fired_at;
        next_fire_at = some n;
        heap_entry = some s.next_serial;
      }
  reschedule-AllBacked key none fired_at stored on =
      IsBacked-change r.task_id (some r') s.tasks (insert r.task_id r' s.tasks)
        (λ tid. lookup-insert r.task_id tid r' s.tasks) r.persist
        (Store.update_schedule_state r.task_id none false (some fired_at) stored) s.store b
        (Touches-update r.task_id _ (λ row. refl))
        (λ t e h _.
          HasRow-update r.task_id r r' _ t (λ row. refl)
            (λ row m. record {
              same_owner = m.same_owner;
              same_type = m.same_type;
              same_spec = m.same_spec;
              same_time = refl;
              same_state = refl;
            })
            (subst (λ j. HasRow r (find_row j t)) (sym key) (row_found t e h)))
        (λ t _ h. idle_backed r' _ h)
    where
      r' : TaskRecord
      r' = record r {
        last_fired_at = some fired_at;
        updated_at = fired_at;
        enabled = false;
        next_fire_at = none;
        heap_entry = none;
      }

  pub fire-AllBacked :
      (key : r.task_id ≡ k) (running : List (String × Callback)) (heap : List HeapEntry)
      (next : Option ℕ) (fired_at stored : ℕ)
      → r.enabled ≡ true
      → AllBacked (
          reschedule r next fired_at stored (record s { heap = heap; running_callbacks = running }))
  unfolding reschedule
  fire-AllBacked key running heap (some n) fired_at stored on =
      reschedule-AllBacked key (some n) fired_at stored on
  fire-AllBacked key running heap none fired_at stored on =
      reschedule-AllBacked key none fired_at stored on

pub cancel-AllBacked : (k : String) (s : Scheduler) → AllBacked s → AllBacked (cancel k s).1
unfolding cancel
cancel-AllBacked k s b = elim (Option-cases (lookup k s.tasks)) [
  | inl e ↦ rw (e, cancel) b
  | inr (r, e) ↦ rw (e, cancel) (drop_task-AllBacked k r s e b)
]

pub disable-AllBacked :
    (k : String) (now stored : ℕ) (s : Scheduler)
    → AllBacked s
    → AllBacked (disable k now stored s).1
unfolding disable
disable-AllBacked k now stored s b = elim (Option-cases (lookup k s.tasks)) [
  | inl e ↦ rw (e, disable) b
  | inr (r, e) ↦
      rw (e, disable)
        (if-holds (λ (p : Bool × Scheduler). AllBacked p.1) r.enabled
          (λ _. pause_task-AllBacked k r s e b now stored) (λ _. b))
]

module _ (croniter : Croniter) where
  pub register-AllBacked :
      (a : Registration) (initial now : ℕ) (s : Scheduler)
      → AllBacked s
      → AllBacked (register croniter a initial now s).1
  unfolding register
  register-AllBacked a initial now s b =
      elim (Result-cases (validate_schedule croniter a.schedule)) [
        | inl (e, p) ↦ rw (p, register) b
        | inr (u, p) ↦
            rw (p, register) (register_valid-AllBacked a (lookup a.task_id s.tasks) _ now s b)
      ]

  pub enable-AllBacked :
      (k : String) (read now stored : ℕ) (s : Scheduler)
      → AllBacked s
      → AllBacked (enable croniter k read now stored s).1
  unfolding enable
  enable-AllBacked k read now stored s b = elim (Option-cases (lookup k s.tasks)) [
    | inl e ↦ rw (e, enable) b
    | inr (r, e) ↦
        rw (e, enable)
          (if-holds (λ (p : Result Bool × Scheduler). AllBacked p.1) r.enabled (λ _. b)
            λ _. (elim (Result-cases (compute_resumed_fire croniter r.schedule read)) [
              | inl (x, p) ↦ rw p b
              | inr (t, p) ↦ rw p (resume_task-AllBacked k r s e b t now stored)
            ]))
  ]

  module _ (now fired_at stored : ℕ) (s : Scheduler) (c : IsConsistent s) (b : AllBacked s) where
    fire_entry-AllBacked :
        (e : HeapEntry) (rest : List HeapEntry)
        → s.heap ≡ e ∷ rest
        → e.cancelled ≡ false
        → AllBacked (fire_entry croniter e fired_at stored (record s { heap = rest })).1
    unfolding fire_entry fire_task
    fire_entry-AllBacked e rest front x =
        let (r, found, entry, next, alone) = front_record e rest s front c x in
        let on : r.enabled ≡ true = front_enabled e rest s front c x in
        let key : r.task_id ≡ e.task_id = front_key e rest s front c x in
        elim (Option-cases r.callback) [
          | inl p ↦
              rw (found, on, p, fire_entry, fire_task)
                (fire-AllBacked e.task_id r s found b key s.running_callbacks rest _ fired_at stored
                  on)
          | inr (cb, p) ↦
              rw (found, on, p, fire_entry, fire_task)
                (fire-AllBacked e.task_id r s found b key _ rest _ fired_at stored on)
        ]

    round_at-AllBacked :
        (heap : List HeapEntry)
        → s.heap ≡ heap
        → AllBacked (round_at croniter heap now fired_at stored s).1
    unfolding round_at
    round_at-AllBacked [] e = b
    round_at-AllBacked (e ∷ rest) front =
        if-holds (λ (p : Round × Scheduler). AllBacked p.1) e.cancelled (λ _. b)
          λ x.
            if-holds (λ (p : Round × Scheduler). AllBacked p.1) (ltb now e.fire_at) (λ _. b)
              (λ _. fire_entry-AllBacked e rest front x)

    pub worker_round-AllBacked : AllBacked (worker_round croniter now fired_at stored s).1
    unfolding worker_round
    worker_round-AllBacked = round_at-AllBacked s.heap refl
