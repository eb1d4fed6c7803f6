-- ===== src/Scheduler/Preservation.antt =====
-- The task management and the scheduler's invariant.
use aca_bot.Prelude.{
  ℕ, String, ◌≡◌, refl, ap, true, false, Option, none, some, List, [], ◌∷◌, arith, eq_refl, lookup,
  lookup-insert, lookup-remove, Bool-cases, Option-cases, ◌⊎◌, inl, inr, ◌∙◌,
}
use aca_bot.Errors.{Error, Result, ok, err}
use aca_bot.Scheduler.Engine.{
  Croniter, HeapEntry, TaskRecord, Scheduler, cancel_entry, entry_of, heappush, validate_schedule,
  compute_resumed_fire,
}
use aca_bot.Scheduler.Tasks.{
  Registration, new_record, register_valid, register, drop_task, cancel, pause_task, disable,
  resume_task, enable, cancel_all, unregister_by_owner, owned_by,
}
use aca_bot.Scheduler.Heap.{
  live, queued, live-cancel_queued, live-cancel_ne, live-heappush_ne, live-heappush_first,
  heappush-IsSorted, cancel-IsSorted,
}
use aca_bot.Scheduler.Consistency.{IsConsistent, IsFlagged, IsConsistent-change}

-- A fresh entry of `k` in a heap that held none for it.
abbrev pub fresh : String → ℕ → ℕ → HeapEntry
fresh k serial t = record { serial = serial; fire_at = t; task_id = k; cancelled = false }

pub live-fresh :
    (k : String) (serial t : ℕ) (heap : List HeapEntry)
    → live k heap ≡ []
    → live k (heappush (fresh k serial t) heap) ≡ (serial, t) ∷ []
live-fresh k serial t heap h =
    live-heappush_first k (fresh k serial t) heap h ∙ (unfold live in rw (eq_refl k))

pub register_valid-IsConsistent :
    (a : Registration) (fire_at now : ℕ) (s : Scheduler)
    → IsConsistent s
    → IsConsistent (register_valid a (lookup a.task_id s.tasks) fire_at now s)
register_valid-IsConsistent a fire_at now s c =
    IsConsistent-change k (some r) s (register_valid a (lookup k s.tasks) fire_at now s)
      (λ tid. unfold register_valid in lookup-insert k tid r s.tasks)
      (λ tid e.
        unfold register_valid in
        live-heappush_ne tid (fresh k s.next_serial fire_at) heap e
        ∙ live-cancel_ne k tid entry s.heap e)
      c
      (unfold register_valid queued in
        live-fresh k s.next_serial fire_at heap
          (live-cancel_queued k (lookup k s.tasks) s.heap (c.live_queued k)))
      (unfold new_record in (refl, refl, refl))
      (unfold register_valid in
        heappush-IsSorted (fresh k s.next_serial fire_at) heap
          (cancel-IsSorted k entry s.heap c.sorted))
  where
    k : String
    k = a.task_id

    entry : Option ℕ
    entry = entry_of (lookup k s.tasks)

    heap : List HeapEntry
    heap = cancel_entry k entry s.heap

    r : TaskRecord
    r = new_record a (lookup k s.tasks) fire_at now s.next_serial

module _ (k : String) (r : TaskRecord) (s : Scheduler) (found : lookup k s.tasks ≡ some r)
    (c : IsConsistent s) where
  live_record : live k s.heap ≡ queued (some r)
  live_record = c.live_queued k ∙ ap queued found

  pub drop_task-IsConsistent : IsConsistent (drop_task k r s)
  drop_task-IsConsistent =
      IsConsistent-change k none s (drop_task k r s)
        (λ tid. unfold drop_task in lookup-remove k tid s.tasks)
        (λ tid e. unfold drop_task in live-cancel_ne k tid r.heap_entry s.heap e) c
        (unfold drop_task queued in live-cancel_queued k (some r) s.heap live_record) tt
        (unfold drop_task in cancel-IsSorted k r.heap_entry s.heap c.sorted)

  own_key : r.task_id ≡ k
  own_key = (let f : IsFlagged k (some r) = subst_flags in f.0)
    where
      subst_flags : IsFlagged k (some r)
      subst_flags = rw found at (c.flagged k)

  pub pause_task-IsConsistent : (now stored : ℕ) → IsConsistent (pause_task k r now stored s)
  pause_task-IsConsistent now stored =
      IsConsistent-change k
        (some
          (record r { heap_entry = none; enabled = false; next_fire_at = none; updated_at = now }))
        s (pause_task k r now stored s) (λ tid. unfold pause_task in lookup-insert k tid _ s.tasks)
        (λ tid e. unfold pause_task in live-cancel_ne k tid r.heap_entry s.heap e) c
        (unfold pause_task queued in live-cancel_queued k (some r) s.heap live_record)
        (own_key, refl, refl) (unfold pause_task in cancel-IsSorted k r.heap_entry s.heap c.sorted)

  pub resume_task-IsConsistent :
      (fire_at now stored : ℕ)
      → live k s.heap ≡ []
      → IsConsistent (resume_task k r fire_at now stored s)
  resume_task-IsConsistent fire_at now stored empty =
      IsConsistent-change k
        (some (record r {
          heap_entry = some s.next_serial;
          enabled = true;
          next_fire_at = some fire_at;
          updated_at = now;
        }))
        s (resume_task k r fire_at now stored s)
        (λ tid. unfold resume_task in lookup-insert k tid _ s.tasks)
        (λ tid e.
          unfold resume_task in live-heappush_ne tid (fresh k s.next_serial fire_at) s.heap e)
        c (unfold resume_task queued in live-fresh k s.next_serial fire_at s.heap empty)
        (own_key, refl, refl)
        (unfold resume_task in heappush-IsSorted (fresh k s.next_serial fire_at) s.heap c.sorted)

  -- A task that is not enabled has no live entry.
  pub live-paused : r.enabled ≡ false → live k s.heap ≡ []
  unfolding queued
  live-paused e =
      let f : IsFlagged k (some r) = rw found at (c.flagged k) in ground (arith, live_record, f.1)

pub cancel-IsConsistent :
    (k : String) (s : Scheduler) → IsConsistent s → IsConsistent (cancel k s).1
unfolding cancel
cancel-IsConsistent k s c = elim (Option-cases (lookup k s.tasks)) [
  | inl e ↦ rw (e, cancel) c
  | inr (r, e) ↦ rw (e, cancel) (drop_task-IsConsistent k r s e c)
]

pub disable-IsConsistent :
    (k : String) (now stored : ℕ) (s : Scheduler)
    → IsConsistent s
    → IsConsistent (disable k now stored s).1
unfolding disable
disable-IsConsistent k now stored s c = elim (Option-cases (lookup k s.tasks)) [
  | inl e ↦ rw (e, disable) c
  | inr (r, e) ↦ elim (Bool-cases r.enabled) [
    | inl on ↦ rw (e, on, disable) (pause_task-IsConsistent k r s e c now stored)
    | inr off ↦ rw (e, off, disable) c
  ]
]

cancel_all-IsConsistent :
    (ks : List String) (s : Scheduler) → IsConsistent s → IsConsistent (cancel_all ks s)
unfolding cancel_all
cancel_all-IsConsistent [] s c = c
cancel_all-IsConsistent (k ∷ ks) s c =
    cancel_all-IsConsistent ks (cancel k s).1 (cancel-IsConsistent k s c)

pub unregister_by_owner-IsConsistent :
    (owner : String) (s : Scheduler) → IsConsistent s → IsConsistent (unregister_by_owner owner s).1
unfolding unregister_by_owner
unregister_by_owner-IsConsistent owner s c =
    let d = cancel_all-IsConsistent (owned_by owner s.tasks) s c in
    record { live_queued = d.live_queued; flagged = d.flagged; sorted = d.sorted }

module _ (croniter : Croniter) where
  pub register-IsConsistent :
      (a : Registration) (initial now : ℕ) (s : Scheduler)
      → IsConsistent s
      → IsConsistent (register croniter a initial now s).1
  unfolding register
  register-IsConsistent a initial now s c =
      elim (validated (validate_schedule croniter a.schedule)) [
        | inl (e, p) ↦ rw (p, register) c
        | inr p ↦ rw (p, register) (register_valid-IsConsistent a _ now s c)
      ]
    where
      validated : (r : Result (Unit {0})) → ((e : Error) × (r ≡ err e)) ⊎ (r ≡ ok tt)
      validated (ok u) = inr refl
      validated (err e) = inl (e, refl)

  resumed : (r : Result ℕ) → ((e : Error) × (r ≡ err e)) ⊎ ((t : ℕ) × (r ≡ ok t))
  resumed (ok t) = inr (t, refl)
  resumed (err e) = inl (e, refl)

  pub enable-IsConsistent :
      (k : String) (read now stored : ℕ) (s : Scheduler)
      → IsConsistent s
      → IsConsistent (enable croniter k read now stored s).1
  unfolding enable
  enable-IsConsistent k read now stored s c = elim (Option-cases (lookup k s.tasks)) [
    | inl e ↦ rw (e, enable) c
    | inr (r, e) ↦ elim (Bool-cases r.enabled) [
      | inl on ↦ rw (e, on, enable) c
      | inr off ↦ elim (resumed (compute_resumed_fire croniter r.schedule read)) [
        | inl (x, p) ↦ rw (e, off, p, enable) c
        | inr (t, p) ↦
            rw (e, off, p, enable)
              (resume_task-IsConsistent k r s e c t now stored (live-paused k r s e c off))
      ]
    ]
  ]
