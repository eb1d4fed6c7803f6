-- ===== src/Scheduler/Consistency.antt =====
-- The invariant that ties the task table to the heap, and how a change of one task keeps it.
use aca_bot.Prelude.{
  String, ◌≡◌, refl, subst, false, Option, none, some, str_eq, eq_iff, if◌then◌else◌, lookup,
  IsSorted, Bool-cases, inl, inr, is_some,
}
use aca_bot.Scheduler.Store.{Table}
use aca_bot.Scheduler.Engine.{TaskRecord, Scheduler, earlier, init}
use aca_bot.Scheduler.Heap.{live, queued}

-- A record stands under its own key, and has an entry and a time exactly if it is enabled.
abbrev pub IsFlagged : String → Option TaskRecord → Type 0
IsFlagged tid none = Unit
IsFlagged tid (some r) =
    (r.task_id ≡ tid) × (is_some r.heap_entry ≡ r.enabled) × (is_some r.next_fire_at ≡ r.enabled)

-- Each task has exactly the live entry that its record names, at the time that the record says,
-- and no other; the heap is in order.
pub record IsConsistent (s : Scheduler) : Type 0 where
  pub live_queued : (tid : String) → live tid s.heap ≡ queued (lookup tid s.tasks)
  pub flagged : (tid : String) → IsFlagged tid (lookup tid s.tasks)
  pub sorted : IsSorted earlier s.heap

pub IsConsistent-init : (st : Option Table) → IsConsistent (init st)
IsConsistent-init st = record {
  live_queued = λ tid. unfold live queued lookup in refl;
  flagged = λ tid. unfold lookup in tt;
  sorted = tt;
}

module _ (k : String) (o : Option TaskRecord) (s s' : Scheduler)
    (others : (tid : String)
      → lookup tid s'.tasks ≡ (if str_eq k tid then o else lookup tid s.tasks))
    (kept : (tid : String) → str_eq k tid ≡ false → live tid s'.heap ≡ live tid s.heap) where
  changed_live :
      IsConsistent s
      → live k s'.heap ≡ queued o
      → (tid : String) → live tid s'.heap ≡ queued (lookup tid s'.tasks)
  changed_live c own tid = elim (Bool-cases (str_eq k tid)) [
    | inl e ↦ rw (others tid, e) (subst (λ j. live j s'.heap ≡ queued o) ((eq_iff k tid).0 e) own)
    | inr e ↦ rw (others tid, e, kept tid e) (c.live_queued tid)
  ]

  changed_flags :
      IsConsistent s → IsFlagged k o → (tid : String) → IsFlagged tid (lookup tid s'.tasks)
  changed_flags c own tid = elim (Bool-cases (str_eq k tid)) [
    | inl e ↦ rw (others tid, e) (subst (λ j. IsFlagged j o) ((eq_iff k tid).0 e) own)
    | inr e ↦ rw (others tid, e) (c.flagged tid)
  ]

  -- A change of the task `k` alone keeps the invariant, if `k` has the entry that its new record
  -- names.
  pub IsConsistent-change :
      IsConsistent s
      → live k s'.heap ≡ queued o
      → IsFlagged k o
      → IsSorted earlier s'.heap
      → IsConsistent s'
  IsConsistent-change c own flags sorted = record {
    live_queued = changed_live c own;
    flagged = changed_flags c flags;
    sorted = sorted;
  }
