-- ===== src/Scheduler/Heap.antt =====
-- The entries of the scheduler's heap that are not cancelled, task by task.
use aca_bot.Prelude.{
  ℕ, String, ◌≡◌, refl, true, false, Option, none, some, List, [], ◌∷◌, arith, str_eq, eq_iff,
  if◌then◌else◌, ◌==◌, All, IsSorted, place-IsSorted, Bool-cases, Option-cases, inl, inr, ◌&&◌,
}
use aca_bot.Scheduler.Engine.{HeapEntry, earlier, heappush, cancel_entry, entry_of, TaskRecord}

-- The live entries of a task: serial numbers with due times.
unfoldable pub live : String → List HeapEntry → List (ℕ × ℕ)
live tid [] = []
live tid (e ∷ heap) =
    if e.cancelled
    then live tid heap
    else if str_eq e.task_id tid
    then (e.serial, e.fire_at) ∷ live tid heap
    else live tid heap

without_serial : ℕ → List (ℕ × ℕ) → List (ℕ × ℕ)
without_serial n [] = []
without_serial n ((m, t) ∷ l) = if m == n then without_serial n l else (m, t) ∷ without_serial n l

live-cancel_some :
    (tid : String) (n : ℕ) (heap : List HeapEntry)
    → live tid (cancel_entry tid (some n) heap) ≡ without_serial n (live tid heap)
unfolding live cancel_entry without_serial
live-cancel_some tid n [] = refl
live-cancel_some tid n (e ∷ heap) = ground (arith, live-cancel_some tid n heap)

-- What the heap has to hold for a task.
unfoldable pub queued : Option TaskRecord → List (ℕ × ℕ)
queued none = []
queued (some r) = elim r.heap_entry [
  | none ↦ []
  | some n ↦ elim r.next_fire_at [ none ↦ [] | some t ↦ (n, t) ∷ [] ]
]

-- Cancelling the entry of a task's record leaves the task no live entry.
pub live-cancel_queued :
    (tid : String) (o : Option TaskRecord) (heap : List HeapEntry)
    → live tid heap ≡ queued o
    → live tid (cancel_entry tid (entry_of o) heap) ≡ []
unfolding queued without_serial
live-cancel_queued tid none heap h = unfold cancel_entry in h
live-cancel_queued tid (some r) heap h = elim (Option-cases r.heap_entry) [
  | inl e ↦ rw e (unfold cancel_entry in ground arith)
  | inr (n, e) ↦ rw e (rw live-cancel_some (rw h (ground arith)))
]

live-cancel_some_ne :
    (k tid : String) (n : ℕ) (heap : List HeapEntry)
    → str_eq k tid ≡ false
    → live tid (cancel_entry k (some n) heap) ≡ live tid heap
unfolding live cancel_entry
live-cancel_some_ne k tid n [] h = refl
live-cancel_some_ne k tid n (e ∷ heap) h = ground (
  arith,
  eq_iff k tid,
  eq_iff e.task_id k,
  eq_iff e.task_id tid,
  live-cancel_some_ne k tid n heap h,
)

pub live-cancel_ne :
    (k tid : String) (n : Option ℕ) (heap : List HeapEntry)
    → str_eq k tid ≡ false
    → live tid (cancel_entry k n heap) ≡ live tid heap
live-cancel_ne k tid none heap h = unfold cancel_entry in refl
live-cancel_ne k tid (some n) heap h = live-cancel_some_ne k tid n heap h

-- The first live entry of a heap to which an entry of another task, or the first of its own task,
-- is added.
pub live-heappush_ne :
    (tid : String) (e : HeapEntry) (heap : List HeapEntry)
    → str_eq e.task_id tid ≡ false
    → live tid (heappush e heap) ≡ live tid heap
unfolding live heappush
live-heappush_ne tid e [] h = ground arith
live-heappush_ne tid e (f ∷ heap) h = ground (arith, live-heappush_ne tid e heap h)

pub live-heappush_first :
    (tid : String) (e : HeapEntry) (heap : List HeapEntry)
    → live tid heap ≡ []
    → live tid (heappush e heap) ≡ live tid (e ∷ [])
unfolding live heappush
live-heappush_first tid e [] h = refl
live-heappush_first tid e (f ∷ heap) h = ground (arith, live-heappush_first tid e heap)

earlier_total : (x y : HeapEntry) → earlier x y ≡ false → earlier y x ≡ true
earlier_total x y h = ground arith

earlier_trans : (x y z : HeapEntry) → earlier x y ≡ true → earlier y z ≡ true → earlier x z ≡ true
earlier_trans x y z h k = ground arith

pub heappush-IsSorted :
    (e : HeapEntry) (heap : List HeapEntry)
    → IsSorted earlier heap
    → IsSorted earlier (heappush e heap)
unfolding heappush
heappush-IsSorted = place-IsSorted earlier earlier_total earlier_trans

All-cancel :
    (e : HeapEntry) (tid : String) (n : ℕ) (heap : List HeapEntry)
    → All (λ y. earlier e y ≡ true) heap
    → All (λ y. earlier e y ≡ true) (cancel_entry tid (some n) heap)
unfolding cancel_entry
All-cancel e tid n [] a = tt
All-cancel e tid n (f ∷ heap) a = (ground arith, All-cancel e tid n heap a.1)

cancel_some-IsSorted :
    (tid : String) (n : ℕ) (heap : List HeapEntry)
    → IsSorted earlier heap
    → IsSorted earlier (cancel_entry tid (some n) heap)
unfolding cancel_entry
cancel_some-IsSorted tid n [] s = tt
cancel_some-IsSorted tid n (e ∷ heap) s =
    elim (Bool-cases (e.serial == n && str_eq e.task_id tid)) [
      | inl h ↦ rw h (All-cancel e tid n heap s.0, cancel_some-IsSorted tid n heap s.1)
      | inr h ↦ rw h (All-cancel e tid n heap s.0, cancel_some-IsSorted tid n heap s.1)
    ]

pub cancel-IsSorted :
    (tid : String) (n : Option ℕ) (heap : List HeapEntry)
    → IsSorted earlier heap
    → IsSorted earlier (cancel_entry tid n heap)
cancel-IsSorted tid none heap s = unfold cancel_entry in s
cancel-IsSorted tid (some n) heap s = cancel_some-IsSorted tid n heap s
