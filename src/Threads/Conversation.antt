-- ===== src/Threads/Conversation.antt =====
-- Whole conversations with the two thread managers, and what a restart finds.
use aca_bot.Prelude.{
  String, ◌≡◌, refl, ap, ap₂, ◌≢◌, Option, none, some, List, [], ◌∷◌, arith, eq_iff, eq_refl,
  lookup, insert, lookup-insert, Option-cases, All, ◌∙◌, inl, inr,
}
use aca_bot.Threads.Records.{ThreadState}
use aca_bot.Threads.Memory
use aca_bot.Threads.Memory.{Threads, Touch}
use aca_bot.Threads.Store.{find_thread, upsert}
use aca_bot.Threads.Backed
use aca_bot.Threads.Backed.{Backed, record_from_state, state_from_record, load}
use aca_bot.Threads.Replies.{
  Simulates, get-Simulates, get_or_create-Simulates, save-Simulates, put-Simulates,
}

-- `edit` is a client that reads a thread and changes the object it got.
pub data Op : Type 0 where
  get : String → Op
  get_or_create : Touch → Op
  edit : String → (ThreadState → ThreadState) → Op
  save : ThreadState → Op

abbrev edit_memory : String → (ThreadState → ThreadState) → Option ThreadState → Threads → Threads
edit_memory k f none m = m
edit_memory k f (some thread) m = insert k (f thread) m

abbrev edit_backed : String → (ThreadState → ThreadState) → Option ThreadState → Backed → Backed
edit_backed k f none b = b
edit_backed k f (some thread) b = record b { threads = insert k (f thread) b.threads }

abbrev pub memory_step : Op → Threads → Option ThreadState × Threads
memory_step (get k) m = (Memory.get k m, m)
memory_step (get_or_create t) m = (some (Memory.get_or_create t m).0, (Memory.get_or_create t m).1)
memory_step (edit k f) m = (Memory.get k m, edit_memory k f (Memory.get k m) m)
memory_step (save thread) m = (none, Memory.save thread m)

abbrev pub backed_step : Op → Backed → Option ThreadState × Backed
backed_step (get k) b = Backed.get k b
backed_step (get_or_create t) b = (some (Backed.get_or_create t b).0, (Backed.get_or_create t b).1)
backed_step (edit k f) b =
    ((Backed.get k b).0, edit_backed k f (Backed.get k b).0 (Backed.get k b).1)
backed_step (save thread) b = (none, Backed.save thread b)

unfoldable pub memory_replies : List Op → Threads → List (Option ThreadState)
memory_replies [] m = []
memory_replies (op ∷ ops) m = (memory_step op m).0 ∷ memory_replies ops (memory_step op m).1

unfoldable pub backed_replies : List Op → Backed → List (Option ThreadState)
backed_replies [] b = []
backed_replies (op ∷ ops) b = (backed_step op b).0 ∷ backed_replies ops (backed_step op b).1

unfoldable pub after : List Op → Backed → Backed
after [] b = b
after (op ∷ ops) b = after ops (backed_step op b).1

edit-Simulates :
    (m : Threads) (b : Backed) (k : String) (f : ThreadState → ThreadState)
    (found : Option ThreadState)
    → Simulates m b
    → Simulates (edit_memory k f found m) (edit_backed k f found b)
edit-Simulates m b k f none s = s
edit-Simulates m b k f (some thread) s = put-Simulates m b s k (f thread)

step-Simulates :
    (op : Op) (m : Threads) (b : Backed)
    → Simulates m b
    → ((backed_step op b).0 ≡ (memory_step op m).0)
      × Simulates (memory_step op m).1 (backed_step op b).1
step-Simulates (get k) m b s = get-Simulates m b s k
step-Simulates (get_or_create t) m b s =
    let (e, s') = get_or_create-Simulates m b s t in (ap some e, s')
step-Simulates (edit k f) m b s =
    let (e, s') = get-Simulates m b s k in
    (e, rw e (edit-Simulates m (Backed.get k b).1 k f (Memory.get k m) s'))
step-Simulates (save thread) m b s = (refl, save-Simulates m b s thread)

-- From states that stand for each other the two thread managers give the same answers to every
-- sequence of `get`, `get_or_create`, changes of the objects they returned, and `save`.
pub thread_replies-same :
    (ops : List Op) (m : Threads) (b : Backed)
    → Simulates m b
    → backed_replies ops b ≡ memory_replies ops m
unfolding memory_replies backed_replies
thread_replies-same [] m b s = refl
thread_replies-same (op ∷ ops) m b s =
    let (e, s') = step-Simulates op m b s in
    ap₂ ◌∷◌ e (thread_replies-same ops (memory_step op m).1 (backed_step op b).1 s')

-- A new process has the table and an empty cache.
unfoldable pub restart : Backed → Backed
restart b = record b { threads = [] }

-- The call does not save the thread.
abbrev pub LeavesSaved : String → Op → Type 0
LeavesSaved k (save thread) = thread.thread_id ≢ k
LeavesSaved k _ = Unit

store-get : (k : String) (b : Backed) → (Backed.get k b).1.store ≡ b.store
unfolding Backed.get load
store-get k b = elim (Option-cases (lookup k b.threads)) [
  | inr (thread, e) ↦ rw (e, Backed.get) refl
  | inl e ↦ elim (Option-cases (find_thread k b.store)) [
    | inl h ↦ rw (e, Backed.get) (rw (h, load) refl)
    | inr (row, h) ↦ rw (e, Backed.get) (rw (h, load) refl)
  ]
]

store-get_or_create : (t : Touch) (b : Backed) → (Backed.get_or_create t b).1.store ≡ b.store
unfolding Backed.get_or_create
store-get_or_create t b = elim (Option-cases (Backed.get t.thread_id b).0) [
  | inl e ↦ rw (e, Backed.get_or_create) (store-get t.thread_id b)
  | inr (thread, e) ↦ rw (e, Backed.get_or_create) (store-get t.thread_id b)
]

store-edit :
    (k : String) (f : ThreadState → ThreadState) (found : Option ThreadState) (b : Backed)
    → (edit_backed k f found b).store ≡ b.store
store-edit k f none b = refl
store-edit k f (some thread) b = refl

step-stored :
    (op : Op) (k : String) (b : Backed)
    → LeavesSaved k op
    → lookup k (backed_step op b).1.store ≡ lookup k b.store
unfolding Backed.save Backed.cache upsert record_from_state
step-stored (get j) k b h = ap (λ t. lookup k t) (store-get j b)
step-stored (get_or_create t) k b h = ap (λ t. lookup k t) (store-get_or_create t b)
step-stored (edit j f) k b h =
    ap (λ t. lookup k t) (store-edit j f (Backed.get j b).0 (Backed.get j b).1 ∙ store-get j b)
step-stored (save thread) k b h = ground (
  arith,
  eq_iff thread.thread_id k,
  lookup-insert thread.thread_id k (record_from_state thread) b.store,
)

after-stored :
    (ops : List Op) (k : String) (b : Backed)
    → All (LeavesSaved k) ops
    → lookup k (after ops b).store ≡ lookup k b.store
unfolding after
after-stored [] k b h = refl
after-stored (op ∷ ops) k b h = after-stored ops k (backed_step op b).1 h.1 ∙ step-stored op k b h.0

-- A saved thread is what `get` returns after a restart, whatever was called in between, changes of
-- the object included, as long as that thread was not saved again.
pub get-restart-save :
    (thread : ThreadState) (ops : List Op) (b : Backed)
    → All (LeavesSaved thread.thread_id) ops
    → (Backed.get thread.thread_id (restart (after ops (Backed.save thread b)))).0 ≡ some thread
unfolding restart Backed.get load find_thread Backed.save Backed.cache upsert record_from_state
    state_from_record lookup
get-restart-save thread ops b h =
    let kept : lookup thread.thread_id (after ops (Backed.save thread b)).store
        ≡ some (record_from_state thread) =
      after-stored ops thread.thread_id (Backed.save thread b) h
      ∙ (rw (lookup-insert, eq_refl) refl) in
    rw (kept, load) refl
