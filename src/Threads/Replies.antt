-- ===== src/Threads/Replies.antt =====
-- How the states of the two thread managers correspond, call by call.
use aca_bot.Prelude.{
  String, ◌≡◌, refl, sym, ap, Option, none, some, arith, str_eq, eq_iff, lookup, insert,
  lookup-insert, Option-cases, Bool-cases, inl, inr, ◌∙◌,
}
use aca_bot.Threads.Records.{ThreadState, ThreadRecord}
use aca_bot.Threads.Memory
use aca_bot.Threads.Memory.{Threads, Touch, created, touched}
use aca_bot.Threads.Store.{find_thread, upsert}
use aca_bot.Threads.Backed
use aca_bot.Threads.Backed.{Backed, record_from_state, state_from_record, load}

abbrev restored : Option ThreadRecord → Option ThreadState
restored none = none
restored (some row) = some (state_from_record row)

abbrev or_else : Option ThreadState → Option ThreadState → Option ThreadState
or_else none y = y
or_else (some x) y = some x

-- The thread that the manager stands for: the cached one, or else the stored one.
abbrev pub seen : String → Backed → Option ThreadState
seen k b = or_else (lookup k b.threads) (restored (lookup k b.store))

-- `b` stands for `m`.
abbrev pub Simulates : Threads → Backed → Type 0
Simulates m b = (k : String) → lookup k m ≡ seen k b

state_from_record-record_from_state :
    (thread : ThreadState) → state_from_record (record_from_state thread) ≡ thread
unfolding state_from_record record_from_state
state_from_record-record_from_state thread = refl

pub put-Simulates :
    (m : Threads) (b : Backed)
    → Simulates m b
    → (k : String) (thread : ThreadState)
    → Simulates (insert k thread m) (record b { threads = insert k thread b.threads })
put-Simulates m b s k thread j =
    ground (arith, lookup-insert k j thread m, lookup-insert k j thread b.threads, s j)

load-Simulates :
    (m : Threads) (b : Backed)
    → Simulates m b
    → (k : String) → lookup k b.threads ≡ none
    → ((load k b).0 ≡ lookup k m) × Simulates m (load k b).1
unfolding load find_thread
load-Simulates m b s k absent = elim (Option-cases (lookup k b.store)) [
  | inl e ↦ rw (e, load) (sym (s k ∙ (rw (absent, e) refl)), s)
  | inr (row, e) ↦
      let there : lookup k m ≡ some (state_from_record row) = s k ∙ (rw (absent, e) refl) in
      rw (e, load)
        (
          sym there,
          λ j. elim (Bool-cases (str_eq k j)) [
            | inl q ↦ rw (lookup-insert, q) (sym (ap (λ i. lookup i m) ((eq_iff k j).0 q)) ∙ there)
            | inr q ↦ rw (lookup-insert, q) (s j)
          ],
        )
]

pub get-Simulates :
    (m : Threads) (b : Backed)
    → Simulates m b
    → (k : String) → ((Backed.get k b).0 ≡ Memory.get k m) × Simulates m (Backed.get k b).1
unfolding Backed.get Memory.get
get-Simulates m b s k = elim (Option-cases (lookup k b.threads)) [
  | inl e ↦ rw (e, Backed.get) (load-Simulates m b s k e)
  | inr (thread, e) ↦ rw (e, Backed.get) (sym (s k ∙ (rw e refl)), s)
]

pub get_or_create-Simulates :
    (m : Threads) (b : Backed)
    → Simulates m b
    → (t : Touch)
    → ((Backed.get_or_create t b).0 ≡ (Memory.get_or_create t m).0)
      × Simulates (Memory.get_or_create t m).1 (Backed.get_or_create t b).1
unfolding Backed.get_or_create Memory.get_or_create Memory.get
get_or_create-Simulates m b s t =
    let (same, s') = get-Simulates m b s t.thread_id in
    elim (Option-cases (lookup t.thread_id m)) [
      | inl e ↦
          rw (same ∙ e, e, Backed.get_or_create, Memory.get_or_create)
            (refl, put-Simulates m _ s' t.thread_id (created t))
      | inr (thread, e) ↦
          rw (same ∙ e, e, Backed.get_or_create, Memory.get_or_create)
            (refl, put-Simulates m _ s' t.thread_id (touched t thread))
    ]

pub save-Simulates :
    (m : Threads) (b : Backed)
    → Simulates m b
    → (thread : ThreadState) → Simulates (Memory.save thread m) (Backed.save thread b)
unfolding Backed.save Memory.save Backed.cache upsert
save-Simulates m b s thread j = ground (
  arith,
  eq_iff thread.thread_id j,
  lookup-insert thread.thread_id j thread m,
  lookup-insert thread.thread_id j thread b.threads,
  lookup-insert (record_from_state thread).thread_id j (record_from_state thread) b.store,
  s j,
)
