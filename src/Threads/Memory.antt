-- ===== src/Threads/Memory.antt =====
-- `InMemoryThreadManager` of src/acabot/runtime/storage/threads.py. The state is the dict of the
-- thread objects, so that an object which a client changes is the one in the dict.
use aca_bot.Prelude.{
  ℕ, String, Bool, ◌||◌, ◌&&◌, Option, none, some, List, [], Dict, lookup, insert, values, ltb,
  ◌==◌, if◌then◌else◌, sort, str_geb, take,
}
use aca_bot.Threads.Records.{ThreadState, is_text}

abbrev pub Threads : Type 0
Threads = Dict ThreadState

-- The arguments of `get_or_create`.
pub record Touch : Type 0 where
  pub thread_id : String
  pub channel_scope : String
  pub thread_kind : String
  pub last_event_at : ℕ

unfoldable pub created : Touch → ThreadState
created t = record {
  thread_id = t.thread_id;
  channel_scope = t.channel_scope;
  thread_kind = t.thread_kind;
  working_messages = [];
  working_summary = "";
  last_event_at = t.last_event_at;
  metadata = [];
}

-- What `get_or_create` changes of a thread that is there.
unfoldable pub touched : Touch → ThreadState → ThreadState
unfolding is_text
touched t thread = record thread {
  last_event_at =
      if ltb thread.last_event_at t.last_event_at then t.last_event_at else thread.last_event_at;
  channel_scope = if is_text t.channel_scope then t.channel_scope else thread.channel_scope;
  thread_kind = if is_text t.thread_kind then t.thread_kind else thread.thread_kind;
}

unfoldable pub get : String → Threads → Option ThreadState
get thread_id m = lookup thread_id m

unfoldable pub get_or_create : Touch → Threads → ThreadState × Threads
unfolding lookup insert touched created
get_or_create t m = elim (lookup t.thread_id m) [
  | none ↦ (created t, insert t.thread_id (created t) m)
  | some thread ↦ (touched t thread, insert t.thread_id (touched t thread) m)
]

unfoldable pub save : ThreadState → Threads → Threads
unfolding insert
save thread m = insert thread.thread_id thread m

-- By `(last_event_at, thread_id)`, greatest first.
abbrev pub latest_first : ThreadState → ThreadState → Bool
latest_first a b =
    ltb b.last_event_at a.last_event_at
    || (a.last_event_at == b.last_event_at && str_geb a.thread_id b.thread_id)

abbrev pub up_to {ℓ} : {A : Type ℓ} → Option ℕ → List A → List A
up_to none xs = xs
up_to (some n) xs = take n xs

unfoldable pub list_threads : Option ℕ → Threads → List ThreadState
unfolding sort
list_threads limit m = up_to limit (sort latest_first (values m))
