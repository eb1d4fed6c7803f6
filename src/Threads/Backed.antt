-- ===== src/Threads/Backed.antt =====
-- `StoreBackedThreadManager` of src/acabot/runtime/storage/threads.py: a cache of thread objects in
-- front of the table.
use aca_bot.Prelude.{ℕ, String, Option, none, some, List, [], ◌∷◌, lookup, insert, map}
use aca_bot.Threads.Records.{ThreadState, ThreadRecord}
use aca_bot.Threads.Memory.{Threads, Touch, created, touched}
use aca_bot.Threads.Store.{Table, find_thread, upsert, list_rows}

pub record Backed : Type 0 where
  pub store : Table
  pub threads : Threads

unfoldable pub record_from_state : ThreadState → ThreadRecord
record_from_state thread = record {
  thread_id = thread.thread_id;
  channel_scope = thread.channel_scope;
  thread_kind = thread.thread_kind;
  working_messages = thread.working_messages;
  working_summary = thread.working_summary;
  last_event_at = thread.last_event_at;
  metadata = thread.metadata;
}

unfoldable pub state_from_record : ThreadRecord → ThreadState
state_from_record row = record {
  thread_id = row.thread_id;
  channel_scope = row.channel_scope;
  thread_kind = row.thread_kind;
  working_messages = row.working_messages;
  working_summary = row.working_summary;
  last_event_at = row.last_event_at;
  metadata = row.metadata;
}

unfoldable pub cache : ThreadState → Backed → Backed
unfolding insert
cache thread b = record b { threads = insert thread.thread_id thread b.threads }

-- What `get` does after a cache miss.
unfoldable pub load : String → Backed → Option ThreadState × Backed
unfolding insert
load thread_id b = elim (find_thread thread_id b.store) [
  | none ↦ (none, b)
  | some row ↦ (
    some (state_from_record row),
    record b { threads = insert thread_id (state_from_record row) b.threads },
  )
]

unfoldable pub get : String → Backed → Option ThreadState × Backed
unfolding load
get thread_id b = elim (lookup thread_id b.threads) [
  | none ↦ load thread_id b
  | some thread ↦ (some thread, b)
]

abbrev put : String → ThreadState → Backed → ThreadState × Backed
put thread_id thread b = (thread, record b { threads = insert thread_id thread b.threads })

abbrev answer_touch : Touch → Option ThreadState → Backed → ThreadState × Backed
answer_touch t none b = put t.thread_id (created t) b
answer_touch t (some thread) b = put t.thread_id (touched t thread) b

unfoldable pub get_or_create : Touch → Backed → ThreadState × Backed
unfolding get insert
get_or_create t b = let found = get t.thread_id b in answer_touch t found.0 found.1

unfoldable pub save : ThreadState → Backed → Backed
unfolding cache upsert record_from_state
save thread b = record (cache thread b) { store = upsert (record_from_state thread) b.store }

unfoldable pub cache_all : List ThreadState → Backed → Backed
unfolding cache
cache_all [] b = b
cache_all (thread ∷ states) b = cache_all states (cache thread b)

unfoldable pub list_threads : Option ℕ → Backed → List ThreadState × Backed
unfolding cache_all list_rows state_from_record
list_threads limit b =
    let states = map state_from_record (list_rows limit b.store) in (states, cache_all states b)
