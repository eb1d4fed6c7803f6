-- ===== src/Threads/Tests.antt =====
-- Examples of the thread managers' theorems.
use aca_bot.Prelude.{◌≡◌, refl, none, some, List, [], ◌∷◌, lookup, arith, eq_iff}
use aca_bot.Threads.Records.{ThreadState, ThreadRecord, text}
use aca_bot.Threads.Memory.{Touch}
use aca_bot.Threads.Store.{find_thread}
use aca_bot.Threads.Backed
use aca_bot.Threads.Backed.{Backed, state_from_record}
use aca_bot.Threads.Conversation
use aca_bot.Threads.Conversation.{
  Op, memory_replies, backed_replies, thread_replies-same, restart, after, get-restart-save,
}
use aca_bot.Threads.Listing.{IsTable, get-list_threads}

abbrev touch : Touch
touch = record {
  thread_id = "t1";
  channel_scope = "qq";
  thread_kind = "channel";
  last_event_at = 100;
}

abbrev note : ThreadState → ThreadState
note thread = record thread { working_summary = "hello" }

abbrev calls : List Op
calls =
    Conversation.get_or_create touch
    ∷ Conversation.edit "t1" note
    ∷ Conversation.get "t1"
    ∷ Conversation.get "t2"
    ∷ []

abbrev no_rows : Backed
no_rows = record { store = []; threads = [] }

thread_replies-same_example : backed_replies calls no_rows ≡ memory_replies calls []
thread_replies-same_example = thread_replies-same calls [] no_rows (λ k. unfold lookup in refl)

abbrev thread : ThreadState
thread = record {
  thread_id = "t1";
  channel_scope = "qq";
  thread_kind = "channel";
  working_messages = [];
  working_summary = "kept";
  last_event_at = 100;
  metadata = ("origin", text "test") ∷ [];
}

get-restart-save_example :
    (Backed.get "t1" (restart (after calls (Backed.save thread no_rows)))).0 ≡ some thread
get-restart-save_example = get-restart-save thread calls no_rows (tt, (tt, (tt, (tt, tt))))

abbrev row : ThreadRecord
row = record {
  thread_id = "t1";
  channel_scope = "qq";
  thread_kind = "channel";
  working_messages = [];
  working_summary = "stored";
  last_event_at = 100;
  metadata = [];
}

-- The cached object has a newer summary than the row.
abbrev one_row : Backed
one_row = record { store = ("t1", row) ∷ []; threads = ("t1", thread) ∷ [] }

one_row-IsTable : IsTable one_row.store
unfolding lookup
one_row-IsTable = record { distinct = (refl, tt); keyed = λ k r h. ground (arith, eq_iff "t1" k) }

get-list_threads_example :
    (Backed.get "t1" (Backed.list_threads none one_row).1).0 ≡ some (state_from_record row)
get-list_threads_example =
    get-list_threads "t1" row one_row one_row-IsTable (unfold find_thread lookup in refl)
