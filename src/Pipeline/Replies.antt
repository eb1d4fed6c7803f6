-- ===== src/Pipeline/Replies.antt =====
-- `ThreadPipeline._update_thread_after_send` and `_append_incoming_message` of
-- src/acabot/runtime/pipeline.py, with the in-memory thread manager, whose dict holds the objects
-- that the pipeline changes: a save of one of them changes nothing.
use aca_bot.Prelude.{
  ℕ, String, false, none, some, List, [], ◌∷◌, ◌++◌, if◌then◌else◌, not, lookup, insert,
}
use aca_bot.Runs.Records.{contains}
use aca_bot.Threads.Records.{Message, plain, ThreadState, is_text}
use aca_bot.Threads.Memory.{Threads, get_or_create}
use aca_bot.Pipeline.Outbox.{OutboxItem}

abbrev pub message : (role content : String) → Message
message role content = record {
  role = role;
  content = plain content;
  tool_calls = none;
  tool_call_id = none;
  pinned = false;
  rest = [];
}

-- A message at the end of a thread.
abbrev pub append_message : Message → (now : ℕ) → ThreadState → ThreadState
append_message new now thread = record thread {
  working_messages = thread.working_messages ++ new ∷ [];
  last_event_at = now;
}

-- The thread of the id, if it is there, with the message.
unfoldable pub append_to : String → Message → (now : ℕ) → Threads → Threads
unfolding lookup insert
append_to thread_id new now m = elim (lookup thread_id m) [
  | none ↦ m
  | some thread ↦ insert thread_id (append_message new now thread) m
]

-- `get_or_create` for a destination that has not come up yet.
unfoldable pub destination : OutboxItem → (now : ℕ) → (seen : List String) → Threads → Threads
unfolding contains get_or_create
destination item now seen m =
    if contains seen item.destination_thread_id
    then m
    else (get_or_create
        (record {
          thread_id = item.destination_thread_id;
          channel_scope = item.destination_conversation_id;
          thread_kind = "channel";
          last_event_at = now;
        })
        m).1

-- The loop over the delivered items; `seen` are the keys of `destination_threads`, and the thread of
-- the run.
unfoldable pub update_threads :
    (now : ℕ) → List OutboxItem → (seen : List String) → Threads → Threads
unfolding is_text append_to destination
update_threads now [] seen m = m
update_threads now (item ∷ items) seen m =
    let skipped = update_threads now items seen m in
    let reply = message "assistant" item.thread_content in
    let written = append_to item.destination_thread_id reply now (destination item now seen m) in
    let rest = update_threads now items (item.destination_thread_id ∷ seen) written in
    if not (is_text item.thread_content) then skipped else rest

unfoldable pub update_thread_after_send :
    (thread_id : String) → (now : ℕ) → List OutboxItem → Threads → Threads
unfolding update_threads
update_thread_after_send thread_id now items m = update_threads now items (thread_id ∷ []) m

unfoldable pub append_incoming_message :
    (thread_id content : String) → (now : ℕ) → Threads → Threads
unfolding append_to
append_incoming_message thread_id content now m = append_to thread_id (message "user" content) now m
