-- ===== src/Ingest/Process.antt =====
-- `LongTermMemoryIngestor._process_thread` of src/acabot/runtime/memory/long_term_ingestor.py.
use aca_bot.Prelude.{ℕ, String, true, false, Option, none, some, if◌then◌else◌, not}
use aca_bot.Errors.{ok}
use aca_bot.Facts.Records.{Json, ChannelEventRecord, MessageRecord}
use aca_bot.Facts.Table.{Rows}
use aca_bot.Tasks.{Task, lift, ◌>>=◌}
use aca_bot.Ingest.Facts.{ConversationDelta, get_thread_delta}
use aca_bot.Ingest.World.{Services, World, ThreadLtmCursor, load_cursor, save_cursor, store_call}
use aca_bot.Ingest.Write.{ThreadLtmIngestResult, has_facts, ingest_thread_delta}

abbrev pub cursor_or_new : String → Option ThreadLtmCursor → ThreadLtmCursor
cursor_or_new thread_id none = record {
  thread_id = thread_id;
  last_event_id = none;
  last_message_id = none;
  updated_at = 0;
}
cursor_or_new thread_id (some cursor) = cursor

-- What the fact stores hold.
pub record FactStores : Type 0 where
  pub events : Rows ChannelEventRecord
  pub messages : Rows MessageRecord

module _ {Entry Vector : Type 0} (s : Services Entry Vector) (window_size overlap_size : ℕ)
    (metadata_text : String → Json → String) where
  -- Both reads of the fact stores, which may fail.
  unfoldable pub read_delta :
      FactStores → String → ThreadLtmCursor → Task (World Entry Vector) ConversationDelta
  unfolding store_call get_thread_delta
  read_delta facts thread_id cursor =
      store_call s
        (λ w.
          get_thread_delta metadata_text thread_id cursor.last_event_id cursor.last_message_id
            facts.events facts.messages)
        (λ w. w)

  abbrev pub advanced : String → ConversationDelta → ℕ → ThreadLtmCursor
  advanced thread_id delta now = record {
    thread_id = thread_id;
    last_event_id = delta.max_event_id;
    last_message_id = delta.max_message_id;
    updated_at = now;
  }

  -- An error while the cursor is saved is only logged.
  unfoldable pub try_save_cursor : ThreadLtmCursor → Task (World Entry Vector) (Unit {0})
  unfolding save_cursor
  try_save_cursor cursor w = (ok tt, (save_cursor s cursor w).1)

  unfoldable pub advance_after :
      String
      → ConversationDelta
      → (now : ℕ) → ThreadLtmIngestResult
      → Task (World Entry Vector) (Unit {0})
  unfolding try_save_cursor
  advance_after thread_id delta now result =
      if not result.advance_cursor
      then lift (ok tt)
      else try_save_cursor (advanced thread_id delta now)

  unfoldable pub ingest_delta :
      String → (now : ℕ) → ConversationDelta → Task (World Entry Vector) (Unit {0})
  unfolding ingest_thread_delta advance_after
  ingest_delta thread_id now delta = elim (has_facts delta.facts) [
    | false ↦ lift (ok tt)
    | true ↦ do
      result ← ingest_thread_delta s window_size overlap_size delta
      advance_after thread_id delta now result
  ]

  -- `now` is `int(time.time())`.
  unfoldable pub process_thread :
      FactStores → String → (now : ℕ) → Task (World Entry Vector) (Unit {0})
  unfolding load_cursor read_delta ingest_delta
  process_thread facts thread_id now = do
    cursor ← load_cursor s thread_id
    delta ← read_delta facts thread_id (cursor_or_new thread_id cursor)
    ingest_delta thread_id now delta
