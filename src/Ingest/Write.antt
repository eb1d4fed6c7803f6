-- ===== src/Ingest/Write.antt =====
-- `LtmWritePort.ingest_thread_delta` of
-- src/acabot/runtime/memory/long_term_memory/write_port.py.
use aca_bot.Prelude.{
  ℕ, suc, max, String, Bool, true, false, Option, none, some, List, [], ◌∷◌, if◌then◌else◌,
}
use aca_bot.Errors.{Error, Result, ok, err}
use aca_bot.Tasks.{Task, attempt, lift, ◌>>=◌}
use aca_bot.Ingest.Facts.{ConversationFact, ConversationDelta}
use aca_bot.Ingest.Windows.{
  FactWindow, slice_fact_windows, derive_conversation_id_from_delta, build_failed_window_id,
}
use aca_bot.Ingest.World.{
  Services, World, FailedWindowRecord, normalized, load_failed_window, save_failed_window,
  upsert_entries, extract, embed,
}

pub record ThreadLtmIngestResult : Type 0 where
  pub advance_cursor : Bool
  pub has_failures : Bool

abbrev pub result : Bool → Bool → ThreadLtmIngestResult
result advance failures = record { advance_cursor = advance; has_failures = failures }

-- `max(fact.timestamp …)` of a window, which is not empty.
unfoldable pub latest_timestamp : List ConversationFact → ℕ
latest_timestamp [] = 0
latest_timestamp (fact ∷ facts) = max fact.timestamp (latest_timestamp facts)

-- `facts[0].thread_id` of a window, which is not empty.
abbrev pub first_thread_id : List ConversationFact → String
first_thread_id [] = ""
first_thread_id (fact ∷ facts) = fact.thread_id

abbrev pub retries : Option FailedWindowRecord → ℕ
retries none = 1
retries (some r) = suc r.retry_count

abbrev pub first_failure : Option FailedWindowRecord → ℕ → ℕ
first_failure none now = now
first_failure (some r) now = r.first_failed_at

abbrev pub has_facts : List ConversationFact → Bool
has_facts [] = false
has_facts (fact ∷ facts) = true

abbrev pub is_ok : {A : Type 0} → Result A → Bool
is_ok (ok a) = true
is_ok (err e) = false

-- A window whose entries were stored, whose failure was recorded, or neither.
pub data WindowOutcome : Type 0 where
  stored recorded lost : WindowOutcome

abbrev pub by_outcome : {A : Type 0} → A → A → A → WindowOutcome → A
by_outcome a b c stored = a
by_outcome a b c recorded = b
by_outcome a b c lost = c

module _ {Entry Vector : Type 0} (s : Services Entry Vector) where
  -- The `try` block of a window.
  unfoldable pub store_window : String → FactWindow → Task (World Entry Vector) (Unit {0})
  unfolding latest_timestamp upsert_entries
  store_window conversation_id window = do
    entries ← extract s conversation_id window.facts (latest_timestamp window.facts)
    vectors ← embed s entries
    upsert_entries s entries vectors

  unfoldable pub failed_record :
      String → FactWindow → String → Error → Option FailedWindowRecord → Result FailedWindowRecord
  unfolding latest_timestamp
  failed_record conversation_id window window_id e existing =
      let window_ts = latest_timestamp window.facts in
      normalized (record {
        window_id = window_id;
        conversation_id = conversation_id;
        thread_id = first_thread_id window.facts;
        fact_ids = window.fact_ids;
        error = s.error_text e;
        retry_count = retries existing;
        first_failed_at = first_failure existing window_ts;
        last_failed_at = window_ts;
      })

  -- Whether the record was saved: an error of the store is caught here, and only here.
  unfoldable pub try_save : FailedWindowRecord → Task (World Entry Vector) Bool
  unfolding save_failed_window
  try_save r = do saved ← attempt (save_failed_window s r); lift (ok (is_ok saved))

  -- The `except` block of a window.
  unfoldable pub record_failure : String → FactWindow → Error → Task (World Entry Vector) Bool
  unfolding build_failed_window_id load_failed_window failed_record try_save
  record_failure conversation_id window e = do
    window_id ← lift (build_failed_window_id conversation_id window.fact_ids)
    existing ← load_failed_window s window_id
    failed_window ← lift (failed_record conversation_id window window_id e existing)
    try_save failed_window

  unfoldable pub handle :
      String → FactWindow → Result (Unit {0}) → Task (World Entry Vector) WindowOutcome
  unfolding record_failure
  handle conversation_id window (ok done) = lift (ok stored)
  handle conversation_id window (err e) = do
    saved ← record_failure conversation_id window e
    lift (ok (if saved then recorded else lost))

  -- One round of the loop over the windows.
  unfoldable pub ingest_window : String → FactWindow → Task (World Entry Vector) WindowOutcome
  unfolding store_window handle
  ingest_window conversation_id window = do
    done ← attempt (store_window conversation_id window)
    handle conversation_id window done

  unfoldable pub ingest_windows :
      String
      → (has_failures : Bool) → List FactWindow
      → Task (World Entry Vector) ThreadLtmIngestResult
  unfolding ingest_window
  ingest_windows conversation_id has_failures [] = lift (ok (result true has_failures))
  ingest_windows conversation_id has_failures (window ∷ windows) = do
    outcome ← ingest_window conversation_id window
    by_outcome (ingest_windows conversation_id has_failures windows)
        (ingest_windows conversation_id true windows) (lift (ok (result false true))) outcome

  unfoldable pub ingest_thread_delta :
      (window_size overlap_size : ℕ)
      → ConversationDelta
      → Task (World Entry Vector) ThreadLtmIngestResult
  unfolding derive_conversation_id_from_delta slice_fact_windows ingest_windows
  ingest_thread_delta window_size overlap_size delta = elim (has_facts delta.facts) [
    | false ↦ lift (ok (result true false))
    | true ↦ do
      conversation_id ← lift (derive_conversation_id_from_delta delta.facts)
      windows ← lift (slice_fact_windows delta.facts window_size overlap_size)
      ingest_windows conversation_id false windows
  ]
