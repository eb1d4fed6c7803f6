-- ===== src/Ingest/Tests.antt =====
-- A thread with three facts, and a worker with two dirty threads.
use aca_bot.Prelude.{
  ℕ, suc, String, none, some, List, [], ◌∷◌, ◌≡◌, length, ◌-◌, refl, All, ◌==◌, if◌then◌else◌, sort,
  place, str_geb,
}
use aca_bot.Errors.{ok, value_error}
use aca_bot.Facts.Records.{Json, ChannelEventRecord}
use aca_bot.Facts.Table.{Rows}
use aca_bot.Ingest.Facts.{get_thread_delta}
use aca_bot.Ingest.Windows.{FactWindow, slice_fact_windows, normalized_window_size, step_size}
use aca_bot.Ingest.Cover.{IsWindow, joined}
use aca_bot.Ingest.Delta.{slice_fact_windows-get_thread_delta}
use aca_bot.Ingest.World.{Services, World}
use aca_bot.Ingest.Process.{FactStores, process_thread}
use aca_bot.Ingest.Advance.{IsAdvance, process_thread-IsAdvance}
use aca_bot.Ingest.Worker.{
  Event, marked, passed, started, run, run_worker, resume, worker_loop, worker_pass,
  take_next_dirty_thread, taken_first, go_on, take_out, mark_dirty, mark_each, step,
}
use aca_bot.Runs.Records.{contains}
use aca_bot.Ingest.Drained.{IsDrained, run_worker-run}

abbrev no_metadata : String → Json → String
no_metadata key json = ""

abbrev event : String → ℕ → ChannelEventRecord
event uid time = record {
  event_uid = uid;
  thread_id = "t";
  actor_id = "a";
  channel_scope = "c";
  platform = "qq";
  event_type = "message";
  message_type = "group";
  content_text = "hi";
  payload_json = "";
  timestamp = time;
  run_id = none;
  raw_message_id = "";
  operator_id = none;
  target_message_id = none;
  metadata = "";
  raw_event = "";
}

abbrev events : Rows ChannelEventRecord
events =
    record { sequence_id = 1; record_of = event "x" 5 }
    ∷ record { sequence_id = 2; record_of = event "y" 4 }
    ∷ record { sequence_id = 3; record_of = event "z" 9 }
    ∷ []

abbrev stores : FactStores
stores = record { events = events; messages = [] }

-- The store fails in its fifth call, the model never.
abbrev services : Services String ℕ
services = record {
  extract_window = λ call conversation facts now. ok (conversation ∷ []);
  embed_entries = λ call entries. ok (length entries ∷ []);
  store_fault = λ call. if call == 5 then some value_error else none;
  error_text = λ e. "error";
}

abbrev empty_world : World String ℕ
empty_world = record { calls = 0; cursors = []; failed_windows = []; upserts = [] }

slice_fact_windows-get_thread_delta_example :
    let facts = (get_thread_delta no_metadata "t" (some 1) none events []).facts in
    (windows : List FactWindow) × (slice_fact_windows facts 2 1 ≡ ok windows)
    × All (IsWindow (normalized_window_size 2)) windows
    × (joined (normalized_window_size 2 - step_size 2 1) windows ≡ facts)
slice_fact_windows-get_thread_delta_example =
    slice_fact_windows-get_thread_delta no_metadata "t" (some 1) none events [] 2 1

process_thread-IsAdvance_example :
    IsAdvance services 2 1 no_metadata stores "t" 7 empty_world
      (process_thread services 2 1 no_metadata stores "t" 7 empty_world).1
process_thread-IsAdvance_example =
    process_thread-IsAdvance services 2 1 no_metadata stores "t" 7 empty_world

abbrev history : List Event
history = marked "b" ∷ passed ("c" ∷ []) ∷ passed [] ∷ passed [] ∷ marked "b" ∷ marked "a" ∷ []

abbrev log : String → List String → List String
log t done = t ∷ done

run_worker-run_example :
    let s = run log history (started []) in
    IsDrained log s (run_worker log (suc (length s.dirty_threads)) (resume s))
run_worker-run_example = run_worker-run log history []

drained : (run_worker log 3 (resume (run log history (started [])))).0 ≡ "a" ∷ "b" ∷ []
unfolding run_worker worker_loop worker_pass take_next_dirty_thread taken_first go_on take_out sort
    place str_geb mark_dirty mark_each contains resume run step
drained = refl
