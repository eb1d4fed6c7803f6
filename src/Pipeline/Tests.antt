-- ===== src/Pipeline/Tests.antt =====
-- A run with two actions, one of which is refused, and a run that waits for an approval.
use aca_bot.Prelude.{
  String, true, false, none, some, List, [], ◌∷◌, ◌++◌, ◌≡◌, refl, lookup, if◌then◌else◌, ◌==◌,
}
use aca_bot.Errors.{ok, err, value_error}
use aca_bot.Runs.Records.{RunRecord, RunStatus, Opening, opened, merge}
use aca_bot.Runs.Records
use aca_bot.Runs.Memory
use aca_bot.Threads.Memory.{Threads}
use aca_bot.Pipeline.Outbox.{
  OutboxItem, send_text, negative, success, Channel, send_items, send_from, prepared, acknowledged,
}
use aca_bot.Pipeline.Replies.{update_thread_after_send, message}
use aca_bot.Threads.Records.{ThreadState}
use aca_bot.Compactor.Config.{ContextCompactionResult, none_used}
use aca_bot.Pipeline.Written.{messages_of, replies_to}
use aca_bot.Pipeline.Left.{IsLeft, update_thread_after_send-messages}
use aca_bot.Pipeline.Finish
use aca_bot.Pipeline.Finish.{PendingApproval, Response}
use aca_bot.Pipeline.Execute.{RunContext, World, execute}
use aca_bot.Pipeline.Sent.{accounted, occurrences}
use aca_bot.Pipeline.Settled.{IsSettled, execute-IsSettled}

abbrev item : (action_id thread_id : String) → OutboxItem
item action_id thread_id = record {
  action_id = action_id;
  action_type = send_text;
  thread_content = "hi";
  destination_thread_id = thread_id;
  destination_conversation_id = thread_id;
}

-- The second item is refused, and its store fails from the third on.
abbrev channel : Channel
channel = record {
  prepare = λ number item. ok item.thread_content;
  send = λ number item. ok (if number == 1 then negative "" else success "m");
  persist = λ number item result. if number == 2 then err value_error else ok tt;
  error_text = λ e. "error";
}

abbrev saving_channel : Channel
saving_channel = record channel { persist = λ number item result. ok tt }

abbrev items : List OutboxItem
items = item "x" "t" ∷ item "y" "t" ∷ item "z" "u" ∷ []

-- An action that was delivered and could not be saved is reported as both.
twice : accounted "z" (send_items channel items) ≡ 2
unfolding send_items send_from prepared acknowledged occurrences
twice = refl

abbrev before : ThreadState
before = record {
  thread_id = "t";
  channel_scope = "t";
  thread_kind = "channel";
  working_messages = [];
  working_summary = "";
  last_event_at = 0;
  metadata = [];
}

abbrev threads : Threads
threads = ("t", before) ∷ []

update_thread_after_send-messages_example :
    (messages_of "u" (update_thread_after_send "t" 5 items threads)
      ≡ messages_of "u" threads ++ replies_to "u" items)
    × IsLeft
        (replies_to "u" items)
        (lookup "u" threads)
        (lookup "u" (update_thread_after_send "t" 5 items threads))
unfolding lookup
update_thread_after_send-messages_example =
    update_thread_after_send-messages 5 "t" "u" items threads refl

abbrev replied : ThreadState
replied = record before {
  working_messages = message "assistant" "hi" ∷ message "assistant" "hi" ∷ [];
  last_event_at = 5;
}

abbrev outcome : ContextCompactionResult
outcome = record {
  compressed_messages = [];
  dropped_messages = [];
  strategy_used = none_used;
  context_window = 100;
  budget = 80;
  before_tokens = 0;
  after_tokens = 0;
  kept_turns = 0;
  dropped_turns = 0;
  summary_text = "";
}

abbrev run : RunRecord
run = record {
  run_id = "r";
  thread_id = "t";
  actor_id = "a";
  agent_id = "g";
  trigger_event_id = "e";
  status = Records.queued;
  started_at = 1;
  finished_at = none;
  error = none;
  approval_context = [];
  metadata = [];
}

abbrev world : World
world = record { runs = record Memory.init { runs = ("r", run) ∷ [] }; threads = threads }

-- The agent asks for an approval whose prompt is the action x.
abbrev context : RunContext
context = record {
  run_id = "r";
  thread_id = "t";
  user_content = "hello";
  timestamp = 5;
  record_only = false;
  deliver_actions = true;
  is_child_run = false;
  skip_agent = false;
  planned_actions = [];
  response = record {
    status = Finish.waiting_approval;
    actions = items;
    error = none;
    pending_approval =
        some (record { reason = "tool"; required_action_ids = "x" ∷ []; context = [] });
  };
  compaction = λ threads. threads;
  channel = saving_channel;
  fault = λ stage. none;
  crash_text = λ e. "pipeline crashed";
  now = 6;
}

execute-IsSettled_example :
    (after_run : RunRecord) × (lookup "r" (execute context world).1.runs.runs ≡ some after_run)
    × IsSettled context after_run.status
unfolding lookup
execute-IsSettled_example = execute-IsSettled context world run refl
