-- ===== src/Compactor/Tests.antt =====
-- Examples of the compactor's theorems.
use mathlib.Core.List.{Perm}
use aca_bot.Prelude.{
  ℕ, ◌+◌, ◌≤◌, max, String, ◌≡◌, refl, Bool, true, false, Option, none, List, [], ◌∷◌, ◌++◌, keep,
  length, str_eq, if◌then◌else◌,
}
use aca_bot.Threads.Records.{Message, ThreadState, plain}
use aca_bot.Compactor.Config.{
  ContextCompactionConfig, truncate, ModelRequest, RunContext, ContextCompactionResult,
}
use aca_bot.Compactor.Turns.{
  Turn, identify_turns, member, tokens_upto, forced_turn_indexes, kept_turn_indexes,
}
use aca_bot.Compactor.Compact.{compact, compacted, snapshot_thread, apply_to_thread}
use aca_bot.Compactor.Summarizer.{null_summarizer, Reply}
use aca_bot.Compactor.Budget.{kept-budget}
use aca_bot.Compactor.Survival.{pinned}
use aca_bot.Compactor.Outcome.{compact-pinned, compact-split, apply_to_thread-compact}
use aca_bot.Compactor.Weights.{no_counter as no_tokens}
use aca_bot.Compactor.Fits.{after_tokens-compacted}

abbrev said : (role text : String) → Bool → Message
said role text is_pinned = record {
  role = role;
  content = plain text;
  tool_calls = none;
  tool_call_id = none;
  pinned = is_pinned;
  rest = [];
}

-- Three turns, of which the first is pinned.
abbrev messages : List Message
messages =
    said "user" "remember this" true
    ∷ said "assistant" "noted" false
    ∷ said "user" "a long story that takes room" false
    ∷ said "assistant" "I see" false
    ∷ said "user" "hello" false
    ∷ []

abbrev config : ContextCompactionConfig
config = record {
  enabled = true;
  strategy = truncate;
  max_context_share = λ window. window;
  preserve_recent_turns = 1;
  system_prompt_reserve_tokens = 2;
  prompt_slot_reserve_tokens = 1;
  tool_schema_reserve_tokens = 1;
  summary_max_chars = 20;
  summary_system_prompt = "Summarize.";
  update_summary_system_prompt = "Update.";
  fallback_context_window = 12;
}

abbrev thread : ThreadState
thread = record {
  thread_id = "t1";
  channel_scope = "qq";
  thread_kind = "channel";
  working_messages = messages;
  working_summary = "";
  last_event_at = 100;
  metadata = [];
}

abbrev context : RunContext
context = record {
  thread = thread;
  strategy = "";
  model_request = none;
  summary_model_request = none;
  token_stats = none;
}

abbrev no_counter : String → List Message → Option ℕ
no_counter model told = none

abbrev no_info : String → Option ℕ
no_info model = none

abbrev outcome : ContextCompactionResult
outcome = (compact config no_counter no_info null_summarizer context (snapshot_thread thread)).0

compact-pinned_example :
    keep pinned outcome.compressed_messages ≡ keep pinned (snapshot_thread thread).working_messages
compact-pinned_example =
    compact-pinned config no_counter no_info null_summarizer context (snapshot_thread thread)

compact-split_example :
    Perm
      (outcome.compressed_messages ++ outcome.dropped_messages)
      (snapshot_thread thread).working_messages
    × (outcome.kept_turns + outcome.dropped_turns
        ≡ length (identify_turns (snapshot_thread thread).working_messages))
compact-split_example =
    compact-split config no_counter no_info null_summarizer context (snapshot_thread thread)

apply_to_thread-compact_example :
    let written = apply_to_thread thread (snapshot_thread thread) outcome 120 in
    (written.0 ≡ true)
    × (keep pinned written.1.working_messages ≡ keep pinned thread.working_messages)
    × (written.1.working_summary ≡ outcome.summary_text)
apply_to_thread-compact_example =
    apply_to_thread-compact config no_counter no_info null_summarizer context thread 120

abbrev turns : List Turn
turns = (0 ∷ 1 ∷ []) ∷ (2 ∷ 3 ∷ []) ∷ (4 ∷ []) ∷ []

kept-budget_example :
    tokens_upto no_counter "" messages turns 3 (kept_turn_indexes no_counter 1 turns messages "" 8)
    ≤ max 8 (tokens_upto no_counter "" messages turns 3 (forced_turn_indexes 1 turns messages))
kept-budget_example = kept-budget no_counter 1 turns messages "" 8

-- The second turn is dropped.
second_out : member 1 (kept_turn_indexes no_counter 1 turns messages "" 8) ≡ false
unfolding kept_turn_indexes
second_out = refl

abbrev candidate : String → ModelRequest
candidate model = record { model = model; context_window = 0 }

-- The first model fails.
abbrev reply : (system_prompt user_prompt : String) → ModelRequest → Reply
reply system user request = record {
  error = if str_eq request.model "bad" then "down" else "";
  text = " a summary ";
}

after_tokens-compacted_example :
    let result =
      compacted config no_tokens no_info null_summarizer context 12 (snapshot_thread thread) in
    result.after_tokens
    ≤ max result.budget (
        tokens_upto no_tokens "" messages
          (identify_turns messages)
          (length (identify_turns messages))
          (forced_turn_indexes 1 (identify_turns messages) messages))
unfolding snapshot_thread
after_tokens-compacted_example =
    after_tokens-compacted config no_info null_summarizer context 12 (snapshot_thread thread)
