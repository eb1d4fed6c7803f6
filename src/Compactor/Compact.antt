-- ===== src/Compactor/Compact.antt =====
-- `ContextCompactor` of src/acabot/runtime/memory/context_compactor.py: `snapshot_thread`, `compact`
-- and `apply_to_thread`. `get_model_info` is LiteLLM's: the maximum of input tokens of the model, and
-- nothing where it is missing, raises, or gives no `int`.
use aca_bot.Prelude.{
  ℕ, suc, ◌-◌, ◌+◌, max, String, Bool, true, false, ◌||◌, ◌&&◌, not, Option, none, some, List, [],
  ◌∷◌, ◌++◌, length, str_eq, leb, ltb, ◌==◌, if◌then◌else◌, insert, Dict,
}
use aca_bot.Threads.Records.{Message, ThreadState, Value, number, is_text}
use aca_bot.Compactor.Config.{
  Strategy, truncate, summarize, ContextCompactionConfig, StrategyUsed, none_used, truncate_used,
  summarize_used, ContextCompactionResult, ThreadCompactionSnapshot, ModelRequest, RunContext,
}
use aca_bot.Compactor.Text.{strip}
use aca_bot.Compactor.Turns.{
  Turn, Counter, count_tokens, identify_turns, fit_turns_to_budget, member,
}

unfoldable pub snapshot_thread : ThreadState → ThreadCompactionSnapshot
snapshot_thread thread = record {
  working_messages = thread.working_messages;
  working_summary = thread.working_summary;
  last_event_at = thread.last_event_at;
  message_count = length thread.working_messages;
}

abbrev pub concat : List Turn → List ℕ
concat [] = []
concat (turn ∷ turns) = turn ++ concat turns

-- The messages whose index the set has, counted from `index` on.
unfoldable pub messages_in : (index : ℕ) → List Message → (indexes : List ℕ) → List Message
unfolding member
messages_in index [] indexes = []
messages_in index (message ∷ messages) indexes =
    let rest = messages_in (suc index) messages indexes in
    if member index indexes then message ∷ rest else rest

unfoldable pub messages_not_in : (index : ℕ) → List Message → (indexes : List ℕ) → List Message
unfolding member
messages_not_in index [] indexes = []
messages_not_in index (message ∷ messages) indexes =
    let rest = messages_not_in (suc index) messages indexes in
    if member index indexes then rest else message ∷ rest

unfoldable pub effective_config :
    ContextCompactionConfig → (strategy : String) → ContextCompactionConfig
unfolding strip
effective_config config strategy =
    if str_eq (strip strategy) "truncate"
    then record config { strategy = truncate }
    else if str_eq (strip strategy) "summarize"
    then record config { strategy = summarize }
    else config

unfoldable pub history_budget : ContextCompactionConfig → (context_window : ℕ) → ℕ
history_budget config context_window = max 1 (
    config.max_context_share context_window
    - (config.system_prompt_reserve_tokens + config.prompt_slot_reserve_tokens
        + config.tool_schema_reserve_tokens))

abbrev pub model_of : Option ModelRequest → String
model_of none = ""
model_of (some request) = request.model

abbrev requested_window : Option ModelRequest → ℕ
requested_window none = 0
requested_window (some request) = request.context_window

module _ (config : ContextCompactionConfig) (get_model_info : String → Option ℕ) where
  unfoldable pub get_context_window : (model : String) → ℕ
  get_context_window model = elim (get_model_info model) [
    | none ↦ config.fallback_context_window
    | some window ↦ if ltb 0 window then window else config.fallback_context_window
  ]

  unfoldable pub context_window_of : Option ModelRequest → ℕ
  unfolding get_context_window
  context_window_of request =
      if ltb 0 (requested_window request)
      then requested_window request
      else get_context_window (model_of request)

unfoldable pub write_stats :
    ContextCompactionConfig → ContextCompactionResult → RunContext → RunContext
write_stats config result ctx = record ctx {
  token_stats = some (record {
    context_window = result.context_window;
    budget = result.budget;
    system_prompt_reserve_tokens = config.system_prompt_reserve_tokens;
    prompt_slot_reserve_tokens = config.prompt_slot_reserve_tokens;
    tool_schema_reserve_tokens = config.tool_schema_reserve_tokens;
    before_compression = result.before_tokens;
    after_compression = result.after_tokens;
    messages_dropped = length result.dropped_messages;
    turns_kept = result.kept_turns;
    turns_dropped = result.dropped_turns;
    strategy_used = result.strategy_used;
    model = model_of ctx.model_request;
  });
}

-- The summary in force and the strategy used, after the summarizer gave `summary`.
abbrev pub summarized : (old : String) → (summary : String) → String × StrategyUsed
summarized old summary =
    if is_text (strip summary) then (strip summary, summarize_used) else (old, truncate_used)

abbrev pub with_summary : Strategy → (old : String) → (summary : String) → String × StrategyUsed
with_summary truncate old summary = (old, truncate_used)
with_summary summarize old summary = summarized old summary

module _ (config : ContextCompactionConfig) (token_counter : Counter)
    (get_model_info : String → Option ℕ) (summarizer : RunContext → List Message → String) where
  unfoldable pub unchanged :
      (model : String) → (context_window : ℕ) → ThreadCompactionSnapshot → ContextCompactionResult
  unfolding count_tokens history_budget identify_turns strip
  unchanged model context_window snapshot = record {
    compressed_messages = snapshot.working_messages;
    dropped_messages = [];
    strategy_used = none_used;
    context_window = context_window;
    budget = history_budget config context_window;
    before_tokens = count_tokens token_counter model snapshot.working_messages;
    after_tokens = count_tokens token_counter model snapshot.working_messages;
    kept_turns = length (identify_turns snapshot.working_messages);
    dropped_turns = 0;
    summary_text = strip snapshot.working_summary;
  }

  -- The phases from the choice of the turns on.
  unfoldable pub compacted :
      RunContext → (context_window : ℕ) → ThreadCompactionSnapshot → ContextCompactionResult
  unfolding count_tokens history_budget identify_turns strip effective_config fit_turns_to_budget
      messages_in messages_not_in
  compacted ctx context_window snapshot =
      let model = model_of ctx.model_request in
      let messages = snapshot.working_messages in
      let budget = history_budget config context_window in
      let turns = identify_turns messages in
      let kept =
        fit_turns_to_budget token_counter config.preserve_recent_turns turns messages model
          budget in
      let compressed = messages_in 0 messages (concat kept) in
      let dropped = messages_not_in 0 messages (concat kept) in
      let (summary, used) =
        with_summary (effective_config config ctx.strategy).strategy
          (strip snapshot.working_summary) (summarizer ctx dropped) in
      record {
        compressed_messages = compressed;
        dropped_messages = dropped;
        strategy_used = used;
        context_window = context_window;
        budget = budget;
        before_tokens = count_tokens token_counter model messages;
        after_tokens = count_tokens token_counter model compressed;
        kept_turns = length kept;
        dropped_turns = length turns - length kept;
        summary_text = summary;
      }

  unfoldable pub is_within : (model : String) → (context_window : ℕ) → List Message → Bool
  unfolding count_tokens history_budget
  is_within model context_window messages =
      not config.enabled
      || length messages == 0
      || leb (count_tokens token_counter model messages) (history_budget config context_window)

  unfoldable pub compact :
      RunContext → ThreadCompactionSnapshot → ContextCompactionResult × RunContext
  unfolding context_window_of is_within unchanged compacted write_stats
  compact ctx snapshot =
      let model = model_of ctx.model_request in
      let context_window = context_window_of config get_model_info ctx.model_request in
      let result =
        if is_within model context_window snapshot.working_messages
        then unchanged model context_window snapshot
        else compacted ctx context_window snapshot in
      (result, write_stats config result ctx)

abbrev stamp_summary : StrategyUsed → ℕ → Dict Value → Dict Value
stamp_summary summarize_used timestamp metadata =
    insert "summary_updated_at" (number timestamp) metadata
stamp_summary _ timestamp metadata = metadata

-- Whether the thread is still what the snapshot took, by the three checks.
unfoldable pub is_current : ThreadState → ThreadCompactionSnapshot → Bool
is_current thread snapshot =
    length thread.working_messages == snapshot.message_count
    && thread.last_event_at == snapshot.last_event_at
    && str_eq thread.working_summary snapshot.working_summary

unfoldable pub apply_to_thread :
    ThreadState
    → ThreadCompactionSnapshot
    → ContextCompactionResult
    → (timestamp : ℕ) → Bool × ThreadState
unfolding is_current insert
apply_to_thread thread snapshot result timestamp =
    if is_current thread snapshot
    then (
      true,
      record thread {
        working_messages = result.compressed_messages;
        working_summary = result.summary_text;
        metadata = stamp_summary result.strategy_used timestamp (
            insert "dropped_message_count" (number (length result.dropped_messages))
              (insert "compressed_at" (number timestamp) thread.metadata));
      },
    )
    else (false, thread)
