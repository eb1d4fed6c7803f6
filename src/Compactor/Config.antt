-- ===== src/Compactor/Config.antt =====
-- The configuration, the snapshot and the result of a compaction
-- (src/acabot/runtime/memory/context_compactor.py), and what is read of the run context.
use aca_bot.Prelude.{ℕ, String, Bool, Option, List}
use aca_bot.Threads.Records.{Message, ThreadState}

pub data Strategy : Type 0 where
  truncate summarize : Strategy

pub record ContextCompactionConfig : Type 0 where
  pub enabled : Bool
  pub strategy : Strategy
  -- `int(context_window * max_context_ratio)`, a product with a float.
  pub max_context_share : ℕ → ℕ
  pub preserve_recent_turns : ℕ
  pub system_prompt_reserve_tokens : ℕ
  pub prompt_slot_reserve_tokens : ℕ
  pub tool_schema_reserve_tokens : ℕ
  pub summary_max_chars : ℕ
  pub summary_system_prompt : String
  pub update_summary_system_prompt : String
  pub fallback_context_window : ℕ

-- `strategy_used`
pub data StrategyUsed : Type 0 where
  none_used truncate_used summarize_used : StrategyUsed

pub record ContextCompactionResult : Type 0 where
  pub compressed_messages : List Message
  pub dropped_messages : List Message
  pub strategy_used : StrategyUsed
  pub context_window : ℕ
  pub budget : ℕ
  pub before_tokens : ℕ
  pub after_tokens : ℕ
  pub kept_turns : ℕ
  pub dropped_turns : ℕ
  pub summary_text : String

pub record ThreadCompactionSnapshot : Type 0 where
  pub working_messages : List Message
  pub working_summary : String
  pub last_event_at : ℕ
  pub message_count : ℕ

pub record ModelRequest : Type 0 where
  pub model : String
  pub context_window : ℕ

-- A request with the ones to fall back on.
pub record SummaryRequest : Type 0 where
  pub request : ModelRequest
  pub fallback_requests : List ModelRequest

-- `ctx.metadata["token_stats"]`
pub record TokenStats : Type 0 where
  pub context_window : ℕ
  pub budget : ℕ
  pub system_prompt_reserve_tokens : ℕ
  pub prompt_slot_reserve_tokens : ℕ
  pub tool_schema_reserve_tokens : ℕ
  pub before_compression : ℕ
  pub after_compression : ℕ
  pub messages_dropped : ℕ
  pub turns_kept : ℕ
  pub turns_dropped : ℕ
  pub strategy_used : StrategyUsed
  pub model : String

-- The fields of the run context that the compactor reads and writes; `strategy` is the text under
-- `context_management` in the agent's configuration.
pub record RunContext : Type 0 where
  pub thread : ThreadState
  pub strategy : String
  pub model_request : Option ModelRequest
  pub summary_model_request : Option SummaryRequest
  pub token_stats : Option TokenStats
