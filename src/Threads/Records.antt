-- ===== src/Threads/Records.antt =====
-- Threads as the managers hold and store them: `ThreadState` and `ThreadRecord` of
-- src/acabot/runtime/contracts/records.py, and the messages of their working memory.
use aca_bot.Prelude.{ℕ, String, Bool, Option, List, Dict, not, str_eq}

-- A value of a `dict[str, Any]`.
pub data Value : Type 0 where
  text : String → Value
  number : ℕ → Value

-- The content of a message: a text, or anything else with what `str` shows of it.
pub data Content : Type 0 where
  plain : String → Content
  other : (shown : String) → Content

pub record ToolCalls : Type 0 where
  pub is_empty : Bool
  pub shown : String

-- A message of the working memory: the keys that the program reads, and the others.
pub record Message : Type 0 where
  pub role : String
  pub content : Content
  pub tool_calls : Option ToolCalls
  pub tool_call_id : Option String
  pub pinned : Bool
  pub rest : Dict Value

-- The `lock` is left out: it is made anew and never compared.
pub record ThreadState : Type 0 where
  pub thread_id : String
  pub channel_scope : String
  pub thread_kind : String
  pub working_messages : List Message
  pub working_summary : String
  pub last_event_at : ℕ
  pub metadata : Dict Value

pub record ThreadRecord : Type 0 where
  pub thread_id : String
  pub channel_scope : String
  pub thread_kind : String
  pub working_messages : List Message
  pub working_summary : String
  pub last_event_at : ℕ
  pub metadata : Dict Value

-- Python's truth of a text.
unfoldable pub is_text : String → Bool
is_text s = not (str_eq s "")
