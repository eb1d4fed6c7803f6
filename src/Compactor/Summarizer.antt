-- ===== src/Compactor/Summarizer.antt =====
-- `ModelContextSummarizer` of src/acabot/runtime/memory/context_compactor.py: the prompts, the chain
-- of candidate models and the summary. `complete` is the agent's single completion, with what it
-- replies; an exception that it raises is not modelled.
use Prim.Native.String.{◌++◌ as append}
use aca_bot.Prelude.{
  ℕ, ◌+◌, max, String, Bool, false, ◌||◌, not, Option, none, some, List, [], ◌∷◌, leb, ◌==◌,
  if◌then◌else◌,
}
use aca_bot.Threads.Records.{Message, Content, plain, other, ToolCalls, is_text}
use aca_bot.Compactor.Config.{ContextCompactionConfig, ModelRequest, SummaryRequest, RunContext}
use aca_bot.Compactor.Text.{strip, truncate_text}
use aca_bot.Compactor.Turns.{Counter, count_tokens}

-- The texts after one another.
abbrev joined : List String → String
joined [] = ""
joined (text ∷ texts) = append text (joined texts)

abbrev shown_content : Content → String
shown_content (plain text) = text
shown_content (other shown) = shown

abbrev add_calls : Option ToolCalls → String → String
add_calls none serialized = serialized
add_calls (some calls) serialized =
    if calls.is_empty
    then serialized
    else strip (joined (serialized ∷ "\n[tool_calls] " ∷ calls.shown ∷ []))

abbrev add_call_id : Option String → String → String
add_call_id none serialized = serialized
add_call_id (some id) serialized =
    if is_text id then strip (joined (serialized ∷ "\n[tool_call_id] " ∷ id ∷ [])) else serialized

unfoldable pub serialize_message_content : Message → String
unfolding strip is_text
serialize_message_content message =
    add_call_id message.tool_call_id
      (add_calls message.tool_calls (strip (shown_content message.content)))

-- `"\n".join(lines)`, for lines that are not empty.
abbrev add_line : String → String → String
add_line line lines = if is_text lines then joined (line ∷ "\n" ∷ lines ∷ []) else line

unfoldable pub serialize_messages : List Message → String
unfolding serialize_message_content is_text
serialize_messages [] = ""
serialize_messages (message ∷ messages) =
    let content = serialize_message_content message in
    let role = if is_text message.role then message.role else "unknown" in
    let rest = serialize_messages messages in
    if is_text content then add_line (joined (role ∷ ": " ∷ content ∷ [])) rest else rest

unfoldable pub build_prompts : ContextCompactionConfig → RunContext → List Message → String × String
unfolding serialize_messages strip is_text
build_prompts config ctx dropped =
    let serialized = serialize_messages dropped in
    let current_summary = strip ctx.thread.working_summary in
    if is_text current_summary
    then (
      config.update_summary_system_prompt,
      joined (
          "Existing summary:\n<summary>\n" ∷ current_summary
          ∷ "\n</summary>\n\nNewly compacted conversation:\n<conversation>\n" ∷ serialized
          ∷ "\n</conversation>\n\nReturn the updated summary only." ∷ []),
    )
    else (
      config.summary_system_prompt,
      joined (
          "Compacted conversation history:\n<conversation>\n" ∷ serialized
          ∷ "\n</conversation>\n\nReturn the summary only." ∷ []),
    )

unfoldable pub summary_requests : Option SummaryRequest → List ModelRequest
summary_requests none = []
summary_requests (some request) = request.request ∷ request.fallback_requests

-- `NullContextSummarizer`
unfoldable pub null_summarizer : RunContext → List Message → String
null_summarizer ctx dropped = ""

pub record Reply : Type 0 where
  pub error : String
  pub text : String

abbrev user_message : String → Message
user_message prompt = record {
  role = "user";
  content = plain prompt;
  tool_calls = none;
  tool_call_id = none;
  pinned = false;
  rest = [];
}

module _ (config : ContextCompactionConfig) (token_counter : Counter)
    (complete : (system_prompt user_prompt : String) → ModelRequest → Reply) where
  unfoldable pub estimate_summary_tokens : (model user_prompt : String) → ℕ
  unfolding count_tokens
  estimate_summary_tokens model user_prompt = max 1 (
      count_tokens token_counter model (user_message user_prompt ∷ [])
      + config.system_prompt_reserve_tokens)

  unfoldable pub candidate_has_context_window : ModelRequest → (user_prompt : String) → Bool
  unfolding estimate_summary_tokens
  candidate_has_context_window request user_prompt =
      request.context_window == 0
      || leb (estimate_summary_tokens request.model user_prompt) request.context_window

  -- The loop over the candidates.
  unfoldable pub first_summary : (system_prompt user_prompt : String) → List ModelRequest → String
  unfolding candidate_has_context_window is_text truncate_text
  first_summary system_prompt user_prompt [] = ""
  first_summary system_prompt user_prompt (request ∷ requests) =
      let reply = complete system_prompt user_prompt request in
      let later = first_summary system_prompt user_prompt requests in
      if not (candidate_has_context_window request user_prompt)
      then later
      else if is_text reply.error
      then later
      else truncate_text reply.text config.summary_max_chars

  abbrev answer : RunContext → List Message → String
  answer ctx dropped =
      let prompts = build_prompts config ctx dropped in
      first_summary prompts.0 prompts.1 (summary_requests ctx.summary_model_request)

  unfoldable pub summarize : RunContext → List Message → String
  unfolding strip build_prompts first_summary summary_requests
  summarize ctx [] = strip ctx.thread.working_summary
  summarize ctx (message ∷ dropped) = answer ctx (message ∷ dropped)
