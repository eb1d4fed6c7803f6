-- ===== src/Compactor/Chain.antt =====
-- Which candidate model gives the summary.
use aca_bot.Prelude.{
  ◌+◌, ◌≤◌, String, ◌≡◌, Bool, true, false, not, ◌&&◌, List, [], ◌∷◌, ◌++◌, arith, if-holds, All,
}
use aca_bot.Threads.Records.{Message, is_text}
use aca_bot.Compactor.Config.{ContextCompactionConfig, ModelRequest, RunContext}
use aca_bot.Compactor.Text.{size, truncate_text}
use aca_bot.Compactor.Turns.{Counter}
use aca_bot.Compactor.Summarizer.{
  Reply, candidate_has_context_window, first_summary, summarize, build_prompts, summary_requests,
}
use aca_bot.Compactor.Summary.{size-truncate_text}

module _ (config : ContextCompactionConfig) (token_counter : Counter)
    (complete : (system_prompt user_prompt : String) → ModelRequest → Reply) where
  -- The candidate has room for the prompt and replies without an error.
  abbrev pub answers : (system_prompt user_prompt : String) → ModelRequest → Bool
  answers system user request =
      candidate_has_context_window config token_counter complete request user
      && not (is_text (complete system user request).error)

  -- The summary is what the first candidate that has room for the prompt and replies without an error
  -- gives, cut to the configured length.
  pub first_summary-answers :
      (system user : String) (failing later : List ModelRequest) (request : ModelRequest)
      → All (λ r. answers system user r ≡ false) failing
      → answers system user request ≡ true
      → first_summary config token_counter complete system user (failing ++ request ∷ later)
        ≡ truncate_text (complete system user request).text config.summary_max_chars
  unfolding first_summary
  first_summary-answers system user [] later request f a = ground arith
  first_summary-answers system user (r ∷ failing) later request f a =
      ground (arith, first_summary-answers system user failing later request f.1 a)

  size-first_summary :
      (system user : String) (requests : List ModelRequest)
      → size (first_summary config token_counter complete system user requests)
        ≤ config.summary_max_chars + 3
  unfolding first_summary
  size-first_summary system user [] = omega arith
  size-first_summary system user (r ∷ requests) =
      let bounded : String → Type 0 = λ t. size t ≤ config.summary_max_chars + 3 in
      let rest = size-first_summary system user requests in
      if-holds bounded (not (candidate_has_context_window config token_counter complete r user))
        (λ _. rest)
        (λ _.
          if-holds bounded (is_text (complete system user r).error) (λ _. rest)
            (λ _. size-truncate_text (complete system user r).text config.summary_max_chars))

  -- A summary of dropped messages has at most three characters more than configured.
  pub size-summarize :
      (ctx : RunContext) (message : Message) (dropped : List Message)
      → size (summarize config token_counter complete ctx (message ∷ dropped))
        ≤ config.summary_max_chars + 3
  unfolding summarize
  size-summarize ctx message dropped =
      let prompts = build_prompts config ctx (message ∷ dropped) in
      size-first_summary prompts.0 prompts.1 (summary_requests ctx.summary_model_request)
