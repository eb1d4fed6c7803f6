-- ===== src/Compactor/Fits.antt =====
-- How many tokens the messages have that a compaction keeps, where no token counter is at hand.
use aca_bot.Prelude.{
  ℕ, zero, suc, ◌+◌, ◌≤◌, ◌<◌, max, String, ◌≡◌, refl, sym, ap, subst, true, Option, some, List, [],
  ◌∷◌, ◌++◌, map, keep, length, arith, if◌then◌else◌, Bool-cases, inl, inr, ◌∙◌, get_elem?,
}
use aca_bot.Threads.Records.{Message}
use aca_bot.Compactor.Config.{ContextCompactionConfig, ThreadCompactionSnapshot, RunContext}
use aca_bot.Compactor.Turns.{
  Turn, member, turn_at, turn_tokens, tokens_upto, range, estimate, count_tokens, identify_turns,
  kept_turn_indexes, fit_turns_to_budget, forced_turn_indexes,
}
use aca_bot.Compactor.Compact.{concat, messages_in, compacted, history_budget, model_of}
use aca_bot.Compactor.Budget.{member-append, member-range, kept-budget}
use aca_bot.Compactor.Partition.{identify_turns-concat}
use aca_bot.Compactor.Survival.{concat-kept}
use aca_bot.Compactor.Weights.{
  no_counter, turn_at-same, upto, upto-all, sum_if, sum_if-append, sum_if-within, sum_if-outside,
  estimate-messages_in,
}

kept-turn :
    (turns : List Turn) (kept : List ℕ) (i : ℕ) (js : List ℕ)
    → member i (concat (map (turn_at turns) (keep (λ j. member j kept) js))) ≡ true
    → (t : ℕ) × (member t kept ≡ true) × (member i (turn_at turns t) ≡ true)
kept-turn turns kept i [] h = absurd (unfold member in ground arith)
kept-turn turns kept i (j ∷ js) h = elim (Bool-cases (member j kept)) [
  | inr e ↦ kept-turn turns kept i js (rw e at h)
  | inl e ↦
      let both : member i
            (turn_at turns j ++ concat (map (turn_at turns) (keep (λ t. member t kept) js)))
          ≡ true =
        (rw e at h) in
      elim (Bool-cases (member i (turn_at turns j))) [
        | inl own ↦ (j, e, own)
        | inr other ↦ kept-turn turns kept i js (rw (member-append, other) at both)
      ]
]

module _ (model : String) (messages : List Message) (kept : List ℕ) where
  abbrev turns : List Turn
  turns = identify_turns messages

  -- The indexes of the messages of the kept turns.
  abbrev set : List ℕ
  set = concat (map (turn_at turns) (keep (λ i. member i kept) (range 0 (length turns))))

  sum_if-turn :
      (j : ℕ)
      → j < length turns
      → sum_if messages set (turn_at turns j)
        ≡ (if member j kept then turn_tokens no_counter model messages turns j else 0)
  unfolding turn_tokens count_tokens
  sum_if-turn j l = elim (Bool-cases (member j kept)) [
    | inl e ↦ rw e (
        sum_if-within messages set (turn_at turns j) λ i own.
          concat-kept turns kept i j (range 0 (length turns))
            (member-range j 0 (length turns) (omega arith) (omega arith)) e own)
    | inr e ↦ rw e (
        sum_if-outside messages set (turn_at turns j) λ i own. elim (Bool-cases (member i set)) [
          | inr out ↦ out
          | inl inside ↦ absurd (
              let (t, k, other) = kept-turn turns kept i (range 0 (length turns)) inside in
              let same : j ≡ t =
                turn_at-same turns 0 (length messages) i j t (identify_turns-concat messages) own
                  other in
              cc (same, e, k))
        ])
  ]

  sum_if-upto :
      (n : ℕ)
      → n ≤ length turns
      → sum_if messages set (upto turns n) ≡ tokens_upto no_counter model messages turns n kept
  unfolding upto tokens_upto
  sum_if-upto zero l = unfold sum_if in refl
  sum_if-upto (suc n) l =
      let before = sum_if-upto n (omega arith) in
      let own = sum_if-turn n (omega arith) in
      sum_if-append messages set (upto turns n) (turn_at turns n)
      ∙ (elim (Bool-cases (member n kept)) [
        | inl e ↦ rw e (ground (arith, before, own))
        | inr e ↦ rw e (ground (arith, before, own))
      ])

  pub estimate-kept :
      estimate (messages_in 0 messages set)
      ≡ tokens_upto no_counter model messages turns (length turns) kept
  estimate-kept =
      let start : (j : ℕ) (m : Message)
          → get_elem? messages j ≡ some m
          → get_elem? messages (0 + j) ≡ some m =
        λ j m e. subst (λ n. get_elem? messages n ≡ some m) (omega arith) e in
      estimate-messages_in messages set messages 0 start
      ∙ ap (sum_if messages set) (sym (upto-all turns ∙ identify_turns-concat messages))
      ∙ sum_if-upto (length turns) (omega arith)

module _ (config : ContextCompactionConfig) (get_model_info : String → Option ℕ)
    (summarizer : RunContext → List Message → String) where
  -- Without a token counter the messages that the compaction keeps have no more tokens than the
  -- budget, or than the turns that have to be kept.
  pub after_tokens-compacted :
      (ctx : RunContext) (window : ℕ) (snapshot : ThreadCompactionSnapshot)
      → let result = compacted config no_counter get_model_info summarizer ctx window snapshot in
        let turns = identify_turns snapshot.working_messages in
        result.after_tokens
        ≤ max result.budget (
            tokens_upto no_counter
              (model_of ctx.model_request)
              snapshot.working_messages
              turns
              (length turns)
              (forced_turn_indexes config.preserve_recent_turns turns snapshot.working_messages))
  unfolding compacted fit_turns_to_budget count_tokens
  after_tokens-compacted ctx window snapshot =
      let model = model_of ctx.model_request in
      let messages = snapshot.working_messages in
      let turns = identify_turns messages in
      let budget = history_budget config window in
      rw
        (estimate-kept model messages
          (kept_turn_indexes no_counter config.preserve_recent_turns turns messages model budget))
        (kept-budget no_counter config.preserve_recent_turns turns messages model budget)
