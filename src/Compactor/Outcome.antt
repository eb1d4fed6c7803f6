-- ===== src/Compactor/Outcome.antt =====
-- A whole compaction: `compact` and `apply_to_thread` together.
use mathlib.Core.List.{Perm}
use mathlib.Core.List.Perm
use mathlib.Core.List.{append-nil, perm_middle}
use aca_bot.Prelude.{
  ℕ, zero, suc, ◌+◌, ◌≤◌, String, ◌≡◌, ◌≢◌, refl, Bool, true, false, Option, List, [], ◌∷◌, ◌++◌,
  map, keep, length, arith, if-holds, Bool-cases, inl, inr, eq_refl, eq_iff, ◌⊎◌,
}
use aca_bot.Threads.Records.{Message, ThreadState}
use aca_bot.Compactor.Config.{
  ContextCompactionConfig, ThreadCompactionSnapshot, ContextCompactionResult, RunContext,
}
use aca_bot.Compactor.Turns.{Turn, Counter, member, identify_turns, fit_turns_to_budget, range}
use aca_bot.Compactor.Compact.{
  messages_in, messages_not_in, compact, compacted, unchanged, is_within, context_window_of,
  model_of, history_budget, snapshot_thread, apply_to_thread, is_current,
}
use aca_bot.Compactor.Survival.{pinned, pinned-kept, keep-messages_in}

messages_in-Perm :
    (indexes : List ℕ) (messages : List Message) (index : ℕ)
    → Perm (messages_in index messages indexes ++ messages_not_in index messages indexes) messages
unfolding messages_in messages_not_in
messages_in-Perm indexes [] index = Perm.refl []
messages_in-Perm indexes (m ∷ messages) index = elim (Bool-cases (member index indexes)) [
  | inl q ↦
      rw (q, messages_in, messages_not_in)
        (Perm.cons m (messages_in-Perm indexes messages (suc index)))
  | inr q ↦
      rw (q, messages_in, messages_not_in)
        (Perm.trans (perm_middle (messages_in (suc index) messages indexes) _)
          (Perm.cons m (messages_in-Perm indexes messages (suc index))))
]

length-keep-le : (p : ℕ → Bool) (xs : List ℕ) → length (keep p xs) ≤ length xs
length-keep-le p [] = omega arith
length-keep-le p (x ∷ xs) =
    if-holds (λ l. length l ≤ suc (length xs)) (p x) (λ _. omega (arith, length-keep-le p xs))
      (λ _. omega (arith, length-keep-le p xs))

length-map_turns : (f : ℕ → Turn) (xs : List ℕ) → length (map f xs) ≡ length xs
length-map_turns f [] = refl
length-map_turns f (x ∷ xs) = omega (arith, length-map_turns f xs)

length-range : (start n : ℕ) → length (range start n) ≡ n
length-range start zero = refl
length-range start (suc n) = omega (arith, length-range (suc start) n)

length-fit :
    (c : Counter) (recent : ℕ) (turns : List Turn) (messages : List Message) (model : String)
    (budget : ℕ)
    → length (fit_turns_to_budget c recent turns messages model budget) ≤ length turns
unfolding fit_turns_to_budget
length-fit c recent turns messages model budget =
    omega (arith, length-map_turns, length-keep-le, length-range 0 (length turns))

module _ (config : ContextCompactionConfig) (token_counter : Counter)
    (get_model_info : String → Option ℕ) (summarizer : RunContext → List Message → String) where
  abbrev run : RunContext → ThreadCompactionSnapshot → ContextCompactionResult
  run ctx snapshot = (compact config token_counter get_model_info summarizer ctx snapshot).0

  -- What holds of both ways `compact` ends holds of its result.
  compact-holds :
      (P : ContextCompactionResult → Type 0) (ctx : RunContext)
      (snapshot : ThreadCompactionSnapshot)
      → ((window : ℕ)
          → is_within config token_counter get_model_info summarizer
              (model_of ctx.model_request)
              window
              snapshot.working_messages
            ≡ true
          → P (
              unchanged config token_counter get_model_info summarizer
                (model_of ctx.model_request)
                window
                snapshot))
      → ((window : ℕ)
          → P (compacted config token_counter get_model_info summarizer ctx window snapshot))
      → P (run ctx snapshot)
  unfolding compact
  compact-holds P ctx snapshot h k =
      if-holds P _ (λ e. h (context_window_of config get_model_info ctx.model_request) e)
        (λ _. k (context_window_of config get_model_info ctx.model_request))

  -- A compaction loses no pinned message: they are all kept, in their order.
  pub compact-pinned :
      (ctx : RunContext) (snapshot : ThreadCompactionSnapshot)
      → keep pinned (run ctx snapshot).compressed_messages ≡ keep pinned snapshot.working_messages
  unfolding unchanged compacted
  compact-pinned ctx snapshot =
      compact-holds (λ r. keep pinned r.compressed_messages ≡ keep pinned snapshot.working_messages)
        ctx snapshot (λ _ _. refl)
        (λ window. keep-messages_in pinned _ snapshot.working_messages 0 λ j m e p.
          let same : 0 + j ≡ j = omega arith in
          rw same (
            pinned-kept token_counter config.preserve_recent_turns snapshot.working_messages
              (model_of ctx.model_request) (history_budget config window) j m e p))

  -- The kept and the dropped messages together are the messages there were, and the kept and the
  -- dropped turns together the turns.
  pub compact-split :
      (ctx : RunContext) (snapshot : ThreadCompactionSnapshot)
      → Perm
          ((run ctx snapshot).compressed_messages ++ (run ctx snapshot).dropped_messages)
          snapshot.working_messages
        × ((run ctx snapshot).kept_turns + (run ctx snapshot).dropped_turns
            ≡ length (identify_turns snapshot.working_messages))
  unfolding unchanged compacted
  compact-split ctx snapshot =
      compact-holds
        (λ r.
          Perm (r.compressed_messages ++ r.dropped_messages) snapshot.working_messages
          × (r.kept_turns + r.dropped_turns ≡ length (identify_turns snapshot.working_messages)))
        ctx snapshot (λ _ _. (rw append-nil (Perm.refl snapshot.working_messages), omega arith))
        (λ window. (
          messages_in-Perm _ snapshot.working_messages 0,
          omega (
            arith,
            length-fit token_counter config.preserve_recent_turns
                (identify_turns snapshot.working_messages) snapshot.working_messages
                (model_of ctx.model_request) (history_budget config window),
          ),
        ))

is_current-snapshot : (thread : ThreadState) → is_current thread (snapshot_thread thread) ≡ true
unfolding is_current snapshot_thread
is_current-snapshot thread = rw eq_refl (ground arith)

-- A thread that has another number of messages, another last event or another summary than when the
-- snapshot was taken is left as it is, and the caller is told.
pub apply_to_thread-changed :
    (thread now : ThreadState) (result : ContextCompactionResult) (timestamp : ℕ)
    → (length now.working_messages ≢ length thread.working_messages)
      ⊎ ((now.last_event_at ≢ thread.last_event_at)
          ⊎ (now.working_summary ≢ thread.working_summary))
    → apply_to_thread now (snapshot_thread thread) result timestamp ≡ (false, now)
unfolding apply_to_thread is_current snapshot_thread
apply_to_thread-changed thread now result timestamp h =
    let stale : is_current now (snapshot_thread thread) ≡ false =
      ground (arith, eq_iff now.working_summary thread.working_summary) in
    rw (stale, apply_to_thread) refl

module _ (config : ContextCompactionConfig) (token_counter : Counter)
    (get_model_info : String → Option ℕ) (summarizer : RunContext → List Message → String) where
  -- A compaction of a thread that nothing changed meanwhile is written back, and the thread then has
  -- all of its pinned messages, in their order, and the summary of the result.
  pub apply_to_thread-compact :
      (ctx : RunContext) (thread : ThreadState) (timestamp : ℕ)
      → let result =
          (compact config token_counter get_model_info summarizer ctx (snapshot_thread thread)).0 in
        let written = apply_to_thread thread (snapshot_thread thread) result timestamp in
        (written.0 ≡ true)
        × (keep pinned written.1.working_messages ≡ keep pinned thread.working_messages)
        × (written.1.working_summary ≡ result.summary_text)
  unfolding apply_to_thread snapshot_thread
  apply_to_thread-compact ctx thread timestamp =
      rw (is_current-snapshot thread, apply_to_thread)
        (
          refl,
          compact-pinned config token_counter get_model_info summarizer ctx
              (snapshot_thread thread),
          refl,
        )
