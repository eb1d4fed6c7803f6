-- ===== src/Ingest/Delta.antt =====
-- The windows of what a thread's stores hold behind two cursors.
use Prim.Native.String
use aca_bot.Prelude.{
  ℕ, zero, suc, ◌-◌, String, Bool, true, false, ◌||◌, Option, none, List, [], ◌∷◌, map, length,
  take, drop, leb, str_eq, ◌≡◌, refl, arith, inl, inr, Bool-cases, All, All-append, All-take,
  All-sort, sort,
}
use aca_bot.Errors.{ok}
use aca_bot.Facts.Records.{Json, ChannelEventRecord, MessageRecord, event_fact, message_fact}
use aca_bot.Facts.Table.{Rows, get_thread_after_sequence}
use aca_bot.Compactor.Text.{strip}
use aca_bot.Ingest.Facts.{
  ConversationFact, OrderedFact, in_order, fact_of, ordered_event, ordered_message, ordered_facts,
  event_to_fact, message_to_fact, get_thread_delta,
}
use aca_bot.Ingest.Windows.{
  FactWindow, build_fact_id_from_conversation_fact, fact_ids, windows_from, slice_fact_windows,
  normalized_window_size, step_size,
}
use aca_bot.Ingest.Cover.{IsWindow, joined, slice_fact_windows-covers}

-- A fact of one of the two kinds that have ids.
abbrev pub IsKnown : ConversationFact → Type 0
IsKnown fact = (str_eq fact.source_kind "channel_event" || str_eq fact.source_kind "message") ≡ true

known_message : (a b : Bool) → a ≡ false → (a || b) ≡ true → b ≡ true
known_message a b e k = ground arith

build-IsKnown :
    (fact : ConversationFact)
    → IsKnown fact
    → (i : String) × (build_fact_id_from_conversation_fact fact ≡ ok i)
unfolding build_fact_id_from_conversation_fact
build-IsKnown fact k = elim (Bool-cases (str_eq fact.source_kind "channel_event")) [
  | inl e ↦ (String.◌++◌ "e:" (strip fact.source_id), rw e refl)
  | inr e ↦ (
    String.◌++◌ "m:" (strip fact.source_id),
    rw
        (
          e,
          known_message (str_eq fact.source_kind "channel_event")
              (str_eq fact.source_kind "message") e k,
        )
        refl,
  )
]

fact_ids-IsKnown :
    (facts : List ConversationFact)
    → All IsKnown facts
    → (ids : List String) × (fact_ids facts ≡ ok ids)
unfolding fact_ids
fact_ids-IsKnown [] k = ([], refl)
fact_ids-IsKnown (fact ∷ facts) k =
    let (i, e) = build-IsKnown fact k.0 in
    let (is, es) = fact_ids-IsKnown facts k.1 in (i ∷ is, rw (e, es) refl)

All-drop :
    (P : ConversationFact → Type 0) (n : ℕ) (facts : List ConversationFact)
    → All P facts
    → All P (drop n facts)
All-drop P zero facts a = a
All-drop P (suc n) [] a = tt
All-drop P (suc n) (fact ∷ facts) a = All-drop P n facts a.1

windows_from-IsKnown :
    (fuel size step : ℕ) (facts : List ConversationFact)
    → All IsKnown facts
    → (windows : List FactWindow) × (windows_from fuel size step facts ≡ ok windows)
unfolding windows_from
windows_from-IsKnown fuel size step [] k = ([], refl)
windows_from-IsKnown zero size step (fact ∷ facts) k = ([], refl)
windows_from-IsKnown (suc fuel) size step (fact ∷ facts) k =
    let all = fact ∷ facts in
    let (ids, e) = fact_ids-IsKnown (take size all) (All-take IsKnown size all k) in
    let (later, es) =
      windows_from-IsKnown fuel size step (drop step all) (All-drop IsKnown step all k) in
    elim (Bool-cases (leb (length all) size)) [
      | inl l ↦ (record { facts = take size all; fact_ids = ids } ∷ [], rw (e, l) refl)
      | inr l ↦ (record { facts = take size all; fact_ids = ids } ∷ later, rw (e, l, es) refl)
    ]

All-map :
    {A : Type 0} (P : ConversationFact → Type 0) (f : A → ConversationFact) (xs : List A)
    → All (λ x. P (f x)) xs
    → All P (map f xs)
All-map P f [] a = tt
All-map P f (x ∷ xs) a = (a.0, All-map P f xs a.1)

All-from :
    {A : Type 0} (P : OrderedFact → Type 0) (f : A → OrderedFact) (each : (x : A) → P (f x))
    (xs : List A)
    → All P (map f xs)
All-from P f each [] = tt
All-from P f each (x ∷ xs) = (each x, All-from P f each xs)

module _ (metadata_text : String → Json → String) where
  ordered_facts-IsKnown :
      (events : Rows ChannelEventRecord) (messages : Rows MessageRecord)
      → All (λ o. IsKnown (fact_of o)) (ordered_facts metadata_text events messages)
  unfolding ordered_facts event_to_fact message_to_fact
  ordered_facts-IsKnown events messages =
      All-append (λ o. IsKnown (fact_of o)) (map (ordered_event metadata_text) events)
        (map (ordered_message metadata_text) messages)
        (All-from (λ o. IsKnown (fact_of o)) (ordered_event metadata_text) (λ x. refl) events)
        (All-from (λ o. IsKnown (fact_of o)) (ordered_message metadata_text) (λ x. refl) messages)

  pub get_thread_delta-IsKnown :
      (thread_id : String) (after_event_id after_message_id : Option ℕ)
      (events : Rows ChannelEventRecord) (messages : Rows MessageRecord)
      → All IsKnown
          (get_thread_delta metadata_text thread_id after_event_id after_message_id events
            messages).facts
  unfolding get_thread_delta
  get_thread_delta-IsKnown thread_id after_event_id after_message_id events messages =
      let event_rows =
        get_thread_after_sequence event_fact thread_id after_event_id none none events in
      let message_rows =
        get_thread_after_sequence message_fact thread_id after_message_id none none messages in
      let facts = ordered_facts metadata_text event_rows message_rows in
      All-map IsKnown fact_of (sort in_order facts) (
        All-sort in_order (λ o. IsKnown (fact_of o)) facts
          (ordered_facts-IsKnown event_rows message_rows))

  -- What the stores hold of a thread behind the cursors is cut into windows without an error, each
  -- with at least one fact, at most as many as the window size, at least 1, and the ids of its
  -- facts; the first window and, of each later one, the facts behind the overlap are together all
  -- facts of the delta, in order.
  pub slice_fact_windows-get_thread_delta :
      (thread_id : String) (after_event_id after_message_id : Option ℕ)
      (events : Rows ChannelEventRecord) (messages : Rows MessageRecord)
      (window_size overlap_size : ℕ)
      → let delta =
          get_thread_delta metadata_text thread_id after_event_id after_message_id events
            messages in
        let facts = delta.facts in
        let size = normalized_window_size window_size in
        let step = step_size window_size overlap_size in
        (windows : List FactWindow) × (slice_fact_windows facts window_size overlap_size
          ≡ ok windows)
        × All (IsWindow size) windows
        × (joined (size - step) windows ≡ facts)
  unfolding slice_fact_windows
  slice_fact_windows-get_thread_delta thread_id a b events messages window_size overlap_size =
      let facts = (get_thread_delta metadata_text thread_id a b events messages).facts in
      let (windows, h) =
        windows_from-IsKnown (length facts) (normalized_window_size window_size)
          (step_size window_size overlap_size) facts
          (get_thread_delta-IsKnown thread_id a b events messages) in
      let (shape, all) = slice_fact_windows-covers facts window_size overlap_size windows h in
      (windows, h, shape, all)
