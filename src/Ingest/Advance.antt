-- ===== src/Ingest/Advance.antt =====
-- When the cursor of a thread moves.
use aca_bot.Prelude.{
  ℕ, String, true, false, Option, List, ◌≡◌, ◌⊎◌, refl, sym, subst, ◌∙◌, ap, inl, inr, Option-cases,
  Bool-cases, lookup, insert, All,
}
use aca_bot.Errors.{Result, ok, err}
use aca_bot.Facts.Records.{Json}
use aca_bot.Tasks.{Task, after, bind-holds, bind_ok, lift, ◌>>=◌}
use aca_bot.Ingest.Facts.{ConversationFact, ConversationDelta, get_thread_delta}
use aca_bot.Ingest.Windows.{FactWindow, slice_fact_windows, derive_conversation_id_from_delta}
use aca_bot.Ingest.World.{Services, World, ThreadLtmCursor, next_call, load_cursor, save_cursor}
use aca_bot.Ingest.Write.{ThreadLtmIngestResult, has_facts, ingest_thread_delta}
use aca_bot.Ingest.Process.{
  FactStores, cursor_or_new, advanced, read_delta, try_save_cursor, advance_after, ingest_delta,
  process_thread,
}
use aca_bot.Ingest.Grows.{
  Growing, bind-Growing, lift-Growing, store_call-fine, store_call-fault, ingest_windows-Growing,
  Grows-refl,
}
use aca_bot.Ingest.Accounted.{IsHandled, ingest_windows-IsHandled}

module _ {Entry Vector : Type 0} (s : Services Entry Vector) (window_size overlap_size : ℕ) where
  ingest_thread_delta-Growing :
      (delta : ConversationDelta) → Growing (ingest_thread_delta s window_size overlap_size delta)
  unfolding ingest_thread_delta
  ingest_thread_delta-Growing delta w = elim (Bool-cases (has_facts delta.facts)) [
    | inl e ↦
        rw (e, ingest_thread_delta)
          (bind-Growing (lift (derive_conversation_id_from_delta delta.facts)) _
            (lift-Growing (derive_conversation_id_from_delta delta.facts))
            (λ conversation_id.
              bind-Growing (lift (slice_fact_windows delta.facts window_size overlap_size)) _
                (lift-Growing (slice_fact_windows delta.facts window_size overlap_size))
                (ingest_windows-Growing s conversation_id false))
            w)
    | inr e ↦ rw (e, ingest_thread_delta) (Grows-refl w)
  ]

  -- All windows of the delta are handled, for one conversation.
  abbrev pub IsDone : World Entry Vector → List ConversationFact → Type 0
  IsDone v facts =
      (conversation_id : String) × (windows : List FactWindow) × (slice_fact_windows facts
          window_size overlap_size
        ≡ ok windows)
      × All (IsHandled s conversation_id v) windows

  ingest_thread_delta-IsDone :
      (delta : ConversationDelta) (w v : World Entry Vector) (r : ThreadLtmIngestResult)
      → has_facts delta.facts ≡ true
      → ingest_thread_delta s window_size overlap_size delta w ≡ (ok r, v)
      → r.advance_cursor ≡ true
      → IsDone v delta.facts
  unfolding ingest_thread_delta
  ingest_thread_delta-IsDone delta w v r e h a =
      let h0 = rw (e, ingest_thread_delta) at h in
      let (conversation_id, w1, x, h1) =
        bind_ok (lift (derive_conversation_id_from_delta delta.facts)) _ w v r h0 in
      let (windows, w2, y, h2) =
        bind_ok (lift (slice_fact_windows delta.facts window_size overlap_size)) _ w1 v r h1 in
      (
        conversation_id,
        windows,
        ap (λ (q : Result (List FactWindow) × World Entry Vector). q.0) y,
        ingest_windows-IsHandled s conversation_id false windows w2 v r h2 a,
      )

  module _ (metadata_text : String → Json → String) (facts : FactStores) (thread_id : String)
      (now : ℕ) (before : World Entry Vector) where
    -- The delta behind the cursor that the store held.
    abbrev pub delta_of : ConversationDelta
    delta_of =
        let cursor = cursor_or_new thread_id (lookup thread_id before.cursors) in
        get_thread_delta metadata_text thread_id cursor.last_event_id cursor.last_message_id
          facts.events facts.messages

    -- The cursor stays, or it moved behind a delta whose windows are all handled.
    abbrev pub IsAdvance : World Entry Vector → Type 0
    IsAdvance v =
        (v.cursors ≡ before.cursors)
        ⊎ ((v.cursors
              ≡ insert thread_id
                  (advanced s window_size overlap_size metadata_text thread_id delta_of now)
                  before.cursors)
            × IsDone v delta_of.facts)

    abbrev moved : ThreadLtmCursor
    moved = advanced s window_size overlap_size metadata_text thread_id delta_of now

    try_save_cursor-IsAdvance :
        (w : World Entry Vector)
        → w.cursors ≡ before.cursors
        → IsDone w delta_of.facts
        → IsAdvance (try_save_cursor s window_size overlap_size metadata_text moved w).1
    unfolding try_save_cursor save_cursor
    try_save_cursor-IsAdvance w c d = elim (Option-cases (s.store_fault w.calls)) [
      | inl e ↦
          subst (λ (r : Result (Unit {0}) × World Entry Vector). IsAdvance r.1)
            (sym (
              store_call-fine s (λ w. tt)
                (λ w. record w { cursors = insert thread_id moved w.cursors }) w e))
            (inr (ap (insert thread_id moved) c, d))
      | inr (x, e) ↦
          subst (λ (r : Result (Unit {0}) × World Entry Vector). IsAdvance r.1)
            (sym (
              store_call-fault s (λ w. tt)
                (λ w. record w { cursors = insert thread_id moved w.cursors }) w x e))
            (inl c)
    ]

    advance_after-IsAdvance :
        (r : ThreadLtmIngestResult) (w : World Entry Vector)
        → w.cursors ≡ before.cursors
        → (r.advance_cursor ≡ true → IsDone w delta_of.facts)
        → IsAdvance
            (advance_after s window_size overlap_size metadata_text thread_id delta_of now r w).1
    unfolding advance_after
    advance_after-IsAdvance r w c d = elim (Bool-cases r.advance_cursor) [
      | inl e ↦ rw e (try_save_cursor-IsAdvance w c (d e))
      | inr e ↦ rw e (inl c)
    ]

    cursors_kept :
        {A : Type 0} (t : Task (World Entry Vector) A) (w u : World Entry Vector) (r : Result A)
        → Growing t
        → w.cursors ≡ before.cursors
        → t w ≡ (r, u)
        → u.cursors ≡ before.cursors
    cursors_kept t w u r g c h =
        subst (λ (q : Result _ × World Entry Vector). q.1.cursors ≡ before.cursors) h ((g w).2 ∙ c)

    ingest_delta-IsAdvance :
        (w : World Entry Vector)
        → w.cursors ≡ before.cursors
        → IsAdvance
            (ingest_delta s window_size overlap_size metadata_text thread_id now delta_of w).1
    unfolding ingest_delta
    ingest_delta-IsAdvance w c = elim (Bool-cases (has_facts delta_of.facts)) [
      | inl e ↦
          rw (e, ingest_delta)
            (bind-holds IsAdvance (ingest_thread_delta s window_size overlap_size delta_of)
              (advance_after s window_size overlap_size metadata_text thread_id delta_of now) w
              (λ r u h.
                advance_after-IsAdvance r u
                  (cursors_kept (ingest_thread_delta s window_size overlap_size delta_of) w u (ok r)
                    (ingest_thread_delta-Growing delta_of) c h)
                  (ingest_thread_delta-IsDone delta_of w u r e h))
              (λ x u h. inl (
                cursors_kept (ingest_thread_delta s window_size overlap_size delta_of) w u (err x)
                  (ingest_thread_delta-Growing delta_of) c h)))
      | inr e ↦ rw (e, ingest_delta) (inl c)
    ]

    read_delta-IsAdvance :
        (w : World Entry Vector)
        → w.cursors ≡ before.cursors
        → IsAdvance
            ((read_delta s window_size overlap_size metadata_text facts thread_id
                  (cursor_or_new thread_id (lookup thread_id before.cursors))
                >>= ingest_delta s window_size overlap_size metadata_text thread_id now)
              w).1
    unfolding read_delta
    read_delta-IsAdvance w c = elim (Option-cases (s.store_fault w.calls)) [
      | inl e ↦
          subst
            (λ (q : Result ConversationDelta × World Entry Vector).
              IsAdvance
                (after (ingest_delta s window_size overlap_size metadata_text thread_id now) q).1)
            (sym (store_call-fine s (λ w. delta_of) (λ w. w) w e))
            (ingest_delta-IsAdvance (next_call w) c)
      | inr (x, e) ↦
          subst
            (λ (q : Result ConversationDelta × World Entry Vector).
              IsAdvance
                (after (ingest_delta s window_size overlap_size metadata_text thread_id now) q).1)
            (sym (store_call-fault s (λ w. delta_of) (λ w. w) w x e)) (inl c)
    ]

    -- Whatever fails, a thread's cursor stays where it was, or it moves to the end of the delta
    -- behind it and, for each window that the delta is cut into, the entries that the model found
    -- in it were upserted with their vectors, or a failed window is recorded under its id.
    pub process_thread-IsAdvance :
        IsAdvance
          (process_thread s window_size overlap_size metadata_text facts thread_id now before).1
    unfolding process_thread load_cursor
    process_thread-IsAdvance = elim (Option-cases (s.store_fault before.calls)) [
      | inl e ↦
          subst
            (λ (q : Result (Option ThreadLtmCursor) × World Entry Vector).
              IsAdvance (after rest q).1)
            (sym (store_call-fine s (λ w. lookup thread_id w.cursors) (λ w. w) before e))
            (read_delta-IsAdvance (next_call before) refl)
      | inr (x, e) ↦
          subst
            (λ (q : Result (Option ThreadLtmCursor) × World Entry Vector).
              IsAdvance (after rest q).1)
            (sym (store_call-fault s (λ w. lookup thread_id w.cursors) (λ w. w) before x e))
            (inl refl)
    ]
      where
        rest : Option ThreadLtmCursor → Task (World Entry Vector) (Unit {0})
        rest cursor =
            read_delta s window_size overlap_size metadata_text facts thread_id
              (cursor_or_new thread_id cursor)
            >>= ingest_delta s window_size overlap_size metadata_text thread_id now
