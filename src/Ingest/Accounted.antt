-- ===== src/Ingest/Accounted.antt =====
-- What has become of the windows of a delta that allows the cursor to move.
use mathlib.Core.List.{Memᴰ}
use aca_bot.Prelude.{
  ℕ, String, Bool, true, false, List, [], ◌∷◌, ◌≡◌, ◌⊎◌, refl, sym, subst, ap, ap₂, arith, inl, inr,
  ◌∙◌, Option-cases, Bool-cases, Dict, lookup, insert, lookup-insert_self, is_some, if◌then◌else◌,
  All, if-holds, str_eq, ◌||◌, Option,
}
use aca_bot.Errors.{Error, Result, ok, err}
use aca_bot.Compactor.Text.{strip}
use aca_bot.Tasks.{Task, after, bind_ok, lift}
use aca_bot.Ingest.Windows.{FactWindow, build_failed_window_id}
use aca_bot.Ingest.World.{
  Services, World, FailedWindowRecord, normalized, stripped, store_call, next_call,
  load_failed_window, save_failed_window, upsert_entries, extract, embed,
}
use aca_bot.Ingest.Write.{
  latest_timestamp, WindowOutcome, stored, recorded, lost, by_outcome, ThreadLtmIngestResult,
  result, store_window, try_save, failed_record, record_failure, handle, ingest_window,
  ingest_windows, is_ok,
}
use aca_bot.Ingest.Grows.{Grows, Growing, store_call-fine, store_call-fault, ingest_windows-Growing}

module _ {Entry Vector : Type 0} (s : Services Entry Vector) (conversation_id : String) where
  -- The entries that the model found in the window, with their vectors, were upserted.
  abbrev pub IsStored : World Entry Vector → FactWindow → Type 0
  IsStored w window =
      (a : ℕ) × (b : ℕ) × (entries : List Entry) × (vectors : List Vector) × (s.extract_window a
          conversation_id window.facts (latest_timestamp window.facts)
        ≡ ok entries)
      × (s.embed_entries b entries ≡ ok vectors)
      × Memᴰ (entries, vectors) w.upserts

  -- A failed window stands under the window's id.
  abbrev pub IsRecorded : World Entry Vector → FactWindow → Type 0
  IsRecorded w window =
      (window_id : String) × (build_failed_window_id conversation_id window.fact_ids ≡ ok window_id)
      × (is_some (lookup (strip window_id) w.failed_windows) ≡ true)

  abbrev pub IsHandled : World Entry Vector → FactWindow → Type 0
  IsHandled w window = IsStored w window ⊎ IsRecorded w window

  IsHandled-later :
      (v w : World Entry Vector) (window : FactWindow)
      → Grows v w
      → IsHandled v window
      → IsHandled w window
  IsHandled-later v w window g (inl (a, b, entries, vectors, x, y, m)) =
      inl (a, b, entries, vectors, x, y, g.0 (entries, vectors) m)
  IsHandled-later v w window g (inr (i, x, h)) = inr (i, x, g.1 (strip i) h)

  store_call-ok :
      {A : Type 0} (answer : World Entry Vector → A)
      (change : World Entry Vector → World Entry Vector) (w v : World Entry Vector) (a : A)
      → store_call s answer change w ≡ (ok a, v)
      → v ≡ change (next_call w)
  store_call-ok answer change w v a h = elim (Option-cases (s.store_fault w.calls)) [
    | inl e ↦
        let q : (ok (answer w), change (next_call w)) ≡ (ok a, v) =
          sym (store_call-fine s answer change w e) ∙ h in
        sym (ap (λ (r : Result _ × World Entry Vector). r.1) q)
    | inr (x, e) ↦
        let q : err x ≡ ok a =
          ap (λ (r : Result _ × World Entry Vector). r.0)
            (sym (store_call-fault s answer change w x e) ∙ h) in
        absurd (ground arith)
  ]

  upsert_entries-ok :
      (entries : List Entry) (vectors : List Vector) (w v : World Entry Vector) (done : Unit {0})
      → upsert_entries s entries vectors w ≡ (ok done, v)
      → Memᴰ (entries, vectors) v.upserts
  unfolding upsert_entries
  upsert_entries-ok entries vectors w v done h =
      subst (λ (u : World Entry Vector). Memᴰ (entries, vectors) u.upserts)
        (sym (
          store_call-ok (λ w. tt) (λ w. record w { upserts = (entries, vectors) ∷ w.upserts }) w v
            done h))
        (Memᴰ.head refl)

  store_window-ok :
      (window : FactWindow) (w v : World Entry Vector) (done : Unit {0})
      → store_window s conversation_id window w ≡ (ok done, v)
      → IsStored v window
  unfolding store_window
  store_window-ok window w v done h =
      let (entries, w1, x, h1) =
        bind_ok (extract s conversation_id window.facts (latest_timestamp window.facts)) _ w v done
          h in
      let (vectors, w2, y, h2) = bind_ok (embed s entries) _ w1 v done h1 in
      (
        w.calls,
        w1.calls,
        entries,
        vectors,
        ap (λ (r : Result (List Entry) × World Entry Vector). r.0) x,
        ap (λ (r : Result (List Vector) × World Entry Vector). r.0) y,
        upsert_entries-ok entries vectors w2 v done h2,
      )

  lookup_saved :
      (r : FailedWindowRecord) (m : Dict FailedWindowRecord)
      → is_some (lookup r.window_id (insert r.window_id r m)) ≡ true
  lookup_saved r m = rw lookup-insert_self refl

  save_failed_window-ok :
      (r : FailedWindowRecord) (w v : World Entry Vector) (done : Unit {0})
      → save_failed_window s r w ≡ (ok done, v)
      → is_some (lookup r.window_id v.failed_windows) ≡ true
  unfolding save_failed_window
  save_failed_window-ok r w v done h =
      subst (λ (u : World Entry Vector). is_some (lookup r.window_id u.failed_windows) ≡ true)
        (sym (
          store_call-ok (λ w. tt)
            (λ w. record w { failed_windows = insert r.window_id r w.failed_windows }) w v done h))
        (lookup_saved r w.failed_windows)

  try_save-true :
      (r : FailedWindowRecord) (w v : World Entry Vector)
      → try_save s r w ≡ (ok true, v)
      → is_some (lookup r.window_id v.failed_windows) ≡ true
  unfolding try_save
  try_save-true r w v h = saved (save_failed_window s r w) refl h
    where
      saved :
          (q : Result (Unit {0}) × World Entry Vector)
          → save_failed_window s r w ≡ q
          → after (λ b. lift (ok (is_ok b))) (ok q.0, q.1) ≡ (ok true, v)
          → is_some (lookup r.window_id v.failed_windows) ≡ true
      saved (ok done, u) e k =
          subst (λ (x : World Entry Vector). is_some (lookup r.window_id x.failed_windows) ≡ true)
            (ap (λ (q : Result Bool × World Entry Vector). q.1) k)
            (save_failed_window-ok r w u done e)
      saved (err x, u) e k =
          let q : ok false ≡ ok true = ap (λ (q : Result Bool × World Entry Vector). q.0) k in
          absurd (ground arith)

  window_id-normalized :
      (r q : FailedWindowRecord) → normalized r ≡ ok q → q.window_id ≡ (stripped r).window_id
  unfolding normalized
  window_id-normalized r q =
      let a = stripped r in
      if-holds (λ (x : Result FailedWindowRecord). x ≡ ok q → q.window_id ≡ a.window_id)
        (str_eq a.window_id "" || str_eq a.conversation_id "" || str_eq a.thread_id "")
        (λ b h. absurd (ground arith)) (λ b h. ground arith)

  window_id-failed_record :
      (window : FactWindow) (window_id : String) (e : Error) (existing : Option FailedWindowRecord)
      (q : FailedWindowRecord)
      → failed_record s conversation_id window window_id e existing ≡ ok q
      → q.window_id ≡ strip window_id
  unfolding failed_record stripped
  window_id-failed_record window window_id e existing q h = window_id-normalized _ q h

  record_failure-true :
      (window : FactWindow) (e : Error) (w v : World Entry Vector)
      → record_failure s conversation_id window e w ≡ (ok true, v)
      → IsRecorded v window
  unfolding record_failure
  record_failure-true window e w v h =
      let (window_id, w1, x, h1) =
        bind_ok (lift (build_failed_window_id conversation_id window.fact_ids)) _ w v true h in
      let (existing, w2, y, h2) = bind_ok (load_failed_window s window_id) _ w1 v true h1 in
      let (r, w3, z, h3) =
        bind_ok (lift (failed_record s conversation_id window window_id e existing)) _ w2 v true
          h2 in
      (
        window_id,
        ap (λ (r : Result String × World Entry Vector). r.0) x,
        subst (λ (i : String). is_some (lookup i v.failed_windows) ≡ true)
            (window_id-failed_record window window_id e existing r
              (ap (λ (q : Result FailedWindowRecord × World Entry Vector). q.0) z))
            (try_save-true r w3 v h3),
      )

  -- What a round leaves of its window.
  abbrev Outcome : World Entry Vector → FactWindow → WindowOutcome → Type 0
  Outcome v window stored = IsStored v window
  Outcome v window recorded = IsRecorded v window
  Outcome v window lost = Unit

  handle-Outcome :
      (window : FactWindow) (done : Result (Unit {0})) (w u v : World Entry Vector)
      (outcome : WindowOutcome)
      → store_window s conversation_id window w ≡ (done, u)
      → handle s conversation_id window done u ≡ (ok outcome, v)
      → Outcome v window outcome
  unfolding handle
  handle-Outcome window (ok done) w u v outcome h k =
      let uv : u ≡ v = ap (λ (r : Result WindowOutcome × World Entry Vector). r.1) k in
      let q : ok stored ≡ ok outcome =
        ap (λ (r : Result WindowOutcome × World Entry Vector). r.0) k in
      let o : stored ≡ outcome = ground arith in
      subst (Outcome v window) o (
        subst (λ (x : World Entry Vector). IsStored x window) uv
          (store_window-ok window w u done h))
  handle-Outcome window (err e) w u v outcome h k =
      let (saved, u1, x, k1) =
        bind_ok (record_failure s conversation_id window e) _ u v outcome k in
      let uv : u1 ≡ v = ap (λ (r : Result WindowOutcome × World Entry Vector). r.1) k1 in
      let q : ok (if saved then recorded else lost) ≡ ok outcome =
        ap (λ (r : Result WindowOutcome × World Entry Vector). r.0) k1 in
      elim (Bool-cases saved) [
        | inl t ↦
            let o : recorded ≡ outcome = ground arith in
            subst (Outcome v window) o (
              record_failure-true window e u v
                (x ∙ ap₂ (λ (b : Bool) (z : World Entry Vector). (ok b, z)) t uv))
        | inr f ↦ let o : lost ≡ outcome = ground arith in subst (Outcome v window) o tt
      ]

  ingest_window-Outcome :
      (window : FactWindow) (w v : World Entry Vector) (outcome : WindowOutcome)
      → ingest_window s conversation_id window w ≡ (ok outcome, v)
      → Outcome v window outcome
  unfolding ingest_window
  ingest_window-Outcome window w v outcome h =
      handle-Outcome window (store_window s conversation_id window w).0 w
        (store_window s conversation_id window w).1 v outcome refl h

  Grows-from :
      {A : Type 0} (t : Task (World Entry Vector) A) (w v : World Entry Vector) (r : Result A)
      → Growing t
      → t w ≡ (r, v)
      → Grows w v
  Grows-from t w v r g h = subst (λ (q : Result _ × World Entry Vector). Grows w q.1) h (g w)

  pub ingest_windows-IsHandled :
      (has_failures : Bool) (windows : List FactWindow) (w v : World Entry Vector)
      (r : ThreadLtmIngestResult)
      → ingest_windows s conversation_id has_failures windows w ≡ (ok r, v)
      → r.advance_cursor ≡ true
      → All (IsHandled v) windows
  unfolding ingest_windows
  ingest_windows-IsHandled has_failures [] w v r h a = tt
  ingest_windows-IsHandled has_failures (window ∷ windows) w v r h a =
      let (outcome, u, x, h1) = bind_ok (ingest_window s conversation_id window) _ w v r h in
      go outcome u (ingest_window-Outcome window w u outcome x) h1
        (λ b u k. ingest_windows-IsHandled b windows u v r k a)
    where
      go :
          (outcome : WindowOutcome) (u : World Entry Vector)
          → Outcome u window outcome
          → by_outcome
              (ingest_windows s conversation_id has_failures windows)
              (ingest_windows s conversation_id true windows)
              (lift (ok (result false true)))
              outcome
              u
            ≡ (ok r, v)
          → ((b : Bool) (u : World Entry Vector)
              → ingest_windows s conversation_id b windows u ≡ (ok r, v)
              → All (IsHandled v) windows)
          → All (IsHandled v) (window ∷ windows)
      go stored u o k ih = (
        IsHandled-later u v window
            (Grows-from (ingest_windows s conversation_id has_failures windows) u v (ok r)
              (ingest_windows-Growing s conversation_id has_failures windows) k)
            (inl o),
        ih has_failures u k,
      )
      go recorded u o k ih = (
        IsHandled-later u v window
            (Grows-from (ingest_windows s conversation_id true windows) u v (ok r)
              (ingest_windows-Growing s conversation_id true windows) k)
            (inr o),
        ih true u k,
      )
      go lost u o k ih =
          let q : ok (result false true) ≡ ok r =
            ap (λ (r : Result ThreadLtmIngestResult × World Entry Vector). r.0) k in
          absurd (ground arith)
