-- ===== src/Ingest/Grows.antt =====
-- What the write line never takes back.
use mathlib.Core.List.{Memᴰ}
use aca_bot.Prelude.{
  String, Bool, true, false, none, some, List, [], ◌∷◌, ◌≡◌, refl, sym, subst, ◌∙◌, inl, inr,
  Option-cases, Dict, lookup, insert, lookup-insert, is_some, if◌then◌else◌, str_eq, Bool-cases,
}
use aca_bot.Errors.{Error, Result, ok, err}
use aca_bot.Tasks.{Task, after, attempt, lift, ◌>>=◌}
use aca_bot.Ingest.Windows.{FactWindow, build_failed_window_id}
use aca_bot.Ingest.World.{
  Services, World, FailedWindowRecord, store_call, next_call, load_failed_window,
  save_failed_window, upsert_entries, extract, embed,
}
use aca_bot.Ingest.Write.{
  latest_timestamp, WindowOutcome, stored, recorded, lost, by_outcome, result, store_window,
  try_save, failed_record, record_failure, handle, ingest_window, ingest_windows, is_ok,
}

module _ {Entry Vector : Type 0} where
  -- No upsert and no failed window is lost, and no cursor moves.
  abbrev pub Grows : World Entry Vector → World Entry Vector → Type 0
  Grows v w =
      ((x : List Entry × List Vector) → Memᴰ x v.upserts → Memᴰ x w.upserts)
      × ((k : String)
          → is_some (lookup k v.failed_windows) ≡ true
          → is_some (lookup k w.failed_windows) ≡ true)
      × (w.cursors ≡ v.cursors)

  pub Grows-refl : (w : World Entry Vector) → Grows w w
  Grows-refl w = (λ x m. m, λ k h. h, refl)

  pub Grows-trans : (u v w : World Entry Vector) → Grows u v → Grows v w → Grows u w
  Grows-trans u v w a b = (λ x m. b.0 x (a.0 x m), λ k h. b.1 k (a.1 k h), b.2 ∙ a.2)

  abbrev pub Growing : {A : Type 0} → Task (World Entry Vector) A → Type 0
  Growing t = (w : World Entry Vector) → Grows w (t w).1

  pub bind-Growing :
      {A B : Type 0} (t : Task (World Entry Vector) A) (f : A → Task (World Entry Vector) B)
      → Growing t
      → ((a : A) → Growing (f a))
      → Growing (t >>= f)
  bind-Growing t f g h w = after_grows (t w) (g w)
    where
      after_grows : (r : Result _ × World Entry Vector) → Grows w r.1 → Grows w (after f r).1
      after_grows (ok a, v) k = Grows-trans w v (f a v).1 k (h a v)
      after_grows (err e, v) k = k

  pub lift-Growing : {A : Type 0} (r : Result A) → Growing (lift {W = World Entry Vector} r)
  lift-Growing r w = Grows-refl w

module _ {Entry Vector : Type 0} (s : Services Entry Vector) where
  module _ {A : Type 0} (answer : World Entry Vector → A)
      (change : World Entry Vector → World Entry Vector) where
    pub store_call-fine :
        (w : World Entry Vector)
        → s.store_fault w.calls ≡ none
        → store_call s answer change w ≡ (ok (answer w), change (next_call w))
    unfolding store_call
    store_call-fine w e = rw (e, store_call) refl

    pub store_call-fault :
        (w : World Entry Vector) (x : Error)
        → s.store_fault w.calls ≡ some x
        → store_call s answer change w ≡ (err x, next_call w)
    unfolding store_call
    store_call-fault w x e = rw (e, store_call) refl

    abbrev GrowsTo : World Entry Vector → Result A × World Entry Vector → Type 0
    GrowsTo w r = Grows w r.1

    pub store_call-Growing :
        ((w : World Entry Vector) → Grows w (change w)) → Growing (store_call s answer change)
    store_call-Growing h w = elim (Option-cases (s.store_fault w.calls)) [
      | inl e ↦ subst (GrowsTo w) (sym (store_call-fine w e)) (h (next_call w))
      | inr (x, e) ↦ subst (GrowsTo w) (sym (store_call-fault w x e)) (Grows-refl w)
    ]

  is_some-insert :
      {V : Type 0} (j k : String) (v : V) (m : Dict V)
      → is_some (lookup k m) ≡ true
      → is_some (lookup k (insert j v m)) ≡ true
  is_some-insert j k v m h =
      rw lookup-insert (elim (Bool-cases (str_eq j k)) [ inl e ↦ rw e refl | inr e ↦ rw e h ])

  pub load_failed_window-Growing : (k : String) → Growing (load_failed_window s k)
  unfolding load_failed_window
  load_failed_window-Growing k =
      store_call-Growing (λ w. lookup k w.failed_windows) (λ w. w) Grows-refl

  pub save_failed_window-Growing : (r : FailedWindowRecord) → Growing (save_failed_window s r)
  unfolding save_failed_window
  save_failed_window-Growing r =
      store_call-Growing (λ w. tt)
        (λ w. record w { failed_windows = insert r.window_id r w.failed_windows })
        (λ w. (λ x m. m, λ k h. is_some-insert r.window_id k r w.failed_windows h, refl))

  pub upsert_entries-Growing :
      (entries : List Entry) (vectors : List Vector) → Growing (upsert_entries s entries vectors)
  unfolding upsert_entries
  upsert_entries-Growing entries vectors =
      store_call-Growing (λ w. tt) (λ w. record w { upserts = (entries, vectors) ∷ w.upserts })
        (λ w. (λ x m. Memᴰ.tail m, λ k h. h, refl))

  store_window-Growing :
      (conversation_id : String) (window : FactWindow)
      → Growing (store_window s conversation_id window)
  unfolding store_window
  store_window-Growing conversation_id window =
      bind-Growing (extract s conversation_id window.facts (latest_timestamp window.facts)) _
        (λ w. Grows-refl w)
        (λ entries.
          bind-Growing (embed s entries) _ (λ w. Grows-refl w)
            (λ vectors. upsert_entries-Growing entries vectors))

  attempt-Growing : {A : Type 0} (t : Task (World Entry Vector) A) → Growing t → Growing (attempt t)
  attempt-Growing t h w = h w

  try_save-Growing : (r : FailedWindowRecord) → Growing (try_save s r)
  unfolding try_save
  try_save-Growing r =
      bind-Growing (attempt (save_failed_window s r)) (λ saved. lift (ok (is_ok saved)))
        (save_failed_window-Growing r) (λ saved. lift-Growing (ok (is_ok saved)))

  record_failure-Growing :
      (conversation_id : String) (window : FactWindow) (e : Error)
      → Growing (record_failure s conversation_id window e)
  unfolding record_failure
  record_failure-Growing conversation_id window e =
      bind-Growing (lift (build_failed_window_id conversation_id window.fact_ids)) _
        (lift-Growing (build_failed_window_id conversation_id window.fact_ids))
        (λ window_id.
          bind-Growing (load_failed_window s window_id) _ (load_failed_window-Growing window_id)
            (λ existing.
              bind-Growing (lift (failed_record s conversation_id window window_id e existing))
                (try_save s)
                (lift-Growing (failed_record s conversation_id window window_id e existing))
                try_save-Growing))

  handle-Growing :
      (conversation_id : String) (window : FactWindow) (done : Result (Unit {0}))
      → Growing (handle s conversation_id window done)
  unfolding handle
  handle-Growing conversation_id window (ok done) = lift-Growing (ok stored)
  handle-Growing conversation_id window (err e) =
      bind-Growing (record_failure s conversation_id window e) _
        (record_failure-Growing conversation_id window e)
        (λ saved. lift-Growing (ok (if saved then recorded else lost)))

  pub ingest_window-Growing :
      (conversation_id : String) (window : FactWindow)
      → Growing (ingest_window s conversation_id window)
  unfolding ingest_window
  ingest_window-Growing conversation_id window =
      bind-Growing (attempt (store_window s conversation_id window))
        (handle s conversation_id window) (store_window-Growing conversation_id window)
        (handle-Growing conversation_id window)

  by_outcome-Growing :
      {A : Type 0} (a b c : Task (World Entry Vector) A)
      → Growing a
      → Growing b
      → Growing c
      → (outcome : WindowOutcome) → Growing (by_outcome a b c outcome)
  by_outcome-Growing a b c g h k stored = g
  by_outcome-Growing a b c g h k recorded = h
  by_outcome-Growing a b c g h k lost = k

  pub ingest_windows-Growing :
      (conversation_id : String) (has_failures : Bool) (windows : List FactWindow)
      → Growing (ingest_windows s conversation_id has_failures windows)
  unfolding ingest_windows
  ingest_windows-Growing conversation_id has_failures [] =
      lift-Growing (ok (result true has_failures))
  ingest_windows-Growing conversation_id has_failures (window ∷ windows) =
      bind-Growing (ingest_window s conversation_id window) _
        (ingest_window-Growing conversation_id window)
        (by_outcome-Growing _ _ _ (ingest_windows-Growing conversation_id has_failures windows)
          (ingest_windows-Growing conversation_id true windows)
          (lift-Growing (ok (result false true))))
