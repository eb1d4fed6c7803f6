-- ===== src/Facts/Saved.antt =====
-- What a save leaves to the reads that follow it.
use aca_bot.Prelude.{
  ℕ, ◌+◌, ◌≤◌, String, true, false, Option, none, some, List, [], ◌∷◌, ◌++◌, ◌≡◌, refl, sym, ap,
  ◌∙◌, arith, map, keep, ltb, str_eq, eq_iff, if◌then◌else◌, Bool-cases, Option-cases, inl, inr,
}
use aca_bot.Errors.{Result, ok, err, value_error}
use aca_bot.Facts.Records.{Fact, Sequenced}
use aca_bot.Facts.Table
use aca_bot.Facts.Table.{Rows, is_found, max_rowid, load_existing}

module _ {R : Type 0} (f : Fact R) where
  -- The record that stands under the id of a saved one.
  abbrev pub first_saved : Option R → R → R
  first_saved none r = r
  first_saved (some existing) r = existing

  -- What a reader of a thread that is up to date finds after a save.
  abbrev pub news : String → Option R → R → List R
  news thread_id none r = if str_eq (f.thread r) thread_id then r ∷ [] else []
  news thread_id (some existing) r = []

  -- A record that is there is accepted again if it is the same.
  abbrev pub answer : Option R → R → Result (Unit {0})
  answer none r = ok tt
  answer (some existing) r = if f.same existing r then ok tt else err value_error

  load_existing-snoc :
      (k : String) (rows : Rows R) (row : Sequenced R)
      → load_existing f k rows ≡ none
      → load_existing f k (rows ++ row ∷ [])
        ≡ (if str_eq (f.uid row.record_of) k then some row.record_of else none)
  unfolding load_existing
  load_existing-snoc k [] row h = refl
  load_existing-snoc k (x ∷ rows) row h = ground (arith, load_existing-snoc k rows row)

  load_existing-found :
      (k : String) (rows : Rows R) (row : Sequenced R) (existing : R)
      → load_existing f k rows ≡ some existing
      → load_existing f k (rows ++ row ∷ []) ≡ some existing
  unfolding load_existing
  load_existing-found k [] row existing h = absurd (ground arith)
  load_existing-found k (x ∷ rows) row existing h =
      ground (arith, load_existing-found k rows row existing)

  load_existing-other :
      (k : String) (rows : Rows R) (row : Sequenced R)
      → str_eq (f.uid row.record_of) k ≡ false
      → load_existing f k (rows ++ row ∷ []) ≡ load_existing f k rows
  load_existing-other k rows row h = elim (Option-cases (load_existing f k rows)) [
    | inl e ↦ rw e (load_existing-snoc k rows row e ∙ rw h refl)
    | inr (existing, e) ↦ rw e (load_existing-found k rows row existing e)
  ]

  -- Nothing is newer than the last number.
  newer_none :
      (thread_id : String) (n : ℕ) (rows : Rows R)
      → max_rowid rows ≤ n
      → keep (is_found f thread_id (some n) none) rows ≡ []
  unfolding max_rowid
  newer_none thread_id n [] h = refl
  newer_none thread_id n (x ∷ rows) h =
      let old : ltb n x.sequence_id ≡ false = ground arith in
      let out : is_found f thread_id (some n) none x ≡ false = ground arith in
      rw out (newer_none thread_id n rows (omega arith))

  newer_snoc :
      (thread_id : String) (n : ℕ) (rows : Rows R) (r : R)
      → max_rowid rows ≤ n
      → map
          (λ (row : Sequenced R). row.record_of)
          (keep
            (is_found f thread_id (some n) none)
            (rows ++ record { sequence_id = n + 1; record_of = r } ∷ []))
        ≡ news thread_id none r
  unfolding max_rowid
  newer_snoc thread_id n [] r h = elim (Bool-cases (str_eq (f.thread r) thread_id)) [
    | inl e ↦
        let new : ltb n (n + 1) ≡ true = ground arith in
        let found : is_found f thread_id (some n) none
              (record { sequence_id = n + 1; record_of = r })
            ≡ true =
          ground arith in
        rw (found, e) refl
    | inr e ↦
        let found : is_found f thread_id (some n) none
              (record { sequence_id = n + 1; record_of = r })
            ≡ false =
          ground arith in
        rw (found, e) refl
  ]
  newer_snoc thread_id n (x ∷ rows) r h =
      let old : ltb n x.sequence_id ≡ false = ground arith in
      let out : is_found f thread_id (some n) none x ≡ false = ground arith in
      rw out (newer_snoc thread_id n rows r (omega arith))

  -- A save is answered with an error just if another record has the id. After it the record that
  -- first got the id is loaded under it, and what was loaded under another id is loaded as before;
  -- and a reader who has read up to the last number finds the record if its id is new and it is of
  -- the thread, and else nothing.
  pub save-followed :
      (r : R) (rows : Rows R) (k thread_id : String)
      → ((Table.save f r rows).0 ≡ answer (load_existing f (f.uid r) rows) r)
        × (load_existing f k (Table.save f r rows).1 ≡ (
            if str_eq (f.uid r) k
            then some (first_saved (load_existing f (f.uid r) rows) r)
            else load_existing f k rows))
        × (map
              (λ (row : Sequenced R). row.record_of)
              (Table.get_thread_after_sequence f thread_id
                (some (max_rowid rows))
                none
                none
                (Table.save f r rows).1)
            ≡ news thread_id (load_existing f (f.uid r) rows) r)
  unfolding Table.save Table.get_thread_after_sequence
  save-followed r rows k thread_id = elim (Option-cases (load_existing f (f.uid r) rows)) [
    | inl e ↦
        let row : Sequenced R = record { sequence_id = max_rowid rows + 1; record_of = r } in
        rw (e, Table.save)
          (
            refl,
            elim (Bool-cases (str_eq (f.uid r) k)) [
              | inl q ↦
                  let absent : load_existing f k rows ≡ none =
                    ap (λ (i : String). load_existing f i rows) (sym ((eq_iff (f.uid r) k).0 q))
                    ∙ e in
                  rw q (load_existing-snoc k rows row absent ∙ rw q refl)
              | inr q ↦ rw q (load_existing-other k rows row q)
            ],
            newer_snoc thread_id (max_rowid rows) rows r (omega arith),
          )
    | inr (existing, e) ↦
        rw (e, Table.save)
          (
            refl,
            elim (Bool-cases (str_eq (f.uid r) k)) [
              | inl q ↦
                  rw q (
                    ap (λ (i : String). load_existing f i rows) (sym ((eq_iff (f.uid r) k).0 q))
                    ∙ e)
              | inr q ↦ rw q refl
            ],
            ap (map (λ (row : Sequenced R). row.record_of))
                (newer_none thread_id (max_rowid rows) rows (omega arith)),
          )
  ]
