-- ===== src/Facts/Pages.antt =====
-- A client that reads a thread page by page, each time after the last number that it has got.
use aca_bot.Prelude.{
  ℕ, zero, suc, ◌+◌, ◌≤◌, ◌<◌, String, ◌≡◌, refl, sym, ap, subst, true, false, Option, none, some,
  List, [], ◌∷◌, ◌++◌, keep, take, arith, ltb, if◌then◌else◌, Bool-cases, inl, inr, All, All-append,
  All-take, ◌∙◌, Option-cases, eq_refl,
}
use aca_bot.Errors.{ok, err, value_error}
use aca_bot.Facts.Records.{Fact, Sequenced}
use aca_bot.Facts.Table
use aca_bot.Facts.Table.{Rows, is_found, max_rowid, load_existing}

-- The numbers of the rows go up.
abbrev pub IsAscending : {R : Type 0} → Rows R → Type 0
IsAscending [] = Unit
IsAscending (row ∷ rows) =
    All (λ (later : Sequenced _). row.sequence_id < later.sequence_id) rows × IsAscending rows

-- The last number of a page, or the number before it if it is empty.
unfoldable pub cursor : {R : Type 0} → ℕ → Rows R → ℕ
cursor before [] = before
cursor before (row ∷ page) = cursor row.sequence_id page

cursor-le :
    {R : Type 0} (a before : ℕ) (page : Rows R)
    → a ≤ before
    → All (λ (row : Sequenced R). a ≤ row.sequence_id) page
    → a ≤ cursor before page
unfolding cursor
cursor-le a before [] h p = h
cursor-le a before (row ∷ page) h p = cursor-le a row.sequence_id page p.0 p.1

module _ {R : Type 0} (f : Fact R) (thread_id : String) (kinds : Option (List String)) where
  abbrev newer : ℕ → Rows R → Rows R
  newer a rows = keep (is_found f thread_id (some a) kinds) rows

  newer-same :
      (a b : ℕ) (rows : Rows R)
      → a ≤ b
      → All (λ (row : Sequenced R). b < row.sequence_id) rows
      → newer a rows ≡ newer b rows
  newer-same a b [] h p = refl
  newer-same a b (row ∷ rows) h p =
      let rest = newer-same a b rows h p.1 in
      let over_a : ltb a row.sequence_id ≡ true = ground arith in
      let over_b : ltb b row.sequence_id ≡ true = ground arith in
      rw (over_a, over_b)
        (elim (Bool-cases (is_found f thread_id none kinds row)) [
          | inl e ↦ rw e (ap (λ l. row ∷ l) rest)
          | inr e ↦ rw e rest
        ])

  newer-above :
      (a : ℕ) (rows : Rows R) → All (λ (row : Sequenced R). a ≤ row.sequence_id) (newer a rows)
  newer-above a [] = tt
  newer-above a (row ∷ rows) = elim (Bool-cases (is_found f thread_id (some a) kinds row)) [
    | inl e ↦ rw e (ground arith, newer-above a rows)
    | inr e ↦ rw e (newer-above a rows)
  ]

  pages :
      (rows : Rows R) (a n : ℕ)
      → IsAscending rows
      → newer a rows ≡ take n (newer a rows) ++ newer (cursor a (take n (newer a rows))) rows
  unfolding cursor
  pages rows a zero h = refl
  pages [] a (suc n) h = refl
  pages (row ∷ rows) a (suc n) h = elim (Bool-cases (is_found f thread_id (some a) kinds row)) [
    | inl e ↦
        let page = take n (newer a rows) in
        let same : newer a rows ≡ newer row.sequence_id rows =
          newer-same a row.sequence_id rows (ground arith) h.0 in
        let above : All (λ (r : Sequenced R). row.sequence_id ≤ r.sequence_id) page =
          All-take _ n (newer a rows) (rw same (newer-above row.sequence_id rows)) in
        let passed : row.sequence_id ≤ cursor row.sequence_id page =
          cursor-le row.sequence_id row.sequence_id page (omega arith) above in
        let gone : is_found f thread_id (some (cursor row.sequence_id page)) kinds row ≡ false =
          ground arith in
        let front : take (suc n) (newer a (row ∷ rows)) ≡ row ∷ page = rw e refl in
        let rest : newer a rows ≡ page ++ newer (cursor row.sequence_id page) rows =
          rw same (pages rows row.sequence_id n h.1) in
        subst (λ (p : Rows R). newer a (row ∷ rows) ≡ p ++ newer (cursor a p) (row ∷ rows))
          (sym front) (rw (e, gone) (ap (λ l. row ∷ l) rest))
    | inr e ↦
        let page = take (suc n) (newer a rows) in
        let passed : a ≤ cursor a page =
          cursor-le a a page (omega arith)
            (All-take _ (suc n) (newer a rows) (newer-above a rows)) in
        let gone : is_found f thread_id (some (cursor a page)) kinds row ≡ false = ground arith in
        let front : take (suc n) (newer a (row ∷ rows)) ≡ page = rw e refl in
        subst (λ (p : Rows R). newer a (row ∷ rows) ≡ p ++ newer (cursor a p) (row ∷ rows))
          (sym front) (rw (e, gone) (pages rows a (suc n) h.1))
  ]

  -- In a table whose numbers go up, a page after a number, together with what a read after the
  -- page's last number returns, is all that is newer than the number: nothing is missed or read twice.
  pub get_thread_after_sequence-page :
      (rows : Rows R) (a n : ℕ)
      → IsAscending rows
      → Table.get_thread_after_sequence f thread_id (some a) none kinds rows
        ≡ Table.get_thread_after_sequence f thread_id (some a) (some n) kinds rows
          ++ Table.get_thread_after_sequence f thread_id
              (some (
                cursor a
                  (Table.get_thread_after_sequence f thread_id (some a) (some n) kinds rows)))
              none
              kinds
              rows
  unfolding Table.get_thread_after_sequence
  get_thread_after_sequence-page rows a n h = pages rows a n h

IsAscending-snoc :
    {R : Type 0} (rows : Rows R) (row : Sequenced R)
    → IsAscending rows
    → max_rowid rows < row.sequence_id
    → IsAscending (rows ++ row ∷ [])
unfolding max_rowid
IsAscending-snoc [] row h l = (tt, tt)
IsAscending-snoc (x ∷ rows) row h l = (
  All-append _ rows (row ∷ []) h.0 (omega arith, tt),
  IsAscending-snoc rows row h.1 (omega arith),
)

module _ {R : Type 0} (f : Fact R) where
  save-IsAscending :
      (r : R) (rows : Rows R) → IsAscending rows → IsAscending (Table.save f r rows).1
  unfolding Table.save
  save-IsAscending r rows h = elim (Option-cases (load_existing f (f.uid r) rows)) [
    | inl e ↦ rw (e, Table.save) (IsAscending-snoc rows _ h (omega arith))
    | inr (existing, e) ↦ rw (e, Table.save) h
  ]

  unfoldable pub save_all : List R → Rows R → Rows R
  save_all [] rows = rows
  save_all (r ∷ records) rows = save_all records (Table.save f r rows).1

  pub save_all-IsAscending :
      (records : List R) (rows : Rows R) → IsAscending rows → IsAscending (save_all records rows)
  unfolding save_all
  save_all-IsAscending [] rows h = h
  save_all-IsAscending (r ∷ records) rows h =
      save_all-IsAscending records (Table.save f r rows).1 (save-IsAscending r rows h)

  -- The numbers of a table go up, whatever was saved.
  pub save_all-init-IsAscending : (records : List R) → IsAscending (save_all records [])
  save_all-init-IsAscending records = save_all-IsAscending records [] tt

  load_existing-append :
      (rows : Rows R) (row : Sequenced R)
      → load_existing f (f.uid row.record_of) rows ≡ none
      → load_existing f (f.uid row.record_of) (rows ++ row ∷ []) ≡ some row.record_of
  unfolding load_existing
  load_existing-append [] row h = rw eq_refl refl
  load_existing-append (x ∷ rows) row h = ground (arith, load_existing-append rows row)

  save-new :
      (r : R) (rows : Rows R)
      → load_existing f (f.uid r) rows ≡ none
      → Table.save f r rows
        ≡ (ok tt, rows ++ record { sequence_id = max_rowid rows + 1; record_of = r } ∷ [])
  unfolding Table.save
  save-new r rows e = rw (e, Table.save) refl

  save-found :
      (r existing : R) (rows : Rows R)
      → load_existing f (f.uid r) rows ≡ some existing
      → Table.save f r rows ≡ ((if f.same existing r then ok tt else err value_error), rows)
  unfolding Table.save
  save-found r existing rows e = rw (e, Table.save) refl

  -- A record that was accepted once is accepted again, and the second time changes nothing.
  pub save-save :
      (r : R) (rows : Rows R)
      → (Table.save f r rows).0 ≡ ok tt
      → Table.save f r (Table.save f r rows).1 ≡ (ok tt, (Table.save f r rows).1)
  save-save r rows h = elim (Option-cases (load_existing f (f.uid r) rows)) [
    | inl e ↦
        let row : Sequenced R = record { sequence_id = max_rowid rows + 1; record_of = r } in
        rw (save-new r rows e) (
          save-found r r (rows ++ row ∷ []) (load_existing-append rows row e)
          ∙ (rw f.same_refl refl))
    | inr (existing, e) ↦
        let found = save-found r existing rows e in
        rw found (found ∙ ap (λ x. (x, rows)) (rw found at h))
  ]
