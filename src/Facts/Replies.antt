-- ===== src/Facts/Replies.antt =====
-- How the states of an in-memory fact store and of its SQLite table correspond, and their replies.
use aca_bot.Prelude.{
  ℕ, suc, ◌+◌, max, String, ◌≡◌, refl, sym, ap, ap₂, Bool, ◌&&◌, Option, none, some, List, [], ◌∷◌,
  ◌++◌, length, get_elem?, keep, arith, str_eq, eq_iff, if◌then◌else◌, lookup, lookup-insert,
  Option-cases, Bool-cases, inl, inr, ◌∙◌,
}
use aca_bot.Errors.{Result}
use aca_bot.Runs.Records.{limited}
use aca_bot.Facts.Records.{Fact, Sequenced}
use aca_bot.Facts.Memory
use aca_bot.Facts.Memory.{FactMemory, appended, repeated, has_kind, is_after, of_thread}
use aca_bot.Facts.Table
use aca_bot.Facts.Table.{Rows, max_rowid, load_existing, is_found}

abbrev next : Option ℕ → Option ℕ
next none = none
next (some i) = some (suc i)

max_rowid-append :
    {R : Type 0} (rows : Rows R) (row : Sequenced R)
    → max_rowid (rows ++ row ∷ []) ≡ max (max_rowid rows) row.sequence_id
unfolding max_rowid
max_rowid-append [] row = omega arith
max_rowid-append (x ∷ rows) row = omega (arith, max_rowid-append rows row)

module _ {R : Type 0} (f : Fact R) where
  -- The place of the record of the uid.
  unfoldable pub position : String → Rows R → Option ℕ
  position uid [] = none
  position uid (row ∷ rows) =
      if str_eq (f.uid row.record_of) uid then some 0 else next (position uid rows)

  -- `rows` stand for `m`.
  pub record Simulates (m : FactMemory R) (rows : Rows R) : Type 0 where
    pub same_items : m.items ≡ rows
    pub same_next : m.next_sequence ≡ max_rowid rows + 1
    pub indexed : (uid : String) → lookup uid m.indexes_by_uid ≡ position uid rows

  pub Simulates-init : Simulates Memory.init []
  unfolding lookup position max_rowid
  Simulates-init = record { same_items = refl; same_next = omega arith; indexed = λ uid. refl }

  position-none :
      (uid : String) (rows : Rows R) → position uid rows ≡ none → load_existing f uid rows ≡ none
  unfolding position load_existing
  position-none uid [] h = refl
  position-none uid (row ∷ rows) h = elim (Bool-cases (str_eq (f.uid row.record_of) uid)) [
    | inl e ↦ absurd (let h' = (rw e at h) in ground arith)
    | inr e ↦ rw e (
        position-none uid rows (elim (Option-cases (position uid rows)) [
          | inl p ↦ p
          | inr (i, p) ↦ absurd (let h' = (rw (e, p) at h) in ground arith)
        ]))
  ]

  position-some :
      (uid : String) (rows : Rows R) (i : ℕ)
      → position uid rows ≡ some i
      → (row : Sequenced R) × (get_elem? rows i ≡ some row)
        × (load_existing f uid rows ≡ some row.record_of)
  unfolding position load_existing
  position-some uid [] i h = absurd (ground arith)
  position-some uid (row ∷ rows) i h = elim (Bool-cases (str_eq (f.uid row.record_of) uid)) [
    | inl e ↦
        let h' : some 0 ≡ some i = (rw e at h) in
        let first : 0 ≡ i = cc h' in (row, rw (sym first) refl, rw e refl)
    | inr e ↦ elim (Option-cases (position uid rows)) [
      | inl p ↦ absurd (let h' = (rw (e, p) at h) in ground arith)
      | inr (j, p) ↦
          let h' : some (suc j) ≡ some i = (rw (e, p) at h) in
          let later : suc j ≡ i = cc h' in
          let (found, at, loaded) = position-some uid rows j p in
          (found, rw (sym later) at, rw e loaded)
    ]
  ]

  or_place : Option ℕ → Bool → ℕ → Option ℕ
  or_place (some i) own n = some i
  or_place none own n = if own then some n else none

  position-append :
      (uid : String) (rows : Rows R) (row : Sequenced R)
      → position uid (rows ++ row ∷ [])
        ≡ or_place (position uid rows) (str_eq (f.uid row.record_of) uid) (length rows)
  unfolding position or_place
  position-append uid [] row = refl
  position-append uid (x ∷ rows) row = elim (Bool-cases (str_eq (f.uid x.record_of) uid)) [
    | inl e ↦ rw e refl
    | inr e ↦ elim (Option-cases (position uid rows)) [
      | inl p ↦
          rw (e, position-append uid rows row, p)
            (elim (Bool-cases (str_eq (f.uid row.record_of) uid)) [
              | inl q ↦ rw q refl
              | inr q ↦ rw q refl
            ])
      | inr (i, p) ↦ rw (e, position-append uid rows row, p) refl
    ]
  ]

  module _ (m : FactMemory R) (rows : Rows R) (s : Simulates m rows) (r : R) where
    appended-Simulates :
        position (f.uid r) rows ≡ none
        → Simulates
            (appended f r m)
            (rows ++ record { sequence_id = max_rowid rows + 1; record_of = r } ∷ [])
    unfolding or_place
    appended-Simulates absent = record {
      same_items = rw (s.same_items, s.same_next) refl;
      same_next = rw (s.same_next, max_rowid-append) (omega arith);
      indexed = λ uid.
          lookup-insert (f.uid r) uid (length m.items) m.indexes_by_uid
          ∙ (rw (position-append uid rows _, s.indexed uid, s.same_items)
              (elim (Bool-cases (str_eq (f.uid r) uid)) [
                | inl e ↦
                    let same : f.uid r ≡ uid = (eq_iff (f.uid r) uid).0 e in
                    rw e (rw (rw same at absent, or_place) refl)
                | inr e ↦ rw e (elim (Option-cases (position uid rows)) [
                  | inl p ↦ rw (p, or_place) refl
                  | inr (i, p) ↦ rw (p, or_place) refl
                ])
              ]));
    }

    pub save-Simulates :
        ((Table.save f r rows).0 ≡ (Memory.save f r m).0)
        × Simulates (Memory.save f r m).1 (Table.save f r rows).1
    unfolding Memory.save Table.save
    save-Simulates = elim (Option-cases (position (f.uid r) rows)) [
      | inl p ↦
          rw (position-none (f.uid r) rows p, s.indexed (f.uid r) ∙ p, Table.save, Memory.save)
            (refl, appended-Simulates p)
      | inr (i, p) ↦
          let (row, at, loaded) = position-some (f.uid r) rows i p in
          let there : get_elem? m.items i ≡ some row = rw s.same_items at in
          rw (loaded, s.indexed (f.uid r) ∙ p, Table.save, Memory.save) (rw there refl, s)
    ]

keep-keep :
    {A : Type 0} (p q : A → Bool) (xs : List A) → keep q (keep p xs) ≡ keep (λ x. p x && q x) xs
keep-keep p q [] = refl
keep-keep p q (x ∷ xs) = elim (Bool-cases (p x)) [
  | inr e ↦ rw e (keep-keep p q xs)
  | inl e ↦ elim (Bool-cases (q x)) [
    | inl g ↦ rw (e, g) (ap (λ l. x ∷ l) (keep-keep p q xs))
    | inr g ↦ rw (e, g) (keep-keep p q xs)
  ]
]

module _ {R : Type 0} (f : Fact R) where
  pub data Op : Type 0 where
    save : R → Op
    read : String → (after_sequence limit : Option ℕ) → (kinds : Option (List String)) → Op

  pub data Reply : Type 0 where
    saved : Result (Unit {0}) → Reply
    found : List (Sequenced R) → Reply

  unfoldable pub memory_replies : List Op → FactMemory R → List Reply
  memory_replies [] m = []
  memory_replies (save r ∷ ops) m =
      saved (Memory.save f r m).0 ∷ memory_replies ops (Memory.save f r m).1
  memory_replies (read thread_id after_sequence limit kinds ∷ ops) m =
      found (Memory.get_thread_after_sequence f thread_id after_sequence limit kinds m)
      ∷ memory_replies ops m

  unfoldable pub table_replies : List Op → Rows R → List Reply
  table_replies [] rows = []
  table_replies (save r ∷ ops) rows =
      saved (Table.save f r rows).0 ∷ table_replies ops (Table.save f r rows).1
  table_replies (read thread_id after_sequence limit kinds ∷ ops) rows =
      found (Table.get_thread_after_sequence f thread_id after_sequence limit kinds rows)
      ∷ table_replies ops rows

  read-same :
      (thread_id : String) (after_sequence limit : Option ℕ) (kinds : Option (List String))
      (m : FactMemory R) (rows : Rows R)
      → Simulates f m rows
      → Table.get_thread_after_sequence f thread_id after_sequence limit kinds rows
        ≡ Memory.get_thread_after_sequence f thread_id after_sequence limit kinds m
  unfolding Memory.get_thread_after_sequence Table.get_thread_after_sequence
  read-same thread_id after_sequence limit kinds m rows s =
      let of_kind : Sequenced R → Bool = λ item. has_kind kinds (f.kind item.record_of) in
      let newer : Sequenced R → Bool = λ item. is_after after_sequence item.sequence_id in
      ap (limited limit) (
        sym (
          rw s.same_items (
            ap (keep of_kind) (keep-keep (of_thread f thread_id) newer rows)
            ∙ keep-keep (λ item. of_thread f thread_id item && newer item) of_kind rows)))

  -- From states that stand for each other the in-memory store and the SQLite store give the same
  -- replies to every sequence of saves and of reads after a sequence number, refusals included.
  pub fact_replies-same :
      (ops : List Op) (m : FactMemory R) (rows : Rows R)
      → Simulates f m rows
      → table_replies ops rows ≡ memory_replies ops m
  unfolding memory_replies table_replies
  fact_replies-same [] m rows s = refl
  fact_replies-same (save r ∷ ops) m rows s =
      let (e, s') = save-Simulates f m rows s r in
      ap₂ ◌∷◌ (ap saved e) (fact_replies-same ops (Memory.save f r m).1 (Table.save f r rows).1 s')
  fact_replies-same (read thread_id after_sequence limit kinds ∷ ops) m rows s =
      ap₂ ◌∷◌ (ap found (read-same thread_id after_sequence limit kinds m rows s))
        (fact_replies-same ops m rows s)
