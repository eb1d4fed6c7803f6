-- ===== src/Facts/Table.antt =====
-- SQLiteChannelEventStore and SQLiteMessageStore of src/acabot/runtime/storage/sqlite_stores.py,
-- which differ in their records only. The rows stand in the order of their rowid, which SQLite takes
-- one above the greatest.
use aca_bot.Prelude.{
  ℕ, ◌+◌, max, String, Bool, ◌||◌, ◌&&◌, Option, none, some, List, [], ◌∷◌, ◌++◌, map, keep, ltb,
  ◌==◌, str_eq, str_geb, if◌then◌else◌, sort,
}
use aca_bot.Errors.{Result, ok, err, value_error}
use aca_bot.Runs.Records.{contains, last_rows, limited}
use aca_bot.Facts.Records.{Fact, Sequenced}
use aca_bot.Facts.Memory.{has_kind, is_after, of_thread}

abbrev pub Rows : Type 0 → Type 0
Rows R = List (Sequenced R)

unfoldable pub max_rowid : {R : Type 0} → Rows R → ℕ
max_rowid [] = 0
max_rowid (row ∷ rows) = max row.sequence_id (max_rowid rows)

module _ {R : Type 0} (f : Fact R) where
  unfoldable pub load_existing : String → Rows R → Option R
  load_existing uid [] = none
  load_existing uid (row ∷ rows) =
      if str_eq (f.uid row.record_of) uid then some row.record_of else load_existing uid rows

  unfoldable pub save : R → Rows R → Result (Unit {0}) × Rows R
  unfolding load_existing max_rowid
  save r rows = elim (load_existing (f.uid r) rows) [
    | none ↦ (ok tt, rows ++ record { sequence_id = max_rowid rows + 1; record_of = r } ∷ [])
    | some existing ↦ ((if f.same existing r then ok tt else err value_error), rows)
  ]

  -- `ORDER BY timestamp ASC, uid ASC`
  abbrev pub by_time : R → R → Bool
  by_time a b = ltb (f.time a) (f.time b) || (f.time a == f.time b && str_geb (f.uid b) (f.uid a))

  -- With a limit the query takes the last rows in descending order and turns them round.
  unfoldable pub get_thread :
      String → (limit since : Option ℕ) → (kinds : Option (List String)) → Rows R → List R
  unfolding contains sort
  get_thread thread_id limit since kinds rows =
      let records =
        map (λ (row : Sequenced R). row.record_of) (keep (of_thread f thread_id) rows) in
      let found =
        keep (λ r. has_kind kinds (f.kind r)) (keep (λ r. is_after since (f.time r)) records) in
      elim limit [ none ↦ sort by_time found | some n ↦ last_rows n (sort by_time found) ]

  -- The rows of the thread after the sequence number, of the kinds.
  abbrev pub is_found :
      String → (after_sequence : Option ℕ) → (kinds : Option (List String)) → Sequenced R → Bool
  is_found thread_id after_sequence kinds row =
      of_thread f thread_id row
      && is_after after_sequence row.sequence_id
      && has_kind kinds (f.kind row.record_of)

  unfoldable pub get_thread_after_sequence :
      String
      → (after_sequence limit : Option ℕ) → (kinds : Option (List String)) → Rows R
      → List (Sequenced R)
  unfolding contains
  get_thread_after_sequence thread_id after_sequence limit kinds rows =
      limited limit (keep (is_found thread_id after_sequence kinds) rows)
