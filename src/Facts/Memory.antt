-- ===== src/Facts/Memory.antt =====
-- InMemoryChannelEventStore (src/acabot/runtime/storage/event_store.py) and InMemoryMessageStore
-- (memory_store.py), which differ in their records only.
use aca_bot.Prelude.{
  ℕ, ◌+◌, String, Bool, true, Option, none, some, List, [], ◌∷◌, ◌++◌, map, length, get_elem?, keep,
  ltb, str_eq, if◌then◌else◌, Dict, lookup, insert,
}
use aca_bot.Errors.{Result, ok, err, value_error, key_error}
use aca_bot.Runs.Records.{contains, last_slice, limited}
use aca_bot.Facts.Records.{Fact, Sequenced}

pub record FactMemory (R : Type 0) : Type 0 where
  pub items : List (Sequenced R)
  pub indexes_by_uid : Dict ℕ
  pub next_sequence : ℕ

abbrev pub init : {R : Type 0} → FactMemory R
init = record { items = []; indexes_by_uid = []; next_sequence = 1 }

-- `None` filters nothing, and an empty list everything.
abbrev pub has_kind : Option (List String) → String → Bool
has_kind none kind = true
has_kind (some kinds) kind = contains kinds kind

abbrev pub is_after : Option ℕ → ℕ → Bool
is_after none n = true
is_after (some bound) n = ltb bound n

module _ {R : Type 0} (f : Fact R) where
  -- The new item at the end; `indexes_by_uid` gets its place.
  abbrev pub appended : R → FactMemory R → FactMemory R
  appended r m = record m {
    items = m.items ++ record { sequence_id = m.next_sequence; record_of = r } ∷ [];
    indexes_by_uid = insert (f.uid r) (length m.items) m.indexes_by_uid;
    next_sequence = m.next_sequence + 1;
  }

  -- A record of the uid is there: nothing changes, and other content is refused.
  abbrev pub repeated : R → Option (Sequenced R) → Result (Unit {0})
  repeated r none = err key_error
  repeated r (some item) = if f.same item.record_of r then ok tt else err value_error

  unfoldable pub save : R → FactMemory R → Result (Unit {0}) × FactMemory R
  save r m = elim (lookup (f.uid r) m.indexes_by_uid) [
    | none ↦ (ok tt, appended r m)
    | some index ↦ (repeated r (get_elem? m.items index), m)
  ]

  abbrev pub of_thread : String → Sequenced R → Bool
  of_thread thread_id item = str_eq (f.thread item.record_of) thread_id

  unfoldable pub get_thread :
      String → (limit since : Option ℕ) → (kinds : Option (List String)) → FactMemory R → List R
  unfolding contains
  get_thread thread_id limit since kinds m =
      let items = keep (of_thread thread_id) m.items in
      let records = map (λ (item : Sequenced R). item.record_of) items in
      let recent = keep (λ r. is_after since (f.time r)) records in
      let found = keep (λ r. has_kind kinds (f.kind r)) recent in
      elim limit [ none ↦ found | some n ↦ last_slice n found ]

  unfoldable pub get_thread_after_sequence :
      String
      → (after_sequence limit : Option ℕ) → (kinds : Option (List String)) → FactMemory R
      → List (Sequenced R)
  unfolding contains
  get_thread_after_sequence thread_id after_sequence limit kinds m =
      let items = keep (of_thread thread_id) m.items in
      let newer = keep (λ (item : Sequenced R). is_after after_sequence item.sequence_id) items in
      limited limit (keep (λ (item : Sequenced R). has_kind kinds (f.kind item.record_of)) newer)
