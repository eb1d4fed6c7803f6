-- ===== src/Scheduler/Store.antt =====
-- src/acabot/runtime/scheduler/store.py: the table `scheduled_tasks`. Each method is one SQL
-- statement; the table is the list of its rows, and `task_id` is the primary key.
use aca_bot.Prelude.{
  ℕ, String, ◌≡◌, refl, Bool, true, false, not, ◌||◌, ◌&&◌, Option, none, some, List, [], ◌∷◌, ◌++◌,
  map, arith, str_eq, eq_iff, if◌then◌else◌, keep, sort, ltb, leb, ◌==◌, length, str_geb,
}
use aca_bot.Scheduler.Contracts.{ScheduledTaskRow}

abbrev pub Table : Type 0
Table = List ScheduledTaskRow

-- The row with the primary key.
unfoldable pub find_row : String → Table → Option ScheduledTaskRow
find_row tid [] = none
find_row tid (row ∷ t) = if str_eq row.task_id tid then some row else find_row tid t

unfoldable pub delete : String → Table → Bool × Table
delete tid t =
    let rest = keep (λ (row : ScheduledTaskRow). not (str_eq row.task_id tid)) t in
    (ltb (length rest) (length t), rest)

-- INSERT OR REPLACE drops the row with the same key and adds the new one.
unfoldable pub upsert : ScheduledTaskRow → Table → Table
unfolding delete
upsert row t = (delete row.task_id t).1 ++ row ∷ []

unfoldable pub delete_by_owner : String → Table → List String × Table
delete_by_owner owner t = (
  map (λ (row : ScheduledTaskRow). row.task_id)
      (keep (λ (row : ScheduledTaskRow). str_eq row.owner owner) t),
  keep (λ (row : ScheduledTaskRow). not (str_eq row.owner owner)) t,
)

-- UPDATE … WHERE task_id = ?
unfoldable pub update_where : String → (ScheduledTaskRow → ScheduledTaskRow) → Table → Table
update_where tid f [] = []
update_where tid f (row ∷ t) =
    (if str_eq row.task_id tid then f row else row) ∷ update_where tid f t

abbrev pub coalesce : Option ℕ → Option ℕ → Option ℕ
coalesce none old = old
coalesce (some t) old = some t

unfoldable pub update_schedule_state :
    String → Option ℕ → Bool → Option ℕ → (now : ℕ) → Table → Table
unfolding update_where
update_schedule_state tid next enabled last now = update_where tid (λ row. record row {
  next_fire_at = next;
  enabled = enabled;
  updated_at = now;
  last_fired_at = coalesce last row.last_fired_at;
})

unfoldable pub update_next_fire_at : String → Option ℕ → (now : ℕ) → Table → Table
unfolding update_where
update_next_fire_at tid next now =
    update_where tid (λ row. record row { next_fire_at = next; updated_at = now })

unfoldable pub enable : String → ℕ → (now : ℕ) → Table → Table
unfolding update_where
enable tid next now =
    update_where tid
      (λ row. record row { enabled = true; next_fire_at = some next; updated_at = now })

unfoldable pub disable : String → Option ℕ → (now : ℕ) → Table → Table
unfolding update_where
disable tid next now =
    update_where tid (λ row. record row { enabled = false; next_fire_at = next; updated_at = now })

-- ORDER BY next_fire_at: NULL is the least value.
next_first : ScheduledTaskRow → ScheduledTaskRow → Bool
next_first a b = elim a.next_fire_at [
  | none ↦ true
  | some s ↦ elim b.next_fire_at [ none ↦ false | some t ↦ leb s t ]
]

unfoldable pub list_enabled : Table → List ScheduledTaskRow
unfolding next_first
list_enabled t = sort next_first (keep (λ (row : ScheduledTaskRow). row.enabled) t)

-- ORDER BY created_at DESC, task_id DESC.
newest_first : ScheduledTaskRow → ScheduledTaskRow → Bool
newest_first a b =
    ltb b.created_at a.created_at || (a.created_at == b.created_at && str_geb a.task_id b.task_id)

unfoldable pub list_all : Table → List ScheduledTaskRow
unfolding newest_first
list_all t = sort newest_first t

pub find_row-delete :
    (k j : String) (t : Table)
    → find_row j (delete k t).1 ≡ (if str_eq k j then none else find_row j t)
unfolding find_row delete
find_row-delete k j [] = ground arith
find_row-delete k j (row ∷ t) =
    ground (arith, eq_iff k j, eq_iff row.task_id k, eq_iff row.task_id j, find_row-delete k j t)

find_row-append :
    (j : String) (t : Table) (row : ScheduledTaskRow)
    → find_row j (t ++ row ∷ []) ≡ (elim (find_row j t) [
      | none ↦ if str_eq row.task_id j then some row else none
      | some old ↦ some old
    ])
unfolding find_row
find_row-append j [] row = refl
find_row-append j (r ∷ t) row = ground (arith, find_row-append j t row)

-- After `upsert` the row is found under its key, and every other key finds what it found.
pub find_row-upsert :
    (row : ScheduledTaskRow) (j : String) (t : Table)
    → find_row j (upsert row t) ≡ (if str_eq row.task_id j then some row else find_row j t)
unfolding upsert
find_row-upsert row j t =
    ground (arith, find_row-append j (delete row.task_id t).1 row, find_row-delete row.task_id j t)

pub find_row-update_where :
    (k j : String) (f : ScheduledTaskRow → ScheduledTaskRow) (t : Table)
    → ((row : ScheduledTaskRow) → (f row).task_id ≡ row.task_id)
    → find_row j (update_where k f t) ≡ (
        if str_eq k j
        then (elim (find_row j t) [ none ↦ none | some row ↦ some (f row) ])
        else find_row j t)
unfolding find_row update_where
find_row-update_where k j f [] h = ground arith
find_row-update_where k j f (row ∷ t) h = ground (
  arith,
  h row,
  eq_iff k j,
  eq_iff row.task_id k,
  eq_iff row.task_id j,
  find_row-update_where k j f t h,
)
