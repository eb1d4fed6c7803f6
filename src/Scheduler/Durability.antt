-- ===== src/Scheduler/Durability.antt =====
-- The rows of the store against the persisted tasks in memory.
use aca_bot.Prelude.{
  String, ◌≡◌, refl, subst, Bool, true, false, Option, none, some, str_eq, eq_iff, eq_refl,
  if◌then◌else◌, lookup, Bool-cases, inl, inr, ◌∙◌, Dict,
}
use aca_bot.Scheduler.Contracts.{ScheduledTaskRow, schedule_to_type_and_spec}
use aca_bot.Scheduler.Store
use aca_bot.Scheduler.Store.{
  Table, find_row, find_row-upsert, find_row-delete, find_row-update_where, update_where, coalesce,
}
use aca_bot.Scheduler.Engine.{TaskRecord, persisting}

-- A row says what recovery needs of the record.
pub record Mirrors (r : TaskRecord) (row : ScheduledTaskRow) : Type 0 where
  pub same_owner : row.owner ≡ r.owner
  pub same_type : row.schedule_type ≡ (schedule_to_type_and_spec r.schedule).0
  pub same_spec : row.schedule_spec ≡ (schedule_to_type_and_spec r.schedule).1
  pub same_time : row.next_fire_at ≡ r.next_fire_at
  pub same_state : row.enabled ≡ r.enabled

abbrev pub HasRow : TaskRecord → Option ScheduledTaskRow → Type 0
HasRow r none = ⊥
HasRow r (some row) = Mirrors r row

abbrev pub Backed : Option TaskRecord → Option ScheduledTaskRow → Type 0
Backed none row = Unit
Backed (some r) row = r.persist ≡ true → HasRow r row

-- Every persisted task in memory has its row in the store.
abbrev pub IsBacked : Dict TaskRecord → Option Table → Type 0
IsBacked tasks none = Unit
IsBacked tasks (some t) = (tid : String) → Backed (lookup tid tasks) (find_row tid t)

-- A write that changes only the row of `k`.
abbrev pub Touches : String → (Table → Table) → Type 0
Touches k write =
    (tid : String) (t : Table) → str_eq k tid ≡ false → find_row tid (write t) ≡ find_row tid t

module _ (k : String) (o : Option TaskRecord) (tasks tasks' : Dict TaskRecord)
    (others : (tid : String)
      → lookup tid tasks' ≡ (if str_eq k tid then o else lookup tid tasks)) where
  backed_at :
      (t t' : Table)
      → ((tid : String) → Backed (lookup tid tasks) (find_row tid t))
      → ((tid : String) → str_eq k tid ≡ false → find_row tid t' ≡ find_row tid t)
      → Backed o (find_row k t')
      → (tid : String) → Backed (lookup tid tasks') (find_row tid t')
  backed_at t t' b far own tid = elim (Bool-cases (str_eq k tid)) [
    | inl e ↦ rw (others tid, e) (subst (λ j. Backed o (find_row j t')) ((eq_iff k tid).0 e) own)
    | inr e ↦ rw (others tid, e, far tid e) (b tid)
  ]

  -- A change of the task `k` keeps the rows, if it writes no other row, and the row of `k` where
  -- the task is persisted.
  pub IsBacked-change :
      (persist : Bool) (write : Table → Table) (st : Option Table)
      → IsBacked tasks st
      → Touches k write
      → ((t : Table) → st ≡ some t → persist ≡ true → Backed o (find_row k (write t)))
      → ((t : Table) → st ≡ some t → persist ≡ false → Backed o (find_row k t))
      → IsBacked tasks' (persisting persist write st)
  IsBacked-change persist write none b far own idle = tt
  IsBacked-change true write (some t) b far own idle =
      backed_at t (write t) b (λ tid. far tid t) (own t refl refl)
  IsBacked-change false write (some t) b far own idle =
      backed_at t t b (λ tid _. refl) (idle t refl refl)

pub Touches-upsert : (row : ScheduledTaskRow) → Touches row.task_id (Store.upsert row)
Touches-upsert row tid t h = find_row-upsert row tid t ∙ (rw h)

pub Touches-delete : (k : String) → Touches k (λ t. (Store.delete k t).1)
Touches-delete k tid t h = find_row-delete k tid t ∙ (rw h)

pub Touches-update :
    (k : String) (f : ScheduledTaskRow → ScheduledTaskRow)
    → ((row : ScheduledTaskRow) → (f row).task_id ≡ row.task_id)
    → Touches k (update_where k f)
Touches-update k f same tid t h = find_row-update_where k tid f t same ∙ (rw h)

-- The row of a task that is not persisted is not asked for.
pub idle_backed :
    (r : TaskRecord) (row : Option ScheduledTaskRow) → r.persist ≡ false → Backed (some r) row
idle_backed r row h = λ p. cc

-- An UPDATE of a row that mirrors a record.
pub HasRow-update :
    (k : String) (r r' : TaskRecord) (f : ScheduledTaskRow → ScheduledTaskRow) (t : Table)
    → ((row : ScheduledTaskRow) → (f row).task_id ≡ row.task_id)
    → ((row : ScheduledTaskRow) → Mirrors r row → Mirrors r' (f row))
    → HasRow r (find_row k t)
    → HasRow r' (find_row k (update_where k f t))
HasRow-update k r r' f t same keep h =
    rw (find_row-update_where k k f t same, eq_refl k) (updated (find_row k t) h)
  where
    updated :
        (o : Option ScheduledTaskRow)
        → HasRow r o
        → HasRow r' (elim o [ none ↦ none | some row ↦ some (f row) ])
    updated none h = h
    updated (some row) h = keep row h
