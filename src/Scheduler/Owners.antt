-- ===== src/Scheduler/Owners.antt =====
-- `unregister_by_owner`: what is left of the tasks and rows of an owner.
use aca_bot.Prelude.{
  String, ◌≡◌, refl, subst, Bool, true, false, not, Option, none, some, List, [], ◌∷◌, arith,
  str_eq, eq_iff, if◌then◌else◌, lookup, lookup-remove, Bool-cases, Option-cases, inl, inr, Dict,
  keep, ◌∙◌, IsDistinct,
}
use aca_bot.Scheduler.Contracts.{ScheduledTaskRow}
use aca_bot.Scheduler.Store
use aca_bot.Scheduler.Store.{Table, find_row}
use aca_bot.Scheduler.Engine.{TaskRecord, Scheduler, persisting}
use aca_bot.Scheduler.Tasks.{drop_task, cancel, cancel_all, unregister_by_owner, owned_by}
use aca_bot.Scheduler.Durability.{HasRow, Backed, IsBacked}
use aca_bot.Scheduler.Backing.{AllBacked, cancel-AllBacked}

-- Whether the list names the task.
abbrev pub listed : String → List String → Bool
listed tid [] = false
listed tid (k ∷ ks) = if str_eq k tid then true else listed tid ks

owned_by-listed :
    (owner tid : String) (m : Dict TaskRecord) (r : TaskRecord)
    → lookup tid m ≡ some r
    → str_eq r.owner owner ≡ true
    → listed tid (owned_by owner m) ≡ true
unfolding lookup
owned_by-listed owner tid [] r h own = cc
owned_by-listed owner tid ((k, q) ∷ m) r h own =
    ground (arith, eq_iff k tid, owned_by-listed owner tid m r)

listed-absent :
    (owner tid : String) (m : Dict TaskRecord)
    → lookup tid m ≡ none
    → listed tid (owned_by owner m) ≡ false
unfolding lookup
listed-absent owner tid [] h = refl
listed-absent owner tid ((k, q) ∷ m) h = ground (arith, listed-absent owner tid m)

-- In a dict a task is listed just if it is the owner's.
listed-owned_by :
    (owner tid : String) (m : Dict TaskRecord) (r : TaskRecord)
    → IsDistinct m
    → lookup tid m ≡ some r
    → listed tid (owned_by owner m) ≡ str_eq r.owner owner
unfolding lookup
listed-owned_by owner tid [] r d h = cc
listed-owned_by owner tid ((k, q) ∷ m) r d h = elim (Bool-cases (str_eq k tid)) [
  | inl e ↦
      let gone : lookup tid m ≡ none =
        subst (λ (j : String). lookup j m ≡ none) ((eq_iff k tid).0 e) d.0 in
      ground (arith, listed-absent owner tid m gone)
  | inr e ↦ ground (arith, listed-owned_by owner tid m r d.1)
]

lookup-cancel :
    (k tid : String) (s : Scheduler)
    → lookup tid (cancel k s).1.tasks ≡ (if str_eq k tid then none else lookup tid s.tasks)
unfolding cancel drop_task
lookup-cancel k tid s = elim (Option-cases (lookup k s.tasks)) [
  | inr (r, e) ↦ rw (e, cancel) (lookup-remove k tid s.tasks)
  | inl e ↦
      rw (e, cancel)
        (elim (Bool-cases (str_eq k tid)) [
          | inl q ↦ rw q (subst (λ j. lookup j s.tasks ≡ none) ((eq_iff k tid).0 q) e)
          | inr q ↦ rw q refl
        ])
]

lookup-cancel_all :
    (ks : List String) (tid : String) (s : Scheduler)
    → lookup tid (cancel_all ks s).tasks ≡ (if listed tid ks then none else lookup tid s.tasks)
unfolding cancel_all
lookup-cancel_all [] tid s = refl
lookup-cancel_all (k ∷ ks) tid s =
    ground (arith, lookup-cancel_all ks tid (cancel k s).1, lookup-cancel k tid s)

cancel_all-AllBacked :
    (ks : List String) (s : Scheduler) → AllBacked s → AllBacked (cancel_all ks s)
unfolding cancel_all
cancel_all-AllBacked [] s b = b
cancel_all-AllBacked (k ∷ ks) s b = cancel_all-AllBacked ks (cancel k s).1 (cancel-AllBacked k s b)

abbrev not_owned : String → ScheduledTaskRow → Bool
not_owned owner row = not (str_eq row.owner owner)

find_row-keep :
    (owner tid : String) (t : Table) (row : ScheduledTaskRow)
    → find_row tid t ≡ some row
    → str_eq row.owner owner ≡ false
    → find_row tid (keep (not_owned owner) t) ≡ some row
unfolding find_row
find_row-keep owner tid [] row h o = h
find_row-keep owner tid (q ∷ t) row h o = ground (arith, find_row-keep owner tid t row)

-- What is left of a task that was found.
abbrev pub of_others : String → Option TaskRecord → Option TaskRecord
of_others owner none = none
of_others owner (some r) = if str_eq r.owner owner then none else some r

abbrev pub is_owned : String → Option TaskRecord → Bool
is_owned owner none = false
is_owned owner (some r) = str_eq r.owner owner

module _ (owner : String) (s : Scheduler) where
  abbrev after : Scheduler
  after = (unregister_by_owner owner s).1

  lookup-after :
      (tid : String)
      → lookup tid after.tasks
        ≡ (if listed tid (owned_by owner s.tasks) then none else lookup tid s.tasks)
  unfolding unregister_by_owner
  lookup-after tid = lookup-cancel_all (owned_by owner s.tasks) tid s

  unregister_by_owner_inv :
      (tid : String) (r : TaskRecord)
      → lookup tid after.tasks ≡ some r
      → (str_eq r.owner owner ≡ false) × (lookup tid s.tasks ≡ some r)
  unregister_by_owner_inv tid r h = elim (Bool-cases (listed tid (owned_by owner s.tasks))) [
    | inl e ↦ absurd (ground (arith, lookup-after tid))
    | inr e ↦
        let was : lookup tid s.tasks ≡ some r = ground (arith, lookup-after tid) in
        (
          elim (Bool-cases (str_eq r.owner owner)) [
            | inl own ↦ absurd (ground (arith, owned_by-listed owner tid s.tasks r was own))
            | inr other ↦ other
          ],
          was,
        )
  ]

  rows_after :
      (st : Option Table)
      → IsBacked (cancel_all (owned_by owner s.tasks) s).tasks st
      → IsBacked after.tasks (persisting true (λ t. (Store.delete_by_owner owner t).1) st)
  unfolding unregister_by_owner Store.delete_by_owner
  rows_after none b = tt
  rows_after (some t) b = λ tid. kept tid (lookup tid after.tasks) refl (b tid)
    where
      row_kept :
          (tid : String) (r : TaskRecord) (o : Option ScheduledTaskRow)
          → str_eq r.owner owner ≡ false
          → find_row tid t ≡ o
          → HasRow r o
          → HasRow r (find_row tid (keep (not_owned owner) t))
      row_kept tid r none other e m = absurd m
      row_kept tid r (some row) other e m =
          let p : find_row tid (keep (not_owned owner) t) ≡ some row =
            find_row-keep owner tid t row e (rw m.same_owner other) in
          rw p m

      kept :
          (tid : String) (o : Option TaskRecord)
          → lookup tid after.tasks ≡ o
          → Backed o (find_row tid t)
          → Backed o (find_row tid (keep (not_owned owner) t))
      kept tid none e h = tt
      kept tid (some r) e h = λ persist.
          row_kept tid r (find_row tid t) (unregister_by_owner_inv tid r e).0 refl (h persist)

  pub unregister_by_owner-AllBacked : AllBacked s → AllBacked after
  unfolding unregister_by_owner
  unregister_by_owner-AllBacked b =
      rows_after (cancel_all (owned_by owner s.tasks) s).store
        (cancel_all-AllBacked (owned_by owner s.tasks) s b)

  -- After `unregister_by_owner`, with a dict of tasks, no task of the owner is found and every other
  -- is found as it was, and the ids that it returns are those of the owner's tasks.
  pub unregister_by_owner-tasks :
      IsDistinct s.tasks
      → (tid : String)
      → (lookup tid after.tasks ≡ of_others owner (lookup tid s.tasks))
        × (listed tid (unregister_by_owner owner s).0 ≡ is_owned owner (lookup tid s.tasks))
  unfolding unregister_by_owner
  unregister_by_owner-tasks d tid = elim (Option-cases (lookup tid s.tasks)) [
    | inl e ↦
        let out : listed tid (owned_by owner s.tasks) ≡ false = listed-absent owner tid s.tasks e in
        rw e ((lookup-after tid ∙ rw out e), out)
    | inr (r, e) ↦
        let out : listed tid (owned_by owner s.tasks) ≡ str_eq r.owner owner =
          listed-owned_by owner tid s.tasks r d e in
        rw e ((lookup-after tid ∙ rw (out, e) refl), out)
  ]
