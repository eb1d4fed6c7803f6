-- ===== src/Scheduler/Restored.antt =====
-- What recovery makes of a row, and what a task leaves in the store.
use aca_bot.Prelude.{
  ℕ, ◌≤◌, ◌≡◌, refl, sym, Bool, true, false, ◌&&◌, not, Option, none, some, arith, ltb, lookup,
  lookup-insert_self, Bool-cases, inl, inr, ◌∙◌,
}
use aca_bot.Errors.{ok}
use aca_bot.Scheduler.Contracts.{
  Schedule, cron, interval, one_shot, MisfirePolicy, skip, fire_once, ScheduledTaskRow,
  spec_to_schedule,
}
use aca_bot.Scheduler.Store.{Table}
use aca_bot.Scheduler.Engine.{
  Croniter, TaskRecord, Scheduler, compute_resumed_fire, advance_to_future, persisting,
  validate_schedule,
}
use aca_bot.Scheduler.Tasks.{Registration, register, register_valid, new_record, cancel, drop_task}
use aca_bot.Scheduler.Recovery.{
  Decision, decide_misfire, decide, recovered_record, install, recover_row,
}
use aca_bot.Scheduler.Restart.{Result-cases}

-- An enabled task has a time that has not passed.
abbrev pub NotPast : ℕ → Bool → Option ℕ → Type 0
NotPast now false next = Unit
NotPast now true none = ⊥
NotPast now true (some t) = now ≤ t

module _ (croniter : Croniter) (row : ScheduledTaskRow) (now stored : ℕ) (st : Option Table) where
  misfire-NotPast :
      (policy : MisfirePolicy) (schedule : Schedule) (d : Decision)
      → decide_misfire croniter policy schedule row.task_id now stored st ≡ ok d
      → NotPast now d.enabled d.next_fire_at
  unfolding decide_misfire advance_to_future
  misfire-NotPast skip (one_shot t) d h = ground arith
  misfire-NotPast skip (cron e) d h = ground (arith, croniter.get_next_after e now)
  misfire-NotPast skip (interval n) d h = ground arith
  misfire-NotPast fire_once schedule d h = ground arith

  resumed-NotPast :
      (schedule : Schedule) (t : ℕ) → compute_resumed_fire croniter schedule now ≡ ok t → now ≤ t
  unfolding compute_resumed_fire
  resumed-NotPast (cron e) t h = ground (arith, croniter.get_next_after e now)
  resumed-NotPast (interval n) t h = ground arith
  resumed-NotPast (one_shot f) t h = ground arith

  decide-NotPast :
      (schedule : Schedule) (enabled : Bool) (next : Option ℕ) (d : Decision)
      → decide croniter row schedule enabled next now stored st ≡ ok d
      → NotPast now d.enabled d.next_fire_at × (enabled ≡ false → d.enabled ≡ false)
  unfolding decide
  decide-NotPast schedule false next d h = (ground arith, λ _. ground arith)
  decide-NotPast schedule true (some t) d h = elim (Bool-cases (ltb t now)) [
    | inl late ↦ (misfire-NotPast row.misfire_policy schedule d (rw (late, decide) at h), λ x. cc)
    | inr early ↦ (ground arith, λ x. cc)
  ]
  decide-NotPast schedule true none d h =
      elim (Result-cases (compute_resumed_fire croniter schedule now)) [
        | inl (e, p) ↦ absurd (ground arith)
        | inr (t, p) ↦ (ground (arith, resumed-NotPast schedule t p), λ x. cc)
      ]

-- What a recovered row has become.
abbrev pub Recovered : Croniter → ScheduledTaskRow → ℕ → Option TaskRecord → Type 0
Recovered croniter row now none = ⊥
Recovered croniter row now (some r) =
    (ok r.schedule ≡ spec_to_schedule row.schedule_type row.schedule_spec)
    × (r.owner ≡ row.owner)
    × (r.persist ≡ true)
    × NotPast now r.enabled r.next_fire_at
    × ((r.enabled && not row.enabled) ≡ false)

still_disabled : (a b : Bool) → (b ≡ false → a ≡ false) → (a && not b) ≡ false
still_disabled a true h = ground arith
still_disabled a false h = rw h (refl)

install-Recovered :
    (croniter : Croniter) (row : ScheduledTaskRow) (schedule : Schedule) (now : ℕ) (enabled : Bool)
    (next : Option ℕ) (st : Option Table) (s : Scheduler)
    → spec_to_schedule row.schedule_type row.schedule_spec ≡ ok schedule
    → NotPast now enabled next
    → (row.enabled ≡ false → enabled ≡ false)
    → Recovered croniter row now (lookup row.task_id (install row schedule enabled next st s).tasks)
unfolding install recovered_record
install-Recovered croniter row schedule now true (some t) st s p n d =
    rw lookup-insert_self (sym p, refl, refl, n, still_disabled true row.enabled d)
install-Recovered croniter row schedule now true none st s p n d = absurd n
install-Recovered croniter row schedule now false next st s p n d =
    rw lookup-insert_self (sym p, refl, refl, tt, refl)

persisting-false :
    (write : Table → Table) (persist : Bool) (st : Option Table)
    → persist ≡ false
    → persisting persist write st ≡ st
persisting-false write persist st h = ground arith

store-register_valid-cancel :
    (a : Registration) (existing : Option TaskRecord) (t now : ℕ) (s : Scheduler)
    → a.persist ≡ false
    → (cancel a.task_id (register_valid a existing t now s)).1.store ≡ s.store
unfolding cancel register_valid drop_task new_record
store-register_valid-cancel a existing t now s transient =
    rw (lookup-insert_self, cancel)
      (persisting-false _ a.persist (persisting a.persist _ s.store) transient
        ∙ persisting-false _ a.persist s.store transient)

module _ (croniter : Croniter) where
  -- A row that recovery accepts, of a task that is not in memory, becomes a persisted task with the
  -- row's owner and schedule. If it is enabled its time has not passed, whatever the misfire policy
  -- and the time in the row; and a row that is disabled stays disabled.
  pub recover_row-Recovered :
      (row : ScheduledTaskRow) (now stored : ℕ) (s : Scheduler)
      → lookup row.task_id s.tasks ≡ none
      → (recover_row croniter row now stored s).0 ≡ ok tt
      → Recovered croniter row now
          (lookup row.task_id (recover_row croniter row now stored s).1.tasks)
  unfolding recover_row
  recover_row-Recovered row now stored s absent fine =
      elim (Result-cases (spec_to_schedule row.schedule_type row.schedule_spec)) [
        | inl (e, p) ↦ absurd (ground arith)
        | inr (schedule, p) ↦
            elim (Result-cases
              (decide croniter row schedule row.enabled row.next_fire_at now stored s.store)) [
                | inl (e, q) ↦ absurd (ground arith)
                | inr (d, q) ↦
                    let n =
                      decide-NotPast croniter row now stored s.store schedule row.enabled
                        row.next_fire_at d q in
                    rw (absent, p, q, recover_row)
                      (install-Recovered croniter row schedule now d.enabled d.next_fire_at d.store
                        s p n.0 n.1)
              ]
      ]

  -- Registering a task anew as not persisted, and then cancelling it, leaves the store as it was:
  -- a row that an earlier, persisted registration wrote stays there, and the next recovery brings
  -- the cancelled task back.
  pub store-register-cancel :
      (a : Registration) (initial now : ℕ) (s : Scheduler)
      → a.persist ≡ false
      → (register croniter a initial now s).0 ≡ ok tt
      → (cancel a.task_id (register croniter a initial now s).1).1.store ≡ s.store
  unfolding register
  store-register-cancel a initial now s transient fine =
      elim (Result-cases (validate_schedule croniter a.schedule)) [
        | inl (e, p) ↦ absurd (ground arith)
        | inr (u, p) ↦
            rw (p, register)
              (store-register_valid-cancel a (lookup a.task_id s.tasks) _ now s transient)
      ]
