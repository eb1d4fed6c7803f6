-- ===== src/Scheduler/Reach.antt =====
-- Every sequence of the scheduler's operations, in any order, from a new scheduler.
use aca_bot.Prelude.{ℕ, String, Option, List, [], ◌∷◌, All, if-holds}
use aca_bot.Scheduler.Store.{Table}
use aca_bot.Scheduler.Engine
use aca_bot.Scheduler.Engine.{Croniter, Scheduler, Resolver, init}
use aca_bot.Scheduler.Tasks
use aca_bot.Scheduler.Tasks.{Registration}
use aca_bot.Scheduler.Worker
use aca_bot.Scheduler.Recovery
use aca_bot.Scheduler.Consistency.{IsConsistent, IsConsistent-init}
use aca_bot.Scheduler.Preservation.{
  register-IsConsistent, cancel-IsConsistent, disable-IsConsistent, enable-IsConsistent,
  unregister_by_owner-IsConsistent,
}
use aca_bot.Scheduler.Restart.{start-IsConsistent, stop-IsConsistent}
use aca_bot.Scheduler.Backing.{
  AllBacked, register-AllBacked, cancel-AllBacked, disable-AllBacked, enable-AllBacked,
  worker_round-AllBacked,
}
use aca_bot.Scheduler.Owners.{unregister_by_owner-AllBacked}
use aca_bot.Scheduler.Rounds.{worker_round-IsConsistent}

pub data Op : Type 0 where
  register : Registration → (initial now : ℕ) → Op
  cancel : String → Op
  disable : String → (now stored : ℕ) → Op
  enable : String → (resumed now stored : ℕ) → Op
  unregister_by_owner : String → Op
  set_callback_resolver : Resolver → Op
  start : (now stored : ℕ) → Op
  stop : Op
  worker_round : (now fired_at stored : ℕ) → Op
  callback_done : ℕ → Op

module _ (croniter : Croniter) where
  unfoldable pub step : Op → Scheduler → Scheduler
  step (register a initial now) s = (Tasks.register croniter a initial now s).1
  step (cancel k) s = (Tasks.cancel k s).1
  step (disable k now stored) s = (Tasks.disable k now stored s).1
  step (enable k resumed now stored) s = (Tasks.enable croniter k resumed now stored s).1
  step (unregister_by_owner owner) s = (Tasks.unregister_by_owner owner s).1
  step (set_callback_resolver resolver) s = Engine.set_callback_resolver resolver s
  step (start now stored) s = (Recovery.start croniter now stored s).1
  step stop s = Recovery.stop s
  step (worker_round now fired_at stored) s = (Worker.worker_round croniter now fired_at stored s).1
  step (callback_done i) s = Worker.callback_done i s

  unfoldable pub run : List Op → Scheduler → Scheduler
  unfolding step
  run [] s = s
  run (op ∷ ops) s = run ops (step op s)

  step-IsConsistent : (op : Op) (s : Scheduler) → IsConsistent s → IsConsistent (step op s)
  unfolding step
  step-IsConsistent (register a initial now) s c = register-IsConsistent croniter a initial now s c
  step-IsConsistent (cancel k) s c = cancel-IsConsistent k s c
  step-IsConsistent (disable k now stored) s c = disable-IsConsistent k now stored s c
  step-IsConsistent (enable k resumed now stored) s c =
      enable-IsConsistent croniter k resumed now stored s c
  step-IsConsistent (unregister_by_owner owner) s c = unregister_by_owner-IsConsistent owner s c
  step-IsConsistent (set_callback_resolver resolver) s c =
      unfold Engine.set_callback_resolver in
      record { live_queued = c.live_queued; flagged = c.flagged; sorted = c.sorted }
  step-IsConsistent (start now stored) s c = start-IsConsistent croniter now stored s c
  step-IsConsistent stop s c = stop-IsConsistent s c
  step-IsConsistent (worker_round now fired_at stored) s c =
      worker_round-IsConsistent croniter now fired_at stored s c
  step-IsConsistent (callback_done i) s c =
      unfold Worker.callback_done in
      record { live_queued = c.live_queued; flagged = c.flagged; sorted = c.sorted }

  -- Whatever operations run, in whatever order and at whatever times, on a scheduler that began
  -- with any store: each task has exactly one entry in the heap that is not cancelled if it is
  -- enabled, at the time that its record says, and none if it is disabled or gone; and the heap is
  -- in the order of the times.
  pub run-IsConsistent : (ops : List Op) (s : Scheduler) → IsConsistent s → IsConsistent (run ops s)
  unfolding run
  run-IsConsistent [] s c = c
  run-IsConsistent (op ∷ ops) s c = run-IsConsistent ops (step op s) (step-IsConsistent op s c)

  -- Whatever operations run on a new scheduler, each task with a next time has exactly the one live
  -- entry in the heap that its record names, at that time; a task is enabled just if it has a time;
  -- no other entry is live; and the heap is in order.
  pub run-init-IsConsistent : (ops : List Op) (st : Option Table) → IsConsistent (run ops (init st))
  run-init-IsConsistent ops st = run-IsConsistent ops (init st) (IsConsistent-init st)

  -- A restart may set a time in memory that the row gets at the next firing only.
  abbrev pub IsNotStart : Op → Type 0
  IsNotStart (start now stored) = ⊥
  IsNotStart _ = Unit

  step-AllBacked :
      (op : Op) (s : Scheduler)
      → IsNotStart op
      → IsConsistent s
      → AllBacked s
      → AllBacked (step op s)
  unfolding step
  step-AllBacked (register a initial now) s h c b = register-AllBacked croniter a initial now s b
  step-AllBacked (cancel k) s h c b = cancel-AllBacked k s b
  step-AllBacked (disable k now stored) s h c b = disable-AllBacked k now stored s b
  step-AllBacked (enable k resumed now stored) s h c b =
      enable-AllBacked croniter k resumed now stored s b
  step-AllBacked (unregister_by_owner owner) s h c b = unregister_by_owner-AllBacked owner s b
  step-AllBacked (set_callback_resolver resolver) s h c b = unfold Engine.set_callback_resolver in b
  step-AllBacked (start now stored) s h c b = absurd h
  step-AllBacked stop s h c b =
      unfold Recovery.stop in if-holds AllBacked s.started (λ _. b) (λ _. b)
  step-AllBacked (worker_round now fired_at stored) s h c b =
      worker_round-AllBacked croniter now fired_at stored s c b
  step-AllBacked (callback_done i) s h c b = unfold Worker.callback_done in b

  -- From a consistent state in which every persisted task has a row with its owner, schedule, next
  -- time and enabled flag, any operations but `start` lead to a state in which every persisted task
  -- has such a row.
  pub run-AllBacked :
      (ops : List Op) (s : Scheduler)
      → All IsNotStart ops
      → IsConsistent s
      → AllBacked s
      → AllBacked (run ops s)
  unfolding run
  run-AllBacked [] s h c b = b
  run-AllBacked (op ∷ ops) s h c b =
      run-AllBacked ops (step op s) h.1 (step-IsConsistent op s c) (step-AllBacked op s h.0 c b)
