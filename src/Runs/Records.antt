-- ===== src/Runs/Records.antt =====
-- Runs and their steps (src/acabot/runtime/contracts), and the transitions that both run managers
-- of src/acabot/runtime/storage/runs.py make on a record.
use aca_bot.Prelude.{
  ℕ, String, Bool, true, false, ◌||◌, Option, none, some, List, [], ◌∷◌, ◌-◌, length, str_eq,
  str_geb, if◌then◌else◌, Dict, insert, take, drop, leb, ltb, ◌==◌, ◌&&◌,
}

pub data RunStatus : Type 0 where
  queued running waiting_approval interrupted completed completed_with_errors failed cancelled :
      RunStatus

-- `RunStatus` values are texts in Python.
unfoldable pub same_status : RunStatus → RunStatus → Bool
same_status queued queued = true
same_status running running = true
same_status waiting_approval waiting_approval = true
same_status interrupted interrupted = true
same_status completed completed = true
same_status completed_with_errors completed_with_errors = true
same_status failed failed = true
same_status cancelled cancelled = true
same_status _ _ = false

-- `_ACTIVE_STATUSES`
unfoldable pub is_active : RunStatus → Bool
is_active queued = true
is_active running = true
is_active waiting_approval = true
is_active _ = false

-- `dict[str, Any]` whose values the managers pass on and never read.
abbrev pub Payload : Type 0
Payload = Dict String

pub record RunRecord : Type 0 where
  pub run_id : String
  pub thread_id : String
  pub actor_id : String
  pub agent_id : String
  pub trigger_event_id : String
  pub status : RunStatus
  pub started_at : ℕ
  pub finished_at : Option ℕ
  pub error : Option String
  pub approval_context : Payload
  pub metadata : Payload

pub record RunStep : Type 0 where
  pub step_id : String
  pub run_id : String
  pub step_type : String
  pub status : String
  pub thread_id : String
  pub payload : Payload
  pub created_at : ℕ
  pub step_seq : ℕ

-- What `open` reads of the event, of the route decision and of the model snapshot.
pub record Opening : Type 0 where
  pub event_id : String
  pub timestamp : ℕ
  pub thread_id : String
  pub actor_id : String
  pub agent_id : String
  pub metadata : Payload
  pub model_snapshot : Option String

-- `{**a, **b}`
unfoldable pub merge : Payload → Payload → Payload
merge a [] = a
merge a ((k, v) ∷ b) = merge (insert k v a) b

abbrev snapshot_entry : Option String → Payload
snapshot_entry none = []
snapshot_entry (some s) = ("model_snapshot", s) ∷ []

-- The record that `open` builds, with the new id.
unfoldable pub opened : Opening → (run_id : String) → RunRecord
unfolding merge
opened o run_id = record {
  run_id = run_id;
  thread_id = o.thread_id;
  actor_id = o.actor_id;
  agent_id = o.agent_id;
  trigger_event_id = o.event_id;
  status = queued;
  started_at = o.timestamp;
  finished_at = none;
  error = none;
  approval_context = [];
  metadata = merge o.metadata (snapshot_entry o.model_snapshot);
}

-- The `mark_…` methods with their arguments; `now` is what `_now()` returns.
pub data Mark : Type 0 where
  mark_running : Mark
  mark_waiting_approval : (reason : String) (approval_context : Payload) → Mark
  mark_completed : (now : ℕ) → Mark
  mark_completed_with_errors : (error_summary : String) (now : ℕ) → Mark
  mark_failed : (error : String) (now : ℕ) → Mark
  mark_cancelled : (reason : Option String) (now : ℕ) → Mark
  mark_interrupted : (reason : String) (now : ℕ) → Mark

finish : RunStatus → Option String → ℕ → RunRecord → RunRecord
finish status error now run = record run {
  status = status;
  error = error;
  finished_at = some now;
  approval_context = [];
}

unfoldable pub apply_mark : Mark → RunRecord → RunRecord
unfolding finish merge
apply_mark mark_running run = record run {
  status = running;
  error = none;
  finished_at = none;
  approval_context = [];
}
apply_mark (mark_waiting_approval reason approval_context) run = record run {
  status = waiting_approval;
  error = some reason;
  finished_at = none;
  approval_context = merge (("reason", reason) ∷ []) approval_context;
}
apply_mark (mark_completed now) run = finish completed none now run
apply_mark (mark_completed_with_errors summary now) run =
    finish completed_with_errors (some summary) now run
apply_mark (mark_failed error now) run = finish failed (some error) now run
apply_mark (mark_cancelled reason now) run = finish cancelled reason now run
apply_mark (mark_interrupted reason now) run = finish interrupted (some reason) now run

-- Membership in a list of texts.
unfoldable pub contains : List String → String → Bool
contains [] k = false
contains (j ∷ l) k = str_eq j k || contains l k

unfoldable pub has_status : List RunStatus → RunStatus → Bool
unfolding same_status
has_status [] s = false
has_status (t ∷ l) s = same_status t s || has_status l s

-- `ORDER BY step_seq ASC`, and `sort(key=…step_seq)`.
abbrev pub by_seq : RunStep → RunStep → Bool
by_seq a b = leb a.step_seq b.step_seq

-- By `(created_at, step_id)`.
abbrev pub by_time : RunStep → RunStep → Bool
by_time a b =
    ltb a.created_at b.created_at || (a.created_at == b.created_at && str_geb b.step_id a.step_id)

-- By `(started_at, run_id)`, greatest first.
abbrev pub newest_first : RunRecord → RunRecord → Bool
newest_first a b =
    ltb b.started_at a.started_at || (a.started_at == b.started_at && str_geb a.run_id b.run_id)

abbrev pub limited {ℓ} : {A : Type ℓ} → Option ℕ → List A → List A
limited none xs = xs
limited (some n) xs = take n xs

-- `steps[-n:]`: the last `n`, and all of them for 0, since `-0` is 0.
abbrev pub last_slice {ℓ} : {A : Type ℓ} → ℕ → List A → List A
last_slice n xs = if n == 0 then xs else drop (length xs - n) xs

-- The last `n`, as a query in descending order with a limit finds them.
abbrev pub last_rows {ℓ} : {A : Type ℓ} → ℕ → List A → List A
last_rows n xs = drop (length xs - n) xs
