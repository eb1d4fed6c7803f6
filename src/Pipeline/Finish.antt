-- ===== src/Pipeline/Finish.antt =====
-- `ThreadPipeline._finish_run` of src/acabot/runtime/pipeline.py: how a run ends. The token usage is
-- left out. `now` is what the run manager's clock says.
use aca_bot.Prelude.{
  ℕ, String, Bool, true, Option, none, some, List, [], ◌∷◌, map, if◌then◌else◌, not, ◌&&◌, str_eq,
}
use aca_bot.Runs.Records.{
  Payload, Mark, mark_waiting_approval, mark_completed, mark_completed_with_errors, mark_failed,
  contains,
}
use aca_bot.Pipeline.Outbox.{OutboxItem, DispatchReport, has_failures}

-- `context` is the approval context that is written out of its fields.
pub record PendingApproval : Type 0 where
  pub reason : String
  pub required_action_ids : List String
  pub context : Payload

pub data ResponseStatus : Type 0 where
  completed waiting_approval failed : ResponseStatus

pub record Response : Type 0 where
  pub status : ResponseStatus
  pub actions : List OutboxItem
  pub error : Option String
  pub pending_approval : Option PendingApproval

-- What the tool broker is told before the run is marked.
pub data Audit : Type 0 where
  no_audit confirm_pending_approval : Audit
  fail_pending_approval : (error : String) → Audit

-- Whether all texts are in the list.
unfoldable pub includes : List String → List String → Bool
unfolding contains
includes have [] = true
includes have (x ∷ xs) = contains have x && includes have xs

abbrev pub text_or : String → Option String → String
text_or default none = default
text_or default (some s) = if str_eq s "" then default else s

abbrev pub action_ids : List OutboxItem → List String
action_ids = map (λ (item : OutboxItem). item.action_id)

unfoldable pub finish_waiting :
    Option PendingApproval → (is_child_run : Bool) → DispatchReport → (now : ℕ) → Audit × Mark
unfolding includes
finish_waiting none is_child_run report now =
    (no_audit, mark_failed "approval requested without pending_approval context" now)
finish_waiting (some pending) is_child_run report now =
    if is_child_run
    then (
      fail_pending_approval "subagent child run cannot enter waiting_approval",
      mark_failed "subagent child run cannot enter waiting_approval" now,
    )
    else if not (includes (action_ids report.delivered_items) pending.required_action_ids)
    then (
      fail_pending_approval "approval prompt not delivered",
      mark_failed "approval prompt not delivered" now,
    )
    else (confirm_pending_approval, mark_waiting_approval pending.reason pending.context)

unfoldable pub finish_response :
    ResponseStatus → Response → (is_child_run : Bool) → DispatchReport → (now : ℕ) → Audit × Mark
unfolding finish_waiting
finish_response waiting_approval response is_child_run report now =
    finish_waiting response.pending_approval is_child_run report now
finish_response failed response is_child_run report now =
    (no_audit, mark_failed (text_or "agent runtime failed" response.error) now)
finish_response completed response is_child_run report now =
    if has_failures report
    then (no_audit, mark_completed_with_errors "partial delivery failure" now)
    else (no_audit, mark_completed now)

unfoldable pub finish_run :
    Option Response → (is_child_run : Bool) → DispatchReport → (now : ℕ) → Audit × Mark
unfolding finish_response
finish_run none is_child_run report now = (no_audit, mark_failed "missing runtime response" now)
finish_run (some response) is_child_run report now =
    finish_response response.status response is_child_run report now
