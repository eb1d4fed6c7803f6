-- ===== src/Pipeline/Execute.antt =====
-- `ThreadPipeline.execute` of src/acabot/runtime/pipeline.py, with the in-memory managers of runs and
-- threads. Each stage that calls other components may raise.
use aca_bot.Prelude.{ℕ, String, Bool, true, false, Option, none, some, List, [], if◌then◌else◌, map}
use aca_bot.Errors.{Error, Result, ok, err}
use aca_bot.Tasks.{Task, ◌>>=◌, ◌>>◌, lift, attempt}
use aca_bot.Runs.Records.{Mark, mark_running, mark_completed, mark_failed}
use aca_bot.Runs.Memory
use aca_bot.Runs.Memory.{Memory}
use aca_bot.Threads.Memory.{Threads}
use aca_bot.Pipeline.Outbox.{OutboxItem, DispatchReport, Channel, delivery, send_items}
use aca_bot.Pipeline.Replies.{append_incoming_message, update_thread_after_send}
use aca_bot.Pipeline.Finish.{
  Response, Audit, no_audit, confirm_pending_approval, fail_pending_approval, completed, finish_run,
}

pub data Stage : Type 0 where
  on_event prepare_run_context prepare_message compact retrieval memories pre_agent agent post_agent
        before_send build_items on_sent save_thread audit :
      Stage

-- The context of a run, and what the components that it calls do.
pub record RunContext : Type 0 where
  pub run_id : String
  pub thread_id : String
  pub user_content : String
  pub timestamp : ℕ
  pub record_only : Bool
  pub deliver_actions : Bool
  pub is_child_run : Bool
  pub skip_agent : Bool
  pub planned_actions : List OutboxItem
  pub response : Response
  pub compaction : Threads → Threads
  pub channel : Channel
  pub fault : Stage → Option Error
  pub crash_text : Error → String
  pub now : ℕ

pub record World : Type 0 where
  pub runs : Memory
  pub threads : Threads

-- The report of a run whose actions stay inside.
unfoldable pub internal_delivery_report : List OutboxItem → DispatchReport
internal_delivery_report items = record {
  results = map (λ (item : OutboxItem). delivery item.action_id "") items;
  delivered_items = items;
  failed_action_ids = [];
}

module _ (ctx : RunContext) where
  abbrev pub stage : Stage → Task World (Unit {0})
  stage s w = elim (ctx.fault s) [ none ↦ (ok tt, w) | some e ↦ (err e, w) ]

  abbrev pub change_threads : (Threads → Threads) → Task World (Unit {0})
  change_threads f w = (ok tt, record w { threads = f w.threads })

  unfoldable pub mark : Mark → Task World (Unit {0})
  unfolding Memory.mark
  mark k w =
      let (result, runs) = Memory.mark ctx.run_id k w.runs in (result, record w { runs = runs })

  abbrev pub actions : List OutboxItem
  actions = if ctx.skip_agent then ctx.planned_actions else ctx.response.actions

  abbrev pub final_response : Response
  final_response =
      if ctx.skip_agent
      then record { status = completed; actions = actions; error = none; pending_approval = none }
      else ctx.response

  unfoldable pub delivery_report : DispatchReport
  unfolding send_items internal_delivery_report
  delivery_report =
      if ctx.deliver_actions
      then send_items ctx.channel actions
      else internal_delivery_report actions

  abbrev is_audit : Audit → Bool
  is_audit no_audit = false
  is_audit confirm_pending_approval = true
  is_audit (fail_pending_approval error) = true

  abbrev pub audited : Audit → Task World (Unit {0})
  audited a = if is_audit a then stage audit else lift (ok tt)

  abbrev pub agent_stage : Task World (Unit {0})
  agent_stage = if ctx.skip_agent then lift (ok tt) else stage agent

  unfoldable pub deliver : Task World (Unit {0})
  deliver =
      if ctx.deliver_actions
      then (do stage before_send; stage build_items; stage on_sent)
      else stage build_items

  unfoldable pub finish : Task World (Unit {0})
  unfolding finish_run mark delivery_report
  finish =
      let (a, k) = finish_run (some final_response) ctx.is_child_run delivery_report ctx.now in
      do audited a; mark k

  unfoldable pub record_message : Task World (Unit {0})
  unfolding mark
  record_message = do stage save_thread; mark (mark_completed ctx.now)

  unfoldable pub reply : Task World (Unit {0})
  unfolding deliver finish update_thread_after_send delivery_report
  reply = do
    stage compact
    change_threads ctx.compaction
    stage retrieval
    stage memories
    stage pre_agent
    agent_stage
    stage post_agent
    deliver
    change_threads
        (update_thread_after_send ctx.thread_id ctx.timestamp delivery_report.delivered_items)
    stage save_thread
    finish

  -- The `try` block.
  unfoldable pub run_stages : Task World (Unit {0})
  unfolding record_message reply append_incoming_message
  run_stages = do
    stage on_event
    stage prepare_run_context
    stage prepare_message
    change_threads (append_incoming_message ctx.thread_id ctx.user_content ctx.timestamp)
    if ctx.record_only then record_message else reply

  -- The `except` block: an error while the run is marked is only logged.
  unfoldable pub crashed : Result (Unit {0}) → Task World (Unit {0})
  unfolding mark
  crashed (ok done) = lift (ok tt)
  crashed (err e) = λ w. (ok tt, (mark (mark_failed (ctx.crash_text e) ctx.now) w).1)

  unfoldable pub execute : Task World (Unit {0})
  unfolding mark run_stages crashed
  execute = do mark mark_running; done ← attempt run_stages; crashed done
