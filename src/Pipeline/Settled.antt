-- ===== src/Pipeline/Settled.antt =====
-- How a run ends, whatever fails in it.
use aca_bot.Prelude.{
  Bool, true, false, Option, none, some, ◌≡◌, ◌⊎◌, refl, sym, subst, ◌∙◌, ap, arith, inl, inr,
  Option-cases, if-holds, not, lookup, insert, lookup-insert_self,
}
use aca_bot.Errors.{Result, ok, err}
use aca_bot.Tasks.{Task, after, ◌>>=◌, ◌>>◌, attempt}
use aca_bot.Runs.Records.{
  RunStatus, running, RunRecord, Mark, mark_running, mark_waiting_approval, mark_completed,
  mark_completed_with_errors, mark_failed, apply_mark,
}
use aca_bot.Runs.Records
use aca_bot.Runs.Memory
use aca_bot.Pipeline.Outbox.{has_failures}
use aca_bot.Threads.Memory.{Threads}
use aca_bot.Pipeline.Replies.{append_incoming_message, update_thread_after_send}
use aca_bot.Pipeline.Finish
use aca_bot.Pipeline.Finish.{
  PendingApproval, Audit, ResponseStatus, Response, includes, action_ids, finish_waiting,
  finish_response, finish_run,
}
use aca_bot.Pipeline.Execute
use aca_bot.Pipeline.Execute.{
  RunContext, World, Stage, stage, mark, change_threads, actions, final_response, delivery_report,
  audited, agent_stage, deliver, finish, record_message, reply, run_stages, crashed, execute,
}

not-false : (b : Bool) → not b ≡ false → b ≡ true
not-false b h = ground arith

module _ (ctx : RunContext) where
  -- The agent asked for an approval, in a run that may wait, and its prompts were all delivered.
  abbrev pub IsAwaiting : Type 0
  IsAwaiting =
      (pending : PendingApproval) × (ctx.skip_agent ≡ false)
      × (ctx.response.status ≡ Finish.waiting_approval)
      × (ctx.response.pending_approval ≡ some pending)
      × (ctx.is_child_run ≡ false)
      × (includes (action_ids (delivery_report ctx).delivered_items) pending.required_action_ids
          ≡ true)

  -- What each status at the end says of the run.
  abbrev pub IsSettled : RunStatus → Type 0
  IsSettled Records.queued = ⊥
  IsSettled Records.running = ⊥
  IsSettled Records.waiting_approval = IsAwaiting
  IsSettled Records.interrupted = ⊥
  IsSettled Records.completed =
      (ctx.record_only ≡ true) ⊎ (has_failures (delivery_report ctx) ≡ false)
  IsSettled Records.completed_with_errors = has_failures (delivery_report ctx) ≡ true
  IsSettled Records.failed = Unit
  IsSettled Records.cancelled = ⊥

  abbrev Present : World → Type 0
  Present w = (run : RunRecord) × (lookup ctx.run_id w.runs.runs ≡ some run)

  abbrev Settled : World → Type 0
  Settled w = (run : RunRecord) × (lookup ctx.run_id w.runs.runs ≡ some run) × IsSettled run.status

  -- After a part that is done the run is settled, after an error it is still there.
  abbrev Ends : Result (Unit {0}) × World → Type 0
  Ends (ok done, w) = Settled w
  Ends (err e, w) = Present w

  mark-runs :
      (k : Mark) (w : World) (run : RunRecord)
      → lookup ctx.run_id w.runs.runs ≡ some run
      → mark ctx k w ≡ (
        ok tt,
        record w {
          runs = record w.runs { runs = insert ctx.run_id (apply_mark k run) w.runs.runs };
        },
      )
  unfolding mark Memory.mark
  mark-runs k w run h = rw (h, Memory.mark) refl

  abbrev Fits : RunRecord → Audit × Mark → Type 0
  Fits run q = IsSettled (apply_mark q.1 run).status

  finish_waiting-Fits :
      (run : RunRecord) (o : Option PendingApproval)
      → ctx.skip_agent ≡ false
      → ctx.response.status ≡ Finish.waiting_approval
      → ctx.response.pending_approval ≡ o
      → Fits run (finish_waiting o ctx.is_child_run (delivery_report ctx) ctx.now)
  unfolding finish_waiting apply_mark
  finish_waiting-Fits run none skip status e = tt
  finish_waiting-Fits run (some pending) skip status e =
      if-holds (Fits run) ctx.is_child_run (λ c. tt)
        (λ c.
          if-holds (Fits run)
            (not (
              includes (action_ids (delivery_report ctx).delivered_items)
                pending.required_action_ids))
            (λ i. tt) (λ i. (pending, skip, status, e, c, not-false _ i)))

  finish_completed-Fits :
      (run : RunRecord) (r : Response)
      → Fits run (finish_response Finish.completed r ctx.is_child_run (delivery_report ctx) ctx.now)
  unfolding finish_response apply_mark
  finish_completed-Fits run r =
      if-holds (Fits run) (has_failures (delivery_report ctx)) (λ h. h) (λ h. inr h)

  finish_response-Fits :
      (run : RunRecord) (status : ResponseStatus)
      → ctx.skip_agent ≡ false
      → ctx.response.status ≡ status
      → Fits run
          (finish_response status ctx.response ctx.is_child_run (delivery_report ctx) ctx.now)
  unfolding finish_response apply_mark
  finish_response-Fits run Finish.completed skip e = finish_completed-Fits run ctx.response
  finish_response-Fits run Finish.failed skip e = tt
  finish_response-Fits run Finish.waiting_approval skip e =
      finish_waiting-Fits run ctx.response.pending_approval skip e refl

  finish_run-Fits :
      (run : RunRecord)
      → Fits run
          (finish_run (some (final_response ctx)) ctx.is_child_run (delivery_report ctx) ctx.now)
  unfolding finish_run
  finish_run-Fits run =
      if-holds
        (λ (r : Response).
          Fits run (finish_response r.status r ctx.is_child_run (delivery_report ctx) ctx.now))
        ctx.skip_agent
        (λ s. finish_completed-Fits run (record {
          status = Finish.completed;
          actions = actions ctx;
          error = none;
          pending_approval = none;
        }))
        (λ s. finish_response-Fits run ctx.response.status s refl)

  mark-Ends :
      (k : Mark) (w : World)
      → ((run : RunRecord) → IsSettled (apply_mark k run).status)
      → Present w
      → Ends (mark ctx k w)
  mark-Ends k w fits (run, h) =
      subst Ends (sym (mark-runs k w run h))
        (apply_mark k run, lookup-insert_self ctx.run_id (apply_mark k run) w.runs.runs, fits run)

  -- A part before the end leaves the run where it was.
  abbrev Keeps : Task World (Unit {0}) → Type 0
  Keeps t = (w : World) → (t w).1.runs ≡ w.runs

  then_Ends :
      (t u : Task World (Unit {0})) (w : World)
      → Keeps t
      → ((v : World) → Present v → Ends (u v))
      → Present w
      → Ends ((t >> u) w)
  then_Ends t u w k h p = split (t w) (present (t w) (k w))
    where
      present : (r : Result (Unit {0}) × World) → r.1.runs ≡ w.runs → Present r.1
      present r e = (p.0, ap (λ (m : Memory.Memory). lookup ctx.run_id m.runs) e ∙ p.1)

      split : (r : Result (Unit {0}) × World) → Present r.1 → Ends (after (λ a. u) r)
      split (ok a, v) q = h v q
      split (err e, v) q = q

  stage-Keeps : (s : Stage) → Keeps (stage ctx s)
  stage-Keeps s w = elim (Option-cases (ctx.fault s)) [
    | inl e ↦ rw (e, stage) refl
    | inr (x, e) ↦ rw (e, stage) refl
  ]

  then_stage :
      (s : Stage) (u : Task World (Unit {0}))
      → ((v : World) → Present v → Ends (u v))
      → (w : World) → Present w
      → Ends ((stage ctx s >> u) w)
  then_stage s u h w p = then_Ends (stage ctx s) u w (stage-Keeps s) h p

  agent_stage-Keeps : Keeps (agent_stage ctx)
  agent_stage-Keeps w =
      if-holds (λ (t : Task World (Unit {0})). (t w).1.runs ≡ w.runs) ctx.skip_agent (λ s. refl)
        (λ s. stage-Keeps Execute.agent w)

  audited-Keeps : (a : Audit) → Keeps (audited ctx a)
  audited-Keeps Finish.no_audit w = refl
  audited-Keeps Finish.confirm_pending_approval w = stage-Keeps Execute.audit w
  audited-Keeps (Finish.fail_pending_approval e) w = stage-Keeps Execute.audit w

  then-Keeps : (t u : Task World (Unit {0})) → Keeps t → Keeps u → Keeps (t >> u)
  then-Keeps t u h k w = split (t w) (h w)
    where
      split :
          (r : Result (Unit {0}) × World) → r.1.runs ≡ w.runs → (after (λ a. u) r).1.runs ≡ w.runs
      split (ok a, v) e = k v ∙ e
      split (err x, v) e = e

  deliver-Keeps : Keeps (deliver ctx)
  unfolding deliver
  deliver-Keeps =
      if-holds Keeps ctx.deliver_actions
        (λ d.
          then-Keeps (stage ctx Execute.before_send)
            (stage ctx Execute.build_items >> stage ctx Execute.on_sent)
            (stage-Keeps Execute.before_send)
            (then-Keeps (stage ctx Execute.build_items) (stage ctx Execute.on_sent)
              (stage-Keeps Execute.build_items) (stage-Keeps Execute.on_sent)))
        (λ d. stage-Keeps Execute.build_items)

  finish-Ends : (w : World) → Present w → Ends (finish ctx w)
  unfolding finish
  finish-Ends w p =
      let q =
        finish_run (some (final_response ctx)) ctx.is_child_run (delivery_report ctx) ctx.now in
      then_Ends (audited ctx q.0) (mark ctx q.1) w (audited-Keeps q.0)
        (λ v h. mark-Ends q.1 v finish_run-Fits h) p

  record_message-Ends :
      ctx.record_only ≡ true → (w : World) → Present w → Ends (record_message ctx w)
  unfolding record_message apply_mark
  record_message-Ends r =
      then_stage Execute.save_thread (mark ctx (mark_completed ctx.now))
        (λ v h. mark-Ends (mark_completed ctx.now) v (λ run. inl r) h)

  reply-Ends : (w : World) → Present w → Ends (reply ctx w)
  unfolding reply
  reply-Ends = then_stage Execute.compact _ (λ w p.
      then_Ends (change_threads ctx ctx.compaction) _ w (λ v. refl)
        (then_stage Execute.retrieval _ (
          then_stage Execute.memories _ (
            then_stage Execute.pre_agent _ (λ w p.
              then_Ends (agent_stage ctx) _ w agent_stage-Keeps
                (then_stage Execute.post_agent _ (λ w p.
                  then_Ends (deliver ctx) _ w deliver-Keeps
                    (λ w p.
                      then_Ends (change_threads ctx written) _ w (λ v. refl)
                        (then_stage Execute.save_thread (finish ctx) finish-Ends) p)
                    p))
                p))))
        p)
    where
      written : Threads → Threads
      written =
          update_thread_after_send ctx.thread_id ctx.timestamp (delivery_report ctx).delivered_items

  run_stages-Ends : (w : World) → Present w → Ends (run_stages ctx w)
  unfolding run_stages
  run_stages-Ends = then_stage Execute.on_event _ (
      then_stage Execute.prepare_run_context _ (
        then_stage Execute.prepare_message _ (λ w p.
          then_Ends (change_threads ctx incoming) _ w (λ v. refl)
            (if-holds (λ (t : Task World (Unit {0})). (w : World) → Present w → Ends (t w))
              ctx.record_only record_message-Ends (λ r. reply-Ends))
            p)))
    where
      incoming : Threads → Threads
      incoming = append_incoming_message ctx.thread_id ctx.user_content ctx.timestamp

  Settled-of_Ends : (r : Result (Unit {0}) × World) → Ends r → Settled (crashed ctx r.0 r.1).1
  unfolding crashed apply_mark
  Settled-of_Ends (ok done, w) h = h
  Settled-of_Ends (err e, w) (run, h) =
      subst (λ (q : Result (Unit {0}) × World). Settled q.1)
        (sym (mark-runs (mark_failed (ctx.crash_text e) ctx.now) w run h))
        (
          apply_mark (mark_failed (ctx.crash_text e) ctx.now) run,
          lookup-insert_self ctx.run_id _ w.runs.runs,
          tt,
        )

  -- Whatever stage of it raises, a run that the manager knows has ended after `execute`: it has
  -- failed, or is completed, with errors just if its delivery report names a failed action, which
  -- was not delivered or could not be saved, unless it only recorded the message; or it waits, and
  -- then the agent asked for an approval, the run is no child run, and the delivered actions of the
  -- report include all that the approval requires.
  pub execute-IsSettled :
      (w : World) (run : RunRecord)
      → lookup ctx.run_id w.runs.runs ≡ some run
      → (after_run : RunRecord) × (lookup ctx.run_id (execute ctx w).1.runs.runs ≡ some after_run)
        × IsSettled after_run.status
  unfolding execute
  execute-IsSettled w run h =
      subst
        (λ (q : Result (Unit {0}) × World).
          Settled (after (λ a. attempt (run_stages ctx) >>= crashed ctx) q).1)
        (sym (mark-runs mark_running w run h))
        (Settled-of_Ends (run_stages ctx started) (
          run_stages-Ends started (
            apply_mark mark_running run,
            lookup-insert_self ctx.run_id (apply_mark mark_running run) w.runs.runs,
          )))
    where
      started : World
      started = record w {
        runs = record w.runs { runs = insert ctx.run_id (apply_mark mark_running run) w.runs.runs };
      }
