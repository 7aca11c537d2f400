-- ===== src/Dispatcher/Outcomes.antt =====
-- manager/dispatcher.py, `_apply_outcome` and `_apply_error`: what a dispatcher does with the reply
-- of a handler.
use machine_manager.Base.{ℕ, String, ◌+◌, [], none, some, if◌then◌else◌, leb, max}
use machine_manager.Base.Exec.{Exec, pure, raise, ◌>>◌}
use machine_manager.Base.Result.{Error, value_error, error_name}
use machine_manager.Base.Text.{Text, text, text_eq, upper}
use machine_manager.Store.Tasks.{WorkItem}
use machine_manager.Store.Events.{Metrics, number}
use machine_manager.Runtime.{Runtime, System}
use machine_manager.Scheduler.{complete_task, fail, defer, escalate}
use machine_manager.Dispatcher.{Outcome, Report, Dispatcher, Entry, put_metric, record_event}

-- The status that a handler asks for, after `.upper()`.
pub data Verdict : Type 0 where
  complete retry failed escalated unsupported : Verdict

unfoldable pub verdict : Text → Verdict
verdict status =
    let s = upper status in
    if text_eq s (text "COMPLETE")
    then complete
    else if text_eq s (text "RETRY")
    then retry
    else if text_eq s (text "FAILED")
    then failed
    else if text_eq s (text "ESCALATED")
    then escalated
    else unsupported

abbrev pub entry : String → String → String → String → Metrics → Text → Entry
entry event_type new_state action outcome metrics message = record {
  event_type = text event_type;
  new_state = text new_state;
  action = text action;
  outcome = text outcome;
  error = none;
  metrics = metrics;
  public_message = message;
}

module _ (r : Runtime) (d : Dispatcher) where
  -- The branch of `_apply_outcome` for RETRY: a bounded retry, or escalation.
  unfoldable pub apply_retry : WorkItem → Outcome → ℕ → Exec System (Report × Metrics)
  unfolding record_event escalate defer
  apply_retry item o current =
      let retry_after = max 100 o.retry_after in
      if leb d.max_attempts item.attempts
      then (do
        escalate r item.task_id
        record_event r d item (
            entry "queue_task_escalated" "ESCALATED" "escalate_queue_task" "retry_budget_exhausted"
              o.metrics o.public_message)
        pure (Report.escalated, o.metrics))
      else (do
        defer r item.task_id (current + retry_after)
        record_event r d item (
            entry "queue_task_retry" "QUEUED" "retry_queue_task" "handler_requested_retry"
              (put_metric (text "retry_after_s") (number retry_after) o.metrics) o.public_message)
        pure (Report.retry, o.metrics))

  unfoldable pub apply_verdict : Verdict → WorkItem → Outcome → ℕ → Exec System (Report × Metrics)
  unfolding record_event complete_task fail escalate apply_retry
  apply_verdict unsupported item o current = raise value_error
  apply_verdict complete item o current = do
    complete_task r item.task_id
    record_event r d item (
        entry "queue_task_completed" "COMPLETE" "complete_queue_task" "handler_completed" o.metrics
          o.public_message)
    pure (Report.complete, o.metrics)
  apply_verdict retry item o current = apply_retry item o current
  apply_verdict failed item o current = do
    fail r item.task_id none
    record_event r d item (
        entry "queue_task_failed" "FAILED" "fail_queue_task" "handler_reported_failure" o.metrics
          o.public_message)
    pure (Report.failed, o.metrics)
  apply_verdict escalated item o current = do
    escalate r item.task_id
    record_event r d item (
        entry "queue_task_escalated" "ESCALATED" "escalate_queue_task"
          "handler_requested_escalation" o.metrics o.public_message)
    pure (Report.escalated, o.metrics)

  -- `_apply_outcome`
  unfoldable pub apply_outcome : WorkItem → Outcome → ℕ → Exec System (Report × Metrics)
  unfolding apply_verdict verdict
  apply_outcome item o current = apply_verdict (verdict o.status) item o current

  -- `_apply_error`
  unfoldable pub apply_error : WorkItem → Error → ℕ → Exec System (Report × Metrics)
  unfolding record_event escalate defer error_name
  apply_error item e current =
      if leb d.max_attempts item.attempts
      then (do
        escalate r item.task_id
        record_event r d item
            (record (entry "queue_task_escalated" "ESCALATED" "escalate_queue_task"
              "handler_error_retry_budget_exhausted" [] []) { error = some (error_name e) })
        pure (Report.escalated, []))
      else (do
        defer r item.task_id (current + d.defer_delay)
        record_event r d item
            (record (entry "queue_task_retry" "QUEUED" "retry_queue_task"
              "handler_error_retry_scheduled" [] []) { error = some (error_name e) })
        pure (Report.retry, []))
