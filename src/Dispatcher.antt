-- ===== src/Dispatcher.antt =====
-- manager/dispatcher.py: the bounded dispatch of durable work, what both dispatchers share.
pub mod Background
pub mod Budget
pub mod Effects
pub mod Fate
pub mod Outcomes
pub mod Passes
pub mod Settling
pub mod Sync
use machine_manager.Base.{
  ℕ, String, ◌+◌, ◌≤◌, Bool, true, false, List, [], ◌∷◌, ◌++◌, Option, none, some, if◌then◌else◌,
  ltb, leb, ◌==◌, take, max, ◌&&◌, ◌||◌,
}
use machine_manager.Base.Exec.{Exec, pure, raise, try_except, ◌>>=◌, ◌>>◌}
use machine_manager.Base.Result.{Error, Result, ok, err, value_error, error_name}
use machine_manager.Base.Text.{Text, text, text_eq, text_mem, upper, strip, is_empty}
use machine_manager.Store.Tasks.{WorkItem, clean_kinds}
use machine_manager.Store.Events.{Event, Metric, Metrics, number}
use machine_manager.Runtime.{Runtime, System, read_stamp, fresh_uuid, append, tick}
use machine_manager.Scheduler.{claim, complete_task, fail, defer, escalate}

-- `DispatchOutcome`: what a handler asks for. Delays are milliseconds.
pub record Outcome : Type 0 where
  pub status : Text
  pub retry_after : ℕ
  pub metrics : Metrics
  pub public_message : Text

-- `DispatchResult.status`
pub data Report : Type 0 where
  complete retry failed escalated deferred running : Report

pub record DispatchResult : Type 0 where
  pub task_id : Text
  pub kind : Text
  pub status : Report
  pub attempts : ℕ
  pub metrics : Metrics

-- A handler is called once for an item; the number is that of the call.
abbrev pub Handler : Type 0
Handler = ℕ → WorkItem → Result Outcome

pub record Dispatcher : Type 0 where
  pub handlers : Text → Option Handler
  pub defer_delay : ℕ
  pub max_attempts : ℕ
  pub actor : Text
  pub reserved_kinds : List Text

-- `WorkDispatcher.__init__`
unfoldable pub new_dispatcher :
    (Text → Option Handler) → ℕ → ℕ → Text → List Text → Result Dispatcher
new_dispatcher handlers defer_delay max_attempts actor reserved =
    if defer_delay == 0
    then err value_error
    else if ltb max_attempts 1
    then err value_error
    else ok (record {
      handlers = handlers;
      defer_delay = defer_delay;
      max_attempts = max_attempts;
      actor = take 80 (if is_empty actor then text "queue-dispatcher" else actor);
      reserved_kinds = clean_kinds reserved;
    })

-- `dict.update` with one key.
unfoldable pub put_metric : Text → Metric → Metrics → Metrics
put_metric key value [] = (key, value) ∷ []
put_metric key value ((k, v) ∷ rest) =
    if text_eq k key then (k, value) ∷ rest else (k, v) ∷ put_metric key value rest

unfoldable pub update_metrics : Metrics → Metrics → Metrics
unfolding put_metric
update_metrics base [] = base
update_metrics base ((k, v) ∷ more) = update_metrics (put_metric k v base) more

-- What a call of `_record` says.
pub record Entry : Type 0 where
  pub event_type : Text
  pub new_state : Text
  pub action : Text
  pub outcome : Text
  pub error : Option Text
  pub metrics : Metrics
  pub public_message : Text

unfoldable pub message_of : Text → Option Text
message_of message = if is_empty message then none else some message

module _ (r : Runtime) (d : Dispatcher) where
  -- `_record`
  unfoldable pub record_event : WorkItem → Entry → Exec System Unit
  unfolding update_metrics message_of append
  record_event item entry = do
    stamp ← read_stamp r
    u ← fresh_uuid r
    append (record {
      event_id = text "evt-queue-task-" ++ take 12 u;
      timestamp = stamp;
      objective_id = item.objective_id;
      job_id = text "task-queue";
      worker_id = [];
      actor = d.actor;
      kind = some item.kind;
      task_id = some item.task_id;
      event_type = entry.event_type;
      previous_state =
          if text_eq entry.event_type (text "queue_task_claimed")
          then text "QUEUED"
          else text "RUNNING";
      new_state = entry.new_state;
      metrics = update_metrics ((text "attempt", number item.attempts) ∷ []) entry.metrics;
      action = entry.action;
      outcome = entry.outcome;
      artifact_refs = (text "task:" ++ item.task_id) ∷ [];
      error = entry.error;
      message = message_of (strip (r.redact entry.public_message 220));
    })
