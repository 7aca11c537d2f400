-- ===== src/Manager/Objectives.antt =====
-- manager/machine_manager.py (`queue_objective_change`): a new objective is queued, and the running
-- assignment is left alone.
use machine_manager.Base.{
  ℕ, ◌-◌, ◌≤◌, ◌≡◌, true, ◌||◌, Option, none, some, List, [], ◌∷◌, ◌++◌, ltb, if◌then◌else◌, length,
  drop, take, length-drop, arith,
}
use machine_manager.Base.Exec.{Exec, pure, ◌>>=◌, ◌>>◌}
use machine_manager.Base.Result.{Error, ok, err, value_error, key_error}
use machine_manager.Base.Text.{Text, text, text_eq, strip, is_empty}
use machine_manager.Store.Events.{Event, flag}
use machine_manager.Runtime.{Runtime, System, read_stamp, fresh_uuid}
use machine_manager.Scheduler.{enqueue}
use machine_manager.Supervisor.{
  JobState, queued, starting, running, verifying, complete, stalled, failed, retrying, escalated,
  cancelled,
}
use machine_manager.Manager.{Job, Manager, find_job}

-- `JobState.value`
unfoldable state_name : JobState → Text
state_name queued = text "QUEUED"
state_name starting = text "STARTING"
state_name running = text "RUNNING"
state_name verifying = text "VERIFYING"
state_name complete = text "COMPLETE"
state_name stalled = text "STALLED"
state_name failed = text "FAILED"
state_name retrying = text "RETRYING"
state_name escalated = text "ESCALATED"
state_name cancelled = text "CANCELLED"

-- The manager, and the system with the store that its scheduler works on.
pub record World : Type 0 where
  pub manager : Manager
  pub system : System

abbrev in_system : {A : Type 0} → Exec System A → Exec World A
in_system m w = let (r, s) = m w.system in (r, record w { system = s })

-- `self._events.append(…)` and `self._events[-500:]`
unfoldable pub keep_last : {A : Type 0} → ℕ → List A → List A
keep_last n xs = drop (length xs - n) xs

unfoldable pub log_event : Event → Exec World Unit
unfolding keep_last
log_event e w = (
  ok tt,
  record w { manager = record (w.manager) { events = keep_last 500 (w.manager.events ++ e ∷ []) } },
)

module _ (r : Runtime) where
  unfoldable pub change_event : Text → Text → Job → Text → Text → Text → Event
  unfolding state_name
  change_event actor id job task_id stamp u = record {
    event_id = text "evt-objective-change-" ++ take 12 u;
    timestamp = stamp;
    objective_id = job.objective_id;
    job_id = id;
    worker_id = job.supervisor.spec.worker_id;
    actor = actor;
    kind = none;
    task_id = none;
    event_type = text "objective_change_queued";
    previous_state = state_name job.supervisor.state;
    new_state = state_name job.supervisor.state;
    metrics = (text "active_job_preserved", flag true) ∷ [];
    action = text "queue_objective_change";
    outcome = text "active_job_preserved";
    artifact_refs = (text "task:" ++ task_id) ∷ [];
    error = none;
    message = none;
  }

  -- `queue_objective_change` once its checks have passed.
  unfoldable pub queue_change : Text → Text → Option Text → Job → Exec World Text
  unfolding enqueue log_event change_event
  queue_change id requested task_id job w =
      (do
        queued_id ← in_system (
            enqueue r (text "objective_change") requested
              ((text "job_id", id) ∷ (text "from_objective_id", job.objective_id) ∷ []) task_id
              none)
        stamp ← in_system (read_stamp r)
        u ← in_system (fresh_uuid r)
        log_event (change_event w.manager.actor id job queued_id stamp u)
        pure queued_id)
        w

  unfoldable pub check_change : Text → Text → Option Text → Option Job → Exec World Text
  unfolding queue_change
  check_change id requested task_id none w = (err key_error, w)
  check_change id requested task_id (some job) w =
      if is_empty requested || ltb 120 (length requested)
      then (err value_error, w)
      else if text_eq requested job.objective_id
      then (err value_error, w)
      else queue_change id requested task_id job w

  unfoldable pub queue_objective_change : Text → Text → Option Text → Exec World Text
  unfolding check_change find_job
  queue_objective_change id objective task_id w =
      check_change id (strip objective) task_id (find_job id w.manager.jobs) w

  -- Queueing a change leaves every job as it was, whatever the outcome.
  pub objective_change_keeps_jobs :
      (id objective : Text) (task_id : Option Text) (w : World)
      → (queue_objective_change id objective task_id w).1.manager.jobs ≡ w.manager.jobs
  unfolding queue_objective_change check_change queue_change log_event
  objective_change_keeps_jobs id objective task_id w = ground arith

  -- A change that is refused changes nothing: no task, no event.
  pub objective_change_refused :
      (id objective : Text) (task_id : Option Text) (w : World) (e : Error)
      → (queue_objective_change id objective task_id w).0 ≡ err e
      → (queue_objective_change id objective task_id w).1 ≡ w
  unfolding queue_objective_change check_change queue_change log_event enqueue
  objective_change_refused id objective task_id w e h = ground arith

length-keep_last : {A : Type 0} (n : ℕ) (xs : List A) → length (keep_last n xs) ≤ n
unfolding keep_last
length-keep_last n xs = omega (arith, length-drop (length xs - n) xs)
