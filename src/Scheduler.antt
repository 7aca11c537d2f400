-- ===== src/Scheduler.antt =====
-- manager/scheduler.py: `WorkScheduler`, the queue's methods over the store.
use machine_manager.Store.Tasks.Counts.{count_tasks_for_owner}
use machine_manager.Base.{ℕ, Bool, List, [], ◌∷◌, ◌++◌, Option, none, some, take}
use machine_manager.Base.Exec.{Exec, pure, ◌>>=◌, ◌>>◌}
use machine_manager.Base.Result.{Result, ok, err}
use machine_manager.Base.Text.{Text, text}
use machine_manager.Store.Tasks.{
  Status, complete, failed, escalated, queued, Payload, Task, WorkItem, enqueue_task,
  claim_due_tasks, finish_task, start_task, requeue_running_tasks,
}
use machine_manager.Runtime.{Runtime, System, read_time, fresh_uuid, tick}

abbrev pub with_tasks : System → List Task → System
with_tasks s ts = record s { store = record (s.store) { tasks = ts } }

abbrev write_tasks : System → Result (List Task) → Result (Unit {0}) × System
write_tasks s (ok ts) = (ok tt, with_tasks s ts)
write_tasks s (err e) = (err e, s)

-- `claim`, at the time that the caller gives.
unfoldable pub claim : ℕ → ℕ → List Text → Exec System (List WorkItem)
claim limit now excluded s =
    let (items, after) = claim_due_tasks limit now excluded s.store.tasks in
    (ok items, with_tasks s after)

module _ (r : Runtime) where
  -- `task_id or f"task-{uuid.uuid4().hex[:12]}"`
  abbrev or_fresh_id : Option Text → Exec System Text
  or_fresh_id none = do u ← fresh_uuid r; pure (text "task-" ++ take 12 u)
  or_fresh_id (some []) = do u ← fresh_uuid r; pure (text "task-" ++ take 12 u)
  or_fresh_id (some (c ∷ id)) = pure (c ∷ id)

  unfoldable pub enqueue : Text → Text → Payload → Option Text → Option ℕ → Exec System Text
  enqueue kind objective payload task_id scheduled = do
    id ← or_fresh_id task_id
    now ← read_time r
    (λ s.
        (ok tt, with_tasks s (enqueue_task id kind objective payload scheduled now s.store.tasks)))
    pure id

  unfoldable pub finish : Text → Status → Option ℕ → Exec System Unit
  finish id status scheduled s =
      write_tasks (tick s) (finish_task id status scheduled (r.time s.calls) s.store.tasks)

  unfoldable pub complete_task : Text → Exec System Unit
  unfolding finish
  complete_task id = finish id complete none

  unfoldable pub fail : Text → Option ℕ → Exec System Unit
  unfolding finish
  fail id none = finish id failed none
  fail id (some at) = finish id queued (some at)

  unfoldable pub defer : Text → ℕ → Exec System Unit
  unfolding finish
  defer id retry_at = finish id queued (some retry_at)

  unfoldable pub escalate : Text → Exec System Unit
  unfolding finish
  escalate id = finish id escalated none

  unfoldable pub start : Text → Exec System Bool
  start id s =
      let (started, after) = start_task id (r.time s.calls) s.store.tasks in
      (ok started, with_tasks (tick s) after)

  unfoldable pub recover_interrupted : Exec System ℕ
  recover_interrupted s =
      let (count, after) = requeue_running_tasks (r.time s.calls) s.store.tasks in
      (ok count, with_tasks (tick s) after)

-- `completed_task_count`
unfoldable pub completed_task_count : Text → Text → Text → System → ℕ
unfolding count_tasks_for_owner
completed_task_count kind key value s = count_tasks_for_owner kind key value complete s.store.tasks
