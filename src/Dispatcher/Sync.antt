-- ===== src/Dispatcher/Sync.antt =====
-- manager/dispatcher.py, `WorkDispatcher.dispatch`: the synchronous dispatch of due work.
use machine_manager.Base.{ℕ, ◌+◌, List, [], ◌∷◌, none, some}
use machine_manager.Base.Exec.{Exec, pure, try_except, ◌>>=◌, ◌>>◌}
use machine_manager.Store.Tasks.{WorkItem}
use machine_manager.Store.Events.{Metrics}
use machine_manager.Runtime.{Runtime, System, tick}
use machine_manager.Scheduler.{claim, defer}
use machine_manager.Dispatcher.{
  Outcome, Report, deferred, DispatchResult, Handler, Dispatcher, record_event,
}
use machine_manager.Dispatcher.Outcomes.{entry, apply_outcome, apply_error}

module _ (r : Runtime) (d : Dispatcher) where
  -- The call of a handler.
  abbrev pub call_handler : Handler → WorkItem → Exec System Outcome
  call_handler h item s = (h s.calls item, tick s)

  abbrev pub result : WorkItem → Report → Metrics → DispatchResult
  result item status metrics = record {
    task_id = item.task_id;
    kind = item.kind;
    status = status;
    attempts = item.attempts;
    metrics = metrics;
  }

  unfoldable pub record_claimed : WorkItem → Exec System Unit
  unfolding record_event
  record_claimed item =
      record_event r d item
        (entry "queue_task_claimed" "RUNNING" "claim_queue_task" "dispatch_attempt_started" [] [])

  -- The branch of both dispatchers for a kind with no handler.
  unfoldable pub defer_unhandled : WorkItem → ℕ → Exec System DispatchResult
  unfolding record_event defer
  defer_unhandled item current = do
    defer r item.task_id (current + d.defer_delay)
    record_event r d item
        (entry "queue_task_deferred" "QUEUED" "defer_unhandled_task" "no_handler_registered" [] [])
    pure (result item deferred [])

  -- The body of the loop of `WorkDispatcher.dispatch`, once the claim is recorded.
  unfoldable pub dispatch_claimed : ℕ → WorkItem → Exec System DispatchResult
  dispatch_claimed current item s =
      (elim (d.handlers item.kind) as (λ _. Exec System DispatchResult) [
        | none ↦ defer_unhandled item current
        | some h ↦ (do
          applied ←
              try_except (do o ← call_handler h item; apply_outcome r d item o current)
                (λ e. apply_error r d item e current)
          pure (result item applied.0 applied.1))
      ])
        s

  unfoldable pub dispatch_item : ℕ → WorkItem → Exec System DispatchResult
  dispatch_item current item = do record_claimed item; dispatch_claimed current item

  unfoldable pub dispatch_items : ℕ → List WorkItem → Exec System (List DispatchResult)
  dispatch_items current [] = pure []
  dispatch_items current (item ∷ items) = do
    x ← dispatch_item current item
    xs ← dispatch_items current items
    pure (x ∷ xs)

  -- `WorkDispatcher.dispatch`, at the time that the caller gives.
  unfoldable pub dispatch : ℕ → ℕ → Exec System (List DispatchResult)
  dispatch limit now = do items ← claim limit now d.reserved_kinds; dispatch_items now items
