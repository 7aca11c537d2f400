-- ===== src/Dispatcher/Effects.antt =====
-- The effect of a dispatcher's steps on the task table: recording an event leaves it alone, and an
-- outcome settles the one task that it is about.
use machine_manager.Dispatcher.Fate.{Fate, apply_fate, bounded_retry}
use mathlib.Core.Option
use machine_manager.Base.{
  ℕ, ◌+◌, suc, ◌≡◌, refl, List, [], Option, none, some, leb, max, Bool-cases, inl, inr,
}
use machine_manager.Base.Result.{Error, Result, ok}
use machine_manager.Base.Text.{Text, text}
use machine_manager.Store.Tasks.{Task, WorkItem, update_where, has_id, finish_task}
use machine_manager.Store.Events.{append_event, Metrics}
use machine_manager.Runtime.{Runtime, System}
use machine_manager.Dispatcher.{Outcome, Report, Dispatcher}
use machine_manager.Dispatcher.Outcomes.{apply_retry, apply_error}

-- The task table after the fate of one task.
abbrev pub settle : Text → Fate → ℕ → List Task → List Task
settle id f now ts = update_where (has_id id) (apply_fate f now) ts

module _ (r : Runtime) (d : Dispatcher) (item : WorkItem) (current : ℕ) (s : System) where
  -- What a step leaves: the answer and the task table.
  abbrev pub Settles : Report × Fate → ℕ → Result (Report × Metrics) × System → Type 0
  Settles (report, f) now (answer, after) =
      (m : Metrics) × (answer ≡ ok (report, m))
      × (after.store.tasks ≡ settle item.task_id f now s.store.tasks)

  pub apply_error-Settles :
      (e : Error)
      → Settles
          (bounded_retry d item (current + d.defer_delay))
          (r.time s.calls)
          (apply_error r d item e current s)
  unfolding apply_error append_event text finish_task
  apply_error-Settles e = elim (Bool-cases (leb d.max_attempts item.attempts)) [
    | inl full ↦ rw full ([], refl, refl)
    | inr room ↦ rw room ([], refl, refl)
  ]

  pub apply_retry-Settles :
      (o : Outcome)
      → Settles
          (bounded_retry d item (current + max 100 o.retry_after))
          (r.time s.calls)
          (apply_retry r d item o current s)
  unfolding apply_retry append_event text finish_task
  apply_retry-Settles o = elim (Bool-cases (leb d.max_attempts item.attempts)) [
    | inl full ↦ rw full (o.metrics, refl, refl)
    | inr room ↦ rw room (o.metrics, refl, refl)
  ]

-- One item of a dispatch: the report and the task table, with the time of the store's write.
module _ (r : Runtime) (d : Dispatcher) where
  -- The reply of the handler of the item's kind, called after the claim has been recorded.
  abbrev pub reply_to : WorkItem → System → Option (Result Outcome)
  reply_to item s = Option.map (λ h. h (s.calls + 2) item) (d.handlers item.kind)

  -- The store's write comes after the two calls that record the claim and the call of a handler.
  abbrev written_at : Option (Result Outcome) → System → ℕ
  written_at none s = r.time (suc (suc s.calls))
  written_at (some reply) s = r.time (suc (suc (suc s.calls)))
