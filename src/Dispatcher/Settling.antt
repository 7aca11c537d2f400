-- ===== src/Dispatcher/Settling.antt =====
-- A dispatched item meets its fate: the report and the task table after `dispatch_item`.
use mathlib.Core.Option
use machine_manager.Base.{ℕ, suc, ◌≡◌, refl, List, [], Option, none, some}
use machine_manager.Base.Exec.{Exec, handle, continue, pure, try_except}
use machine_manager.Base.Result.{Result, ok, err, value_error}
use machine_manager.Base.Text.{text}
use machine_manager.Store.Tasks.{Task, WorkItem, finish_task}
use machine_manager.Store.Events.{append_event, Metrics}
use machine_manager.Runtime.{Runtime, System, tick}
use machine_manager.Dispatcher.{Outcome, Report, Dispatcher, DispatchResult, Handler}
use machine_manager.Dispatcher.Fate.{Fate, fate, fate_of_verdict}
use machine_manager.Dispatcher.Outcomes.{
  Verdict, complete, retry, failed, escalated, unsupported, verdict, apply_verdict, apply_outcome,
  apply_error,
}
use machine_manager.Dispatcher.Effects.{settle, Settles, apply_error-Settles, apply_retry-Settles}
use machine_manager.Dispatcher.Sync.{
  dispatch_item, defer_unhandled, result, record_claimed, dispatch_claimed,
}

module _ (r : Runtime) (d : Dispatcher) (item : WorkItem) (current : ℕ) where
  -- `try: _apply_outcome … except: _apply_error`, by the handler's reply.
  abbrev attempt : Result Outcome → Exec System (Report × Metrics)
  attempt (ok o) =
      try_except (apply_outcome r d item o current) (λ e. apply_error r d item e current)
  attempt (err e) = apply_error r d item e current

  attempt_lem :
      (reply : Result Outcome) (s : System)
      → let m = continue reply (λ o. apply_outcome r d item o current) s in
        handle m.0 (λ e. apply_error r d item e current) m.1 ≡ attempt reply s
  attempt_lem (ok o) s = refl
  attempt_lem (err e) s = refl

module _ (r : Runtime) (d : Dispatcher) (item : WorkItem) (current : ℕ) (s : System) where
  apply_verdict-Settles :
      (v : Verdict) (o : Outcome)
      → let (answer, after) = apply_verdict r d v item o current s in
        Settles r d item current s
          (fate_of_verdict d item v o.retry_after current)
          (r.time s.calls)
          (handle answer (λ e. apply_error r d item e current) after)
  unfolding apply_verdict append_event text finish_task
  apply_verdict-Settles complete o = (o.metrics, refl, refl)
  apply_verdict-Settles failed o = (o.metrics, refl, refl)
  apply_verdict-Settles escalated o = (o.metrics, refl, refl)
  apply_verdict-Settles retry o =
      let (m, answered, settled) = apply_retry-Settles r d item current s o in
      (m, rw answered, rw answered settled)
  apply_verdict-Settles unsupported o = apply_error-Settles r d item current s value_error

  attempt-Settles :
      (reply : Result Outcome)
      → Settles r d item current s
          (fate d item (some reply) current)
          (r.time s.calls)
          (attempt r d item current reply s)
  unfolding apply_outcome
  attempt-Settles (ok o) = apply_verdict-Settles (verdict o.status) o
  attempt-Settles (err e) = apply_error-Settles r d item current s e

-- The calls made before the store's write.
abbrev written_call : Option Handler → ℕ → ℕ
written_call none n = n
written_call (some h) n = suc n

-- The report on an item and the task table that a step leaves, after a fate.
abbrev pub Meets :
    WorkItem → List Task → Report × Fate → ℕ → Result DispatchResult × System → Type 0
Meets item tasks (report, f) now (answer, after) =
    (x : DispatchResult) × (answer ≡ ok x)
    × (x.task_id ≡ item.task_id)
    × (x.attempts ≡ item.attempts)
    × (x.status ≡ report)
    × (after.store.tasks ≡ settle item.task_id f now tasks)

module _ (r : Runtime) (d : Dispatcher) (item : WorkItem) (current : ℕ) (s : System) where
  pub defer_unhandled-Meets :
      Meets item s.store.tasks
        (fate d item none current)
        (r.time s.calls)
        (defer_unhandled r d item current s)
  unfolding defer_unhandled append_event text finish_task
  defer_unhandled-Meets = (result r d item Report.deferred [], refl, refl, refl, refl, refl)

  report_of_attempt :
      (reply : Result Outcome)
      → let m = attempt r d item current reply (tick s) in
        Meets item s.store.tasks
          (fate d item (some reply) current)
          (r.time (suc s.calls))
          (continue m.0 (λ (a : Report × Metrics). pure (result r d item a.0 a.1)) m.1)
  report_of_attempt reply =
      let (m, answered, settled) = attempt-Settles r d item current (tick s) reply in
      (
        result r d item (fate d item (some reply) current).0 m,
        rw answered,
        refl,
        refl,
        refl,
        rw answered settled,
      )

  dispatch_claimed-Meets :
      (h : Option Handler)
      → d.handlers item.kind ≡ h
      → Meets item s.store.tasks
          (fate d item (Option.map (λ f. f s.calls item) h) current)
          (r.time (written_call h s.calls))
          (dispatch_claimed r d current item s)
  unfolding dispatch_claimed
  dispatch_claimed-Meets none absent = rw (absent, dispatch_claimed) defer_unhandled-Meets
  dispatch_claimed-Meets (some h) present =
      rw (present, dispatch_claimed, attempt_lem r d item current (h s.calls item) (tick s))
        (report_of_attempt (h s.calls item))

module _ (r : Runtime) (d : Dispatcher) (item : WorkItem) (current : ℕ) (s : System) where
  -- The reply of the handler of the item's kind, called after the claim has been recorded.
  abbrev pub reply_to : Option (Result Outcome)
  reply_to = Option.map (λ h. h (suc (suc s.calls)) item) (d.handlers item.kind)

  -- A dispatched item is reported under its id, with its attempts and the status of its fate, and
  -- in the task table its row and no other is updated as the fate says, whatever the handler does.
  pub dispatch_item-Meets :
      (now : ℕ) × Meets item s.store.tasks
        (fate d item reply_to current)
        now
        (dispatch_item r d current item s)
  unfolding dispatch_item record_claimed append_event text
  dispatch_item-Meets = (
    r.time (written_call (d.handlers item.kind) (suc (suc s.calls))),
    dispatch_claimed-Meets r d item current (record_claimed r d item s).1 (d.handlers item.kind)
        refl,
  )
