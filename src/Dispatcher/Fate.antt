-- ===== src/Dispatcher/Fate.antt =====
-- What becomes of a claimed task, as a specification: its fate is a function of the handler's reply
-- and of the attempts that the task has used, with no store and no clock.
use machine_manager.Base.{ℕ, ◌+◌, Option, none, some, if◌then◌else◌, leb, max}
use machine_manager.Base.Result.{Result, ok, err}
use machine_manager.Store.Tasks.{Status, Task, WorkItem, with_status}
use machine_manager.Dispatcher.{Outcome, Report, Dispatcher}
use machine_manager.Dispatcher.Outcomes.{Verdict, verdict}

-- A task ends with a status, or is due again at a time.
pub data Fate : Type 0 where
  ends : Status → Fate
  IsDue-again : ℕ → Fate

abbrev pub apply_fate : Fate → ℕ → Task → Task
apply_fate (ends status) now = with_status status none now
apply_fate (IsDue-again at) now = with_status Status.queued (some at) now

-- A retry while the attempts are below the budget, else an escalation.
abbrev pub bounded_retry : Dispatcher → WorkItem → ℕ → Report × Fate
bounded_retry d item retry_at =
    if leb d.max_attempts item.attempts
    then (Report.escalated, ends Status.escalated)
    else (Report.retry, IsDue-again retry_at)

abbrev pub fate_of_verdict : Dispatcher → WorkItem → Verdict → ℕ → ℕ → Report × Fate
fate_of_verdict d item Verdict.complete retry_after current =
    (Report.complete, ends Status.complete)
fate_of_verdict d item Verdict.failed retry_after current = (Report.failed, ends Status.failed)
fate_of_verdict d item Verdict.escalated retry_after current =
    (Report.escalated, ends Status.escalated)
fate_of_verdict d item Verdict.retry retry_after current =
    bounded_retry d item (current + max 100 retry_after)
fate_of_verdict d item Verdict.unsupported retry_after current =
    bounded_retry d item (current + d.defer_delay)

-- The reply is `none` where no handler is registered, and an error where the handler raised.
abbrev pub fate : Dispatcher → WorkItem → Option (Result Outcome) → ℕ → Report × Fate
fate d item none current = (Report.deferred, IsDue-again (current + d.defer_delay))
fate d item (some (err e)) current = bounded_retry d item (current + d.defer_delay)
fate d item (some (ok o)) current = fate_of_verdict d item (verdict o.status) o.retry_after current
