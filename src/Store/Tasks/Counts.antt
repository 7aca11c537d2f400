-- ===== src/Store/Tasks/Counts.antt =====
-- `count_tasks_for_owner` of manager/state_store.py.
use machine_manager.Base.{ℕ, Bool, true, false, ◌&&◌, List, count_if}
use machine_manager.Base.Text.{Text, text_eq}
use machine_manager.Store.Tasks.{
  Status, queued, running, complete, failed, escalated, cancelled, other, Task, payload_get,
}

-- The texts that the status column holds.
abbrev pub same_status : Status → Status → Bool
same_status queued queued = true
same_status running running = true
same_status complete complete = true
same_status failed failed = true
same_status escalated escalated = true
same_status cancelled cancelled = true
same_status (other a) (other b) = text_eq a b
same_status _ _ = false

unfoldable pub count_tasks_for_owner : Text → Text → Text → Status → List Task → ℕ
count_tasks_for_owner kind key value status ts =
    count_if
      (λ t.
        text_eq t.kind kind
        && (same_status t.status status && text_eq (payload_get key t.payload) value))
      ts
