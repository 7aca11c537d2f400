-- ===== src/Store/Tasks/Refinement.antt =====
-- The methods on the `tasks` table of manager/state_store.py implement the steps of its view.
use mathlib.Core.Option
use machine_manager.Base.{ℕ, Option, List, [], ◌∷◌}
use machine_manager.Base.Result.{Result, ok, err}
use machine_manager.Base.Text.{Text}
use machine_manager.Store.Tasks.{
  Task, enqueue_task, claim_due_tasks, start_task, requeue_running_tasks, finish_task,
}
use machine_manager.Store.Tasks.View.{Method, enqueues, claims, starts, finishes, recovers}

abbrev pub table_of : Result (List Task) → List Task → List Task
table_of (ok after) ts = after
table_of (err e) ts = ts

abbrev pub apply : ℕ → Method → List Task → List Task
apply now (enqueues id kind objective payload scheduled) ts =
    enqueue_task id kind objective payload scheduled now ts
apply now (claims limit excluded) ts = (claim_due_tasks limit now excluded ts).1
apply now (starts id) ts = (start_task id now ts).1
apply now (finishes id status scheduled) ts = table_of (finish_task id status scheduled now ts) ts
apply now recovers ts = (requeue_running_tasks now ts).1

-- A sequence of calls, each at its time.
abbrev pub apply_all : List (ℕ × Method) → List Task → List Task
apply_all [] ts = ts
apply_all ((now, m) ∷ ms) ts = apply_all ms (apply now m ts)
