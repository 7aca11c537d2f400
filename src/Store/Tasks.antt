-- ===== src/Store/Tasks.antt =====
-- The `tasks` table of manager/state_store.py and the statements that read
-- and write it. The table is the list of its rows in rowid order; times are milliseconds.
pub mod Keys
pub mod Claims
pub mod Lifecycle
pub mod Counts
pub mod Rules
pub mod View
pub mod Activity
pub mod Refinement
use machine_manager.Base.{
  ℕ, ◌+◌, ◌≡◌, Bool, true, false, not, ◌&&◌, ◌||◌, Option, none, some, List, [], ◌∷◌, ◌++◌, min,
  max, ltb, leb, ◌==◌, if◌then◌else◌, take, keep, length, count_if,
}
use machine_manager.Base.Result.{Result, ok, err, value_error}
use machine_manager.Base.Sorting.{sort_by}
use machine_manager.Base.Text.{Text, text, text_eq, text_leb, text_mem, strip, is_empty}

-- The status column is a text; the six that the store itself writes have constructors.
pub data Status : Type 0 where
  queued running complete failed escalated cancelled : Status
  other : Text → Status

-- A JSON object whose values are texts.
abbrev pub Payload : Type 0
Payload = List (Text × Text)

pub record Task : Type 0 where
  pub task_id : Text
  pub kind : Text
  pub objective_id : Text
  pub status : Status
  pub scheduled_at : ℕ
  pub attempts : ℕ
  pub updated : ℕ
  pub payload : Payload

-- The dictionary that `claim_due_tasks` returns for a row, and `WorkItem` of manager/scheduler.py.
pub record WorkItem : Type 0 where
  pub task_id : Text
  pub kind : Text
  pub objective_id : Text
  pub attempts : ℕ
  pub payload : Payload

abbrev pub is_queued : Status → Bool
is_queued queued = true
is_queued _ = false

abbrev pub is_running : Status → Bool
is_running running = true
is_running _ = false

-- `UPDATE tasks SET … WHERE task_id = ? AND …`, and the number of rows that it changed.
unfoldable pub update_where : (Task → Bool) → (Task → Task) → List Task → List Task
update_where p f [] = []
update_where p f (t ∷ ts) = (if p t then f t else t) ∷ update_where p f ts

unfoldable pub contains_id : Text → List Task → Bool
contains_id id [] = false
contains_id id (t ∷ ts) = text_eq t.task_id id || contains_id id ts

-- `INSERT … ON CONFLICT(task_id) DO NOTHING`
unfoldable pub enqueue_task : Text → Text → Text → Payload → Option ℕ → ℕ → List Task → List Task
enqueue_task id kind objective payload scheduled now ts =
    if contains_id id ts
    then ts
    else ts
      ++ record {
        task_id = id;
        kind = kind;
        objective_id = objective;
        status = queued;
        scheduled_at = elim scheduled [ none ↦ now | some at ↦ at ];
        attempts = 0;
        updated = now;
        payload = payload;
      }
        ∷ []

-- `str(kind).strip()` of each excluded kind that is not blank; `dict.fromkeys` drops repetitions,
-- which a membership test does not see.
unfoldable pub clean_kinds : List Text → List Text
clean_kinds [] = []
clean_kinds (k ∷ ks) =
    let rest = clean_kinds ks in if is_empty (strip k) then rest else strip k ∷ rest

-- The WHERE clause of the claim.
unfoldable pub is_due : ℕ → List Text → Task → Bool
is_due now excluded t =
    is_queued t.status && (leb t.scheduled_at now && not (text_mem t.kind excluded))

-- `ORDER BY scheduled_at, task_id`
unfoldable pub runs_before : Task → Task → Bool
runs_before a b =
    ltb a.scheduled_at b.scheduled_at
    || (a.scheduled_at == b.scheduled_at && text_leb a.task_id b.task_id)

-- `max(1, min(int(limit), 100))`
unfoldable pub clamp_limit : ℕ → ℕ
clamp_limit n = max 1 (min n 100)

-- The rows that the SELECT of the claim returns.
unfoldable pub due_rows : ℕ → ℕ → List Text → List Task → List Task
unfolding is_due clean_kinds clamp_limit runs_before
due_rows limit now excluded ts =
    take (clamp_limit limit) (sort_by runs_before (keep (is_due now (clean_kinds excluded)) ts))

-- `WHERE task_id=? AND status='QUEUED'`
unfoldable pub is_queued_row : Text → Task → Bool
is_queued_row id t = text_eq t.task_id id && is_queued t.status

-- `SET status='RUNNING', attempts=attempts+1, updated=?`
unfoldable pub mark_running : ℕ → Task → Task
mark_running now t = record t { status = running; attempts = t.attempts + 1; updated = now }

unfoldable pub set_running : ℕ → Text → List Task → List Task
unfolding update_where is_queued_row mark_running
set_running now id = update_where (is_queued_row id) (mark_running now)

unfoldable pub claimed_item : Task → WorkItem
claimed_item t = record {
  task_id = t.task_id;
  kind = t.kind;
  objective_id = t.objective_id;
  attempts = t.attempts + 1;
  payload = t.payload;
}

-- The loop over the selected rows: one UPDATE and one item for each.
unfoldable pub claim_rows : ℕ → List Task → List Task → List WorkItem × List Task
unfolding set_running claimed_item
claim_rows now [] ts = ([], ts)
claim_rows now (row ∷ rows) ts =
    let (items, after) = claim_rows now rows (set_running now row.task_id ts) in
    (claimed_item row ∷ items, after)

unfoldable pub claim_due_tasks : ℕ → ℕ → List Text → List Task → List WorkItem × List Task
unfolding due_rows claim_rows
claim_due_tasks limit now excluded ts = claim_rows now (due_rows limit now excluded ts) ts

-- `SELECT status FROM tasks WHERE task_id = ?`
unfoldable pub find_task : Text → List Task → Option Task
find_task id [] = none
find_task id (t ∷ ts) = if text_eq t.task_id id then some t else find_task id ts

unfoldable pub task_status : Text → List Task → Option Status
unfolding find_task
task_status id ts = elim (find_task id ts) [ none ↦ none | some t ↦ some t.status ]

-- The result is `cursor.rowcount == 1`.
unfoldable pub start_task : Text → ℕ → List Task → Bool × List Task
unfolding set_running is_queued_row
start_task id now ts = (count_if (is_queued_row id) ts == 1, set_running now id ts)

unfoldable pub is_running_row : Task → Bool
is_running_row t = is_running t.status

unfoldable pub requeue : ℕ → Task → Task
requeue now t = record t { status = queued; scheduled_at = now; updated = now }

-- The result is `cursor.rowcount`.
unfoldable pub requeue_running_tasks : ℕ → List Task → ℕ × List Task
unfolding is_running_row requeue update_where
requeue_running_tasks now ts =
    (count_if is_running_row ts, update_where is_running_row (requeue now) ts)

-- `status not in allowed`
abbrev pub is_allowed : Status → Bool
is_allowed running = false
is_allowed (other _) = false
is_allowed _ = true

unfoldable pub has_id : Text → Task → Bool
has_id id t = text_eq t.task_id id

unfoldable pub with_status : Status → Option ℕ → ℕ → Task → Task
with_status status none now t = record t { status = status; updated = now }
with_status status (some at) now t = record t { status = status; scheduled_at = at; updated = now }

unfoldable pub finish_task : Text → Status → Option ℕ → ℕ → List Task → Result (List Task)
unfolding has_id with_status update_where
finish_task id status scheduled now ts =
    if is_allowed status
    then ok (update_where (has_id id) (with_status status scheduled now) ts)
    else err value_error

-- `str(payload.get(key, ""))`
unfoldable pub payload_get : Text → Payload → Text
payload_get key [] = []
payload_get key ((k, v) ∷ rest) = if text_eq k key then v else payload_get key rest

unfoldable pub is_queued_kind : Text → Task → Bool
is_queued_kind kind t = text_eq t.kind kind && is_queued t.status

unfoldable pub first_owned : Text → Text → List Task → Option Text
unfolding payload_get
first_owned key value [] = none
first_owned key value (t ∷ ts) =
    if text_eq (payload_get key t.payload) value then some t.task_id else first_owned key value ts

unfoldable pub find_queued_task : Text → Text → Text → List Task → Option Text
unfolding first_owned is_queued_kind runs_before
find_queued_task kind key value ts =
    first_owned key value (sort_by runs_before (keep (is_queued_kind kind) ts))
