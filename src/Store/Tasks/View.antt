-- ===== src/Store/Tasks/View.antt =====
-- The queue of manager/state_store.py as its clients see it: which task has which id, and nothing of
-- the order of the rows; and the steps that it may take.
use mathlib.Core.List.{Memᴰ}
use machine_manager.Base.{
  ℕ, ◌≤◌, ◌≡◌, ◌⊎◌, true, ◌&&◌, Option, none, some, List, [], ◌∷◌, if◌then◌else◌, All, length, max,
  min,
}
use machine_manager.Base.Text.{Text, text_eq}
use machine_manager.Store.Tasks.{
  Status, queued, Payload, Task, contains_id, find_task, is_queued, is_running,
}
use machine_manager.Store.Tasks.Rules.{IsWaiting, ComesFirst, taken, put_back, is_outcome, ended}
use machine_manager.Store.Tasks.Claims.{when}

-- The abstract queue.
abbrev pub View : Type 0
View = Text → Option Task

abbrev pub view : List Task → View
view ts id = find_task id ts

-- The row that an enqueue inserts.
abbrev pub new_task : Text → Text → Text → Payload → Option ℕ → ℕ → Task
new_task id kind objective payload scheduled now = record {
  task_id = id;
  kind = kind;
  objective_id = objective;
  status = queued;
  scheduled_at = elim scheduled [ none ↦ now | some at ↦ at ];
  attempts = 0;
  updated = now;
  payload = payload;
}

abbrev pub or_new : Option Task → Task → Option Task
or_new none t = some t
or_new (some s) t = some s

abbrev pub insert_new : Task → View → View
insert_new t v id = if text_eq t.task_id id then or_new (v id) t else v id

-- A call of a method of the table.
pub data Method : Type 0 where
  enqueues : Text → Text → Text → Payload → Option ℕ → Method
  claims : ℕ → List Text → Method
  starts : Text → Method
  finishes : Text → Status → Option ℕ → Method
  recovers : Method

-- What a claim takes: as many waiting tasks as it may, and none for which another waits that comes
-- first.
pub record IsChoice (limit now : ℕ) (excluded : List Text) (v : View) (chosen : List Task)
    : Type 0 where
  pub waiting : All (λ t. (v t.task_id ≡ some t) × IsWaiting now excluded t) chosen
  pub within : length chosen ≤ max 1 (min limit 100)
  pub first :
      (id : Text) (t : Task)
      → v id ≡ some t
      → IsWaiting now excluded t
      → Memᴰ t chosen
        ⊎ ((length chosen ≡ max 1 (min limit 100)) × ((s : Task) → Memᴰ s chosen → ComesFirst s t))

-- What a call at a time does to the abstract queue: an enqueue adds a new task unless its id is
-- taken; a claim takes a choice of waiting tasks; a start takes the task if it is QUEUED; a finish
-- gives the task an outcome, if it is one; a recovery puts all RUNNING tasks back.
abbrev pub Moved : ℕ → Method → View → View → Type 0
Moved now (enqueues id kind objective payload scheduled) v w =
    (k : Text) → w k ≡ insert_new (new_task id kind objective payload scheduled now) v k
Moved now (claims limit excluded) v w =
    (chosen : List Task) × IsChoice limit now excluded v chosen
    × ((k : Text) → w k ≡ when (contains_id k chosen) (taken now) (v k))
Moved now (starts id) v w =
    (k : Text)
    → w k ≡ when (text_eq id k) (λ t. if is_queued t.status then taken now t else t) (v k)
Moved now (finishes id status scheduled) v w =
    (k : Text) → w k ≡ when (is_outcome status && text_eq id k) (ended status scheduled now) (v k)
Moved now recovers v w =
    (k : Text) → w k ≡ when true (λ t. if is_running t.status then put_back now t else t) (v k)

-- A sequence of calls, each at its time, moves one queue to another.
abbrev pub Moves : List (ℕ × Method) → View → View → Type 0
Moves [] v w = v ≡ w
Moves ((now, m) ∷ calls) v w = (u : View) × Moved now m v u × Moves calls u w
