-- ===== src/Store/Tasks/Lifecycle.antt =====
-- What the UPDATE statements do: `start_task`, `requeue_running_tasks`, `finish_task`, and the
-- idempotent INSERT of `enqueue_task`.
use mathlib.Core.Option
use machine_manager.Base.{
  ℕ, ◌≡◌, refl, inl, inr, Bool, true, false, ◌&&◌, Option, none, some, List, [], ◌∷◌, arith,
  if◌then◌else◌, Bool-cases, count_if, keep, ap, length, All,
}
use machine_manager.Base.Result.{ok, err, value_error, map_result}
use machine_manager.Base.Text.{Text, text_eq, text_eq_refl, text_eq→eq}
use machine_manager.Store.Tasks.{
  Status, Payload, queued, Task, is_queued, is_running, contains_id, find_task, mark_running,
  start_task, is_queued_row, update_where, requeue_running_tasks, requeue, is_running_row,
  finish_task, has_id, with_status, is_allowed, enqueue_task,
}
use machine_manager.Store.Tasks.Keys.{
  HasUniqueIds, find_task-update_id, find_task-update_where, contains_id-append,
  task_id-with_status,
}

contains_id-enqueue_task :
    (id kind objective : Text) (payload : Payload) (scheduled : Option ℕ) (now : ℕ) (ts : List Task)
    → contains_id id (enqueue_task id kind objective payload scheduled now ts) ≡ true
unfolding enqueue_task contains_id
contains_id-enqueue_task id kind objective payload scheduled now ts =
    elim (Bool-cases (contains_id id ts)) [
      | inl e ↦ rw e e
      | inr e ↦ rw e (rw contains_id-append (rw (e, text_eq_refl id)))
    ]

module _ (id kind objective : Text) (payload : Payload) (scheduled : Option ℕ) (now : ℕ) where
  -- Enqueueing an id that is already there changes nothing, so repeating an enqueue is harmless.
  pub enqueue_task_idem :
      (kind' objective' : Text) (payload' : Payload) (scheduled' : Option ℕ) (now' : ℕ)
      (ts : List Task)
      → let once = enqueue_task id kind objective payload scheduled now ts in
        enqueue_task id kind' objective' payload' scheduled' now' once ≡ once
  unfolding enqueue_task
  enqueue_task_idem kind' objective' payload' scheduled' now' ts =
      unchanged (enqueue_task id kind objective payload scheduled now ts)
        (contains_id-enqueue_task id kind objective payload scheduled now ts)
    where
      unchanged :
          (us : List Task)
          → contains_id id us ≡ true
          → enqueue_task id kind' objective' payload' scheduled' now' us ≡ us
      unchanged us e = rw e

-- Whether the row of an id was QUEUED.
abbrev pub was_queued : Option Task → Bool
was_queued none = false
was_queued (some t) = is_queued t.status

count_if-is_queued_row_zero :
    (id : Text) (ts : List Task) → contains_id id ts ≡ false → count_if (is_queued_row id) ts ≡ 0
unfolding count_if is_queued_row contains_id
count_if-is_queued_row_zero id [] h = refl
count_if-is_queued_row_zero id (t ∷ ts) h = ground (arith, count_if-is_queued_row_zero id ts)

count_if-is_queued_row :
    (id : Text) (ts : List Task)
    → HasUniqueIds ts
    → count_if (is_queued_row id) ts ≡ (if was_queued (find_task id ts) then 1 else 0)
unfolding count_if is_queued_row find_task
count_if-is_queued_row id [] h = refl
count_if-is_queued_row id (t ∷ ts) h = elim (Bool-cases (text_eq t.task_id id)) [
  | inl e ↦
      let absent : contains_id id ts ≡ false = rw (← text_eq→eq t.task_id id e) h.0 in
      ground (arith, count_if-is_queued_row_zero id ts absent)
  | inr e ↦ ground (arith, count_if-is_queued_row id ts h.1)
]

started :
    (now : ℕ) (o : Option Task)
    → Option.map (λ t. if is_queued t.status then mark_running now t else t) o
      ≡ (if was_queued o then Option.map (mark_running now) o else o)
started now none = refl
started now (some t) = ground arith

-- `start_task` reports true exactly when the row of the id was QUEUED; then that row is RUNNING
-- with one attempt more, else the row is as it was.
pub start_task_lem :
    (id : Text) (now : ℕ) (ts : List Task)
    → HasUniqueIds ts
    → ((start_task id now ts).0 ≡ was_queued (find_task id ts))
      × (find_task id (start_task id now ts).1 ≡ (
          if was_queued (find_task id ts)
          then Option.map (mark_running now) (find_task id ts)
          else find_task id ts))
unfolding start_task
start_task_lem id now ts h = (
  rw (count_if-is_queued_row id ts h) (ground arith),
  rw
      (
        find_task-update_id (is_queued_row id) (mark_running now) (λ t. refl) id
            (λ t. is_queued t.status) (λ t. refl) id ts,
        text_eq_refl id,
      )
      (started now (find_task id ts)),
)

-- After `requeue_running_tasks` no row is RUNNING.
pub requeue_leaves_none_running :
    (now : ℕ) (ts : List Task)
    → All (λ t. is_running t.status ≡ false) (requeue_running_tasks now ts).1
unfolding requeue_running_tasks update_where is_running_row requeue
requeue_leaves_none_running now [] = tt
requeue_leaves_none_running now (t ∷ ts) = (ground arith, requeue_leaves_none_running now ts)

finished :
    (b : Bool) (status : Status) (scheduled : Option ℕ) (now : ℕ) (o : Option Task)
    → Option.map (λ t. if b && true then with_status status scheduled now t else t) o
      ≡ (if b then Option.map (with_status status scheduled now) o else o)
finished true status scheduled now o = refl
finished false status scheduled now none = refl
finished false status scheduled now (some t) = refl

-- A finished task has the status and the time that were asked for, and every other row is as it
-- was; a status that the store does not support is refused.
pub finish_task_lem :
    (id other_id : Text) (status : Status) (scheduled : Option ℕ) (now : ℕ) (ts : List Task)
    → map_result (find_task other_id) (finish_task id status scheduled now ts) ≡ (
        if is_allowed status
        then ok (
            if text_eq id other_id
            then Option.map (with_status status scheduled now) (find_task other_id ts)
            else find_task other_id ts)
        else err value_error)
unfolding finish_task
finish_task_lem id other_id status scheduled now ts = elim (Bool-cases (is_allowed status)) [
  | inl e ↦
      rw
        (
          e,
          find_task-update_id (has_id id) (with_status status scheduled now)
              (task_id-with_status status scheduled now) id (λ t. true) (λ t. ground arith) other_id
              ts,
        )
        (ap ok (finished (text_eq id other_id) status scheduled now (find_task other_id ts)))
  | inr e ↦ rw e
]

module _ (now : ℕ) where
  -- What `requeue_running_tasks` does to a row.
  abbrev pub requeued_row : Task → Task
  requeued_row t =
      if is_running t.status
      then record t { status = queued; scheduled_at = now; updated = now }
      else t

  count_if-is_running_row :
      (ts : List Task) → count_if is_running_row ts ≡ length (keep (λ t. is_running t.status) ts)
  unfolding count_if keep is_running_row
  count_if-is_running_row [] = refl
  count_if-is_running_row (t ∷ ts) = ground (arith, count_if-is_running_row ts)

  -- Recovery of an interrupted manager returns each RUNNING task to the queue, due at once and with
  -- its attempts kept; every other row is as it was; the count returned is the number of RUNNING rows.
  pub requeue_running_tasks_lem :
      (id : Text) (ts : List Task)
      → (find_task id (requeue_running_tasks now ts).1 ≡ Option.map requeued_row (find_task id ts))
        × ((requeue_running_tasks now ts).0 ≡ length (keep (λ t. is_running t.status) ts))
  unfolding requeue_running_tasks
  requeue_running_tasks_lem id ts = (
    find_task-update_where is_running_row (requeue now) (λ t. refl) id ts,
    count_if-is_running_row ts,
  )
