-- ===== src/Recurring.antt =====
-- manager/recurring.py: the templates of recurring work and the seeder that enqueues one task of a
-- template when it is due, unless the last one is still active.
pub mod Ids
pub mod Ticks
use machine_manager.Base.{
  ℕ, ◌+◌, ◌-◌, ◌/◌, ◌%◌, suc, zero, min, Bool, true, false, not, ◌&&◌, ◌||◌, Option, none, some,
  List, [], ◌∷◌, ◌++◌, ltb, leb, ◌==◌, if◌then◌else◌, length, take, map,
}
use machine_manager.Base.Exec.{Exec, pure, modify, gets, ◌>>=◌, ◌>>◌}
use machine_manager.Base.Result.{Result, ok, err, value_error, foreign}
use machine_manager.Base.Text.{Text, text, strip, is_empty, text_eq, text_mem, all_distinct}
use machine_manager.Store.{
  Store, Cursor, Field, number, no_number, too_large, MetaValue, cursor, mapping, set_meta,
  get_meta,
}
use machine_manager.Store.Tasks.{Status, queued, running, Payload, Task, task_status}
use machine_manager.Store.Events.{Event}
use machine_manager.Runtime.{Runtime, System, read_stamp, fresh_uuid}
use machine_manager.Scheduler.{enqueue}

-- `RecurringTaskSpec`; the interval is in milliseconds.
pub record Template : Type 0 where
  pub recurring_id : Text
  pub kind : Text
  pub objective_id : Text
  pub interval : ℕ
  pub payload : Payload
  pub enabled : Bool

pub record Seeder : Type 0 where
  pub specs : List Template
  pub actor : Text

-- `RecurringTaskSeeder.__init__`; the check of the actor's text is not modelled.
unfoldable pub new_seeder : List Template → Text → Result Seeder
unfolding all_distinct
new_seeder specs actor =
    if all_distinct (map (λ t. t.recurring_id) specs)
    then ok (record { specs = specs; actor = actor })
    else err value_error

-- A number in decimal digits; as many rounds as the number is enough.
unfoldable pub digits : ℕ → ℕ → Text
digits zero n = (n % 10 + 48) ∷ []
digits (suc fuel) n =
    let rest = digits fuel (n / 10) in
    if ltb n 10 then (n + 48) ∷ [] else rest ++ (n % 10 + 48) ∷ []

unfoldable pub zeros : ℕ → Text
zeros zero = []
zeros (suc n) = 48 ∷ zeros n

-- `f"{n:06d}"`
unfoldable pub six_digits : ℕ → Text
unfolding digits zeros
six_digits n = zeros (6 - length (digits n n)) ++ digits n n

unfoldable pub template_task_id : Template → ℕ → Text
unfolding six_digits
template_task_id t n = text "recurring-" ++ (t.recurring_id ++ (text "-" ++ six_digits n))

unfoldable pub meta_key : Template → Text
meta_key t = text "recurring_task:" ++ t.recurring_id

-- `_state`: the entries of the stored object; what is missing is no number.
pub record State : Type 0 where
  pub task_id : Text
  pub sequence : Field
  pub next_at : Field

unfoldable pub state_from : Option MetaValue → State
state_from (some (cursor c)) = record {
  task_id = c.task_id;
  sequence = number c.sequence;
  next_at = number c.next_at;
}
state_from (some (mapping id n at)) = record { task_id = id; sequence = n; next_at = at }
state_from _ = record { task_id = []; sequence = no_number; next_at = no_number }

unfoldable pub state_of : Template → Store → State
unfolding state_from get_meta meta_key
state_of t s = state_from (get_meta (meta_key t) s)

-- `_sequence` and `_number` with its default 0: only ValueError and TypeError are caught.
unfoldable pub converted : Field → Result ℕ
unfolding text
converted (number n) = ok n
converted no_number = ok 0
converted too_large = err (foreign (text "OverflowError"))

-- `… in self._ACTIVE`
unfoldable pub is_active : Option Status → Bool
is_active (some queued) = true
is_active (some running) = true
is_active _ = false

unfoldable pub write_cursor : Template → Cursor → Exec System Unit
unfolding meta_key set_meta
write_cursor t c = modify (λ s. record s { store = set_meta (meta_key t) (cursor c) (s.store) })

-- The branch of `tick` for a template whose last task is still active.
unfoldable pub postpone : ℕ → Template → Text → ℕ → Exec System (List Event)
unfolding write_cursor
postpone now t previous sequence = do
  write_cursor t
      (record { task_id = previous; sequence = sequence; next_at = now + min t.interval 60000 })
  pure []

module _ (r : Runtime) where
  abbrev scheduled_event : Text → Template → Text → Text → Text → Event
  scheduled_event actor t id stamp u = record {
    event_id = text "evt-recurring-task-" ++ take 12 u;
    timestamp = stamp;
    objective_id = t.objective_id;
    job_id = text "task-queue";
    worker_id = [];
    actor = actor;
    kind = some t.kind;
    task_id = some id;
    event_type = text "recurring_task_scheduled";
    previous_state = text "IDLE";
    new_state = text "QUEUED";
    metrics = [];
    action = text "schedule_recurring_task";
    outcome = text "task_enqueued";
    artifact_refs = (text "task:" ++ id) ∷ [];
    error = none;
    message = none;
  }

  -- The first half of scheduling: the task is enqueued, the cursor is not written yet.
  unfoldable pub enqueue_next : ℕ → Template → ℕ → Exec System Text
  unfolding enqueue template_task_id
  enqueue_next now t sequence =
      enqueue r t.kind t.objective_id t.payload (some (template_task_id t sequence)) (some now)

  unfoldable pub schedule : Text → ℕ → Template → ℕ → Exec System (List Event)
  unfolding enqueue_next write_cursor
  schedule actor now t sequence = do
    id ← enqueue_next now t sequence
    write_cursor t (record { task_id = id; sequence = sequence; next_at = now + t.interval })
    stamp ← read_stamp r
    u ← fresh_uuid r
    pure (scheduled_event actor t id stamp u ∷ [])

  -- The body of the loop of `tick`: for a template that is due, by its sequence number,
  unfoldable pub seed_numbered : Text → ℕ → Template → Text → Result ℕ → Exec System (List Event)
  unfolding postpone schedule is_active
  seed_numbered actor now t previous (err e) s = (err e, s)
  seed_numbered actor now t previous (ok n) s =
      if not (is_empty previous) && is_active (task_status previous s.store.tasks)
      then postpone now t previous n s
      else schedule actor now t (n + 1) s

  -- for one that is enabled, by the time at which it is due,
  unfoldable pub seed_at : Text → ℕ → Template → State → Result ℕ → Exec System (List Event)
  unfolding seed_numbered converted
  seed_at actor now t c (err e) s = (err e, s)
  seed_at actor now t c (ok at) s =
      if ltb now at
      then (ok [], s)
      else seed_numbered actor now t (strip c.task_id) (converted c.sequence) s

  -- and for any.
  unfoldable pub seed : Text → ℕ → Template → Exec System (List Event)
  unfolding seed_at state_of converted
  seed actor now t s =
      if not t.enabled
      then (ok [], s)
      else seed_at actor now t (state_of t s.store) (converted (state_of t s.store).next_at) s

  unfoldable pub seed_all : Text → ℕ → List Template → Exec System (List Event)
  unfolding seed
  seed_all actor now [] = pure []
  seed_all actor now (t ∷ ts) = do
    here ← seed actor now t
    rest ← seed_all actor now ts
    pure (here ++ rest)

  -- `tick` at the time that the caller gives.
  unfoldable pub tick : Seeder → ℕ → Exec System (List Event)
  unfolding seed_all
  tick seeder now = seed_all seeder.actor now seeder.specs
