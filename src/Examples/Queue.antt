-- ===== src/Examples/Queue.antt =====
-- Concrete queues, for the theorems on the `tasks` table.
use machine_manager.Base.{
  ℕ, String, ◌≡◌, ◌≤◌, refl, true, false, List, [], ◌∷◌, none, some, max, min, length, All, keep,
  arith,
}
use machine_manager.Base.Sorting.{sort_by}
use machine_manager.Base.Text.{text, text_eq, text_mem}
use machine_manager.Store.Tasks.{
  Status, queued, running, complete, Task, contains_id, clean_kinds, is_due, clamp_limit, due_rows,
  claimed_item, claim_rows, claim_due_tasks, find_task,
}
use machine_manager.Store.Tasks.Activity.{kinds_of, activity_rows, no_kind_is_hidden}
use machine_manager.Store.Tasks.Keys.{HasUniqueIds}
use machine_manager.Store.Tasks.Claims.{claim_due_tasks_sound, claim_not_repeated}
use machine_manager.Store.Tasks.Rules.{IsWaiting, taken, item_of}
use machine_manager.Store.Tasks.View.{Method, enqueues, claims, starts, finishes, recovers}
use mathlib.Core.List.{Memᴰ}

abbrev pub task : String → Status → ℕ → ℕ → Task
task id status at attempts = record {
  task_id = text id;
  kind = text "build";
  objective_id = text "ship";
  status = status;
  scheduled_at = at;
  attempts = attempts;
  updated = 0;
  payload = [];
}

abbrev pub waiting : Task
waiting = task "a" queued 5 0

abbrev pub late : Task
late = task "c" queued 9 2

abbrev pub interrupted : Task
interrupted = task "b" running 3 1

abbrev pub queue : List Task
queue = waiting ∷ interrupted ∷ late ∷ []

pub queue-HasUniqueIds : HasUniqueIds queue
unfolding contains_id text_eq text
queue-HasUniqueIds = (refl, (refl, (refl, tt)))

claim_due_tasks_sound_example :
    let (items, after) = claim_due_tasks 10 7 [] queue in
    All
      (λ item.
        (t : Task) × Memᴰ t queue
        × IsWaiting 7 [] t
        × (item ≡ item_of t)
        × (find_task t.task_id after ≡ some (taken 7 t)))
      items
    × (length items ≤ max 1 (min 10 100))
claim_due_tasks_sound_example = claim_due_tasks_sound 10 7 [] queue queue-HasUniqueIds

claimed_first : Memᴰ (claimed_item waiting) (claim_due_tasks 10 7 [] queue).0
unfolding claim_due_tasks due_rows is_due clean_kinds claim_rows text_mem sort_by clamp_limit text
    keep
claimed_first = Memᴰ.head refl

claimed_next :
    Memᴰ (claimed_item late) (claim_due_tasks 10 20 [] (claim_due_tasks 10 7 [] queue).1).0
unfolding claim_due_tasks due_rows is_due clean_kinds claim_rows text_mem sort_by clamp_limit text
    keep text_eq
claimed_next = Memᴰ.head refl

claim_not_repeated_example :
    text_eq (claimed_item waiting).task_id (claimed_item late).task_id ≡ false
claim_not_repeated_example =
    claim_not_repeated 10 10 7 20 [] [] queue (claimed_item waiting) (claimed_item late)
      queue-HasUniqueIds claimed_first claimed_next

-- A day of the queue, in which the manager was interrupted once.
abbrev pub day : List (ℕ × Method)
day =
    (10, enqueues (text "d") (text "build") (text "ship") [] none)
    ∷ (11, recovers)
    ∷ (12, claims 2 [])
    ∷ (13, finishes (text "a") complete none)
    ∷ (14, finishes (text "b") running none)
    ∷ (15, starts (text "d"))
    ∷ []

abbrev audit_task : Task
audit_task = record late { kind = text "audit" }

no_kind_is_hidden_example :
    (u : Task) × Memᴰ u (activity_rows 2 (waiting ∷ interrupted ∷ audit_task ∷ []))
    × (text_eq u.kind (text "audit") ≡ true)
unfolding kinds_of clamp_limit text text_eq text_mem
no_kind_is_hidden_example =
    no_kind_is_hidden 2 audit_task (waiting ∷ interrupted ∷ audit_task ∷ [])
      (Memᴰ.tail (Memᴰ.tail (Memᴰ.head refl))) (omega arith)
