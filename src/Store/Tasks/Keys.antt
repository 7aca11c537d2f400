-- ===== src/Store/Tasks/Keys.antt =====
-- The primary key of the `tasks` table: task ids stay unique, and an UPDATE acts row by row.
use mathlib.Core.Option
use machine_manager.Base.{
  ℕ, ◌≡◌, refl, sym, ap, ◌&&◌, subst, ◌⊎◌, inl, inr, Bool, true, false, ◌||◌, Option, none, some,
  List, [], ◌∷◌, ◌++◌, arith, if◌then◌else◌, Bool-cases, some_inj,
}
use mathlib.Core.List.{Memᴰ}
use machine_manager.Base.Result.{ok, ok_inj}
use machine_manager.Base.Text.{Text, text_eq, text_eq_comm, text_eq_refl, text_eq→eq}
use machine_manager.Store.Tasks.{
  Status, Task, Payload, update_where, contains_id, enqueue_task, find_task, set_running,
  claim_rows, claim_due_tasks, due_rows, start_task, requeue_running_tasks, requeue, finish_task,
  with_status, is_allowed,
}

-- No two rows have one id.
abbrev pub HasUniqueIds : List Task → Type 0
HasUniqueIds [] = Unit
HasUniqueIds (t ∷ ts) = (contains_id t.task_id ts ≡ false) × HasUniqueIds ts

-- An UPDATE that does not set the key.
abbrev KeepsId : (Task → Task) → Type 0
KeepsId f = (t : Task) → (f t).task_id ≡ t.task_id

abbrev pub update_row : (Task → Bool) → (Task → Task) → Task → Task
update_row p f t = if p t then f t else t

module _ (p : Task → Bool) (f : Task → Task) (same : KeepsId f) where
  task_id-update_row : (t : Task) → (update_row p f t).task_id ≡ t.task_id
  task_id-update_row t = elim (Bool-cases (p t)) [ inl e ↦ rw e (same t) | inr e ↦ rw e ]

  pub contains_id-update_where :
      (id : Text) (ts : List Task) → contains_id id (update_where p f ts) ≡ contains_id id ts
  unfolding contains_id update_where
  contains_id-update_where id [] = refl
  contains_id-update_where id (t ∷ ts) = rw (task_id-update_row t, contains_id-update_where id ts)

  pub update_where-HasUniqueIds :
      (ts : List Task) → HasUniqueIds ts → HasUniqueIds (update_where p f ts)
  unfolding update_where
  update_where-HasUniqueIds [] h = tt
  update_where-HasUniqueIds (t ∷ ts) h = (
    rw (task_id-update_row t, contains_id-update_where t.task_id ts) h.0,
    update_where-HasUniqueIds ts h.1,
  )

  -- The row with a given id after an UPDATE is the updated row of that id.
  pub find_task-update_where :
      (id : Text) (ts : List Task)
      → find_task id (update_where p f ts) ≡ Option.map (update_row p f) (find_task id ts)
  unfolding find_task update_where
  find_task-update_where id [] = refl
  find_task-update_where id (t ∷ ts) =
      rw (task_id-update_row t) (elim (Bool-cases (text_eq t.task_id id)) [
        | inl e ↦ rw e
        | inr e ↦ rw e (find_task-update_where id ts)
      ])

pub contains_id-append :
    (id : Text) (xs ys : List Task)
    → contains_id id (xs ++ ys) ≡ (contains_id id xs || contains_id id ys)
unfolding contains_id
contains_id-append id [] ys = refl
contains_id-append id (t ∷ ts) ys = ground (arith, contains_id-append id ts ys)

append-HasUniqueIds :
    (t : Task) (ts : List Task)
    → contains_id t.task_id ts ≡ false
    → HasUniqueIds ts
    → HasUniqueIds (ts ++ t ∷ [])
unfolding contains_id
append-HasUniqueIds t [] c h = (refl, tt)
append-HasUniqueIds t (x ∷ xs) c h = (
  ground (arith, contains_id-append x.task_id xs (t ∷ []), text_eq_comm t.task_id x.task_id),
  append-HasUniqueIds t xs (ground arith) h.1,
)

-- Enqueueing keeps the ids unique, also when the id is already there.
pub enqueue_task-HasUniqueIds :
    (id kind objective : Text) (payload : Payload) (scheduled : Option ℕ) (now : ℕ) (ts : List Task)
    → HasUniqueIds ts
    → HasUniqueIds (enqueue_task id kind objective payload scheduled now ts)
unfolding enqueue_task
enqueue_task-HasUniqueIds id kind objective payload scheduled now ts h =
    elim (Bool-cases (contains_id id ts)) [
      | inl e ↦ rw e h
      | inr e ↦ rw e (append-HasUniqueIds _ ts e h)
    ]

set_running-HasUniqueIds :
    (now : ℕ) (id : Text) (ts : List Task) → HasUniqueIds ts → HasUniqueIds (set_running now id ts)
unfolding set_running
set_running-HasUniqueIds now id ts h = update_where-HasUniqueIds _ _ (λ t. refl) ts h

claim_rows-HasUniqueIds :
    (now : ℕ) (rows ts : List Task) → HasUniqueIds ts → HasUniqueIds (claim_rows now rows ts).1
unfolding claim_rows
claim_rows-HasUniqueIds now [] ts h = h
claim_rows-HasUniqueIds now (row ∷ rows) ts h =
    claim_rows-HasUniqueIds now rows (set_running now row.task_id ts)
      (set_running-HasUniqueIds now row.task_id ts h)

pub claim_due_tasks-HasUniqueIds :
    (limit now : ℕ) (excluded : List Text) (ts : List Task)
    → HasUniqueIds ts
    → HasUniqueIds (claim_due_tasks limit now excluded ts).1
unfolding claim_due_tasks
claim_due_tasks-HasUniqueIds limit now excluded ts h =
    claim_rows-HasUniqueIds now (due_rows limit now excluded ts) ts h

pub start_task-HasUniqueIds :
    (id : Text) (now : ℕ) (ts : List Task) → HasUniqueIds ts → HasUniqueIds (start_task id now ts).1
unfolding start_task
start_task-HasUniqueIds id now ts h = set_running-HasUniqueIds now id ts h

pub requeue_running_tasks-HasUniqueIds :
    (now : ℕ) (ts : List Task) → HasUniqueIds ts → HasUniqueIds (requeue_running_tasks now ts).1
unfolding requeue_running_tasks requeue
requeue_running_tasks-HasUniqueIds now ts h = update_where-HasUniqueIds _ _ (λ t. refl) ts h

pub task_id-with_status :
    (status : Status) (scheduled : Option ℕ) (now : ℕ) (t : Task)
    → (with_status status scheduled now t).task_id ≡ t.task_id
unfolding with_status
task_id-with_status status none now t = refl
task_id-with_status status (some at) now t = refl

pub finish_task-HasUniqueIds :
    (id : Text) (status : Status) (scheduled : Option ℕ) (now : ℕ) (ts after : List Task)
    → finish_task id status scheduled now ts ≡ ok after
    → HasUniqueIds ts
    → HasUniqueIds after
unfolding finish_task
finish_task-HasUniqueIds id status scheduled now ts after e h = go (Bool-cases (is_allowed status))
  where
    go : (is_allowed status ≡ true) ⊎ (is_allowed status ≡ false) → HasUniqueIds after
    go (inl a) =
        subst HasUniqueIds (ok_inj (rw a at e))
          (update_where-HasUniqueIds _ _ (task_id-with_status status scheduled now) ts h)
    go (inr r) = cc

pub contains_id-mem : (t : Task) (ts : List Task) → Memᴰ t ts → contains_id t.task_id ts ≡ true
unfolding contains_id
contains_id-mem t [] m = elim m [ ]
contains_id-mem t (x ∷ xs) (Memᴰ.head e) = rw (← e, text_eq_refl t.task_id)
contains_id-mem t (x ∷ xs) (Memᴰ.tail m) = ground (arith, contains_id-mem t xs m)

-- In a table with unique ids a row is found under its id.
pub find_task-mem :
    (t : Task) (ts : List Task) → HasUniqueIds ts → Memᴰ t ts → find_task t.task_id ts ≡ some t
unfolding find_task
find_task-mem t [] h m = elim m [ ]
find_task-mem t (x ∷ xs) h (Memᴰ.head e) = rw (← e, text_eq_refl t.task_id)
find_task-mem t (x ∷ xs) h (Memᴰ.tail m) = elim (Bool-cases (text_eq x.task_id t.task_id)) [
  | inl e ↦ cc (contains_id-mem t xs m, text_eq→eq x.task_id t.task_id e, h.0)
  | inr e ↦ rw e (find_task-mem t xs h.1 m)
]

-- A row that is found is in the table, under the id asked for.
pub find_task_sound :
    (id : Text) (ts : List Task) (t : Task)
    → find_task id ts ≡ some t
    → Memᴰ t ts × (text_eq t.task_id id ≡ true)
unfolding find_task
find_task_sound id [] t e = cc
find_task_sound id (x ∷ xs) t e = go (Bool-cases (text_eq x.task_id id)) (find_task_sound id xs t)
  where
    go :
        (text_eq x.task_id id ≡ true) ⊎ (text_eq x.task_id id ≡ false)
        → (find_task id xs ≡ some t → Memᴰ t xs × (text_eq t.task_id id ≡ true))
        → Memᴰ t (x ∷ xs) × (text_eq t.task_id id ≡ true)
    go (inl h) ih = let same : x ≡ t = some_inj (rw h at e) in (Memᴰ.head (sym same), rw (← same) h)
    go (inr h) ih = let (m, k) = ih (rw h at e) in (Memᴰ.tail m, k)

-- An UPDATE of the rows of one id that meet a further condition: the row under that id is updated
-- if it meets the condition, and a row under another id is as it was.
module _ (p : Task → Bool) (f : Task → Task) (same : KeepsId f) (row : Text) (q : Task → Bool)
    (split : (t : Task) → p t ≡ (text_eq t.task_id row && q t)) where
  update_row-at :
      (id : Text) (t : Task)
      → text_eq t.task_id id ≡ true
      → update_row p f t ≡ (if text_eq row id && q t then f t else t)
  update_row-at id t e = rw (split t, text_eq→eq t.task_id id e, text_eq_comm id row) refl

  pub find_task-update_id :
      (id : Text) (ts : List Task)
      → find_task id (update_where p f ts)
        ≡ Option.map (λ t. if text_eq row id && q t then f t else t) (find_task id ts)
  find_task-update_id id ts =
      rw (find_task-update_where p f same id ts) (at_row (find_task id ts) refl)
    where
      at_row :
          (o : Option Task)
          → find_task id ts ≡ o
          → Option.map (update_row p f) o
            ≡ Option.map (λ t. if text_eq row id && q t then f t else t) o
      at_row none e = refl
      at_row (some t) e = ap some (update_row-at id t (find_task_sound id ts t e).1)
