-- ===== src/Store/Tasks/Claims.antt =====
-- What a claim does: `claim_due_tasks` and the conditional UPDATEs beside it.
use mathlib.Core.Option
use mathlib.Core.List.{Memᴰ}
use machine_manager.Base.{
  max, min, ℕ, ◌&&◌, ◌≤◌, ◌≡◌, refl, sym, ap, ◌⊎◌, inl, inr, Bool, true, false, Option, none, some,
  List, [], ◌∷◌, arith, if◌then◌else◌, Bool-cases, map, length, length-take, length-take_full,
  mem_of_mem-map, All-mem, some_inj, ◌∙◌, All-map, length-map, keep, All, All-keep, All-take,
  mem-All, mem-keep, mem-take_drop,
}
use machine_manager.Base.Sorting.{
  sort_by, sort_by-IsSorted, All-sort_by, mem-sort_by, IsSorted-take-drop,
}
use machine_manager.Base.Text.{Text, text_eq, text_eq→eq, text_leb-total, text_leb_trans}
use machine_manager.Store.Tasks.{
  Task, WorkItem, is_queued, contains_id, find_task, set_running, mark_running, is_queued_row,
  claim_rows, claim_due_tasks, claimed_item, due_rows, is_due, clean_kinds, clamp_limit,
  runs_before,
}
use machine_manager.Store.Tasks.Rules.{
  IsWaiting, ComesFirst, taken, item_of, is_due→IsWaiting, is_due-IsWaiting, runs_before→ComesFirst,
  mark_running-taken, claimed_item-item_of,
}
use machine_manager.Store.Tasks.Keys.{
  HasUniqueIds, find_task-update_id, find_task-mem, contains_id-mem, claim_due_tasks-HasUniqueIds,
}

-- A claimed row: marked RUNNING if it was QUEUED, else as it was.
abbrev pub claimed_row : ℕ → Task → Task
claimed_row now t = if is_queued t.status then mark_running now t else t

claimed_row_idem : (now : ℕ) (t : Task) → claimed_row now (claimed_row now t) ≡ claimed_row now t
unfolding mark_running
claimed_row_idem now t = ground arith

abbrev pub when {ℓ} : {A : Type ℓ} → Bool → (A → A) → Option A → Option A
when b f none = none
when b f (some a) = some (if b then f a else a)

pub find_task-set_running :
    (now : ℕ) (id row : Text) (ts : List Task)
    → find_task id (set_running now row ts)
      ≡ when (text_eq row id) (claimed_row now) (find_task id ts)
unfolding set_running
find_task-set_running now id row ts =
    rw
      (find_task-update_id (is_queued_row row) (mark_running now) (λ t. refl) row
        (λ t. is_queued t.status) (λ t. refl) id ts)
      (at_row (text_eq row id) (find_task id ts))
  where
    at_row :
        (b : Bool) (o : Option Task)
        → Option.map (λ t. if b && is_queued t.status then mark_running now t else t) o
          ≡ when b (claimed_row now) o
    at_row b none = refl
    at_row b (some t) = ground arith

find_task-claim_rows :
    (now : ℕ) (id : Text) (rows ts : List Task)
    → find_task id (claim_rows now rows ts).1
      ≡ when (contains_id id rows) (claimed_row now) (find_task id ts)
unfolding claim_rows contains_id
find_task-claim_rows now id [] ts = ground arith
find_task-claim_rows now id (row ∷ rows) ts = ground (
  arith,
  find_task-claim_rows now id rows (set_running now row.task_id ts),
  find_task-set_running now id row.task_id ts,
  claimed_row_idem now,
)

items-claim_rows :
    (now : ℕ) (rows ts : List Task) → (claim_rows now rows ts).0 ≡ map claimed_item rows
unfolding claim_rows
items-claim_rows now [] ts = refl
items-claim_rows now (row ∷ rows) ts =
    ap (λ items. claimed_item row ∷ items)
      (items-claim_rows now rows (set_running now row.task_id ts))

runs_before-total : (a b : Task) → (runs_before a b ≡ true) ⊎ (runs_before b a ≡ true)
unfolding runs_before
runs_before-total a b = ground (arith, text_leb-total a.task_id b.task_id)

runs_before_trans :
    (a b c : Task) → runs_before a b ≡ true → runs_before b c ≡ true → runs_before a c ≡ true
unfolding runs_before
runs_before_trans a b c h k = ground (arith, text_leb_trans a.task_id b.task_id c.task_id)

-- The selected rows are rows of the table that meet the WHERE clause.
pub due_rows_sound :
    (limit now : ℕ) (excluded : List Text) (ts : List Task)
    → All
        (λ t. Memᴰ t ts × (is_due now (clean_kinds excluded) t ≡ true))
        (due_rows limit now excluded ts)
unfolding due_rows
due_rows_sound limit now excluded ts = All-take _ (clamp_limit limit) _ (
    All-sort_by runs_before _ _
      (All-keep _ (is_due now (clean_kinds excluded)) ts (mem-All _ ts (λ t m. m))))

pub length-due_rows-le :
    (limit now : ℕ) (excluded : List Text) (ts : List Task)
    → length (due_rows limit now excluded ts) ≤ clamp_limit limit
unfolding due_rows
length-due_rows-le limit now excluded ts =
    let due = sort_by runs_before (keep (is_due now (clean_kinds excluded)) ts) in
    omega (arith, length-take (clamp_limit limit) due)

-- After a claim the row under an id that was selected is RUNNING with one attempt more, and every
-- other row is as it was.
pub find_task-claim_due_tasks :
    (limit now : ℕ) (excluded : List Text) (id : Text) (ts : List Task)
    → find_task id (claim_due_tasks limit now excluded ts).1
      ≡ when (contains_id id (due_rows limit now excluded ts)) (claimed_row now) (find_task id ts)
unfolding claim_due_tasks
find_task-claim_due_tasks limit now excluded id ts =
    find_task-claim_rows now id (due_rows limit now excluded ts) ts

pub items-claim_due_tasks :
    (limit now : ℕ) (excluded : List Text) (ts : List Task)
    → (claim_due_tasks limit now excluded ts).0 ≡ map claimed_item (due_rows limit now excluded ts)
unfolding claim_due_tasks
items-claim_due_tasks limit now excluded ts =
    items-claim_rows now (due_rows limit now excluded ts) ts

row_of_item :
    (limit now : ℕ) (excluded : List Text) (ts : List Task) (item : WorkItem)
    → Memᴰ item (claim_due_tasks limit now excluded ts).0
    → (t : Task) × Memᴰ t (due_rows limit now excluded ts) × (item ≡ claimed_item t)
row_of_item limit now excluded ts item m =
    mem_of_mem-map claimed_item (due_rows limit now excluded ts) item
      (rw (items-claim_due_tasks limit now excluded ts) at m)

due_rows_earliest_first :
    (limit now : ℕ) (excluded : List Text) (ts : List Task) (t : Task)
    → Memᴰ t ts
    → is_due now (clean_kinds excluded) t ≡ true
    → Memᴰ t (due_rows limit now excluded ts)
      ⊎ ((length (due_rows limit now excluded ts) ≡ clamp_limit limit)
          × ((s : Task) → Memᴰ s (due_rows limit now excluded ts) → runs_before s t ≡ true))
unfolding due_rows
due_rows_earliest_first limit now excluded ts t m due =
    let kept = keep (is_due now (clean_kinds excluded)) ts in
    let due_in_order = sort_by runs_before kept in
    let n = clamp_limit limit in
    elim (mem-take_drop n due_in_order t
      (mem-sort_by runs_before kept t (mem-keep (is_due now (clean_kinds excluded)) ts t m due))) [
        | inl selected ↦ inl selected
        | inr behind ↦ inr (
          length-take_full n due_in_order t behind,
          λ s selected.
              IsSorted-take-drop runs_before n due_in_order
                (sort_by-IsSorted runs_before runs_before-total runs_before_trans kept) s t selected
                behind,
        )
      ]

pub is_queued-claimed_row : (now : ℕ) (t : Task) → is_queued (claimed_row now t).status ≡ false
unfolding mark_running
is_queued-claimed_row now t = ground arith

pub is_queued_of_is_due :
    (now : ℕ) (kinds : List Text) (t : Task) → is_due now kinds t ≡ true → is_queued t.status ≡ true
unfolding is_due
is_queued_of_is_due now kinds t h = ground arith

is_queued_of_claimed :
    (now : ℕ) (t : Task) (o : Option Task)
    → some t ≡ when true (claimed_row now) o
    → is_queued t.status ≡ false
is_queued_of_claimed now t none h = cc
is_queued_of_claimed now t (some u) h = rw (some_inj h) (is_queued-claimed_row now u)

due_rows_not_repeated :
    (limit limit' now now' : ℕ) (excluded excluded' : List Text) (ts : List Task) (s t : Task)
    → HasUniqueIds ts
    → Memᴰ s (due_rows limit now excluded ts)
    → Memᴰ t (due_rows limit' now' excluded' (claim_due_tasks limit now excluded ts).1)
    → text_eq s.task_id t.task_id ≡ false
due_rows_not_repeated limit limit' now now' excluded excluded' ts s t unique ms mt =
    let after = (claim_due_tasks limit now excluded ts).1 in
    let rows = due_rows limit now excluded ts in
    let (mt', due) = All-mem _ _ (due_rows_sound limit' now' excluded' after) t mt in
    let found =
      find_task-mem t after (claim_due_tasks-HasUniqueIds limit now excluded ts unique) mt' in
    elim (Bool-cases (text_eq s.task_id t.task_id)) [
      | inl e ↦
          let listed : contains_id t.task_id rows ≡ true =
            rw (← text_eq→eq s.task_id t.task_id e) (contains_id-mem s rows ms) in
          let claimed : some t ≡ when true (claimed_row now) (find_task t.task_id ts) =
            rw (← listed) (sym found ∙ find_task-claim_due_tasks limit now excluded t.task_id ts) in
          cc (
            is_queued_of_claimed now t _ claimed,
            is_queued_of_is_due now' (clean_kinds excluded') t due,
          )
      | inr e ↦ e
    ]

-- A task that one claim returned is not returned by the next claim, whatever the times, the limits
-- and the exclusions, if the ids of the table are unique.
pub claim_not_repeated :
    (limit limit' now now' : ℕ) (excluded excluded' : List Text) (ts : List Task) (i j : WorkItem)
    → HasUniqueIds ts
    → Memᴰ i (claim_due_tasks limit now excluded ts).0
    → Memᴰ j (claim_due_tasks limit' now' excluded' (claim_due_tasks limit now excluded ts).1).0
    → text_eq i.task_id j.task_id ≡ false
claim_not_repeated limit limit' now now' excluded excluded' ts i j unique mi mj =
    let (s, ms, ei) = row_of_item limit now excluded ts i mi in
    let (t, mt, ej) =
      row_of_item limit' now' excluded' (claim_due_tasks limit now excluded ts).1 j mj in
    rw (ei, ej)
      (unfold claimed_item in
        due_rows_not_repeated limit limit' now now' excluded excluded' ts s t unique ms mt)

pub length-claim_due_tasks-le :
    (limit now : ℕ) (excluded : List Text) (ts : List Task)
    → length (claim_due_tasks limit now excluded ts).0 ≤ clamp_limit limit
length-claim_due_tasks-le limit now excluded ts = rw (items-claim_due_tasks limit now excluded ts) (
    rw (length-map claimed_item (due_rows limit now excluded ts))
      (length-due_rows-le limit now excluded ts))

-- The row of a selected task after the claim.
taken_row :
    (limit now : ℕ) (excluded : List Text) (ts : List Task) (t : Task)
    → HasUniqueIds ts
    → Memᴰ t (due_rows limit now excluded ts)
    → find_task t.task_id (claim_due_tasks limit now excluded ts).1 ≡ some (taken now t)
taken_row limit now excluded ts t unique m =
    let rows = due_rows limit now excluded ts in
    let (mt, due) = All-mem _ rows (due_rows_sound limit now excluded ts) t m in
    find_task-claim_due_tasks limit now excluded t.task_id ts
    ∙ rw
        (
          contains_id-mem t rows m,
          find_task-mem t ts unique mt,
          is_queued_of_is_due now (clean_kinds excluded) t due,
        )
        (ap some (mark_running-taken now t))

-- A claim on a table with unique ids returns at most 100 items, at most the limit if that is above
-- 0, and else one. Each is of a task of the table that is QUEUED, whose time has come and whose kind
-- is not excluded, with its attempts raised by one; the row of that task is then RUNNING with as
-- many attempts and the time of the claim.
pub claim_due_tasks_sound :
    (limit now : ℕ) (excluded : List Text) (ts : List Task)
    → HasUniqueIds ts
    → let (items, after) = claim_due_tasks limit now excluded ts in
      All
        (λ item.
          (t : Task) × Memᴰ t ts
          × IsWaiting now excluded t
          × (item ≡ item_of t)
          × (find_task t.task_id after ≡ some (taken now t)))
        items
      × (length items ≤ max 1 (min limit 100))
claim_due_tasks_sound limit now excluded ts unique =
    let rows = due_rows limit now excluded ts in
    rw (items-claim_due_tasks limit now excluded ts) (
      All-map _ _ claimed_item
          (λ t m. (
            t,
            (All-mem _ rows (due_rows_sound limit now excluded ts) t m).0,
            is_due→IsWaiting now excluded t
                (All-mem _ rows (due_rows_sound limit now excluded ts) t m).1,
            claimed_item-item_of t,
            taken_row limit now excluded ts t unique m,
          ))
          rows (mem-All _ rows (λ t m. m)),
      rw (length-map claimed_item rows)
          (unfold clamp_limit in length-due_rows-le limit now excluded ts),
    )

-- What a claim selects: as many rows as it may, and no row before one that comes first.
pub due_rows_first :
    (limit now : ℕ) (excluded : List Text) (ts : List Task) (t : Task)
    → Memᴰ t ts
    → IsWaiting now excluded t
    → let rows = due_rows limit now excluded ts in
      Memᴰ t rows
      ⊎ ((length rows ≡ max 1 (min limit 100)) × ((s : Task) → Memᴰ s rows → ComesFirst s t))
unfolding clamp_limit
due_rows_first limit now excluded ts t m waits =
    elim (due_rows_earliest_first limit now excluded ts t m
      (is_due-IsWaiting now excluded t waits)) [
        | inl selected ↦ inl selected
        | inr (full, before) ↦ inr (full, λ s ms. runs_before→ComesFirst s t (before s ms))
      ]
