-- ===== src/Dispatcher/Budget.antt =====
-- The retry budget: no handled task waits in the queue with its attempts used up.
use mathlib.Core.List.{Memᴰ}
use machine_manager.Base.{
  ℕ, ◌+◌, ◌<◌, ◌≡◌, refl, sym, ap, ◌∙◌, Bool, true, false, List, Option, none, some, arith, inl,
  inr, some_inj, All, All-imp, All-map, All-mem, mem-All,
}
use machine_manager.Base.Result.{Result, ok, err}
use machine_manager.Base.Text.{Text, text_eq, text_eq→eq}
use machine_manager.Store.Tasks.{
  Task, WorkItem, find_task, contains_id, is_queued, claimed_item, due_rows, claim_due_tasks,
  mark_running, with_status, clean_kinds,
}
use machine_manager.Store.Tasks.Keys.{HasUniqueIds, find_task-mem, contains_id-mem}
use machine_manager.Store.Tasks.Claims.{
  find_task-claim_due_tasks, claimed_row, items-claim_due_tasks, due_rows_sound,
  is_queued-claimed_row, is_queued_of_is_due,
}
use machine_manager.Scheduler.{claim}
use machine_manager.Runtime.{Runtime, System}
use machine_manager.Dispatcher.{Dispatcher, Outcome}
use machine_manager.Dispatcher.Fate.{Fate, ends, IsDue-again, apply_fate, fate, fate_of_verdict}
use machine_manager.Dispatcher.Outcomes.{verdict, Verdict}
use machine_manager.Dispatcher.Effects.{settle}
use machine_manager.Dispatcher.Passes.{find_task-settle, dispatch_items_rule, when_cases}
use machine_manager.Dispatcher.Sync.{dispatch}

abbrev pub is_handled : Dispatcher → Text → Bool
is_handled d kind = elim (d.handlers kind) [ none ↦ false | some h ↦ true ]

-- A QUEUED task of a handled kind has attempts left.
abbrev pub IsBudgeted : Dispatcher → List Task → Type 0
IsBudgeted d ts =
    (id : Text) (t : Task)
    → find_task id ts ≡ some t
    → is_handled d t.kind ≡ true
    → is_queued t.status ≡ true
    → t.attempts < d.max_attempts

-- The row of each item has the item's kind and attempts.
abbrev AreCurrent : List WorkItem → List Task → Type 0
AreCurrent items ts =
    All
      (λ (i : WorkItem).
        (t : Task)
        → find_task i.task_id ts ≡ some t
        → (t.kind ≡ i.kind) × (t.attempts ≡ i.attempts))
      items

-- A fate changes neither the kind nor the attempts of a task.
apply_fate_keeps :
    (f : Fate) (now : ℕ) (t : Task)
    → ((apply_fate f now t).kind ≡ t.kind) × ((apply_fate f now t).attempts ≡ t.attempts)
unfolding with_status
apply_fate_keeps (ends status) now t = (refl, refl)
apply_fate_keeps (IsDue-again at) now t = (refl, refl)

-- A fate that queues an item of a handled kind again leaves it attempts.
fate_budgeted :
    (d : Dispatcher) (item : WorkItem) (reply : Option (Result Outcome)) (current now : ℕ)
    (t : Task)
    → (reply ≡ none → d.handlers item.kind ≡ none)
    → is_handled d item.kind ≡ true
    → is_queued (apply_fate (fate d item reply current).1 now t).status ≡ true
    → item.attempts < d.max_attempts
unfolding with_status
fate_budgeted d item none current now t absent handled q = absurd (unhandled (absent refl))
  where
    unhandled : d.handlers item.kind ≡ none → ⊥
    unhandled e = cc (rw (e, is_handled) at handled)
fate_budgeted d item (some (err e)) current now t absent handled q = ground arith
fate_budgeted d item (some (ok o)) current now t absent handled q = of_verdict (verdict o.status) q
  where
    of_verdict :
        (v : Verdict)
        → is_queued (apply_fate (fate_of_verdict d item v o.retry_after current).1 now t).status
          ≡ true
        → item.attempts < d.max_attempts
    of_verdict Verdict.complete q = cc
    of_verdict _ q = ground arith

settle-AreCurrent :
    (row : Text) (items : List WorkItem) (f : Fate) (now : ℕ) (ts : List Task)
    → AreCurrent items ts
    → AreCurrent items (settle row f now ts)
settle-AreCurrent row items f now ts =
    All-imp _ _
      (λ i h t e.
        elim (when_cases (text_eq row i.task_id) (apply_fate f now) (find_task i.task_id ts) t
          (sym (find_task-settle row i.task_id f now ts) ∙ e)) [
            | inl (_, (u, found, same)) ↦
                let (kind, attempts) = h u found in
                let (kind', attempts') = apply_fate_keeps f now u in
                rw same (kind' ∙ kind, attempts' ∙ attempts)
            | inr (_, found) ↦ h t found
          ])
      items

settle-IsBudgeted :
    (d : Dispatcher) (item : WorkItem) (reply : Option (Result Outcome)) (current now : ℕ)
    (ts : List Task)
    → (reply ≡ none → d.handlers item.kind ≡ none)
    → ((t : Task)
        → find_task item.task_id ts ≡ some t
        → (t.kind ≡ item.kind) × (t.attempts ≡ item.attempts))
    → IsBudgeted d ts
    → IsBudgeted d (settle item.task_id (fate d item reply current).1 now ts)
settle-IsBudgeted d item reply current now ts absent row h id t e handled q =
    let f = (fate d item reply current).1 in
    elim (when_cases (text_eq item.task_id id) (apply_fate f now) (find_task id ts) t
      (sym (find_task-settle item.task_id id f now ts) ∙ e)) [
        | inl (b, (u, found, same)) ↦
            let (kind, attempts) = row u (rw (text_eq→eq item.task_id id b) found) in
            let (kind', attempts') = apply_fate_keeps f now u in
            let is_item : is_handled d item.kind ≡ true = rw (← kind, ← kind', ← same) handled in
            let waits : is_queued (apply_fate f now u).status ≡ true = rw (← same) q in
            rw (same, attempts', attempts)
              (fate_budgeted d item reply current now u absent is_item waits)
        | inr (_, found) ↦ h id t found handled q
      ]

-- The row of a claimed task after the claim.
row_of_claim :
    (limit now : ℕ) (excluded : List Text) (ts : List Task) (row : Task)
    → HasUniqueIds ts
    → Memᴰ row (due_rows limit now excluded ts)
    → (t : Task) → find_task row.task_id (claim_due_tasks limit now excluded ts).1 ≡ some t
    → (t.kind ≡ row.kind) × (t.attempts ≡ row.attempts + 1)
unfolding mark_running
row_of_claim limit now excluded ts row unique m t e =
    let rows = due_rows limit now excluded ts in
    let (in_table, due) = All-mem _ rows (due_rows_sound limit now excluded ts) row m in
    let found = find_task-claim_due_tasks limit now excluded row.task_id ts in
    let claimed : some (claimed_row now row) ≡ some t =
      rw (← e, found, contains_id-mem row rows m, find_task-mem row ts unique in_table) refl in
    let waits = is_queued_of_is_due now (clean_kinds excluded) row due in
    ground (arith, some_inj claimed)

claim-AreCurrent :
    (limit now : ℕ) (excluded : List Text) (ts : List Task)
    → HasUniqueIds ts
    → AreCurrent (claim_due_tasks limit now excluded ts).0 (claim_due_tasks limit now excluded ts).1
unfolding claimed_item
claim-AreCurrent limit now excluded ts unique =
    let rows = due_rows limit now excluded ts in
    rw (items-claim_due_tasks limit now excluded ts) (
      All-map _ _ claimed_item (λ row m. row_of_claim limit now excluded ts row unique m) rows
        (mem-All _ rows (λ row m. m)))

claim-IsBudgeted :
    (d : Dispatcher) (limit now : ℕ) (excluded : List Text) (ts : List Task)
    → IsBudgeted d ts
    → IsBudgeted d (claim_due_tasks limit now excluded ts).1
claim-IsBudgeted d limit now excluded ts h id t e handled q =
    elim (when_cases (contains_id id (due_rows limit now excluded ts)) (claimed_row now)
      (find_task id ts) t (sym (find_task-claim_due_tasks limit now excluded id ts) ∙ e)) [
        | inl (_, (u, _, same)) ↦
            cc (is_queued-claimed_row now u, ap (λ (x : Task). is_queued x.status) same, q)
        | inr (_, found) ↦ h id t found handled q
      ]

-- A pass keeps the retry budget: if the ids of the table are unique and each QUEUED task of a
-- handled kind has attempts left, that is so after the pass too, whatever the handlers reply.
pub dispatch-IsBudgeted :
    (r : Runtime) (d : Dispatcher) (limit now : ℕ) (s : System)
    → HasUniqueIds s.store.tasks
    → IsBudgeted d s.store.tasks
    → IsBudgeted d (dispatch r d limit now s).1.store.tasks
unfolding dispatch claim
dispatch-IsBudgeted r d limit now s unique h =
    let (items, claimed) = claim_due_tasks limit now d.reserved_kinds s.store.tasks in
    let (xs, _, _, done) =
      dispatch_items_rule r d now (λ is ts. AreCurrent is ts × IsBudgeted d ts)
        (λ item rest reply at ts absent inv. (
          settle-AreCurrent item.task_id rest (fate d item reply now).1 at ts inv.0.1,
          settle-IsBudgeted d item reply now at ts absent inv.0.0 inv.1,
        ))
        items (record s { store = record (s.store) { tasks = claimed } })
        (
          claim-AreCurrent limit now d.reserved_kinds s.store.tasks unique,
          claim-IsBudgeted d limit now d.reserved_kinds s.store.tasks h,
        ) in
    done.1
