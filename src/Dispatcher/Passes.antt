-- ===== src/Dispatcher/Passes.antt =====
-- A whole pass of the synchronous dispatcher over the items that it claimed.
use mathlib.Core.Path.{ap₂}
use mathlib.Core.Option
use machine_manager.Base.{
  ℕ, suc, ◌≡◌, refl, sym, ap, ◌∙◌, Bool, true, false, List, [], ◌∷◌, Option, none, some, arith,
  if◌then◌else◌, Bool-cases, inl, inr, map, ◌||◌, ◌&&◌, some_inj, ◌⊎◌,
}
use machine_manager.Base.Result.{Result, ok, err}
use machine_manager.Base.Text.{Text, text_eq}
use machine_manager.Store.Tasks.{
  Status, Task, WorkItem, find_task, contains_id, is_running, claimed_item, due_rows,
  claim_due_tasks, has_id, with_status,
}
use machine_manager.Store.Tasks.Keys.{find_task-update_id, task_id-with_status}
use machine_manager.Store.Tasks.Claims.{
  find_task-claim_due_tasks, claimed_row, when, items-claim_due_tasks,
}
use machine_manager.Scheduler.{claim}
use machine_manager.Runtime.{Runtime, System}
use machine_manager.Dispatcher.{Dispatcher, DispatchResult, Outcome, Handler}
use machine_manager.Dispatcher.Fate.{Fate, ends, IsDue-again, apply_fate, fate, fate_of_verdict}
use machine_manager.Dispatcher.Outcomes.{verdict, Verdict}
use machine_manager.Dispatcher.Effects.{settle}
use machine_manager.Dispatcher.Settling.{reply_to, dispatch_item-Meets}
use machine_manager.Dispatcher.Sync.{dispatch_item, dispatch_items, dispatch}

task_id-apply_fate : (f : Fate) (now : ℕ) (t : Task) → (apply_fate f now t).task_id ≡ t.task_id
task_id-apply_fate (ends status) now t = task_id-with_status status none now t
task_id-apply_fate (IsDue-again at) now t = task_id-with_status Status.queued (some at) now t

-- The row of an id after one task has met its fate.
pub find_task-settle :
    (row id : Text) (f : Fate) (now : ℕ) (ts : List Task)
    → find_task id (settle row f now ts)
      ≡ when (text_eq row id) (apply_fate f now) (find_task id ts)
unfolding has_id
find_task-settle row id f now ts =
    rw
      (find_task-update_id (has_id row) (apply_fate f now) (task_id-apply_fate f now) row
        (λ t. true) (λ t. ground arith) id ts)
      (at_row (text_eq row id) (find_task id ts))
  where
    at_row :
        (b : Bool) (o : Option Task)
        → Option.map (λ t. if b && true then apply_fate f now t else t) o
          ≡ when b (apply_fate f now) o
    at_row b none = refl
    at_row true (some t) = refl
    at_row false (some t) = refl

-- No fate leaves a task RUNNING.
pub fate_settles :
    (d : Dispatcher) (item : WorkItem) (reply : Option (Result Outcome)) (current now : ℕ)
    (t : Task)
    → is_running (apply_fate (fate d item reply current).1 now t).status ≡ false
unfolding with_status
fate_settles d item none current now t = refl
fate_settles d item (some (err e)) current now t = ground arith
fate_settles d item (some (ok o)) current now t = of_verdict (verdict o.status)
  where
    of_verdict :
        (v : Verdict)
        → is_running (apply_fate (fate_of_verdict d item v o.retry_after current).1 now t).status
          ≡ false
    of_verdict Verdict.complete = refl
    of_verdict _ = ground arith

unfoldable pub id_in : Text → List WorkItem → Bool
id_in id [] = false
id_in id (i ∷ is) = text_eq i.task_id id || id_in id is

-- Every RUNNING row is one of the given items.
abbrev pub OnlyRunning : List WorkItem → List Task → Type 0
OnlyRunning items ts =
    (id : Text) (t : Task)
    → find_task id ts ≡ some t
    → is_running t.status ≡ true
    → id_in id items ≡ true

pub when_cases :
    (b : Bool) (f : Task → Task) (o : Option Task) (t : Task)
    → when b f o ≡ some t
    → ((b ≡ true) × ((u : Task) × (o ≡ some u) × (t ≡ f u))) ⊎ ((b ≡ false) × (o ≡ some t))
when_cases b f none t e = cc
when_cases true f (some u) t e = inl (refl, (u, refl, sym (some_inj e)))
when_cases false f (some u) t e = inr (refl, e)

pub settle-OnlyRunning :
    (item : WorkItem) (items : List WorkItem) (f : Fate) (now : ℕ) (ts : List Task)
    → ((t : Task) → is_running (apply_fate f now t).status ≡ false)
    → OnlyRunning (item ∷ items) ts
    → OnlyRunning items (settle item.task_id f now ts)
unfolding id_in
settle-OnlyRunning item items f now ts stops h id t e run =
    elim (when_cases (text_eq item.task_id id) (apply_fate f now) (find_task id ts) t
      (sym (find_task-settle item.task_id id f now ts) ∙ e)) [
        | inl (b, (u, found, same)) ↦ cc (stops u, ap (λ (x : Task). is_running x.status) same, run)
        | inr (b, found) ↦ ground (arith, h id t found run)
      ]

module _ (r : Runtime) (d : Dispatcher) (current : ℕ) where
  -- The results of a loop over items, and what it leaves.
  abbrev pub Loops :
      List WorkItem → (List Task → Type 0) → Result (List DispatchResult) × System → Type 0
  Loops items P (answer, after) =
      (xs : List DispatchResult) × (answer ≡ ok xs)
      × (map (λ (x : DispatchResult). x.task_id) xs ≡ map (λ (i : WorkItem). i.task_id) items)
      × P after.store.tasks

  -- A rule for the loop: an invariant that the fate of each item keeps.
  pub dispatch_items_rule :
      (I : List WorkItem → List Task → Type 0)
      → ((item : WorkItem) (items : List WorkItem) (reply : Option (Result Outcome)) (now : ℕ)
            (ts : List Task)
          → (reply ≡ none → d.handlers item.kind ≡ none)
          → I (item ∷ items) ts
          → I items (settle item.task_id (fate d item reply current).1 now ts))
      → (items : List WorkItem) (s : System) → I items s.store.tasks
      → Loops items (I []) (dispatch_items r d current items s)
  unfolding dispatch_items
  dispatch_items_rule I step [] s h = ([], refl, refl, h)
  dispatch_items_rule I step (item ∷ items) s h =
      let (now, met) = dispatch_item-Meets r d item current s in
      let (x, answered, id, _, _, table) = met in
      let s' = (dispatch_item r d current item s).1 in
      let kept : I items s'.store.tasks = rw table (
        step item items (reply_to r d item current s) now s.store.tasks
          (unanswered (d.handlers item.kind)) h) in
      let (xs, looped, ids, done) = dispatch_items_rule I step items s' kept in
      (x ∷ xs, rw (answered, looped), ap₂ (λ a b. a ∷ b) id ids, rw (answered, looped) done)
    where
      unanswered :
          (h : Option Handler) → Option.map (λ f. f (suc (suc s.calls)) item) h ≡ none → h ≡ none
      unanswered none e = refl
      unanswered (some f) e = cc

pub id_in-claimed :
    (id : Text) (rows : List Task) → id_in id (map claimed_item rows) ≡ contains_id id rows
unfolding id_in contains_id claimed_item
id_in-claimed id [] = refl
id_in-claimed id (row ∷ rows) = ap (λ b. text_eq row.task_id id || b) (id_in-claimed id rows)

-- No row of the table is RUNNING.
abbrev pub NoneRunning : List Task → Type 0
NoneRunning ts = (id : Text) (t : Task) → find_task id ts ≡ some t → is_running t.status ≡ false

claim-OnlyRunning :
    (limit now : ℕ) (excluded : List Text) (ts : List Task)
    → NoneRunning ts
    → OnlyRunning
        (claim_due_tasks limit now excluded ts).0
        (claim_due_tasks limit now excluded ts).1
claim-OnlyRunning limit now excluded ts idle id t e run =
    let rows = due_rows limit now excluded ts in
    rw (items-claim_due_tasks limit now excluded ts, id_in-claimed id rows)
      (elim (when_cases (contains_id id rows) (claimed_row now) (find_task id ts) t
        (sym (find_task-claim_due_tasks limit now excluded id ts) ∙ e)) [
          | inl (b, _) ↦ b
          | inr (_, found) ↦ cc (idle id t found)
        ])

-- A pass over a queue with nothing RUNNING always returns, with one result for each claimed task
-- in the order of the claim, and leaves no task RUNNING: each is finished, or queued again.
pub dispatch_settles_all :
    (r : Runtime) (d : Dispatcher) (limit now : ℕ) (s : System)
    → NoneRunning s.store.tasks
    → let items = (claim_due_tasks limit now d.reserved_kinds s.store.tasks).0 in
      let (answer, after) = dispatch r d limit now s in
      (xs : List DispatchResult) × (answer ≡ ok xs)
      × (map (λ (x : DispatchResult). x.task_id) xs ≡ map (λ (i : WorkItem). i.task_id) items)
      × NoneRunning after.store.tasks
unfolding dispatch claim id_in
dispatch_settles_all r d limit now s idle =
    let (items, claimed) = claim_due_tasks limit now d.reserved_kinds s.store.tasks in
    let (xs, done, ids, only) =
      dispatch_items_rule r d now OnlyRunning
        (λ item rest reply at ts _.
          settle-OnlyRunning item rest (fate d item reply now).1 at ts
            (fate_settles d item reply now at))
        items (record s { store = record (s.store) { tasks = claimed } })
        (claim-OnlyRunning limit now d.reserved_kinds s.store.tasks idle) in
    (xs, done, ids, λ id t e. no_item (Bool-cases (is_running t.status)) (only id t e))
  where
    no_item : {b : Bool} → (b ≡ true) ⊎ (b ≡ false) → (b ≡ true → false ≡ true) → b ≡ false
    no_item (inl e) h = cc (h e)
    no_item (inr e) h = e
