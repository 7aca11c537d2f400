-- ===== src/Dispatcher/Background/Holding.antt =====
-- Every RUNNING task is held by a background dispatcher: a pass keeps it so, and returns.
use machine_manager.Base.{
  ℕ, ◌+◌, suc, ◌≡◌, refl, sym, ◌∙◌, true, false, ◌||◌, Option, none, some, List, [], ◌∷◌, ◌++◌,
  keep, leb, min, ◌-◌, length, arith, Bool-cases, inl, inr, if_both, max,
}
use machine_manager.Base.Exec.{Exec, pure, handle, continue, ◌>>=◌}
use machine_manager.Base.Result.{Result, Error, ok, err, value_error}
use machine_manager.Base.Text.{Text, text, text_eq, text_eq→eq}
use machine_manager.Store.Tasks.{
  Status, Task, WorkItem, find_task, contains_id, is_running, due_rows, claim_due_tasks,
  finish_task, with_status,
}
use machine_manager.Store.Tasks.Claims.{
  find_task-claim_due_tasks, claimed_row, items-claim_due_tasks,
}
use machine_manager.Store.Events.{append_event}
use machine_manager.Scheduler.{claim}
use machine_manager.Runtime.{Runtime, System, tick, read_time}
use machine_manager.Dispatcher.{Outcome, DispatchResult, Handler, Dispatcher}
use machine_manager.Dispatcher.Fate.{Fate, ends, IsDue-again, bounded_retry, apply_fate}
use machine_manager.Dispatcher.Outcomes.{
  Verdict, complete, retry, failed, escalated, unsupported, verdict, apply_verdict, apply_error,
}
use machine_manager.Dispatcher.Effects.{settle, apply_error-Settles, apply_retry-Settles}
use machine_manager.Dispatcher.Sync.{result, record_claimed, defer_unhandled}
use machine_manager.Dispatcher.Settling.{defer_unhandled-Meets}
use machine_manager.Dispatcher.Passes.{
  id_in, OnlyRunning, when_cases, settle-OnlyRunning, id_in-claimed,
}
use machine_manager.Dispatcher.Background.{
  Background, put_pending, remove_pending, settle_finished, collect_ended, collect_item,
  collect_items, collect_completed, launch_handled, launch_item, launch_items, fill_slots,
  dispatch_background, in_system,
}

-- A method returned, and left a state with a property.
abbrev Returns : {A S : Type 0} → (S → Type 0) → Result A × S → Type 0
Returns {A} P (answer, after) = (a : A) × (answer ≡ ok a) × P after

Returns-chain :
    {A B S : Type 0} (P Q : S → Type 0) (f : A → Exec S B) (x : Result A) (s : S)
    → Returns P (x, s)
    → ((a : A) → P s → Returns Q (f a s))
    → Returns Q (continue x f s)
Returns-chain P Q f (ok a) s (b, e, p) next = next a p
Returns-chain P Q f (err e) s (b, h, p) next = cc h

-- The RUNNING tasks are pending, or among the given items.
abbrev IsHeld : List WorkItem → Background → Type 0
IsHeld items b = OnlyRunning (items ++ b.pending) b.system.store.tasks

id_in-append :
    (id : Text) (is js : List WorkItem) → id_in id (is ++ js) ≡ (id_in id is || id_in id js)
unfolding id_in
id_in-append id [] js = refl
id_in-append id (i ∷ is) js = ground (arith, id_in-append id is js)

id_in-put_pending :
    (id : Text) (item : WorkItem) (is : List WorkItem)
    → id_in id (put_pending item is) ≡ (text_eq item.task_id id || id_in id is)
unfolding id_in put_pending
id_in-put_pending id item [] = refl
id_in-put_pending id item (i ∷ is) = elim (Bool-cases (text_eq i.task_id item.task_id)) [
  | inl e ↦ rw (e, text_eq→eq i.task_id item.task_id e) (ground arith)
  | inr e ↦ rw (e, id_in-put_pending id item is) (ground arith)
]

-- Whoever is in a list is the item that is removed from it, or is left.
id_in-remove_pending :
    (id : Text) (item : WorkItem) (is : List WorkItem)
    → id_in id is ≡ true
    → id_in id (item ∷ remove_pending item.task_id is) ≡ true
unfolding id_in remove_pending keep
id_in-remove_pending id item [] h = cc
id_in-remove_pending id item (i ∷ is) h = elim (Bool-cases (text_eq i.task_id item.task_id)) [
  | inl e ↦ elim (Bool-cases (text_eq item.task_id id)) [
    | inl f ↦ rw f refl
    | inr f ↦
        let later =
          id_in-remove_pending id item is (rw (text_eq→eq i.task_id item.task_id e, f) at h) in
        rw (e, f) (rw f at later)
  ]
  | inr e ↦ ground (arith, id_in-remove_pending id item is)
]

module _ (r : Runtime) (d : Dispatcher) (finished : ℕ → WorkItem → Option (Result Outcome)) where
  -- A task is settled: it is no longer RUNNING, and no other task is touched.
  abbrev IsSettled : WorkItem → List Task → System → Type 0
  IsSettled item ts after =
      (f : Fate) × (now : ℕ) × ((t : Task) → is_running (apply_fate f now t).status ≡ false)
      × (after.store.tasks ≡ settle item.task_id f now ts)

  bounded_retry_settles :
      (item : WorkItem) (at now : ℕ) (t : Task)
      → is_running (apply_fate (bounded_retry d item at).1 now t).status ≡ false
  unfolding with_status
  bounded_retry_settles item at now t = ground arith

  settle_error :
      (item : WorkItem) (e : Error) (s : System)
      → Returns
          (IsSettled item s.store.tasks)
          ((read_time r >>= λ now. apply_error r d item e now) s)
  settle_error item e s =
      let (m, answered, table) = apply_error-Settles r d item (r.time s.calls) (tick s) e in
      (_, answered, (_, r.time (suc s.calls), bounded_retry_settles item _ _, table))

  settle_verdict :
      (item : WorkItem) (v : Verdict) (o : Outcome) (now : ℕ) (s : System)
      → let (answer, after) = apply_verdict r d v item o now s in
        Returns
          (IsSettled item s.store.tasks)
          (handle answer (λ e. read_time r >>= λ at. apply_error r d item e at) after)
  unfolding apply_verdict append_event text finish_task with_status
  settle_verdict item complete o now s = (_, refl, (ends Status.complete, _, λ t. refl, refl))
  settle_verdict item failed o now s = (_, refl, (ends Status.failed, _, λ t. refl, refl))
  settle_verdict item escalated o now s = (_, refl, (ends Status.escalated, _, λ t. refl, refl))
  settle_verdict item retry o now s =
      let (m, answered, table) = apply_retry-Settles r d item now s o in
      let (report, f) = bounded_retry d item (now + max 100 o.retry_after) in
      (
        (report, m),
        rw answered,
        (
          f,
          r.time s.calls,
          bounded_retry_settles item (now + max 100 o.retry_after) (r.time s.calls),
          rw answered table,
        ),
      )
  settle_verdict item unsupported o now s = settle_error item value_error s

  settle_finished-IsSettled :
      (ended : Result Outcome) (item : WorkItem) (s : System)
      → Returns (IsSettled item s.store.tasks) (settle_finished r d finished ended item s)
  unfolding settle_finished
  settle_finished-IsSettled (ok o) item s =
      let now = r.time s.calls in
      let (answer, after) = apply_verdict r d (verdict o.status) item o now (tick s) in
      let (x, u) = handle answer (λ e. read_time r >>= λ at. apply_error r d item e at) after in
      Returns-chain (IsSettled item s.store.tasks) (IsSettled item s.store.tasks) _ x u
        (settle_verdict item (verdict o.status) o now (tick s))
        (λ a p. (result r d item a.0 a.1, refl, p))
  settle_finished-IsSettled (err e) item s =
      let (x, u) = (read_time r >>= λ now. apply_error r d item e now) s in
      Returns-chain (IsSettled item s.store.tasks) (IsSettled item s.store.tasks) _ x u
        (settle_error item e s) (λ a p. (result r d item a.0 a.1, refl, p))

  -- What was held by an item or is pending, and is settled, is held without it.
  settled-IsHeld :
      (item : WorkItem) (items : List WorkItem) (ts : List Task) (b : Background)
      → OnlyRunning (item ∷ items ++ b.pending) ts
      → IsSettled item ts b.system
      → IsHeld items b
  settled-IsHeld item items ts b h (f, now, stops, table) =
      rw table (settle-OnlyRunning item (items ++ b.pending) f now ts stops h)

  collect_ended-IsHeld :
      (ended : Option (Result Outcome)) (item : WorkItem) (b : Background)
      → IsHeld [] b
      → Returns (IsHeld []) (collect_ended r d finished ended item b)
  unfolding collect_ended
  collect_ended-IsHeld none item b h = ([], refl, h)
  collect_ended-IsHeld (some ended) item b h =
      let c : Background = record b { pending = remove_pending item.task_id b.pending } in
      let (x, u) = settle_finished r d finished ended item b.system in
      let (y, e, p) = settle_finished-IsSettled ended item b.system in
      Returns-chain (λ (a : Background). IsSettled item b.system.store.tasks a.system) (IsHeld [])
        (λ y. pure (y ∷ [])) x (record c { system = u }) (y, e, p)
        (λ y q. (
          y ∷ [],
          refl,
          settled-IsHeld item [] b.system.store.tasks (record c { system = u })
              (λ id t found run. id_in-remove_pending id item b.pending (h id t found run)) q,
        ))

  collect_items-IsHeld :
      (items : List WorkItem) (b : Background)
      → IsHeld [] b
      → Returns (IsHeld []) (collect_items r d finished items b)
  unfolding collect_items collect_item
  collect_items-IsHeld [] b h = ([], refl, h)
  collect_items-IsHeld (item ∷ items) b h =
      let (x, c) = collect_item r d finished item b in
      Returns-chain (IsHeld []) (IsHeld []) _ x c
        (collect_ended-IsHeld (finished b.system.calls item) item
          (record b { system = tick b.system }) h)
        (λ here held.
          let (y, e) = collect_items r d finished items c in
          Returns-chain (IsHeld []) (IsHeld []) (λ rest. pure (here ++ rest)) y e
            (collect_items-IsHeld items c held) (λ rest done. (here ++ rest, refl, done)))

  record_claimed_lem :
      (item : WorkItem) (s : System)
      → ((record_claimed r d item s).0 ≡ ok tt)
        × ((record_claimed r d item s).1.store.tasks ≡ s.store.tasks)
  unfolding record_claimed append_event text
  record_claimed_lem item s = (refl, refl)

  launch_handled-IsHeld :
      (now : ℕ) (handler : Option Handler) (item : WorkItem) (items : List WorkItem)
      (b : Background)
      → IsHeld (item ∷ items) b
      → Returns (IsHeld items) (launch_handled r d finished now handler item b)
  unfolding launch_handled with_status id_in
  launch_handled-IsHeld now none item items b h =
      let (x, answered, _, _, _, table) = defer_unhandled-Meets r d item now b.system in
      (
        x,
        answered,
        settled-IsHeld item items b.system.store.tasks
            (record b { system = (defer_unhandled r d item now b.system).1 }) h
            (IsDue-again (now + d.defer_delay), r.time b.system.calls, (λ t. refl), table),
      )
  launch_handled-IsHeld now (some f) item items b h = (
    _,
    refl,
    λ id t found run.
        rw (id_in-append id items (put_pending item b.pending), id_in-put_pending id item b.pending)
          (ground (arith, h id t found run, id_in-append id items b.pending)),
  )

  launch_item-IsHeld :
      (now : ℕ) (item : WorkItem) (items : List WorkItem) (b : Background)
      → IsHeld (item ∷ items) b
      → Returns (IsHeld items) (launch_item r d finished now item b)
  unfolding launch_item
  launch_item-IsHeld now item items b h =
      let (e, table) = record_claimed_lem item b.system in
      let c : Background = record b { system = (record_claimed r d item b.system).1 } in
      Returns-chain (IsHeld (item ∷ items)) (IsHeld items) _ (record_claimed r d item b.system).0 c
        (tt, e, λ id t found run. h id t (rw (← table) found) run)
        (λ _ held. launch_handled-IsHeld now (d.handlers item.kind) item items c held)

  launch_items-IsHeld :
      (now : ℕ) (items : List WorkItem) (b : Background)
      → IsHeld items b
      → Returns (IsHeld []) (launch_items r d finished now items b)
  unfolding launch_items
  launch_items-IsHeld now [] b h = ([], refl, h)
  launch_items-IsHeld now (item ∷ items) b h =
      let (x, c) = launch_item r d finished now item b in
      Returns-chain (IsHeld items) (IsHeld []) _ x c (launch_item-IsHeld now item items b h)
        (λ a held.
          let (y, e) = launch_items r d finished now items c in
          Returns-chain (IsHeld []) (IsHeld []) (λ xs. pure (a ∷ xs)) y e
            (launch_items-IsHeld now items c held) (λ xs done. (a ∷ xs, refl, done)))

-- A claim holds what it marks RUNNING.
claim_holds :
    (limit now : ℕ) (excluded : List Text) (pending : List WorkItem) (ts : List Task)
    → OnlyRunning pending ts
    → let (items, after) = claim_due_tasks limit now excluded ts in
      OnlyRunning (items ++ pending) after
claim_holds limit now excluded pending ts h id t e run =
    let rows = due_rows limit now excluded ts in
    rw
      (
        id_in-append id (claim_due_tasks limit now excluded ts).0 pending,
        items-claim_due_tasks limit now excluded ts,
        id_in-claimed id rows,
      )
      (elim (when_cases (contains_id id rows) (claimed_row now) (find_task id ts) t
        (sym (find_task-claim_due_tasks limit now excluded id ts) ∙ e)) [
          | inl (b, _) ↦ rw b refl
          | inr (b, found) ↦ rw b (h id t found run)
        ])

module _ (r : Runtime) (d : Dispatcher) (finished : ℕ → WorkItem → Option (Result Outcome)) where
  fill_slots-IsHeld :
      (limit max_in_flight now : ℕ) (b : Background)
      → IsHeld [] b
      → Returns (IsHeld []) (fill_slots r d finished limit max_in_flight now b)
  unfolding fill_slots claim
  fill_slots-IsHeld limit max_in_flight now b h =
      let room = min limit (max_in_flight - length b.pending) in
      let ts = b.system.store.tasks in
      let (items, c) = in_system (claim room now d.reserved_kinds) b in
      if_both {A = Result (List DispatchResult) × Background} (Returns (IsHeld []))
        (leb max_in_flight (length b.pending)) (λ _. ([], refl, h))
        (λ _.
          launch_items-IsHeld r d finished now (claim_due_tasks room now d.reserved_kinds ts).0 c
            (claim_holds room now d.reserved_kinds b.pending ts h))

  -- A pass of the background dispatcher always returns, and if every RUNNING task of the table was
  -- held by it, it holds every RUNNING task afterwards.
  pub dispatch_background_holds :
      (limit max_in_flight now : ℕ) (b : Background)
      → OnlyRunning b.pending b.system.store.tasks
      → let (answer, after) = dispatch_background r d finished limit max_in_flight now b in
        (xs : List DispatchResult) × (answer ≡ ok xs)
        × OnlyRunning after.pending after.system.store.tasks
  unfolding dispatch_background collect_completed
  dispatch_background_holds limit max_in_flight now b h =
      let (x, c) = collect_items r d finished b.pending b in
      if_both {A = Result (List DispatchResult) × Background} (Returns (IsHeld [])) b.closed
        (λ _. ([], refl, h))
        (λ _.
          Returns-chain (IsHeld []) (IsHeld []) _ x c
            (collect_items-IsHeld r d finished b.pending b h)
            (λ collected held.
              let (y, e) = fill_slots r d finished limit max_in_flight now c in
              Returns-chain (IsHeld []) (IsHeld []) (λ started. pure (collected ++ started)) y e
                (fill_slots-IsHeld limit max_in_flight now c held)
                (λ started done. (collected ++ started, refl, done))))
