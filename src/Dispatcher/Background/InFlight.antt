-- ===== src/Dispatcher/Background/InFlight.antt =====
-- The bound on the handlers in flight.
use machine_manager.Dispatcher.Sync.{record_claimed}
use machine_manager.Base.{
  if_both, ℕ, ◌+◌, ◌-◌, ◌≤◌, suc, min, Option, none, some, List, [], ◌∷◌, ◌++◌, leb, length, arith,
  not, length-keep-le,
}
use machine_manager.Base.Exec.{Exec, pure, continue, ◌>>=◌}
use machine_manager.Base.Result.{Result, ok, err}
use machine_manager.Base.Text.{text_eq}
use machine_manager.Store.Tasks.{WorkItem, claim_due_tasks, clamp_limit}
use machine_manager.Store.Tasks.Claims.{length-claim_due_tasks-le}
use machine_manager.Runtime.{Runtime, System, tick}
use machine_manager.Scheduler.{claim}
use machine_manager.Dispatcher.{Outcome, DispatchResult, Handler, Dispatcher}
use machine_manager.Dispatcher.Background.{
  Background, put_pending, remove_pending, collect_ended, collect_item, collect_items,
  collect_completed, launch_handled, launch_item, launch_items, fill_slots, dispatch_background,
  in_system, settle_finished,
}

-- A method that leaves at most `n` more handlers in flight.
abbrev Adds : {A : Type 0} → ℕ → Exec Background A → Type 0
Adds n op = (b : Background) → length (op b).1.pending ≤ length b.pending + n

Adds-pure : {A : Type 0} (n : ℕ) (a : A) → Adds n (pure a)
Adds-pure n a b = omega arith

-- A chain adds what its parts add, also if the first part raises.
Adds-chain :
    {A B : Type 0} (m n : ℕ) (x : Exec Background A) (f : A → Exec Background B)
    → Adds m x
    → ((a : A) → Adds n (f a))
    → Adds (m + n) (x >>= f)
Adds-chain {A} {B} m n x f hx hf b = go (x b).0 (x b).1 (hx b)
  where
    go :
        (r : Result A) (c : Background)
        → length c.pending ≤ length b.pending + m
        → length (continue r f c).1.pending ≤ length b.pending + (m + n)
    go (ok a) c h = omega (arith, hf a c)
    go (err e) c h = omega arith

Adds-chain_pure :
    {A B : Type 0} (x : Exec Background A) (f : A → B) (b : Background)
    → length ((x >>= λ a. pure (f a)) b).1.pending ≤ length (x b).1.pending
Adds-chain_pure {A} {B} x f b = go (x b).0 (x b).1
  where
    go :
        (r : Result A) (c : Background)
        → length (continue r (λ a. pure (f a)) c).1.pending ≤ length c.pending
    go (ok a) c = omega arith
    go (err e) c = omega arith

length-put_pending :
    (item : WorkItem) (is : List WorkItem) → length (put_pending item is) ≤ suc (length is)
unfolding put_pending
length-put_pending item [] = omega arith
length-put_pending item (i ∷ is) = ground (arith, length-put_pending item is)

Adds-in_system : {A : Type 0} (m : Exec System A) → Adds 0 (in_system m)
Adds-in_system m b = omega arith

module _ (r : Runtime) (d : Dispatcher) (finished : ℕ → WorkItem → Option (Result Outcome)) where
  collect_ended-Adds :
      (ended : Option (Result Outcome)) (item : WorkItem)
      → Adds 0 (collect_ended r d finished ended item)
  unfolding collect_ended remove_pending
  collect_ended-Adds none item b = omega arith
  collect_ended-Adds (some ended) item b = omega (
    arith,
    Adds-chain 0 0 (in_system (settle_finished r d finished ended item)) (λ x. pure (x ∷ []))
        (Adds-in_system (settle_finished r d finished ended item)) (λ x. Adds-pure 0 (x ∷ []))
        (record b { pending = remove_pending item.task_id b.pending }),
    length-keep-le (λ i. not (text_eq i.task_id item.task_id)) b.pending,
  )

  collect_item-Adds : (item : WorkItem) → Adds 0 (collect_item r d finished item)
  unfolding collect_item
  collect_item-Adds item b =
      collect_ended-Adds (finished b.system.calls item) item (record b { system = tick b.system })

  collect_items-Adds : (items : List WorkItem) → Adds 0 (collect_items r d finished items)
  unfolding collect_items
  collect_items-Adds [] b = omega arith
  collect_items-Adds (item ∷ items) b =
      Adds-chain 0 0 (collect_item r d finished item)
        (λ here. collect_items r d finished items >>= λ rest. pure (here ++ rest))
        (collect_item-Adds item)
        (λ here.
          Adds-chain 0 0 (collect_items r d finished items) (λ rest. pure (here ++ rest))
            (collect_items-Adds items) (λ rest. Adds-pure 0 (here ++ rest)))
        b

  launch_handled-Adds :
      (now : ℕ) (h : Option Handler) (item : WorkItem)
      → Adds 1 (launch_handled r d finished now h item)
  unfolding launch_handled
  launch_handled-Adds now none item b = omega arith
  launch_handled-Adds now (some h) item b = omega (arith, length-put_pending item b.pending)

  launch_item-Adds : (now : ℕ) (item : WorkItem) → Adds 1 (launch_item r d finished now item)
  unfolding launch_item
  launch_item-Adds now item =
      Adds-chain 0 1 (in_system (record_claimed r d item))
        (λ _. launch_handled r d finished now (d.handlers item.kind) item)
        (Adds-in_system (record_claimed r d item))
        (λ _. launch_handled-Adds now (d.handlers item.kind) item)

  launch_items-Adds :
      (now : ℕ) (items : List WorkItem) → Adds (length items) (launch_items r d finished now items)
  unfolding launch_items
  launch_items-Adds now [] b = omega arith
  launch_items-Adds now (item ∷ items) b = omega (
    arith,
    Adds-chain 1 (length items) (launch_item r d finished now item)
        (λ x. launch_items r d finished now items >>= λ xs. pure (x ∷ xs))
        (launch_item-Adds now item)
        (λ x c. omega (
          arith,
          Adds-chain (length items) 0 (launch_items r d finished now items) (λ xs. pure (x ∷ xs))
              (launch_items-Adds now items) (λ xs. Adds-pure 0 (x ∷ xs)) c,
        ))
        b,
  )

  fill_slots_bounded :
      (limit max_in_flight now : ℕ) (b : Background)
      → length b.pending ≤ max_in_flight
      → length (fill_slots r d finished limit max_in_flight now b).1.pending ≤ max_in_flight
  unfolding fill_slots claim clamp_limit
  fill_slots_bounded limit max_in_flight now b h =
      let room = max_in_flight - length b.pending in
      let items = (claim_due_tasks (min limit room) now d.reserved_kinds b.system.store.tasks).0 in
      if_both {A = Result (List DispatchResult) × Background}
        (λ x. length x.1.pending ≤ max_in_flight) (leb max_in_flight (length b.pending)) (λ _. h)
        (λ e. ground (
          arith,
          launch_items-Adds now items
              ((in_system (claim (min limit room) now d.reserved_kinds) b).1),
          length-claim_due_tasks-le (min limit room) now d.reserved_kinds b.system.store.tasks,
        ))

  slots_after :
      (limit max_in_flight now : ℕ) (x : Result (List DispatchResult)) (b : Background)
      → length b.pending ≤ max_in_flight
      → length
          (continue x
            (λ collected. do
              started ← fill_slots r d finished limit max_in_flight now
              pure (collected ++ started))
            b).1.pending
        ≤ max_in_flight
  slots_after limit max_in_flight now (err e) b h = h
  slots_after limit max_in_flight now (ok collected) b h =
      let slots = fill_slots r d finished limit max_in_flight now in
      omega (
        arith,
        Adds-chain_pure slots (λ started. collected ++ started) b,
        fill_slots_bounded limit max_in_flight now b h,
      )

  -- A pass never has more handlers in flight than its limit, if there were no more before it,
  -- whichever of them have ended and however, and whatever number of tasks is asked for.
  pub in_flight_is_bounded :
      (limit max_in_flight now : ℕ) (b : Background)
      → length b.pending ≤ max_in_flight
      → length (dispatch_background r d finished limit max_in_flight now b).1.pending
        ≤ max_in_flight
  unfolding dispatch_background collect_completed
  in_flight_is_bounded limit max_in_flight now b h =
      let (x, c) = collect_items r d finished b.pending b in
      if_both {A = Result (List DispatchResult) × Background}
        (λ y. length y.1.pending ≤ max_in_flight) b.closed (λ _. h)
        (λ _.
          slots_after limit max_in_flight now x c
            (omega (arith, collect_items-Adds b.pending b, h)))
