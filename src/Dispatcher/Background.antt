-- ===== src/Dispatcher/Background.antt =====
-- manager/dispatcher.py, `BackgroundWorkDispatcher`: handlers run in the background, and a pass
-- collects what has finished and starts what fits.
pub mod InFlight
pub mod Holding
use machine_manager.Base.{
  ℕ, ◌+◌, ◌-◌, suc, min, Bool, true, false, Option, none, some, List, [], ◌∷◌, ◌++◌, ltb, leb, ◌==◌,
  if◌then◌else◌, length, keep, not, ◌||◌,
}
use machine_manager.Base.Exec.{Exec, pure, lift, try_except, modify, ◌>>=◌, ◌>>◌}
use machine_manager.Base.Result.{Result, ok, err, value_error, Error}
use machine_manager.Base.Text.{Text, text_eq}
use machine_manager.Store.Tasks.{WorkItem}
use machine_manager.Store.Events.{Metrics}
use machine_manager.Runtime.{Runtime, System, read_time, tick}
use machine_manager.Scheduler.{claim, defer}
use machine_manager.Dispatcher.{
  Outcome, Report, running, DispatchResult, Handler, Dispatcher, record_event,
}
use machine_manager.Dispatcher.Outcomes.{entry, apply_outcome, apply_error}
use machine_manager.Dispatcher.Sync.{result, record_claimed, defer_unhandled}

-- The dispatcher's state: the store, and the items whose handlers were started and are not
-- collected, in the order of `_pending`.
pub record Background : Type 0 where
  pub system : System
  pub pending : List WorkItem
  pub closed : Bool

-- `__init__`: the bound on the handlers in flight.
unfoldable pub in_flight_limit : ℕ → Option ℕ → Result ℕ
in_flight_limit workers limit = if ltb workers 1 then err value_error else elim limit [
  | none ↦ ok workers
  | some n ↦ if ltb n 1 || ltb workers n then err value_error else ok n
]

abbrev pub in_system : {A : Type 0} → Exec System A → Exec Background A
in_system m b = ((m b.system).0, record b { system = (m b.system).1 })

-- `self._pending[item.task_id] = …`: a key that is there keeps its place.
unfoldable pub put_pending : WorkItem → List WorkItem → List WorkItem
put_pending item [] = item ∷ []
put_pending item (i ∷ is) =
    if text_eq i.task_id item.task_id then item ∷ is else i ∷ put_pending item is

unfoldable pub remove_pending : Text → List WorkItem → List WorkItem
remove_pending id is = keep (λ i. not (text_eq i.task_id id)) is

-- The futures: whether the handler of an item has ended at a call, and how.
module _ (r : Runtime) (d : Dispatcher) (finished : ℕ → WorkItem → Option (Result Outcome)) where
  -- The `try` of `_collect_completed`.
  unfoldable pub settle_finished : Result Outcome → WorkItem → Exec System DispatchResult
  unfolding apply_outcome apply_error
  settle_finished ended item = do
    applied ←
        try_except (do o ← lift ended; now ← read_time r; apply_outcome r d item o now)
          (λ e. do now ← read_time r; apply_error r d item e now)
    pure (result r d item applied.0 applied.1)

  unfoldable pub collect_ended :
      Option (Result Outcome) → WorkItem → Exec Background (List DispatchResult)
  unfolding settle_finished remove_pending
  collect_ended none item = pure []
  collect_ended (some ended) item = do
    modify (λ b. record b { pending = remove_pending item.task_id b.pending })
    x ← in_system (settle_finished ended item)
    pure (x ∷ [])

  unfoldable pub collect_item : WorkItem → Exec Background (List DispatchResult)
  unfolding collect_ended
  collect_item item b =
      collect_ended (finished b.system.calls item) item (record b { system = tick b.system })

  unfoldable pub collect_items : List WorkItem → Exec Background (List DispatchResult)
  unfolding collect_item
  collect_items [] = pure []
  collect_items (item ∷ items) = do
    here ← collect_item item
    rest ← collect_items items
    pure (here ++ rest)

  -- `_collect_completed`
  unfoldable pub collect_completed : Exec Background (List DispatchResult)
  unfolding collect_items
  collect_completed b = collect_items b.pending b

  -- The body of the loop of `dispatch`, once the claim is recorded.
  unfoldable pub launch_handled : ℕ → Option Handler → WorkItem → Exec Background DispatchResult
  unfolding defer_unhandled put_pending
  launch_handled now none item = in_system (defer_unhandled r d item now)
  launch_handled now (some h) item = do
    modify (λ b. record b { pending = put_pending item b.pending })
    pure (result r d item running [])

  unfoldable pub launch_item : ℕ → WorkItem → Exec Background DispatchResult
  unfolding launch_handled record_claimed
  launch_item now item = do
    in_system (record_claimed r d item)
    launch_handled now (d.handlers item.kind) item

  unfoldable pub launch_items : ℕ → List WorkItem → Exec Background (List DispatchResult)
  unfolding launch_item
  launch_items now [] = pure []
  launch_items now (item ∷ items) = do
    x ← launch_item now item
    xs ← launch_items now items
    pure (x ∷ xs)

  -- `dispatch` after the collection: only as many tasks are claimed as there is room for.
  unfoldable pub fill_slots : ℕ → ℕ → ℕ → Exec Background (List DispatchResult)
  unfolding claim launch_items
  fill_slots limit max_in_flight now b =
      if leb max_in_flight (length b.pending)
      then (ok [], b)
      else (do
        items ←
            in_system (claim (min limit (max_in_flight - length b.pending)) now d.reserved_kinds)
        launch_items now items)
          b

  -- `dispatch` at the time that the caller gives.
  unfoldable pub dispatch_background : ℕ → ℕ → ℕ → Exec Background (List DispatchResult)
  unfolding collect_completed fill_slots
  dispatch_background limit max_in_flight now b =
      if b.closed
      then (ok [], b)
      else (do
        collected ← collect_completed
        started ← fill_slots limit max_in_flight now
        pure (collected ++ started))
          b

  -- The `try` of `close`; its exceptions are passed over.
  unfoldable pub requeue_item : ℕ → WorkItem → Exec Background Unit
  unfolding defer record_event
  requeue_item retry_at item = in_system (
      try_except
        (do
          defer r item.task_id retry_at
          record_event r d item (
              entry "queue_task_deferred" "QUEUED" "requeue_background_task" "dispatcher_closed" []
                []))
        (λ e. pure tt))

  unfoldable pub requeue_items : ℕ → List WorkItem → Exec Background Unit
  unfolding requeue_item
  requeue_items retry_at [] = pure tt
  requeue_items retry_at (item ∷ items) = do
    requeue_item retry_at item
    requeue_items retry_at items

  unfoldable pub close : Exec Background Unit
  unfolding collect_completed requeue_items
  close b =
      if b.closed
      then (ok tt, b)
      else (do
        collect_completed
        modify (λ c. record c { closed = true })
        retry_at ← in_system (read_time r)
        (λ c. requeue_items retry_at c.pending c)
        modify (λ c. record c { pending = [] }))
          b
