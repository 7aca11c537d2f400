-- ===== src/Examples/Dispatch.antt =====
-- A concrete pass of the dispatcher.
use machine_manager.Dispatcher.Background.InFlight.{in_flight_is_bounded}
use machine_manager.Dispatcher.Background.{Background, dispatch_background}
use machine_manager.Base.{
  ℕ, ◌≡◌, ◌≤◌, refl, false, List, [], ◌∷◌, Option, none, some, map, take, arith, length,
}
use machine_manager.Base.Result.{Result, ok}
use machine_manager.Base.Text.{Text, text, text_eq}
use machine_manager.Store.Tasks.{
  Task, WorkItem, claimed_item, claim_due_tasks, find_task, contains_id,
}
use machine_manager.Store.Tasks.Keys.{HasUniqueIds}
use machine_manager.Runtime.{Runtime, System}
use machine_manager.Dispatcher.{Outcome, DispatchResult, Handler, Dispatcher}
use machine_manager.Dispatcher.Sync.{dispatch}
use machine_manager.Dispatcher.Passes.{NoneRunning, dispatch_settles_all}
use machine_manager.Dispatcher.Budget.{IsBudgeted, dispatch-IsBudgeted}
use machine_manager.Examples.Queue.{waiting, late}

abbrev pub runtime : Runtime
runtime = record {
  utc_now = λ n. (48, []);
  time = λ n. n;
  uuid = λ n. n ∷ [];
  redact = λ t n. take n t;
}

abbrev retry_later : Outcome
retry_later = record {
  status = text "RETRY";
  retry_after = 5;
  metrics = [];
  public_message = text "busy";
}

abbrev pub handlers : Text → Option Handler
handlers kind = some (λ n item. ok retry_later)

abbrev pub dispatcher : Dispatcher
dispatcher = record {
  handlers = handlers;
  defer_delay = 60;
  max_attempts = 3;
  actor = text "queue-dispatcher";
  reserved_kinds = [];
}

abbrev tasks : List Task
tasks = waiting ∷ late ∷ []

abbrev pub system_with : List Task → System
system_with ts = record {
  store = record { tasks = ts; events = []; event_retention = 100; meta = []; contacts = [] };
  calls = 0;
}

tasks-NoneRunning : NoneRunning tasks
unfolding find_task
tasks-NoneRunning id t e = ground arith

tasks-HasUniqueIds : HasUniqueIds tasks
unfolding contains_id text_eq text
tasks-HasUniqueIds = (refl, (refl, tt))

tasks-IsBudgeted : IsBudgeted dispatcher tasks
unfolding find_task
tasks-IsBudgeted id t e handled q = ground arith

dispatch_settles_all_example :
    let items = (claim_due_tasks 10 20 dispatcher.reserved_kinds tasks).0 in
    let (answer, after) = dispatch runtime dispatcher 10 20 (system_with tasks) in
    (xs : List DispatchResult) × (answer ≡ ok xs)
    × (map (λ (x : DispatchResult). x.task_id) xs ≡ map (λ (i : WorkItem). i.task_id) items)
    × NoneRunning after.store.tasks
dispatch_settles_all_example =
    dispatch_settles_all runtime dispatcher 10 20 (system_with tasks) tasks-NoneRunning

dispatch-IsBudgeted_example :
    IsBudgeted dispatcher (dispatch runtime dispatcher 10 20 (system_with tasks)).1.store.tasks
dispatch-IsBudgeted_example =
    dispatch-IsBudgeted runtime dispatcher 10 20 (system_with tasks) tasks-HasUniqueIds
      tasks-IsBudgeted

-- One handler is in flight and has not ended; there is one slot.
abbrev background : Background
background = record {
  system = system_with tasks;
  pending = claimed_item waiting ∷ [];
  closed = false;
}

abbrev never_ends : ℕ → WorkItem → Option (Result Outcome)
never_ends n item = none

in_flight_example :
    length (dispatch_background runtime dispatcher never_ends 5 1 20 background).1.pending ≤ 1
in_flight_example =
    in_flight_is_bounded runtime dispatcher never_ends 5 1 20 background (omega arith)
