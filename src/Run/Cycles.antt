-- ===== src/Run/Cycles.antt =====
-- A start of the manager after an interruption, and the cycles of its queue, in manager/run.py.
use mathlib.Core.Option
use machine_manager.Base.{
  ℕ, ◌≡◌, refl, ◌∙◌, sym, false, List, [], ◌∷◌, Option, none, some, ◌==◌, if_both, arith, some_inj,
}
use machine_manager.Base.Result.{Result, ok, err}
use machine_manager.Base.Exec.{Exec}
use machine_manager.Store.Events.{EventRow, append_event}
use machine_manager.Base.Text.{Text}
use machine_manager.Store.Tasks.{Task, WorkItem, is_running, find_task, requeue_running_tasks}
use machine_manager.Store.Tasks.Lifecycle.{requeued_row, requeue_running_tasks_lem}
use machine_manager.Runtime.{Runtime, System, append, tick, with_events}
use machine_manager.Scheduler.{recover_interrupted, with_tasks}
use machine_manager.Dispatcher.{Dispatcher, Outcome}
use machine_manager.Dispatcher.Background.{Background}
use machine_manager.Dispatcher.Background.Holding.{dispatch_background_holds}
use machine_manager.Dispatcher.Passes.{NoneRunning, OnlyRunning, dispatch_settles_all}
use machine_manager.Run.{
  DispatcherType, synchronous, background, recover_at_start, report_recovery, queue_cycle,
  queue_cycles,
}

requeue-NoneRunning : (now : ℕ) (ts : List Task) → NoneRunning (requeue_running_tasks now ts).1
requeue-NoneRunning now ts id t e =
    settled (find_task id ts) (sym ((requeue_running_tasks_lem now id ts).0) ∙ e)
  where
    settled :
        (o : Option Task) → Option.map (requeued_row now) o ≡ some t → is_running t.status ≡ false
    settled none h = cc
    settled (some u) h = rw (← some_inj h) (ground arith)

-- What a dispatcher leaves: a synchronous one no RUNNING task, a background one none that it does
-- not hold.
abbrev pub IsOrderly : DispatcherType → Background → Type 0
IsOrderly synchronous b = NoneRunning b.system.store.tasks
IsOrderly (background n) b = OnlyRunning b.pending b.system.store.tasks

module _ (r : Runtime) (d : Dispatcher) (finished : ℕ → WorkItem → Option (Result Outcome)) where
  cycle-IsOrderly :
      (by : DispatcherType) (limit now : ℕ) (b : Background)
      → IsOrderly by b
      → let (answer, after) = queue_cycle r d finished by limit now b in
        (answer ≡ ok tt) × IsOrderly by after
  unfolding queue_cycle
  cycle-IsOrderly synchronous limit now b idle =
      let (xs, e, _, after) = dispatch_settles_all r d limit now b.system idle in
      (rw (queue_cycle, e) refl, rw (queue_cycle, e) after)
  cycle-IsOrderly (background n) limit now b held =
      let (xs, e, after) = dispatch_background_holds r d finished limit n now b held in
      (rw (queue_cycle, e) refl, rw (queue_cycle, e) after)

  cycles-IsOrderly :
      (by : DispatcherType) (cycles : List (ℕ × ℕ)) (b : Background)
      → IsOrderly by b
      → let (answer, after) = queue_cycles r d finished by cycles b in
        (answer ≡ ok tt) × IsOrderly by after
  unfolding queue_cycles
  cycles-IsOrderly by [] b h = (refl, h)
  cycles-IsOrderly by ((limit, now) ∷ cycles) b h =
      let (e, after) = cycle-IsOrderly by limit now b h in
      let c = (queue_cycle r d finished by limit now b).1 in
      let (e', after') = cycles-IsOrderly by cycles c after in
      (rw (queue_cycles, e) e', rw (queue_cycles, e) after')

  -- Where nothing is RUNNING, either dispatcher is orderly.
  idle-IsOrderly :
      (by : DispatcherType) (b : Background) → NoneRunning b.system.store.tasks → IsOrderly by b
  idle-IsOrderly synchronous b idle = idle
  idle-IsOrderly (background n) b idle = λ id t found run. cc (idle id t found, run)

module _ (r : Runtime) (d : Dispatcher) (finished : ℕ → WorkItem → Option (Result Outcome)) where
  reported-NoneRunning :
      (actor objective : Text) (count : ℕ) (s : System)
      → NoneRunning s.store.tasks
      → NoneRunning (report_recovery r actor objective count s).1.store.tasks
  unfolding append
  reported-NoneRunning actor objective count s idle =
      written (append_event s.store.event_retention _ s.store.events)
    where
      written :
          (rows : Result (List EventRow))
          → NoneRunning (with_events (tick (tick s)) rows).1.store.tasks
      written (ok rows) = idle
      written (err e) = idle

  recovered-NoneRunning :
      (actor objective : Text) (s : System)
      → NoneRunning (recover_at_start r actor objective s).1.store.tasks
  unfolding recover_at_start recover_interrupted append
  recovered-NoneRunning actor objective s =
      let (count, after) = requeue_running_tasks (r.time s.calls) s.store.tasks in
      let idle = requeue-NoneRunning (r.time s.calls) s.store.tasks in
      if_both (λ (m : Exec System Unit). NoneRunning (m (with_tasks (tick s) after)).1.store.tasks)
        (count == 0) (λ _. idle)
        (λ _. reported-NoneRunning actor objective count (with_tasks (tick s) after) idle)

  -- After a start, which puts the tasks of an interrupted run back, no task is RUNNING. Any number of
  -- cycles of the queue return, whatever the handlers reply; then again no task is RUNNING where the
  -- dispatcher is synchronous, and where it works in the background, each RUNNING task is one whose
  -- handler the dispatcher has started and not collected.
  pub restart_leaves-IsOrderly :
      (by : DispatcherType) (actor objective : Text) (cycles : List (ℕ × ℕ)) (s : System)
      → let started = (recover_at_start r actor objective s).1 in
        let fresh : Background = record { system = started; pending = []; closed = false } in
        let (answer, after) = queue_cycles r d finished by cycles fresh in
        NoneRunning started.store.tasks × (answer ≡ ok tt) × IsOrderly by after
  restart_leaves-IsOrderly by actor objective cycles s =
      let started = (recover_at_start r actor objective s).1 in
      let fresh : Background = record { system = started; pending = []; closed = false } in
      let idle = recovered-NoneRunning actor objective s in
      let (e, after) =
        cycles-IsOrderly r d finished by cycles fresh (idle-IsOrderly r d finished by fresh idle) in
      (idle, e, after)
