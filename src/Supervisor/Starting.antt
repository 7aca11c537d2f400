-- ===== src/Supervisor/Starting.antt =====
-- manager/supervisor.py: adopting, spawning and starting a worker. A method that may raise returns
-- a `Result` beside the supervisor that it leaves.
use machine_manager.Base.{
  ℕ, ◌+◌, suc, Bool, true, false, Option, none, some, String, ◌==◌, if◌then◌else◌,
}
use machine_manager.Base.Result.{Result, ok, err, Error, runtime_error}
use machine_manager.Base.Text.{Text, text}
use machine_manager.Supervisor.{
  JobState, queued, starting, verifying, failed, retrying, healthy, Os, holds, Detail, no_detail,
  started_worker, Supervisor,
}
use machine_manager.Supervisor.Process.{
  tick, Note, transition, clear_pid_file, read_pid_file, close_streams, terminate_process,
  read_health,
}

abbrev pub plain_note : String → Option Text → Option Text → Note
plain_note event_type action outcome = record {
  event_type = text event_type;
  detail = no_detail;
  action = action;
  outcome = outcome;
  error = none;
}

abbrev pub detailed : Detail → Note → Note
detailed detail note = record note { detail = detail }

abbrev pub started_note : ℕ → ℕ → String → String → String → Note
started_note attempt pid event_type action outcome =
    detailed (started_worker attempt pid)
      (plain_note event_type (some (text action)) (some (text outcome)))

abbrev pub failed_note : Error → Note
failed_note e =
    record (plain_note "state_change" (some (text "start")) (some (text "spawn_failed"))) {
      error = some e;
    }

abbrev pub may_start : JobState → Bool
may_start queued = true
may_start retrying = true
may_start _ = false

module _ (os : Os) where
  -- The end of `_adopt_existing` and of `_spawn`: the worker is being verified.
  unfoldable pub begin_verifying : ℕ → String → String → String → Supervisor → Supervisor
  unfolding transition
  begin_verifying pid event_type action outcome s =
      transition os verifying (started_note (s.attempt + 1) pid event_type action outcome)
        (record s {
          attempt = s.attempt + 1;
          budget_is_reset = s.restart_count == 0;
          started = some (os.monotonic s.calls);
          calls = suc s.calls;
        })

  -- `_adopt_existing` for a live process that runs the expected executable.
  unfoldable pub reject_unhealthy : Supervisor → Result Bool × Supervisor
  unfolding terminate_process
  reject_unhealthy t =
      let (ended, u) = terminate_process os t in
      if ended then (ok false, record u { process = none }) else (err runtime_error, u)

  unfoldable pub adopt_process : ℕ → Supervisor → Result Bool × Supervisor
  unfolding read_health reject_unhealthy begin_verifying healthy
  adopt_process pid s =
      let (health, t) = read_health os (record s { process = some pid }) in
      if healthy health
      then (ok true, begin_verifying pid "worker_adopted" "adopt" "survived_manager_restart" t)
      else reject_unhealthy t

  -- `_adopt_existing` by what is known of the live process.
  unfoldable pub adopt_identified : Option Bool → ℕ → Supervisor → Result Bool × Supervisor
  unfolding adopt_process clear_pid_file
  adopt_identified none pid s = (err runtime_error, s)
  adopt_identified (some false) pid s = (ok false, clear_pid_file os (some pid) s)
  adopt_identified (some true) pid s = adopt_process pid s

  -- `_adopt_existing` for a pid that the pid file names.
  unfoldable pub adopt_named : Option ℕ → Supervisor → Result Bool × Supervisor
  unfolding adopt_identified clear_pid_file
  adopt_named none s = (ok false, s)
  adopt_named (some pid) s =
      if os.poll s.calls pid
      then adopt_identified (os.identity (suc s.calls) pid) pid (tick (tick s))
      else (ok false, clear_pid_file os (some pid) (tick s))

  unfoldable pub adopt_read : Result (Option ℕ) → Supervisor → Result Bool × Supervisor
  unfolding adopt_named
  adopt_read (err e) s = (err e, s)
  adopt_read (ok named) s = adopt_named named s

  unfoldable pub adopt_existing : Supervisor → Result Bool × Supervisor
  unfolding adopt_read read_pid_file
  adopt_existing s = adopt_read (read_pid_file os s) s

  -- `_spawn` once the process runs: the pid file, or the end of the process if it cannot be written.
  unfoldable pub register_pid : ℕ → Supervisor → Result (Unit {0}) × Supervisor
  unfolding terminate_process begin_verifying
  register_pid pid s =
      if s.spec.has_pid_file
      then (if os.write_pid s.calls
          then (
            ok tt,
            begin_verifying pid "worker_started" "start" "spawned"
                (record s { pid_file = holds pid s.spec.worker_id; calls = suc s.calls }),
          )
          else (err runtime_error, (terminate_process os (tick s)).1))
      else (ok tt, begin_verifying pid "worker_started" "start" "spawned" s)

  unfoldable pub spawned : Result ℕ → Supervisor → Result (Unit {0}) × Supervisor
  unfolding register_pid
  spawned (err e) s = (err e, s)
  spawned (ok pid) s = register_pid pid (record s { process = some pid; streams = 2 })

  unfoldable pub spawn : Supervisor → Result (Unit {0}) × Supervisor
  unfolding spawned
  spawn s = spawned (os.spawn s.calls) (tick s)

  -- The `except` branch of `start`.
  unfoldable pub spawn_failed : Error → Supervisor → Supervisor
  unfolding transition close_streams
  spawn_failed e s = close_streams os (transition os failed (failed_note e) s)

  unfoldable pub started_or_failed : Result (Unit {0}) × Supervisor → Bool × Supervisor
  unfolding spawn_failed
  started_or_failed (ok _, s) = (true, s)
  started_or_failed (err e, s) = (false, spawn_failed e s)

  -- The body of the `try` of `start`, after `_adopt_existing`, with its handler.
  unfoldable pub finish_start : Result Bool × Supervisor → Bool × Supervisor
  unfolding spawn started_or_failed
  finish_start (ok true, s) = (true, s)
  finish_start (err e, s) = (false, spawn_failed e s)
  finish_start (ok false, s) = started_or_failed (spawn s)

  unfoldable pub start : Supervisor → Result Bool × Supervisor
  unfolding finish_start adopt_existing transition
  start s =
      if may_start s.state
      then (let (done, t) = finish_start (
            adopt_existing
              (transition os starting (plain_note "state_change" (some (text "start")) none) s)) in
          (ok done, t))
      else (err runtime_error, s)
