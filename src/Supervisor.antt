-- ===== src/Supervisor.antt =====
-- manager/supervisor.py: the supervision of one worker process. This file has the states, the
-- signals of one health decision, the configuration and the supervisor's own fields.
pub mod Process
pub mod Starting
pub mod Control
pub mod Log
pub mod Quiet
pub mod Begun
pub mod Accounting
pub mod Runs
pub mod Rules
pub mod Decisions
pub mod Escalating
use machine_manager.Base.{
  ℕ, ◌≤◌, Bool, true, false, ◌&&◌, ◌||◌, Option, none, some, List, [], ltb, leb, ◌==◌,
  if◌then◌else◌,
}
use machine_manager.Base.Result.{Result, ok, err, value_error, Error}
use machine_manager.Base.Text.{Text}
use machine_manager.Store.Events.{Metrics}

pub data JobState : Type 0 where
  queued starting running verifying complete stalled failed retrying escalated cancelled : JobState

pub JobState-discrete : Discrete JobState
JobState-discrete = hlevel

abbrev pub same_state : JobState → JobState → Bool
same_state queued queued = true
same_state starting starting = true
same_state running running = true
same_state verifying verifying = true
same_state complete complete = true
same_state stalled stalled = true
same_state failed failed = true
same_state retrying retrying = true
same_state escalated escalated = true
same_state cancelled cancelled = true
same_state _ _ = false

-- `HealthSignals`
pub record Health : Type 0 where
  pub process_alive : Bool
  pub heartbeat_fresh : Bool
  pub resource_active : Bool
  pub heartbeat_age : Option ℕ
  pub metrics : Metrics
  pub progress : Metrics

unfoldable pub healthy : Health → Bool
healthy h = h.process_alive && (h.heartbeat_fresh && h.resource_active)

-- `WorkerSpec`, as far as the supervisor reads it; times are milliseconds. The command, the files'
-- paths and the probes themselves are the operating system's side, `Os` below.
pub record Spec : Type 0 where
  pub worker_id : Text
  pub command : List Text
  pub has_heartbeat : Bool
  pub heartbeat_max_age : ℕ
  pub startup_grace : ℕ
  pub has_resource_probe : Bool
  pub has_pid_file : Bool

-- `WorkerSpec.__post_init__`; a grace below 0 cannot be written here.
unfoldable pub check_spec : Spec → Result Spec
check_spec spec = elim spec.command [
  | [] ↦ err value_error
  | _ ↦ if spec.heartbeat_max_age == 0 then err value_error else ok spec
]

-- How a wait of three seconds ends.
pub data Waited : Type 0 where
  exited timed_out wait_error : Waited

-- The operating system and the clocks; the first argument of each is the number of the call.
--   monotonic, utc_now, uuid: the clocks and fresh identifiers.
--   poll: whether a process is alive (`process.poll() is None`).
--   identity: whether a live process runs the expected executable; `none` if that is not known.
--   spawn: `subprocess.Popen`, with the opening of the streams; its pid, or the exception.
--   terminate, kill: whether the signal was sent; wait: how the wait ended.
--   write_pid: whether the pid file could be written.
--   heartbeat_age: the age of the heartbeat file, `none` if there is no such file.
--   resource: the metrics of the resource probe and its verdict, or the exception.
--   progress: the allowlisted values of the progress report.
pub record Os : Type 0 where
  pub monotonic : ℕ → ℕ
  pub utc_now : ℕ → Text
  pub uuid : ℕ → Text
  pub poll : ℕ → ℕ → Bool
  pub identity : ℕ → ℕ → Option Bool
  pub spawn : ℕ → Result ℕ
  pub terminate : ℕ → ℕ → Bool
  pub kill : ℕ → ℕ → Bool
  pub wait : ℕ → ℕ → Waited
  pub write_pid : ℕ → Bool
  pub heartbeat_age : ℕ → Option ℕ
  pub resource : ℕ → Result (Metrics × Bool)
  pub progress : ℕ → Metrics

-- The contents of the pid file: none, what is no JSON, JSON that is no object, or a pid and the id of
-- a worker.
pub data PidFile : Type 0 where
  absent unreadable no_object : PidFile
  holds : ℕ → Text → PidFile

-- The metrics of an event, by the kind of event that has them.
pub data Detail : Type 0 where
  no_detail : Detail
  signals : Health → ℕ → Detail
  started_worker : ℕ → ℕ → Detail
  restarts : ℕ → ℕ → Detail
  budget_reset : ℕ → ℕ → ℕ → Detail

-- One event of the log. The ids of the job, the objective, the worker and the actor are those of
-- the supervisor in every event, and are left out.
pub record Event : Type 0 where
  pub timestamp : Text
  pub event_id : Text
  pub event_type : Text
  pub previous_state : JobState
  pub new_state : JobState
  pub detail : Detail
  pub action : Option Text
  pub outcome : Option Text
  pub error : Option Error
  pub duration : Option ℕ

-- The fields of `WorkerSupervisor`; `pid_file` is the file on disk, `streams` the open handles, and
-- `calls` counts the calls of the operating system. The log is in order of time.
pub record Supervisor : Type 0 where
  pub spec : Spec
  pub max_restarts : ℕ
  pub retry_reset_after : ℕ
  pub state : JobState
  pub process : Option ℕ
  pub attempt : ℕ
  pub restart_count : ℕ
  pub events : List Event
  pub last_health : Option Health
  pub started : Option ℕ
  pub streams : ℕ
  pub observation_count : ℕ
  pub last_observed_at : Option Text
  pub budget_is_reset : Bool
  pub pid_file : PidFile
  pub calls : ℕ

-- `WorkerSupervisor.__init__`; negative counters cannot be written here. The pid file is what a
-- former manager left on disk.
unfoldable pub new_supervisor : Spec → ℕ → ℕ → ℕ → ℕ → PidFile → Result Supervisor
new_supervisor spec max_restarts attempt restart_count reset_after pid_file =
    if reset_after == 0
    then err value_error
    else ok (record {
      spec = spec;
      max_restarts = max_restarts;
      retry_reset_after = reset_after;
      state = queued;
      process = none;
      attempt = attempt;
      restart_count = restart_count;
      events = [];
      last_health = none;
      started = none;
      streams = 0;
      observation_count = 0;
      last_observed_at = none;
      budget_is_reset = restart_count == 0;
      pid_file = pid_file;
      calls = 0;
    })
