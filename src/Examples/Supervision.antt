-- ===== src/Examples/Supervision.antt =====
-- A concrete worker and a concrete operating system.
use machine_manager.Supervisor.Escalating.{IsDead, recoveries, dead_worker_is_escalated}
use machine_manager.Base.{ℕ, ◌≡◌, ◌≤◌, refl, true, false, List, [], ◌∷◌, none, some, ◌==◌, arith}
use machine_manager.Base.Result.{ok}
use machine_manager.Base.Text.{text}
use machine_manager.Supervisor.{
  JobState, queued, running, verifying, escalated, Os, exited, Spec, absent, Supervisor, healthy,
  new_supervisor,
}
use machine_manager.Supervisor.Process.{read_health, read_alive, read_heartbeat, read_resource}
use machine_manager.Supervisor.Control.{
  observe, observed, maybe_reset_retry_budget, reset_since, read_uptime,
}
use machine_manager.Supervisor.Log.{restarts_of}
use machine_manager.Supervisor.Runs.{
  Call, starts, observes, recovers, calls_of, restarts_are_logged, restarts_are_bounded,
}
use machine_manager.Supervisor.Rules.{Obeys, log-Obeys}

-- Every process dies at once.
abbrev pub os : Os
os = record {
  monotonic = λ n. n;
  utc_now = λ n. n ∷ [];
  uuid = λ n. n ∷ [];
  poll = λ n pid. false;
  identity = λ n pid. some true;
  spawn = λ n. ok 42;
  terminate = λ n pid. true;
  kill = λ n pid. true;
  wait = λ n pid. exited;
  write_pid = λ n. true;
  heartbeat_age = λ n. some 1;
  resource = λ n. ok ([], true);
  progress = λ n. [];
}

abbrev pub spec : Spec
spec = record {
  worker_id = text "worker";
  command = text "python" ∷ [];
  has_heartbeat = true;
  heartbeat_max_age = 30;
  startup_grace = 0;
  has_resource_probe = false;
  has_pid_file = false;
}

abbrev pub supervisor_in : JobState → ℕ → Supervisor
supervisor_in state count = record {
  spec = spec;
  max_restarts = 3;
  retry_reset_after = 1000;
  state = state;
  process = none;
  attempt = 0;
  restart_count = count;
  events = [];
  last_health = none;
  started = none;
  streams = 0;
  observation_count = 0;
  last_observed_at = none;
  budget_is_reset = count == 0;
  pid_file = absent;
  calls = 0;
}

abbrev script : List Call
script = starts ∷ observes ∷ recovers ∷ recovers ∷ []

made : new_supervisor spec 3 0 1 1000 absent ≡ ok (supervisor_in queued 1)
unfolding new_supervisor
made = refl

restarts_are_logged_example :
    (calls_of os script (supervisor_in queued 1)).restart_count
    ≡ restarts_of 1 (calls_of os script (supervisor_in queued 1)).events
restarts_are_logged_example =
    restarts_are_logged os spec 3 0 1 1000 absent script (supervisor_in queued 1) made

restarts_are_bounded_example : (calls_of os script (supervisor_in queued 1)).restart_count ≤ 3
restarts_are_bounded_example =
    restarts_are_bounded os spec 3 0 1 1000 absent script (supervisor_in queued 1) made
      (omega arith)

-- Every process lives; the worker has no heartbeat and no resource probe to check.
abbrev healthy_os : Os
healthy_os = record os { poll = λ n pid. true }

abbrev started_worker : Supervisor
started_worker = record (supervisor_in verifying 0) { process = some 42 }

log-Obeys_example :
    Obeys queued
      (calls_of os script (supervisor_in queued 1)).events
      (calls_of os script (supervisor_in queued 1)).state
log-Obeys_example = log-Obeys os spec 3 0 1 1000 absent script (supervisor_in queued 1) made

ill : healthy (observe os (supervisor_in running 3)).0 ≡ false
unfolding observe observed read_health read_alive read_heartbeat read_resource
    maybe_reset_retry_budget reset_since read_uptime healthy
ill = refl

-- Nothing is left of three restarts after the third recovery; the fourth gives up.
os-IsDead : IsDead os
os-IsDead n pid = refl

dead_worker_example : (recoveries os 4 (supervisor_in running 0)).state ≡ escalated
dead_worker_example =
    dead_worker_is_escalated os os-IsDead 3 (supervisor_in running 0) refl (omega arith)
