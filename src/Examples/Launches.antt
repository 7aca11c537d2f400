-- ===== src/Examples/Launches.antt =====
-- A manager that is built from a concrete configuration and a stored job.
use machine_manager.Base.{ℕ, ◌≡◌, ◌*◌, refl, Bool, false, none, some, List, [], ◌∷◌}
use machine_manager.Base.Json.{
  Json, integer, string, array, object, nil, item, Fields, empty, field, get, get_or, or_else,
  truthy, str,
}
use machine_manager.Base.Result.{Result, ok, err, value_error, and_then}
use machine_manager.Base.Text.{Text, text, text_eq, strip, lstrip, rstrip, is_space}
use machine_manager.Base.Assoc.{select}
use machine_manager.Store.Snapshots.{Table}
use machine_manager.Supervisor.{
  queued, PidFile, absent, Spec, Supervisor, check_spec, new_supervisor,
}
use machine_manager.Manager.{Manager, find_job, add_job, add_unless, new_manager, register_job}
use machine_manager.Run.Launch.{
  Entry, strings, is_path, entry_of, entries_of, entries_from, job_entries, spec_with, with_command,
  worker_spec, counter, initial_restart_count, register_entry, register_entries, manager_with,
  manager_from_config,
}
use machine_manager.Run.Launch.Counters.{AreBuilt, jobs_keep_counters}

abbrev no_repr : Json → Text
no_repr j = []

abbrev whole : Json → Result ℕ
whole (integer n) = ok n
whole _ = err value_error

abbrev milliseconds : Json → Result ℕ
milliseconds (integer n) = ok (n * 1000)
milliseconds _ = err value_error

abbrev worker : Fields
worker =
    field (text "id") (string (text "w"))
      (field (text "command") (array (item (string (text "run")) nil)) empty)

abbrev config : Fields
config =
    field (text "jobs")
      (array (
        item
          (object
            (field (text "id") (string (text " a ")) (field (text "worker") (object worker) empty)))
          nil))
      empty

-- The job has restarted two times before.
abbrev rows : Table
rows =
    (text "a", field (text "attempt") (integer 3) (field (text "restart_count") (integer 2) empty))
    ∷ []

abbrev spec : Spec
spec = record {
  worker_id = text "w";
  command = text "run" ∷ [];
  has_heartbeat = false;
  heartbeat_max_age = 30000;
  startup_grace = 5000;
  has_resource_probe = false;
  has_pid_file = false;
}

abbrev supervisor : Supervisor
supervisor = record {
  spec = spec;
  max_restarts = 3;
  retry_reset_after = 3600000;
  state = queued;
  process = none;
  attempt = 3;
  restart_count = 2;
  events = [];
  last_health = none;
  started = none;
  streams = 0;
  observation_count = 0;
  last_observed_at = none;
  budget_is_reset = false;
  pid_file = absent;
  calls = 0;
}

abbrev built : Manager × Text × Text
built = (
  record {
    actor = text "local-manager";
    jobs = (text "a", record { objective_id = text "a"; supervisor = supervisor }) ∷ [];
    events = [];
  },
  text "a",
  text "a",
)

abbrev never : Text → Bool
never id = false

abbrev no_pids : Text → PidFile
no_pids id = absent

config_is_built :
    manager_from_config no_repr whole milliseconds (some rows) never no_pids config ≡ ok built
unfolding manager_from_config job_entries entries_from entries_of entry_of manager_with new_manager
    register_entries register_entry worker_spec with_command strings spec_with is_path check_spec
    counter initial_restart_count register_job add_unless add_job find_job new_supervisor select get
    get_or or_else truthy str text text_eq strip lstrip rstrip is_space and_then
config_is_built = refl

jobs_keep_counters_example :
    (es : List Entry) × (job_entries no_repr whole milliseconds config ≡ ok es)
    × AreBuilt no_repr whole milliseconds (some rows) never no_pids es built.0.jobs
jobs_keep_counters_example =
    jobs_keep_counters no_repr whole milliseconds (some rows) never no_pids config built
      config_is_built
