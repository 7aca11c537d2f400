-- ===== src/Run/Launch.antt =====
-- The configured jobs of manager/run.py: the entries of the configuration, the workers' parameters,
-- and the manager that is built from them with the counters of the stored jobs.
pub mod Counters
use machine_manager.Base.{
  ℕ, Bool, true, false, ◌||◌, Option, none, some, List, [], ◌∷◌, if◌then◌else◌,
}
use machine_manager.Base.Json.{
  Json, null, boolean, integer, negative, float, string, array, object, Items, nil, item, Fields,
  empty, get, get_or, or_else, or_null, str,
}
use machine_manager.Base.Result.{Result, ok, err, value_error, key_error, foreign, and_then}
use machine_manager.Base.Text.{Text, text, text_eq, strip, is_empty}
use machine_manager.Store.Snapshots.{Table, get_job, text_at}
use machine_manager.Supervisor.{PidFile, Spec, check_spec}
use machine_manager.Manager.{Manager, new_manager, register_job}

-- An entry of `_job_entries`; the worker is the object of the configuration.
pub record Entry : Type 0 where
  pub job_id : Text
  pub objective_id : Text
  pub objective : Text
  pub max_restarts : ℕ
  pub retry_reset_after : ℕ
  pub worker : Fields

-- `value` as a list of strings, if all its items are strings.
unfoldable pub strings : Items → Option (List Text)
strings nil = some []
strings (item (string s) rest) = elim (strings rest) [ none ↦ none | some ss ↦ some (s ∷ ss) ]
strings (item _ rest) = none

-- Whether `resolve_path` gives a path; `os.path.expandvars` takes nothing but a string.
unfoldable pub is_path : Json → Result Bool
unfolding text
is_path null = ok false
is_path (string s) = ok true
is_path _ = err (foreign (text "TypeError"))

-- The manager after a registration that raised nothing.
abbrev pub registered : Result (Unit {0}) × Manager → Result Manager
registered (ok u, m) = ok m
registered (err e, m) = err e

-- Python's conversions are parameters: `repr` of a container, `int_of` for `int(value)`, and
-- `ms_of` for `float(value)` in milliseconds. A negative number, which the constructors behind them
-- refuse with ValueError, is that error here.
module _ (repr : Json → Text) (int_of ms_of : Json → Result ℕ) where
  -- The numbers of an entry, and the entry.
  abbrev numbered : Json → Json → (ℕ → ℕ → Entry) → Result Entry
  numbered limit after made =
      and_then (int_of limit) (λ n. and_then (ms_of after) (λ ms. ok (made n ms)))

  -- The only entry of a configuration without jobs.
  unfoldable pub only_entry : Fields → Json → Result Entry
  unfolding get_or text str and_then
  only_entry config (object worker) =
      let objective_id = get_or (text "objective_id") (string (text "objective-001")) config in
      numbered (get_or (text "max_restarts") (integer 3) config)
        (get_or (text "retry_reset_after_s") (integer 3600) config)
        (λ limit after. record {
          job_id = text_at repr (text "job_id") (string (text "job-001")) config;
          objective_id = str repr objective_id;
          objective = text_at repr (text "objective") objective_id config;
          max_restarts = limit;
          retry_reset_after = after;
          worker = worker;
        })
  only_entry config _ = err value_error

  -- An entry of the array of jobs; its numbers stand in the configuration by default.
  unfoldable pub entry_of : Fields → Fields → Json → Result Entry
  unfolding get_or text str and_then
  entry_of config raw (object worker) =
      let id = strip (text_at repr (text "job_id") (get_or (text "id") (string []) raw) raw) in
      let objective_id = text_at repr (text "objective_id") (string id) raw in
      let default = λ (key : Text) (value : Json). get_or key (get_or key value config) raw in
      if is_empty id
      then err value_error
      else numbered (default (text "max_restarts") (integer 3))
          (default (text "retry_reset_after_s") (integer 3600))
          (λ limit after. record {
            job_id = id;
            objective_id = objective_id;
            objective = text_at repr (text "objective") (string objective_id) raw;
            max_restarts = limit;
            retry_reset_after = after;
            worker = worker;
          })
  entry_of config raw _ = err value_error

  unfoldable pub entries_of : Fields → Items → Result (List Entry)
  unfolding entry_of and_then get text
  entries_of config nil = ok []
  entries_of config (item (object raw) rest) =
      let later = entries_of config rest in
      and_then (entry_of config raw (or_null (get (text "worker") raw)))
        (λ e. and_then later (λ es. ok (e ∷ es)))
  entries_of config (item _ rest) = err value_error

  unfoldable pub entries_from : Fields → Json → Result (List Entry)
  unfolding only_entry entries_of and_then get text
  entries_from config null =
      and_then (only_entry config (or_null (get (text "worker") config))) (λ e. ok (e ∷ []))
  entries_from config (array (item raw rest)) = entries_of config (item raw rest)
  entries_from config _ = err value_error

  -- `_job_entries`
  unfoldable pub job_entries : Fields → Result (List Entry)
  unfolding entries_from get text
  job_entries config = entries_from config (or_null (get (text "jobs") config))

  abbrev path_at : Text → Fields → Result Bool
  path_at key worker = is_path (or_null (get key worker))

  -- The construction of the `WorkerSpec` from a checked command.
  unfoldable pub spec_with : List Text → Fields → Result Spec
  unfolding get get_or text str is_path check_spec and_then
  spec_with command worker = and_then (path_at (text "stdout_file") worker) (λ out.
      elim (get (text "id") worker) [
        | none ↦ err key_error
        | some id ↦ and_then (path_at (text "cwd") worker) (λ cwd.
            and_then (path_at (text "heartbeat_file") worker) (λ heartbeat.
              and_then (path_at (text "progress_file") worker) (λ progress.
                and_then (ms_of (get_or (text "heartbeat_max_age_s") (integer 30) worker)) (λ age.
                  and_then (ms_of (get_or (text "startup_grace_s") (integer 5) worker)) (λ grace.
                    and_then (path_at (text "pid_file") worker) (λ pid.
                      and_then (path_at (text "stderr_file") worker) (λ errors. check_spec (record {
                        worker_id = str repr id;
                        command = command;
                        has_heartbeat = heartbeat;
                        heartbeat_max_age = age;
                        startup_grace = grace;
                        has_resource_probe = is_gpu (or_null (get (text "resource") worker));
                        has_pid_file = pid;
                      }))))))))
      ])
    where
      is_gpu : Json → Bool
      is_gpu (string s) = text_eq s (text "nvidia-gpu")
      is_gpu _ = false

  unfoldable pub with_command : Fields → Json → Result Spec
  unfolding strings spec_with
  with_command worker (array xs) = elim (strings xs) [
    | none ↦ err value_error
    | some [] ↦ err value_error
    | some (c ∷ cs) ↦ spec_with (c ∷ cs) worker
  ]
  with_command worker _ = err value_error

  -- `_worker_spec`
  unfoldable pub worker_spec : Fields → Result Spec
  unfolding with_command get text
  worker_spec worker = with_command worker (or_null (get (text "command") worker))

  -- `int((prior or {}).get(key, 0) or 0)`
  unfoldable pub counter : Text → Option Fields → Result ℕ
  unfolding get_or or_else
  counter key none = int_of (integer 0)
  counter key (some prior) = int_of (or_else (get_or key (integer 0) prior) (integer 0))

  -- The rows of the jobs, if there is a store; whether the budget of a job is reset, by
  -- `reset_retry_budget` or by its id; and the workers' pid files.
  module _ (rows : Option Table) (reset : Text → Bool) (pid_files : Text → PidFile) where
    abbrev pub prior_of : Text → Option Fields
    prior_of id = elim rows [ none ↦ none | some table ↦ get_job id table ]

    unfoldable pub initial_restart_count : Text → Result ℕ
    unfolding counter text
    initial_restart_count id =
        if reset id then ok 0 else counter (text "restart_count") (prior_of id)

    unfoldable pub register_entry : Entry → Manager → Result Manager
    unfolding worker_spec counter initial_restart_count register_job and_then text
    register_entry e m = and_then (worker_spec e.worker) (λ spec.
        and_then (counter (text "attempt") (prior_of e.job_id)) (λ attempt.
          and_then (initial_restart_count e.job_id) (λ count. registered (
            register_job spec e.objective_id e.job_id e.max_restarts attempt count
              e.retry_reset_after (pid_files e.job_id) m))))

    unfoldable pub register_entries : List Entry → Manager → Result Manager
    unfolding register_entry and_then
    register_entries [] m = ok m
    register_entries (e ∷ es) m = and_then (register_entry e m) (register_entries es)

    -- The manager, and the ids of the first entry's objective and job.
    unfoldable pub manager_with : Text → List Entry → Result (Manager × Text × Text)
    unfolding register_entries new_manager and_then
    manager_with actor [] = err (foreign (text "IndexError"))
    manager_with actor (e ∷ es) =
        and_then (register_entries (e ∷ es) (new_manager actor))
          (λ m. ok (m, e.objective_id, e.job_id))

    unfoldable pub manager_from_config : Fields → Result (Manager × Text × Text)
    unfolding job_entries manager_with and_then text str get_or
    manager_from_config config =
        and_then (job_entries config)
          (manager_with (text_at repr (text "actor") (string (text "local-manager")) config))
