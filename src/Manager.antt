-- ===== src/Manager.antt =====
-- manager/machine_manager.py: the registry of jobs, each with its supervisor.
pub mod Jobs
pub mod Objectives
pub mod Summaries
use machine_manager.Base.{
  ℕ, ◌+◌, ◌-◌, ◌≡◌, Bool, true, false, not, ◌&&◌, ◌||◌, Option, none, some, List, [], ◌∷◌, ◌++◌,
  map, ltb, leb, ◌==◌, if◌then◌else◌, length, drop, take,
}
use machine_manager.Base.Exec.{Exec, pure, ◌>>=◌, ◌>>◌}
use machine_manager.Base.Result.{Result, ok, err, map_result, value_error, key_error}
use machine_manager.Base.Text.{Text, text, text_eq, strip, is_empty}
use machine_manager.Store.Events.{flag}
use machine_manager.Store.Events
use machine_manager.Runtime.{Runtime, System, read_stamp, fresh_uuid}
use machine_manager.Scheduler.{enqueue}
use machine_manager.Supervisor.{
  JobState, queued, starting, running, verifying, complete, stalled, failed, retrying, escalated,
  cancelled, Os, PidFile, Spec, Supervisor, Health, healthy, new_supervisor,
}
use machine_manager.Supervisor.Starting.{start}
use machine_manager.Supervisor.Control.{
  in_startup_grace, needs_recovery, observe, recover, mark_complete, cancel,
}

-- `ManagedJob`; its id is the key that it is registered under.
pub record Job : Type 0 where
  pub objective_id : Text
  pub supervisor : Supervisor

-- The dictionary of jobs, in the order of registration, and the manager's own events.
pub record Manager : Type 0 where
  pub actor : Text
  pub jobs : List (Text × Job)
  pub events : List Events.Event

unfoldable pub new_manager : Text → Manager
new_manager actor = record { actor = actor; jobs = []; events = [] }

unfoldable pub find_job : Text → List (Text × Job) → Option Job
find_job id [] = none
find_job id ((k, j) ∷ js) = if text_eq k id then some j else find_job id js

-- A supervisor after one of its methods; it is the same object in the dictionary.
unfoldable pub set_supervisor : Text → Supervisor → List (Text × Job) → List (Text × Job)
set_supervisor id s [] = []
set_supervisor id s ((k, j) ∷ js) =
    if text_eq k id then (k, record j { supervisor = s }) ∷ js else (k, j) ∷ set_supervisor id s js

-- `register_job`
unfoldable pub add_job : Text → Text → Result Supervisor → Manager → Result (Unit {0}) × Manager
add_job objective id (err e) m = (err e, m)
add_job objective id (ok s) m = (
  ok tt,
  record m { jobs = m.jobs ++ (id, record { objective_id = objective; supervisor = s }) ∷ [] },
)

unfoldable pub add_unless :
    Option Job → Text → Text → Result Supervisor → Manager → Result (Unit {0}) × Manager
unfolding add_job
add_unless (some j) objective id made m = (err value_error, m)
add_unless none objective id made m = add_job objective id made m

unfoldable pub register_job :
    Spec → Text → Text → ℕ → ℕ → ℕ → ℕ → PidFile → Manager → Result (Unit {0}) × Manager
unfolding add_unless find_job new_supervisor
register_job spec objective id limit attempt count after pid_file m =
    add_unless (find_job id m.jobs) objective id
      (new_supervisor spec limit attempt count after pid_file) m

-- A method of the supervisor of one job, `self.jobs[job_id].supervisor`.
unfoldable pub applied :
    {A : Type 0} → (Supervisor → Result A × Supervisor) → Text → Option Job → Exec Manager A
unfolding set_supervisor
applied f id none m = (err key_error, m)
applied f id (some j) m =
    let (r, s) = f j.supervisor in (r, record m { jobs = set_supervisor id s m.jobs })

unfoldable pub on_job : {A : Type 0} → (Supervisor → Result A × Supervisor) → Text → Exec Manager A
unfolding applied find_job
on_job f id m = applied f id (find_job id m.jobs) m

-- The loops over all jobs. They end at the first exception.
unfoldable pub each_job : {A : Type 0} → (Text → Exec Manager A) → List Text → Exec Manager (List A)
each_job f [] = pure []
each_job f (id ∷ ids) = do here ← f id; rest ← each_job f ids; pure (here ∷ rest)

abbrev pub job_ids : Manager → List Text
job_ids m = map (λ p. p.0) m.jobs

-- The operating system of each job's supervisor.
module _ (os : Text → Os) where
  unfoldable pub start_job : Text → Exec Manager Bool
  unfolding on_job start
  start_job id = on_job (start (os id)) id

  unfoldable pub start_all : Exec Manager (List Bool)
  unfolding each_job start_job
  start_all m = each_job start_job (job_ids m) m

  -- The end of `tick_job`: the recovery of a worker that `observe` found unhealthy.
  unfoldable pub recover_unhealthy : Os → Supervisor → Supervisor
  unfolding in_startup_grace recover
  recover_unhealthy o s =
      let (grace, t) = in_startup_grace o s in
      if not grace && needs_recovery t.state then (recover o t).1 else t

  -- `tick_job` of a supervisor, without the snapshot that it returns.
  unfoldable pub tick_supervisor : Os → Bool → Supervisor → Supervisor
  unfolding observe recover_unhealthy healthy
  tick_supervisor o auto_recover s =
      let (health, t) = observe o s in
      if auto_recover && not (healthy health) then recover_unhealthy o t else t

  unfoldable pub tick_job : Bool → Text → Exec Manager Unit
  unfolding on_job tick_supervisor
  tick_job auto_recover id = on_job (λ s. (ok tt, tick_supervisor (os id) auto_recover s)) id

  unfoldable pub tick_all : Bool → Exec Manager (List Unit)
  unfolding each_job tick_job
  tick_all auto_recover m = each_job (tick_job auto_recover) (job_ids m) m

  unfoldable pub complete_job : Text → Exec Manager Unit
  unfolding on_job mark_complete
  complete_job id = on_job (λ s. (ok tt, mark_complete (os id) s)) id

  unfoldable pub cancel_job : Text → Exec Manager Unit
  unfolding on_job cancel
  cancel_job id = on_job (λ s. (ok tt, cancel (os id) s)) id

  unfoldable pub cancel_all : Exec Manager (List Unit)
  unfolding each_job cancel_job
  cancel_all m = each_job cancel_job (job_ids m) m

-- `snapshot()["status"]`, from the states of the jobs.
pub data Summary : Type 0 where
  idle all_healthy all_starting any_escalated any_stalled degraded : Summary

unfoldable pub all_states : (JobState → Bool) → List (Text × Job) → Bool
all_states p [] = true
all_states p ((k, j) ∷ js) = p j.supervisor.state && all_states p js

unfoldable pub any_state : (JobState → Bool) → List (Text × Job) → Bool
any_state p [] = false
any_state p ((k, j) ∷ js) = p j.supervisor.state || any_state p js

abbrev pub is_running_state : JobState → Bool
is_running_state running = true
is_running_state _ = false

abbrev pub is_starting_state : JobState → Bool
is_starting_state queued = true
is_starting_state starting = true
is_starting_state verifying = true
is_starting_state _ = false

abbrev pub is_escalated_state : JobState → Bool
is_escalated_state escalated = true
is_escalated_state _ = false

abbrev pub is_stalled_state : JobState → Bool
is_stalled_state stalled = true
is_stalled_state _ = false

unfoldable pub status_of : List (Text × Job) → Summary
unfolding all_states any_state
status_of [] = idle
status_of (p ∷ ps) =
    if all_states is_running_state (p ∷ ps)
    then all_healthy
    else if all_states is_starting_state (p ∷ ps)
    then all_starting
    else if any_state is_escalated_state (p ∷ ps)
    then any_escalated
    else if any_state is_stalled_state (p ∷ ps)
    then any_stalled
    else degraded
