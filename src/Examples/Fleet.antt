-- ===== src/Examples/Fleet.antt =====
-- Concrete jobs of a manager.
use machine_manager.Base.{◌≡◌, refl, true, List, [], ◌∷◌, none}
use machine_manager.Base.Result.{err, key_error}
use machine_manager.Base.Text.{Text, text, text_eq}
use machine_manager.Supervisor.{JobState, running, escalated}
use machine_manager.Manager.{Job, Manager, find_job, any_state, is_escalated_state}
use machine_manager.Manager.Objectives.{
  World, queue_objective_change, check_change, objective_change_refused,
}
use machine_manager.Examples.Supervision.{supervisor_in}
use machine_manager.Examples.Dispatch.{runtime, system_with}

abbrev job_in : JobState → Job
job_in state = record { objective_id = text "ship"; supervisor = supervisor_in state 0 }

abbrev jobs : List (Text × Job)
jobs = (text "j1", job_in running) ∷ (text "j2", job_in escalated) ∷ []

some_escalated : any_state is_escalated_state jobs ≡ true
unfolding any_state
some_escalated = refl

abbrev fleet : Manager
fleet = record { actor = text "local"; jobs = jobs; events = [] }

abbrev world : World
world = record {
  manager = record { actor = text "local"; jobs = jobs; events = [] };
  system = system_with [];
}

unknown : (queue_objective_change runtime (text "j9") (text "sell") none world).0 ≡ err key_error
unfolding queue_objective_change check_change find_job text text_eq
unknown = refl

refused_example : (queue_objective_change runtime (text "j9") (text "sell") none world).1 ≡ world
refused_example =
    objective_change_refused runtime (text "j9") (text "sell") none world key_error unknown
