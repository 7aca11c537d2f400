-- ===== src/Examples/Schedules.antt =====
-- Concrete templates of recurring work.
use machine_manager.Base.{ℕ, ◌≡◌, ◌≢◌, refl, true, [], arith}
use machine_manager.Base.Result.{ok}
use machine_manager.Base.Text.{text}
use machine_manager.Store.{get_meta, find_meta}
use machine_manager.Runtime.{System}
use machine_manager.Recurring.{
  Template, template_task_id, state_from, state_of, converted, seed, enqueue_next,
}
use machine_manager.Recurring.Ids.{template_task_ids_differ}
use machine_manager.Recurring.Ticks.{crash_makes_no_copy}
use machine_manager.Examples.Dispatch.{runtime, system_with}

abbrev hourly : Template
hourly = record {
  recurring_id = text "audit";
  kind = text "build";
  objective_id = text "ship";
  interval = 3600000;
  payload = [];
  enabled = true;
}

abbrev empty_system : System
empty_system = system_with []

no_cursor : converted (state_of hourly empty_system.store).sequence ≡ ok 0
unfolding state_of state_from converted get_meta find_meta
no_cursor = refl

crash_example :
    (seed runtime [] 70 hourly (enqueue_next runtime 50 hourly 1 empty_system).1).1.store.tasks
    ≡ (enqueue_next runtime 50 hourly 1 empty_system).1.store.tasks
crash_example = crash_makes_no_copy runtime [] 70 50 hourly 0 empty_system no_cursor

abbrev seventh : ℕ
seventh = 7

abbrev eighth : ℕ
eighth = 8

apart : seventh ≢ eighth
apart e = ground arith

template_task_ids_example : template_task_id hourly seventh ≢ template_task_id hourly eighth
template_task_ids_example = template_task_ids_differ hourly seventh eighth apart
