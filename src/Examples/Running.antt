-- ===== src/Examples/Running.antt =====
-- A start of the manager on concrete files and stores.
use machine_manager.Base.{
  ℕ, false, ◌≡◌, ◌≤◌, refl, Option, none, some, List, [], ◌∷◌, max, length, All,
}
use machine_manager.Base.Json.{Json, string, object, Fields, empty, field, get, get_or, str}
use machine_manager.Base.Result.{Result, ok}
use machine_manager.Base.Search.{all_chars}
use machine_manager.Base.Text.{Text, text, text_eq, strip, lstrip, rstrip, is_space, upper}
use machine_manager.Store.{Store, get_meta, find_meta}
use machine_manager.Store.Tasks.{WorkItem}
use machine_manager.Dispatcher.{Outcome}
use machine_manager.Dispatcher.Background.{Background}
use machine_manager.Dispatcher.Passes.{NoneRunning}
use machine_manager.Workstreams.{is_identifier}
use machine_manager.Run.{
  has_prefix, load_env_file, mappings, merge_public_events, consume_resume, pending_operator_resume,
  recover_at_start, queue_cycles, background,
}
use machine_manager.Run.Environment.{written, set_defaults, IsLoadable, load_env_file-render}
use machine_manager.Run.PublicEvents.{HasUniqueEvents}
use machine_manager.Run.FreshEvents.{IsLast, merge_public_events_lem}
use machine_manager.Run.Resuming.{resume_is_consumed_once}
use machine_manager.Run.Cycles.{IsOrderly, restart_leaves-IsOrderly}
use machine_manager.Examples.Queue.{queue}
use machine_manager.Examples.Dispatch.{runtime, dispatcher, system_with}

abbrev entries : List (Text × Text)
entries = (text "GITHUB_TOKEN", text " a=b\" ") ∷ (text "MACHINE_MANAGER_HOME", text "'x'") ∷ []

entries-IsLoadable : All IsLoadable entries
unfolding has_prefix text strip lstrip rstrip is_space all_chars
entries-IsLoadable = ((refl, refl, refl, refl), ((refl, refl, refl, refl), tt))

load_env_file-render_example : load_env_file (some (written entries)) [] ≡ set_defaults entries []
load_env_file-render_example = load_env_file-render entries [] entries-IsLoadable

abbrev no_repr : Json → Text
no_repr j = []

abbrev published : Fields
published = field (text "event_id") (string (text "e1")) empty

abbrev fresh : Fields
fresh =
    field (text "event_id") (string (text "e1")) (field (text "actor") (string (text "me")) empty)

merge_example :
    let window = merge_public_events no_repr (object published ∷ []) (object fresh ∷ []) 5 in
    HasUniqueEvents no_repr window
    × (length window ≤ max 1 5)
    × All (IsLast no_repr (mappings no_repr (object published ∷ object fresh ∷ []))) window
merge_example = merge_public_events_lem no_repr (object published ∷ []) (object fresh ∷ []) 5

abbrev store : Store
store = (system_with queue).store

abbrev acknowledgement : Option Fields
acknowledgement = some (field (text "id") (string (text "ack-1")) empty)

is_pending :
    pending_operator_resume no_repr acknowledgement (text "job") (text "escalated") store
    ≡ some (text "ack-1")
unfolding pending_operator_resume is_identifier all_chars get_meta find_meta get get_or str text
    text_eq upper strip lstrip rstrip is_space
is_pending = refl

resume_example :
    pending_operator_resume no_repr acknowledgement
      (text "job")
      (text "escalated")
      (consume_resume (text "ack-1") (text "now") store)
    ≡ none
unfolding text
resume_example =
    resume_is_consumed_once no_repr acknowledgement (text "job") (text "job") (text "escalated")
      (text "escalated") (text "now") (text "ack-1") store is_pending refl

-- No handler ends.
abbrev never_ends : ℕ → WorkItem → Option (Result Outcome)
never_ends n item = none

restart_example :
    let started = (recover_at_start runtime (text "me") (text "ship") (system_with queue)).1 in
    let fresh : Background = record { system = started; pending = []; closed = false } in
    let (answer, after) =
      queue_cycles runtime dispatcher never_ends (background 2) ((2, 10) ∷ (2, 20) ∷ []) fresh in
    NoneRunning started.store.tasks × (answer ≡ ok tt) × IsOrderly (background 2) after
restart_example =
    restart_leaves-IsOrderly runtime dispatcher never_ends (background 2) (text "me") (text "ship")
      ((2, 10) ∷ (2, 20) ∷ []) (system_with queue)
