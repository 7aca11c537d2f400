-- ===== src/Examples/Streams.antt =====
-- Concrete work streams, for the theorems on their texts and their synchronization.
use machine_manager.Base.{ℕ, ◌≡◌, refl, Option, none, some, List, [], ◌∷◌, All, ap}
use machine_manager.Base.Result.{Result, ok, err, value_error, and_then}
use machine_manager.Base.Text.{Text, text, text_eq, text_mem, all_distinct, strip, lower, upper}
use machine_manager.Base.Assoc.{select}
use machine_manager.Base.Json.{
  Json, null, string, boolean, integer, negative, float, object, array, Fields, empty, field, get,
  get_or, or_else, str, truthy,
}
use machine_manager.Store.Snapshots.{Table}
use machine_manager.Workstreams.{
  Workstream, identifier, is_identifier, safe_text, state_text, one_line, is_sensitive,
  sensitive_here, from_mapping,
}
use machine_manager.Base.Search.{all_chars, assigns, starts_with, after_literal, found_in}
use machine_manager.Workstreams.Safety.{IsPublic, from_mapping-IsPublic}
use machine_manager.Workstreams.Sources.{Sources, resolve, agent_state, safe_metrics}
use machine_manager.Workstreams.Registry.{Change, Clock, sync}
use machine_manager.Workstreams.Records.{IsReady, IsPrinted}
use machine_manager.Workstreams.Syncing.{
  ShowsState, IsReadable, sync_idem, synced_states_are_resolved,
}

-- No container is printed here, and no float is read.
abbrev no_repr : Json → Text
no_repr j = []

abbrev no_floats : Text → Result ℕ
no_floats x = err value_error

abbrev configured : Fields
configured = field (text "id") (string (text "lane-1")) (
    field (text "title") (string (text "see /home/x")) (
      field (text "state") (string (text "running")) (
        field (text "source")
          (object (
            field (text "kind") (string (text "agent"))
              (field (text "id") (string (text "probe")) empty)))
          empty)))

abbrev lane : Workstream
lane = record {
  stream_id = text "lane-1";
  objective_id = text "lane-1";
  title = text "[redacted]";
  lane = text "General";
  owner = text "local-manager";
  summary = [];
  next_action = [];
  state = text "RUNNING";
  source_kind = text "agent";
  source_id = text "probe";
}

configured_lane : from_mapping no_repr configured ≡ ok lane
unfolding from_mapping and_then identifier is_identifier all_chars safe_text one_line found_in
    is_sensitive sensitive_here assigns starts_with after_literal state_text get get_or or_else str
    truthy text text_eq text_mem strip lower upper
configured_lane = refl

from_mapping-IsPublic_example : IsPublic no_repr lane
from_mapping-IsPublic_example = from_mapping-IsPublic no_repr configured lane configured_lane

abbrev mission : Workstream
mission = record lane {
  stream_id = text "lane-2";
  state = text "COMPLETE";
  source_kind = text "static";
  source_id = [];
}

abbrev sources : Sources
sources = record {
  agents =
      (
        text "probe",
        field (text "state") (string (text "working"))
            (field (text "tasks_completed") (integer 3) empty),
      )
      ∷ [];
  audits = [];
  profiles = [];
}

abbrev clock : Clock
clock = record {
  updated_at = λ id. text "t1";
  event_at = λ id. text "t2";
  event_ns = λ id. text "17";
}

-- A text that tells states apart.
abbrev print_state : Option Json → Text
print_state (some (string s)) = 1 ∷ s
print_state _ = []

abbrev dumps : Fields → Text
dumps d = print_state (get (text "state") d)

read_state : (o : Option Json) (s : Text) → print_state o ≡ 1 ∷ s → o ≡ some (string s)
read_state none s h = cc
read_state (some null) s h = cc
read_state (some (boolean b)) s h = cc
read_state (some (integer n)) s h = cc
read_state (some (negative n)) s h = cc
read_state (some (float x)) s h = cc
read_state (some (string t)) s h = ap (λ u. some (string u)) cc
read_state (some (array xs)) s h = cc
read_state (some (object d)) s h = cc

dumps-IsReadable : IsReadable no_repr no_floats dumps
dumps-IsReadable a b s same shown = read_state (get (text "state") b) s (rw (← same, shown) refl)

ready : All (IsReady no_repr no_floats dumps clock sources) (lane ∷ mission ∷ [])
unfolding resolve select agent_state safe_metrics get get_or or_else str truthy text text_eq
    text_mem upper and_then
ready = (
  (((text "RUNNING", field (text "tasks_completed") (integer 3) empty), refl), refl, refl),
  ((((text "COMPLETE", empty), refl), refl, refl), tt),
)

sync_idem_example :
    (ds : List Fields) × (events : List Change) × (after : Table) × (sync no_repr no_floats dumps
        clock sources
        (lane ∷ mission ∷ [])
        []
      ≡ (ok (ds, events), after))
    × (sync no_repr no_floats dumps clock sources (lane ∷ mission ∷ []) after
        ≡ (ok (ds, []), after))
unfolding all_distinct text_mem text_eq text
sync_idem_example =
    sync_idem no_repr no_floats dumps clock clock sources (lane ∷ mission ∷ []) [] ready refl

synced_states_example :
    let after = (sync no_repr no_floats dumps clock sources (lane ∷ mission ∷ []) []).1 in
    All (ShowsState no_repr no_floats dumps sources after) (lane ∷ mission ∷ [])
    × IsPrinted no_repr no_floats dumps after
unfolding all_distinct text_mem text_eq text
synced_states_example =
    synced_states_are_resolved no_repr no_floats dumps dumps-IsReadable clock sources
      (lane ∷ mission ∷ []) [] ready refl tt
