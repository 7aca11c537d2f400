-- ===== src/Examples/EventRows.antt =====
-- A concrete table of events.
use mathlib.Core.List.{Memᴰ}
use machine_manager.Base.{
  ◌≡◌, ◌≤◌, ◌⊎◌, refl, true, false, List, [], ◌∷◌, none, length, String, arith,
}
use machine_manager.Base.Result.{ok}
use machine_manager.Base.Text.{text, text_eq, is_empty}
use machine_manager.Store.Events.{
  Event, EventRow, append_event, insert_event, prune, contains_event, rowid_in,
}
use machine_manager.Store.Events.Retention.{IsTable, IsNewer}
use machine_manager.Store.Events.Append.{
  append_event-IsTable, append_event_idem, append_event_drops_oldest,
}

abbrev event : String → String → Event
event id stamp = record {
  event_id = text id;
  timestamp = text stamp;
  objective_id = [];
  job_id = [];
  worker_id = [];
  actor = [];
  kind = none;
  task_id = none;
  event_type = text "note";
  previous_state = [];
  new_state = [];
  metrics = [];
  action = [];
  outcome = [];
  artifact_refs = [];
  error = none;
  message = none;
}

abbrev oldest : EventRow
oldest = record { rowid = 1; event = event "e1" "2026-01-01" }

abbrev rows : List EventRow
rows = oldest ∷ record { rowid = 2; event = event "e2" "2026-01-02" } ∷ []

abbrev new : Event
new = event "e3" "2026-01-03"

rows-IsTable : IsTable rows
unfolding rowid_in contains_event text_eq text
rows-IsTable = record { rowids = (refl, (refl, tt)); event_ids = (refl, (refl, tt)) }

appended : append_event 2 new rows ≡ ok (prune 2 (insert_event new rows))
unfolding append_event text
appended = refl

append_event-IsTable_example :
    IsTable (prune 2 (insert_event new rows)) × (length (prune 2 (insert_event new rows)) ≤ 2)
append_event-IsTable_example =
    append_event-IsTable 2 new rows (prune 2 (insert_event new rows)) rows-IsTable appended

named : is_empty (text "e2") ≡ false
unfolding text
named = refl

stamped : is_empty (text "2026-02-01") ≡ false
unfolding text
stamped = refl

seen : contains_event (text "e2") rows ≡ true
unfolding contains_event text_eq text
seen = refl

append_event_idem_example : append_event 2 (event "e2" "2026-02-01") rows ≡ ok rows
append_event_idem_example =
    append_event_idem 2 (event "e2" "2026-02-01") rows named stamped seen (omega arith)

oldest_is_there : Memᴰ oldest (insert_event new rows)
unfolding insert_event contains_event text_eq text
oldest_is_there = Memᴰ.head refl

append_event_drops_oldest_example :
    Memᴰ oldest (prune 2 (insert_event new rows))
    ⊎ ((length (prune 2 (insert_event new rows)) ≡ 2)
        × ((k : EventRow) → Memᴰ k (prune 2 (insert_event new rows)) → IsNewer k oldest))
append_event_drops_oldest_example =
    append_event_drops_oldest 2 new rows (prune 2 (insert_event new rows)) oldest rows-IsTable
      appended oldest_is_there
