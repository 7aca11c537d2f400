-- ===== src/Store/Events.antt =====
-- The `events` table of manager/state_store.py: an append that ignores a repeated
-- event id and then deletes all but the newest rows, and the reading of the newest rows.
pub mod Append
pub mod Retention
use machine_manager.Base.{
  ℕ, zero, suc, ◌+◌, ◌≡◌, Bool, true, false, not, ◌&&◌, ◌||◌, Option, none, some, List, [], ◌∷◌,
  ◌++◌, min, max, map, leb, ◌==◌, if◌then◌else◌, take, keep, length,
}
use mathlib.Core.List.{reverse}
use machine_manager.Base.Result.{Result, ok, err, value_error}
use machine_manager.Base.Sorting.{sort_by}
use machine_manager.Base.Text.{Text, text_eq, text_leb, is_empty}

-- A metric is an int or float, a bool, or (in a supervisor's own log) a name.
pub data Metric : Type 0 where
  number : ℕ → Metric
  flag : Bool → Metric
  label : Text → Metric

abbrev pub Metrics : Type 0
Metrics = List (Text × Metric)

-- One public lifecycle event. `none` is Python's None, or a key that is absent.
pub record Event : Type 0 where
  pub event_id : Text
  pub timestamp : Text
  pub objective_id : Text
  pub job_id : Text
  pub worker_id : Text
  pub actor : Text
  pub kind : Option Text
  pub task_id : Option Text
  pub event_type : Text
  pub previous_state : Text
  pub new_state : Text
  pub metrics : Metrics
  pub action : Text
  pub outcome : Text
  pub artifact_refs : List Text
  pub error : Option Text
  pub message : Option Text

-- A row with SQLite's rowid.
pub record EventRow : Type 0 where
  pub rowid : ℕ
  pub event : Event

unfoldable pub contains_event : Text → List EventRow → Bool
contains_event id [] = false
contains_event id (r ∷ rs) = text_eq r.event.event_id id || contains_event id rs

-- SQLite gives a new row the largest rowid plus one.
unfoldable pub next_rowid : List EventRow → ℕ
next_rowid [] = 1
next_rowid (r ∷ rs) = max (suc r.rowid) (next_rowid rs)

-- `ORDER BY timestamp DESC, rowid DESC`
unfoldable pub newer : EventRow → EventRow → Bool
newer a b =
    not (text_leb a.event.timestamp b.event.timestamp)
    || (text_eq a.event.timestamp b.event.timestamp && leb b.rowid a.rowid)

unfoldable pub newest : ℕ → List EventRow → List EventRow
unfolding newer
newest n rows = take n (sort_by newer rows)

unfoldable pub rowid_in : ℕ → List EventRow → Bool
rowid_in id [] = false
rowid_in id (r ∷ rs) = r.rowid == id || rowid_in id rs

-- `DELETE FROM events WHERE rowid NOT IN (SELECT rowid … LIMIT ?)`
unfoldable pub prune : ℕ → List EventRow → List EventRow
unfolding rowid_in newest
prune retention rows = keep (λ r. rowid_in r.rowid (newest retention rows)) rows

-- `INSERT OR IGNORE`
unfoldable pub insert_event : Event → List EventRow → List EventRow
unfolding contains_event next_rowid
insert_event e rows =
    if contains_event e.event_id rows
    then rows
    else rows ++ record { rowid = next_rowid rows; event = e } ∷ []

unfoldable pub append_event : ℕ → Event → List EventRow → Result (List EventRow)
unfolding insert_event prune
append_event retention e rows =
    if is_empty e.event_id
    then err value_error
    else if is_empty e.timestamp
    then err value_error
    else ok (prune retention (insert_event e rows))

-- `append_events`: the loop stops at the first event that is refused, and keeps what it has written.
unfoldable pub append_events : ℕ → List Event → List EventRow → Result (Unit {0}) × List EventRow
unfolding append_event
append_events retention [] rows = (ok tt, rows)
append_events retention (e ∷ es) rows = elim (append_event retention e rows) [
  | ok after ↦ append_events retention es after
  | err x ↦ (err x, rows)
]

-- The newest events, oldest first.
unfoldable pub recent_events : ℕ → ℕ → List EventRow → List Event
unfolding newest
recent_events retention limit rows =
    map (λ (r : EventRow). r.event) (reverse (newest (max 1 (min limit retention)) rows))

unfoldable pub event_count : List EventRow → ℕ
event_count rows = length rows
