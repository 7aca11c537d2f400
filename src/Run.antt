-- ===== src/Run.antt =====
-- manager/run.py: the local environment file, the merge of public events, the marker of the host's
-- boot, the operator's acknowledgement, and the part of `main` that recovers and runs the queue.
pub mod Environment
pub mod PublicEvents
pub mod FreshEvents
pub mod Resuming
pub mod Cycles
pub mod Launch
use machine_manager.Base.{
  ℕ, ◌-◌, leb, Bool, true, false, not, ◌&&◌, ◌||◌, Option, none, some, List, [], ◌∷◌, ◌++◌, max,
  ◌==◌, if◌then◌else◌, length, drop,
}
use machine_manager.Base.Exec.{Exec, pure, try_except, ◌>>=◌, ◌>>◌}
use machine_manager.Base.Json.{Json, string, object, Fields, get_or, str}
use machine_manager.Base.Result.{Result, ok, err}
use machine_manager.Base.Text.{Text, text, text_eq, strip, upper, is_empty}
use machine_manager.Store.{Store, MetaValue, cursor, mapping, plain, set_meta, get_meta}
use machine_manager.Store.Events.{Event, number}
use machine_manager.Store.Snapshots.{text_at}
use machine_manager.Runtime.{Runtime, System, append, read_stamp, fresh_uuid}
use machine_manager.Scheduler.{recover_interrupted}
use machine_manager.Store.Tasks.{WorkItem}
use machine_manager.Dispatcher.{Dispatcher, Outcome, DispatchResult}
use machine_manager.Dispatcher.Background.{Background, in_system, dispatch_background}
use machine_manager.Dispatcher.Sync.{dispatch}
use machine_manager.Workstreams.{is_identifier}

-- `s.startswith(prefix)`
unfoldable pub has_prefix : Text → Text → Bool
has_prefix [] s = true
has_prefix (p ∷ ps) [] = false
has_prefix (p ∷ ps) (c ∷ s) = p == c && has_prefix ps s

-- `s.split("=", 1)`, or none without the sign.
unfoldable pub split_equals : Text → Option (Text × Text)
split_equals [] = none
split_equals (c ∷ s) =
    let later = split_equals s in
    if c == 61 then some ([], s) else elim later [ none ↦ none | some (k, v) ↦ some (c ∷ k, v) ]

-- `s[:-1]` and `s[-1]`
unfoldable pub split_last : Text → Option (Text × ℕ)
split_last [] = none
split_last (c ∷ s) = elim (split_last s) [ none ↦ some ([], c) | some (t, d) ↦ some (c ∷ t, d) ]

-- A value in a pair of one kind of quotes loses them.
unfoldable pub unquote : Text → Text
unfolding split_last
unquote [] = []
unquote (c ∷ s) = elim (split_last s) [
  | none ↦ c ∷ s
  | some (inner, last) ↦ if c == last && (c == 39 || c == 34) then inner else c ∷ s
]

abbrev pub Environ : Type 0
Environ = List (Text × Text)

-- `os.environ.setdefault(key, value)`
unfoldable pub set_default : Text → Text → Environ → Environ
set_default key value [] = (key, value) ∷ []
set_default key value ((k, v) ∷ rest) =
    let later = set_default key value rest in
    if text_eq k key then (k, v) ∷ rest else (k, v) ∷ later

abbrev pub is_own_key : Text → Bool
is_own_key key = has_prefix (text "MACHINE_MANAGER_") key || has_prefix (text "GITHUB_") key

abbrev pub load_pair : Option (Text × Text) → Environ → Environ
load_pair none env = env
load_pair (some (k, v)) env =
    if is_own_key (strip k) then set_default (strip k) (unquote (strip v)) env else env

-- The body of the loop of `load_env_file`.
unfoldable pub load_line : Text → Environ → Environ
unfolding has_prefix split_equals unquote set_default text
load_line line env =
    let stripped = strip line in
    if is_empty stripped || has_prefix (text "#") stripped
    then env
    else load_pair (split_equals stripped) env

-- The characters that end a line for `str.splitlines`.
abbrev pub is_break : ℕ → Bool
is_break c = (leb 10 c && leb c 13) || (leb 28 c && leb c 30) || c == 133 || c == 8232 || c == 8233

abbrev pub add_char : ℕ → List Text → List Text
add_char c [] = (c ∷ []) ∷ []
add_char c (line ∷ lines) = (c ∷ line) ∷ lines

-- `s.splitlines()`, of a text in which `read_text` has turned each CR LF into LF.
unfoldable pub split_lines : Text → List Text
split_lines [] = []
split_lines (c ∷ s) = let rest = split_lines s in if is_break c then [] ∷ rest else add_char c rest

unfoldable pub load_lines : List Text → Environ → Environ
unfolding load_line
load_lines [] env = env
load_lines (line ∷ lines) env = load_lines lines (load_line line env)

-- `load_env_file`, of the text of the file, if there is one.
unfoldable pub load_env_file : Option Text → Environ → Environ
unfolding load_lines split_lines
load_env_file none env = env
load_env_file (some content) env = load_lines (split_lines content) env

-- `isinstance(previous, str) and previous != marker`
abbrev pub differs : Option MetaValue → Text → Bool
differs none marker = false
differs (some (cursor t)) marker = false
differs (some (mapping t n at)) marker = false
differs (some (plain previous)) marker = not (text_eq previous marker)

-- `update_host_boot_marker`, of the marker that the host gives; `not marker` is no marker.
unfoldable pub update_host_boot_marker : Option Text → Store → Bool × Store
unfolding set_meta get_meta text text_eq
update_host_boot_marker none store = (false, store)
update_host_boot_marker (some []) store = (false, store)
update_host_boot_marker (some (c ∷ marker)) store = (
  differs (get_meta (text "host_boot_marker") store) (c ∷ marker),
  set_meta (text "host_boot_marker") (plain (c ∷ marker)) store,
)

-- `f"operator_resume:{request_id}"`
abbrev pub resume_key : Text → Text
resume_key request_id = text "operator_resume:" ++ request_id

-- The truth of `store.get_meta(key)`.
abbrev pub meta_is_set : Option MetaValue → Bool
meta_is_set none = false
meta_is_set (some (cursor t)) = true
meta_is_set (some (mapping t n at)) = true
meta_is_set (some (plain t)) = not (is_empty t)

-- The marking in `main` of an acknowledgement as consumed.
unfoldable pub consume_resume : Text → Text → Store → Store
unfolding set_meta text
consume_resume request_id now store = set_meta (resume_key request_id) (plain now) store

module _ (repr : Json → Text) where
  abbrev pub unconsumed : Text → Text → Text → Store → Option Text
  unconsumed request_id requested_job_id job_id store =
      if not (is_identifier request_id) || not (text_eq requested_job_id job_id)
      then none
      else if meta_is_set (get_meta (resume_key request_id) store)
      then none
      else some request_id

  -- `_pending_operator_resume`, of `config.get("operator_resume")` if it is an object
  unfoldable pub pending_operator_resume : Option Fields → Text → Text → Store → Option Text
  unfolding is_identifier get_meta get_or str text text_eq
  pending_operator_resume none job_id prior_state store = none
  pending_operator_resume (some raw) job_id prior_state store =
      if not (text_eq (upper prior_state) (text "ESCALATED"))
      then none
      else unconsumed (strip (text_at repr (text "id") (string []) raw))
          (strip (text_at repr (text "job_id") (string job_id) raw)) job_id store

  -- `str(candidate.get("event_id", "")).strip()`
  unfoldable pub event_id_of : Fields → Text
  unfolding get_or str text
  event_id_of d = strip (text_at repr (text "event_id") (string []) d)

  unfoldable pub has_event : Text → List Fields → Bool
  has_event id [] = false
  has_event id (d ∷ ds) = text_eq (event_id_of d) id || has_event id ds

  -- `merged[positions[event_id]] = candidate`; the position is that of the only record of the id.
  unfoldable pub replace_event : Text → Fields → List Fields → List Fields
  unfolding event_id_of
  replace_event id new [] = []
  replace_event id new (d ∷ ds) =
      let later = replace_event id new ds in
      if text_eq (event_id_of d) id then new ∷ ds else d ∷ later

  unfoldable pub place_event : Fields → List Fields → List Fields
  unfolding has_event replace_event
  place_event d merged =
      let id = event_id_of d in
      if not (is_empty id) && has_event id merged
      then replace_event id d merged
      else merged ++ d ∷ []

  unfoldable pub place_events : List Fields → List Fields → List Fields
  unfolding place_event
  place_events [] merged = merged
  place_events (d ∷ ds) merged = place_events ds (place_event d merged)

  -- The candidates that are objects.
  unfoldable pub mappings : List Json → List Fields
  mappings [] = []
  mappings (object d ∷ rest) = d ∷ mappings rest
  mappings (_ ∷ rest) = mappings rest

  -- `merge_public_events`, with a limit that is not negative
  unfoldable pub merge_public_events : List Json → List Json → ℕ → List Fields
  unfolding place_events mappings
  merge_public_events existing current limit =
      let merged = place_events (mappings (existing ++ current)) [] in
      drop (length merged - max 1 limit) merged

module _ (r : Runtime) where
  -- The event of a recovery.
  abbrev recovered_event : Text → Text → Text → Text → ℕ → Event
  recovered_event stamp id actor objective count = record {
    event_id = text "evt-queue-recovery-" ++ id;
    timestamp = stamp;
    objective_id = objective;
    job_id = text "task-queue";
    worker_id = [];
    actor = actor;
    kind = none;
    task_id = none;
    event_type = text "queue_tasks_recovered";
    previous_state = text "RUNNING";
    new_state = text "QUEUED";
    metrics = (text "tasks_requeued", number count) ∷ [];
    action = text "recover_interrupted_tasks";
    outcome = text "requeued_for_retry";
    artifact_refs = [];
    error = none;
    message = none;
  }

  abbrev pub report_recovery : Text → Text → ℕ → Exec System Unit
  report_recovery actor objective count = do
    stamp ← read_stamp r
    id ← fresh_uuid r
    append (recovered_event stamp id actor objective count)

  -- `main`: `recover_interrupted` and its event, with `fresh_uuid` for the reading of `time_ns`.
  unfoldable pub recover_at_start : Text → Text → Exec System Unit
  unfolding recover_interrupted append text
  recover_at_start actor objective = do
    count ← recover_interrupted r
    (if count == 0 then pure tt else report_recovery actor objective count)

-- The class of `queue_dispatcher`; a background one has its bound on the handlers in flight.
pub data DispatcherType : Type 0 where
  synchronous : DispatcherType
  background : ℕ → DispatcherType

-- The state of either dispatcher; a synchronous one has nothing pending.
module _ (r : Runtime) (d : Dispatcher) (finished : ℕ → WorkItem → Option (Result Outcome)) where
  abbrev pub dispatch_by : DispatcherType → ℕ → ℕ → Exec Background (List DispatchResult)
  dispatch_by synchronous limit now = in_system (dispatch r d limit now)
  dispatch_by (background max_in_flight) limit now =
      dispatch_background r d finished limit max_in_flight now

  -- `main`: `queue_dispatcher.dispatch` of one cycle; an exception is logged and passed over.
  unfoldable pub queue_cycle : DispatcherType → ℕ → ℕ → Exec Background Unit
  unfolding dispatch dispatch_background
  queue_cycle by limit now = try_except (dispatch_by by limit now >> pure tt) (λ e. pure tt)

  -- Some cycles, each with its limit and its time.
  unfoldable pub queue_cycles : DispatcherType → List (ℕ × ℕ) → Exec Background Unit
  unfolding queue_cycle
  queue_cycles by [] = pure tt
  queue_cycles by ((limit, now) ∷ more) = queue_cycle by limit now >> queue_cycles by more
