-- ===== src/Workstreams/Registry.antt =====
-- `WorkstreamRegistry` of manager/workstreams.py: the state of a stream from what its source shows,
-- and the synchronization with the store.
use machine_manager.Base.{
  ℕ, Bool, false, ◌&&◌, ◌||◌, Option, none, some, List, [], ◌∷◌, ◌++◌, if◌then◌else◌,
}
use machine_manager.Base.Result.{Result, ok, err}
use machine_manager.Base.Exec.{Exec, pure, gets, lift, ◌>>=◌}
use machine_manager.Base.Text.{Text, text, text_eq}
use machine_manager.Base.Assoc.{select, upsert}
use machine_manager.Base.Json.{Json, string, object, Fields, empty, field, get_or, str, truthy, put}
use machine_manager.Store.Snapshots.{
  Table, upsert_workstream, get_workstream, list_workstreams, text_at,
}
use machine_manager.Workstreams.{Workstream}
use machine_manager.Workstreams.Sources.{Sources, resolve, indexed}

-- The event of a change; `previous_state` is UNKNOWN always.
pub record Change : Type 0 where
  pub event_id : Text
  pub timestamp : Text
  pub stream : Workstream
  pub event_type : Text
  pub new_state : Text
  pub outcome : Text
  pub metrics : Fields

-- The readings of the clock for a stream, `utc_now` twice and `time_ns`.
pub record Clock : Type 0 where
  pub updated_at : Text → Text
  pub event_at : Text → Text
  pub event_ns : Text → Text

-- `repr` and `whole` are those of Sources, and `dumps` is `json.dumps` with sorted keys.
module _ (repr : Json → Text) (whole : Text → Result ℕ) (dumps : Fields → Text) where
  -- The record of a stream before it is stamped.
  unfoldable pub proposed : Workstream → Text × Fields → Fields
  unfolding text
  proposed spec (state, metrics) = field (text "id") (string spec.stream_id) (
      field (text "objective_id") (string spec.objective_id) (
        field (text "title") (string spec.title) (
          field (text "lane") (string spec.lane) (
            field (text "owner") (string spec.owner) (
              field (text "state") (string state) (
                field (text "summary") (string spec.summary) (
                  field (text "next_action") (string spec.next_action) (
                    field (text "source_kind") (string spec.source_kind) (
                      field (text "source_id") (string spec.source_id)
                        (field (text "metrics") (object metrics) empty))))))))))

  unfoldable pub without_stamps : Fields → Fields
  unfolding text text_eq
  without_stamps empty = empty
  without_stamps (field key value rest) =
      let later = without_stamps rest in
      if text_eq key (text "updated") || text_eq key (text "fingerprint")
      then later
      else field key value later

  -- `_fingerprint`
  unfoldable pub fingerprint : Fields → Text
  unfolding without_stamps
  fingerprint d = dumps (without_stamps d)

  -- `proposed["fingerprint"] = …` and `proposed["updated"] = utc_now()`
  unfoldable pub stamped : Text → Text → Fields → Fields
  unfolding put text
  stamped print now d =
      put (text "updated") (string now) (put (text "fingerprint") (string print) d)

  -- `_event`
  unfoldable pub change_event : Clock → Workstream → Text → Text → Text → Fields → Change
  unfolding text
  change_event clock spec event_type state outcome metrics = record {
    event_id =
        text "evt-workstream-" ++ spec.stream_id ++ text "-" ++ clock.event_ns spec.stream_id;
    timestamp = clock.event_at spec.stream_id;
    stream = spec;
    event_type = event_type;
    new_state = state;
    outcome = outcome;
    metrics = metrics;
  }

  -- `prior and str(prior.get("fingerprint", "")) == fingerprint`
  unfoldable pub is_current : Text → Option Fields → Bool
  unfolding get_or text str text_eq truthy
  is_current print none = false
  is_current print (some prior) =
      truthy (object prior) && text_eq (text_at repr (text "fingerprint") (string []) prior) print

  unfoldable pub changes : Clock → Workstream → Text × Fields → Option Fields → List Change
  unfolding change_event get_or text str text_eq
  changes clock spec (state, metrics) none =
      change_event clock spec (text "workstream_registered") state (text "registered") metrics ∷ []
  changes clock spec (state, metrics) (some prior) =
      if text_eq (text_at repr (text "state") (string (text "UNKNOWN")) prior) state
      then []
      else change_event clock spec (text "workstream_state_changed") state
          (text "state_synchronized") metrics
        ∷ []

  abbrev same_record : Option Fields → Fields
  same_record none = empty
  same_record (some prior) = prior

  -- The body of the loop of `sync`.
  unfoldable pub sync_stream : Clock → Sources → Workstream → Exec Table (Fields × List Change)
  unfolding resolve proposed fingerprint is_current stamped changes upsert_workstream
  sync_stream clock sources spec = lift (resolve repr whole spec sources) >>= λ found.
      let draft = proposed spec found in
      let print = fingerprint draft in
      gets (get_workstream spec.stream_id) >>= λ prior.
      if is_current print prior
      then pure (same_record prior, [])
      else let written = stamped print (clock.updated_at spec.stream_id) draft in
        (λ rows. elim (upsert_workstream repr written rows) [
          | ok after ↦ (ok (written, changes clock spec found prior), after)
          | err e ↦ (err e, rows)
        ])

  -- The loop of `sync`, with the indexed sources.
  unfoldable pub sync : Clock → Sources → List Workstream → Exec Table (List Fields × List Change)
  unfolding sync_stream
  sync clock sources [] = pure ([], [])
  sync clock sources (spec ∷ specs) = sync_stream clock sources spec >>= λ one.
      sync clock sources specs >>= λ rest. pure (one.0 ∷ rest.0, one.1 ++ rest.1)

  -- `sync`, of what the agents, the audits and the profiles show
  unfoldable pub sync_observed :
      Clock
      → List Json
      → List Json
      → List Json
      → List Workstream
      → Exec Table (List Fields × List Change)
  unfolding sync indexed
  sync_observed clock agents audits profiles specs =
      let sources : Sources = record {
        agents = indexed repr whole [] agents;
        audits = indexed repr whole [] audits;
        profiles = indexed repr whole [] profiles;
      } in
      sync clock sources specs

  -- The stored records of the configured streams, in the order of the configuration.
  unfoldable pub stored_records : List (Text × Fields) → List Workstream → List Fields
  unfolding select
  stored_records stored [] = []
  stored_records stored (spec ∷ rest) =
      let later = stored_records stored rest in
      elim (select spec.stream_id stored) [ none ↦ later | some d ↦ d ∷ later ]

  -- `{str(item.get("id", "")): item for item in …}`
  unfoldable pub by_id : List (Text × Fields) → List Fields → List (Text × Fields)
  unfolding upsert get_or text str
  by_id index [] = index
  by_id index (d ∷ rest) = by_id (upsert (text_at repr (text "id") (string []) d) d index) rest

  -- `public_snapshot`
  unfoldable pub public_snapshot : List Workstream → Table → List Fields
  unfolding stored_records by_id list_workstreams
  public_snapshot specs rows = stored_records (by_id [] (list_workstreams repr rows)) specs
