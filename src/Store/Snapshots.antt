-- ===== src/Store/Snapshots.antt =====
-- The tables of manager/state_store.py that keep one JSON payload under a key: jobs, agents, worker
-- profiles, constraint audits and work streams. The other columns of a row are copies of entries of
-- its payload that only the order of a listing reads.
use machine_manager.Base.{◌&&◌, ◌||◌, Option, List, [], not, if◌then◌else◌, map}
use machine_manager.Base.Result.{Result, ok, err, value_error}
use machine_manager.Base.Sorting.{sort_by}
use machine_manager.Base.Text.{Text, text, text_eq, text_leb, is_empty, strip}
use machine_manager.Base.Assoc.{select, upsert}
use machine_manager.Base.Json.{Json, string, Fields, get_or, str}

-- A row: its key and its payload. `INSERT … ON CONFLICT DO UPDATE` is `upsert`, and
-- `SELECT payload … WHERE key = ?` is `select`.
abbrev pub Table : Type 0
Table = List (Text × Fields)

-- `SELECT payload FROM … ORDER BY key`
unfoldable pub list_by_key : Table → List Fields
list_by_key rows = map (λ row. row.1) (sort_by (λ a b. text_leb a.0 b.0) rows)

module _ (repr : Json → Text) where
  -- `str(d.get(key, default))`
  abbrev pub text_at : Text → Json → Fields → Text
  text_at key default d = str repr (get_or key default d)

  abbrev upsert_under : Text → Fields → Table → Result Table
  upsert_under key payload rows =
      if is_empty key then err value_error else ok (upsert key payload rows)

  -- The id of a job snapshot.
  unfoldable pub job_key : Fields → Text
  unfolding get_or text str
  job_key snapshot = text_at (text "job_id") (get_or (text "id") (string []) snapshot) snapshot

  unfoldable pub upsert_job : Fields → Table → Result Table
  unfolding job_key upsert
  upsert_job snapshot = upsert_under (job_key snapshot) snapshot

  unfoldable pub upsert_agent : Fields → Table → Result Table
  unfolding get_or text str upsert
  upsert_agent snapshot = upsert_under (text_at (text "id") (string []) snapshot) snapshot

  unfoldable pub upsert_worker_profile : Fields → Table → Result Table
  unfolding get_or text str upsert
  upsert_worker_profile profile =
      upsert_under (strip (text_at (text "id") (string []) profile)) profile

  unfoldable pub upsert_constraint_audit : Fields → Table → Result Table
  unfolding get_or text str upsert
  upsert_constraint_audit audit =
      upsert_under (strip (text_at (text "target_id") (string []) audit)) audit

  unfoldable pub upsert_workstream : Fields → Table → Result Table
  unfolding get_or text str upsert
  upsert_workstream snapshot rows =
      let key = text_at (text "id") (get_or (text "stream_id") (string []) snapshot) snapshot in
      if is_empty key || is_empty (text_at (text "updated") (string []) snapshot)
      then err value_error
      else ok (upsert key snapshot rows)

  -- `ORDER BY updated DESC, stream_id`
  unfoldable pub list_workstreams : Table → List Fields
  unfolding get_or text str
  list_workstreams rows =
      let updated = λ (row : Text × Fields). text_at (text "updated") (string []) row.1 in
      map (λ row. row.1)
        (sort_by
          (λ a b.
            not (text_leb (updated a) (updated b))
            || (text_eq (updated a) (updated b) && text_leb a.0 b.0))
          rows)

abbrev pub get_job : Text → Table → Option Fields
get_job = select

abbrev pub list_jobs : Table → List Fields
list_jobs = list_by_key

abbrev pub list_agents : Table → List Fields
list_agents = list_by_key

abbrev pub get_worker_profile : Text → Table → Option Fields
get_worker_profile = select

abbrev pub list_worker_profiles : Table → List Fields
list_worker_profiles = list_by_key

abbrev pub get_constraint_audit : Text → Table → Option Fields
get_constraint_audit = select

abbrev pub list_constraint_audits : Table → List Fields
list_constraint_audits = list_by_key

abbrev pub get_workstream : Text → Table → Option Fields
get_workstream = select
