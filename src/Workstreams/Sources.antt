-- ===== src/Workstreams/Sources.antt =====
-- What the sources of the streams show: `_indexed`, `_resolve` and the state and metrics that it
-- reads, of manager/workstreams.py.
use machine_manager.Base.{ℕ, Bool, false, none, some, List, [], ◌∷◌, if◌then◌else◌}
use machine_manager.Base.Result.{Result, ok, map_result, and_then}
use machine_manager.Base.Text.{Text, text, text_eq, text_mem, upper, is_empty}
use machine_manager.Base.Assoc.{select, upsert}
use machine_manager.Base.Json.{
  Json, string, boolean, integer, negative, float, object, array, Items, nil, item, Fields, empty,
  field, get, get_or, or_else, str, or_null,
}
use machine_manager.Store.Snapshots.{text_at}
use machine_manager.Workstreams.{Workstream}

abbrev is_metric : Text → Bool
is_metric key = text_mem key (
    text "candidate_count"
    ∷ text "files_scanned"
    ∷ text "more_pending"
    ∷ text "tasks_completed"
    ∷ text "capability_count"
    ∷ [])

-- What the sources show: the items that are objects, by their ids.
pub record Sources : Type 0 where
  pub agents : List (Text × Fields)
  pub audits : List (Text × Fields)
  pub profiles : List (Text × Fields)

-- `_agent_state`, of `str(value or "").upper()`
unfoldable pub agent_state : Text → Text
unfolding text text_eq text_mem
agent_state s =
    if text_eq s (text "WORKING")
    then text "RUNNING"
    else if text_mem s (text "READY" ∷ text "WAITING" ∷ [])
    then text "WAITING"
    else if text_eq s (text "DEGRADED")
    then text "DEGRADED"
    else text "UNKNOWN"

-- `_audit_state`
unfoldable pub audit_state : Text → Text
unfolding text text_eq
audit_state s =
    if text_eq s (text "RUNNING")
    then text "RUNNING"
    else if text_eq s (text "NEEDS_EVIDENCE_REVIEW")
    then text "REVIEW"
    else if text_eq s (text "NO_CANDIDATES")
    then text "WAITING"
    else if text_eq s (text "FAILED")
    then text "DEGRADED"
    else text "UNKNOWN"

-- `_profile_state`
unfoldable pub profile_state : Text → Text
unfolding text text_eq
profile_state s =
    if text_eq s (text "RETEST_REQUIRED")
    then text "REVIEW"
    else if text_eq s (text "READY")
    then text "WAITING"
    else text "UNKNOWN"

unfoldable pub count_items : Items → ℕ
count_items nil = 0
count_items (item x xs) = Prim.Native.Nat.suc (count_items xs)

-- `len(value) if isinstance(value, list) else 0`
abbrev list_length : Json → ℕ
list_length (array xs) = count_items xs
list_length _ = 0

-- `repr` is Python's for a container, `whole` is `int` of a float or an exception.
module _ (repr : Json → Text) (whole : Text → Result ℕ) where
  -- `_indexed`: the last item with an id counts.
  unfoldable pub indexed : List (Text × Fields) → List Json → List (Text × Fields)
  unfolding upsert get_or text str
  indexed index [] = index
  indexed index (object d ∷ rest) =
      let key = text_at repr (text "id") (string []) d in
      indexed (if is_empty key then index else upsert key d index) rest
  indexed index (_ ∷ rest) = indexed index rest

  -- `max(0, int(item))` of a number, and what is not a number is left out.
  abbrev add_metric : Text → Json → Fields → Result Fields
  add_metric key (boolean b) rest = ok (field key (boolean b) rest)
  add_metric key (integer n) rest = ok (field key (integer n) rest)
  add_metric key (negative n) rest = ok (field key (integer 0) rest)
  add_metric key (float x) rest = map_result (λ n. field key (integer n) rest) (whole x)
  add_metric key _ rest = ok rest

  -- `_safe_metrics`
  unfoldable pub safe_metrics : Fields → Result Fields
  unfolding text text_mem
  safe_metrics empty = ok empty
  safe_metrics (field key value rest) =
      let later = safe_metrics rest in
      if is_metric key then and_then later (add_metric key value) else later

  abbrev source_state : Fields → Text
  source_state d = upper (str repr (or_else (or_null (get (text "state") d)) (string [])))

  abbrev resolved : Text → Fields → Result (Text × Fields)
  resolved state metrics = map_result (λ m. (state, m)) (safe_metrics metrics)

  -- `_resolve`
  unfoldable pub resolve : Workstream → Sources → Result (Text × Fields)
  unfolding select agent_state audit_state profile_state safe_metrics get get_or or_else str text
      count_items
  resolve spec sources =
      if text_eq spec.source_kind (text "static")
      then ok (spec.state, empty)
      else if text_eq spec.source_kind (text "agent")
      then elim (select spec.source_id sources.agents) [
        | none ↦ ok (text "UNKNOWN", empty)
        | some agent ↦ resolved (agent_state (source_state agent)) (
            field (text "tasks_completed") (get_or (text "tasks_completed") (integer 0) agent)
              empty)
      ]
      else if text_eq spec.source_kind (text "constraint_audit")
      then elim (select spec.source_id sources.audits) [
        | none ↦ ok (text "WAITING", empty)
        | some audit ↦ resolved (audit_state (source_state audit)) (
            field (text "candidate_count") (get_or (text "candidate_count") (integer 0) audit) (
              field (text "files_scanned") (get_or (text "files_scanned") (integer 0) audit) (
                field (text "more_pending") (get_or (text "more_pending") (boolean false) audit)
                  empty)))
      ]
      else elim (select spec.source_id sources.profiles) [
        | none ↦ ok (text "UNKNOWN", empty)
        | some profile ↦ resolved (profile_state (source_state profile)) (
            field (text "capability_count")
              (integer (list_length (get_or (text "capabilities") (array nil) profile))) empty)
      ]
