-- ===== src/Evidence/Profiles.antt =====
-- Worker profiles of manager/evidence.py: their configuration, the record that the store keeps, and
-- the events of their synchronization.
use machine_manager.Base.{
  ℕ, Bool, false, not, ◌&&◌, ◌||◌, Option, none, some, List, [], ◌∷◌, ◌++◌, leb, ◌==◌,
  if◌then◌else◌, take, length, map,
}
use machine_manager.Base.Exec.{Exec, pure, gets, ◌>>=◌}
use machine_manager.Base.Result.{Result, ok, err, value_error, and_then}
use machine_manager.Base.Text.{
  Text, text, text_eq, text_mem, strip, upper, is_empty, all_distinct, text_or,
}
use machine_manager.Base.Search.{is_alphanumeric, all_chars}
use machine_manager.Base.Json.{
  Json, string, boolean, object, array, Items, nil, item, Fields, empty, field, get, get_or,
  or_else, str, truthy, or_null,
}
use machine_manager.Store.Snapshots.{Table, upsert_worker_profile, get_worker_profile, text_at}
use machine_manager.Evidence.{is_secret, collapse}

-- `CapabilityObservation`
pub record Observation : Type 0 where
  pub capability_id : Text
  pub status : Text
  pub summary : Text
  pub evidence_id : Text
  pub observed_at : Text

-- `WorkerProfile`
pub record Profile : Type 0 where
  pub worker_id : Text
  pub provider : Text
  pub model : Text
  pub model_version : Text
  pub verified_model_version : Text
  pub last_verified : Text
  pub capabilities : List Observation

-- The event of a profile.
pub record ProfileEvent : Type 0 where
  pub event_type : Text
  pub new_state : Text
  pub outcome : Text
  pub capability_count : ℕ
  pub worker_id : Text

abbrev observation_states : List Text
observation_states =
    text "TESTED_PASS"
    ∷ text "TESTED_FAIL"
    ∷ text "OBSERVED"
    ∷ text "UNKNOWN"
    ∷ text "UNAVAILABLE"
    ∷ []

-- `[A-Za-z0-9][A-Za-z0-9._:-]*`, within 100 characters
unfoldable pub is_compact_id : Text → Bool
unfolding all_chars
is_compact_id [] = false
is_compact_id (c ∷ s) =
    leb (length (c ∷ s)) 100
    && (is_alphanumeric c
        && all_chars (λ d. is_alphanumeric d || d == 46 || d == 95 || d == 58 || d == 45) s)

-- `repr` is Python's for a container, and `digest` is the SHA-256 of a text in hexadecimal.
module _ (repr : Json → Text) (digest : Text → Text) where
  -- `_identifier`
  unfoldable pub compact_id : Json → Result Text
  unfolding is_compact_id or_else str
  compact_id value =
      let s = strip (str repr (or_else value (string []))) in
      if is_compact_id s then ok s else err value_error

  -- `_safe_text`
  unfoldable pub safe_summary : Json → ℕ → Text
  unfolding collapse is_secret or_else str text
  safe_summary value max_len =
      let s = take max_len (collapse (str repr (or_else value (string [])))) in
      if is_secret s then text "[redacted]" else s

  abbrev known_status : Text → Result Text
  known_status s = if text_mem s observation_states then ok s else err value_error

  abbrev evidence_id_of : Text → Result Text
  evidence_id_of s = if is_empty s then ok [] else compact_id (string s)

  -- `CapabilityObservation.from_mapping`
  unfoldable pub observation_of : Fields → Result Observation
  unfolding compact_id safe_summary get get_or str text text_mem
  observation_of value =
      and_then (compact_id (get_or (text "id") (or_null (get (text "capability_id") value)) value))
        (λ id.
          let given =
            upper (strip (text_at repr (text "status") (string (text "UNKNOWN")) value)) in
          and_then (known_status (text_or given (text "UNKNOWN"))) (λ status.
            and_then (evidence_id_of (strip (text_at repr (text "evidence_id") (string []) value)))
              (λ evidence_id. ok (record {
                capability_id = id;
                status = status;
                summary = safe_summary (or_null (get (text "summary") value)) 180;
                evidence_id = evidence_id;
                observed_at = safe_summary (or_null (get (text "observed_at") value)) 40;
              }))))

  unfoldable pub observations_of : Items → Result (List Observation)
  unfolding observation_of
  observations_of nil = ok []
  observations_of (item (object value) rest) =
      and_then (observation_of value) (λ o. and_then (observations_of rest) (λ os. ok (o ∷ os)))
  observations_of (item _ rest) = observations_of rest

  abbrev capabilities_of : Json → Result (List Observation)
  capabilities_of (array xs) = observations_of xs
  capabilities_of _ = err value_error

  abbrev distinct_capabilities : List Observation → Result (List Observation)
  distinct_capabilities os =
      if all_distinct (map (λ (o : Observation). o.capability_id) os)
      then ok os
      else err value_error

  -- `WorkerProfile.from_mapping`
  unfoldable pub profile_of : Fields → Result Profile
  unfolding compact_id safe_summary observations_of get get_or text all_distinct
  profile_of value =
      let unknown = text "unknown" in
      and_then (compact_id (get_or (text "id") (or_null (get (text "worker_id") value)) value))
        (λ id.
          let version =
            safe_summary
              (get_or (text "model_version") (get_or (text "version") (string unknown) value) value)
              100 in
          let verified =
            safe_summary
              (get_or (text "verified_model_version")
                (get_or (text "verified_version") (string version) value) value)
              100 in
          and_then (capabilities_of (get_or (text "capabilities") (array nil) value)) (λ given.
            and_then (distinct_capabilities given) (λ capabilities. ok (record {
              worker_id = id;
              provider =
                  text_or (safe_summary (get_or (text "provider") (string unknown) value) 60)
                    unknown;
              model =
                  text_or (safe_summary (get_or (text "model") (string unknown) value) 100) unknown;
              model_version = text_or version unknown;
              verified_model_version = text_or verified unknown;
              last_verified = safe_summary (or_null (get (text "last_verified") value)) 40;
              capabilities = capabilities;
            }))))

  -- `WorkerProfile.fingerprint`
  unfoldable pub profile_fingerprint : Profile → Text
  profile_fingerprint p = digest (p.provider ++ 0 ∷ p.model ++ 0 ∷ p.model_version)

  -- `retest_required`
  unfoldable pub retest_required : Profile → Bool
  retest_required p = not (text_eq p.model_version p.verified_model_version)

  unfoldable pub public_records : List Observation → Items
  unfolding text
  public_records [] = nil
  public_records (o ∷ os) =
      item
        (object (
          field (text "id") (string o.capability_id) (
            field (text "status") (string o.status) (
              field (text "summary") (string o.summary)
                (field (text "observed_at") (string o.observed_at) empty)))))
        (public_records os)

  abbrev state_of_profile : Profile → Text
  state_of_profile p = if retest_required p then text "RETEST_REQUIRED" else text "READY"

  -- `local_record`, at a time
  unfoldable pub local_record : Text → Profile → Fields
  unfolding text public_records retest_required profile_fingerprint
  local_record now p = field (text "id") (string p.worker_id) (
      field (text "provider") (string p.provider) (
        field (text "model") (string p.model) (
          field (text "model_version") (string p.model_version) (
            field (text "verified_model_version") (string p.verified_model_version) (
              field (text "fingerprint") (string (profile_fingerprint p)) (
                field (text "state") (string (state_of_profile p)) (
                  field (text "retest_required") (boolean (retest_required p)) (
                    field (text "last_verified") (string p.last_verified) (
                      field (text "updated") (string now) (
                        field (text "capabilities") (array (public_records p.capabilities))
                          empty))))))))))

  -- `not prior`, and what is read of it.
  abbrev prior_fields : Option Fields → Fields
  prior_fields none = empty
  prior_fields (some d) = d

  abbrev profile_event : Profile → Text → Text → Text → ProfileEvent
  profile_event p event_type new_state outcome = record {
    event_type = event_type;
    new_state = new_state;
    outcome = outcome;
    capability_count = length p.capabilities;
    worker_id = p.worker_id;
  }

  unfoldable pub profile_events : Profile → Option Fields → List ProfileEvent
  unfolding text get_or str truthy text_eq retest_required profile_fingerprint
  profile_events p prior =
      let d = prior_fields prior in
      let is_new = not (truthy (object d)) in
      let was_retest = truthy (get_or (text "retest_required") (boolean false) d) in
      let same_print =
        text_eq (text_at repr (text "fingerprint") (string []) d) (profile_fingerprint p) in
      if retest_required p && (is_new || not was_retest || not same_print)
      then profile_event p (text "worker_profile_retest_due") (text "RETEST_REQUIRED")
          (text "retest_due")
        ∷ []
      else if is_new
      then profile_event p (text "worker_profile_recorded") (state_of_profile p)
          (text "evidence_recorded")
        ∷ []
      else []

  abbrev write_profile : Fields → Exec Table Unit
  write_profile snapshot rows = elim (upsert_worker_profile repr snapshot rows) [
    | ok after ↦ (ok tt, after)
    | err e ↦ (err e, rows)
  ]

  -- The loop of `_sync_profiles`, at a time for each profile.
  unfoldable pub sync_profiles : (Text → Text) → List Profile → Exec Table (List ProfileEvent)
  unfolding local_record profile_events upsert_worker_profile
  sync_profiles clock [] = pure []
  sync_profiles clock (p ∷ ps) = gets (get_worker_profile p.worker_id) >>= λ prior.
      write_profile (local_record (clock p.worker_id) p) >>= λ _.
      sync_profiles clock ps >>= λ later. pure (profile_events p prior ++ later)
