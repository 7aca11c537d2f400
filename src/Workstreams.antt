-- ===== src/Workstreams.antt =====
-- manager/workstreams.py: the texts that a work stream may show, and the reading of its
-- configuration.
pub mod Safety
pub mod Sources
pub mod Registry
pub mod Records
pub mod Syncing
use machine_manager.Base.{
  ℕ, ◌≡◌, Bool, true, false, not, ◌&&◌, ◌||◌, Option, none, some, List, [], ◌∷◌, ◌++◌, ltb, leb,
  ◌==◌, if◌then◌else◌, take, length, map,
}
use machine_manager.Base.Result.{Result, ok, err, value_error, and_then}
use machine_manager.Base.Text.{
  Text, text, text_eq, text_mem, strip, lstrip, all_distinct, lower, upper, is_empty, text_or,
}
use machine_manager.Base.Search.{
  is_letter, is_alphanumeric, all_chars, after_literal, assigns, starts_with, found_in,
}
use machine_manager.Base.Json.{
  Json, null, string, boolean, integer, negative, float, object, array, Fields, empty, field, get,
  get_or, or_else, str, truthy, or_null,
}

-- `[A-Za-z0-9_.:-]`
abbrev is_identifier_char : ℕ → Bool
is_identifier_char c = is_alphanumeric c || c == 95 || c == 46 || c == 58 || c == 45

-- `_IDENTIFIER.fullmatch`
unfoldable pub is_identifier : Text → Bool
unfolding all_chars
is_identifier [] = false
is_identifier (c ∷ s) = is_alphanumeric c && (all_chars is_identifier_char s && leb (length s) 99)

-- `[A-Za-z]:[\\/]`; without regard to case the class also has four letters beyond ASCII.
abbrev starts_with_drive : Text → Bool
starts_with_drive (a ∷ b ∷ c ∷ s) =
    (is_letter a || a == 0x130 || a == 0x131 || a == 0x17f || a == 0x212a)
    && (b == 58 && (c == 92 || c == 47))
starts_with_drive _ = false

-- `_SENSITIVE_TEXT` at the start of a text.
unfoldable pub sensitive_here : Text → Bool
unfolding assigns starts_with text
sensitive_here s =
    starts_with_drive s
    || starts_with (text "/users/") s
    || starts_with (text "/home/") s
    || starts_with (text "\\\\") s
    || assigns (text "token") s
    || assigns (text "secret") s
    || assigns (text "password") s

-- `_SENSITIVE_TEXT.search`
unfoldable pub is_sensitive : Text → Bool
unfolding sensitive_here found_in
is_sensitive s = found_in sensitive_here s

-- `.replace("\r", " ").replace("\n", " ")`
unfoldable pub one_line : Text → Text
one_line [] = []
one_line (c ∷ s) = (if c == 13 || c == 10 then 32 else c) ∷ one_line s

abbrev pub redacted : Text
redacted = text "[redacted]"

abbrev pub redact_sensitive : Text → Text
redact_sensitive s = if is_sensitive s then redacted else s

abbrev pub states : List Text
states =
    text "QUEUED"
    ∷ text "RUNNING"
    ∷ text "WAITING"
    ∷ text "REVIEW"
    ∷ text "COMPLETE"
    ∷ text "FAILED"
    ∷ text "ESCALATED"
    ∷ text "DEGRADED"
    ∷ text "UNKNOWN"
    ∷ []

abbrev pub source_kinds : List Text
source_kinds = text "static" ∷ text "agent" ∷ text "constraint_audit" ∷ text "worker_profile" ∷ []

pub record Workstream : Type 0 where
  pub stream_id : Text
  pub objective_id : Text
  pub title : Text
  pub lane : Text
  pub owner : Text
  pub summary : Text
  pub next_action : Text
  pub state : Text
  pub source_kind : Text
  pub source_id : Text

module _ (repr : Json → Text) where
  -- `_identifier`
  unfoldable pub identifier : Json → Result Text
  unfolding is_identifier
  identifier value =
      let s = strip (str repr (or_else value (string []))) in
      if is_identifier s then ok s else err value_error

  -- `default if value is None else str(value)`
  abbrev given_text : Json → Text → Text
  given_text null default = default
  given_text value default = str repr value

  -- `_safe_text`
  unfoldable pub safe_text : Json → Text → ℕ → Text
  unfolding one_line is_sensitive
  safe_text value default max_len =
      redact_sensitive (take max_len (strip (one_line (given_text value default))))

  -- `_state`
  unfoldable pub state_text : Json → Text → Text
  state_text value default =
      let candidate = upper (strip (str repr (or_else value (string default)))) in
      if text_mem candidate states then candidate else default

  -- `source = value.get("source", {})`, where None stands for no source.
  abbrev source_of : Json → Result Fields
  source_of null = ok empty
  source_of (object d) = ok d
  source_of _ = err value_error

  -- The id of a source, and none for a static stream.
  abbrev pub source_id_of : Text → Fields → Result Text
  source_id_of kind source =
      if text_eq kind (text "static") then ok [] else identifier (or_null (get (text "id") source))

  -- `source_kind not in SOURCE_KINDS`
  abbrev check_kind : Text → Result Text
  check_kind kind = if text_mem kind source_kinds then ok kind else err value_error

  abbrev source_kind_of : Fields → Text
  source_kind_of source = lower (safe_text (or_null (get (text "kind") source)) (text "static") 40)

  abbrev shown : Text → Fields → Text → ℕ → Text
  shown key value default max_len = safe_text (or_null (get key value)) default max_len

  abbrev workstream_of : Text → Text → Text → Text → Fields → Workstream
  workstream_of stream_id objective_id source_kind source_id value = record {
    stream_id = stream_id;
    objective_id = objective_id;
    title = text_or (shown (text "title") value stream_id 120) stream_id;
    lane = text_or (shown (text "lane") value (text "General") 80) (text "General");
    owner = text_or (shown (text "owner") value (text "local-manager") 80) (text "local-manager");
    summary = shown (text "summary") value [] 220;
    next_action = shown (text "next_action") value [] 180;
    state = state_text (or_null (get (text "state") value)) (text "QUEUED");
    source_kind = source_kind;
    source_id = source_id;
  }

  -- `WorkstreamSpec.from_mapping`
  unfoldable pub from_mapping : Fields → Result Workstream
  unfolding identifier safe_text state_text get get_or text
  from_mapping value =
      and_then (identifier (get_or (text "id") (or_null (get (text "stream_id") value)) value))
        (λ stream_id. and_then (source_of (get_or (text "source") (object empty) value)) (λ source.
          and_then (check_kind (source_kind_of source)) (λ kind.
            and_then (source_id_of kind source) (λ source_id.
              and_then (identifier (get_or (text "objective_id") (string stream_id) value))
                (λ objective_id. ok (workstream_of stream_id objective_id kind source_id value))))))

  unfoldable pub specs_of : List Json → Result (List Workstream)
  unfolding from_mapping
  specs_of [] = ok []
  specs_of (object value ∷ rest) =
      and_then (from_mapping value) (λ spec. and_then (specs_of rest) (λ specs. ok (spec ∷ specs)))
  specs_of (_ ∷ rest) = specs_of rest

  -- `WorkstreamRegistry.__init__`
  unfoldable pub new_registry : List Json → Result (List Workstream)
  unfolding specs_of all_distinct
  new_registry raw =
      and_then (specs_of raw)
        (λ specs. if all_distinct (map (λ s. s.stream_id) specs) then ok specs else err value_error)
