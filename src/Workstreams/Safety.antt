-- ===== src/Workstreams/Safety.antt =====
-- What a configured work stream may show: WorkstreamSpec.from_mapping of manager/workstreams.py.
use machine_manager.Base.{
  ℕ, ◌≤◌, ◌≡◌, refl, sym, subst, ◌⊎◌, inl, inr, true, false, max, [], arith, if◌then◌else◌, if_both,
  take, length, length-take, Bool-cases,
}
use machine_manager.Base.Result.{ok, err, value_error, and_then_ok, ok_inj}
use machine_manager.Base.Text.{
  Text, text, text_eq, text_mem, strip, upper, is_empty, text_or, text_eq→eq,
}
use machine_manager.Base.Json.{Json, string, Fields, get, or_else, str, or_null}
use machine_manager.Workstreams.{
  Workstream, is_identifier, is_sensitive, sensitive_here, redact_sensitive, states, source_kinds,
  one_line, identifier, given_text, safe_text, state_text, check_kind, source_id_of, workstream_of,
  from_mapping,
}
use machine_manager.Base.Search.{assigns, starts_with, after_literal, found_in}

-- A text that may be shown: nothing that looks like a secret or a path, and not too long.
abbrev pub IsShowable : ℕ → Text → Type 0
IsShowable n s = (is_sensitive s ≡ false) × (length s ≤ n)

redact_sensitive-IsShowable :
    (n : ℕ) (s : Text) → length s ≤ n → IsShowable (max n 10) (redact_sensitive s)
unfolding found_in is_sensitive sensitive_here assigns starts_with after_literal text
redact_sensitive-IsShowable n s h =
    if_both (IsShowable (max n 10)) (is_sensitive s) (λ _. (refl, omega arith))
      (λ e. (e, omega arith))

text_or-IsShowable :
    (n : ℕ) (s default : Text)
    → IsShowable n s
    → IsShowable n default
    → IsShowable n (text_or s default)
text_or-IsShowable n s default h k = if_both (IsShowable n) (is_empty s) (λ _. k) (λ _. h)

text_or-shows :
    (n : ℕ) (s default : Text)
    → IsShowable n s
    → IsShowable n (text_or s default) ⊎ (text_or s default ≡ default)
text_or-shows n s default h =
    if_both (λ t. IsShowable n t ⊎ (t ≡ default)) (is_empty s) (λ _. inr refl) (λ _. inl h)

module _ (repr : Json → Text) where
  safe_text-IsShowable :
      (value : Json) (default : Text) (n : ℕ)
      → IsShowable (max n 10) (safe_text repr value default n)
  unfolding safe_text
  safe_text-IsShowable value default n =
      let shown = strip (one_line (given_text repr value default)) in
      redact_sensitive-IsShowable n (take n shown) (omega (arith, length-take n shown))

  state_text-known :
      (value : Json) (default : Text)
      → text_mem default states ≡ true
      → text_mem (state_text repr value default) states ≡ true
  unfolding state_text
  state_text-known value default h =
      if_both (λ s. text_mem s states ≡ true)
        (text_mem (upper (strip (str repr (or_else value (string default))))) states) (λ e. e)
        (λ _. h)

  identifier_sound :
      (value : Json) (id : Text) → identifier repr value ≡ ok id → is_identifier id ≡ true
  unfolding identifier
  identifier_sound value id h = sound (strip (str repr (or_else value (string [])))) h
    where
      sound :
          (s : Text)
          → (if is_identifier s then ok s else err value_error) ≡ ok id
          → is_identifier id ≡ true
      sound s h = elim (Bool-cases (is_identifier s)) [
        | inl e ↦ rw (← ok_inj (rw e at h)) e
        | inr e ↦ cc (rw e at h)
      ]

  check_kind_sound :
      (kind known : Text) → check_kind repr kind ≡ ok known → text_mem known source_kinds ≡ true
  check_kind_sound kind known h = elim (Bool-cases (text_mem kind source_kinds)) [
    | inl e ↦ rw (← ok_inj (rw e at h)) e
    | inr e ↦ cc (rw e at h)
  ]

  -- A static stream has no source; the id of any other source is a compact identifier.
  abbrev pub IsSourceId : Text → Text → Type 0
  IsSourceId kind id = ((kind ≡ text "static") × (id ≡ [])) ⊎ (is_identifier id ≡ true)

  source_id_of_sound :
      (kind : Text) (source : Fields) (id : Text)
      → source_id_of repr kind source ≡ ok id
      → IsSourceId kind id
  source_id_of_sound kind source id h = elim (Bool-cases (text_eq kind (text "static"))) [
    | inl e ↦ inl (text_eq→eq kind (text "static") e, sym (ok_inj (rw e at h)))
    | inr e ↦ inr (identifier_sound _ id (rw e at h))
  ]

  -- What a configured stream shows: its ids are compact identifiers, that of its source included
  -- unless it is static and has none, its state and its source kind are known, its lane, owner, summary and next action look like no path, token, secret or
  -- password and are within their lengths, and so is its title, unless it is the stream's id.
  abbrev pub IsPublic : Workstream → Type 0
  IsPublic w =
      (is_identifier w.stream_id ≡ true)
      × (is_identifier w.objective_id ≡ true)
      × (text_mem w.state states ≡ true)
      × (text_mem w.source_kind source_kinds ≡ true)
      × IsSourceId w.source_kind w.source_id
      × (IsShowable 120 w.title ⊎ (w.title ≡ w.stream_id))
      × IsShowable 80 w.lane
      × IsShowable 80 w.owner
      × IsShowable 220 w.summary
      × IsShowable 180 w.next_action

  workstream_of-IsPublic :
      (stream_id objective_id kind source_id : Text) (value : Fields)
      → is_identifier stream_id ≡ true
      → is_identifier objective_id ≡ true
      → text_mem kind source_kinds ≡ true
      → IsSourceId kind source_id
      → IsPublic (workstream_of repr stream_id objective_id kind source_id value)
  unfolding found_in is_sensitive sensitive_here assigns starts_with after_literal text text_mem
      text_eq
  workstream_of-IsPublic stream_id objective_id kind source_id value hs ho hk hi = (
    hs,
    ho,
    state_text-known (or_null (get (text "state") value)) (text "QUEUED") refl,
    hk,
    hi,
    text_or-shows 120 _ stream_id
        (safe_text-IsShowable (or_null (get (text "title") value)) stream_id 120),
    text_or-IsShowable 80 _ (text "General")
        (safe_text-IsShowable (or_null (get (text "lane") value)) (text "General") 80)
        (refl, omega arith),
    text_or-IsShowable 80 _ (text "local-manager")
        (safe_text-IsShowable (or_null (get (text "owner") value)) (text "local-manager") 80)
        (refl, omega arith),
    safe_text-IsShowable (or_null (get (text "summary") value)) [] 220,
    safe_text-IsShowable (or_null (get (text "next_action") value)) [] 180,
  )

  -- Every stream that the configuration yields is public: its ids are compact identifiers, that
  -- of its source included unless it is static and has none, its state and source kind are known
  -- ones, and its texts are within their lengths and look like no
  -- path, token, secret or password, but a title may be the stream's id.
  pub from_mapping-IsPublic :
      (value : Fields) (w : Workstream) → from_mapping repr value ≡ ok w → IsPublic w
  unfolding from_mapping
  from_mapping-IsPublic value w h =
      let (stream_id, es, h1) = and_then_ok _ _ w h in
      let (source, eo, h2) = and_then_ok _ _ w h1 in
      let (kind, ek, h3) = and_then_ok _ _ w h2 in
      let (source_id, ei, h4) = and_then_ok _ _ w h3 in
      let (objective_id, eb, h5) = and_then_ok _ _ w h4 in
      subst IsPublic (ok_inj h5) (
        workstream_of-IsPublic stream_id objective_id kind source_id value
          (identifier_sound _ stream_id es) (identifier_sound _ objective_id eb)
          (check_kind_sound _ kind ek) (source_id_of_sound kind source source_id ei))
