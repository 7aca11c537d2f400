-- ===== src/Workstreams/Records.antt =====
-- One stream of `sync` of manager/workstreams.py: what its step writes, and that every record
-- carries its fingerprint.
use machine_manager.Base.{
  ℕ, ◌≡◌, refl, inl, inr, true, false, ◌||◌, Option, none, some, List, [], ◌∷◌, All, Bool-cases,
  if_both, subst, some_inj,
}
use machine_manager.Base.Result.{Result, ok}
use machine_manager.Base.Text.{Text, text, text_eq, text_eq_refl, text_eq→eq, is_empty}
use machine_manager.Base.Assoc.{select, upsert, select-upsert}
use machine_manager.Base.Json.{Json, string, Fields, empty, field, get, get_or, str, truthy, put}
use machine_manager.Store.Snapshots.{Table, upsert_workstream, text_at}
use machine_manager.Workstreams.{Workstream}
use machine_manager.Workstreams.Sources.{Sources, resolve}
use machine_manager.Workstreams.Registry.{
  Change, Clock, proposed, without_stamps, fingerprint, stamped, is_current, changes, sync_stream,
}

module _ (repr : Json → Text) (whole : Text → Result ℕ) (dumps : Fields → Text) where
  abbrev pub print_of : Workstream → Text × Fields → Text
  print_of spec found = fingerprint repr whole dumps (proposed repr whole dumps spec found)

  -- The record of a stream in the store carries the fingerprint of what its source shows.
  abbrev pub IsCurrent : Workstream → Text × Fields → Fields → Table → Type 0
  IsCurrent spec found d rows =
      (select spec.stream_id rows ≡ some d)
      × (is_current repr whole dumps (print_of spec found) (some d) ≡ true)

  stamped-is_current :
      (spec : Workstream) (found : Text × Fields) (print now : Text)
      → is_current repr whole dumps print
          (some (stamped repr whole dumps print now (proposed repr whole dumps spec found)))
        ≡ true
  unfolding is_current stamped proposed put get get_or text text_eq str truthy
  stamped-is_current spec found print now = text_eq_refl print

  upsert-stamped :
      (spec : Workstream) (found : Text × Fields) (print now : Text) (rows : Table)
      → is_empty spec.stream_id ≡ false
      → is_empty now ≡ false
      → let d = stamped repr whole dumps print now (proposed repr whole dumps spec found) in
        upsert_workstream repr d rows ≡ ok (upsert spec.stream_id d rows)
  unfolding upsert_workstream stamped proposed put get get_or text text_eq str
  upsert-stamped spec found print now rows h k = rw (h, k) refl

  -- The source of the stream can be read, and its id and the time are not blank.
  abbrev pub IsReady : Clock → Sources → Workstream → Type 0
  IsReady clock sources spec =
      ((found : Text × Fields) × (resolve repr whole spec sources ≡ ok found))
      × (is_empty spec.stream_id ≡ false)
      × (is_empty (clock.updated_at spec.stream_id) ≡ false)

  abbrev pub Leaves : Text → Table → Table → Type 0
  Leaves id rows after =
      (other : Text) → text_eq id other ≡ false → select other after ≡ select other rows

  -- What a stream's step does: it ends with a current record, and disturbs no other stream.
  abbrev pub Syncs : Clock → Sources → Workstream → Table → Type 0
  Syncs clock sources spec rows =
      (d : Fields) × (events : List Change) × (after : Table) × (sync_stream repr whole dumps clock
          sources spec rows
        ≡ (ok (d, events), after))
      × ((found : Text × Fields) × (resolve repr whole spec sources ≡ ok found)
          × IsCurrent spec found d after)
      × Leaves spec.stream_id rows after

  stream_is_written :
      (clock : Clock) (sources : Sources) (spec : Workstream) (rows : Table)
      → IsReady clock sources spec
      → (found : Text × Fields) → resolve repr whole spec sources ≡ ok found
      → is_current repr whole dumps (print_of spec found) (select spec.stream_id rows) ≡ false
      → Syncs clock sources spec rows
  unfolding sync_stream
  stream_is_written clock sources spec rows (_, named, timed) found e c =
      let now = clock.updated_at spec.stream_id in
      let print = print_of spec found in
      let d = stamped repr whole dumps print now (proposed repr whole dumps spec found) in
      let after = upsert spec.stream_id d rows in
      (
        d,
        changes repr whole dumps clock spec found (select spec.stream_id rows),
        after,
        rw (e, c, upsert-stamped spec found print now rows named timed) refl,
        (
          found,
          e,
          (
            rw (select-upsert spec.stream_id spec.stream_id d rows, text_eq_refl spec.stream_id)
                refl,
            stamped-is_current spec found print now,
          ),
        ),
        λ other apart. rw (select-upsert spec.stream_id other d rows, apart) refl,
      )

  pub stream-Syncs :
      (clock : Clock) (sources : Sources) (spec : Workstream) (rows : Table)
      → IsReady clock sources spec
      → Syncs clock sources spec rows
  unfolding sync_stream
  stream-Syncs clock sources spec rows ready = go (select spec.stream_id rows) refl
    where
      go :
          (prior : Option Fields)
          → select spec.stream_id rows ≡ prior
          → Syncs clock sources spec rows
      go none p =
          let (found, e) = ready.0 in
          stream_is_written clock sources spec rows ready found e (rw p refl)
      go (some d) p =
          let (found, e) = ready.0 in
          elim (Bool-cases (is_current repr whole dumps (print_of spec found) (some d))) [
            | inl c ↦ (d, [], rows, rw (e, p, c) refl, (found, e, (p, c)), λ other apart. refl)
            | inr c ↦ stream_is_written clock sources spec rows ready found e (rw p c)
          ]

  -- A stream that is current is left alone.
  pub current_is_kept :
      (clock : Clock) (sources : Sources) (spec : Workstream) (rows : Table) (found : Text × Fields)
      (d : Fields)
      → resolve repr whole spec sources ≡ ok found
      → IsCurrent spec found d rows
      → sync_stream repr whole dumps clock sources spec rows ≡ (ok (d, []), rows)
  unfolding sync_stream
  current_is_kept clock sources spec rows found d e (p, c) = rw (e, p, c) refl

  -- Every record carries the fingerprint of its other entries.
  abbrev pub IsPrinted : Table → Type 0
  IsPrinted rows =
      All
        (λ (row : Text × Fields).
          text_at repr (text "fingerprint") (string []) row.1 ≡ fingerprint repr whole dumps row.1)
        rows

  stamped_is_printed :
      (spec : Workstream) (found : Text × Fields) (now : Text)
      → let d =
          stamped repr whole dumps
            (print_of spec found)
            now
            (proposed repr whole dumps spec found) in
        text_at repr (text "fingerprint") (string []) d ≡ fingerprint repr whole dumps d
  unfolding stamped proposed put get get_or text text_eq str fingerprint without_stamps
  stamped_is_printed spec found now = refl

  upsert-IsPrinted :
      (key : Text) (d : Fields) (rows : Table)
      → text_at repr (text "fingerprint") (string []) d ≡ fingerprint repr whole dumps d
      → IsPrinted rows
      → IsPrinted (upsert key d rows)
  unfolding upsert
  upsert-IsPrinted key d [] h k = (h, tt)
  upsert-IsPrinted key d ((id, p) ∷ rest) h k =
      if_both IsPrinted (text_eq id key) (λ _. (h, k.1))
        (λ _. (k.0, upsert-IsPrinted key d rest h k.1))

  pub select-IsPrinted :
      (key : Text) (d : Fields) (rows : Table)
      → IsPrinted rows
      → select key rows ≡ some d
      → text_at repr (text "fingerprint") (string []) d ≡ fingerprint repr whole dumps d
  unfolding select
  select-IsPrinted key d [] k e = cc
  select-IsPrinted key d ((id, p) ∷ rest) k e = elim (Bool-cases (text_eq id key)) [
    | inl h ↦
        subst
          (λ q. text_at repr (text "fingerprint") (string []) q ≡ fingerprint repr whole dumps q)
          (some_inj (rw h at e)) k.0
    | inr h ↦ select-IsPrinted key d rest k.1 (rw h at e)
  ]

  stamp_is_not_state :
      (key : Text)
      → (text_eq key (text "updated") || text_eq key (text "fingerprint")) ≡ true
      → text_eq key (text "state") ≡ false
  unfolding text text_eq
  stamp_is_not_state key h = elim (Bool-cases (text_eq key (text "updated"))) [
    | inl e ↦ rw (text_eq→eq key (text "updated") e) refl
    | inr e ↦ rw (text_eq→eq key (text "fingerprint") (rw e at h)) refl
  ]

  -- The stamps are not among the entries that a fingerprint covers, the state is.
  pub state-without_stamps :
      (d : Fields) → get (text "state") (without_stamps repr whole dumps d) ≡ get (text "state") d
  unfolding get without_stamps
  state-without_stamps empty = refl
  state-without_stamps (field key value rest) =
      elim (Bool-cases (text_eq key (text "updated") || text_eq key (text "fingerprint"))) [
        | inl e ↦ rw (e, stamp_is_not_state key e) (state-without_stamps rest)
        | inr e ↦ rw (e, state-without_stamps rest) refl
      ]

  pub stream_stays-IsPrinted :
      (clock : Clock) (sources : Sources) (spec : Workstream) (rows : Table)
      → IsReady clock sources spec
      → IsPrinted rows
      → IsPrinted (sync_stream repr whole dumps clock sources spec rows).1
  unfolding sync_stream
  stream_stays-IsPrinted clock sources spec rows ((found, e), named, timed) h =
      elim (Bool-cases
        (is_current repr whole dumps (print_of spec found) (select spec.stream_id rows))) [
          | inl c ↦ rw (e, c) h
          | inr c ↦
              let now = clock.updated_at spec.stream_id in
              rw (e, c, upsert-stamped spec found (print_of spec found) now rows named timed)
                (upsert-IsPrinted spec.stream_id _ rows (stamped_is_printed spec found now) h)
        ]
