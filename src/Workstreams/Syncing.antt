-- ===== src/Workstreams/Syncing.antt =====
-- What `sync` of manager/workstreams.py leaves in the store, and when it is silent.
use machine_manager.Base.{
  ℕ, ◌≡◌, arith, refl, sym, ◌∙◌, ap, Bool, true, false, ◌&&◌, some, List, [], ◌∷◌, ◌++◌, map, All,
  subst,
}
use machine_manager.Base.Result.{Result, ok}
use machine_manager.Base.Text.{
  Text, text, text_eq, text_eq_comm, text_eq→eq, text_mem, all_distinct,
}
use machine_manager.Base.Assoc.{select}
use machine_manager.Base.Json.{Json, string, Fields, get}
use machine_manager.Store.Snapshots.{Table, get_workstream}
use machine_manager.Workstreams.{Workstream}
use machine_manager.Workstreams.Sources.{Sources, resolve}
use machine_manager.Workstreams.Registry.{
  Change, Clock, proposed, without_stamps, fingerprint, is_current, sync,
}
use machine_manager.Workstreams.Records.{
  IsCurrent, IsReady, stream-Syncs, current_is_kept, IsPrinted, select-IsPrinted,
  state-without_stamps, stream_stays-IsPrinted,
}

module _ (repr : Json → Text) (whole : Text → Result ℕ) (dumps : Fields → Text) where
  -- The streams and the records that a synchronization gives for them.
  abbrev IsSynced : Sources → List Workstream → List Fields → Table → Type 0
  IsSynced sources [] [] rows = Unit
  IsSynced sources (spec ∷ specs) (d ∷ ds) rows =
      ((found : Text × Fields) × (resolve repr whole spec sources ≡ ok found)
        × IsCurrent repr whole dumps spec found d rows)
      × IsSynced sources specs ds rows
  IsSynced sources _ _ rows = ⊥

  synced_is_kept :
      (clock : Clock) (sources : Sources) (specs : List Workstream) (ds : List Fields)
      (rows : Table)
      → IsSynced sources specs ds rows
      → sync repr whole dumps clock sources specs rows ≡ (ok (ds, []), rows)
  unfolding sync
  synced_is_kept clock sources [] [] rows h = refl
  synced_is_kept clock sources [] (d ∷ ds) rows h = elim h [ ]
  synced_is_kept clock sources (spec ∷ specs) [] rows h = elim h [ ]
  synced_is_kept clock sources (spec ∷ specs) (d ∷ ds) rows ((found, e, c), h) =
      rw
        (
          current_is_kept repr whole dumps clock sources spec rows found d e c,
          synced_is_kept clock sources specs ds rows h,
        )
        refl

  abbrev ids_of : List Workstream → List Text
  ids_of specs = map (λ (s : Workstream). s.stream_id) specs

  every_stream_syncs :
      (clock : Clock) (sources : Sources) (specs : List Workstream) (rows : Table)
      → All (IsReady repr whole dumps clock sources) specs
      → all_distinct (ids_of specs) ≡ true
      → (ds : List Fields) × (events : List Change) × (after : Table) × (sync repr whole dumps clock
            sources specs rows
          ≡ (ok (ds, events), after))
        × IsSynced sources specs ds after
        × ((id : Text) → text_mem id (ids_of specs) ≡ false → select id after ≡ select id rows)
        × (IsPrinted repr whole dumps rows → IsPrinted repr whole dumps after)
  unfolding sync all_distinct text_mem
  every_stream_syncs clock sources [] rows ready apart =
      ([], [], rows, refl, tt, λ id absent. refl, λ h. h)
  every_stream_syncs clock sources (spec ∷ specs) rows ready apart =
      let (d, es, mid, e, (found, r, (p, c)), leaves) =
        stream-Syncs repr whole dumps clock sources spec rows ready.0 in
      let (ds, es', after, e', synced, leaves', stays) =
        every_stream_syncs clock sources specs mid ready.1 (ground arith) in
      (
        d ∷ ds,
        es ++ es',
        after,
        rw (e, e') refl,
        ((found, r, (leaves' spec.stream_id (ground arith) ∙ p, c)), synced),
        λ id absent.
            leaves' id (ground arith) ∙ leaves id (text_eq_comm spec.stream_id id ∙ ground arith),
        λ h. stays (
            subst (IsPrinted repr whole dumps)
              (ap (λ (p : Result (Fields × List Change) × Table). p.1) e)
              (stream_stays-IsPrinted repr whole dumps clock sources spec rows ready.0 h)),
      )

  -- Synchronizing again, with the sources as they were and at any time, reports nothing, returns
  -- the same records and leaves the store as it is; and the first synchronization returns, if the
  -- sources can be read and no id and no time is blank.
  pub sync_idem :
      (clock later : Clock) (sources : Sources) (specs : List Workstream) (rows : Table)
      → All (IsReady repr whole dumps clock sources) specs
      → all_distinct (ids_of specs) ≡ true
      → (ds : List Fields) × (events : List Change) × (after : Table) × (sync repr whole dumps clock
            sources specs rows
          ≡ (ok (ds, events), after))
        × (sync repr whole dumps later sources specs after ≡ (ok (ds, []), after))
  sync_idem clock later sources specs rows ready apart =
      let (ds, events, after, e, synced, _, _) =
        every_stream_syncs clock sources specs rows ready apart in
      (ds, events, after, e, synced_is_kept later sources specs ds after synced)

  -- The stored record of a stream shows the state of its source.
  abbrev pub ShowsState : Sources → Table → Workstream → Type 0
  ShowsState sources rows spec =
      (d : Fields) × (found : Text × Fields) × (resolve repr whole spec sources ≡ ok found)
      × (get_workstream spec.stream_id rows ≡ some d)
      × (get (text "state") d ≡ some (string found.0))

  and_right : (a b : Bool) → (a && b) ≡ true → b ≡ true
  and_right a b h = ground arith

  -- Equal texts of `dumps` are of objects with one state.
  abbrev pub IsReadable : Type 0
  IsReadable =
      (a b : Fields) (s : Text)
      → dumps a ≡ dumps b
      → get (text "state") a ≡ some (string s)
      → get (text "state") b ≡ some (string s)

  module _ (readable : IsReadable) where
    current_shows_state :
        (spec : Workstream) (found : Text × Fields) (d : Fields) (rows : Table)
        → IsPrinted repr whole dumps rows
        → IsCurrent repr whole dumps spec found d rows
        → get (text "state") d ≡ some (string found.0)
    unfolding proposed without_stamps get text text_eq fingerprint is_current
    current_shows_state spec found d rows printed (p, c) =
        sym (state-without_stamps repr whole dumps d)
        ∙ readable (without_stamps repr whole dumps (proposed repr whole dumps spec found))
            (without_stamps repr whole dumps d) found.0
            (sym (text_eq→eq _ _ (and_right _ _ c))
              ∙ select-IsPrinted repr whole dumps spec.stream_id d rows printed p)
            refl

    synced_show_states :
        (sources : Sources) (specs : List Workstream) (ds : List Fields) (rows : Table)
        → IsPrinted repr whole dumps rows
        → IsSynced sources specs ds rows
        → All (ShowsState sources rows) specs
    synced_show_states sources [] [] rows printed h = tt
    synced_show_states sources [] (d ∷ ds) rows printed h = elim h [ ]
    synced_show_states sources (spec ∷ specs) [] rows printed h = elim h [ ]
    synced_show_states sources (spec ∷ specs) (d ∷ ds) rows printed ((found, e, c), h) = (
      (d, found, e, c.0, current_shows_state spec found d rows printed c),
      synced_show_states sources specs ds rows printed h,
    )

    -- After a synchronization the stored record of each stream shows the state that its source has,
    -- and every record of the store carries its fingerprint, if that was so before: sources can be
    -- read, ids differ, no id and no time is blank, and equal JSON texts have one state.
    pub synced_states_are_resolved :
        (clock : Clock) (sources : Sources) (specs : List Workstream) (rows : Table)
        → All (IsReady repr whole dumps clock sources) specs
        → all_distinct (ids_of specs) ≡ true
        → IsPrinted repr whole dumps rows
        → let after = (sync repr whole dumps clock sources specs rows).1 in
          All (ShowsState sources after) specs × IsPrinted repr whole dumps after
    synced_states_are_resolved clock sources specs rows ready apart printed =
        let (ds, events, after, e, synced, _, stays) =
          every_stream_syncs clock sources specs rows ready apart in
        rw e (synced_show_states sources specs ds after (stays printed) synced, stays printed)
