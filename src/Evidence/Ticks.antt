-- ===== src/Evidence/Ticks.antt =====
-- A whole tick of `EvidenceCoordinator` in manager/evidence.py.
use machine_manager.Base.{
  ℕ, ◌≡◌, refl, ◌∙◌, ap, inl, inr, Bool, true, false, Option, none, some, List, [], ◌∷◌, ◌++◌,
  if◌then◌else◌, All, map, Bool-cases, arith,
}
use machine_manager.Base.Assoc.{select, upsert, select-upsert, upsert-HasUniqueKeys}
use machine_manager.Base.Json.{Json, get_or, str}
use machine_manager.Base.Result.{Result, ok}
use machine_manager.Base.Text.{Text, text, text_eq, text_eq→eq, strip, is_empty}
use machine_manager.Store.Snapshots.{Table, upsert_worker_profile}
use machine_manager.Evidence.{Target}
use machine_manager.Evidence.Profiles.{
  Profile, ProfileEvent, sync_profiles, profile_events, local_record,
}
use machine_manager.Evidence.Coordinator.{
  Submitted, Audit, Event, Config, Coordinator, find_target, is_some, sync_once, end_sync,
  audit_due, submit, audit_started, of_profile, start_due, tick,
}
use machine_manager.Evidence.Pending.{
  upsert-IsKnown, targets_are_known, IsWellFormed, Returns, collect-Returns, unique-IsOpen,
}

module _ (repr : Json → Text) (digest : Text → Text) (config : Config) where
  module _ (done : Submitted → Option (Result Audit)) where
    submitted_as :
        (target : Target) (st : Coordinator)
        → (f : Submitted) × ((submit repr digest config target st).pending
            ≡ upsert target.target_id f st.pending)
    unfolding submit
    submitted_as target st = (_, refl)

    due_is_free :
        (now : ℕ) (target : Target) (st : Coordinator)
        → audit_due repr digest config now target st ≡ true
        → is_some (select target.target_id st.pending) ≡ false
    unfolding audit_due
    due_is_free now target st d = ground arith

    -- A new audit does not disturb another one.
    submit_keeps :
        (target : Target) (st : Coordinator) (id : Text)
        → is_some (select target.target_id st.pending) ≡ false
        → is_some (select id st.pending) ≡ true
        → select id (submit repr digest config target st).pending ≡ select id st.pending
    submit_keeps target st id free taken =
        let (f, same) = submitted_as target st in
        elim (Bool-cases (text_eq target.target_id id)) [
          | inl t ↦ cc (free, taken, text_eq→eq target.target_id id t)
          | inr t ↦ rw (same, select-upsert target.target_id id f st.pending, t) refl
        ]

    submit-IsWellFormed :
        (target : Target) (st : Coordinator)
        → (u : Target) × (find_target target.target_id config.targets ≡ ok u)
        → IsWellFormed repr digest config st
        → IsWellFormed repr digest config (submit repr digest config target st)
    submit-IsWellFormed target st k h =
        let (f, same) = submitted_as target st in
        (
          rw same (upsert-HasUniqueKeys target.target_id f st.pending h.0),
          rw same (upsert-IsKnown config.targets target.target_id f st.pending k h.1),
        )

    start-Returns :
        (now : ℕ) (targets : List Target) (st : Coordinator)
        → All
            (λ (t : Target). (u : Target) × (find_target t.target_id config.targets ≡ ok u))
            targets
        → IsWellFormed repr digest config st
        → Returns repr digest config done
            (start_due repr digest config now targets)
            (λ id. is_some (select id st.pending) ≡ true)
            st
    unfolding start_due
    start-Returns now [] st known h = ([], st, refl, h, λ id o. refl)
    start-Returns now (target ∷ targets) st (k, known) h =
        elim (Bool-cases (audit_due repr digest config now target st)) [
          | inr d ↦
              let (es, after, r, w, kept) = start-Returns now targets st known h in
              (es, after, rw (start_due, d) r, w, kept)
          | inl d ↦
              let st1 : Coordinator = submit repr digest config target st in
              let free = due_is_free now target st d in
              let (es, after, r, w, kept) =
                start-Returns now targets st1 known (submit-IsWellFormed target st k h) in
              (
                audit_started target.target_id ∷ es,
                after,
                rw (start_due, d, r) refl,
                w,
                λ id taken.
                    let same = submit_keeps target st id free taken in
                    kept id (rw same taken) ∙ same,
              )
        ]

    -- The profiles' ids are not blank, so that the store takes their records.
    abbrev pub HasIds : List Profile → Type 0
    HasIds ps = All (λ (p : Profile). is_empty (strip p.worker_id) ≡ false) ps

    profiles_are_stored :
        (clock : Text → Text) (ps : List Profile) (rows : Table)
        → HasIds ps
        → (events : List ProfileEvent) × (after : Table) × (sync_profiles repr digest clock ps rows
            ≡ (ok events, after))
    unfolding sync_profiles upsert_worker_profile local_record get_or text text_eq str strip select
    profiles_are_stored clock [] rows h = ([], rows, refl)
    profiles_are_stored clock (p ∷ ps) rows h =
        let after =
          upsert (strip p.worker_id) (local_record repr digest (clock p.worker_id) p) rows in
        let (es, end, r) = profiles_are_stored clock ps after h.1 in
        (profile_events repr digest p (select p.worker_id rows) ++ es, end, rw (h.0, r) refl)

    sync_returns :
        (clock : Text → Text) (st : Coordinator)
        → HasIds config.profiles
        → (events : List Event) × (after : Coordinator) × (sync_once repr digest config clock st
            ≡ (ok events, after))
          × (after.pending ≡ st.pending)
    unfolding sync_once
    sync_returns clock st named = elim (Bool-cases st.profiles_synced) [
      | inl s ↦ ([], st, ap branch s, refl)
      | inr s ↦
          let (es, rows, r) = profiles_are_stored clock config.profiles st.profile_rows named in
          (
            map of_profile es,
            record st { profiles_synced = true; profile_rows = rows },
            ap branch s ∙ ap (λ q. end_sync repr digest config q st) r,
            refl,
          )
    ]
      where
        branch : Bool → Result (List Event) × Coordinator
        branch b =
            if b
            then (ok [], st)
            else end_sync repr digest config
                (sync_profiles repr digest clock config.profiles st.profile_rows) st

    -- A tick always returns, keeps the pending audits well formed, and keeps a pending audit that
    -- has not ended as it was submitted: it is neither lost nor submitted a second time. The pending
    -- audits were well formed before it, and the ids of the profiles are not blank.
    pub tick_keeps_running_audits :
        (clock : Text → Text) (now : ℕ) (st : Coordinator) (id : Text) (f : Submitted)
        → HasIds config.profiles
        → IsWellFormed repr digest config st
        → select id st.pending ≡ some f
        → done f ≡ none
        → (events : List Event) × (after : Coordinator) × (tick repr digest config clock done now st
            ≡ (ok events, after))
          × IsWellFormed repr digest config after
          × (select id after.pending ≡ some f)
    unfolding tick
    tick_keeps_running_audits clock now st id f named h e d =
        let (e0, st0, r0, same) = sync_returns clock st named in
        let h0 : IsWellFormed repr digest config st0 = rw same h in
        let (e1, st1, r1, h1, kept1) =
          collect-Returns repr digest config done st0.pending st0 h0.1 h0 in
        let (e2, st2, r2, h2, kept2) =
          start-Returns now config.targets st1 (targets_are_known config.targets) h1 in
        let e0' : select id st0.pending ≡ some f = rw same e in
        let e1' : select id st1.pending ≡ some f =
          kept1 id (unique-IsOpen repr digest config done id f st0.pending h0.0 e0' d) ∙ e0' in
        (e0 ++ e1 ++ e2, st2, rw (r0, r1, r2) refl, h2, kept2 id (rw e1' refl) ∙ e1')
