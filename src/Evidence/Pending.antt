-- ===== src/Evidence/Pending.antt =====
-- The audits in flight of `EvidenceCoordinator` in manager/evidence.py, over a tick.
use machine_manager.Base.{
  ◌≡◌, refl, ◌∙◌, ap, inl, inr, true, false, Option, none, some, List, [], ◌∷◌, All, Bool-cases,
  Option-cases, arith, some_inj,
}
use machine_manager.Base.Assoc.{
  select, upsert, remove, select-remove, has_key, HasUniqueKeys, remove-HasUniqueKeys,
}
use machine_manager.Base.Exec.{Exec}
use machine_manager.Base.Json.{Json}
use machine_manager.Base.Result.{Result, ok, err}
use machine_manager.Base.Text.{Text, text_eq, text_eq_refl, text_eq→eq}
use machine_manager.Evidence.{Target}
use machine_manager.Evidence.Coordinator.{
  Submitted, Audit, Event, Config, Coordinator, find_target, settle_audit, collect_audits,
}

-- The target of a pending audit is configured.
abbrev pub IsKnown : List Target → Text × Submitted → Type 0
IsKnown targets (id, submitted) = (t : Target) × (find_target id targets ≡ ok t)

module _ (targets : List Target) where
  pub upsert-IsKnown :
      (key : Text) (f : Submitted) (rows : List (Text × Submitted))
      → IsKnown targets (key, f)
      → All (IsKnown targets) rows
      → All (IsKnown targets) (upsert key f rows)
  unfolding upsert
  upsert-IsKnown key f [] k h = (k, tt)
  upsert-IsKnown key f ((id, g) ∷ rest) k h = elim (Bool-cases (text_eq id key)) [
    | inl e ↦ rw e h
    | inr e ↦ rw e (h.0, upsert-IsKnown key f rest k h.1)
  ]

  remove-IsKnown :
      (key : Text) (rows : List (Text × Submitted))
      → All (IsKnown targets) rows
      → All (IsKnown targets) (remove key rows)
  unfolding remove
  remove-IsKnown key [] h = tt
  remove-IsKnown key ((id, g) ∷ rest) h = elim (Bool-cases (text_eq id key)) [
    | inl e ↦ rw e (remove-IsKnown key rest h.1)
    | inr e ↦ rw e (h.0, remove-IsKnown key rest h.1)
  ]

-- Every target is found under its id.
pub targets_are_known :
    (ts : List Target) → All (λ (t : Target). (u : Target) × (find_target t.target_id ts ≡ ok u)) ts
unfolding find_target
targets_are_known [] = tt
targets_are_known (t ∷ ts) =
    ((t, rw (text_eq_refl t.target_id) refl), widen ts (targets_are_known ts))
  where
    widen :
        (us : List Target)
        → All (λ (u : Target). (v : Target) × (find_target u.target_id ts ≡ ok v)) us
        → All (λ (u : Target). (v : Target) × (find_target u.target_id (t ∷ ts) ≡ ok v)) us
    widen [] h = tt
    widen (u ∷ us) ((v, e), h) = (
      elim (Bool-cases (text_eq t.target_id u.target_id)) [
        | inl same ↦ (t, rw same refl)
        | inr other ↦ (v, rw (other, e) refl)
      ],
      widen us h,
    )

module _ (repr : Json → Text) (digest : Text → Text) (config : Config) where
  -- The pending audits are of configured targets, one for each.
  abbrev pub IsWellFormed : Coordinator → Type 0
  IsWellFormed st = HasUniqueKeys st.pending × All (IsKnown config.targets) st.pending

  module _ (done : Submitted → Option (Result Audit)) where
    -- No audit of the id has ended.
    abbrev pub IsOpen : Text → List (Text × Submitted) → Type 0
    IsOpen id items = All (λ (i : Text × Submitted). text_eq i.0 id ≡ true → done i.1 ≡ none) items

    abbrev pub Keeps : (Text → Type 0) → Coordinator → Coordinator → Type 0
    Keeps P st after = (id : Text) → P id → select id after.pending ≡ select id st.pending

    -- A call returns, in a well-formed state, and keeps the audits of some ids.
    abbrev pub Returns : {A : Type 0} → Exec Coordinator A → (Text → Type 0) → Coordinator → Type 0
    Returns {A} m P st =
        (a : A) × (after : Coordinator) × (m st ≡ (ok a, after))
        × IsWellFormed after
        × Keeps P st after

    settle_returns :
        (target : Target) (outcome : Result Audit) (st : Coordinator)
        → (event : Event) × (after : Coordinator) × (settle_audit repr digest config target outcome
              st
            ≡ (ok event, after))
          × (after.pending ≡ st.pending)
    unfolding settle_audit
    settle_returns target (ok audit) st = (_, _, refl, refl)
    settle_returns target (err e) st = (_, _, refl, refl)

    pub collect-Returns :
        (items : List (Text × Submitted)) (st : Coordinator)
        → All (IsKnown config.targets) items
        → IsWellFormed st
        → Returns (collect_audits repr digest config done items) (λ id. IsOpen id items) st
    unfolding collect_audits
    collect-Returns [] st known h = ([], st, refl, h, λ id o. refl)
    collect-Returns ((id, f) ∷ items) st ((target, e), known) h = elim (Option-cases (done f)) [
      | inl d ↦
          let (es, after, r, w, kept) = collect-Returns items st known h in
          (es, after, rw (collect_audits, d) r, w, λ other o. kept other o.1)
      | inr (outcome, d) ↦
          let st1 : Coordinator = record st { pending = remove id st.pending } in
          let (event, st2, s, same) = settle_returns target outcome st1 in
          let w2 : IsWellFormed st2 = (
            rw same (remove-HasUniqueKeys id st.pending h.0),
            rw same (remove-IsKnown config.targets id st.pending h.1),
          ) in
          let (es, after, r, w, kept) = collect-Returns items st2 known w2 in
          (
            event ∷ es,
            after,
            rw (collect_audits, d, e, s, r) refl,
            w,
            λ other o. elim (Bool-cases (text_eq id other)) [
              | inl t ↦ cc (o.0 t, d)
              | inr t ↦
                  kept other o.1 ∙ ap (select other) same ∙ select-remove id other st.pending t
            ],
          )
    ]

    absent-IsOpen :
        (id : Text) (rows : List (Text × Submitted)) → has_key id rows ≡ false → IsOpen id rows
    unfolding has_key
    absent-IsOpen id [] h = tt
    absent-IsOpen id ((k, g) ∷ rows) h = (λ t. cc (rw t at h), absent-IsOpen id rows (ground arith))

    -- A list in which the id has one audit, which has not ended.
    pub unique-IsOpen :
        (id : Text) (f : Submitted) (rows : List (Text × Submitted))
        → HasUniqueKeys rows
        → select id rows ≡ some f
        → done f ≡ none
        → IsOpen id rows
    unfolding select has_key
    unique-IsOpen id f [] h e d = tt
    unique-IsOpen id f ((k, g) ∷ rows) h e d = elim (Bool-cases (text_eq k id)) [
      | inl t ↦
          let same : g ≡ f = some_inj (rw t at e) in
          let absent : has_key id rows ≡ false = rw (← text_eq→eq k id t) h.0 in
          (λ _. rw same d, absent-IsOpen id rows absent)
      | inr t ↦ (λ u. cc, unique-IsOpen id f rows h.1 (rw t at e) d)
    ]
