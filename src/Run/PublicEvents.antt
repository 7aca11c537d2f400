-- ===== src/Run/PublicEvents.antt =====
-- The ids of the events that `merge_public_events` of manager/run.py keeps are unique.
use machine_manager.Base.{
  ℕ, zero, suc, ◌≡◌, refl, sym, ◌∙◌, inl, inr, false, not, ◌&&◌, ◌||◌, List, [], ◌∷◌, ◌++◌, drop,
  if_both, Bool-cases, arith,
}
use machine_manager.Base.Json.{Json, Fields}
use machine_manager.Base.Text.{Text, text_eq, text_eq_refl, text_eq→eq, is_empty}
use machine_manager.Run.{event_id_of, has_event, replace_event, place_event, place_events}

module _ (repr : Json → Text) where
  -- No two records have one id; records without an id are not told apart.
  abbrev pub HasUniqueEvents : List Fields → Type 0
  HasUniqueEvents [] = Unit
  HasUniqueEvents (d ∷ ds) =
      (is_empty (event_id_of repr d) ≡ false → has_event repr (event_id_of repr d) ds ≡ false)
      × HasUniqueEvents ds

  has_event-append :
      (id : Text) (ds : List Fields) (d : Fields)
      → has_event repr id (ds ++ d ∷ []) ≡ (has_event repr id ds || text_eq (event_id_of repr d) id)
  unfolding has_event
  has_event-append id [] d = ground arith
  has_event-append id (e ∷ ds) d = ground (arith, has_event-append id ds d)

  has_event-replace :
      (id other : Text) (d : Fields) (ds : List Fields)
      → event_id_of repr d ≡ id
      → has_event repr other (replace_event repr id d ds) ≡ has_event repr other ds
  unfolding has_event replace_event
  has_event-replace id other d [] e = refl
  has_event-replace id other d (x ∷ ds) e = elim (Bool-cases (text_eq (event_id_of repr x) id)) [
    | inl t ↦ rw (t, e, text_eq→eq (event_id_of repr x) id t) refl
    | inr t ↦ rw (t, has_event-replace id other d ds e) refl
  ]

  append-HasUniqueEvents :
      (ds : List Fields) (d : Fields)
      → (is_empty (event_id_of repr d) ≡ false → has_event repr (event_id_of repr d) ds ≡ false)
      → HasUniqueEvents ds
      → HasUniqueEvents (ds ++ d ∷ [])
  unfolding has_event
  append-HasUniqueEvents [] d new h = (λ _. refl, tt)
  append-HasUniqueEvents (x ∷ ds) d new h = (
    λ k. elim (Bool-cases (text_eq (event_id_of repr d) (event_id_of repr x))) [
      | inl t ↦
          let same = text_eq→eq (event_id_of repr d) (event_id_of repr x) t in
          cc (rw same at new k, text_eq_refl (event_id_of repr x))
      | inr t ↦ has_event-append (event_id_of repr x) ds d ∙ rw (h.0 k, t) refl
    ],
    append-HasUniqueEvents ds d (λ k. ground (arith, new k)) h.1,
  )

  replace-HasUniqueEvents :
      (id : Text) (d : Fields) (ds : List Fields)
      → event_id_of repr d ≡ id
      → HasUniqueEvents ds
      → HasUniqueEvents (replace_event repr id d ds)
  unfolding replace_event
  replace-HasUniqueEvents id d [] e h = tt
  replace-HasUniqueEvents id d (x ∷ ds) e h = elim (Bool-cases (text_eq (event_id_of repr x) id)) [
    | inl t ↦ let same = e ∙ sym (text_eq→eq (event_id_of repr x) id t) in rw t (rw same h.0, h.1)
    | inr t ↦ rw t (
      λ k. has_event-replace id (event_id_of repr x) d ds e ∙ h.0 k,
      replace-HasUniqueEvents id d ds e h.1,
    )
  ]

  place-HasUniqueEvents :
      (d : Fields) (ds : List Fields) → HasUniqueEvents ds → HasUniqueEvents (place_event repr d ds)
  unfolding place_event
  place-HasUniqueEvents d ds h =
      let id = event_id_of repr d in
      if_both HasUniqueEvents (not (is_empty id) && has_event repr id ds)
        (λ _. replace-HasUniqueEvents id d ds refl h)
        (λ e. append-HasUniqueEvents ds d (λ k. ground (arith, e, k)) h)

  pub placed-HasUniqueEvents :
      (ds merged : List Fields)
      → HasUniqueEvents merged
      → HasUniqueEvents (place_events repr ds merged)
  unfolding place_events
  placed-HasUniqueEvents [] merged h = h
  placed-HasUniqueEvents (d ∷ ds) merged h =
      placed-HasUniqueEvents ds (place_event repr d merged) (place-HasUniqueEvents d merged h)

  pub drop-HasUniqueEvents :
      (n : ℕ) (ds : List Fields) → HasUniqueEvents ds → HasUniqueEvents (drop n ds)
  drop-HasUniqueEvents zero ds h = h
  drop-HasUniqueEvents (suc n) [] h = tt
  drop-HasUniqueEvents (suc n) (d ∷ ds) h = drop-HasUniqueEvents n ds h.1
