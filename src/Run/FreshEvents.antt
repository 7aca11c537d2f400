-- ===== src/Run/FreshEvents.antt =====
-- What `merge_public_events` of manager/run.py keeps: the last record of each id.
use machine_manager.Base.{
  ℕ, ◌-◌, ◌≤◌, ◌≡◌, refl, sym, ap, ◌∙◌, inl, inr, true, false, not, ◌&&◌, Option, none, some, List,
  [], ◌∷◌, ◌++◌, max, if◌then◌else◌, length, length-drop, All, All-drop, All-imp, if_both,
  Bool-cases, arith,
}
use machine_manager.Base.Json.{Json, Fields}
use machine_manager.Base.Text.{Text, text_eq, text_eq_refl, text_eq_comm, text_eq→eq, is_empty}
use machine_manager.Run.{
  event_id_of, has_event, replace_event, place_event, place_events, mappings, merge_public_events,
}
use machine_manager.Run.PublicEvents.{HasUniqueEvents, placed-HasUniqueEvents, drop-HasUniqueEvents}

module _ (repr : Json → Text) where
  -- The record of an id.
  abbrev find_event : Text → List Fields → Option Fields
  find_event id [] = none
  find_event id (d ∷ ds) = if text_eq (event_id_of repr d) id then some d else find_event id ds

  -- The last record of an id among the candidates, or what was there before them.
  abbrev pub last_event : Text → List Fields → Option Fields → Option Fields
  last_event id [] o = o
  last_event id (d ∷ ds) o =
      last_event id ds (if text_eq (event_id_of repr d) id then some d else o)

  find_event_absent :
      (id : Text) (ds : List Fields) → has_event repr id ds ≡ false → find_event id ds ≡ none
  unfolding has_event
  find_event_absent id [] h = refl
  find_event_absent id (d ∷ ds) h = ground (arith, find_event_absent id ds)

  find_event-append :
      (id : Text) (ds : List Fields) (d : Fields)
      → (text_eq (event_id_of repr d) id ≡ true → has_event repr id ds ≡ false)
      → find_event id (ds ++ d ∷ [])
        ≡ (if text_eq (event_id_of repr d) id then some d else find_event id ds)
  unfolding has_event
  find_event-append id [] d new = refl
  find_event-append id (x ∷ ds) d new = elim (Bool-cases (text_eq (event_id_of repr d) id)) [
    | inl t ↦
        let absent = new t in
        let other : text_eq (event_id_of repr x) id ≡ false = ground (arith, absent) in
        rw (other, find_event-append id ds d (λ _. ground (arith, absent)), t) refl
    | inr t ↦ rw (find_event-append id ds d (λ u. cc (t, u)), t) refl
  ]

  find_event-replace :
      (id other : Text) (d : Fields) (ds : List Fields)
      → event_id_of repr d ≡ id
      → has_event repr id ds ≡ true
      → find_event other (replace_event repr id d ds)
        ≡ (if text_eq id other then some d else find_event other ds)
  unfolding has_event replace_event
  find_event-replace id other d [] e h = cc
  find_event-replace id other d (x ∷ ds) e h = elim (Bool-cases (text_eq (event_id_of repr x) id)) [
    | inl t ↦ rw (t, e, text_eq→eq (event_id_of repr x) id t) (ground arith)
    | inr t ↦ elim (Bool-cases (text_eq (event_id_of repr x) other)) [
      | inl u ↦
          let apart : text_eq id other ≡ false =
            rw (← text_eq→eq (event_id_of repr x) other u, text_eq_comm id (event_id_of repr x))
              t in
          rw (t, u, apart) refl
      | inr u ↦ rw t (rw u (find_event-replace id other d ds e (rw t at h)))
    ]
  ]

  find_event-place :
      (id : Text) (d : Fields) (ds : List Fields)
      → is_empty id ≡ false
      → find_event id (place_event repr d ds)
        ≡ (if text_eq (event_id_of repr d) id then some d else find_event id ds)
  unfolding place_event
  find_event-place id d ds named =
      let own = event_id_of repr d in
      if_both (λ after. find_event id after ≡ (if text_eq own id then some d else find_event id ds))
        (not (is_empty own) && has_event repr own ds)
        (λ e. find_event-replace own id d ds refl (ground (arith, e)))
        (λ e. find_event-append id ds d (λ t.
          let same = text_eq→eq own id t in
          let none_new = rw same at e in ground (arith, none_new, named)))

  find_event-placed :
      (id : Text) (ds merged : List Fields)
      → is_empty id ≡ false
      → find_event id (place_events repr ds merged) ≡ last_event id ds (find_event id merged)
  unfolding place_events
  find_event-placed id [] merged named = refl
  find_event-placed id (d ∷ ds) merged named =
      find_event-placed id ds (place_event repr d merged) named
      ∙ ap (last_event id ds) (find_event-place id d merged named)

  -- The record that an id has.
  abbrev pub IsLast : List Fields → Fields → Type 0
  IsLast candidates e =
      is_empty (event_id_of repr e) ≡ false
      → last_event (event_id_of repr e) candidates none ≡ some e

  abbrev IsFound : List Fields → Fields → Type 0
  IsFound ds e = is_empty (event_id_of repr e) ≡ false → find_event (event_id_of repr e) ds ≡ some e

  IsFound-cons :
      (d : Fields) (ds : List Fields)
      → (is_empty (event_id_of repr d) ≡ false → has_event repr (event_id_of repr d) ds ≡ false)
      → (e : Fields) → IsFound ds e
      → IsFound (d ∷ ds) e
  IsFound-cons d ds new e found named =
      elim (Bool-cases (text_eq (event_id_of repr d) (event_id_of repr e))) [
        | inl t ↦
            let same = text_eq→eq (event_id_of repr d) (event_id_of repr e) t in
            let absent : has_event repr (event_id_of repr e) ds ≡ false = (rw same at new) named in
            cc (find_event_absent (event_id_of repr e) ds absent, found named)
        | inr t ↦ rw t (found named)
      ]

  unique-IsFound : (ds : List Fields) → HasUniqueEvents repr ds → All (IsFound ds) ds
  unique-IsFound [] h = tt
  unique-IsFound (d ∷ ds) h = (
    λ _. rw (text_eq_refl (event_id_of repr d)) refl,
    All-imp (IsFound ds) (IsFound (d ∷ ds)) (IsFound-cons d ds h.0) ds (unique-IsFound ds h.1),
  )

  -- The merged window has each id once and is within its limit, of one at least, and each record
  -- in it that has an id is the last candidate of that id: what is current replaces what was
  -- published before.
  pub merge_public_events_lem :
      (existing current : List Json) (limit : ℕ)
      → let window = merge_public_events repr existing current limit in
        HasUniqueEvents repr window
        × (length window ≤ max 1 limit)
        × All (IsLast (mappings repr (existing ++ current))) window
  unfolding merge_public_events
  merge_public_events_lem existing current limit =
      let candidates = mappings repr (existing ++ current) in
      let merged = place_events repr candidates [] in
      let n = length merged - max 1 limit in
      let unique = placed-HasUniqueEvents repr candidates [] tt in
      (
        drop-HasUniqueEvents repr n merged unique,
        omega (arith, length-drop n merged),
        All-drop (IsLast candidates) n merged (
            All-imp (IsFound merged) (IsLast candidates)
              (λ e found named.
                sym (find_event-placed (event_id_of repr e) candidates [] named) ∙ found named)
              merged (unique-IsFound merged unique)),
      )
