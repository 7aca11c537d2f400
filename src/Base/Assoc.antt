-- ===== src/Base/Assoc.antt =====
-- Association lists with texts as keys: Python's dictionaries in the order of insertion, and tables
-- with a primary key.
use mathlib.Core.Path.{◌≡◌, refl, ◌∙◌}
use mathlib.Core.Logic.{inl, inr}
use mathlib.Core.Bool.{Bool, false, ◌||◌}
use mathlib.Core.Option.{Option, none, some}
use mathlib.Core.List.{List, [], ◌∷◌}
use native.Mathlib.Omega.{arith}
use machine_manager.Base.Tests.{if◌then◌else◌, Bool-cases}
use machine_manager.Base.Text.{Text, text_eq, text_eq_comm, text_eq→eq}

module _ {ℓ} {A : Type ℓ} where
  -- `d.get(key)`
  unfoldable pub select : Text → List (Text × A) → Option A
  select key [] = none
  select key ((k, p) ∷ rest) = if text_eq k key then some p else select key rest

  -- `d[key] = value`
  unfoldable pub upsert : Text → A → List (Text × A) → List (Text × A)
  upsert key value [] = (key, value) ∷ []
  upsert key value ((k, p) ∷ rest) =
      let later = upsert key value rest in
      if text_eq k key then (k, value) ∷ rest else (k, p) ∷ later

  -- `d.pop(key, None)`
  unfoldable pub remove : Text → List (Text × A) → List (Text × A)
  remove key [] = []
  remove key ((k, p) ∷ rest) =
      let later = remove key rest in if text_eq k key then later else (k, p) ∷ later

  -- A value is found under the key that it was put under, and no other key is disturbed.
  pub select-upsert :
      (key other : Text) (value : A) (rows : List (Text × A))
      → select other (upsert key value rows)
        ≡ (if text_eq key other then some value else select other rows)
  unfolding select upsert
  select-upsert key other value [] = refl
  select-upsert key other value ((k, p) ∷ rest) = elim (Bool-cases (text_eq k key)) [
    | inl e ↦ rw (e, text_eq→eq k key e) (ground arith)
    | inr e ↦ elim (Bool-cases (text_eq k other)) [
      | inl f ↦
          let apart : text_eq key other ≡ false =
            rw (← text_eq→eq k other f, text_eq_comm key k) e in
          rw (e, f, apart) refl
      | inr f ↦ rw (e, f) (select-upsert key other value rest)
    ]
  ]

  pub select-remove :
      (key other : Text) (rows : List (Text × A))
      → text_eq key other ≡ false
      → select other (remove key rows) ≡ select other rows
  unfolding select remove
  select-remove key other [] h = refl
  select-remove key other ((k, p) ∷ rest) h = elim (Bool-cases (text_eq k key)) [
    | inl e ↦
        let apart : text_eq k other ≡ false = rw (text_eq→eq k key e) h in
        rw (e, apart) (select-remove key other rest h)
    | inr e ↦ rw (e, select-remove key other rest h) refl
  ]

  -- A dictionary has each key once.
  unfoldable pub has_key : Text → List (Text × A) → Bool
  has_key key [] = false
  has_key key ((k, p) ∷ rest) = text_eq k key || has_key key rest

  abbrev pub HasUniqueKeys : List (Text × A) → Type 0
  HasUniqueKeys [] = Unit
  HasUniqueKeys ((k, p) ∷ rest) = (has_key k rest ≡ false) × HasUniqueKeys rest

  has_key-upsert :
      (key other : Text) (value : A) (rows : List (Text × A))
      → has_key other (upsert key value rows) ≡ (text_eq key other || has_key other rows)
  unfolding has_key upsert
  has_key-upsert key other value [] = refl
  has_key-upsert key other value ((k, p) ∷ rest) = elim (Bool-cases (text_eq k key)) [
    | inl e ↦ rw (e, text_eq→eq k key e) (ground arith)
    | inr e ↦ rw (e, has_key-upsert key other value rest) (ground arith)
  ]

  has_key-remove_le :
      (key other : Text) (rows : List (Text × A))
      → has_key other rows ≡ false
      → has_key other (remove key rows) ≡ false
  unfolding has_key remove
  has_key-remove_le key other [] h = refl
  has_key-remove_le key other ((k, p) ∷ rest) h = ground (arith, has_key-remove_le key other rest)

  pub upsert-HasUniqueKeys :
      (key : Text) (value : A) (rows : List (Text × A))
      → HasUniqueKeys rows
      → HasUniqueKeys (upsert key value rows)
  unfolding upsert has_key
  upsert-HasUniqueKeys key value [] h = (refl, tt)
  upsert-HasUniqueKeys key value ((k, p) ∷ rest) h = elim (Bool-cases (text_eq k key)) [
    | inl e ↦ rw e h
    | inr e ↦ rw e (
      has_key-upsert key k value rest ∙ rw (text_eq_comm key k, e) h.0,
      upsert-HasUniqueKeys key value rest h.1,
    )
  ]

  pub remove-HasUniqueKeys :
      (key : Text) (rows : List (Text × A)) → HasUniqueKeys rows → HasUniqueKeys (remove key rows)
  unfolding remove
  remove-HasUniqueKeys key [] h = tt
  remove-HasUniqueKeys key ((k, p) ∷ rest) h = elim (Bool-cases (text_eq k key)) [
    | inl e ↦ rw e (remove-HasUniqueKeys key rest h.1)
    | inr e ↦ rw e (has_key-remove_le key k rest h.0, remove-HasUniqueKeys key rest h.1)
  ]
