-- ===== src/Base/Sorting.antt =====
-- `ORDER BY` as insertion sort by a Boolean order that is total and transitive.
use mathlib.Core.Path.{◌≡◌, refl}
use mathlib.Core.Logic.{◌⊎◌, inl, inr}
use mathlib.Core.Bool.{Bool, true, false}
use mathlib.Core.List.{List, [], ◌∷◌, Memᴰ}
use Prim.Native.Nat.{ℕ, zero, suc}
use native.Mathlib.Omega.{arith}
use machine_manager.Base.Tests.{if◌then◌else◌, Bool-cases}
use machine_manager.Base.Lists.{length, take, drop, All, All-imp, All-mem, mem-All, All-drop}

module _ {ℓ} {A : Type ℓ} (before : A → A → Bool) where
  unfoldable pub insert : A → List A → List A
  insert a [] = a ∷ []
  insert a (x ∷ xs) = let later = x ∷ insert a xs in if before a x then a ∷ x ∷ xs else later

  unfoldable pub sort_by : List A → List A
  unfolding insert
  sort_by [] = []
  sort_by (x ∷ xs) = insert x (sort_by xs)

  -- Each item comes before all that stand behind it.
  abbrev pub IsSorted : List A → Type 0
  IsSorted [] = Unit
  IsSorted (x ∷ xs) = All (λ y. before x y ≡ true) xs × IsSorted xs

module _ {ℓ} {A : Type ℓ} (before : A → A → Bool) where
  length-insert : (a : A) (xs : List A) → length (insert before a xs) ≡ suc (length xs)
  unfolding insert
  length-insert a [] = refl
  length-insert a (x ∷ xs) = ground (arith, length-insert a xs)

  pub length-sort_by : (xs : List A) → length (sort_by before xs) ≡ length xs
  unfolding sort_by
  length-sort_by [] = refl
  length-sort_by (x ∷ xs) = ground (arith, length-insert x (sort_by before xs), length-sort_by xs)

  mem-insert_self : (a b : A) (xs : List A) → b ≡ a → Memᴰ b (insert before a xs)
  unfolding insert
  mem-insert_self a b [] e = Memᴰ.head e
  mem-insert_self a b (x ∷ xs) e = elim (Bool-cases (before a x)) [
    | inl t ↦ rw t (Memᴰ.head e)
    | inr t ↦ rw t (Memᴰ.tail (mem-insert_self a b xs e))
  ]

  mem-insert : (a b : A) (xs : List A) → Memᴰ b xs → Memᴰ b (insert before a xs)
  unfolding insert
  mem-insert a b [] m = elim m [ ]
  mem-insert a b (x ∷ xs) (Memᴰ.head e) = elim (Bool-cases (before a x)) [
    | inl t ↦ rw t (Memᴰ.tail (Memᴰ.head e))
    | inr t ↦ rw t (Memᴰ.head e)
  ]
  mem-insert a b (x ∷ xs) (Memᴰ.tail m) = elim (Bool-cases (before a x)) [
    | inl t ↦ rw t (Memᴰ.tail (Memᴰ.tail m))
    | inr t ↦ rw t (Memᴰ.tail (mem-insert a b xs m))
  ]

  -- Sorting loses nothing.
  pub mem-sort_by : (xs : List A) (b : A) → Memᴰ b xs → Memᴰ b (sort_by before xs)
  unfolding sort_by
  mem-sort_by [] b m = elim m [ ]
  mem-sort_by (x ∷ xs) b (Memᴰ.head e) = mem-insert_self x b (sort_by before xs) e
  mem-sort_by (x ∷ xs) b (Memᴰ.tail m) = mem-insert x b (sort_by before xs) (mem-sort_by xs b m)

  -- Sorting adds nothing: what holds of every item holds of every sorted item.
  module _ {κ} (P : A → Type κ) where
    All-insert : (a : A) (xs : List A) → P a → All P xs → All P (insert before a xs)
    unfolding insert
    All-insert a [] p h = (p, tt)
    All-insert a (x ∷ xs) p h = elim (Bool-cases (before a x)) [
      | inl t ↦ rw t (p, h)
      | inr t ↦ rw t (h.0, All-insert a xs p h.1)
    ]

    pub All-sort_by : (xs : List A) → All P xs → All P (sort_by before xs)
    unfolding sort_by
    All-sort_by [] h = tt
    All-sort_by (x ∷ xs) h = All-insert x (sort_by before xs) h.0 (All-sort_by xs h.1)

module _ {ℓ} {A : Type ℓ} (before : A → A → Bool)
    (total : (a b : A) → (before a b ≡ true) ⊎ (before b a ≡ true))
    (trans : (a b c : A) → before a b ≡ true → before b c ≡ true → before a c ≡ true) where
  insert-IsSorted :
      (a : A) (xs : List A) → IsSorted before xs → IsSorted before (insert before a xs)
  unfolding insert
  insert-IsSorted a [] h = (tt, tt)
  insert-IsSorted a (x ∷ xs) h = elim (Bool-cases (before a x)) [
    | inl t ↦ rw t ((t, All-imp _ _ (λ y. trans a x y t) xs h.0), h)
    | inr t ↦ rw t (
      All-insert before (λ y. before x y ≡ true) a xs (flip t (total a x)) h.0,
      insert-IsSorted a xs h.1,
    )
  ]
    where
      flip : before a x ≡ false → (before a x ≡ true) ⊎ (before x a ≡ true) → before x a ≡ true
      flip f (inl t) = cc
      flip f (inr t) = t

  pub sort_by-IsSorted : (xs : List A) → IsSorted before (sort_by before xs)
  unfolding sort_by
  sort_by-IsSorted [] = tt
  sort_by-IsSorted (x ∷ xs) = insert-IsSorted x (sort_by before xs) (sort_by-IsSorted xs)

module _ {ℓ} {A : Type ℓ} (before : A → A → Bool) where
  -- Every item of a prefix of a sorted list comes before every item behind the prefix.
  pub IsSorted-take-drop :
      (n : ℕ) (xs : List A)
      → IsSorted before xs
      → (a b : A) → Memᴰ a (take n xs)
      → Memᴰ b (drop n xs)
      → before a b ≡ true
  IsSorted-take-drop zero xs h a b ma mb = elim ma [ ]
  IsSorted-take-drop (suc n) [] h a b ma mb = elim ma [ ]
  IsSorted-take-drop (suc n) (x ∷ xs) h a b (Memᴰ.head e) mb =
      rw e (All-mem _ (drop n xs) (All-drop _ n xs h.0) b mb)
  IsSorted-take-drop (suc n) (x ∷ xs) h a b (Memᴰ.tail m) mb = IsSorted-take-drop n xs h.1 a b m mb

  pub mem_of_mem-sort_by : (xs : List A) (b : A) → Memᴰ b (sort_by before xs) → Memᴰ b xs
  mem_of_mem-sort_by xs b m =
      All-mem _ (sort_by before xs)
        (All-sort_by before (λ a. Memᴰ a xs) xs (mem-All _ xs (λ a n. n))) b m
