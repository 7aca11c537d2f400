-- ===== src/Base/Lists.antt =====
-- Lists measured by native numbers, and predicates on lists by recursion.
use Prim.Native.Nat.{ℕ, zero, suc, ◌+◌, ◌-◌, ◌≤◌, min}
use mathlib.Core.Path.{◌≡◌, refl, ap}
use mathlib.Core.Logic.{◌⊎◌, inl, inr}
use mathlib.Core.Bool.{Bool, true}
use mathlib.Core.List.{List, [], ◌∷◌, ◌++◌, Memᴰ, map}
use native.Mathlib.Omega.{arith}
use machine_manager.Base.Tests.{if◌then◌else◌, Bool-cases}

module _ {ℓ} {A : Type ℓ} where
  abbrev pub length : List A → ℕ
  length [] = 0
  length (x ∷ xs) = suc (length xs)

  abbrev pub take : ℕ → List A → List A
  take zero xs = []
  take (suc n) [] = []
  take (suc n) (x ∷ xs) = x ∷ take n xs

  abbrev pub drop : ℕ → List A → List A
  drop zero xs = xs
  drop (suc n) [] = []
  drop (suc n) (x ∷ xs) = drop n xs

  -- The items that pass a test, in order.
  unfoldable pub keep : (A → Bool) → List A → List A
  keep p [] = []
  keep p (x ∷ xs) = let rest = keep p xs in if p x then x ∷ rest else rest

  -- How many items pass a test.
  unfoldable pub count_if : (A → Bool) → List A → ℕ
  count_if p [] = 0
  count_if p (x ∷ xs) = let rest = count_if p xs in if p x then suc rest else rest

  -- Every item satisfies the predicate.
  abbrev pub All {κ} : (A → Type κ) → List A → Type κ
  All P [] = Unit
  All P (x ∷ xs) = P x × All P xs

module _ {ℓ} {A : Type ℓ} where
  pub length-append : (xs ys : List A) → length (xs ++ ys) ≡ length xs + length ys
  length-append [] ys = omega arith
  length-append (x ∷ xs) ys = omega (arith, length-append xs ys)

  pub length-take : (n : ℕ) (xs : List A) → length (take n xs) ≡ min n (length xs)
  length-take zero xs = omega arith
  length-take (suc n) [] = omega arith
  length-take (suc n) (x ∷ xs) = omega (arith, length-take n xs)

  pub length-drop : (n : ℕ) (xs : List A) → length (drop n xs) ≡ length xs - n
  length-drop zero xs = omega arith
  length-drop (suc n) [] = omega arith
  length-drop (suc n) (x ∷ xs) = omega (arith, length-drop n xs)

  pub take-append-drop : (n : ℕ) (xs : List A) → take n xs ++ drop n xs ≡ xs
  take-append-drop zero xs = refl
  take-append-drop (suc n) [] = refl
  take-append-drop (suc n) (x ∷ xs) = ap (λ t. x ∷ t) (take-append-drop n xs)

module _ {ℓ κ} {A : Type ℓ} (P : A → Type κ) where
  pub All-append : (xs ys : List A) → All P xs → All P ys → All P (xs ++ ys)
  All-append [] ys h k = k
  All-append (x ∷ xs) ys h k = (h.0, All-append xs ys h.1 k)

  pub All-append_left : (xs ys : List A) → All P (xs ++ ys) → All P xs
  All-append_left [] ys h = tt
  All-append_left (x ∷ xs) ys h = (h.0, All-append_left xs ys h.1)

  pub All-append_right : (xs ys : List A) → All P (xs ++ ys) → All P ys
  All-append_right [] ys h = h
  All-append_right (x ∷ xs) ys h = All-append_right xs ys h.1

  pub All-take : (n : ℕ) (xs : List A) → All P xs → All P (take n xs)
  All-take zero xs h = tt
  All-take (suc n) [] h = tt
  All-take (suc n) (x ∷ xs) h = (h.0, All-take n xs h.1)

  pub All-drop : (n : ℕ) (xs : List A) → All P xs → All P (drop n xs)
  All-drop zero xs h = h
  All-drop (suc n) [] h = tt
  All-drop (suc n) (x ∷ xs) h = All-drop n xs h.1

  -- What passes the test does so, and keeps what held of every item.
  pub All-keep : (p : A → Bool) (xs : List A) → All P xs → All (λ a. P a × (p a ≡ true)) (keep p xs)
  unfolding keep
  All-keep p [] h = tt
  All-keep p (x ∷ xs) h = elim (Bool-cases (p x)) [
    | inl e ↦ rw e ((h.0, e), All-keep p xs h.1)
    | inr e ↦ rw e (All-keep p xs h.1)
  ]

  pub All-mem : (xs : List A) → All P xs → (a : A) → Memᴰ a xs → P a
  All-mem [] h a m = elim m [ ]
  All-mem (x ∷ xs) h a (Memᴰ.head e) = rw e h.0
  All-mem (x ∷ xs) h a (Memᴰ.tail m) = All-mem xs h.1 a m

  pub mem-All : (xs : List A) → ((a : A) → Memᴰ a xs → P a) → All P xs
  mem-All [] h = tt
  mem-All (x ∷ xs) h = (h x (Memᴰ.head refl), mem-All xs (λ a m. h a (Memᴰ.tail m)))

module _ {ℓ κ μ} {A : Type ℓ} (P : A → Type κ) (Q : A → Type μ) (f : (a : A) → P a → Q a) where
  pub All-imp : (xs : List A) → All P xs → All Q xs
  All-imp [] h = tt
  All-imp (x ∷ xs) h = (f x h.0, All-imp xs h.1)

module _ {ℓ} {A : Type ℓ} where
  pub mem-keep : (p : A → Bool) (xs : List A) (a : A) → Memᴰ a xs → p a ≡ true → Memᴰ a (keep p xs)
  unfolding keep
  mem-keep p [] a m t = elim m [ ]
  mem-keep p (x ∷ xs) a (Memᴰ.head e) t = rw (← e, t) (Memᴰ.head refl)
  mem-keep p (x ∷ xs) a (Memᴰ.tail m) t = elim (Bool-cases (p x)) [
    | inl e ↦ rw e (Memᴰ.tail (mem-keep p xs a m t))
    | inr e ↦ rw e (mem-keep p xs a m t)
  ]

  pub mem-append_cases : (xs ys : List A) (a : A) → Memᴰ a (xs ++ ys) → Memᴰ a xs ⊎ Memᴰ a ys
  mem-append_cases [] ys a m = inr m
  mem-append_cases (x ∷ xs) ys a (Memᴰ.head e) = inl (Memᴰ.head e)
  mem-append_cases (x ∷ xs) ys a (Memᴰ.tail m) = elim (mem-append_cases xs ys a m) [
    | inl l ↦ inl (Memᴰ.tail l)
    | inr r ↦ inr r
  ]

  pub mem-take_drop :
      (n : ℕ) (xs : List A) (a : A) → Memᴰ a xs → Memᴰ a (take n xs) ⊎ Memᴰ a (drop n xs)
  mem-take_drop n xs a m = mem-append_cases (take n xs) (drop n xs) a (rw (take-append-drop n xs) m)

  pub length-keep-le : (p : A → Bool) (xs : List A) → length (keep p xs) ≤ length xs
  unfolding keep
  length-keep-le p [] = omega arith
  length-keep-le p (x ∷ xs) = ground (arith, length-keep-le p xs)

  -- A prefix that leaves something behind is full.
  pub length-take_full : (n : ℕ) (xs : List A) (a : A) → Memᴰ a (drop n xs) → length (take n xs) ≡ n
  length-take_full zero xs a m = refl
  length-take_full (suc n) [] a m = elim m [ ]
  length-take_full (suc n) (x ∷ xs) a m = ap suc (length-take_full n xs a m)

module _ {ℓ κ μ ν} {A : Type ℓ} {B : Type κ} (P : A → Type μ) (Q : B → Type ν) (f : A → B)
    (step : (a : A) → P a → Q (f a)) where
  pub All-map : (xs : List A) → All P xs → All Q (map f xs)
  All-map [] h = tt
  All-map (x ∷ xs) h = (step x h.0, All-map xs h.1)

pub length-map {ℓ κ} :
    {A : Type ℓ} {B : Type κ} (f : A → B) (xs : List A) → length (map f xs) ≡ length xs
length-map f [] = refl
length-map f (x ∷ xs) = ap suc (length-map f xs)

module _ {ℓ κ} {A : Type ℓ} {B : Type κ} (f : A → B) where
  pub mem-map : (xs : List A) (a : A) → Memᴰ a xs → Memᴰ (f a) (map f xs)
  mem-map [] a m = elim m [ ]
  mem-map (x ∷ xs) a (Memᴰ.head e) = Memᴰ.head (ap f e)
  mem-map (x ∷ xs) a (Memᴰ.tail m) = Memᴰ.tail (mem-map xs a m)

  pub mem_of_mem-map : (xs : List A) (b : B) → Memᴰ b (map f xs) → (a : A) × Memᴰ a xs × (b ≡ f a)
  mem_of_mem-map [] b m = elim m [ ]
  mem_of_mem-map (x ∷ xs) b (Memᴰ.head e) = (x, Memᴰ.head refl, e)
  mem_of_mem-map (x ∷ xs) b (Memᴰ.tail m) =
      let (a, n, e) = mem_of_mem-map xs b m in (a, Memᴰ.tail n, e)

module _ {ℓ} {A : Type ℓ} where
  pub take_all : (n : ℕ) (xs : List A) → length xs ≤ n → take n xs ≡ xs
  take_all zero [] h = refl
  take_all zero (x ∷ xs) h = elim h [ ]
  take_all (suc n) [] h = refl
  take_all (suc n) (x ∷ xs) h = ap (λ t. x ∷ t) (take_all n xs (omega arith))

  pub keep-All : (p : A → Bool) (xs : List A) → All (λ a. p a ≡ true) xs → keep p xs ≡ xs
  unfolding keep
  keep-All p [] h = refl
  keep-All p (x ∷ xs) h = rw h.0 (ap (λ t. x ∷ t) (keep-All p xs h.1))

  pub mem_of_mem-take : (n : ℕ) (xs : List A) (a : A) → Memᴰ a (take n xs) → Memᴰ a xs
  mem_of_mem-take zero xs a m = elim m [ ]
  mem_of_mem-take (suc n) [] a m = elim m [ ]
  mem_of_mem-take (suc n) (x ∷ xs) a (Memᴰ.head e) = Memᴰ.head e
  mem_of_mem-take (suc n) (x ∷ xs) a (Memᴰ.tail m) = Memᴰ.tail (mem_of_mem-take n xs a m)
