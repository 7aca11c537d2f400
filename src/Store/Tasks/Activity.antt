-- ===== src/Store/Tasks/Activity.antt =====
-- The rows that `task_activity` of manager/state_store.py shows, and the grouped counts. The
-- summaries of results that it adds from the events are not modelled.
use mathlib.Core.List.{Memᴰ}
use machine_manager.Base.{
  ℕ, zero, suc, ◌≤◌, ◌≡◌, refl, sym, ap, subst, inl, inr, Bool, true, ◌&&◌, ◌||◌, List, [], ◌∷◌,
  ◌++◌, ltb, ◌==◌, if◌then◌else◌, take, keep, length, map, count_if, arith, Bool-cases, mem-keep,
  mem-map, length-map, All-keep, All-mem, mem-All, mem_of_mem-take,
}
use machine_manager.Base.Sorting.{sort_by, mem-sort_by, length-sort_by, All-sort_by}
use machine_manager.Base.Text.{Text, text_eq, text_eq_refl, text_leb, text_mem, text_eq→eq}
use machine_manager.Store.Tasks.{Task, clamp_limit}

unfoldable pub has_kind : Text → Task → Bool
has_kind kind t = text_eq t.kind kind

-- `ORDER BY updated DESC, task_id`
unfoldable pub newest_first : Task → Task → Bool
newest_first a b =
    ltb b.updated a.updated || (a.updated == b.updated && text_leb a.task_id b.task_id)

-- The rows of a kind whose rank is within the limit, in their order.
unfoldable pub bucket : ℕ → Text → List Task → List Task
unfolding has_kind newest_first
bucket limit kind ts = take limit (sort_by newest_first (keep (has_kind kind) ts))

-- The kinds of the rows, each once.
unfoldable pub kinds_of : List Task → List Text
kinds_of [] = []
kinds_of (t ∷ ts) = let rest = kinds_of ts in if text_mem t.kind rest then rest else t.kind ∷ rest

abbrev first_updated : List Task → ℕ
first_updated [] = 0
first_updated (t ∷ ts) = t.updated

-- `(-float(buckets[kind][0]["updated"]), kind)`
unfoldable pub kind_before : ℕ → List Task → Text → Text → Bool
unfolding bucket
kind_before limit ts a b =
    let at = first_updated (bucket limit a ts) in
    let bt = first_updated (bucket limit b ts) in ltb bt at || (at == bt && text_leb a b)

unfoldable pub kind_order : ℕ → List Task → List Text
unfolding kinds_of kind_before
kind_order limit ts = sort_by (kind_before limit ts) (kinds_of ts)

-- One pass over the kinds: the next row of each, and what is left.
unfoldable pub heads : List (List Task) → List Task
heads [] = []
heads ([] ∷ bs) = heads bs
heads ((t ∷ ts) ∷ bs) = t ∷ heads bs

unfoldable pub tails : List (List Task) → List (List Task)
tails [] = []
tails ([] ∷ bs) = [] ∷ tails bs
tails ((t ∷ ts) ∷ bs) = ts ∷ tails bs

-- So many passes.
unfoldable pub interleave : ℕ → List (List Task) → List Task
unfolding heads tails
interleave zero bs = []
interleave (suc n) bs = heads bs ++ interleave n (tails bs)

-- The rows of `task_activity`. A bucket has no more rows than the limit, so as many passes as the
-- limit exhaust the buckets or fill it.
unfoldable pub activity_rows : ℕ → List Task → List Task
unfolding clamp_limit bucket kind_order interleave
activity_rows limit ts =
    let n = clamp_limit limit in
    take n (interleave n (map (λ kind. bucket n kind ts) (kind_order n ts)))

mem_of_text_mem : (a : Text) (bs : List Text) → text_mem a bs ≡ true → Memᴰ a bs
unfolding text_mem
mem_of_text_mem a [] h = cc
mem_of_text_mem a (b ∷ bs) h = elim (Bool-cases (text_eq a b)) [
  | inl e ↦ Memᴰ.head (text_eq→eq a b e)
  | inr e ↦ Memᴰ.tail (mem_of_text_mem a bs (rw e at h))
]

kind_is_listed : (t : Task) (ts : List Task) → Memᴰ t ts → Memᴰ t.kind (kinds_of ts)
unfolding kinds_of
kind_is_listed t [] m = elim m [ ]
kind_is_listed t (x ∷ ts) (Memᴰ.head e) = elim (Bool-cases (text_mem x.kind (kinds_of ts))) [
  | inl h ↦ rw h (
      subst (λ k. Memᴰ k (kinds_of ts)) (ap (λ (u : Task). u.kind) (sym e))
        (mem_of_text_mem x.kind (kinds_of ts) h))
  | inr h ↦ rw h (Memᴰ.head (ap (λ (u : Task). u.kind) e))
]
kind_is_listed t (x ∷ ts) (Memᴰ.tail m) = elim (Bool-cases (text_mem x.kind (kinds_of ts))) [
  | inl h ↦ rw h (kind_is_listed t ts m)
  | inr h ↦ rw h (Memᴰ.tail (kind_is_listed t ts m))
]

-- A prefix of a list that has something has its first item.
first_of_take :
    {A : Type 0} (n : ℕ) (xs : List A) (a : A)
    → Memᴰ a xs
    → 1 ≤ n
    → (x : A) × (rest : List A) × (take n xs ≡ x ∷ rest)
first_of_take n [] a m h = elim m [ ]
first_of_take zero (x ∷ xs) a m h = elim h [ ]
first_of_take (suc n) (x ∷ xs) a m h = (x, take n xs, refl)

mem-heads :
    (t : Task) (rest : List Task) (bs : List (List Task)) → Memᴰ (t ∷ rest) bs → Memᴰ t (heads bs)
unfolding heads
mem-heads t rest [] m = elim m [ ]
mem-heads t rest ([] ∷ bs) (Memᴰ.head e) = cc
mem-heads t rest ((x ∷ xs) ∷ bs) (Memᴰ.head e) = Memᴰ.head cc
mem-heads t rest ([] ∷ bs) (Memᴰ.tail m) = mem-heads t rest bs m
mem-heads t rest ((x ∷ xs) ∷ bs) (Memᴰ.tail m) = Memᴰ.tail (mem-heads t rest bs m)

length-heads_le : (bs : List (List Task)) → length (heads bs) ≤ length bs
unfolding heads
length-heads_le [] = omega arith
length-heads_le ([] ∷ bs) = omega (arith, length-heads_le bs)
length-heads_le ((t ∷ ts) ∷ bs) = omega (arith, length-heads_le bs)

mem-take-append :
    {A : Type 0} (n : ℕ) (xs ys : List A) (a : A)
    → Memᴰ a xs
    → length xs ≤ n
    → Memᴰ a (take n (xs ++ ys))
mem-take-append n [] ys a m h = elim m [ ]
mem-take-append zero (x ∷ xs) ys a m h = elim h [ ]
mem-take-append (suc n) (x ∷ xs) ys a (Memᴰ.head e) h = Memᴰ.head e
mem-take-append (suc n) (x ∷ xs) ys a (Memᴰ.tail m) h =
    Memᴰ.tail (mem-take-append n xs ys a m (omega arith))

clamp_limit_pos : (limit : ℕ) → 1 ≤ clamp_limit limit
unfolding clamp_limit
clamp_limit_pos limit = omega arith

-- The first row of the bucket of a kind that some task has.
first_of_bucket :
    (n : ℕ) (t : Task) (ts : List Task)
    → Memᴰ t ts
    → 1 ≤ n
    → (u : Task) × (rest : List Task) × (bucket n t.kind ts ≡ u ∷ rest)
      × (text_eq u.kind t.kind ≡ true)
unfolding bucket has_kind
first_of_bucket n t ts m h =
    let same_kind = keep (has_kind t.kind) ts in
    let sorted = sort_by newest_first same_kind in
    let listed =
      mem-sort_by newest_first same_kind t
        (mem-keep (has_kind t.kind) ts t m (text_eq_refl t.kind)) in
    let (u, rest, e) = first_of_take n sorted t listed h in
    let kinds =
      All-sort_by newest_first (λ (v : Task). Unit {0} × (has_kind t.kind v ≡ true)) same_kind
        (All-keep (λ v. Unit {0}) (has_kind t.kind) ts (mem-All (λ v. Unit {0}) ts (λ v k. tt))) in
    let first = mem_of_mem-take n sorted u (subst (Memᴰ u) (sym e) (Memᴰ.head refl)) in
    (u, rest, e, (All-mem _ sorted kinds u first).1)

-- No kind of work is hidden by another: if the kinds of the rows are no more than the clamped
-- limit, the activity shows a row of the kind of each task.
pub no_kind_is_hidden :
    (limit : ℕ) (t : Task) (ts : List Task)
    → Memᴰ t ts
    → length (kinds_of ts) ≤ clamp_limit limit
    → (u : Task) × Memᴰ u (activity_rows limit ts) × (text_eq u.kind t.kind ≡ true)
unfolding activity_rows kind_order
no_kind_is_hidden limit t ts m few =
    let n = clamp_limit limit in
    let order = kind_order n ts in
    let buckets = map (λ kind. bucket n kind ts) order in
    let (u, rest, e, kind) = first_of_bucket n t ts m (clamp_limit_pos limit) in
    let ordered = mem-sort_by (kind_before n ts) (kinds_of ts) t.kind (kind_is_listed t ts m) in
    let shown =
      mem-heads u rest buckets
        (subst (λ b. Memᴰ b buckets) e (mem-map (λ kind. bucket n kind ts) order t.kind ordered)) in
    let fits : length (heads buckets) ≤ n = omega (
      arith,
      length-heads_le buckets,
      length-map (λ kind. bucket n kind ts) order,
      length-sort_by (kind_before n ts) (kinds_of ts),
      few,
    ) in
    (u, in_window n buckets u shown fits (clamp_limit_pos limit), kind)
  where
    in_window :
        (n : ℕ) (bs : List (List Task)) (u : Task)
        → Memᴰ u (heads bs)
        → length (heads bs) ≤ n
        → 1 ≤ n
        → Memᴰ u (take n (interleave n bs))
    in_window zero bs u shown fits h = elim h [ ]
    in_window (suc n) bs u shown fits h =
        mem-take-append (suc n) (heads bs) (interleave n (tails bs)) u shown fits

-- `SELECT kind, COUNT(*) … GROUP BY kind ORDER BY kind`
unfoldable pub task_kind_counts : List Task → List (Text × ℕ)
unfolding kinds_of has_kind
task_kind_counts ts =
    map (λ kind. (kind, count_if (has_kind kind) ts)) (sort_by text_leb (kinds_of ts))
