-- ===== src/Store/Events/Retention.antt =====
-- The event table never outgrows its retention, and what it drops is never newer than what it keeps.
use mathlib.Core.List.{Memᴰ}
use machine_manager.Base.{
  ℕ, ◌+◌, ◌≤◌, ◌≡◌, refl, ◌∙◌, ◌⊎◌, inl, inr, Bool, true, false, not, ◌&&◌, ◌||◌, List, [], ◌∷◌,
  arith, leb, ◌==◌, Bool-cases, take, zero, suc, keep-All, mem-All, keep, length, length-take,
  length-take_full, eq_of_test, mem-take_drop,
}
use machine_manager.Base.Sorting.{
  insert, sort_by, sort_by-IsSorted, IsSorted-take-drop, mem-sort_by,
}
use machine_manager.Base.Text.{
  Text, text_eq, text_eq_comm, text_eq→eq, text_leb, text_leb-total, text_leb_trans,
  text_leb_antisymm,
}
use machine_manager.Store.Events.{EventRow, contains_event, newer, newest, rowid_in, prune}

abbrev pub HasUniqueRowids : List EventRow → Type 0
HasUniqueRowids [] = Unit
HasUniqueRowids (r ∷ rs) = (rowid_in r.rowid rs ≡ false) × HasUniqueRowids rs

-- The order of `newer` on timestamps and rowids.
abbrev later : Text → ℕ → Text → ℕ → Bool
later s i t j = not (text_leb s t) || (text_eq s t && leb j i)

later_total : (s t : Text) (i j : ℕ) → (later s i t j ≡ true) ⊎ (later t j s i ≡ true)
later_total s t i j = ground (arith, text_leb_antisymm s t, text_leb_antisymm t s, text_eq_comm s t)

later_trans :
    (s t u : Text) (i j k : ℕ) → later s i t j ≡ true → later t j u k ≡ true → later s i u k ≡ true
later_trans s t u i j k h l =
    ground (arith, text_eq→eq s t, text_eq→eq t u, text_leb-total t u, text_leb_trans s u t)

newer-total : (a b : EventRow) → (newer a b ≡ true) ⊎ (newer b a ≡ true)
unfolding newer
newer-total a b = later_total a.event.timestamp b.event.timestamp a.rowid b.rowid

newer_trans : (a b c : EventRow) → newer a b ≡ true → newer b c ≡ true → newer a c ≡ true
unfolding newer
newer_trans a b c =
    later_trans a.event.timestamp b.event.timestamp c.event.timestamp a.rowid b.rowid c.rowid

-- Each row is one of the newest `n`, or there are `n` of those and each of them is newer.
pub newest_or_older :
    (n : ℕ) (rows : List EventRow) (r : EventRow)
    → Memᴰ r rows
    → Memᴰ r (newest n rows)
      ⊎ ((length (newest n rows) ≡ n)
          × ((k : EventRow) → Memᴰ k (newest n rows) → newer k r ≡ true))
unfolding newest
newest_or_older n rows r m =
    let ordered = sort_by newer rows in
    elim (mem-take_drop n ordered r (mem-sort_by newer rows r m)) [
      | inl front ↦ inl front
      | inr behind ↦ inr (
        length-take_full n ordered r behind,
        λ k front.
            IsSorted-take-drop newer n ordered (sort_by-IsSorted newer newer-total newer_trans rows)
              k r front behind,
      )
    ]

pub rowid_in-mem :
    (r : EventRow) (rows : List EventRow) → Memᴰ r rows → rowid_in r.rowid rows ≡ true
unfolding rowid_in
rowid_in-mem r [] m = elim m [ ]
rowid_in-mem r (x ∷ xs) (Memᴰ.head e) = rw (← e) (ground arith)
rowid_in-mem r (x ∷ xs) (Memᴰ.tail m) = ground (arith, rowid_in-mem r xs m)

-- At most one row of a table has a given rowid.
length-keep_rowid_none :
    (i : ℕ) (rows : List EventRow)
    → rowid_in i rows ≡ false
    → length (keep (λ r. i == r.rowid) rows) ≡ 0
unfolding rowid_in keep
length-keep_rowid_none i [] h = refl
length-keep_rowid_none i (r ∷ rows) h = ground (arith, length-keep_rowid_none i rows)

length-keep_rowid :
    (i : ℕ) (rows : List EventRow)
    → HasUniqueRowids rows
    → length (keep (λ r. i == r.rowid) rows) ≤ 1
unfolding keep
length-keep_rowid i [] h = omega arith
length-keep_rowid i (r ∷ rows) h = elim (Bool-cases (i == r.rowid)) [
  | inl e ↦
      let absent : rowid_in i rows ≡ false = rw (eq_of_test i r.rowid e) h.0 in
      ground (arith, length-keep_rowid_none i rows absent)
  | inr e ↦ ground (arith, length-keep_rowid i rows h.1)
]

length-keep_or :
    (p q : EventRow → Bool) (rows : List EventRow)
    → length (keep (λ r. p r || q r) rows) ≤ length (keep p rows) + length (keep q rows)
unfolding keep
length-keep_or p q [] = omega arith
length-keep_or p q (r ∷ rows) = ground (arith, length-keep_or p q rows)

length-keep-false : (rows : List EventRow) → length (keep (λ r. false) rows) ≡ 0
unfolding keep
length-keep-false [] = refl
length-keep-false (r ∷ rows) = length-keep-false rows

-- Keeping the rows whose rowid a list names keeps no more rows than the list has.
length-keep-rowid_in :
    (named rows : List EventRow)
    → HasUniqueRowids rows
    → length (keep (λ r. rowid_in r.rowid named) rows) ≤ length named
unfolding rowid_in
length-keep-rowid_in [] rows h = omega (arith, length-keep-false rows)
length-keep-rowid_in (s ∷ named) rows h = omega (
  arith,
  length-keep_or (λ r. s.rowid == r.rowid) (λ r. rowid_in r.rowid named) rows,
  length-keep_rowid s.rowid rows h,
  length-keep-rowid_in named rows h,
)

-- The events that an append keeps number at most the retention.
pub length-prune-le :
    (retention : ℕ) (rows : List EventRow)
    → HasUniqueRowids rows
    → length (prune retention rows) ≤ retention
unfolding prune newest
length-prune-le retention rows h =
    let named = newest retention rows in
    omega (arith, length-keep-rowid_in named rows h, length-take retention (sort_by newer rows))

abbrev pub HasUniqueEventIds : List EventRow → Type 0
HasUniqueEventIds [] = Unit
HasUniqueEventIds (r ∷ rs) = (contains_event r.event.event_id rs ≡ false) × HasUniqueEventIds rs

-- A table of the store: the rowids and the event ids are unique.
pub record IsTable (rows : List EventRow) : Type 0 where
  pub rowids : HasUniqueRowids rows
  pub event_ids : HasUniqueEventIds rows

rowid_in-keep :
    (p : EventRow → Bool) (i : ℕ) (rows : List EventRow)
    → rowid_in i rows ≡ false
    → rowid_in i (keep p rows) ≡ false
unfolding rowid_in keep
rowid_in-keep p i [] h = refl
rowid_in-keep p i (r ∷ rows) h = ground (arith, rowid_in-keep p i rows)

contains_event-keep :
    (p : EventRow → Bool) (id : Text) (rows : List EventRow)
    → contains_event id rows ≡ false
    → contains_event id (keep p rows) ≡ false
unfolding contains_event keep
contains_event-keep p id [] h = refl
contains_event-keep p id (r ∷ rows) h = ground (arith, contains_event-keep p id rows)

pub keep-HasUniqueRowids :
    (p : EventRow → Bool) (rows : List EventRow)
    → HasUniqueRowids rows
    → HasUniqueRowids (keep p rows)
unfolding keep
keep-HasUniqueRowids p [] h = tt
keep-HasUniqueRowids p (r ∷ rows) h = elim (Bool-cases (p r)) [
  | inl e ↦ rw e (rowid_in-keep p r.rowid rows h.0, keep-HasUniqueRowids p rows h.1)
  | inr e ↦ rw e (keep-HasUniqueRowids p rows h.1)
]

pub keep-HasUniqueEventIds :
    (p : EventRow → Bool) (rows : List EventRow)
    → HasUniqueEventIds rows
    → HasUniqueEventIds (keep p rows)
unfolding keep
keep-HasUniqueEventIds p [] h = tt
keep-HasUniqueEventIds p (r ∷ rows) h = elim (Bool-cases (p r)) [
  | inl e ↦
      rw e (contains_event-keep p r.event.event_id rows h.0, keep-HasUniqueEventIds p rows h.1)
  | inr e ↦ rw e (keep-HasUniqueEventIds p rows h.1)
]

-- Of two events the one with the later timestamp is newer, and of two with one timestamp the one
-- that was inserted later.
abbrev pub IsNewer : EventRow → EventRow → Type 0
IsNewer k r =
    (text_leb k.event.timestamp r.event.timestamp ≡ false)
    ⊎ ((k.event.timestamp ≡ r.event.timestamp) × (r.rowid ≤ k.rowid))

pub newer→IsNewer : (k r : EventRow) → newer k r ≡ true → IsNewer k r
unfolding newer
newer→IsNewer k r h = elim (Bool-cases (text_leb k.event.timestamp r.event.timestamp)) [
  | inl e ↦ inr (text_eq→eq k.event.timestamp r.event.timestamp (ground arith), ground arith)
  | inr e ↦ inl e
]

-- Sorting and cutting keep the rowids unique.
rowid_in-insert :
    (i : ℕ) (a : EventRow) (rows : List EventRow)
    → rowid_in i (insert newer a rows) ≡ (a.rowid == i || rowid_in i rows)
unfolding rowid_in insert
rowid_in-insert i a [] = refl
rowid_in-insert i a (r ∷ rows) = ground (arith, rowid_in-insert i a rows)

rowid_in-sort_by :
    (i : ℕ) (rows : List EventRow) → rowid_in i (sort_by newer rows) ≡ rowid_in i rows
unfolding rowid_in sort_by
rowid_in-sort_by i [] = refl
rowid_in-sort_by i (r ∷ rows) =
    ground (arith, rowid_in-insert i r (sort_by newer rows), rowid_in-sort_by i rows)

insert-HasUniqueRowids :
    (a : EventRow) (rows : List EventRow)
    → rowid_in a.rowid rows ≡ false
    → HasUniqueRowids rows
    → HasUniqueRowids (insert newer a rows)
unfolding rowid_in insert
insert-HasUniqueRowids a [] c h = (refl, tt)
insert-HasUniqueRowids a (r ∷ rows) c h = elim (Bool-cases (newer a r)) [
  | inl e ↦ rw e (c, h)
  | inr e ↦ rw e (
    ground (arith, rowid_in-insert r.rowid a rows, h.0),
    insert-HasUniqueRowids a rows (ground arith) h.1,
  )
]

sort_by-HasUniqueRowids :
    (rows : List EventRow) → HasUniqueRowids rows → HasUniqueRowids (sort_by newer rows)
unfolding sort_by
sort_by-HasUniqueRowids [] h = tt
sort_by-HasUniqueRowids (r ∷ rows) h =
    insert-HasUniqueRowids r (sort_by newer rows) (rowid_in-sort_by r.rowid rows ∙ h.0)
      (sort_by-HasUniqueRowids rows h.1)

rowid_in-take :
    (i n : ℕ) (rows : List EventRow) → rowid_in i rows ≡ false → rowid_in i (take n rows) ≡ false
unfolding rowid_in
rowid_in-take i zero rows h = refl
rowid_in-take i (suc n) [] h = refl
rowid_in-take i (suc n) (r ∷ rows) h = ground (arith, rowid_in-take i n rows)

take-HasUniqueRowids :
    (n : ℕ) (rows : List EventRow) → HasUniqueRowids rows → HasUniqueRowids (take n rows)
take-HasUniqueRowids zero rows h = tt
take-HasUniqueRowids (suc n) [] h = tt
take-HasUniqueRowids (suc n) (r ∷ rows) h =
    (rowid_in-take r.rowid n rows h.0, take-HasUniqueRowids n rows h.1)

-- What is pruned keeps at least as many rows as the newest are.
pub length-newest-le :
    (n : ℕ) (rows : List EventRow)
    → HasUniqueRowids rows
    → ((r : EventRow) → Memᴰ r (newest n rows) → Memᴰ r (prune n rows))
    → length (newest n rows) ≤ length (prune n rows)
length-newest-le n rows h kept =
    let named = prune n rows in
    let unique : HasUniqueRowids (newest n rows) =
      unfold newest in take-HasUniqueRowids n _ (sort_by-HasUniqueRowids rows h) in
    rw
      (← keep-All (λ r. rowid_in r.rowid named) (newest n rows)
        (mem-All _ (newest n rows) (λ r m. rowid_in-mem r named (kept r m))))
      (length-keep-rowid_in named (newest n rows) unique)
