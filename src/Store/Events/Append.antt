-- ===== src/Store/Events/Append.antt =====
-- What `append_event` does to a table: it stays a table within its retention, a repeated event
-- changes nothing, and what is dropped is older than all that is kept.
use mathlib.Core.List.{Memᴰ}
use machine_manager.Base.{
  ℕ, ◌≤◌, ◌≡◌, refl, sym, ap, subst, ◌∙◌, ◌⊎◌, inl, inr, true, false, ◌||◌, List, [], ◌∷◌, ◌++◌,
  arith, ◌==◌, Bool-cases, length, All-mem, take_all, keep-All, mem_of_mem-take, eq_of_test,
  mem-All, mem-keep, All-keep,
}
use machine_manager.Base.Sorting.{sort_by, length-sort_by, mem-sort_by, mem_of_mem-sort_by}
use machine_manager.Base.Result.{ok}
use machine_manager.Base.Text.{Text, text_eq_comm, is_empty}
use machine_manager.Store.Events.{
  Event, EventRow, contains_event, next_rowid, newer, newest, rowid_in, prune, insert_event,
  append_event,
}
use machine_manager.Store.Events.Retention.{
  HasUniqueRowids, HasUniqueEventIds, IsTable, newest_or_older, IsNewer, newer→IsNewer,
  length-newest-le, rowid_in-mem, length-prune-le, keep-HasUniqueRowids, keep-HasUniqueEventIds,
}

rowid_in_of_next-le : (i : ℕ) (rows : List EventRow) → next_rowid rows ≤ i → rowid_in i rows ≡ false
unfolding rowid_in next_rowid
rowid_in_of_next-le i [] h = refl
rowid_in_of_next-le i (r ∷ rows) h = ground (arith, rowid_in_of_next-le i rows)

rowid_in-append :
    (i : ℕ) (xs ys : List EventRow) → rowid_in i (xs ++ ys) ≡ (rowid_in i xs || rowid_in i ys)
unfolding rowid_in
rowid_in-append i [] ys = refl
rowid_in-append i (r ∷ xs) ys = ground (arith, rowid_in-append i xs ys)

contains_event-append :
    (id : Text) (xs ys : List EventRow)
    → contains_event id (xs ++ ys) ≡ (contains_event id xs || contains_event id ys)
unfolding contains_event
contains_event-append id [] ys = refl
contains_event-append id (r ∷ xs) ys = ground (arith, contains_event-append id xs ys)

append-HasUniqueRowids :
    (r : EventRow) (rows : List EventRow)
    → rowid_in r.rowid rows ≡ false
    → HasUniqueRowids rows
    → HasUniqueRowids (rows ++ r ∷ [])
unfolding rowid_in
append-HasUniqueRowids r [] c h = (refl, tt)
append-HasUniqueRowids r (x ∷ xs) c h = (
  ground (arith, rowid_in-append x.rowid xs (r ∷ [])),
  append-HasUniqueRowids r xs (ground arith) h.1,
)

append-HasUniqueEventIds :
    (r : EventRow) (rows : List EventRow)
    → contains_event r.event.event_id rows ≡ false
    → HasUniqueEventIds rows
    → HasUniqueEventIds (rows ++ r ∷ [])
unfolding contains_event
append-HasUniqueEventIds r [] c h = (refl, tt)
append-HasUniqueEventIds r (x ∷ xs) c h = (
  ground (
    arith,
    contains_event-append x.event.event_id xs (r ∷ []),
    text_eq_comm r.event.event_id x.event.event_id,
  ),
  append-HasUniqueEventIds r xs (ground arith) h.1,
)

insert_event-IsTable :
    (e : Event) (rows : List EventRow) → IsTable rows → IsTable (insert_event e rows)
unfolding insert_event
insert_event-IsTable e rows h = elim (Bool-cases (contains_event e.event_id rows)) [
  | inl seen ↦ rw seen h
  | inr fresh ↦ rw fresh (record {
    rowids =
        append-HasUniqueRowids _ rows (rowid_in_of_next-le (next_rowid rows) rows (omega arith))
          h.rowids;
    event_ids = append-HasUniqueEventIds _ rows fresh h.event_ids;
  })
]

prune-IsTable : (n : ℕ) (rows : List EventRow) → IsTable rows → IsTable (prune n rows)
unfolding prune
prune-IsTable n rows h = record {
  rowids = keep-HasUniqueRowids _ rows h.rowids;
  event_ids = keep-HasUniqueEventIds _ rows h.event_ids;
}

-- A successful append inserts and prunes.
append_event-eq-ok :
    (retention : ℕ) (e : Event) (rows after : List EventRow)
    → append_event retention e rows ≡ ok after
    → prune retention (insert_event e rows) ≡ after
unfolding append_event
append_event-eq-ok retention e rows after done = ground arith

-- A successful append leaves a table whose rowids and event ids are unique and which holds no more
-- rows than the retention.
pub append_event-IsTable :
    (retention : ℕ) (e : Event) (rows after : List EventRow)
    → IsTable rows
    → append_event retention e rows ≡ ok after
    → IsTable after × (length after ≤ retention)
append_event-IsTable retention e rows after h done =
    let inserted = insert_event-IsTable e rows h in
    subst (λ (t : List EventRow). IsTable t × (length t ≤ retention))
      (append_event-eq-ok retention e rows after done)
      (
        prune-IsTable retention (insert_event e rows) inserted,
        length-prune-le retention (insert_event e rows) inserted.rowids,
      )

prune_all : (n : ℕ) (rows : List EventRow) → length rows ≤ n → prune n rows ≡ rows
unfolding prune newest
prune_all n rows h = rw (take_all n (sort_by newer rows) (rw (length-sort_by newer rows) h)) (
    keep-All _ rows
      (mem-All _ rows (λ r m. rowid_in-mem r (sort_by newer rows) (mem-sort_by newer rows r m))))

-- Appending an event whose id the table has, with any other contents, changes nothing while the
-- table is within its retention.
pub append_event_idem :
    (retention : ℕ) (e : Event) (rows : List EventRow)
    → is_empty e.event_id ≡ false
    → is_empty e.timestamp ≡ false
    → contains_event e.event_id rows ≡ true
    → length rows ≤ retention
    → append_event retention e rows ≡ ok rows
unfolding append_event insert_event
append_event_idem retention e rows named stamped seen fits =
    rw (named, stamped, seen) (ap ok (prune_all retention rows fits))

-- Rows of one table with one rowid are one row.
row_of_rowid :
    (rows : List EventRow) (a b : EventRow)
    → HasUniqueRowids rows
    → Memᴰ a rows
    → Memᴰ b rows
    → a.rowid ≡ b.rowid
    → a ≡ b
row_of_rowid [] a b h ma mb e = elim ma [ ]
row_of_rowid (x ∷ xs) a b h (Memᴰ.head ea) (Memᴰ.head eb) e = ea ∙ sym eb
row_of_rowid (x ∷ xs) a b h (Memᴰ.head ea) (Memᴰ.tail mb) e =
    cc (rowid_in-mem b xs mb, h.0, ap (λ (r : EventRow). r.rowid) ea)
row_of_rowid (x ∷ xs) a b h (Memᴰ.tail ma) (Memᴰ.head eb) e =
    cc (rowid_in-mem a xs ma, h.0, ap (λ (r : EventRow). r.rowid) eb)
row_of_rowid (x ∷ xs) a b h (Memᴰ.tail ma) (Memᴰ.tail mb) e = row_of_rowid xs a b h.1 ma mb e

rowid_in→mem :
    (i : ℕ) (rows : List EventRow)
    → rowid_in i rows ≡ true
    → (r : EventRow) × Memᴰ r rows × (r.rowid ≡ i)
unfolding rowid_in
rowid_in→mem i [] h = cc
rowid_in→mem i (x ∷ xs) h = elim (Bool-cases (x.rowid == i)) [
  | inl e ↦ (x, Memᴰ.head refl, eq_of_test x.rowid i e)
  | inr e ↦ let (r, m, k) = rowid_in→mem i xs (ground arith) in (r, Memᴰ.tail m, k)
]

-- A row that pruning keeps is one of the newest.
mem-newest_of_kept :
    (n : ℕ) (rows : List EventRow) (k : EventRow)
    → HasUniqueRowids rows
    → Memᴰ k (prune n rows)
    → Memᴰ k (newest n rows)
unfolding prune newest
mem-newest_of_kept n rows k h m =
    let (mk, named) = All-mem _ _ (All-keep _ _ rows (mem-All _ rows (λ r mr. mr))) k m in
    let (r, mr, e) = rowid_in→mem k.rowid (newest n rows) named in
    let in_rows : Memᴰ r rows =
      mem_of_mem-sort_by newer rows r (mem_of_mem-take n (sort_by newer rows) r mr) in
    rw (row_of_rowid rows k r h mk in_rows (sym e)) mr

mem-prune :
    (n : ℕ) (rows : List EventRow) (r : EventRow)
    → Memᴰ r rows
    → rowid_in r.rowid (newest n rows) ≡ true
    → Memᴰ r (prune n rows)
unfolding prune
mem-prune n rows r m named = mem-keep _ rows r m named

mem-prune-newest :
    (n : ℕ) (rows : List EventRow) (r : EventRow) → Memᴰ r (newest n rows) → Memᴰ r (prune n rows)
mem-prune-newest n rows r m =
    mem-prune n rows r
      (unfold newest in
        mem_of_mem-sort_by newer rows r (mem_of_mem-take n (sort_by newer rows) r m))
      (rowid_in-mem r (newest n rows) m)

-- What an append drops is old: each row of the table and the new one is kept, or as many rows are
-- kept as the retention allows, each with a later timestamp, or with the same and inserted later.
pub append_event_drops_oldest :
    (retention : ℕ) (e : Event) (rows after : List EventRow) (r : EventRow)
    → IsTable rows
    → append_event retention e rows ≡ ok after
    → Memᴰ r (insert_event e rows)
    → Memᴰ r after ⊎ ((length after ≡ retention) × ((k : EventRow) → Memᴰ k after → IsNewer k r))
append_event_drops_oldest retention e rows after r h done m =
    let all = insert_event e rows in
    let unique = (insert_event-IsTable e rows h).rowids in
    subst
      (λ (t : List EventRow).
        Memᴰ r t ⊎ ((length t ≡ retention) × ((k : EventRow) → Memᴰ k t → IsNewer k r)))
      (append_event-eq-ok retention e rows after done)
      (elim (newest_or_older retention all r m) [
        | inl new ↦ inl (mem-prune-newest retention all r new)
        | inr (full, older) ↦ inr (
          omega (
            arith,
            full,
            length-newest-le retention all unique (mem-prune-newest retention all),
            length-prune-le retention all unique,
          ),
          λ k mk. newer→IsNewer k r (older k (mem-newest_of_kept retention all k unique mk)),
        )
      ])
