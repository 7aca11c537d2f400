-- ===== src/Store.antt =====
-- manager/state_store.py: the durable store, a record of the tables that are modelled. Each method
-- runs in one transaction under one lock, so a method is one step; faults of SQLite are not modelled.
pub mod Events
pub mod Tasks
pub mod Snapshots
use machine_manager.Base.{
  ℕ, ◌+◌, List, [], ◌∷◌, Option, none, some, if◌then◌else◌, ◌≡◌, refl, inl, inr, Bool-cases,
}
use machine_manager.Base.Text.{Text, text_eq, text_eq_refl}
use machine_manager.Store.Events.{EventRow}
use machine_manager.Store.Tasks.{Task}

-- The cursor that manager/recurring.py keeps for a template.
pub record Cursor : Type 0 where
  pub task_id : Text
  pub sequence : ℕ
  pub next_at : ℕ

-- A field that is to be a number: a number, of which a negative one acts as 0, a value that is none,
-- or a number that is too large for the conversion.
pub data Field : Type 0 where
  number : ℕ → Field
  no_number : Field
  too_large : Field

-- A JSON value of the `meta` table: a cursor, another object by its entries `task_id` as a text,
-- `sequence` and `next_at`, or a text.
pub data MetaValue : Type 0 where
  cursor : Cursor → MetaValue
  mapping : Text → Field → Field → MetaValue
  plain : Text → MetaValue

-- A row of `outreach_contacts`.
pub record Contact : Type 0 where
  pub channel : Text
  pub recipient_hash : Text
  pub state : Text
  pub first_contacted_at : Option Text
  pub last_contacted_at : Option Text
  pub updated : Text

pub record Store : Type 0 where
  pub tasks : List Task
  pub events : List EventRow
  pub event_retention : ℕ
  pub meta : List (Text × MetaValue)
  pub contacts : List Contact

unfoldable pub put_meta : Text → MetaValue → List (Text × MetaValue) → List (Text × MetaValue)
put_meta key value [] = (key, value) ∷ []
put_meta key value ((k, v) ∷ rest) =
    if text_eq k key then (key, value) ∷ rest else (k, v) ∷ put_meta key value rest

unfoldable pub find_meta : Text → List (Text × MetaValue) → Option MetaValue
find_meta key [] = none
find_meta key ((k, v) ∷ rest) = if text_eq k key then some v else find_meta key rest

-- `set_meta`: INSERT … ON CONFLICT(key) DO UPDATE
unfoldable pub set_meta : Text → MetaValue → Store → Store
unfolding put_meta
set_meta key value s = record s { meta = put_meta key value s.meta }

-- `get_meta`, with the default left to the caller.
unfoldable pub get_meta : Text → Store → Option MetaValue
unfolding find_meta
get_meta key s = find_meta key s.meta

-- A value is read under the key that it was set under.
pub find_meta-put_meta :
    (key : Text) (v : MetaValue) (m : List (Text × MetaValue))
    → find_meta key (put_meta key v m) ≡ some v
unfolding find_meta put_meta
find_meta-put_meta key v [] = rw (text_eq_refl key) refl
find_meta-put_meta key v ((k, w) ∷ m) = elim (Bool-cases (text_eq k key)) [
  | inl e ↦ rw e (rw (text_eq_refl key) refl)
  | inr e ↦ rw e (rw e (find_meta-put_meta key v m))
]
