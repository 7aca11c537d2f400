-- ===== src/Store/Tasks/Rules.antt =====
-- What the statements on the `tasks` table of manager/state_store.py are to do, written without them:
-- which task waits for a claim, which of two comes first, and what becomes of a row.
use mathlib.Core.List.{Memᴰ}
use machine_manager.Base.{
  ℕ, ◌+◌, ◌≤◌, ◌<◌, ◌≡◌, refl, sym, ◌∙◌, ap, ◌⊎◌, inl, inr, Bool, true, false, Option, none, some,
  List, [], ◌∷◌, Bool-cases, arith, ltb,
}
use machine_manager.Base.Text.{
  Text, text_eq, text_eq→eq, text_eq_refl, text_leb, text_mem, strip, is_empty,
}
use machine_manager.Store.Tasks.{
  Status, queued, running, complete, failed, escalated, cancelled, other, Task, WorkItem, is_queued,
  is_due, clean_kinds, runs_before, is_allowed, with_status, mark_running, claimed_item, requeue,
}

-- A task waits at a time if it is QUEUED, its time has come and its kind is not excluded; blanks
-- around an excluded kind do not count, and a blank one excludes nothing.
abbrev pub IsWaiting : ℕ → List Text → Task → Type 0
IsWaiting now excluded t =
    (t.status ≡ queued)
    × (t.scheduled_at ≤ now)
    × ((k : Text) → Memᴰ k excluded → strip k ≡ t.kind → is_empty (strip k) ≡ true)

-- The earlier task, or of two for one time the one with the lesser id.
abbrev pub ComesFirst : Task → Task → Type 0
ComesFirst a b =
    (a.scheduled_at < b.scheduled_at)
    ⊎ ((a.scheduled_at ≡ b.scheduled_at) × (text_leb a.task_id b.task_id ≡ true))

-- A row that was claimed or started, what the claim returns for it, and a row that is put back.
abbrev pub taken : ℕ → Task → Task
taken now t = record {
  task_id = t.task_id;
  kind = t.kind;
  objective_id = t.objective_id;
  status = running;
  scheduled_at = t.scheduled_at;
  attempts = t.attempts + 1;
  updated = now;
  payload = t.payload;
}

abbrev pub item_of : Task → WorkItem
item_of t = record {
  task_id = t.task_id;
  kind = t.kind;
  objective_id = t.objective_id;
  attempts = t.attempts + 1;
  payload = t.payload;
}

abbrev pub put_back : ℕ → Task → Task
put_back now t = record {
  task_id = t.task_id;
  kind = t.kind;
  objective_id = t.objective_id;
  status = queued;
  scheduled_at = now;
  attempts = t.attempts;
  updated = now;
  payload = t.payload;
}

-- A task ends in one of these, or waits again.
abbrev pub is_outcome : Status → Bool
is_outcome queued = true
is_outcome complete = true
is_outcome failed = true
is_outcome escalated = true
is_outcome cancelled = true
is_outcome running = false
is_outcome (other s) = false

abbrev pub time_or : Option ℕ → ℕ → ℕ
time_or none at = at
time_or (some at) _ = at

abbrev pub ended : Status → Option ℕ → ℕ → Task → Task
ended status scheduled now t = record {
  task_id = t.task_id;
  kind = t.kind;
  objective_id = t.objective_id;
  status = status;
  scheduled_at = time_or scheduled t.scheduled_at;
  attempts = t.attempts;
  updated = now;
  payload = t.payload;
}

-- The model's own tests and rows are these.
is_queued→eq : (s : Status) → is_queued s ≡ true → s ≡ queued
is_queued→eq queued h = refl
is_queued→eq running h = cc
is_queued→eq complete h = cc
is_queued→eq failed h = cc
is_queued→eq escalated h = cc
is_queued→eq cancelled h = cc
is_queued→eq (other s) h = cc

clean_kinds_sound :
    (kind : Text) (ks : List Text)
    → text_mem kind (clean_kinds ks) ≡ false
    → (k : Text) → Memᴰ k ks
    → strip k ≡ kind
    → is_empty (strip k) ≡ true
unfolding clean_kinds text_mem
clean_kinds_sound kind [] h k m e = elim m [ ]
clean_kinds_sound kind (x ∷ ks) h k (Memᴰ.head ex) e = elim (Bool-cases (is_empty (strip x))) [
  | inl blank ↦ rw ex blank
  | inr named ↦
      let same : strip x ≡ kind = ap strip (sym ex) ∙ e in
      cc (text_eq_refl kind, rw (named, same) at h)
]
clean_kinds_sound kind (x ∷ ks) h k (Memᴰ.tail m) e = clean_kinds_sound kind ks (ground arith) k m e

clean_kinds_complete :
    (kind : Text) (ks : List Text)
    → ((k : Text) → Memᴰ k ks → strip k ≡ kind → is_empty (strip k) ≡ true)
    → text_mem kind (clean_kinds ks) ≡ false
unfolding clean_kinds text_mem
clean_kinds_complete kind [] h = refl
clean_kinds_complete kind (x ∷ ks) h =
    let rest = clean_kinds_complete kind ks (λ k m. h k (Memᴰ.tail m)) in
    elim (Bool-cases (is_empty (strip x))) [
      | inl blank ↦ rw blank rest
      | inr named ↦ elim (Bool-cases (text_eq kind (strip x))) [
        | inl e ↦ cc (h x (Memᴰ.head refl) (sym (text_eq→eq kind (strip x) e)), named)
        | inr apart ↦ rw (named, apart) rest
      ]
    ]

pub is_due→IsWaiting :
    (now : ℕ) (excluded : List Text) (t : Task)
    → is_due now (clean_kinds excluded) t ≡ true
    → IsWaiting now excluded t
unfolding is_due
is_due→IsWaiting now excluded t h = (
  is_queued→eq t.status (ground arith),
  ground arith,
  clean_kinds_sound t.kind excluded (ground arith),
)

pub is_due-IsWaiting :
    (now : ℕ) (excluded : List Text) (t : Task)
    → IsWaiting now excluded t
    → is_due now (clean_kinds excluded) t ≡ true
unfolding is_due
is_due-IsWaiting now excluded t (waits, come, free) =
    let kept = clean_kinds_complete t.kind excluded free in rw (waits, kept) (ground arith)

pub runs_before→ComesFirst : (a b : Task) → runs_before a b ≡ true → ComesFirst a b
unfolding runs_before
runs_before→ComesFirst a b h = elim (Bool-cases (ltb a.scheduled_at b.scheduled_at)) [
  | inl e ↦ inl (ground arith)
  | inr e ↦ inr (ground arith, ground arith)
]

pub is_allowed-is_outcome : (s : Status) → is_allowed s ≡ is_outcome s
is_allowed-is_outcome queued = refl
is_allowed-is_outcome running = refl
is_allowed-is_outcome complete = refl
is_allowed-is_outcome failed = refl
is_allowed-is_outcome escalated = refl
is_allowed-is_outcome cancelled = refl
is_allowed-is_outcome (other s) = refl

pub with_status-ended :
    (status : Status) (scheduled : Option ℕ) (now : ℕ) (t : Task)
    → with_status status scheduled now t ≡ ended status scheduled now t
unfolding with_status
with_status-ended status none now t = refl
with_status-ended status (some at) now t = refl

pub mark_running-taken : (now : ℕ) (t : Task) → mark_running now t ≡ taken now t
unfolding mark_running
mark_running-taken now t = refl

pub claimed_item-item_of : (t : Task) → claimed_item t ≡ item_of t
unfolding claimed_item
claimed_item-item_of t = refl

pub requeue-put_back : (now : ℕ) (t : Task) → requeue now t ≡ put_back now t
unfolding requeue
requeue-put_back now t = refl
