-- ===== src/Supervisor/Log.antt =====
-- The log of a supervisor is a path of transitions, and accounts for its restarts.
use mathlib.Core.List.{append-nil, append_assoc}
use machine_manager.Base.{
  if_both, ℕ, ◌-◌, ◌≤◌, suc, ◌≡◌, refl, sym, ap, ◌∙◌, Bool, true, false, Option, none, some, List,
  [], ◌∷◌, ◌++◌, arith, subst,
}
use machine_manager.Supervisor.{
  JobState, queued, starting, running, verifying, complete, stalled, failed, retrying, escalated,
  cancelled, same_state, Os, Detail, restarts, budget_reset, Supervisor, Event,
}
use machine_manager.Supervisor.Process.{tick, event_of, Note, emit, transition_since, has_duration}

-- The transitions that the methods can make: from, to. A health check and a reset of the retry budget stay
-- in their state.
abbrev pub is_edge : JobState → JobState → Bool
is_edge queued starting = true
is_edge retrying starting = true
is_edge failed retrying = true
is_edge stalled retrying = true
is_edge failed escalated = true
is_edge stalled escalated = true
is_edge complete cancelled = false
is_edge cancelled cancelled = true
is_edge _ complete = true
is_edge _ cancelled = true
is_edge complete b = same_state complete b
is_edge cancelled b = same_state cancelled b
is_edge escalated b = same_state escalated b
is_edge _ running = true
is_edge _ verifying = true
is_edge _ failed = true
is_edge _ stalled = true
is_edge a b = same_state a b

-- The events lead from one state to another by such transitions, each from where the last one led.
abbrev pub PathOf : JobState → List Event → JobState → Type 0
PathOf a [] b = a ≡ b
PathOf a (e ∷ es) b =
    (e.previous_state ≡ a) × (is_edge a e.new_state ≡ true) × PathOf e.new_state es b

-- The restarts that a log counts: one for each restart, none after a reset of the budget.
abbrev pub tally : ℕ → Detail → ℕ
tally n (restarts _ _) = suc n
tally n (budget_reset _ _ _) = 0
tally n _ = n

abbrev pub restarts_of : ℕ → List Event → ℕ
restarts_of n [] = n
restarts_of n (e ∷ es) = restarts_of (tally n e.detail) es

-- What any method of a supervisor does to its log, its state and its counters.
pub record Runs (s t : Supervisor) : Type 0 where
  pub more : List Event
  pub grown : t.events ≡ s.events ++ more
  pub path : PathOf s.state more t.state
  pub counted : t.restart_count ≡ restarts_of s.restart_count more
  pub same_limit : t.max_restarts ≡ s.max_restarts
  pub bounded : s.restart_count ≤ s.max_restarts → t.restart_count ≤ t.max_restarts

pub PathOf-append :
    (a b c : JobState) (xs ys : List Event) → PathOf a xs b → PathOf b ys c → PathOf a (xs ++ ys) c
PathOf-append a b c [] ys p q = subst (λ x. PathOf x ys c) (sym p) q
PathOf-append a b c (e ∷ xs) ys p q = (p.0, p.1, PathOf-append e.new_state b c xs ys p.2 q)

restarts_of-append :
    (n : ℕ) (xs ys : List Event) → restarts_of n (xs ++ ys) ≡ restarts_of (restarts_of n xs) ys
restarts_of-append n [] ys = refl
restarts_of-append n (e ∷ xs) ys = restarts_of-append (tally n e.detail) xs ys

pub Runs-trans : {s t u : Supervisor} → Runs s t → Runs t u → Runs s u
Runs-trans {s} {t} {u} a b = record {
  more = a.more ++ b.more;
  grown = b.grown ∙ ap (λ es. es ++ b.more) a.grown ∙ append_assoc s.events a.more b.more;
  path = PathOf-append s.state t.state u.state a.more b.more a.path b.path;
  counted =
      b.counted
      ∙ ap (λ n. restarts_of n b.more) a.counted
      ∙ sym (restarts_of-append s.restart_count a.more b.more);
  same_limit = b.same_limit ∙ a.same_limit;
  bounded = λ h. b.bounded (a.bounded h);
}

-- A method that logs nothing and keeps the state and the counters.
pub record Quiet (s t : Supervisor) : Type 0 where
  pub events : t.events ≡ s.events
  pub state : t.state ≡ s.state
  pub restart_count : t.restart_count ≡ s.restart_count
  pub max_restarts : t.max_restarts ≡ s.max_restarts

pub Runs-Quiet : {s t : Supervisor} → Quiet s t → Runs s t
Runs-Quiet {s} {t} q = record {
  more = [];
  grown = q.events ∙ sym (append-nil s.events);
  path = sym q.state;
  counted = q.restart_count;
  same_limit = q.max_restarts;
  bounded = λ h. omega (arith, q.restart_count, q.max_restarts);
}

-- One event, and the state and the counters that go with it.
pub Runs-one :
    {s t : Supervisor} (e : Event)
    → t.events ≡ s.events ++ e ∷ []
    → e.previous_state ≡ s.state
    → e.new_state ≡ t.state
    → is_edge s.state t.state ≡ true
    → t.restart_count ≡ tally s.restart_count e.detail
    → t.max_restarts ≡ s.max_restarts
    → (s.restart_count ≤ s.max_restarts → t.restart_count ≤ t.max_restarts)
    → Runs s t
Runs-one {s} {t} e grown from to edge counted same_limit bounded = record {
  more = e ∷ [];
  grown = grown;
  path = (from, ap (is_edge s.state) to ∙ edge, to);
  counted = counted;
  same_limit = same_limit;
  bounded = bounded;
}

module _ (os : Os) where
  -- The counter after an event, where the limit is kept.
  abbrev pub IsCounted : Supervisor → ℕ → Detail → Type 0
  IsCounted s n d =
      (n ≡ tally s.restart_count d) × (s.restart_count ≤ s.max_restarts → n ≤ s.max_restarts)

  -- A method may change its supervisor before it logs; what it must keep until then.
  pub emit-Runs :
      (new : JobState) (note : Note) (d : Option ℕ) (s u : Supervisor)
      → u.events ≡ s.events
      → u.state ≡ new
      → u.max_restarts ≡ s.max_restarts
      → is_edge s.state new ≡ true
      → IsCounted s u.restart_count note.detail
      → Runs s (emit os s.state new note d u)
  unfolding emit
  emit-Runs new note d s u es st lim edge c =
      Runs-one (event_of os s.state new note d u.calls)
        (ap (λ xs. xs ++ event_of os s.state new note d u.calls ∷ []) es) refl (sym st)
        (ap (is_edge s.state) st ∙ edge) c.0 lim (λ h. omega (arith, c.1 h, lim))

  pub transition_since-Runs :
      (at : Option ℕ) (new : JobState) (note : Note) (s u : Supervisor)
      → u.events ≡ s.events
      → s.state ≡ u.state
      → u.max_restarts ≡ s.max_restarts
      → is_edge s.state new ≡ true
      → IsCounted s u.restart_count note.detail
      → Runs s (transition_since os at new note u)
  unfolding transition_since
  transition_since-Runs none new note s u es st lim edge c =
      subst (λ x. Runs s (emit os x new note none (record u { state = new }))) st
        (emit-Runs new note none s (record u { state = new }) es refl lim edge c)
  transition_since-Runs (some at) new note s u es st lim edge c =
      if_both (Runs s) (has_duration new)
        (λ _.
          subst
            (λ x. Runs s (
              emit os x new note (some (os.monotonic u.calls - at))
                (tick (record u { state = new }))))
            st
            (emit-Runs new note (some (os.monotonic u.calls - at)) s
              (tick (record u { state = new })) es refl lim edge c))
        (λ _.
          subst (λ x. Runs s (emit os x new note none (record u { state = new }))) st
            (emit-Runs new note none s (record u { state = new }) es refl lim edge c))
