-- ===== src/Supervisor/Accounting.antt =====
-- The log of a supervisor: the methods that observe, recover and end a worker, and any sequence of
-- calls.
use machine_manager.Base.{
  if_both, ℕ, ◌+◌, ◌-◌, suc, ◌≡◌, refl, sym, ap, ◌∙◌, Bool, true, false, Option, none, some, leb,
  ltb, ◌==◌, not, ◌||◌, arith,
}
use machine_manager.Base.Result.{Result}
use machine_manager.Supervisor.{
  JobState, running, verifying, complete, stalled, failed, retrying, escalated, cancelled,
  same_state, Os, Supervisor, Health, healthy,
}
use machine_manager.Supervisor.Process.{Note, transition, read_health, terminate_process, tick}
use machine_manager.Supervisor.Control.{
  observed_note, reset_note, restart_note, complete_note, cancel_note, reset_since,
  maybe_reset_retry_budget, is_final, classify, decide, observed, observe, needs_recovery,
  escalation, restart, recover_observed, recover, mark_complete, is_ended, cancel, in_startup_grace,
}
use machine_manager.Supervisor.Log.{
  is_edge, Runs, Runs-trans, Quiet, Runs-Quiet, transition_since-Runs, emit-Runs, tally,
}
use machine_manager.Supervisor.Quiet.{
  terminate_process-Quiet, read_health-Quiet, read_uptime-Quiet, Quiet-refl, Quiet-trans, same,
}
use machine_manager.Supervisor.Begun.{start-Runs}

edge_refl : (x : JobState) → is_edge x x ≡ true
edge_refl x = ground arith

-- What `classify` decides on.
abbrev is_verdict : JobState → Bool
is_verdict running = true
is_verdict verifying = true
is_verdict failed = true
is_verdict stalled = true
is_verdict _ = false

verdict_edge : (x y : JobState) → is_final x ≡ false → is_verdict y ≡ true → is_edge x y ≡ true
verdict_edge x y f v = ground arith

recovery_edges :
    (x : JobState)
    → needs_recovery x ≡ true
    → (is_edge x retrying ≡ true) × (is_edge x escalated ≡ true)
recovery_edges x h = (ground arith, ground arith)

completes : (x : JobState) → is_edge x complete ≡ true
completes x = ground arith

cancels : (x : JobState) → is_ended x ≡ false → is_edge x cancelled ≡ true
cancels x f = ground arith

module _ (os : Os) where
  -- A transition that keeps the counters.
  transition-Runs :
      (new : JobState) (note : Note) (s : Supervisor)
      → is_edge s.state new ≡ true
      → tally s.restart_count note.detail ≡ s.restart_count
      → Runs s (transition os new note s)
  unfolding transition
  transition-Runs new note s edge c =
      transition_since-Runs os s.started new note s s refl refl refl edge (sym c, λ h. h)

  reset_since-Runs :
      (at : Option ℕ) (health : Health) (s : Supervisor) → Runs s (reset_since os at health s)
  unfolding reset_since
  reset_since-Runs none health s = Runs-Quiet Quiet-refl
  reset_since-Runs (some at) health s =
      let uptime = os.monotonic s.calls - at in
      if_both (Runs s) (not (healthy health) || ltb uptime s.retry_reset_after)
        (λ _. Runs-Quiet (same s (tick s) refl refl refl refl))
        (λ _.
          emit-Runs os s.state (reset_note s uptime) none s
            (record (tick s) { restart_count = 0; budget_is_reset = true }) refl refl refl
            (edge_refl s.state) (refl, λ h. omega arith))

  maybe_reset-Runs :
      (health : Health) (s : Supervisor) → Runs s (maybe_reset_retry_budget os health s)
  unfolding maybe_reset_retry_budget
  maybe_reset-Runs health s =
      if_both (Runs s) (s.budget_is_reset || s.restart_count == 0) (λ _. Runs-Quiet Quiet-refl)
        (λ _. reset_since-Runs s.started health s)

  classify_lem :
      (health : Health) (s : Supervisor)
      → Quiet s (classify os health s).1 × (is_verdict (classify os health s).0.0 ≡ true)
  unfolding classify in_startup_grace
  classify_lem health s = (
    record {
      events = ground arith;
      state = ground arith;
      restart_count = ground arith;
      max_restarts = ground arith;
    },
    ground arith,
  )

  decide-Runs :
      (health : Health) (s : Supervisor) → is_final s.state ≡ false → Runs s (decide os health s)
  unfolding decide
  decide-Runs health s f =
      let t = (classify os health s).1 in
      let verdict = (classify os health s).0 in
      let q = classify_lem health s in
      Runs-trans (Runs-Quiet q.0) (
        if_both (Runs t) (same_state verdict.0 t.state)
          (λ _.
            emit-Runs os t.state (observed_note health t "health_check" verdict.1) none t t refl
              refl refl (edge_refl t.state) (refl, λ h. h))
          (λ _.
            transition-Runs verdict.0 (observed_note health t "state_change" verdict.1) t
              (verdict_edge t.state verdict.0 (ap is_final q.0.state ∙ f) q.1) refl))

  observed-Runs : (s : Supervisor) → Runs s (observed os s).1
  unfolding observed
  observed-Runs s =
      let u : Supervisor = record s {
        observation_count = s.observation_count + 1;
        last_observed_at = some (os.utc_now s.calls);
        calls = suc s.calls;
      } in
      let (health, t) = read_health os u in
      let v : Supervisor = record t { last_health = some health } in
      Runs-trans
        (Runs-Quiet (
          Quiet-trans (same s u refl refl refl refl)
            (Quiet-trans (read_health-Quiet os u) (same t v refl refl refl refl))))
        (Runs-trans (maybe_reset-Runs health v)
          (Runs-Quiet (read_uptime-Quiet os (maybe_reset_retry_budget os health v))))

  pub observe-Runs : (s : Supervisor) → Runs s (observe os s).1
  unfolding observe
  observe-Runs s =
      let (health, u) = observed os s in
      Runs-trans (observed-Runs s) (
        if_both {A = Health × Supervisor} (λ r. Runs u r.1) (is_final u.state)
          (λ _. Runs-Quiet Quiet-refl) (λ f. decide-Runs health u f))

  restart-Runs :
      (s : Supervisor)
      → is_edge s.state retrying ≡ true
      → leb s.max_restarts s.restart_count ≡ false
      → Runs s (restart os s).1
  unfolding restart transition
  restart-Runs s edge f =
      let u : Supervisor = record s { restart_count = s.restart_count + 1 } in
      Runs-trans
        (transition_since-Runs os s.started retrying (restart_note s) s u refl refl refl edge
          (omega arith, λ h. ground arith))
        (start-Runs os (transition os retrying (restart_note s) u))

  recover_observed-Runs :
      (health : Health) (s : Supervisor)
      → needs_recovery s.state ≡ true
      → Runs s (recover_observed os health s).1
  unfolding recover_observed
  recover_observed-Runs health s n =
      let edges = recovery_edges s.state n in
      let (ended, t) = terminate_process os s in
      let q = terminate_process-Quiet os s in
      if_both {A = Result Bool × Supervisor} (λ r. Runs s r.1) (leb s.max_restarts s.restart_count)
        (λ _.
          Runs-trans
            (transition-Runs escalated (escalation health s "retry_limit_reached") s edges.1 refl)
            (Runs-Quiet (
              terminate_process-Quiet os
                (transition os escalated (escalation health s "retry_limit_reached") s))))
        (λ f. Runs-trans (Runs-Quiet q) (
          if_both {A = Result Bool × Supervisor} (λ r. Runs t r.1) ended
            (λ _. restart-Runs t (ap (λ x. is_edge x retrying) q.state ∙ edges.0) (
              ap (λ x. leb x t.restart_count) q.max_restarts
              ∙ ap (leb s.max_restarts) q.restart_count
              ∙ f))
            (λ _.
              transition-Runs escalated (escalation health t "worker_termination_unconfirmed") t
                (ap (λ x. is_edge x escalated) q.state ∙ edges.1) refl)))

  pub recover-Runs : (s : Supervisor) → Runs s (recover os s).1
  unfolding recover
  recover-Runs s =
      let (health, t) = observe os s in
      Runs-trans (observe-Runs s) (
        if_both {A = Result Bool × Supervisor} (λ r. Runs t r.1) (healthy health)
          (λ _. Runs-Quiet Quiet-refl)
          (λ _.
            if_both {A = Result Bool × Supervisor} (λ r. Runs t r.1) (needs_recovery t.state)
              (λ n. recover_observed-Runs health t n) (λ _. Runs-Quiet Quiet-refl)))

  pub mark_complete-Runs : (s : Supervisor) → Runs s (mark_complete os s)
  unfolding mark_complete
  mark_complete-Runs s =
      Runs-trans (transition-Runs complete complete_note s (completes s.state) refl)
        (Runs-Quiet (terminate_process-Quiet os (transition os complete complete_note s)))

  pub cancel-Runs : (s : Supervisor) → Runs s (cancel os s)
  unfolding cancel
  cancel-Runs s =
      if_both {A = Supervisor} (λ t. Runs s (terminate_process os t).1) (is_ended s.state)
        (λ _. Runs-Quiet (terminate_process-Quiet os s))
        (λ f.
          Runs-trans (transition-Runs cancelled cancel_note s (cancels s.state f) refl)
            (Runs-Quiet (terminate_process-Quiet os (transition os cancelled cancel_note s))))
