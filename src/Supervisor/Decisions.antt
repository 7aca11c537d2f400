-- ===== src/Supervisor/Decisions.antt =====
-- The states that `observe` and `recover` decide on.
use machine_manager.Supervisor.Begun.{transition-state}
use machine_manager.Base.{
  if_both, false, suc, ◌+◌, ◌≡◌, ◌≤◌, ◌↔◌, refl, sym, ap, ◌∙◌, ◌⊎◌, true, false, some, leb, arith,
}
use machine_manager.Base.Result.{ok}
use machine_manager.Supervisor.{
  JobState, running, verifying, complete, stalled, failed, escalated, cancelled, same_state, Os,
  Supervisor, Health, healthy,
}
use machine_manager.Supervisor.Process.{emit, transition, read_health}
use machine_manager.Supervisor.Control.{
  observed_note, reset_since, maybe_reset_retry_budget, is_final, classify, decide, observed,
  observe, needs_recovery, escalation, recover_observed, recover,
}
use machine_manager.Supervisor.Quiet.{read_health-Quiet, read_uptime-Quiet, terminate_process-Quiet}

same_state→eq : (x y : JobState) → same_state x y ≡ true → x ≡ y
same_state→eq x y h = ground arith

-- What the signals make of a worker that is still of concern.
abbrev pub Decided : Health → JobState → Type 0
Decided h b =
    ((b ≡ running)
      ↔ ((h.process_alive ≡ true) × (h.heartbeat_fresh ≡ true) × (h.resource_active ≡ true)))
    × ((b ≡ failed) ↔ (h.process_alive ≡ false))
    × ((b ≡ running) ⊎ (b ≡ failed) ⊎ (b ≡ verifying) ⊎ (b ≡ stalled))

-- The state after an observation, by the state before it.
abbrev pub Observed : JobState → Health → JobState → Type 0
Observed complete h b = b ≡ complete
Observed cancelled h b = b ≡ cancelled
Observed escalated h b = b ≡ escalated
Observed _ h b = Decided h b

module _ (os : Os) where
  reset-state :
      (health : Health) (s : Supervisor) → (maybe_reset_retry_budget os health s).state ≡ s.state
  unfolding maybe_reset_retry_budget reset_since emit
  reset-state health s = ground arith

  pub observed-state : (s : Supervisor) → (observed os s).1.state ≡ s.state
  unfolding observed
  observed-state s =
      let u : Supervisor = record s {
        observation_count = s.observation_count + 1;
        last_observed_at = some (os.utc_now s.calls);
        calls = suc s.calls;
      } in
      let (health, t) = read_health os u in
      let v : Supervisor = record t { last_health = some health } in
      (read_uptime-Quiet os (maybe_reset_retry_budget os health v)).state
      ∙ reset-state health v
      ∙ (read_health-Quiet os u).state

  pub decide-state :
      (health : Health) (s : Supervisor) → (decide os health s).state ≡ (classify os health s).0.0
  unfolding decide emit
  decide-state health s =
      let (verdict, t) = classify os health s in
      if_both {A = Supervisor} (λ u. u.state ≡ verdict.0) (same_state verdict.0 t.state)
        (λ e. sym (same_state→eq verdict.0 t.state e))
        (λ _. transition-state os verdict.0 (observed_note health t "state_change" verdict.1) t)

  -- An observation leaves a worker that has completed, was cancelled or was escalated in its state.
  pub observe_keeps_final :
      (s : Supervisor) → is_final s.state ≡ true → (observe os s).1.state ≡ s.state
  unfolding observe
  observe_keeps_final s f =
      let (health, u) = observed os s in rw (ap is_final (observed-state s) ∙ f) (observed-state s)

  pub recover_observed_gives_up :
      (health : Health) (s : Supervisor)
      → leb s.max_restarts s.restart_count ≡ true
      → ((recover_observed os health s).0 ≡ ok false)
        × ((recover_observed os health s).1.state ≡ escalated)
  unfolding recover_observed
  recover_observed_gives_up health s h =
      let note = escalation health s "retry_limit_reached" in
      rw h (
        refl,
        (terminate_process-Quiet os (transition os escalated note s)).state
            ∙ transition-state os escalated note s,
      )

  -- A recovery that finds a worker FAILED or STALLED with its restarts used up gives up: it reports
  -- failure and leaves the worker ESCALATED.
  pub recover_gives_up :
      (s : Supervisor)
      → healthy (observe os s).0 ≡ false
      → needs_recovery (observe os s).1.state ≡ true
      → (observe os s).1.max_restarts ≤ (observe os s).1.restart_count
      → ((recover os s).0 ≡ ok false) × ((recover os s).1.state ≡ escalated)
  unfolding recover
  recover_gives_up s ill needed used =
      let (health, t) = observe os s in
      rw ill (rw needed (recover_observed_gives_up health t (ground arith)))
