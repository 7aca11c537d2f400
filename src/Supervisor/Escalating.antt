-- ===== src/Supervisor/Escalating.antt =====
-- A worker that stays dead is escalated: `recover` cannot restart it for ever.
use machine_manager.Base.{
  if_both, ℕ, ◌+◌, ◌≤◌, ◌<◌, zero, suc, ◌≡◌, refl, ap, ◌∙◌, inl, inr, Bool, true, false, Option,
  none, some, leb, arith, Bool-cases,
}
use machine_manager.Base.Result.{Result}
use machine_manager.Supervisor.{failed, retrying, escalated, Os, Supervisor, Health, healthy}
use machine_manager.Supervisor.Process.{
  emit, transition, transition_since, read_alive, read_health, terminate_process, terminate_pid,
}
use machine_manager.Supervisor.Starting.{start}
use machine_manager.Supervisor.Control.{
  reset_since, maybe_reset_retry_budget, is_final, classify, decide, observed, observe,
  needs_recovery, restart, restart_note, recover_observed, recover,
}
use machine_manager.Supervisor.Quiet.{read_health-Quiet, read_uptime-Quiet, terminate_process-Quiet}
use machine_manager.Supervisor.Begun.{start-Begins, IsBegun-is_final}
use machine_manager.Supervisor.Decisions.{
  observed-state, observe_keeps_final, recover_observed_gives_up,
}

-- No process is alive, at any call.
abbrev pub IsDead : Os → Type 0
IsDead os = (n pid : ℕ) → os.poll n pid ≡ false

abbrev pub recoveries : Os → ℕ → Supervisor → Supervisor
recoveries os zero s = s
recoveries os (suc k) s = recoveries os k (recover os s).1

module _ (os : Os) (dead : IsDead os) where
  read_alive_dead : (s : Supervisor) (p : Option ℕ) → s.process ≡ p → (read_alive os s).0 ≡ false
  unfolding read_alive
  read_alive_dead s none e = rw e refl
  read_alive_dead s (some pid) e = rw e (dead s.calls pid)

  observed_dead : (s : Supervisor) → (observed os s).0.process_alive ≡ false
  unfolding observed read_health
  observed_dead s =
      read_alive_dead
        (record s {
          observation_count = s.observation_count + 1;
          last_observed_at = some (os.utc_now s.calls);
          calls = suc s.calls;
        })
        s.process refl

  -- The counters of the restarts.
  abbrev SameCounts : Supervisor → Supervisor → Type 0
  SameCounts s t = (t.restart_count ≡ s.restart_count) × (t.max_restarts ≡ s.max_restarts)

  maybe_reset_dead :
      (health : Health) (s : Supervisor)
      → health.process_alive ≡ false
      → SameCounts s (maybe_reset_retry_budget os health s)
  unfolding maybe_reset_retry_budget reset_since emit healthy
  maybe_reset_dead health s h = (ground arith, ground arith)

  observed-SameCounts : (s : Supervisor) → SameCounts s (observed os s).1
  unfolding observed
  observed-SameCounts s =
      let u : Supervisor = record s {
        observation_count = s.observation_count + 1;
        last_observed_at = some (os.utc_now s.calls);
        calls = suc s.calls;
      } in
      let (health, t) = read_health os u in
      let v : Supervisor = record t { last_health = some health } in
      let read = read_health-Quiet os u in
      let kept = maybe_reset_dead health v (observed_dead s) in
      let up = read_uptime-Quiet os (maybe_reset_retry_budget os health v) in
      (up.restart_count ∙ kept.0 ∙ read.restart_count, up.max_restarts ∙ kept.1 ∙ read.max_restarts)

  decide_dead :
      (health : Health) (s : Supervisor)
      → health.process_alive ≡ false
      → ((decide os health s).state ≡ failed) × SameCounts s (decide os health s)
  unfolding decide classify healthy emit transition transition_since
  decide_dead health s h = (ground arith, (ground arith, ground arith))

  -- An observation of a dead worker that is not in a final state.
  observe_dead :
      (s : Supervisor)
      → is_final s.state ≡ false
      → (healthy (observe os s).0 ≡ false)
        × ((observe os s).1.state ≡ failed)
        × SameCounts s (observe os s).1
  unfolding observe healthy
  observe_dead s f =
      let (health, u) = observed os s in
      let counts = observed-SameCounts s in
      let decided = decide_dead health u (observed_dead s) in
      rw (ap is_final (observed-state os s) ∙ f)
        (rw (observed_dead s) refl, decided.0, (decided.1.0 ∙ counts.0, decided.1.1 ∙ counts.1))

  terminate_dead :
      (s : Supervisor) (p : Option ℕ) → s.process ≡ p → (terminate_process os s).0 ≡ true
  unfolding terminate_process terminate_pid
  terminate_dead s none e = rw e refl
  terminate_dead s (some pid) e = rw e (rw (dead s.calls pid) refl)

  -- A restart, however it ends, has used one restart and can be observed again.
  restart_counts :
      (s : Supervisor)
      → (is_final (restart os s).1.state ≡ false)
        × ((restart os s).1.restart_count ≡ suc s.restart_count)
        × ((restart os s).1.max_restarts ≡ s.max_restarts)
  unfolding restart transition transition_since emit
  restart_counts s =
      let u : Supervisor =
        transition os retrying (restart_note s)
          (record s { restart_count = s.restart_count + 1 }) in
      let retried : u.state ≡ retrying = ground arith in
      let counts : SameCounts (record s { restart_count = s.restart_count + 1 }) u =
        (ground arith, ground arith) in
      let begun = start-Begins os u (rw retried refl) in
      (
        IsBegun-is_final (start os u).1.state begun.1,
        omega (arith, begun.0.1, counts.0),
        begun.0.0.same_limit ∙ counts.1,
      )

  recover_observed_restarts :
      (health : Health) (s : Supervisor)
      → leb s.max_restarts s.restart_count ≡ false
      → (is_final (recover_observed os health s).1.state ≡ false)
        × ((recover_observed os health s).1.restart_count ≡ suc s.restart_count)
        × ((recover_observed os health s).1.max_restarts ≡ s.max_restarts)
  unfolding recover_observed
  recover_observed_restarts health s h =
      let t = (terminate_process os s).1 in
      let q = terminate_process-Quiet os s in
      let r = restart_counts t in
      rw h (
        rw (terminate_dead s s.process refl)
          (r.0, r.1 ∙ ap suc q.restart_count, r.2 ∙ q.max_restarts))

  recover_dead :
      (s : Supervisor)
      → is_final s.state ≡ false
      → (s.max_restarts ≤ s.restart_count → (recover os s).1.state ≡ escalated)
        × (s.restart_count < s.max_restarts
            → (is_final (recover os s).1.state ≡ false)
              × ((recover os s).1.restart_count ≡ suc s.restart_count)
              × ((recover os s).1.max_restarts ≡ s.max_restarts))
  unfolding recover
  recover_dead s f =
      let (health, t) = observe os s in
      let (ill, state, counts) = observe_dead s f in
      let needed : needs_recovery t.state ≡ true = rw state refl in
      rw ill (
        rw needed (
          (λ used. (recover_observed_gives_up os health t (ground (arith, counts.0, counts.1))).1),
          (λ left.
              let r = recover_observed_restarts health t (ground (arith, counts.0, counts.1)) in
              (r.0, r.1 ∙ ap suc counts.0, r.2 ∙ counts.1)),
        ))

  recover_escalated : (s : Supervisor) → s.state ≡ escalated → (recover os s).1.state ≡ escalated
  unfolding recover
  recover_escalated s e =
      let (health, t) = observe os s in
      let kept : t.state ≡ escalated = observe_keeps_final os s (rw e refl) ∙ e in
      if_both {A = Result Bool × Supervisor} (λ r. r.1.state ≡ escalated) (healthy health)
        (λ _. kept) (λ _. rw (ap needs_recovery kept) kept)

  stays_escalated :
      (k : ℕ) (s : Supervisor) → s.state ≡ escalated → (recoveries os k s).state ≡ escalated
  stays_escalated zero s e = e
  stays_escalated (suc k) s e = stays_escalated k (recover os s).1 (recover_escalated s e)

  -- A worker whose process is dead whenever it is looked at, from any state that is not final, is
  -- ESCALATED after one recovery more than it has restarts left, and stays so.
  pub dead_worker_is_escalated :
      (k : ℕ) (s : Supervisor)
      → is_final s.state ≡ false
      → s.max_restarts ≤ s.restart_count + k
      → (recoveries os (suc k) s).state ≡ escalated
  dead_worker_is_escalated zero s f h =
      stays_escalated zero (recover os s).1 ((recover_dead s f).0 (omega (arith, h)))
  dead_worker_is_escalated (suc k) s f h = elim (Bool-cases (leb s.max_restarts s.restart_count)) [
    | inl used ↦ stays_escalated (suc k) (recover os s).1 ((recover_dead s f).0 (ground arith))
    | inr left ↦
        let r = (recover_dead s f).1 (ground arith) in
        dead_worker_is_escalated k (recover os s).1 r.0 (omega (arith, h, r.1, r.2))
  ]
