-- ===== src/Supervisor/Control.antt =====
-- manager/supervisor.py: starting, observing, recovering and ending a worker. A method that may
-- raise returns a `Result` beside the supervisor that it leaves.
use machine_manager.Supervisor.Starting.{plain_note, detailed, start}
use machine_manager.Base.{
  ℕ, ◌+◌, ◌-◌, suc, Bool, true, false, not, ◌||◌, Option, none, some, String, ltb, leb, ◌==◌,
  if◌then◌else◌,
}
use machine_manager.Base.Result.{Result, ok}
use machine_manager.Base.Text.{text}
use machine_manager.Supervisor.{
  JobState, running, verifying, complete, stalled, failed, retrying, escalated, cancelled,
  same_state, Health, healthy, Os, signals, restarts, budget_reset, Supervisor,
}
use machine_manager.Supervisor.Process.{
  tick, Note, emit, transition, terminate_process, read_health,
}

-- The states in which `observe` decides nothing.
abbrev pub is_final : JobState → Bool
is_final complete = true
is_final cancelled = true
is_final escalated = true
is_final _ = false

abbrev pub needs_recovery : JobState → Bool
needs_recovery failed = true
needs_recovery stalled = true
needs_recovery _ = false

abbrev pub escalation : Health → Supervisor → String → Note
escalation health s outcome =
    detailed (signals health s.observation_count)
      (plain_note "state_change" (some (text "escalate")) (some (text outcome)))

abbrev pub is_ended : JobState → Bool
is_ended complete = true
is_ended cancelled = true
is_ended _ = false

abbrev pub observed_note : Health → Supervisor → String → String → Note
observed_note health s event_type outcome =
    detailed (signals health s.observation_count) (plain_note event_type none (some (text outcome)))

abbrev pub reset_note : Supervisor → ℕ → Note
reset_note s uptime = detailed (budget_reset s.restart_count uptime s.retry_reset_after) (
    plain_note "retry_budget_reset" (some (text "reset_retry_budget"))
      (some (text "stable_operation")))

abbrev pub restart_note : Supervisor → Note
restart_note s =
    detailed (restarts (s.restart_count + 1) s.max_restarts)
      (plain_note "state_change" (some (text "restart")) (some (text "retrying")))

abbrev pub complete_note : Note
complete_note = plain_note "state_change" (some (text "complete")) (some (text "completed"))

abbrev pub cancel_note : Note
cancel_note = plain_note "state_change" (some (text "cancel")) (some (text "cancelled"))

module _ (os : Os) where
  -- `_maybe_reset_retry_budget`, with the start of the worker.
  unfoldable pub reset_since : Option ℕ → Health → Supervisor → Supervisor
  unfolding emit healthy
  reset_since none health s = s
  reset_since (some at) health s =
      let uptime = os.monotonic s.calls - at in
      if not (healthy health) || ltb uptime s.retry_reset_after
      then tick s
      else emit os s.state s.state (reset_note s uptime) none
          (record (tick s) { restart_count = 0; budget_is_reset = true })

  unfoldable pub maybe_reset_retry_budget : Health → Supervisor → Supervisor
  unfolding reset_since
  maybe_reset_retry_budget health s =
      if s.budget_is_reset || s.restart_count == 0 then s else reset_since s.started health s

  -- `in_startup_grace`
  unfoldable pub in_startup_grace : Supervisor → Bool × Supervisor
  in_startup_grace s = elim s.started [
    | none ↦ (false, s)
    | some at ↦ (ltb (os.monotonic s.calls - at) s.spec.startup_grace, tick s)
  ]

  -- The state that `observe` decides on, and the outcome that it records.
  unfoldable pub classify : Health → Supervisor → (JobState × String) × Supervisor
  unfolding in_startup_grace healthy
  classify health s =
      if healthy health
      then ((running, "healthy"), s)
      else if not health.process_alive
      then ((failed, "worker_exit"), s)
      else (let (grace, t) = in_startup_grace s in
          if grace
          then ((verifying, "startup_grace"), t)
          else ((stalled, "missing_progress_or_resource_signal"), t))

  -- The end of `observe`: a transition, or a health check where the state stays.
  unfoldable pub decide : Health → Supervisor → Supervisor
  unfolding classify transition emit
  decide health s =
      let (verdict, t) = classify health s in
      if same_state verdict.0 t.state
      then emit os t.state t.state (observed_note health t "health_check" verdict.1) none t
      else transition os verdict.0 (observed_note health t "state_change" verdict.1) t

  -- The clock is read once more for the progress snapshot, where a worker was started.
  unfoldable pub read_uptime : Supervisor → Supervisor
  read_uptime s = elim s.started [ none ↦ s | some at ↦ tick s ]

  -- `observe` before its decision: the health, the count of observations and the retry budget.
  unfoldable pub observed : Supervisor → Health × Supervisor
  unfolding read_health maybe_reset_retry_budget read_uptime
  observed s =
      let (health, t) = read_health os (record s {
        observation_count = s.observation_count + 1;
        last_observed_at = some (os.utc_now s.calls);
        calls = suc s.calls;
      }) in
      (
        health,
        read_uptime (maybe_reset_retry_budget health (record t { last_health = some health })),
      )

  unfoldable pub observe : Supervisor → Health × Supervisor
  unfolding observed decide
  observe s =
      let (health, u) = observed s in
      if is_final u.state then (health, u) else (health, decide health u)

  -- The branch of `recover` for a worker whose process has ended.
  unfoldable pub restart : Supervisor → Result Bool × Supervisor
  unfolding transition start
  restart s =
      start os
        (transition os retrying (restart_note s) (record s { restart_count = s.restart_count + 1 }))

  -- `recover` after its observation of an unhealthy worker.
  unfoldable pub recover_observed : Health → Supervisor → Result Bool × Supervisor
  unfolding transition terminate_process restart
  recover_observed health s =
      if leb s.max_restarts s.restart_count
      then (
        ok false,
        (terminate_process os
            (transition os escalated (escalation health s "retry_limit_reached") s)).1,
      )
      else (let (ended, t) = terminate_process os s in
          if ended then restart t else (
            ok false,
            transition os escalated (escalation health t "worker_termination_unconfirmed") t,
          ))

  unfoldable pub recover : Supervisor → Result Bool × Supervisor
  unfolding observe recover_observed healthy
  recover s =
      let (health, t) = observe s in
      if healthy health
      then (ok true, t)
      else if needs_recovery t.state
      then recover_observed health t
      else (ok false, t)

  unfoldable pub mark_complete : Supervisor → Supervisor
  unfolding transition terminate_process
  mark_complete s = (terminate_process os (transition os complete complete_note s)).1

  unfoldable pub cancel : Supervisor → Supervisor
  unfolding transition terminate_process
  cancel s =
      let t = if is_ended s.state then s else transition os cancelled cancel_note s in
      (terminate_process os t).1
