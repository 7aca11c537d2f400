-- ===== src/Supervisor/Begun.antt =====
-- `start` of a supervisor: its events are transitions of Supervisor/Log.antt.
use machine_manager.Supervisor.Control.{is_final}
use machine_manager.Base.{
  if_both, ℕ, ◌+◌, suc, ◌≡◌, refl, sym, subst, Bool, true, false, Option, none, some, ◌==◌, String,
  arith, ◌∙◌, Bool-cases, inl, inr,
}
use machine_manager.Base.Result.{Result, ok, err, Error}
use machine_manager.Base.Text.{text}
use machine_manager.Supervisor.{
  JobState, starting, verifying, failed, Os, Supervisor, healthy, holds,
}
use machine_manager.Supervisor.Process.{
  transition, read_health, terminate_process, tick, clear_pid_file, read_pid_file, close_streams,
  transition_since, emit, Note,
}
use machine_manager.Supervisor.Starting.{
  plain_note, begin_verifying, adopt_process, adopt_identified, adopt_named, adopt_read,
  adopt_existing, register_pid, spawned, spawn, spawn_failed, started_or_failed, finish_start,
  may_start, start, started_note, failed_note, reject_unhealthy,
}
use machine_manager.Supervisor.Log.{
  is_edge, Runs, Runs-trans, Quiet, Runs-Quiet, transition_since-Runs, tally,
}
use machine_manager.Supervisor.Quiet.{
  clear_pid_file-Quiet, terminate_process-Quiet, read_health-Quiet, Quiet-refl, same,
}

-- A worker that is being started may be verified and may fail.
abbrev pub IsBegun : JobState → Type 0
IsBegun x = (is_edge x verifying ≡ true) × (is_edge x failed ≡ true)

-- A part of `start`: it logs legally and restarts nothing.
abbrev pub Goes : Supervisor → Supervisor → Type 0
Goes s t = Runs s t × (t.restart_count ≡ s.restart_count)

Goes-trans : {s t u : Supervisor} → Goes s t → Goes t u → Goes s u
Goes-trans g h = (Runs-trans g.0 h.0, h.1 ∙ g.1)

Goes-Quiet : {s t : Supervisor} → Quiet s t → Goes s t
Goes-Quiet q = (Runs-Quiet q, q.restart_count)

abbrev pub Begins : Supervisor → Supervisor → Type 0
Begins s t = Goes s t × IsBegun t.state

Begins-Quiet : {s t : Supervisor} → IsBegun s.state → Quiet s t → Begins s t
Begins-Quiet b q = (Goes-Quiet q, subst IsBegun (sym q.state) b)

Begins-after : {s t u : Supervisor} → Quiet s t → Begins t u → Begins s u
Begins-after q b = (Goes-trans (Goes-Quiet q) b.0, b.1)

Begins-next : {s t u : Supervisor} → Begins s t → (IsBegun t.state → Begins t u) → Begins s u
Begins-next b f = (Goes-trans b.0 (f b.1).0, (f b.1).1)

module _ (os : Os) where
  begin_verifying-Begins :
      (pid : ℕ) (a b c : String) (s : Supervisor)
      → IsBegun s.state
      → Begins s (begin_verifying os pid a b c s)
  unfolding begin_verifying transition transition_since emit
  begin_verifying-Begins pid a b c s g = (
    (
      transition_since-Runs os (some (os.monotonic s.calls)) verifying
          (started_note (s.attempt + 1) pid a b c) s
          (record s {
            attempt = s.attempt + 1;
            budget_is_reset = s.restart_count == 0;
            started = some (os.monotonic s.calls);
            calls = suc s.calls;
          })
          refl refl refl g.0 (refl, λ h. h),
      refl,
    ),
    (refl, refl),
  )

  terminate_process-Begins :
      (s : Supervisor) → IsBegun s.state → Begins s (terminate_process os s).1
  terminate_process-Begins s g = Begins-Quiet g (terminate_process-Quiet os s)

  adopt_unhealthy : (t : Supervisor) → IsBegun t.state → Begins t (reject_unhealthy os t).1
  unfolding reject_unhealthy
  adopt_unhealthy t g =
      if_both {A = Result Bool × Supervisor} (λ r. Begins t r.1) (terminate_process os t).0
        (λ _. Begins-next (terminate_process-Begins t g) (λ h. Begins-Quiet h (
          same (terminate_process os t).1 (record (terminate_process os t).1 { process = none })
            refl refl refl refl)))
        (λ _. terminate_process-Begins t g)

  adopt_process-Begins :
      (pid : ℕ) (s : Supervisor) → IsBegun s.state → Begins s (adopt_process os pid s).1
  unfolding adopt_process
  adopt_process-Begins pid s g =
      let u : Supervisor = record s { process = some pid } in
      let b : Begins u (read_health os u).1 = Begins-Quiet g (read_health-Quiet os u) in
      Begins-after (same s u refl refl refl refl) (
        if_both {A = Result Bool × Supervisor} (λ r. Begins u r.1) (healthy (read_health os u).0)
          (λ _. Begins-next b (begin_verifying-Begins pid _ _ _ (read_health os u).1))
          (λ _. Begins-next b (adopt_unhealthy (read_health os u).1)))

  clear-Begins :
      (pid : Option ℕ) (s : Supervisor) → IsBegun s.state → Begins s (clear_pid_file os pid s)
  clear-Begins pid s g = Begins-Quiet g (clear_pid_file-Quiet os pid s)

  adopt_identified-Begins :
      (known : Option Bool) (pid : ℕ) (s : Supervisor)
      → IsBegun s.state
      → Begins s (adopt_identified os known pid s).1
  unfolding adopt_identified
  adopt_identified-Begins none pid s g = Begins-Quiet g Quiet-refl
  adopt_identified-Begins (some false) pid s g = clear-Begins (some pid) s g
  adopt_identified-Begins (some true) pid s g = adopt_process-Begins pid s g

  adopt_named-Begins :
      (named : Option ℕ) (s : Supervisor) → IsBegun s.state → Begins s (adopt_named os named s).1
  unfolding adopt_named
  adopt_named-Begins none s g = Begins-Quiet g Quiet-refl
  adopt_named-Begins (some pid) s g =
      if_both {A = Result Bool × Supervisor} (λ r. Begins s r.1) (os.poll s.calls pid)
        (λ _.
          Begins-after (same s (tick (tick s)) refl refl refl refl)
            (adopt_identified-Begins (os.identity (suc s.calls) pid) pid (tick (tick s)) g))
        (λ _.
          Begins-after (same s (tick s) refl refl refl refl) (clear-Begins (some pid) (tick s) g))

  adopt_read-Begins :
      (read : Result (Option ℕ)) (s : Supervisor)
      → IsBegun s.state
      → Begins s (adopt_read os read s).1
  unfolding adopt_read
  adopt_read-Begins (err e) s g = Begins-Quiet g Quiet-refl
  adopt_read-Begins (ok named) s g = adopt_named-Begins named s g

  adopt_existing-Begins : (s : Supervisor) → IsBegun s.state → Begins s (adopt_existing os s).1
  unfolding adopt_existing
  adopt_existing-Begins s g = adopt_read-Begins (read_pid_file os s) s g

  register_pid-Begins :
      (pid : ℕ) (s : Supervisor) → IsBegun s.state → Begins s (register_pid os pid s).1
  unfolding register_pid
  register_pid-Begins pid s g =
      if_both {A = Result (Unit {0}) × Supervisor} (λ r. Begins s r.1) s.spec.has_pid_file
        (λ _.
          if_both {A = Result (Unit {0}) × Supervisor} (λ r. Begins s r.1) (os.write_pid s.calls)
            (λ _.
              let u : Supervisor = record s {
                pid_file = holds pid s.spec.worker_id;
                calls = suc s.calls;
              } in
              Begins-after (same s u refl refl refl refl) (begin_verifying-Begins pid _ _ _ u g))
            (λ _.
              Begins-after (same s (tick s) refl refl refl refl)
                (terminate_process-Begins (tick s) g)))
        (λ _. begin_verifying-Begins pid _ _ _ s g)

  spawned-Begins : (r : Result ℕ) (s : Supervisor) → IsBegun s.state → Begins s (spawned os r s).1
  unfolding spawned
  spawned-Begins (err e) s g = Begins-Quiet g Quiet-refl
  spawned-Begins (ok pid) s g =
      let u : Supervisor = record s { process = some pid; streams = 2 } in
      Begins-after (same s u refl refl refl refl) (register_pid-Begins pid u g)

  spawn-Begins : (s : Supervisor) → IsBegun s.state → Begins s (spawn os s).1
  unfolding spawn
  spawn-Begins s g =
      Begins-after (same s (tick s) refl refl refl refl)
        (spawned-Begins (os.spawn s.calls) (tick s) g)

  transition-restart_count :
      (new : JobState) (note : Note) (s : Supervisor)
      → (transition os new note s).restart_count ≡ s.restart_count
  unfolding transition transition_since emit
  transition-restart_count new note s = ground arith

  pub transition-state :
      (new : JobState) (note : Note) (s : Supervisor) → (transition os new note s).state ≡ new
  unfolding transition transition_since emit
  transition-state new note s = ground arith

  -- A transition that keeps the counters.
  transition-Goes :
      (new : JobState) (note : Note) (s : Supervisor)
      → is_edge s.state new ≡ true
      → tally s.restart_count note.detail ≡ s.restart_count
      → Goes s (transition os new note s)
  unfolding transition
  transition-Goes new note s edge c = (
    transition_since-Runs os s.started new note s s refl refl refl edge (sym c, λ h. h),
    transition-restart_count new note s,
  )

  spawn_failed-Begins :
      (e : Error) (s : Supervisor) → IsBegun s.state → Begins s (spawn_failed os e s)
  unfolding spawn_failed close_streams
  spawn_failed-Begins e s g = (
    Goes-trans (transition-Goes failed (failed_note e) s g.1 refl) (
        Goes-Quiet (
          same (transition os failed (failed_note e) s) (spawn_failed os e s) refl refl refl refl)),
    subst IsBegun (sym (transition-state failed (failed_note e) s)) (refl, refl),
  )

  started_or_failed-Begins :
      (s : Supervisor) (r : Result (Unit {0}) × Supervisor)
      → Begins s r.1
      → Begins s (started_or_failed os r).1
  unfolding started_or_failed
  started_or_failed-Begins s (ok _, t) b = b
  started_or_failed-Begins s (err e, t) b = Begins-next b (spawn_failed-Begins e t)

  finish_start-Begins :
      (s : Supervisor) (r : Result Bool × Supervisor)
      → Begins s r.1
      → Begins s (finish_start os r).1
  unfolding finish_start
  finish_start-Begins s (ok true, t) b = b
  finish_start-Begins s (err e, t) b = Begins-next b (spawn_failed-Begins e t)
  finish_start-Begins s (ok false, t) b =
      Begins-next b (λ g. started_or_failed-Begins t (spawn os t) (spawn-Begins t g))

  may_start-edge : (x : JobState) → may_start x ≡ true → is_edge x starting ≡ true
  may_start-edge x h = ground arith

  -- A start from QUEUED or RETRYING, whatever it meets, ends where a worker can be observed.
  pub start-Begins : (s : Supervisor) → may_start s.state ≡ true → Begins s (start os s).1
  unfolding start
  start-Begins s h =
      let note = plain_note "state_change" (some (text "start")) none in
      let t : Supervisor = transition os starting note s in
      let begun : Begins s t = (
        transition-Goes starting note s (may_start-edge s.state h) refl,
        subst IsBegun (sym (transition-state starting note s)) (refl, refl),
      ) in
      rw h (
        Begins-next begun
          (λ g. finish_start-Begins t (adopt_existing os t) (adopt_existing-Begins t g)))

  pub start-Runs : (s : Supervisor) → Runs s (start os s).1
  start-Runs s = elim (Bool-cases (may_start s.state)) [
    | inl h ↦ (start-Begins s h).0.0
    | inr h ↦ unfold start in rw h (Runs-Quiet Quiet-refl)
  ]

pub IsBegun-is_final : (x : JobState) → IsBegun x → is_final x ≡ false
IsBegun-is_final x b = ground arith
