-- ===== src/Supervisor/Process.antt =====
-- manager/supervisor.py: the log of a supervisor, its pid file, the end of its process, and the
-- reading of the health signals.
use machine_manager.Base.{
  ℕ, ◌+◌, ◌-◌, suc, Bool, true, false, not, ◌||◌, Option, none, some, [], ◌∷◌, ◌++◌, leb, ◌==◌,
  if◌then◌else◌,
}
use machine_manager.Base.Result.{Result, ok, err, foreign, Error, error_name}
use machine_manager.Base.Text.{Text, text, text_eq}
use machine_manager.Store.Events.{Metrics, label}
use machine_manager.Supervisor.{
  JobState, complete, stalled, failed, escalated, cancelled, Health, Os, exited, timed_out,
  wait_error, PidFile, absent, unreadable, no_object, holds, Detail, Event, Supervisor,
}

abbrev pub tick : Supervisor → Supervisor
tick s = record s { calls = suc s.calls }

-- What a call of `_transition` or `_emit` says beside the states.
pub record Note : Type 0 where
  pub event_type : Text
  pub detail : Detail
  pub action : Option Text
  pub outcome : Option Text
  pub error : Option Error

-- The states whose events have a duration.
abbrev pub has_duration : JobState → Bool
has_duration complete = true
has_duration failed = true
has_duration stalled = true
has_duration escalated = true
has_duration cancelled = true
has_duration _ = false

module _ (os : Os) where
  -- The event of `_emit`; the stamp and the id are two calls.
  abbrev pub event_of : JobState → JobState → Note → Option ℕ → ℕ → Event
  event_of previous new note duration n = record {
    timestamp = os.utc_now n;
    event_id = os.uuid (suc n);
    event_type = note.event_type;
    previous_state = previous;
    new_state = new;
    detail = note.detail;
    action = note.action;
    outcome = note.outcome;
    error = note.error;
    duration = duration;
  }

  -- `_emit`
  unfoldable pub emit : JobState → JobState → Note → Option ℕ → Supervisor → Supervisor
  emit previous new note duration s = record s {
    events = s.events ++ event_of previous new note duration s.calls ∷ [];
    calls = suc (suc s.calls);
  }

  -- `_transition`, with the start of the worker; the clock is read only where the event has a
  -- duration.
  unfoldable pub transition_since : Option ℕ → JobState → Note → Supervisor → Supervisor
  unfolding emit
  transition_since none new note s = emit s.state new note none (record s { state = new })
  transition_since (some at) new note s =
      if has_duration new
      then emit s.state new note (some (os.monotonic s.calls - at))
          (tick (record s { state = new }))
      else emit s.state new note none (record s { state = new })

  unfoldable pub transition : JobState → Note → Supervisor → Supervisor
  unfolding transition_since
  transition new note s = transition_since s.started new note s

  -- `_clear_pid_file`: with a pid, a readable file that holds another pid stays. It is called with a
  -- pid only where the file has named one or was written, so `no_object` is not met there.
  unfoldable pub cleared : Option ℕ → PidFile → PidFile
  cleared (some pid) (holds p w) = if p == pid then absent else holds p w
  cleared (some pid) no_object = no_object
  cleared _ _ = absent

  unfoldable pub clear_pid_file : Option ℕ → Supervisor → Supervisor
  unfolding cleared
  clear_pid_file pid s =
      if s.spec.has_pid_file then record s { pid_file = cleared pid s.pid_file } else s

  -- `_read_pid_file`; of JSON that is no object, `payload.get` raises what is not caught.
  unfoldable pub named_pid : Text → PidFile → Result (Option ℕ)
  unfolding text
  named_pid worker_id absent = ok none
  named_pid worker_id unreadable = ok none
  named_pid worker_id no_object = err (foreign (text "AttributeError"))
  named_pid worker_id (holds pid w) =
      ok (if pid == 0 || not (text_eq w worker_id) then none else some pid)

  unfoldable pub read_pid_file : Supervisor → Result (Option ℕ)
  unfolding named_pid
  read_pid_file s = if s.spec.has_pid_file then named_pid s.spec.worker_id s.pid_file else ok none

  unfoldable pub close_streams : Supervisor → Supervisor
  close_streams s = record s { streams = 0 }

  -- The `terminate`, `wait`, `kill`, `wait` of `_terminate_process`: whether the process is known
  -- to have ended, and the number of calls made.
  unfoldable pub stop : ℕ → ℕ → Bool × ℕ
  stop pid n = if not (os.terminate n pid) then (false, 1) else elim (os.wait (suc n) pid) [
    | exited ↦ (true, 2)
    | wait_error ↦ (false, 2)
    | timed_out ↦
        if not (os.kill (n + 2) pid)
        then (false, 3)
        else elim (os.wait (n + 3) pid) [ exited ↦ (true, 4) | _ ↦ (false, 4) ]
  ]

  -- `_terminate_process` of a process that is held.
  unfoldable pub terminate_pid : ℕ → Supervisor → Bool × Supervisor
  unfolding stop clear_pid_file close_streams
  terminate_pid pid s =
      if os.poll s.calls pid
      then (let (stopped, made) = stop pid (suc s.calls) in
          let t = record s { calls = suc s.calls + made } in
          if stopped then (true, close_streams (clear_pid_file (some pid) t)) else (false, t))
      else (true, close_streams (clear_pid_file (some pid) (tick s)))

  unfoldable pub terminate_process : Supervisor → Bool × Supervisor
  unfolding terminate_pid
  terminate_process s = elim s.process [
    | none ↦ (true, close_streams (clear_pid_file none s))
    | some pid ↦ terminate_pid pid s
  ]

  -- The parts of `_read_health`: each reads its signal, if it is configured.
  unfoldable pub read_alive : Supervisor → Bool × Supervisor
  read_alive s = elim s.process [ none ↦ (false, s) | some pid ↦ (os.poll s.calls pid, tick s) ]

  unfoldable pub read_heartbeat : Supervisor → (Bool × Option ℕ) × Supervisor
  read_heartbeat s =
      if s.spec.has_heartbeat
      then (elim (os.heartbeat_age s.calls) [
        | none ↦ ((false, none), tick s)
        | some age ↦ ((leb age s.spec.heartbeat_max_age, some age), tick s)
      ])
      else ((true, none), s)

  unfoldable pub read_resource : Supervisor → (Metrics × Bool) × Supervisor
  read_resource s =
      if s.spec.has_resource_probe
      then (elim (os.resource s.calls) [
        | ok found ↦ (found, tick s)
        | err e ↦ (((text "probe_error", label (error_name e)) ∷ [], false), tick s)
      ])
      else (([], true), s)

  unfoldable pub read_health : Supervisor → Health × Supervisor
  unfolding read_alive read_heartbeat read_resource
  read_health s =
      let (alive, s₁) = read_alive s in
      let (heartbeat, s₂) = read_heartbeat s₁ in
      let (resource, s₃) = read_resource s₂ in
      (
        record {
          process_alive = alive;
          heartbeat_fresh = heartbeat.0;
          resource_active = resource.1;
          heartbeat_age = heartbeat.1;
          metrics = resource.0;
          progress = os.progress s₃.calls;
        },
        tick s₃,
      )
