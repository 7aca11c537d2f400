-- ===== src/Supervisor/Quiet.antt =====
-- The methods of a supervisor that log nothing: they keep the state and the counters.
use machine_manager.Base.{if_both, ℕ, ◌≡◌, refl, ◌∙◌, Option, arith}
use machine_manager.Supervisor.{Os, Supervisor}
use machine_manager.Supervisor.Process.{
  clear_pid_file, close_streams, terminate_pid, terminate_process, read_alive, read_heartbeat,
  read_resource, read_health,
}
use machine_manager.Supervisor.Control.{in_startup_grace, read_uptime}
use machine_manager.Supervisor.Log.{Quiet}

pub Quiet-trans : {s t u : Supervisor} → Quiet s t → Quiet t u → Quiet s u
Quiet-trans a b = record {
  events = b.events ∙ a.events;
  state = b.state ∙ a.state;
  restart_count = b.restart_count ∙ a.restart_count;
  max_restarts = b.max_restarts ∙ a.max_restarts;
}

pub Quiet-refl : {s : Supervisor} → Quiet s s
Quiet-refl = record { events = refl; state = refl; restart_count = refl; max_restarts = refl }

-- A change of the other fields.
pub same :
    (s t : Supervisor)
    → t.events ≡ s.events
    → t.state ≡ s.state
    → t.restart_count ≡ s.restart_count
    → t.max_restarts ≡ s.max_restarts
    → Quiet s t
same s t a b c d = record { events = a; state = b; restart_count = c; max_restarts = d }

module _ (os : Os) where
  pub clear_pid_file-Quiet : (pid : Option ℕ) (s : Supervisor) → Quiet s (clear_pid_file os pid s)
  unfolding clear_pid_file
  clear_pid_file-Quiet pid s =
      if_both (Quiet s) s.spec.has_pid_file
        (λ _. record { events = refl; state = refl; restart_count = refl; max_restarts = refl })
        (λ _. Quiet-refl)

  close-Quiet :
      (pid : Option ℕ) (s : Supervisor) → Quiet s (close_streams os (clear_pid_file os pid s))
  unfolding close_streams
  close-Quiet pid s =
      Quiet-trans (clear_pid_file-Quiet pid s)
        (record { events = refl; state = refl; restart_count = refl; max_restarts = refl })

  pub terminate_process-Quiet : (s : Supervisor) → Quiet s (terminate_process os s).1
  unfolding terminate_process terminate_pid clear_pid_file close_streams
  terminate_process-Quiet s = record {
    events = ground arith;
    state = ground arith;
    restart_count = ground arith;
    max_restarts = ground arith;
  }

  pub read_health-Quiet : (s : Supervisor) → Quiet s (read_health os s).1
  unfolding read_health read_alive read_heartbeat read_resource
  read_health-Quiet s = record {
    events = ground arith;
    state = ground arith;
    restart_count = ground arith;
    max_restarts = ground arith;
  }

  pub in_startup_grace-Quiet : (s : Supervisor) → Quiet s (in_startup_grace os s).1
  unfolding in_startup_grace
  in_startup_grace-Quiet s = record {
    events = ground arith;
    state = ground arith;
    restart_count = ground arith;
    max_restarts = ground arith;
  }

  pub read_uptime-Quiet : (s : Supervisor) → Quiet s (read_uptime os s)
  unfolding read_uptime
  read_uptime-Quiet s = record {
    events = ground arith;
    state = ground arith;
    restart_count = ground arith;
    max_restarts = ground arith;
  }
