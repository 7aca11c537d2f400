-- ===== src/Supervisor/Rules.antt =====
-- The documented rules of a worker's states (docs/LOCAL_MANAGER.md, Lifecycle), and its log.
use machine_manager.Base.{ℕ, ◌≡◌, ◌⊎◌, true, List, [], ◌∷◌, arith}
use machine_manager.Base.Result.{ok}
use machine_manager.Supervisor.{
  JobState, queued, starting, complete, stalled, failed, retrying, escalated, cancelled, Os,
  PidFile, Spec, Event, Supervisor, new_supervisor,
}
use machine_manager.Supervisor.Log.{is_edge, PathOf}
use machine_manager.Supervisor.Runs.{Call, calls_of, log_is_path}

-- A state is kept, or: a worker is started from QUEUED or RETRYING; it is retried after it FAILED or
-- STALLED, and given up, ESCALATED, from there too; once ESCALATED it is not started or retried, and
-- a COMPLETE one is left alone.
abbrev pub IsAllowedStep : JobState → JobState → Type 0
IsAllowedStep a b =
    (b ≡ starting → (a ≡ queued) ⊎ (a ≡ retrying) ⊎ (a ≡ starting))
    × (b ≡ retrying → (a ≡ failed) ⊎ (a ≡ stalled) ⊎ (a ≡ retrying))
    × (b ≡ escalated → (a ≡ failed) ⊎ (a ≡ stalled) ⊎ (a ≡ escalated))
    × (a ≡ escalated → (b ≡ escalated) ⊎ (b ≡ complete) ⊎ (b ≡ cancelled))
    × (a ≡ complete → b ≡ complete)

step_of_edge : (a b : JobState) → is_edge a b ≡ true → IsAllowedStep a b
step_of_edge a b h = (ground arith, ground arith, ground arith, ground arith, ground arith)

-- Events that lead from one state to another, each from where the last one led, by such steps.
abbrev pub Obeys : JobState → List Event → JobState → Type 0
Obeys a [] b = a ≡ b
Obeys a (e ∷ es) b = (e.previous_state ≡ a) × IsAllowedStep a e.new_state × Obeys e.new_state es b

Obeys-path : (a : JobState) (es : List Event) (b : JobState) → PathOf a es b → Obeys a es b
Obeys-path a [] b h = h
Obeys-path a (e ∷ es) b (from, edge, rest) =
    (from, step_of_edge a e.new_state edge, Obeys-path e.new_state es b rest)

-- The events of a new supervisor, after any calls of its methods with any answers of the operating
-- system, lead from QUEUED to its state, each from where the last one led, and obey the rules: a
-- worker is STARTING only from QUEUED or RETRYING, RETRYING or ESCALATED only after it FAILED or
-- STALLED; once ESCALATED it can only become COMPLETE or CANCELLED, and once COMPLETE it stays so.
pub log-Obeys :
    (os : Os) (spec : Spec) (limit attempt count after : ℕ) (pid_file : PidFile) (cs : List Call)
    (s : Supervisor)
    → new_supervisor spec limit attempt count after pid_file ≡ ok s
    → Obeys queued (calls_of os cs s).events (calls_of os cs s).state
log-Obeys os spec limit attempt count after pid_file cs s e =
    Obeys-path queued (calls_of os cs s).events (calls_of os cs s).state
      (log_is_path os spec limit attempt count after pid_file cs s e)
