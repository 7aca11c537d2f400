-- ===== src/Supervisor/Runs.antt =====
-- A supervisor over any sequence of calls of its methods, and the decisions of `observe` and
-- `recover`.
use machine_manager.Base.{ℕ, ◌≡◌, ◌≤◌, sym, ap, ◌∙◌, subst, List, [], ◌∷◌, arith, ◌++◌}
use machine_manager.Base.Result.{ok}
use machine_manager.Supervisor.{queued, Os, Supervisor, Spec, PidFile, new_supervisor}
use machine_manager.Supervisor.Starting.{start}
use machine_manager.Supervisor.Control.{observe, recover, mark_complete, cancel}
use machine_manager.Supervisor.Log.{PathOf, restarts_of, Runs, Runs-trans, Runs-Quiet}
use machine_manager.Supervisor.Quiet.{Quiet-refl}
use machine_manager.Supervisor.Begun.{start-Runs}
use machine_manager.Supervisor.Accounting.{
  observe-Runs, recover-Runs, mark_complete-Runs, cancel-Runs,
}

-- The methods that the manager calls.
pub data Call : Type 0 where
  starts observes recovers completes cancels : Call

abbrev pub call : Os → Call → Supervisor → Supervisor
call os starts s = (start os s).1
call os observes s = (observe os s).1
call os recovers s = (recover os s).1
call os completes s = mark_complete os s
call os cancels s = cancel os s

abbrev pub calls_of : Os → List Call → Supervisor → Supervisor
calls_of os [] s = s
calls_of os (c ∷ cs) s = calls_of os cs (call os c s)

call-Runs : (os : Os) (c : Call) (s : Supervisor) → Runs s (call os c s)
call-Runs os starts s = start-Runs os s
call-Runs os observes s = observe-Runs os s
call-Runs os recovers s = recover-Runs os s
call-Runs os completes s = mark_complete-Runs os s
call-Runs os cancels s = cancel-Runs os s

calls_of-Runs : (os : Os) (cs : List Call) (s : Supervisor) → Runs s (calls_of os cs s)
calls_of-Runs os [] s = Runs-Quiet Quiet-refl
calls_of-Runs os (c ∷ cs) s = Runs-trans (call-Runs os c s) (calls_of-Runs os cs (call os c s))

-- What `new_supervisor` makes.
IsNew : ℕ → ℕ → Supervisor → Type 0
IsNew limit count s =
    (s.events ≡ []) × (s.state ≡ queued) × (s.restart_count ≡ count) × (s.max_restarts ≡ limit)

new_supervisor-IsNew :
    (spec : Spec) (limit attempt count after : ℕ) (pid_file : PidFile) (s : Supervisor)
    → new_supervisor spec limit attempt count after pid_file ≡ ok s
    → IsNew limit count s
unfolding new_supervisor IsNew
new_supervisor-IsNew spec limit attempt count after pid_file s e =
    (ground arith, ground arith, ground arith, ground arith)

module _ (os : Os) (spec : Spec) (limit attempt count after : ℕ) (pid_file : PidFile)
    (cs : List Call) (s : Supervisor) where
  -- The events of a new supervisor, after any calls of its methods with any answers of the
  -- operating system, lead by these transitions from QUEUED to the state that it is in.
  pub log_is_path :
      new_supervisor spec limit attempt count after pid_file ≡ ok s
      → PathOf queued (calls_of os cs s).events (calls_of os cs s).state
  unfolding IsNew
  log_is_path e =
      let n = new_supervisor-IsNew spec limit attempt count after pid_file s e in
      let r = calls_of-Runs os cs s in
      subst (λ es. PathOf queued es (calls_of os cs s).state)
        (sym (r.grown ∙ ap (λ es. es ++ r.more) n.0))
        (subst (λ x. PathOf x r.more (calls_of os cs s).state) n.1 r.path)

  -- The restart count of a new supervisor, after any calls of its methods, is what its events
  -- report: the count that it was made with and the restarts, or the restarts since the last reset
  -- of the retry budget.
  pub restarts_are_logged :
      new_supervisor spec limit attempt count after pid_file ≡ ok s
      → (calls_of os cs s).restart_count ≡ restarts_of count (calls_of os cs s).events
  unfolding IsNew
  restarts_are_logged e =
      let n = new_supervisor-IsNew spec limit attempt count after pid_file s e in
      let r = calls_of-Runs os cs s in
      r.counted
      ∙ ap (λ k. restarts_of k r.more) n.2
      ∙ ap (restarts_of count) (sym (r.grown ∙ ap (λ es. es ++ r.more) n.0))

  -- The restart count of a new supervisor, after any calls of its methods with any answers of the
  -- operating system, does not exceed the limit, if it did not at first.
  pub restarts_are_bounded :
      new_supervisor spec limit attempt count after pid_file ≡ ok s
      → count ≤ limit
      → (calls_of os cs s).restart_count ≤ limit
  unfolding IsNew
  restarts_are_bounded e h =
      let n = new_supervisor-IsNew spec limit attempt count after pid_file s e in
      let r = calls_of-Runs os cs s in
      omega (arith, r.bounded (omega (arith, n.2, n.3, h)), r.same_limit, n.3)
