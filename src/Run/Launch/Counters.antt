-- ===== src/Run/Launch/Counters.antt =====
-- The counters of the jobs that manager/run.py builds from its configuration.
use mathlib.Core.List.{append-nil, append_assoc}
use machine_manager.Base.{
  subst, ap, ℕ, ◌≡◌, refl, ◌∙◌, sym, Bool, true, false, Option, none, some, List, [], ◌∷◌, ◌++◌,
  ◌==◌, if_both,
}
use machine_manager.Base.Json.{Json, Fields}
use machine_manager.Base.Result.{Result, ok, err, ok_inj, and_then_ok}
use machine_manager.Base.Text.{Text, text}
use machine_manager.Store.Snapshots.{Table}
use machine_manager.Supervisor.{queued, PidFile, Spec, Supervisor, new_supervisor}
use machine_manager.Manager.{Job, Manager, add_job, add_unless, find_job, new_manager, register_job}
use machine_manager.Run.Launch.{
  Entry, counter, initial_restart_count, prior_of, registered, register_entry, register_entries,
  manager_with, manager_from_config, job_entries, worker_spec,
}

-- A supervisor that has done nothing but take over its counters.
pub record IsFresh (spec : Spec) (limit attempt count : ℕ) (s : Supervisor) : Type 0 where
  pub spec_eq : s.spec ≡ spec
  pub state_eq : s.state ≡ queued
  pub limit_eq : s.max_restarts ≡ limit
  pub attempt_eq : s.attempt ≡ attempt
  pub count_eq : s.restart_count ≡ count

new_supervisor-IsFresh :
    (spec : Spec) (limit attempt count after : ℕ) (pid_file : PidFile) (s : Supervisor)
    → new_supervisor spec limit attempt count after pid_file ≡ ok s
    → IsFresh spec limit attempt count s
unfolding new_supervisor
new_supervisor-IsFresh spec limit attempt count after pid_file s =
    if_both (λ r. r ≡ ok s → IsFresh spec limit attempt count s) (after == 0) (λ _ h. cc)
      (λ _ h.
        let same = ok_inj h in
        record { spec_eq = cc; state_eq = cc; limit_eq = cc; attempt_eq = cc; count_eq = cc })

-- What the registration of a job adds to the manager.
register_job_lem :
    (spec : Spec) (objective id : Text) (limit attempt count after : ℕ) (pid_file : PidFile)
    (m m' : Manager)
    → registered (register_job spec objective id limit attempt count after pid_file m) ≡ ok m'
    → (s : Supervisor) × IsFresh spec limit attempt count s
      × (m'.jobs ≡ m.jobs ++ (id, record { objective_id = objective; supervisor = s }) ∷ [])
unfolding register_job add_unless add_job
register_job_lem spec objective id limit attempt count after pid_file m m' h =
    from_found (find_job id m.jobs) (new_supervisor spec limit attempt count after pid_file) refl h
  where
    from_found :
        (found : Option Job) (made : Result Supervisor)
        → new_supervisor spec limit attempt count after pid_file ≡ made
        → registered (add_unless found objective id made m) ≡ ok m'
        → (s : Supervisor) × IsFresh spec limit attempt count s
          × (m'.jobs ≡ m.jobs ++ (id, record { objective_id = objective; supervisor = s }) ∷ [])
    from_found (some j) made e h = cc
    from_found none (err x) e h = cc
    from_found none (ok s) e h = (
      s,
      new_supervisor-IsFresh spec limit attempt count after pid_file s e,
      rw (← ok_inj h) refl,
    )

module _ (repr : Json → Text) (int_of ms_of : Json → Result ℕ) (rows : Option Table)
    (reset : Text → Bool) (pid_files : Text → PidFile) where
  -- A job begins with the restarts that its stored row counts, or with none if it is reset.
  abbrev pub IsRestartCount : Text → ℕ → Type 0
  IsRestartCount id count =
      (reset id ≡ true → count ≡ 0)
      × (reset id ≡ false
          → counter repr int_of ms_of (text "restart_count")
              (prior_of repr int_of ms_of rows reset pid_files id)
            ≡ ok count)

  -- A job that was built from its entry: its supervisor has the worker and the budget of the entry,
  -- and the counters of the stored job.
  pub record IsBuilt (e : Entry) (p : Text × Job) : Type 0 where
    pub id_eq : p.0 ≡ e.job_id
    pub objective_eq : p.1.objective_id ≡ e.objective_id
    pub queued_eq : p.1.supervisor.state ≡ queued
    pub limit_eq : p.1.supervisor.max_restarts ≡ e.max_restarts
    pub spec_eq : worker_spec repr int_of ms_of e.worker ≡ ok p.1.supervisor.spec
    pub attempt_eq :
        counter repr int_of ms_of
          (text "attempt")
          (prior_of repr int_of ms_of rows reset pid_files e.job_id)
        ≡ ok p.1.supervisor.attempt
    pub count_eq : IsRestartCount e.job_id p.1.supervisor.restart_count

  abbrev pub AreBuilt : List Entry → List (Text × Job) → Type 0
  AreBuilt [] [] = Unit
  AreBuilt (e ∷ es) (p ∷ ps) = IsBuilt e p × AreBuilt es ps
  AreBuilt _ _ = ⊥

  abbrev register_all : List Entry → Manager → Result Manager
  register_all = register_entries repr int_of ms_of rows reset pid_files

  initial_restart_count_lem :
      (id : Text) (count : ℕ)
      → initial_restart_count repr int_of ms_of rows reset pid_files id ≡ ok count
      → IsRestartCount id count
  unfolding initial_restart_count
  initial_restart_count_lem id count =
      if_both (λ r. r ≡ ok count → IsRestartCount id count) (reset id)
        (λ e h. (λ _. sym (ok_inj h), λ f. cc)) (λ e h. (λ f. cc, λ _. h))

  fresh-IsBuilt :
      (e : Entry) (spec : Spec) (attempt count : ℕ) (s : Supervisor)
      → worker_spec repr int_of ms_of e.worker ≡ ok spec
      → counter repr int_of ms_of
          (text "attempt")
          (prior_of repr int_of ms_of rows reset pid_files e.job_id)
        ≡ ok attempt
      → initial_restart_count repr int_of ms_of rows reset pid_files e.job_id ≡ ok count
      → IsFresh spec e.max_restarts attempt count s
      → IsBuilt e (e.job_id, record { objective_id = e.objective_id; supervisor = s })
  fresh-IsBuilt e spec attempt count s es ea ec fresh = record {
    id_eq = refl;
    objective_eq = refl;
    queued_eq = fresh.state_eq;
    limit_eq = fresh.limit_eq;
    spec_eq = rw fresh.spec_eq es;
    attempt_eq = rw fresh.attempt_eq ea;
    count_eq = rw fresh.count_eq (initial_restart_count_lem e.job_id count ec);
  }

  register_entry_lem :
      (e : Entry) (m m' : Manager)
      → register_entry repr int_of ms_of rows reset pid_files e m ≡ ok m'
      → (p : Text × Job) × IsBuilt e p × (m'.jobs ≡ m.jobs ++ p ∷ [])
  unfolding register_entry
  register_entry_lem e m m' h =
      let (spec, es, h1) = and_then_ok _ _ m' h in
      let (attempt, ea, h2) = and_then_ok _ _ m' h1 in
      let (count, ec, h3) = and_then_ok _ _ m' h2 in
      let (s, fresh, added) =
        register_job_lem spec e.objective_id e.job_id e.max_restarts attempt count
          e.retry_reset_after (pid_files e.job_id) m m' h3 in
      (
        (e.job_id, record { objective_id = e.objective_id; supervisor = s }),
        fresh-IsBuilt e spec attempt count s es ea ec fresh,
        added,
      )

  register_entries_lem :
      (es : List Entry) (m m' : Manager)
      → register_all es m ≡ ok m'
      → (ps : List (Text × Job)) × AreBuilt es ps × (m'.jobs ≡ m.jobs ++ ps)
  unfolding register_entries
  register_entries_lem [] m m' h = ([], tt, rw (← ok_inj h, append-nil m.jobs) refl)
  register_entries_lem (e ∷ es) m m' h =
      let (between, e1, h1) = and_then_ok _ _ m' h in
      let (p, built, added) = register_entry_lem e m between e1 in
      let (ps, later, rest) = register_entries_lem es between m' h1 in
      (p ∷ ps, (built, later), rest ∙ ap (λ js. js ++ ps) added ∙ append_assoc m.jobs (p ∷ []) ps)

  manager_with_lem :
      (actor : Text) (es : List Entry) (built : Manager × Text × Text)
      → manager_with repr int_of ms_of rows reset pid_files actor es ≡ ok built
      → AreBuilt es built.0.jobs
  unfolding manager_with new_manager
  manager_with_lem actor [] built h = cc
  manager_with_lem actor (e ∷ es) built h =
      let (m, e1, e2) = and_then_ok _ _ built h in
      let (ps, all, eq) = register_entries_lem (e ∷ es) (new_manager actor) m e1 in
      subst (AreBuilt (e ∷ es)) (sym eq ∙ ap (λ (b : Manager × Text × Text). b.0.jobs) (ok_inj e2))
        all

  -- The manager that a configuration gives has exactly its jobs, in their order. Each supervisor is
  -- QUEUED with the worker and the budget of its entry, the attempts of the stored job, and its
  -- restarts too, unless the budget of that job is reset: then it has none.
  pub jobs_keep_counters :
      (config : Fields) (built : Manager × Text × Text)
      → manager_from_config repr int_of ms_of rows reset pid_files config ≡ ok built
      → (es : List Entry) × (job_entries repr int_of ms_of config ≡ ok es)
        × AreBuilt es built.0.jobs
  unfolding manager_from_config
  jobs_keep_counters config built h =
      let (es, e, e') = and_then_ok _ _ built h in (es, e, manager_with_lem _ es built e')
