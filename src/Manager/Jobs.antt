-- ===== src/Manager/Jobs.antt =====
-- The loops of the manager over all of its jobs.
use machine_manager.Base.{◌≡◌, false, List, All}
use machine_manager.Base.Assoc.{has_key}
use machine_manager.Base.Exec.{Exec}
use machine_manager.Base.Result.{ok}
use machine_manager.Base.Text.{Text}
use machine_manager.Supervisor.{Supervisor}
use machine_manager.Manager.{Job, Manager, on_job}

-- The jobs with a new supervisor each.
abbrev pub updated : (Text → Supervisor → Supervisor) → Text × Job → Text × Job
updated g (k, j) = (k, record j { supervisor = g k j.supervisor })

-- The keys of the jobs that are still to come are not among those that are done.
abbrev AreNew : List (Text × Job) → List (Text × Job) → Type 0
AreNew before rest = All (λ (p : Text × Job). has_key p.0 before ≡ false) rest

module _ (g : Text → Supervisor → Supervisor) where
  -- A method that cannot raise, of the supervisor of one job.
  abbrev update : Text → Exec Manager Unit
  update id = on_job (λ s. (ok tt, g id s)) id
