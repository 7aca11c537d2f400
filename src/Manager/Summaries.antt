-- ===== src/Manager/Summaries.antt =====
-- The status that a manager's snapshot reports.
use machine_manager.Base.{
  ◌≡◌, ◌↔◌, refl, Bool, true, false, List, [], ◌∷◌, arith, Bool-cases, inl, inr,
}
use machine_manager.Base.Text.{Text}
use machine_manager.Supervisor.{JobState}
use machine_manager.Manager.{
  Job, any_escalated, all_healthy, all_states, any_state, is_running_state, is_starting_state,
  is_escalated_state, status_of,
}

excludes :
    (p : JobState → Bool) (js : List (Text × Job))
    → ((x : JobState) → is_escalated_state x ≡ true → p x ≡ false)
    → any_state is_escalated_state js ≡ true
    → all_states p js ≡ false
unfolding any_state all_states
excludes p [] apart h = ground arith
excludes p ((k, j) ∷ js) apart h = elim (Bool-cases (is_escalated_state j.supervisor.state)) [
  | inl e ↦ rw (apart j.supervisor.state e) refl
  | inr e ↦ rw (excludes p js apart (ground arith)) (ground arith)
]

-- If the worker of any job is ESCALATED, so is the status of the whole: no other state of a job
-- hides it.
pub escalation_is_reported :
    (js : List (Text × Job)) → any_state is_escalated_state js ≡ true → status_of js ≡ any_escalated
unfolding status_of any_state
escalation_is_reported [] h = ground arith
escalation_is_reported (p ∷ ps) h =
    rw (excludes is_running_state (p ∷ ps) (λ x e. ground arith) h)
      (rw (excludes is_starting_state (p ∷ ps) (λ x e. ground arith) h) (rw h refl))

-- The status is HEALTHY exactly if there is a job and all are RUNNING.
healthy_iff_all_running :
    (p : Text × Job) (ps : List (Text × Job))
    → (status_of (p ∷ ps) ≡ all_healthy) ↔ (all_states is_running_state (p ∷ ps) ≡ true)
unfolding status_of
healthy_iff_all_running p ps = (λ h. ground arith, λ h. rw h refl)
