-- ===== src/Recurring/Ticks.antt =====
-- What a tick of the seeder does after a crash.
use machine_manager.Base.{ℕ, ◌+◌, ◌≡◌, refl, not, ◌&&◌, some, List, ltb, if_both}
use machine_manager.Base.Result.{Result, ok, err, ok_inj}
use machine_manager.Base.Text.{Text, text, strip, is_empty}
use machine_manager.Store.{set_meta}
use machine_manager.Store.Events.{Event}
use machine_manager.Store.Tasks.{task_status}
use machine_manager.Store.Tasks.Lifecycle.{enqueue_task_idem}
use machine_manager.Runtime.{Runtime, System}
use machine_manager.Scheduler.{enqueue}
use machine_manager.Recurring.{
  Template, State, template_task_id, state_of, converted, is_active, write_cursor, postpone,
  enqueue_next, schedule, seed_numbered, seed_at, seed,
}

module _ (r : Runtime) (actor : Text) (now before : ℕ) (t : Template) (n : ℕ) (s : System) where
  -- The system after a crash between the enqueue of the next task and the write of the cursor.
  abbrev crashed : System
  crashed = (enqueue_next r before t (n + 1) s).1

  abbrev Unchanged : Result (List Event) × System → Type 0
  Unchanged x = x.1.store.tasks ≡ crashed.store.tasks

  numbered-Unchanged :
      (previous : Text) (x : Result ℕ)
      → x ≡ ok n
      → Unchanged (seed_numbered r actor now t previous x crashed)
  unfolding seed_numbered postpone schedule enqueue_next enqueue write_cursor set_meta
      template_task_id text
  numbered-Unchanged previous (err e) same = cc
  numbered-Unchanged previous (ok m) same =
      if_both {A = Result (List Event) × System} Unchanged
        (not (is_empty previous) && is_active (task_status previous crashed.store.tasks))
        (λ _. refl)
        (λ _.
          let id = template_task_id t (n + 1) in
          rw (ok_inj same) (
            enqueue_task_idem id t.kind t.objective_id t.payload (some before) (r.time s.calls)
              t.kind t.objective_id t.payload (some now) (r.time crashed.calls) s.store.tasks))

  at-Unchanged :
      (c : State) (x : Result ℕ)
      → converted c.sequence ≡ ok n
      → Unchanged (seed_at r actor now t c x crashed)
  unfolding seed_at
  at-Unchanged c (err e) same = refl
  at-Unchanged c (ok at) same =
      if_both {A = Result (List Event) × System} Unchanged (ltb now at) (λ _. refl)
        (λ _. numbered-Unchanged (strip c.task_id) (converted c.sequence) same)

  -- A crash after the enqueue of the task with the number after the stored one, and before the
  -- cursor is written, makes no second copy: whatever the next tick does for the template, at any
  -- time, the tasks stay as the crash left them.
  pub crash_makes_no_copy :
      converted (state_of t s.store).sequence ≡ ok n
      → (seed r actor now t (enqueue_next r before t (n + 1) s).1).1.store.tasks
        ≡ (enqueue_next r before t (n + 1) s).1.store.tasks
  unfolding seed enqueue_next enqueue template_task_id text
  crash_makes_no_copy same =
      if_both {A = Result (List Event) × System} Unchanged (not t.enabled) (λ _. refl)
        (λ _. at-Unchanged (state_of t s.store) (converted (state_of t s.store).next_at) same)
