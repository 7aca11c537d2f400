-- ===== src/Examples/Audits.antt =====
-- Concrete audits, for the theorems on the evidence of workers and projects.
use machine_manager.Base.{
  ◌+◌, ◌≤◌, ◌≡◌, refl, Bool, true, false, Option, none, some, List, [], ◌∷◌, All, length, take,
  arith,
}
use machine_manager.Base.Assoc.{select, has_key}
use machine_manager.Base.Json.{Json}
use machine_manager.Base.Result.{Result, ok}
use machine_manager.Base.Text.{Text, text, text_eq, text_leb, lower}
use machine_manager.Evidence.{Target, File, empty_scan, constraint_rules}
use machine_manager.Evidence.Audit.{
  first_rule, scan_lines, scan_file, is_behind, slashes, run, window,
}
use machine_manager.Evidence.Bounds.{IsBounded, run-IsBounded}
use machine_manager.Evidence.Windows.{IsOrdered}
use machine_manager.Evidence.Sweeps.{sweep, IsCursor, sweep_visits_all}
use machine_manager.Evidence.Quiet.{quiet_run_is_whole}
use machine_manager.Evidence.Cuts.{cut_file_is_left}
use machine_manager.Evidence.Coordinator.{
  Submitted, Audit, Event, Config, Coordinator, find_target, tick,
}
use machine_manager.Evidence.Pending.{IsWellFormed}
use machine_manager.Evidence.Ticks.{tick_keeps_running_audits}

abbrev matches_all : Text → Text → Bool
matches_all rule line = true

abbrev matches_none : Text → Text → Bool
matches_none rule line = false

abbrev project : Target
project = record {
  target_id = text "project";
  label = text "Project";
  max_files = 1;
  max_file_bytes = 1000;
  max_findings = 1;
  interval = none;
}

abbrev notes : File
notes = record {
  path = text "Notes.md";
  size = some 20;
  lines = some (text "ask" ∷ text "wait" ∷ []);
}

abbrev plan : File
plan = record { path = text "plan.md"; size = some 2000; lines = some [] }

abbrev readme : File
readme = record { path = text "readme.md"; size = none; lines = none }

abbrev tree : List File
tree = notes ∷ plan ∷ readme ∷ []

run-IsBounded_example :
    let report = run lower matches_all project [] tree in
    IsBounded lower matches_all project.max_findings (length report.findings) report.truncated
    × (report.files_scanned + report.files_skipped ≤ project.max_files)
run-IsBounded_example = run-IsBounded lower matches_all project [] tree (omega arith)

tree-IsOrdered : IsOrdered lower matches_all tree
unfolding is_behind lower text_leb text
tree-IsOrdered = ((refl, (refl, tt)), ((refl, tt), (tt, tt)))

tree-IsCursor : All (IsCursor lower matches_all project tree) tree
unfolding slashes text
tree-IsCursor = ((refl, refl), ((refl, refl), ((refl, refl), tt)))

notes_are_cut : (scan_file lower matches_all project notes empty_scan).truncated ≡ true
unfolding scan_file scan_lines first_rule constraint_rules
notes_are_cut = refl

cut_file_is_left_example :
    let cursor = (run lower matches_all project [] tree).next_cursor in
    (cursor ≡ text "Notes.md")
    × (window lower matches_all project cursor tree ≡ take 1 (plan ∷ readme ∷ []))
cut_file_is_left_example =
    cut_file_is_left lower matches_all project notes plan (readme ∷ []) (omega arith) tree-IsOrdered
      tree-IsCursor.0 notes_are_cut

whole_runs : (cursor : Text) → (run lower matches_none project cursor tree).truncated ≡ false
whole_runs cursor =
    quiet_run_is_whole lower matches_none (λ rule line. refl) project cursor tree (omega arith)

sweep_visits_all_example : sweep lower matches_none project tree 3 [] ≡ tree
unfolding is_behind lower text_leb text slashes
sweep_visits_all_example =
    sweep_visits_all lower matches_none project tree (omega arith) whole_runs
      ((refl, (refl, tt)), ((refl, tt), (tt, tt)))
      ((refl, refl), ((refl, refl), ((refl, refl), tt)))

-- A container is printed as nothing here, and a text is its own digest.
abbrev plain : Json → Text
plain j = []

abbrev same_text : Text → Text
same_text s = s

abbrev config : Config
config = record { profiles = []; targets = project ∷ []; audit_interval = 60000 }

abbrev first_audit : Submitted
first_audit = record { number = 0; start_after = [] }

abbrev auditing : Coordinator
auditing = record {
  pending = (text "project", first_audit) ∷ [];
  submissions = 1;
  profiles_synced = false;
  profile_rows = [];
  audits = [];
}

abbrev none_ended : Submitted → Option (Result Audit)
none_ended submitted = none

tick_keeps_example :
    (events : List Event) × (after : Coordinator) × (tick plain same_text config
        (λ id. text "t")
        none_ended
        5
        auditing
      ≡ (ok events, after))
    × IsWellFormed plain same_text config after
    × (select (text "project") after.pending ≡ some first_audit)
unfolding has_key find_target text text_eq select
tick_keeps_example =
    tick_keeps_running_audits plain same_text config none_ended (λ id. text "t") 5 auditing
      (text "project") first_audit tt ((refl, tt), ((project, refl), tt)) refl refl
