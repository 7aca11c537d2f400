-- ===== src/Evidence/Quiet.antt =====
-- A run of `ConstraintAuditor` of manager/evidence.py over lines that match no rule.
use machine_manager.Base.{
  ℕ, ◌+◌, ◌≤◌, ◌≡◌, refl, Bool, false, Option, none, some, List, [], ◌∷◌, leb, ltb, if_both,
  if◌then◌else◌, arith,
}
use machine_manager.Base.Text.{Text}
use machine_manager.Evidence.{Target, File, Scan, Rule, empty_scan, constraint_rules}
use machine_manager.Evidence.Audit.{
  first_rule, scan_lines, scan_file, scan_files, scanned, skipped, run, report_of, window,
}

module _ (casefold : Text → Text) (matches : Text → Text → Bool)
    (no_match : (rule line : Text) → matches rule line ≡ false) where
  no_rule : (rules : List Rule) (line : Text) → first_rule casefold matches rules line ≡ none
  unfolding first_rule
  no_rule [] line = refl
  no_rule (rule ∷ rules) line = rw (no_match rule.rule_id line) (no_rule rules line)

  no_findings :
      (max_findings : ℕ) (path : Text) (number : ℕ) (lines : List Text)
      → 1 ≤ max_findings
      → scan_lines casefold matches max_findings path number lines [] ≡ ([], false)
  unfolding scan_lines
  no_findings max_findings path number [] h = refl
  no_findings max_findings path number (line ∷ lines) h =
      let room : leb max_findings 0 ≡ false = ground arith in
      rw (no_rule constraint_rules line, room) (no_findings max_findings path (number + 1) lines h)

  abbrev IsQuiet : Scan → Type 0
  IsQuiet scan = (scan.findings ≡ []) × (scan.truncated ≡ false)

  module _ (target : Target) (some_findings : 1 ≤ target.max_findings) where
    scan_file-IsQuiet :
        (file : File) (scan : Scan)
        → IsQuiet scan
        → IsQuiet (scan_file casefold matches target file scan)
    unfolding scan_file
    scan_file-IsQuiet file scan (e, t) = by_size file.size
      where
        by_lines :
            (lines : Option (List Text))
            → IsQuiet (elim lines [
              | none ↦ skipped casefold matches file.path scan
              | some lines ↦ scanned casefold matches target.max_findings file.path lines scan
            ])
        by_lines none = (e, t)
        by_lines (some lines) =
            let silent = no_findings target.max_findings file.path 1 lines some_findings in
            (rw (e, silent) refl, rw (e, silent) refl)

        by_size :
            (size : Option ℕ)
            → IsQuiet (elim size [
              | none ↦ skipped casefold matches file.path scan
              | some size ↦
                  if ltb target.max_file_bytes size
                  then skipped casefold matches file.path scan
                  else elim file.lines [
                    | none ↦ skipped casefold matches file.path scan
                    | some lines ↦ scanned casefold matches target.max_findings file.path lines scan
                  ]
            ])
        by_size none = (e, t)
        by_size (some size) =
            if_both IsQuiet (ltb target.max_file_bytes size) (λ _. (e, t))
              (λ _. by_lines file.lines)

    scan_files-IsQuiet :
        (files : List File) (scan : Scan)
        → IsQuiet scan
        → IsQuiet (scan_files casefold matches target files scan)
    unfolding scan_files
    scan_files-IsQuiet [] scan h = h
    scan_files-IsQuiet (file ∷ files) scan h =
        let one = scan_file casefold matches target file scan in
        if_both IsQuiet one.truncated (λ _. scan_file-IsQuiet file scan h)
          (λ _. scan_files-IsQuiet files one (scan_file-IsQuiet file scan h))

  -- A run over lines that match no rule is not cut.
  pub quiet_run_is_whole :
      (target : Target) (start_after : Text) (files : List File)
      → 1 ≤ target.max_findings
      → (run casefold matches target start_after files).truncated ≡ false
  unfolding run report_of
  quiet_run_is_whole target start_after files h =
      (scan_files-IsQuiet target h (window casefold matches target start_after files) empty_scan
        (refl, refl)).1
