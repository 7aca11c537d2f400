-- ===== src/Evidence/Bounds.antt =====
-- How much one run of `ConstraintAuditor` of manager/evidence.py reports.
use machine_manager.Base.{
  ℕ, ◌+◌, ◌≤◌, ◌<◌, ◌≡◌, refl, Bool, false, Option, none, some, List, [], ◌∷◌, ◌++◌, ltb, leb,
  arith, if◌then◌else◌, if_both, length, length-append, length-take,
}
use machine_manager.Base.Text.{Text}
use machine_manager.Evidence.{Target, File, Finding, Scan, Rule, empty_scan, constraint_rules}
use machine_manager.Evidence.Audit.{
  first_rule, finding_of, scan_lines, scan_file, scan_files, skipped, scanned, run, report_of,
  remaining, slashes, window,
}

module _ (casefold : Text → Text) (matches : Text → Text → Bool) where
  -- A scan that goes on has room for a finding; one that stopped is full.
  abbrev pub IsBounded : ℕ → ℕ → Bool → Type 0
  IsBounded max_findings n truncated = if truncated then n ≡ max_findings else n < max_findings

  length-finding_of :
      (path : Text) (number : ℕ) (line : Text) (o : Option Rule)
      → length (finding_of casefold matches path number line o) ≤ 1
  length-finding_of path number line none = omega arith
  length-finding_of path number line (some rule) = omega arith

  scan_lines-IsBounded :
      (max_findings : ℕ) (path : Text) (number : ℕ) (lines : List Text) (findings : List Finding)
      → length findings < max_findings
      → let r = scan_lines casefold matches max_findings path number lines findings in
        IsBounded max_findings (length r.0) r.1
  unfolding scan_lines
  scan_lines-IsBounded max_findings path number [] findings h = h
  scan_lines-IsBounded max_findings path number (line ∷ lines) findings h =
      let one =
        finding_of casefold matches path number line
          (first_rule casefold matches constraint_rules line) in
      let now = findings ++ one in
      let grown = length-append findings one in
      let at_most_one =
        length-finding_of path number line (first_rule casefold matches constraint_rules line) in
      if_both (λ (r : List Finding × Bool). IsBounded max_findings (length r.0) r.1)
        (leb max_findings (length now)) (λ e. ground (arith, grown, at_most_one))
        (λ e. scan_lines-IsBounded max_findings path (number + 1) lines now (ground arith))

  abbrev ScanIsBounded : Target → Scan → Type 0
  ScanIsBounded target scan = IsBounded target.max_findings (length scan.findings) scan.truncated

  scan_file-IsBounded :
      (target : Target) (file : File) (scan : Scan)
      → scan.truncated ≡ false
      → ScanIsBounded target scan
      → ScanIsBounded target (scan_file casefold matches target file scan)
  unfolding scan_file
  scan_file-IsBounded target file scan open_ h = by_size file.size
    where
      by_lines :
          (lines : Option (List Text))
          → ScanIsBounded target (elim lines [
            | none ↦ skipped casefold matches file.path scan
            | some lines ↦ scanned casefold matches target.max_findings file.path lines scan
          ])
      by_lines none = h
      by_lines (some lines) =
          scan_lines-IsBounded target.max_findings file.path 1 lines scan.findings (rw open_ at h)

      by_size :
          (size : Option ℕ)
          → ScanIsBounded target (elim size [
            | none ↦ skipped casefold matches file.path scan
            | some size ↦
                if ltb target.max_file_bytes size
                then skipped casefold matches file.path scan
                else elim file.lines [
                  | none ↦ skipped casefold matches file.path scan
                  | some lines ↦ scanned casefold matches target.max_findings file.path lines scan
                ]
          ])
      by_size none = h
      by_size (some size) =
          if_both (ScanIsBounded target) (ltb target.max_file_bytes size) (λ e. h)
            (λ e. by_lines file.lines)

  scan_files-IsBounded :
      (target : Target) (files : List File) (scan : Scan)
      → scan.truncated ≡ false
      → ScanIsBounded target scan
      → ScanIsBounded target (scan_files casefold matches target files scan)
  unfolding scan_files
  scan_files-IsBounded target [] scan open_ h = h
  scan_files-IsBounded target (file ∷ files) scan open_ h =
      let one = scan_file casefold matches target file scan in
      let bounded = scan_file-IsBounded target file scan open_ h in
      if_both (ScanIsBounded target) one.truncated (λ e. bounded)
        (λ e. scan_files-IsBounded target files one e bounded)

  -- One file is counted once, as scanned or as skipped.
  abbrev seen : Scan → ℕ
  seen scan = scan.files_scanned + scan.files_skipped

  seen-scan_file :
      (target : Target) (file : File) (scan : Scan)
      → seen (scan_file casefold matches target file scan) ≡ seen scan + 1
  unfolding scan_file
  seen-scan_file target file scan = ground arith

  seen-scan_files :
      (target : Target) (files : List File) (scan : Scan)
      → seen (scan_files casefold matches target files scan) ≤ seen scan + length files
  unfolding scan_files
  seen-scan_files target [] scan = omega arith
  seen-scan_files target (file ∷ files) scan =
      let one = scan_file casefold matches target file scan in
      let counted = seen-scan_file target file scan in
      if_both (λ s. seen s ≤ seen scan + length (file ∷ files)) one.truncated (λ e. omega arith)
        (λ e. omega (arith, seen-scan_files target files one))

  -- A run reports at most `max_findings` candidates, is marked truncated exactly when it has
  -- that many, and looks at no more than `max_files` files, if the limit on findings is not zero.
  pub run-IsBounded :
      (target : Target) (start_after : Text) (files : List File)
      → 1 ≤ target.max_findings
      → let report = run casefold matches target start_after files in
        IsBounded target.max_findings (length report.findings) report.truncated
        × (report.files_scanned + report.files_skipped ≤ target.max_files)
  unfolding run report_of
  run-IsBounded target start_after files h =
      let left = remaining casefold matches (slashes casefold matches start_after) files in
      (
        scan_files-IsBounded target (window casefold matches target start_after files) empty_scan
            refl (omega arith),
        omega (
          arith,
          seen-scan_files target (window casefold matches target start_after files) empty_scan,
          length-take target.max_files left,
        ),
      )
