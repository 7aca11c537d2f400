-- ===== src/Evidence/Audit.antt =====
-- One run of `ConstraintAuditor` of manager/evidence.py. The case folding of paths and the search of
-- a rule's pattern are parameters.
use machine_manager.Base.{
  ℕ, ◌+◌, Bool, true, false, not, ◌&&◌, ◌||◌, Option, none, some, List, [], ◌∷◌, ◌++◌, ltb, leb,
  ◌==◌, if◌then◌else◌, take, length,
}
use machine_manager.Base.Text.{Text, text, text_leb, is_empty}
use machine_manager.Evidence.{
  File, Finding, Report, Rule, Scan, Target, constraint_rules, empty_scan, excerpt_of,
}

-- `matches rule line` is `rule.pattern.search(line)`, by the id of the rule.
module _ (casefold : Text → Text) (matches : Text → Text → Bool) where
  -- The first rule that a line matches.
  unfoldable pub first_rule : List Rule → Text → Option Rule
  first_rule [] line = none
  first_rule (rule ∷ rules) line =
      if matches rule.rule_id line then some rule else first_rule rules line

  abbrev pub finding_of : Text → ℕ → Text → Option Rule → List Finding
  finding_of path number line none = []
  finding_of path number line (some rule) =
      record {
        rule_id = rule.rule_id;
        category = rule.category;
        description = rule.description;
        relative_path = path;
        line = number;
        excerpt = excerpt_of line;
      }
      ∷ []

  -- The loop over the lines of a file, from a line number on: the findings, and whether it stopped.
  unfoldable pub scan_lines : ℕ → Text → ℕ → List Text → List Finding → List Finding × Bool
  unfolding first_rule constraint_rules excerpt_of
  scan_lines max_findings path number [] findings = (findings, false)
  scan_lines max_findings path number (line ∷ lines) findings =
      let now = findings ++ finding_of path number line (first_rule constraint_rules line) in
      let rest = scan_lines max_findings path (number + 1) lines now in
      if leb max_findings (length now) then (now, true) else rest

  abbrev pub skipped : Text → Scan → Scan
  skipped path scan = record scan { files_skipped = scan.files_skipped + 1; last_processed = path }

  abbrev pub scanned : ℕ → Text → List Text → Scan → Scan
  scanned max_findings path lines scan =
      let (findings, truncated) = scan_lines max_findings path 1 lines scan.findings in
      record scan {
        findings = findings;
        files_scanned = scan.files_scanned + 1;
        truncated = truncated;
        last_processed = path;
      }

  -- The body of the loop over the files: stat, then read.
  unfoldable pub scan_file : Target → File → Scan → Scan
  unfolding scan_lines
  scan_file target file scan = elim file.size [
    | none ↦ skipped file.path scan
    | some size ↦
        if ltb target.max_file_bytes size then skipped file.path scan else elim file.lines [
          | none ↦ skipped file.path scan
          | some lines ↦ scanned target.max_findings file.path lines scan
        ]
  ]

  unfoldable pub scan_files : Target → List File → Scan → Scan
  unfolding scan_file
  scan_files target [] scan = scan
  scan_files target (file ∷ files) scan =
      let one = scan_file target file scan in
      let rest = scan_files target files one in if one.truncated then one else rest

  -- `path.casefold() <= cursor.casefold()`
  unfoldable pub is_behind : Text → File → Bool
  is_behind cursor file = text_leb (casefold file.path) (casefold cursor)

  unfoldable pub skip_behind : Text → List File → List File
  unfolding is_behind
  skip_behind cursor [] = []
  skip_behind cursor (file ∷ files) =
      let rest = skip_behind cursor files in if is_behind cursor file then rest else file ∷ files

  abbrev pub or_all : List File → List File → List File
  or_all [] files = files
  or_all (file ∷ rest) files = file ∷ rest

  -- The files from `start_index` on.
  unfoldable pub remaining : Text → List File → List File
  unfolding skip_behind
  remaining cursor files =
      if is_empty cursor then files else or_all (skip_behind cursor files) files

  -- `cursor.replace("\\", "/")`
  unfoldable pub slashes : Text → Text
  slashes [] = []
  slashes (c ∷ s) = (if c == 92 then 47 else c) ∷ slashes s

  unfoldable pub report_of : Target → List File → Scan → Report
  unfolding text
  report_of target left scan =
      let more =
        not (is_empty scan.last_processed)
        && (ltb target.max_files (length left) || scan.truncated) in
      record {
        state =
            if length scan.findings == 0
            then text "NO_CANDIDATES"
            else text "NEEDS_EVIDENCE_REVIEW";
        files_scanned = scan.files_scanned;
        files_skipped = scan.files_skipped;
        truncated = scan.truncated;
        more_pending = more;
        next_cursor = if more then scan.last_processed else [];
        findings = scan.findings;
      }

  abbrev pub window : Target → Text → List File → List File
  window target cursor files = take target.max_files (remaining (slashes cursor) files)

  -- `ConstraintAuditor.run`, on the candidate files of a root that exists
  unfoldable pub run : Target → Text → List File → Report
  unfolding remaining slashes scan_files report_of
  run target start_after files =
      report_of target (remaining (slashes start_after) files)
        (scan_files target (window target start_after files) empty_scan)
