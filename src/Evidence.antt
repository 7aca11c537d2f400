-- ===== src/Evidence.antt =====
-- manager/evidence.py: the audit targets and the constraint rules. One run of `ConstraintAuditor`
-- stands in Evidence/Audit.antt.
pub mod Audit
pub mod Bounds
pub mod Windows
pub mod Sweeps
pub mod Cuts
pub mod Quiet
pub mod Reviews
pub mod Profiles
pub mod Coordinator
pub mod Pending
pub mod Ticks
use machine_manager.Base.{
  ℕ, ◌+◌, ◌≡◌, Bool, true, false, not, ◌&&◌, ◌||◌, Option, none, some, List, [], ◌∷◌, ◌++◌, ltb,
  leb, ◌==◌, if◌then◌else◌, take, drop, length,
}
use machine_manager.Base.Text.{Text, text, text_leb, text_eq, is_empty, is_space}
use machine_manager.Base.Search.{assigns, starts_with, after_literal, is_alphanumeric, found_in}

-- `AuditTarget` of an enabled target, whose root stands for its candidate files; intervals are in
-- milliseconds.
pub record Target : Type 0 where
  pub target_id : Text
  pub label : Text
  pub max_files : ℕ
  pub max_file_bytes : ℕ
  pub max_findings : ℕ
  pub interval : Option ℕ

pub record Rule : Type 0 where
  pub rule_id : Text
  pub category : Text
  pub description : Text

-- `CONSTRAINT_RULES`, in their order; the patterns are a parameter of Evidence/Audit.antt.
unfoldable pub constraint_rules : List Rule
unfolding text
constraint_rules =
    record {
      rule_id = text "approval-gate";
      category = text "approval_gate";
      description = text "Language that may require a human approval or confirmation step.";
    }
    ∷ record {
      rule_id = text "manual-workflow";
      category = text "approval_gate";
      description = text "Language that may make a workflow manual by default.";
    }
    ∷ record {
      rule_id = text "autonomy-prohibition";
      category = text "autonomy_limit";
      description = text "Language that may prohibit an otherwise delegated automated action.";
    }
    ∷ record {
      rule_id = text "scope-boundary";
      category = text "scope_boundary";
      description =
          text "Language that may define an authorized service, target, or technique boundary.";
    }
    ∷ record {
      rule_id = text "sensitive-data-boundary";
      category = text "data_boundary";
      description = text "Language that may protect credentials or sensitive material.";
    }
    ∷ []

-- `ConstraintFinding`
pub record Finding : Type 0 where
  pub rule_id : Text
  pub category : Text
  pub description : Text
  pub relative_path : Text
  pub line : ℕ
  pub excerpt : Text

-- A candidate file: its path from the root, its size, and its lines; none where the operating
-- system raises OSError.
pub record File : Type 0 where
  pub path : Text
  pub size : Option ℕ
  pub lines : Option (List Text)

-- `ConstraintAuditReport`, but for the id, the time, and the copies of the target's entries.
pub record Report : Type 0 where
  pub state : Text
  pub files_scanned : ℕ
  pub files_skipped : ℕ
  pub truncated : Bool
  pub more_pending : Bool
  pub next_cursor : Text
  pub findings : List Finding

-- What the loop over the files keeps.
pub record Scan : Type 0 where
  pub findings : List Finding
  pub files_scanned : ℕ
  pub files_skipped : ℕ
  pub truncated : Bool
  pub last_processed : Text

abbrev pub empty_scan : Scan
empty_scan = record {
  findings = [];
  files_scanned = 0;
  files_skipped = 0;
  truncated = false;
  last_processed = [];
}

-- `ghp_[A-Za-z0-9_]+` at the start of a text; one character of the class is enough.
abbrev starts_with_key : Option Text → Bool
starts_with_key none = false
starts_with_key (some []) = false
starts_with_key (some (c ∷ s)) =
    is_alphanumeric c || c == 95 || c == 0x130 || c == 0x131 || c == 0x17f || c == 0x212a

-- `SENSITIVE_CONTENT` at the start of a text.
unfoldable pub secret_here : Text → Bool
unfolding starts_with assigns after_literal text
secret_here s =
    starts_with (text "github_pat_") s
    || starts_with_key (after_literal (text "ghp_") s)
    || assigns (text "token") s
    || assigns (text "secret") s
    || assigns (text "password") s
    || assigns (text "credential") s
    || assigns (text "apikey") s
    || assigns (text "api key") s
    || assigns (text "api_key") s
    || assigns (text "api-key") s

-- `SENSITIVE_CONTENT.search`
unfoldable pub is_secret : Text → Bool
unfolding secret_here found_in
is_secret s = found_in secret_here s

-- `" ".join(s.replace("\x00", " ").split())`, behind a word or at the start.
unfoldable pub squeeze : Bool → Text → Text
unfolding is_space
squeeze pending [] = []
squeeze pending (c ∷ s) =
    let blank = squeeze true s in
    let word = squeeze false s in
    if c == 0 || is_space c then blank else if pending then 32 ∷ c ∷ word else c ∷ word

-- A text begins with no blank, so the first word is joined to nothing.
unfoldable pub collapse : Text → Text
unfolding squeeze is_space
collapse [] = []
collapse (c ∷ s) =
    let rest = collapse s in if c == 0 || is_space c then rest else c ∷ squeeze false s

-- `_excerpt`
unfoldable pub excerpt_of : Text → Text
unfolding collapse is_secret text
excerpt_of line =
    let compact = take 240 (collapse line) in
    if is_secret compact then text "[redacted]" else compact
