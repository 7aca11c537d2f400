-- ===== src/Evidence/Reviews.antt =====
-- What an audit report says of its findings, in manager/evidence.py.
use machine_manager.Base.{ℕ, ◌+◌, Option, none, some, List, [], ◌∷◌, ◌==◌, if◌then◌else◌}
use machine_manager.Base.Assoc.{select, upsert}
use machine_manager.Base.Sorting.{sort_by}
use machine_manager.Base.Text.{Text, text, text_leb}
use machine_manager.Evidence.{Finding}

-- An entry of the review plan.
pub record Review : Type 0 where
  pub category : Text
  pub candidate_count : ℕ
  pub test_id : Text
  pub recommended_test : Text

abbrev count_or_zero : Option ℕ → ℕ
count_or_zero none = 0
count_or_zero (some n) = n

unfoldable pub count_categories : List Finding → List (Text × ℕ) → List (Text × ℕ)
unfolding select upsert
count_categories [] counts = counts
count_categories (finding ∷ findings) counts =
    let n = count_or_zero (select finding.category counts) in
    count_categories findings (upsert finding.category (n + 1) counts)

-- `ConstraintAuditReport.category_counts`
unfoldable pub category_counts : List Finding → List (Text × ℕ)
unfolding count_categories text_leb
category_counts findings = sort_by (λ a b. text_leb a.0 b.0) (count_categories findings [])

-- `AUDIT_REVIEW_PLAN`, with a count of zero.
unfoldable pub audit_review_plan : List Review
unfolding text
audit_review_plan =
    record {
      category = text "approval_gate";
      candidate_count = 0;
      test_id = text "approval-gate-check";
      recommended_test =
          text
            "Test a harmless delegated action and record whether the platform already owns the approval step.";
    }
    ∷ record {
      category = text "autonomy_limit";
      candidate_count = 0;
      test_id = text "delegated-capability-check";
      recommended_test =
          text
            "Run one bounded capability test and record what the configured worker actually permits.";
    }
    ∷ record {
      category = text "scope_boundary";
      candidate_count = 0;
      test_id = text "scope-boundary-check";
      recommended_test =
          text
            "Verify the intended service, target, and technique boundary before the representative test.";
    }
    ∷ record {
      category = text "data_boundary";
      candidate_count = 0;
      test_id = text "sanitized-egress-check";
      recommended_test =
          text
            "Run the sanitized-publication regression test and confirm sensitive details stay local.";
    }
    ∷ []

unfoldable pub reviews_for : List Review → List (Text × ℕ) → List Review
unfolding select
reviews_for [] counts = []
reviews_for (review ∷ reviews) counts =
    let later = reviews_for reviews counts in
    let n = count_or_zero (select review.category counts) in
    if n == 0 then later else record review { candidate_count = n } ∷ later

-- `review_plan_for_categories`, of counts that are natural numbers
unfoldable pub review_plan_for_categories : List (Text × ℕ) → List Review
unfolding reviews_for audit_review_plan
review_plan_for_categories counts = reviews_for audit_review_plan counts
