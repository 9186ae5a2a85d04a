-- ===== src/Scoring/Match/Findings.antt =====
-- src/draftbench/scoring/findings.py: `score_findings`.
use llm_draftbench.Prelude.{
  ℕ, ◌-◌, String, Bool, true, false, Option, none, some, List, map, not, ◌&&◌, ◌||◌, keep, all,
  length, is_nil, if◌then◌else◌, Result, ok, ◌>>=◌,
}
use llm_draftbench.Prelude.Text.{member}
use llm_draftbench.Prelude.Sorting.{sort_by}
use llm_draftbench.Scoring.Case.{Inventory, Severity, Finding, JudgmentState, ScoreCase}
use llm_draftbench.Scoring.Decisions.{Effective, says_error, assess}
use llm_draftbench.Scoring.Scope.{Scope, is_assessed, scope_of, same_scope}
use llm_draftbench.Scoring.Rate.{ScoringError, Rate, rate}
use llm_draftbench.Scoring.Valid.{
  Digests, finding_ids, review_findings, is_unavailable, validated_case,
}
use llm_draftbench.Scoring.Cohort.{distinct_count}
use llm_draftbench.Scoring.Match.Alignments.{
  predictions, judgments_of, alignment_scope, bad_ids, claims_of, Context, PredictionRow, resolve,
  taken_of,
}

pub data Coverage : Type 0 where
  unavailable complete incomplete : Coverage

abbrev pub of_effective : Effective → Coverage
of_effective Effective.pass = complete
of_effective Effective.edit = complete
of_effective Effective.block = complete
of_effective _ = incomplete

-- `review_coverage`
abbrev pub review_coverage : ScoreCase → Coverage
review_coverage c = elim c.review [
  | none ↦ unavailable
  | some r ↦ if says_error r.decision then unavailable else of_effective (assess c)
]

abbrev pub is_complete : Coverage → Bool
is_complete complete = true
is_complete _ = false

abbrev pub has_review : Coverage → Bool
has_review unavailable = false
has_review _ = true

abbrev pub all_known : Inventory → Bool
all_known Inventory.complete = true
all_known _ = false

abbrev pub is_critical : Finding → Bool
is_critical f = elim f.severity [ Severity.critical ↦ true | _ ↦ false ]

abbrev pub row_matched : JudgmentState → Bool
row_matched JudgmentState.matched = true
row_matched _ = false

abbrev pub row_spurious : JudgmentState → Bool
row_spurious JudgmentState.spurious = true
row_spurious _ = false

abbrev pub row_ambiguous : JudgmentState → Bool
row_ambiguous JudgmentState.ambiguous = true
row_ambiguous _ = false

abbrev pub row_unassessed : JudgmentState → Bool
row_unassessed JudgmentState.unassessed = true
row_unassessed _ = false

-- `state_counts[state]`
abbrev pub rows_in : (JudgmentState → Bool) → List PredictionRow → List PredictionRow
rows_in p rows = keep (λ r. p r.state) rows

-- The names of the rows in a state, sorted.
abbrev pub sorted_ids : List String → List String
sorted_ids ids = sort_by (λ i. i) ids

pub record FindingCounts : Type 0 where
  pub predictions : ℕ
  pub suggestions : ℕ
  pub reference_defects : ℕ
  pub matched : ℕ
  pub spurious : ℕ
  pub unassessed : ℕ
  pub ambiguous : ℕ
  pub unmatched_defects : ℕ
  pub critical_defects : ℕ
  pub critical_matched : ℕ
  pub critical_missed : Option ℕ

pub record FindingScores : Type 0 where
  pub reference_scope : Scope
  pub alignment_scope : Scope
  pub coverage : Coverage
  pub measurement_valid : Bool
  pub counts : FindingCounts
  pub precision : Rate
  pub recall : Rate
  pub critical_recall : Rate
  pub pending_finding_ids : List String
  pub ambiguous_finding_ids : List String
  pub unmatched_defect_ids : List String

abbrev pub context_of : ScoreCase → List String → Context
context_of c claims = record {
  judgments = judgments_of c;
  defects = c.reference.defects;
  attributed = is_assessed (alignment_scope c);
  bad_predictions = bad_ids c (review_findings c);
  bad_defects = bad_ids c c.reference.defects;
  claims = claims;
}

-- `measurement_valid`, after the loop.
abbrev pub measured : ScoreCase → List PredictionRow → Bool
measured c rows =
    is_nil (bad_ids c (review_findings c))
    && is_nil (bad_ids c c.reference.defects)
    && all (λ r. r.category_valid) rows

abbrev pub is_pending : JudgmentState → Bool
is_pending s = row_unassessed s || row_ambiguous s

abbrev pub row_ids : List PredictionRow → List String
row_ids rows = map (λ r. r.finding_id) rows

abbrev pub unmatched_ids : ScoreCase → List PredictionRow → List String
unmatched_ids c rows = keep (λ d. not (member d (taken_of rows))) (finding_ids c.reference.defects)

abbrev pub critical_ids : ScoreCase → List String
critical_ids c = finding_ids (keep is_critical c.reference.defects)

abbrev pub matched_critical : ScoreCase → List PredictionRow → List String
matched_critical c rows = keep (λ d. member d (taken_of rows)) (critical_ids c)

abbrev pub is_fully_assessed : ScoreCase → List PredictionRow → Bool
is_fully_assessed c rows =
    measured c rows
    && has_review (review_coverage c)
    && not (is_unavailable c.reference.defect_inventory)
    && is_assessed (scope_of c.reference)
    && same_scope (scope_of c.reference) (alignment_scope c)
    && is_nil (rows_in is_pending rows)

abbrev pub is_recall_assessed : ScoreCase → List PredictionRow → Bool
is_recall_assessed c rows =
    is_fully_assessed c rows
    && all_known c.reference.defect_inventory
    && is_complete (review_coverage c)

abbrev pub counts_of : ScoreCase → List PredictionRow → FindingCounts
counts_of c rows =
    let critical = length (critical_ids c) in
    let found = length (matched_critical c rows) in
    record {
      predictions = length (predictions c);
      suggestions = length (review_findings c) - length (predictions c);
      reference_defects = length c.reference.defects;
      matched = distinct_count (taken_of rows);
      spurious = length (rows_in row_spurious rows);
      unassessed = length (rows_in row_unassessed rows);
      ambiguous = length (rows_in row_ambiguous rows);
      unmatched_defects = length (unmatched_ids c rows);
      critical_defects = critical;
      critical_matched = found;
      critical_missed = if is_recall_assessed c rows then some (critical - found) else none;
    }

unfoldable pub findings_of : ScoreCase → List PredictionRow → Result ScoringError FindingScores
unfolding sort_by
findings_of c rows = do
  let n = counts_of c rows
  precision ← rate n.matched n.predictions (is_fully_assessed c rows)
  recall ← rate n.matched n.reference_defects (is_recall_assessed c rows)
  critical_recall ← rate n.critical_matched n.critical_defects (is_recall_assessed c rows)
  ok (record {
    reference_scope = scope_of c.reference;
    alignment_scope = alignment_scope c;
    coverage = review_coverage c;
    measurement_valid = measured c rows;
    counts = n;
    precision = precision;
    recall = recall;
    critical_recall = critical_recall;
    pending_finding_ids = sorted_ids (row_ids (rows_in is_pending rows));
    ambiguous_finding_ids = sorted_ids (row_ids (rows_in row_ambiguous rows));
    unmatched_defect_ids = sorted_ids (unmatched_ids c rows);
  })

-- The claims are counted before any row is resolved.
unfoldable pub rows_of_case : ScoreCase → Result ScoringError (List PredictionRow)
rows_of_case c = do
  claims ← claims_of (judgments_of c) (predictions c)
  resolve (context_of c claims) (predictions c)

module _ (digests : Digests) where
  unfoldable pub score_findings : ScoreCase → Result ScoringError FindingScores
  score_findings c = do
    valid ← validated_case digests c
    rows ← rows_of_case valid
    findings_of valid rows
