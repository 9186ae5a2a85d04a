-- ===== src/Scoring/Match/Alignments.antt =====
-- src/draftbench/scoring/findings.py: what becomes of each predicted finding.
use llm_draftbench.Prelude.{
  ℕ, suc, String, Bool, true, Option, none, some, List, [], ◌∷◌, ◌++◌, not, ◌&&◌, ◌==◌, ltb, keep,
  if◌then◌else◌, Result, ok, err, ◌>>=◌,
}
use llm_draftbench.Prelude.Text.{member}
use llm_draftbench.Scoring.Case.{
  Finding, JudgmentState, matched, spurious, ambiguous, unassessed, FindingJudgment, Alignment,
  ScoreCase,
}
use llm_draftbench.Scoring.Decisions.{unit_texts, bad_span}
use llm_draftbench.Scoring.Rate.{ScoringError, index_error, key_error}
use llm_draftbench.Scoring.Scope.{reference_scope, unassessed as no_scope, Scope}
use llm_draftbench.Scoring.Valid.{is_suggestion, finding_ids, is_matched, review_findings}

-- `predictions`
abbrev pub is_defect : Finding → Bool
is_defect f = not (is_suggestion f.kind)

abbrev pub predictions : ScoreCase → List Finding
predictions c = keep is_defect (review_findings c)

-- `judgments`
abbrev pub aligned : Option Alignment → List FindingJudgment
aligned none = []
aligned (some a) = a.judgments

abbrev pub judgments_of : ScoreCase → List FindingJudgment
judgments_of c = aligned c.alignment

-- `judgments.get(finding_id)`, of a dict in which the last of two equal keys counts.
abbrev pub judgment_of : String → List FindingJudgment → Option FindingJudgment
judgment_of i [] = none
judgment_of i (j ∷ js) = elim (judgment_of i js) [
  | some later ↦ some later
  | none ↦ if j.finding_id == i then some j else none
]

-- `defects[defect_id]`
abbrev pub defect_of : String → List Finding → Option Finding
defect_of i [] = none
defect_of i (f ∷ fs) = elim (defect_of i fs) [
  | some later ↦ some later
  | none ↦ if f.finding_id == i then some f else none
]

abbrev pub found_defect : Option Finding → Result ScoringError Finding
found_defect none = err key_error
found_defect (some f) = ok f

-- `judgment.defect_ids[0]`
abbrev pub first_of : List String → Result ScoringError String
first_of [] = err index_error
first_of (d ∷ ds) = ok d

abbrev pub alignment_scope : ScoreCase → Scope
alignment_scope c = elim c.alignment [
  | none ↦ no_scope
  | some a ↦ reference_scope a.producer a.basis a.independence
]

-- `invalid_predictions` and `invalid_defects`
abbrev pub bad_ids : ScoreCase → List Finding → List String
bad_ids c fs = finding_ids (keep (bad_span (unit_texts c)) fs)

-- The defect that one row's judgment claims.
abbrev pub claim_of : Option FindingJudgment → Result ScoringError (List String)
claim_of none = ok []
claim_of (some j) =
    if is_matched j.state then (do d ← first_of j.defect_ids; ok (d ∷ [])) else ok []

-- `claims`, as the list that is counted.
abbrev pub claims_of : List FindingJudgment → List Finding → Result ScoringError (List String)
claims_of js [] = ok []
claims_of js (f ∷ fs) = do
  here ← claim_of (judgment_of f.finding_id js)
  rest ← claims_of js fs
  ok (here ++ rest)

abbrev pub count_of : String → List String → ℕ
count_of d [] = 0
count_of d (x ∷ xs) = if x == d then suc (count_of d xs) else count_of d xs

-- What the loop reads.
pub record Context : Type 0 where
  pub judgments : List FindingJudgment
  pub defects : List Finding
  pub attributed : Bool
  pub bad_predictions : List String
  pub bad_defects : List String
  pub claims : List String

-- One round: `states[finding_id]`, `category_valid`, and what joins `matched_defects`.
pub record PredictionRow : Type 0 where
  pub finding_id : String
  pub state : JudgmentState
  pub category_valid : Bool
  pub taken : List String

abbrev pub row_of : Finding → JudgmentState → PredictionRow
row_of f state = record {
  finding_id = f.finding_id;
  state = state;
  category_valid = true;
  taken = [];
}

-- A prediction that is judged to match defect `d`.
abbrev pub match_row : Context → Finding → String → Finding → PredictionRow
match_row x f d defect =
    let same = f.category == defect.category in
    if ltb 1 (count_of d x.claims)
    then record { finding_id = f.finding_id; state = ambiguous; category_valid = same; taken = [] }
    else if x.attributed
        && not (member f.finding_id x.bad_predictions)
        && not (member d x.bad_defects)
        && same
    then record {
      finding_id = f.finding_id;
      state = matched;
      category_valid = same;
      taken = d ∷ [];
    }
    else record { finding_id = f.finding_id; state = unassessed; category_valid = same; taken = [] }

abbrev pub judged_row :
    Context → Finding → JudgmentState → List String → Result ScoringError PredictionRow
judged_row x f ambiguous ds = ok (row_of f ambiguous)
judged_row x f matched ds = do
  d ← first_of ds
  defect ← found_defect (defect_of d x.defects)
  ok (match_row x f d defect)
judged_row x f spurious ds = ok (
    row_of f (
      if x.attributed && not (member f.finding_id x.bad_predictions) then spurious else unassessed))
judged_row x f unassessed ds = ok (row_of f unassessed)

abbrev pub round : Context → Finding → Option FindingJudgment → Result ScoringError PredictionRow
round x f none = ok (row_of f unassessed)
round x f (some j) = judged_row x f j.state j.defect_ids

-- The loop over the predictions.
unfoldable pub resolve : Context → List Finding → Result ScoringError (List PredictionRow)
resolve x [] = ok []
resolve x (f ∷ fs) = do
  row ← round x f (judgment_of f.finding_id x.judgments)
  rest ← resolve x fs
  ok (row ∷ rest)

abbrev pub taken_of : List PredictionRow → List String
taken_of [] = []
taken_of (r ∷ rs) = r.taken ++ taken_of rs
