-- ===== src/Scoring/Match/Samples.antt =====
-- src/draftbench/scoring/findings.py: two defects and what three findings of a review make of them.
use llm_draftbench.Prelude.{◌≡◌, refl, String, true, false, none, some, List, [], ◌∷◌, ok}
use llm_draftbench.Prelude.Sorting.{sort_by}
use llm_draftbench.Scoring.Case.{
  Basis, Independence, ProducerKind, Acceptability, Inventory, Severity, FindingKind, Decision,
  ObservationState, Observation, Producer, Binding, Finding, JudgmentState, FindingJudgment,
  ScoreCase,
}
use llm_draftbench.Scoring.Decisions.{has_text, assess_review, assess}
use llm_draftbench.Scoring.Rate.{rate}
use llm_draftbench.Scoring.Valid.{Digests, valid_case}
use llm_draftbench.Scoring.Match.Alignments.{PredictionRow, resolve}
use llm_draftbench.Scoring.Match.Findings.{FindingScores, findings_of, rows_of_case, score_findings}
use llm_draftbench.Scoring.Match.Tallies.{Tallied, score_findings-Tallied}

abbrev digests : Digests
digests = record {
  artifact_digest = λ u. "units";
  text_digest = λ t. "text";
  case_identity = λ c. "case";
}

abbrev named : String → Observation
named s = record { state = ObservationState.known; value = some s }

abbrev absent : Observation
absent = record { state = ObservationState.inapplicable; value = none }

abbrev person : Producer
person = record {
  kind = ProducerKind.human;
  name = named "editor";
  version = named "1";
  requested_model = absent;
  served_model = absent;
}

abbrev binding : Binding
binding = record { artifact_sha256 = "units"; rubric_id = "rubric"; rubric_version = "1" }

abbrev finding : String → Finding
finding name = record {
  finding_id = name;
  kind = FindingKind.defect;
  category = "spelling";
  severity = Severity.critical;
  span = none;
}

abbrev judged : String → JudgmentState → List String → FindingJudgment
judged name state ds = record { finding_id = name; state = state; defect_ids = ds }

-- Of defects `d1` and `d2`, and findings `f1`, `f2` and `f3`.
abbrev case : List FindingJudgment → ScoreCase
case judgments = record {
  identity = "case";
  case_id = "letter";
  source_family = "letters";
  artifact = record {
    sha256 = "units";
    units = record { unit_id = "body"; is_social_post = false; content = "Helo, reeder." } ∷ [];
  };
  rubric = record { rubric_id = "rubric"; version = "1"; checks = [] };
  sources_state = Inventory.complete;
  sources = [];
  reference = record {
    binding = binding;
    producer = some person;
    basis = some Basis.historical_exact;
    independence = Independence.independent;
    acceptability = Acceptability.unacceptable;
    defect_inventory = Inventory.complete;
    defects = finding "d1" ∷ finding "d2" ∷ [];
  };
  review = some (record {
    binding = binding;
    producer = person;
    decision = Decision.edit;
    checks = [];
    findings = finding "f1" ∷ finding "f2" ∷ finding "f3" ∷ [];
  });
  alignment = some (record {
    binding = binding;
    producer = some person;
    basis = some Basis.historical_exact;
    independence = Independence.independent;
    judgments = judgments;
  });
}

abbrev one_each : ScoreCase
one_each = case (
    judged "f1" JudgmentState.matched ("d1" ∷ [])
    ∷ judged "f2" JudgmentState.matched ("d2" ∷ [])
    ∷ judged "f3" JudgmentState.spurious []
    ∷ [])

-- Two findings claim one defect.
abbrev contested : ScoreCase
contested = case (
    judged "f1" JudgmentState.matched ("d1" ∷ [])
    ∷ judged "f2" JudgmentState.matched ("d1" ∷ [])
    ∷ judged "f3" JudgmentState.spurious []
    ∷ [])

program : Unit {0}
unfolding has_text assess_review assess rate sort_by valid_case resolve findings_of rows_of_case
    score_findings
program = tt

valid_one_each : valid_case digests one_each ≡ true
unfolding program
valid_one_each = refl

valid_contested : valid_case digests contested ≡ true
unfolding program
valid_contested = refl

abbrev states_of : PredictionRow → JudgmentState
states_of r = r.state

rows-one_each :
    rows_of_case one_each
    ≡ ok (
        record {
          finding_id = "f1";
          state = JudgmentState.matched;
          category_valid = true;
          taken = "d1" ∷ [];
        }
        ∷ record {
          finding_id = "f2";
          state = JudgmentState.matched;
          category_valid = true;
          taken = "d2" ∷ [];
        }
        ∷ record {
          finding_id = "f3";
          state = JudgmentState.spurious;
          category_valid = true;
          taken = [];
        }
        ∷ [])
unfolding program
rows-one_each = refl

rows-contested :
    rows_of_case contested
    ≡ ok (
        record {
          finding_id = "f1";
          state = JudgmentState.ambiguous;
          category_valid = true;
          taken = [];
        }
        ∷ record {
          finding_id = "f2";
          state = JudgmentState.ambiguous;
          category_valid = true;
          taken = [];
        }
        ∷ record {
          finding_id = "f3";
          state = JudgmentState.spurious;
          category_valid = true;
          taken = [];
        }
        ∷ [])
unfolding program
rows-contested = refl

score_findings-Tallied_example :
    (s : FindingScores) × (score_findings digests one_each ≡ ok s) × Tallied one_each s
score_findings-Tallied_example = score_findings-Tallied digests one_each valid_one_each
