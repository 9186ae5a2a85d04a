-- ===== src/Scoring/Samples.antt =====
-- src/draftbench/scoring: two small cases, what the rules make of them, and the theorems there.
use llm_draftbench.Prelude.{
  ◌≡◌, ◌↔◌, refl, String, true, false, none, some, List, [], ◌∷◌, ok, err, all,
}
use llm_draftbench.Scoring.Case.{
  CheckState, Applicability, Basis, Independence, AssertionMode, ProducerKind, Acceptability,
  Inventory, Severity, FindingKind, Decision, ObservationState, Observation, Producer, Binding,
  Relevance, Check, Finding, ScoringUnit, ReviewerAssessment, ScoreCase,
}
use llm_draftbench.Prelude.Sorting.{sort_by}
use llm_draftbench.Scoring.Decisions.{
  has_text, pass, block, measurement_error, assess_review, assess,
}
use llm_draftbench.Scoring.Support.{IsSupported, assess-IsSupported}
use llm_draftbench.Scoring.Scope.{CohortView, ObservationView}
use llm_draftbench.Scoring.Rate.{duplicate_scoring_id, validation_error, rate}
use llm_draftbench.Scoring.Valid.{Digests, valid_case}
use llm_draftbench.Scoring.Cohort.{Scores, tally, metrics, check_cohort, score_decisions}
use llm_draftbench.Scoring.Balance.{IsBalanced, score_decisions-IsBalanced}

abbrev named : String → Observation
named s = record { state = ObservationState.known; value = some s }

abbrev absent : Observation
absent = record { state = ObservationState.inapplicable; value = none }

abbrev person : Producer
person = record {
  kind = ProducerKind.human;
  name = named "editor";
  version = named "1";
  requested_model = absent;
  served_model = absent;
}

abbrev binding_of : String → Binding
binding_of sha = record { artifact_sha256 = sha; rubric_id = "rubric"; rubric_version = "1" }

abbrev typo : Severity → Finding
typo severity = record {
  finding_id = "f1";
  kind = FindingKind.defect;
  category = "spelling";
  severity = severity;
  span = some (record { item_id = "body"; start = 0; end = 5; quote = "Hello" });
}

abbrev review : String → Decision → Severity → ReviewerAssessment
review sha decision severity = record {
  binding = binding_of sha;
  producer = person;
  decision = decision;
  checks = record { check_id = "greets"; state = CheckState.pass } ∷ [];
  findings = typo severity ∷ [];
}

-- A text with one required check, and a fact that its author was free to make up.
abbrev case : String → String → Acceptability → Decision → Severity → ScoreCase
case name sha label decision severity = record {
  identity = name;
  case_id = name;
  source_family = "letters";
  artifact = record {
    sha256 = sha;
    units =
        record { unit_id = "body"; is_social_post = false; content = "Hello, reader." }
        ∷ record { unit_id = sha; is_social_post = false; content = "" }
        ∷ [];
  };
  rubric = record {
    rubric_id = "rubric";
    version = "1";
    checks =
        Check.required_literal
          (record { check_id = "greets"; applicability = Applicability.required })
          (record { unit_id = none; literal = "Hello" })
        ∷ Check.fact (record { check_id = "story"; applicability = Applicability.required })
            (record {
              span = record { item_id = "body"; start = 7; end = 13; quote = "reader" };
              observed_value = "reader";
              observed_unit = none;
              source_id = none;
              reference_span = none;
              expected_value = none;
              expected_unit = none;
              relevance = Relevance.unknown;
              assertion_mode = AssertionMode.fictional;
              authorized_nonfactual = true;
            })
        ∷ [];
  };
  sources_state = Inventory.complete;
  sources = [];
  reference = record {
    binding = binding_of sha;
    producer = some person;
    basis = some Basis.historical_exact;
    independence = Independence.independent;
    acceptability = label;
    defect_inventory = Inventory.complete;
    defects = [];
  };
  review = some (review sha decision severity);
  alignment = none;
}

abbrev wrong_pass : ScoreCase
wrong_pass = case "one" "sha-1" Acceptability.unacceptable Decision.pass Severity.minor

abbrev wrong_block : ScoreCase
wrong_block = case "two" "sha-2" Acceptability.acceptable Decision.block Severity.critical

abbrev void_pass : ScoreCase
void_pass = case "three" "sha-3" Acceptability.acceptable Decision.pass Severity.major

-- The second unit is named after the digest.
abbrev second_id : List ScoringUnit → String
second_id (u ∷ v ∷ units) = v.unit_id
second_id _ = ""

abbrev digests : Digests
digests = record {
  artifact_digest = second_id;
  text_digest = λ t. t;
  case_identity = λ c. c.case_id;
}

abbrev cohort_name : CohortView → String
cohort_name v = v.rubric_id

abbrev observation_name : ObservationView → String
observation_name v = v.artifact_sha256

abbrev cases : List ScoreCase
cases = wrong_pass ∷ wrong_block ∷ void_pass ∷ []

-- All that a test has to run.
program : Unit {0}
unfolding has_text assess_review assess rate tally metrics score_decisions sort_by valid_case
program = tt

assess-wrong_pass : assess wrong_pass ≡ pass
unfolding program
assess-wrong_pass = refl

assess-wrong_block : assess wrong_block ≡ block
unfolding program
assess-wrong_block = refl

-- A pass with a major defect is no pass.
assess-void_pass : assess void_pass ≡ measurement_error
unfolding program
assess-void_pass = refl

score-duplicate :
    score_decisions cohort_name observation_name digests (wrong_pass ∷ wrong_pass ∷ [])
    ≡ err duplicate_scoring_id
unfolding program
score-duplicate = refl

-- A case that was changed after it was made.
score-changed :
    score_decisions cohort_name observation_name digests
      (record wrong_pass { case_id = "two" } ∷ [])
    ≡ err validation_error
unfolding program
score-changed = refl

valid_cases : all (valid_case digests) cases ≡ true
unfolding program
valid_cases = refl

check_cases : check_cohort cohort_name observation_name cases ≡ ok tt
unfolding program
check_cases = refl

assess-IsSupported_example :
    (assess wrong_pass ≡ pass)
    ↔ IsSupported wrong_pass (review "sha-1" Decision.pass Severity.minor)
assess-IsSupported_example =
    assess-IsSupported wrong_pass (review "sha-1" Decision.pass Severity.minor) refl

score_decisions-IsBalanced_example :
    (s : Scores) × (score_decisions cohort_name observation_name digests cases ≡ ok s)
    × IsBalanced 3 s.counts
score_decisions-IsBalanced_example =
    score_decisions-IsBalanced cohort_name observation_name digests cases valid_cases check_cases
