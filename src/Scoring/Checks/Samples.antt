-- ===== src/Scoring/Checks/Samples.antt =====
-- src/draftbench/scoring/deterministic.py: a case with a check of each kind, and the theorems there.
use llm_draftbench.Prelude.{
  arith, ◌≡◌, ◌↔◌, refl, ◌≤◌, String, true, false, none, some, [], ◌∷◌, ok, length,
}
use llm_draftbench.Scoring.Case.{
  CheckState, Applicability, Independence, AssertionMode, Acceptability, Relevance, Inventory,
  CheckBase, Check, ScoreCase, Span, FactCheck,
}
use llm_draftbench.Scoring.Decisions.{has_text, span_matches}
use llm_draftbench.Scoring.Valid.{Digests, valid_case}
use llm_draftbench.Scoring.Checks.Verdicts.{verdict_of}
use llm_draftbench.Scoring.Checks.Deterministic.{
  Deterministic, CheckOutcome, pass, evaluate, evidence_of, deterministic_of, score_deterministic,
}
use llm_draftbench.Scoring.Checks.Substrings.{IsQuoted, span_matches-IsQuoted}
use llm_draftbench.Scoring.Checks.Holds.{Holds, WrittenIn}
use llm_draftbench.Scoring.Checks.Applied.{Applies, evaluate-Holds}
use llm_draftbench.Scoring.Checks.Owed.{state_total}
use llm_draftbench.Scoring.Checks.Outcomes.{Passes, score_deterministic-Passes}

abbrev digests : Digests
digests = record {
  artifact_digest = λ u. "units";
  text_digest = λ t. "text";
  case_identity = λ c. "case";
}

abbrev base : String → Applicability → CheckBase
base name a = record { check_id = name; applicability = a }

abbrev said : Span
said = record { item_id = "body"; start = 6; end = 11; quote = "12 km" }

abbrev noted : Span
noted = record { item_id = "map"; start = 0; end = 5; quote = "12 km" }

abbrev distance : FactCheck
distance = record {
  span = said;
  observed_value = "12";
  observed_unit = some "km";
  source_id = some "map";
  reference_span = some noted;
  expected_value = some "12";
  expected_unit = some "km";
  relevance = Relevance.relevant;
  assertion_mode = AssertionMode.asserted;
  authorized_nonfactual = false;
}

abbrev case : String → ScoreCase
case text = record {
  identity = "case";
  case_id = "walk";
  source_family = "walks";
  artifact = record {
    sha256 = "units";
    units = record { unit_id = "body"; is_social_post = false; content = text } ∷ [];
  };
  rubric = record {
    rubric_id = "rubric";
    version = "1";
    checks =
        Check.nonempty (base "text" Applicability.required)
        ∷ Check.length (base "size" Applicability.required)
            (record { unit_id = none; min_chars = some 5; max_chars = some 40 })
        ∷ Check.required_literal (base "walk" Applicability.required)
            (record { unit_id = some "body"; literal = "walk" })
        ∷ Check.forbidden_literal (base "run" Applicability.required)
            (record { unit_id = none; literal = "run" })
        ∷ Check.citation (base "cited" Applicability.required)
            (record { span = said; source_id = "map"; relevance = Relevance.relevant })
        ∷ Check.fact (base "distance" Applicability.required) distance
        ∷ Check.required_literal (base "title" Applicability.optional)
            (record { unit_id = none; literal = "Title" })
        ∷ [];
  };
  sources_state = Inventory.complete;
  sources = record { source_id = "map"; text = "12 km in all"; sha256 = "text" } ∷ [];
  reference = record {
    binding = record { artifact_sha256 = "units"; rubric_id = "rubric"; rubric_version = "1" };
    producer = none;
    basis = none;
    independence = Independence.unknown;
    acceptability = Acceptability.unknown;
    defect_inventory = Inventory.unavailable;
    defects = [];
  };
  review = none;
  alignment = none;
}

program : Unit {0}
unfolding has_text verdict_of deterministic_of score_deterministic valid_case
program = tt

walk : valid_case digests (case "It is 12 km to walk.") ≡ true
unfolding program
walk = refl

-- The optional check fails, and the outcome is a pass.
walk-pass : (deterministic_of (case "It is 12 km to walk.")).outcome ≡ pass
unfolding program
walk-pass = refl

-- The quote is at another place.
moved-invalid :
    (deterministic_of (case "It is, so to say, 12 km to walk.")).outcome ≡ CheckOutcome.invalid
unfolding program
moved-invalid = refl

run-fail : (deterministic_of (case "It is 12 km to walk or run.")).outcome ≡ CheckOutcome.fail
unfolding program
run-fail = refl

score_deterministic-Passes_example :
    (d : Deterministic) × (score_deterministic digests (case "It is 12 km to walk.") ≡ ok d)
    × (length d.checks ≡ 7)
    × (state_total d.states ≡ 7)
    × ((d.outcome ≡ pass) ↔ Passes (case "It is 12 km to walk."))
score_deterministic-Passes_example =
    score_deterministic-Passes digests (case "It is 12 km to walk.") walk

evaluate-Holds_example :
    ((evaluate
        (evidence_of (case "It is 12 km to walk."))
        (Check.fact (base "distance" Applicability.required) distance)).0
      ≡ CheckState.pass)
    ↔ (Applies (Check.fact (base "distance" Applicability.required) distance)
        × WrittenIn (evidence_of (case "It is 12 km to walk.")).texts
        × Holds
            (evidence_of (case "It is 12 km to walk.")).texts
            (evidence_of (case "It is 12 km to walk.")).sources
            (Check.fact (base "distance" Applicability.required) distance))
evaluate-Holds_example =
    evaluate-Holds (case "It is 12 km to walk.")
      (Check.fact (base "distance" Applicability.required) distance) refl

order : 6 ≤ 11
order = omega arith

span_matches-IsQuoted_example :
    (span_matches said (("body", "It is 12 km.") ∷ []) ≡ true) ↔ IsQuoted said "It is 12 km."
span_matches-IsQuoted_example =
    span_matches-IsQuoted said (("body", "It is 12 km.") ∷ []) "It is 12 km." order refl
