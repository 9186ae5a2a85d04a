-- ===== src/Scoring/Cohort.antt =====
-- src/draftbench/scoring/decisions.py and models.py: `score_decisions`. SHA-256 of a key's canonical
-- bytes is a parameter, and so are the digests of a case.
use llm_draftbench.Prelude.{
  ℕ, suc, ◌+◌, String, Bool, true, false, Option, none, some, List, [], ◌∷◌, ◌||◌, map, leb, is_nil,
  length, if◌then◌else◌, Result, ok, guard, ◌>>=◌, ◌>>◌,
}
use llm_draftbench.Prelude.Text.{member, distinct}
use llm_draftbench.Scoring.Case.{Acceptability, Decision, ScoreCase}
use llm_draftbench.Scoring.Decisions.{
  Effective, pass, edit, block, abstain, measurement_error, assess,
}
use llm_draftbench.Scoring.Valid.{Digests, validated_case}
use llm_draftbench.Scoring.Rate.{
  ScoringError, duplicate_scoring_id, mixed_scoring_cohort, Rate, rate,
}
use llm_draftbench.Scoring.Scope.{
  Scope, unassessed, is_assessed, scope_of, CohortView, ObservationView, cohort_view,
  observation_view,
}

-- raw_decisions; `missing` is a case with no review.
pub record RawTally : Type 0 where
  pub pass : ℕ
  pub edit : ℕ
  pub block : ℕ
  pub abstain : ℕ
  pub error : ℕ
  pub missing : ℕ

-- The counters of the loop.
pub record Tally : Type 0 where
  pub passes : ℕ
  pub edits : ℕ
  pub blocks : ℕ
  pub abstentions : ℕ
  pub measurement_errors : ℕ
  pub gold_acceptable : ℕ
  pub gold_unacceptable : ℕ
  pub gold_unknown : ℕ
  pub passed_known : ℕ
  pub passed_unknown : ℕ
  pub invalid_passes : ℕ
  pub false_passes : ℕ
  pub false_blocks : ℕ
  pub raw : RawTally

abbrev pub no_tally : Tally
no_tally = record {
  passes = 0;
  edits = 0;
  blocks = 0;
  abstentions = 0;
  measurement_errors = 0;
  gold_acceptable = 0;
  gold_unacceptable = 0;
  gold_unknown = 0;
  passed_known = 0;
  passed_unknown = 0;
  invalid_passes = 0;
  false_passes = 0;
  false_blocks = 0;
  raw = record { pass = 0; edit = 0; block = 0; abstain = 0; error = 0; missing = 0 };
}

abbrev pub raw_pass : Option Decision → Bool
raw_pass (some Decision.pass) = true
raw_pass _ = false

-- raw_decisions[raw] += 1
abbrev pub tally_raw : Option Decision → RawTally → RawTally
tally_raw none t = record t { missing = suc t.missing }
tally_raw (some Decision.pass) t = record t { pass = suc t.pass }
tally_raw (some Decision.edit) t = record t { edit = suc t.edit }
tally_raw (some Decision.block) t = record t { block = suc t.block }
tally_raw (some Decision.abstain) t = record t { abstain = suc t.abstain }
tally_raw (some Decision.error) t = record t { error = suc t.error }

abbrev pub raw_of : ScoreCase → Option Decision
raw_of c = elim c.review [ none ↦ none | some r ↦ some r.decision ]

-- decisions[effective] += 1, with `invalid_passes`.
abbrev pub tally_decision : Effective → Bool → Tally → Tally
tally_decision pass raw t = record t { passes = suc t.passes }
tally_decision edit raw t = record t { edits = suc t.edits }
tally_decision block raw t = record t { blocks = suc t.blocks }
tally_decision abstain raw t = record t { abstentions = suc t.abstentions }
tally_decision measurement_error raw t = record t {
  measurement_errors = suc t.measurement_errors;
  invalid_passes = if raw then suc t.invalid_passes else t.invalid_passes;
}

-- counts[f"gold_{gold}"] += 1
abbrev pub tally_gold : Acceptability → Tally → Tally
tally_gold Acceptability.acceptable t = record t { gold_acceptable = suc t.gold_acceptable }
tally_gold Acceptability.unacceptable t = record t { gold_unacceptable = suc t.gold_unacceptable }
tally_gold Acceptability.unknown t = record t { gold_unknown = suc t.gold_unknown }

abbrev pub tally_risk : Effective → Acceptability → Tally → Tally
tally_risk pass Acceptability.unknown t = record t { passed_unknown = suc t.passed_unknown }
tally_risk pass Acceptability.acceptable t = record t { passed_known = suc t.passed_known }
tally_risk pass Acceptability.unacceptable t = record t {
  passed_known = suc t.passed_known;
  false_passes = suc t.false_passes;
}
tally_risk edit Acceptability.acceptable t = record t { false_blocks = suc t.false_blocks }
tally_risk block Acceptability.acceptable t = record t { false_blocks = suc t.false_blocks }
tally_risk _ _ t = t

abbrev pub tally_case : Bool → ScoreCase → Tally → Tally
tally_case assessed c t =
    let gold = if assessed then c.reference.acceptability else Acceptability.unknown in
    let seen = record t { raw = tally_raw (raw_of c) t.raw } in
    tally_risk (assess c) gold
      (tally_gold gold (tally_decision (assess c) (raw_pass (raw_of c)) seen))

unfoldable pub tally : Bool → List ScoreCase → Tally → Tally
tally assessed [] t = t
tally assessed (c ∷ cs) t = tally assessed cs (tally_case assessed c t)

abbrev pub cohort_scope : List ScoreCase → Scope
cohort_scope [] = unassessed
cohort_scope (c ∷ cs) = scope_of c.reference

pub record Scores : Type 0 where
  pub reference_scope : Scope
  pub case_count : ℕ
  pub source_family_count : ℕ
  pub counts : Tally
  pub false_pass_rate : Rate
  pub false_block_rate : Rate
  pub accepted_set_risk : Rate
  pub decision_coverage : Rate
  pub abstention_rate : Rate
  pub measurement_error_rate : Rate

-- The number of distinct names.
abbrev pub distinct_count : List String → ℕ
distinct_count [] = 0
distinct_count (x ∷ xs) = if member x xs then distinct_count xs else suc (distinct_count xs)

unfoldable pub metrics : Scope → Bool → List ScoreCase → Tally → Result ScoringError Scores
metrics scope assessed cases t = do
  false_pass ← rate t.false_passes t.gold_unacceptable assessed
  false_block ← rate t.false_blocks t.gold_acceptable assessed
  risk ← rate t.false_passes t.passed_known assessed
  coverage ← rate (t.passes + t.edits + t.blocks) (length cases) true
  abstentions ← rate t.abstentions (length cases) true
  errors ← rate t.measurement_errors (length cases) true
  ok (record {
    reference_scope = scope;
    case_count = length cases;
    source_family_count = distinct_count (map (λ c. c.source_family) cases);
    counts = t;
    false_pass_rate = false_pass;
    false_block_rate = false_block;
    accepted_set_risk = risk;
    decision_coverage = coverage;
    abstention_rate = abstentions;
    measurement_error_rate = errors;
  })

module _ (digests : Digests) where
  -- `[validated_case(case) for case in cases]`
  abbrev pub validated_cases : List ScoreCase → Result ScoringError (List ScoreCase)
  validated_cases [] = ok []
  validated_cases (c ∷ cs) = do
    valid ← validated_case digests c
    rest ← validated_cases cs
    ok (valid ∷ rest)

module _ (cohort_identity : CohortView → String)
    (observation_identity : ObservationView → String) where
  -- `unique` of the cases' names and observations, and one cohort at most.
  abbrev pub check_cohort : List ScoreCase → Result ScoringError (Unit {0})
  check_cohort cases = do
    guard (distinct (map (λ c. c.case_id) cases)) duplicate_scoring_id
    guard (leb (distinct_count (map (λ c. cohort_identity (cohort_view c)) cases)) 1)
        mixed_scoring_cohort
    guard (distinct (map (λ c. observation_identity (observation_view c)) cases))
        duplicate_scoring_id

  unfoldable pub score_decisions : Digests → List ScoreCase → Result ScoringError Scores
  score_decisions digests given = do
    cases ← validated_cases digests given
    check_cohort cases
    let scope = cohort_scope cases
    metrics scope (is_assessed scope || is_nil cases) cases
        (tally (is_assessed scope) cases no_tally)
