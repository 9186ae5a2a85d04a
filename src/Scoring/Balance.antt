-- ===== src/Scoring/Balance.antt =====
-- src/draftbench/scoring/decisions.py: the counters of `score_decisions` agree.
use llm_draftbench.Prelude.{
  is_nil, all, and-parts, ℕ, suc, ◌+◌, ◌≤◌, String, Bool, true, Option, none, some, List, [], ◌∷◌,
  length, ◌≡◌, refl, arith, ok, map, subst, sym, ◌||◌, if◌then◌else◌,
}
use llm_draftbench.Scoring.Case.{Acceptability, Decision, ScoreCase}
use llm_draftbench.Scoring.Decisions.{
  Effective, pass, edit, block, abstain, measurement_error, assess,
}
use llm_draftbench.Scoring.Scope.{Scope, CohortView, ObservationView, is_assessed}
use llm_draftbench.Scoring.Valid.{Digests, valid_case}
use llm_draftbench.Scoring.Rate.{rate_of, rate_lem}
use llm_draftbench.Scoring.Cohort.{
  RawTally, Tally, tally_raw, raw_of, raw_pass, tally_decision, tally_gold, tally_risk, tally_case,
  tally, no_tally, Scores, metrics, validated_cases, distinct_count, check_cohort, score_decisions,
  cohort_scope,
}

abbrev pub raw_total : RawTally → ℕ
raw_total r = r.pass + r.edit + r.block + r.abstain + r.error + r.missing

-- Each case is counted once in each group, and each part is within its whole.
pub record IsBalanced (n : ℕ) (t : Tally) : Type 0 where
  pub decided : t.passes + t.edits + t.blocks + t.abstentions + t.measurement_errors ≡ n
  pub raws : raw_total t.raw ≡ n
  pub golds : t.gold_acceptable + t.gold_unacceptable + t.gold_unknown ≡ n
  pub passed : t.passed_known + t.passed_unknown ≡ t.passes
  pub risky : t.false_passes ≤ t.passed_known
  pub wrong : t.false_passes ≤ t.gold_unacceptable
  pub blocked : t.false_blocks ≤ t.gold_acceptable
  pub stopped : t.false_blocks ≤ t.edits + t.blocks
  pub void : t.invalid_passes ≤ t.measurement_errors

raw_total-tally_raw :
    (d : Option Decision) (r : RawTally) → raw_total (tally_raw d r) ≡ suc (raw_total r)
raw_total-tally_raw none r = omega arith
raw_total-tally_raw (some Decision.pass) r = omega arith
raw_total-tally_raw (some Decision.edit) r = omega arith
raw_total-tally_raw (some Decision.block) r = omega arith
raw_total-tally_raw (some Decision.abstain) r = omega arith
raw_total-tally_raw (some Decision.error) r = omega arith

abbrev tally_step : Effective → Acceptability → Option Decision → Tally → Tally
tally_step e g d t =
    tally_risk e g
      (tally_gold g (tally_decision e (raw_pass d) (record t { raw = tally_raw d t.raw })))

step-IsBalanced :
    (e : Effective) (g : Acceptability) (d : Option Decision) (n : ℕ) (t : Tally)
    → IsBalanced n t
    → IsBalanced (suc n) (tally_step e g d t)
step-IsBalanced pass Acceptability.acceptable d n t b = ground (arith, raw_total-tally_raw d t.raw)
step-IsBalanced pass Acceptability.unacceptable d n t b =
    ground (arith, raw_total-tally_raw d t.raw)
step-IsBalanced pass Acceptability.unknown d n t b = ground (arith, raw_total-tally_raw d t.raw)
step-IsBalanced edit g d n t b = ground (arith, raw_total-tally_raw d t.raw)
step-IsBalanced block g d n t b = ground (arith, raw_total-tally_raw d t.raw)
step-IsBalanced abstain g d n t b = ground (arith, raw_total-tally_raw d t.raw)
step-IsBalanced measurement_error g d n t b = ground (arith, raw_total-tally_raw d t.raw)

pub tally-IsBalanced :
    (assessed : Bool) (cases : List ScoreCase) (n : ℕ) (t : Tally)
    → IsBalanced n t
    → IsBalanced (length cases + n) (tally assessed cases t)
unfolding tally
tally-IsBalanced assessed [] n t b = subst (λ m. IsBalanced m t) (omega arith) b
tally-IsBalanced assessed (c ∷ cs) n t b =
    subst (λ m. IsBalanced m (tally assessed (c ∷ cs) t)) (omega arith)
      (tally-IsBalanced assessed cs (suc n) (tally_case assessed c t) (
        step-IsBalanced (assess c)
          (if assessed then c.reference.acceptability else Acceptability.unknown) (raw_of c) n t b))

pub IsBalanced-no_tally : IsBalanced 0 no_tally
IsBalanced-no_tally = ground arith

scores_of : Scope → Bool → List ScoreCase → Tally → Scores
scores_of scope assessed cases t = record {
  reference_scope = scope;
  case_count = length cases;
  source_family_count = distinct_count (map (λ c. c.source_family) cases);
  counts = t;
  false_pass_rate = rate_of t.false_passes t.gold_unacceptable assessed;
  false_block_rate = rate_of t.false_blocks t.gold_acceptable assessed;
  accepted_set_risk = rate_of t.false_passes t.passed_known assessed;
  decision_coverage = rate_of (t.passes + t.edits + t.blocks) (length cases) true;
  abstention_rate = rate_of t.abstentions (length cases) true;
  measurement_error_rate = rate_of t.measurement_errors (length cases) true;
}

metrics-IsBalanced :
    (scope : Scope) (assessed : Bool) (cases : List ScoreCase) (t : Tally)
    → IsBalanced (length cases) t
    → (s : Scores) × (metrics scope assessed cases t ≡ ok s) × (s.counts ≡ t)
unfolding metrics scores_of rate_of
metrics-IsBalanced scope assessed cases t b = (
  scores_of scope assessed cases t,
  rw
      (
        rate_lem t.false_passes t.gold_unacceptable assessed b.wrong,
        rate_lem t.false_blocks t.gold_acceptable assessed b.blocked,
        rate_lem t.false_passes t.passed_known assessed b.risky,
        rate_lem (t.passes + t.edits + t.blocks) (length cases) true (omega (arith, b.decided)),
        rate_lem t.abstentions (length cases) true (omega (arith, b.decided)),
        rate_lem t.measurement_errors (length cases) true (omega (arith, b.decided)),
      )
      refl,
  refl,
)

valid-validated_cases :
    (digests : Digests) (cases : List ScoreCase)
    → all (valid_case digests) cases ≡ true
    → validated_cases digests cases ≡ ok cases
valid-validated_cases digests [] h = refl
valid-validated_cases digests (c ∷ cs) h =
    let (valid, rest) = and-parts (valid_case digests c) (all (valid_case digests) cs) h in
    rw (valid, valid-validated_cases digests cs rest) refl

-- `score_decisions` returns for every cohort of distinct cases that the validators let pass: none of
-- its six rates raises. Each case is counted once among the effective decisions, once among the raw
-- ones and once among the labels, and no risk is larger than what it is a part of.
pub score_decisions-IsBalanced :
    (cohort_identity : CohortView → String) (observation_identity : ObservationView → String)
    (digests : Digests) (cases : List ScoreCase)
    → all (valid_case digests) cases ≡ true
    → check_cohort cohort_identity observation_identity cases ≡ ok tt
    → (s : Scores) × (score_decisions cohort_identity observation_identity digests cases ≡ ok s)
      × IsBalanced (length cases) s.counts
unfolding score_decisions
score_decisions-IsBalanced cohort_identity observation_identity digests cases valid fine =
    let assessed = is_assessed (cohort_scope cases) in
    let b =
      subst (λ n. IsBalanced n (tally assessed cases no_tally)) (omega arith)
        (tally-IsBalanced assessed cases 0 no_tally IsBalanced-no_tally) in
    let (s, scored, same) =
      metrics-IsBalanced (cohort_scope cases) (assessed || is_nil cases) cases _ b in
    (
      s,
      rw (valid-validated_cases digests cases valid, fine) scored,
      subst (IsBalanced (length cases)) (sym same) b,
    )
