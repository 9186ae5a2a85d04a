-- ===== src/Scoring/Valid.antt =====
-- src/draftbench/scoring/models.py and models.py: the validators that a case has passed. The
-- digests of texts, units and cases are parameters; the patterns and lengths of strings are left to
-- the data model's library.
use llm_draftbench.Prelude.{
  ℕ, String, Bool, true, false, Option, none, some, List, [], ◌∷◌, map, not, ◌&&◌, ◌||◌, ◌==◌, ltb,
  leb, nat_eq, is_nil, all, length, Result, ok, guard, ◌>>◌,
}
use llm_draftbench.Prelude.Text.{member, distinct}
use llm_draftbench.Scoring.Case.{
  ProducerKind, Acceptability, Inventory, Severity, FindingKind, ObservationState, Observation,
  Producer, ScoringUnit, ScoringArtifact, Binding, Span, LengthCheck, Check, Rubric, Finding,
  Reference, ReviewerAssessment, JudgmentState, FindingJudgment, Alignment, EvidenceSource,
  ScoreCase,
}
use llm_draftbench.Scoring.Decisions.{base_of}
use llm_draftbench.Scoring.Rate.{ScoringError, validation_error}

-- SHA-256 over canonical bytes.
pub record Digests : Type 0 where
  pub artifact_digest : List ScoringUnit → String
  pub text_digest : String → String
  pub case_identity : ScoreCase → String

-- `a == b`, of two conditions.
abbrev pub same_test : Bool → Bool → Bool
same_test true b = b
same_test false b = not b

abbrev pub is_absent {ℓ} : {A : Type ℓ} → Option A → Bool
is_absent none = true
is_absent (some a) = false

-- A check of a field that may be missing.
abbrev pub if_some {ℓ} : {A : Type ℓ} → (A → Bool) → Option A → Bool
if_some p none = true
if_some p (some a) = p a

-- `Index`
abbrev pub is_index : ℕ → Bool
is_index n = leb n 100000

abbrev pub is_known : ObservationState → Bool
is_known ObservationState.known = true
is_known _ = false

abbrev pub is_inapplicable : ObservationState → Bool
is_inapplicable ObservationState.inapplicable = true
is_inapplicable _ = false

abbrev pub is_model : ProducerKind → Bool
is_model ProducerKind.model = true
is_model _ = false

-- `Observation.observation`
abbrev pub valid_observation : Observation → Bool
valid_observation o = same_test (is_known o.state) (not (is_absent o.value))

-- `Producer.model_provenance`; a name or a version is never inapplicable.
abbrev pub valid_producer : Producer → Bool
valid_producer p =
    all valid_observation (p.name ∷ p.version ∷ p.requested_model ∷ p.served_model ∷ [])
    && all (λ o. not (is_inapplicable o.state)) (p.name ∷ p.version ∷ [])
    && all (λ o. same_test (not (is_model p.kind)) (is_inapplicable o.state))
        (p.requested_model ∷ p.served_model ∷ [])

-- `Span.bounds`
abbrev pub valid_span : Span → Bool
valid_span s = ltb s.start s.end && is_index s.end

-- `LengthCheck.limits`
abbrev pub valid_limits : LengthCheck → Bool
valid_limits k =
    not (is_absent k.min_chars && is_absent k.max_chars)
    && if_some is_index k.min_chars
    && if_some is_index k.max_chars
    && elim k.min_chars [
      | none ↦ true
      | some low ↦ elim k.max_chars [ none ↦ true | some high ↦ leb low high ]
    ]

abbrev pub valid_check : Check → Bool
valid_check (Check.nonempty b) = true
valid_check (Check.length b k) = valid_limits k
valid_check (Check.required_literal b k) = true
valid_check (Check.forbidden_literal b k) = true
valid_check (Check.citation b k) = valid_span k.span
valid_check (Check.fact b k) = valid_span k.span && if_some valid_span k.reference_span

abbrev pub check_ids : List Check → List String
check_ids checks = map (λ k. (base_of k).check_id) checks

-- `Rubric.identifiers`
abbrev pub valid_rubric : Rubric → Bool
valid_rubric r =
    leb (length r.checks) 256 && all valid_check r.checks && distinct (check_ids r.checks)

abbrev pub is_suggestion : FindingKind → Bool
is_suggestion FindingKind.suggestion = true
is_suggestion FindingKind.defect = false

abbrev pub suggests : Severity → Bool
suggests Severity.suggestion = true
suggests _ = false

abbrev pub finding_ids : List Finding → List String
finding_ids findings = map (λ f. f.finding_id) findings

-- `Finding.suggestion`
abbrev pub valid_finding : Finding → Bool
valid_finding f =
    if_some valid_span f.span && same_test (is_suggestion f.kind) (suggests f.severity)

abbrev pub valid_findings : List Finding → Bool
valid_findings fs = leb (length fs) 512 && all valid_finding fs && distinct (finding_ids fs)

abbrev pub is_unavailable : Inventory → Bool
is_unavailable Inventory.unavailable = true
is_unavailable _ = false

abbrev pub is_undecided : Acceptability → Bool
is_undecided Acceptability.unknown = true
is_undecided _ = false

-- `Reference.provenance`
abbrev pub valid_reference : Reference → Bool
valid_reference r =
    if_some valid_producer r.producer
    && same_test (is_absent r.producer) (is_absent r.basis)
    && (not (is_absent r.producer)
        || is_undecided r.acceptability && is_unavailable r.defect_inventory)
    && (not (is_unavailable r.defect_inventory) || is_nil r.defects)
    && all (λ f. not (is_suggestion f.kind)) r.defects
    && valid_findings r.defects

-- `ReviewerAssessment.identifiers`
abbrev pub valid_review : ReviewerAssessment → Bool
valid_review r =
    valid_producer r.producer
    && leb (length r.checks) 256
    && distinct (map (λ k. k.check_id) r.checks)
    && valid_findings r.findings

abbrev pub is_matched : JudgmentState → Bool
is_matched JudgmentState.matched = true
is_matched _ = false

abbrev pub is_spurious : JudgmentState → Bool
is_spurious JudgmentState.spurious = true
is_spurious _ = false

-- `FindingJudgment.shape`
abbrev pub valid_judgment : FindingJudgment → Bool
valid_judgment j =
    leb (length j.defect_ids) 512
    && distinct j.defect_ids
    && (not (is_matched j.state) || nat_eq (length j.defect_ids) 1)
    && (not (is_spurious j.state) || is_nil j.defect_ids)

-- `Alignment.provenance`
abbrev pub valid_alignment : Alignment → Bool
valid_alignment a =
    if_some valid_producer a.producer
    && same_test (is_absent a.producer) (is_absent a.basis)
    && (not (is_absent a.producer) || is_nil a.judgments)
    && leb (length a.judgments) 512
    && all valid_judgment a.judgments
    && distinct (map (λ j. j.finding_id) a.judgments)

abbrev pub same_binding : Binding → Binding → Bool
same_binding a b =
    a.artifact_sha256 == b.artifact_sha256
    && a.rubric_id == b.rubric_id
    && a.rubric_version == b.rubric_version

abbrev pub expected_binding : ScoreCase → Binding
expected_binding c = record {
  artifact_sha256 = c.artifact.sha256;
  rubric_id = c.rubric.rubric_id;
  rubric_version = c.rubric.version;
}

-- What a review names is there: its checks in the rubric.
abbrev pub knows_checks : ScoreCase → ReviewerAssessment → Bool
knows_checks c r = all (λ k. member k.check_id (check_ids c.rubric.checks)) r.checks

-- The findings that a review may align.
abbrev pub review_findings : ScoreCase → List Finding
review_findings c = elim c.review [ none ↦ [] | some r ↦ r.findings ]

-- A judgment names a finding of the review and defects of the reference.
abbrev pub knows_findings : ScoreCase → FindingJudgment → Bool
knows_findings c j =
    member j.finding_id (finding_ids (review_findings c))
    && all (λ d. member d (finding_ids c.reference.defects)) j.defect_ids

-- `ScoreCase.bindings`
abbrev pub valid_bindings : ScoreCase → Bool
valid_bindings c =
    distinct (map (λ s. s.source_id) c.sources)
    && (not (is_unavailable c.sources_state) || is_nil c.sources)
    && same_binding c.reference.binding (expected_binding c)
    && if_some (λ r. same_binding r.binding (expected_binding c)) c.review
    && if_some (λ a. same_binding a.binding (expected_binding c)) c.alignment
    && if_some (knows_checks c) c.review
    && if_some (λ a. all (knows_findings c) a.judgments) c.alignment

module _ (digests : Digests) where
  -- `ScoringArtifact.integrity`
  abbrev pub valid_artifact : ScoringArtifact → Bool
  valid_artifact a =
      leb (length a.units) 256
      && distinct (map (λ u. u.unit_id) a.units)
      && a.sha256 == digests.artifact_digest a.units

  -- `EvidenceSource.integrity`
  abbrev pub valid_source : EvidenceSource → Bool
  valid_source s = digests.text_digest s.text == s.sha256

  abbrev pub valid_fields : ScoreCase → Bool
  valid_fields c =
      (valid_artifact c.artifact && leb (length c.sources) 256 && all valid_source c.sources)
      && (valid_rubric c.rubric
          && (valid_reference c.reference
              && (if_some valid_review c.review && if_some valid_alignment c.alignment)))

  -- All validators of `ScoreCase`, its fields' first.
  unfoldable pub valid_case : ScoreCase → Bool
  valid_case c = valid_fields c && (digests.case_identity c == c.identity && valid_bindings c)

  -- `validated_case`
  abbrev pub validated_case : ScoreCase → Result ScoringError ScoreCase
  validated_case c = do guard (valid_case c) validation_error; ok c
