-- ===== src/Scoring/Scope.antt =====
-- src/draftbench/scoring/models.py: `reference_scope`, and what the keys of a case hash.
use llm_draftbench.Prelude.{ℕ, nat_eq, String, Bool, true, false, Option, none, some, List}
use llm_draftbench.Prelude.Sorting.{sort_by}
use llm_draftbench.Scoring.Case.{
  Basis, Independence, ProducerKind, Inventory, Producer, Rubric, EvidenceSource, Reference,
  ScoreCase,
}

pub data Scope : Type 0 where
  unassessed synthetic_reference self_agreement human_reference : Scope
  auxiliary_model_agreement workflow_agreement : Scope

abbrev pub is_synthetic : Option Basis → Bool
is_synthetic (some Basis.synthetic) = true
is_synthetic _ = false

abbrev pub scope_of_kind : ProducerKind → Scope
scope_of_kind ProducerKind.human = human_reference
scope_of_kind ProducerKind.model = auxiliary_model_agreement
scope_of_kind ProducerKind.workflow = workflow_agreement
scope_of_kind ProducerKind.synthetic = synthetic_reference

-- What is left once a producer is there and the independence is known.
abbrev pub scope_from : Bool → Bool → ProducerKind → Scope
scope_from true same kind = synthetic_reference
scope_from false same ProducerKind.synthetic = synthetic_reference
scope_from false true kind = self_agreement
scope_from false false kind = scope_of_kind kind

abbrev pub reference_scope : Option Producer → Option Basis → Independence → Scope
reference_scope none _ _ = unassessed
reference_scope (some p) basis Independence.unknown = unassessed
reference_scope (some p) basis Independence.same_system =
    scope_from (is_synthetic basis) true p.kind
reference_scope (some p) basis Independence.independent =
    scope_from (is_synthetic basis) false p.kind

abbrev pub scope_of : Reference → Scope
scope_of r = reference_scope r.producer r.basis r.independence

abbrev pub is_assessed : Scope → Bool
is_assessed unassessed = false
is_assessed _ = true

abbrev pub scope_code : Scope → ℕ
scope_code unassessed = 0
scope_code synthetic_reference = 1
scope_code self_agreement = 2
scope_code human_reference = 3
scope_code auxiliary_model_agreement = 4
scope_code workflow_agreement = 5

-- Equality of the names of scopes.
abbrev pub same_scope : Scope → Scope → Bool
same_scope a b = nat_eq (scope_code a) (scope_code b)

-- What `cohort_key` and `observation_key` hash.
pub record CohortView : Type 0 where
  pub rubric_id : String
  pub rubric_version : String
  pub reviewer : Option Producer
  pub reference_scope : Scope
  pub reference_producer : Option Producer
  pub reference_basis : Option Basis

pub record ObservationView : Type 0 where
  pub artifact_sha256 : String
  pub rubric : Rubric
  pub sources_state : Inventory
  pub sources : List EvidenceSource
  pub reviewer : Option Producer

abbrev pub reviewer_of : ScoreCase → Option Producer
reviewer_of c = elim c.review [ none ↦ none | some r ↦ some r.producer ]

abbrev pub cohort_view : ScoreCase → CohortView
cohort_view c = record {
  rubric_id = c.rubric.rubric_id;
  rubric_version = c.rubric.version;
  reviewer = reviewer_of c;
  reference_scope = scope_of c.reference;
  reference_producer = c.reference.producer;
  reference_basis = c.reference.basis;
}

abbrev pub observation_view : ScoreCase → ObservationView
observation_view c = record {
  artifact_sha256 = c.artifact.sha256;
  rubric = c.rubric;
  sources_state = c.sources_state;
  sources = sort_by (λ s. s.source_id) c.sources;
  reviewer = reviewer_of c;
}
