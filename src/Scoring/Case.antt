-- ===== src/Scoring/Case.antt =====
-- src/draftbench/scoring/models.py: what is scored. The patterns and lengths of strings, and the
-- digests of texts, are checked by the data model's library.
use llm_draftbench.Prelude.{ℕ, String, Bool, Option, List}

pub data CheckState : Type 0 where
  pass fail unknown inapplicable invalid : CheckState

pub data Applicability : Type 0 where
  required optional inapplicable : Applicability

pub data Basis : Type 0 where
  historical_exact reconstructed synthetic : Basis

pub data Independence : Type 0 where
  independent same_system unknown : Independence

pub data AssertionMode : Type 0 where
  asserted hypothetical fictional : AssertionMode

pub data ProducerKind : Type 0 where
  human model workflow synthetic : ProducerKind

pub data Acceptability : Type 0 where
  acceptable unacceptable unknown : Acceptability

pub data Inventory : Type 0 where
  complete partial unavailable : Inventory

pub data Severity : Type 0 where
  critical major minor suggestion : Severity

pub data FindingKind : Type 0 where
  defect suggestion : FindingKind

-- `ReviewerAssessment.decision`
pub data Decision : Type 0 where
  pass edit block abstain error : Decision

pub data ObservationState : Type 0 where
  known unknown unavailable inapplicable : ObservationState

pub record Observation : Type 0 where
  pub state : ObservationState
  pub value : Option String

pub record Producer : Type 0 where
  pub kind : ProducerKind
  pub name : Observation
  pub version : Observation
  pub requested_model : Observation
  pub served_model : Observation

pub record ScoringUnit : Type 0 where
  pub unit_id : String
  pub is_social_post : Bool
  pub content : String

pub record ScoringArtifact : Type 0 where
  pub sha256 : String
  pub units : List ScoringUnit

pub record Binding : Type 0 where
  pub artifact_sha256 : String
  pub rubric_id : String
  pub rubric_version : String

pub record Span : Type 0 where
  pub item_id : String
  pub start : ℕ
  pub end : ℕ
  pub quote : String

-- The fields that every check has.
pub record CheckBase : Type 0 where
  pub check_id : String
  pub applicability : Applicability

pub data Relevance : Type 0 where
  relevant irrelevant unknown : Relevance

pub record LengthCheck : Type 0 where
  pub unit_id : Option String
  pub min_chars : Option ℕ
  pub max_chars : Option ℕ

pub record LiteralCheck : Type 0 where
  pub unit_id : Option String
  pub literal : String

pub record CitationCheck : Type 0 where
  pub span : Span
  pub source_id : String
  pub relevance : Relevance

pub record FactCheck : Type 0 where
  pub span : Span
  pub observed_value : String
  pub observed_unit : Option String
  pub source_id : Option String
  pub reference_span : Option Span
  pub expected_value : Option String
  pub expected_unit : Option String
  pub relevance : Relevance
  pub assertion_mode : AssertionMode
  pub authorized_nonfactual : Bool

-- The two kinds of `LiteralCheck` have a constructor each.
pub data Check : Type 0 where
  nonempty : CheckBase → Check
  length : CheckBase → LengthCheck → Check
  required_literal forbidden_literal : CheckBase → LiteralCheck → Check
  citation : CheckBase → CitationCheck → Check
  fact : CheckBase → FactCheck → Check

pub record Rubric : Type 0 where
  pub rubric_id : String
  pub version : String
  pub checks : List Check

pub record Finding : Type 0 where
  pub finding_id : String
  pub kind : FindingKind
  pub category : String
  pub severity : Severity
  pub span : Option Span

pub record Reference : Type 0 where
  pub binding : Binding
  pub producer : Option Producer
  pub basis : Option Basis
  pub independence : Independence
  pub acceptability : Acceptability
  pub defect_inventory : Inventory
  pub defects : List Finding

pub record ReviewCheck : Type 0 where
  pub check_id : String
  pub state : CheckState

pub record ReviewerAssessment : Type 0 where
  pub binding : Binding
  pub producer : Producer
  pub decision : Decision
  pub checks : List ReviewCheck
  pub findings : List Finding

-- `FindingJudgment.state`
pub data JudgmentState : Type 0 where
  matched spurious ambiguous unassessed : JudgmentState

pub record FindingJudgment : Type 0 where
  pub finding_id : String
  pub state : JudgmentState
  pub defect_ids : List String

pub record Alignment : Type 0 where
  pub binding : Binding
  pub producer : Option Producer
  pub basis : Option Basis
  pub independence : Independence
  pub judgments : List FindingJudgment

pub record EvidenceSource : Type 0 where
  pub source_id : String
  pub text : String
  pub sha256 : String

pub record ScoreCase : Type 0 where
  pub identity : String
  pub case_id : String
  pub source_family : String
  pub artifact : ScoringArtifact
  pub rubric : Rubric
  pub sources_state : Inventory
  pub sources : List EvidenceSource
  pub reference : Reference
  pub review : Option ReviewerAssessment
  pub alignment : Option Alignment
