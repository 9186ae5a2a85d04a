-- ===== src/Scoring/Checks/Deterministic.antt =====
-- src/draftbench/scoring/deterministic.py: `score_deterministic`.
use llm_draftbench.Prelude.{
  ℕ, suc, String, Bool, true, false, List, [], ◌∷◌, map, not, ◌||◌, any, is_nil, if◌then◌else◌,
  Result, ok, ◌>>=◌,
}
use llm_draftbench.Prelude.Text.{member}
use llm_draftbench.Scoring.Case.{CheckState, Applicability, Inventory, Check, ScoreCase}
use llm_draftbench.Scoring.Decisions.{has_text, unit_texts, is_free, base_of, required_check_ids}
use llm_draftbench.Scoring.Rate.{ScoringError}
use llm_draftbench.Scoring.Valid.{Digests, validated_case}
use llm_draftbench.Scoring.Checks.Verdicts.{
  Reason, Verdict, verdict_of, declared_inapplicable, authorized_nonfactual, empty_artifact,
}

abbrev pub is_declared : Applicability → Bool
is_declared Applicability.inapplicable = true
is_declared _ = false

-- What a check is decided from: the state of the sources, the units' texts and the sources'.
pub record Evidence : Type 0 where
  pub state : Inventory
  pub texts : List (String × String)
  pub sources : List (String × String)
  pub empty : Bool

abbrev pub evidence_of : ScoreCase → Evidence
evidence_of c = record {
  state = c.sources_state;
  texts = unit_texts c;
  sources = map (λ s. (s.source_id, s.text)) c.sources;
  empty = not (any (λ t. has_text t.1) (unit_texts c));
}

-- `_evaluate`
unfoldable pub evaluate : Evidence → Check → Verdict
unfolding verdict_of
evaluate e k =
    if is_declared (base_of k).applicability
    then (CheckState.inapplicable, declared_inapplicable)
    else if is_free k
    then (CheckState.inapplicable, authorized_nonfactual)
    else if e.empty
    then (CheckState.invalid, empty_artifact)
    else verdict_of e.state e.texts e.sources k

pub record CheckRow : Type 0 where
  pub check_id : String
  pub check : Check
  pub state : CheckState
  pub reason : Reason

-- `states`
pub record StateCounts : Type 0 where
  pub pass : ℕ
  pub fail : ℕ
  pub unknown : ℕ
  pub inapplicable : ℕ
  pub invalid : ℕ

abbrev pub no_states : StateCounts
no_states = record { pass = 0; fail = 0; unknown = 0; inapplicable = 0; invalid = 0 }

abbrev pub count_state : CheckState → StateCounts → StateCounts
count_state CheckState.pass n = record n { pass = suc n.pass }
count_state CheckState.fail n = record n { fail = suc n.fail }
count_state CheckState.unknown n = record n { unknown = suc n.unknown }
count_state CheckState.inapplicable n = record n { inapplicable = suc n.inapplicable }
count_state CheckState.invalid n = record n { invalid = suc n.invalid }

-- `checks`, in the rubric's order.
abbrev pub rows_of : Evidence → List Check → List CheckRow
rows_of e [] = []
rows_of e (k ∷ ks) =
    record {
      check_id = (base_of k).check_id;
      check = k;
      state = (evaluate e k).0;
      reason = (evaluate e k).1;
    }
    ∷ rows_of e ks

-- The loop's `states`, from the counts so far.
abbrev pub count_states : List CheckRow → StateCounts → StateCounts
count_states [] n = n
count_states (r ∷ rs) n = count_states rs (count_state r.state n)

-- `required_states`
abbrev pub required_states : List String → List CheckRow → List CheckState
required_states required [] = []
required_states required (r ∷ rs) =
    let rest = required_states required rs in
    if member r.check_id required then r.state ∷ rest else rest

abbrev pub state_is_pass : CheckState → Bool
state_is_pass CheckState.pass = true
state_is_pass _ = false

abbrev pub state_is_fail : CheckState → Bool
state_is_fail CheckState.fail = true
state_is_fail _ = false

abbrev pub state_is_invalid : CheckState → Bool
state_is_invalid CheckState.invalid = true
state_is_invalid _ = false

pub data CheckOutcome : Type 0 where
  invalid fail unassessed pass : CheckOutcome

abbrev pub outcome_of : Bool → List CheckState → CheckOutcome
outcome_of empty states =
    if empty || any state_is_invalid states
    then invalid
    else if any state_is_fail states
    then fail
    else if is_nil states || any (λ s. not (state_is_pass s)) states
    then unassessed
    else pass

pub record Deterministic : Type 0 where
  pub outcome : CheckOutcome
  pub checks : List CheckRow
  pub states : StateCounts

unfoldable pub deterministic_of : ScoreCase → Deterministic
unfolding evaluate
deterministic_of c =
    let e = evidence_of c in
    let rows = rows_of e c.rubric.checks in
    record {
      outcome = outcome_of e.empty (required_states (required_check_ids c.rubric.checks) rows);
      checks = rows;
      states = count_states rows no_states;
    }

module _ (digests : Digests) where
  unfoldable pub score_deterministic : ScoreCase → Result ScoringError Deterministic
  score_deterministic c = do valid ← validated_case digests c; ok (deterministic_of valid)
