-- ===== src/Scoring/Rate.antt =====
-- src/draftbench/scoring/models.py: `rate`, and what the rules raise.
use llm_draftbench.Prelude.{
  ℕ, Bool, Option, none, some, not, ◌&&◌, leb, nat_eq, if◌then◌else◌, Result, ok, guard, ◌>>◌, ◌≡◌,
  refl, ◌≤◌, le→leb,
}

pub data ScoringError : Type 0 where
  duplicate_scoring_id mixed_scoring_cohort invalid_metric_counts : ScoringError
  validation_error index_error key_error : ScoringError

-- A metric: `value` is numerator / denominator, left as the two numbers.
pub record Rate : Type 0 where
  pub assessed : Bool
  pub numerator : ℕ
  pub denominator : ℕ
  pub value : Option (ℕ × ℕ)

unfoldable pub rate : ℕ → ℕ → Bool → Result ScoringError Rate
rate n d assessed = do
  guard (leb n d) invalid_metric_counts
  ok (record {
    assessed = assessed;
    numerator = n;
    denominator = d;
    value = if assessed && not (nat_eq d 0) then some (n, d) else none;
  })

-- Counts in order give a rate.
unfoldable pub rate_of : ℕ → ℕ → Bool → Rate
rate_of n d assessed = record {
  assessed = assessed;
  numerator = n;
  denominator = d;
  value = if assessed && not (nat_eq d 0) then some (n, d) else none;
}

pub rate_lem : (n d : ℕ) (assessed : Bool) → n ≤ d → rate n d assessed ≡ ok (rate_of n d assessed)
unfolding rate rate_of
rate_lem n d assessed h = rw (le→leb n d h) refl
