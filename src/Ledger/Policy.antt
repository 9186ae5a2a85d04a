-- ===== src/Ledger/Policy.antt =====
-- src/draftbench/ledger.py: the admission that `reserve` asks of a policy before it reserves. A
-- provider's policy brings its own `admit`. Any other has bounds of its own, and exact fractions
-- for its price and its cost bound.
use llm_draftbench.Prelude.{
  ℕ, ◌+◌, ◌*◌, Bool, true, false, Option, none, some, ◌||◌, not, ltb, Result, ok, guard,
}
use llm_draftbench.Ledger.Types.{LedgerError, admission_exhausted}

-- A fraction with a positive denominator, `below + 1`.
pub record Ratio : Type 0 where
  pub numerator : ℕ
  pub below : ℕ

pub record Bounds : Type 0 where
  pub reserved_tokens : ℕ
  pub max_requests : ℕ
  pub max_total_tokens : ℕ
  pub price_per_million : Option Ratio
  pub max_cost_usd : Option Ratio

pub data Policy : Type 0 where
  provider : (admit : ℕ → Result LedgerError (Unit {0})) → Policy
  bounds : Bounds → Policy

-- price * tokens / 1_000_000 > bound
abbrev pub costs_more : Ratio → ℕ → Ratio → Bool
costs_more price tokens bound =
    ltb (bound.numerator * ((price.below + 1) * 1000000))
      (price.numerator * tokens * (bound.below + 1))

abbrev pub over_cost : Option Ratio → ℕ → Option Ratio → Bool
over_cost price tokens none = false
over_cost none tokens (some bound) = true
over_cost (some price) tokens (some bound) = costs_more price tokens bound

pub exhausted : Bounds → ℕ → Bool
exhausted b count =
    let tokens = count * b.reserved_tokens in
    ltb b.max_requests count
    || ltb b.max_total_tokens tokens
    || over_cost b.price_per_million tokens b.max_cost_usd

unfoldable pub admitted : Option Policy → ℕ → Result LedgerError (Unit {0})
unfolding exhausted
admitted none count = ok tt
admitted (some (provider admit)) count = admit count
admitted (some (bounds b)) count = guard (not (exhausted b count)) admission_exhausted
