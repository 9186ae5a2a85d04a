-- ===== src/Campaign/Amount.antt =====
-- src/draftbench/campaign.py: `_units`, the exact amount in units of 10 ** -14 USD, rounded up, with
-- what `Decimal.as_integer_ratio` gives for it.
use llm_draftbench.Prelude.{
  ℕ, zero, suc, ◌+◌, ◌-◌, ◌*◌, ◌/◌, ◌%◌, ◌^◌, Bool, List, [], ◌∷◌, ◌&&◌, not, leb, ltb, nat_eq,
  length, if◌then◌else◌, Result, ok, err, guard, ◌>>◌,
}
use llm_draftbench.Ledger.Types.{LedgerError, campaign_invalid_upper_bound}

-- 10 ** exponent
pub data Exponent : Type 0 where
  up down : ℕ → Exponent

-- A `Decimal` by its `as_tuple`; `special` is an infinity or a NaN.
pub data Decimal : Type 0 where
  finite : (negative : Bool) (digits : List ℕ) (exponent : Exponent) → Decimal
  special : Decimal

-- An argument of `reserve`: `other` has another type, a float say.
pub data UpperBound : Type 0 where
  nothing other : UpperBound
  decimal : Decimal → UpperBound

abbrev pub scale : ℕ
scale = 100000000000000

abbrev pub ceiling_units : ℕ
ceiling_units = 5000000000000000

abbrev pub coefficient_from : ℕ → List ℕ → ℕ
coefficient_from n [] = n
coefficient_from n (d ∷ ds) = coefficient_from (n * 10 + d) ds

abbrev pub coefficient : List ℕ → ℕ
coefficient ds = coefficient_from 0 ds

-- The value of coefficient * 10 ** exponent as a numerator and a denominator, not reduced.
abbrev pub numerator_of : Exponent → ℕ → ℕ
numerator_of (up k) n = n * 10 ^ k
numerator_of (down k) n = n

abbrev pub denominator_of : Exponent → ℕ
denominator_of (up k) = 1
denominator_of (down k) = 10 ^ k

-- Divides `n` by `p` while it is a multiple, `k` times at most; with what is left of `k`.
unfoldable pub strip : (k p n : ℕ) → ℕ × ℕ
strip zero p n = (n, 0)
strip (suc k) p n = if nat_eq (n % p) 0 then strip k p (n / p) else (n, suc k)

-- `Decimal.as_integer_ratio`, in lowest terms.
unfoldable pub as_integer_ratio : Exponent → ℕ → ℕ × ℕ
as_integer_ratio (up k) n = (n * 10 ^ k, 1)
as_integer_ratio (down k) n =
    let (n₁, fives) = strip k 5 n in let (n₂, twos) = strip k 2 n₁ in (n₂, 2 ^ twos * 5 ^ fives)

abbrev in_range : Exponent → Bool
in_range (up k) = leb k 2
in_range (down k) = leb k 100

abbrev pub valid_amount : Bool → List ℕ → Exponent → Bool
valid_amount negative digits e =
    not negative
    && ltb 0 (numerator_of e (coefficient digits))
    && leb (numerator_of e (coefficient digits)) (50 * denominator_of e)
    && leb (length digits) 100
    && in_range e

abbrev pub rounded_up : ℕ × ℕ → ℕ
rounded_up (numerator, denominator) = (numerator * scale + denominator - 1) / denominator

unfoldable pub units : UpperBound → Result LedgerError (ℕ × (ℕ × ℕ))
units nothing = err campaign_invalid_upper_bound
units other = err campaign_invalid_upper_bound
units (decimal special) = err campaign_invalid_upper_bound
units (decimal (finite negative digits e)) = do
  guard (valid_amount negative digits e) campaign_invalid_upper_bound
  let ratio = as_integer_ratio e (coefficient digits)
  ok (rounded_up ratio, ratio)
