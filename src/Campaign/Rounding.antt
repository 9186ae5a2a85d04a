-- ===== src/Campaign/Rounding.antt =====
-- src/draftbench/campaign.py: the units of an amount.
use llm_draftbench.Prelude.{
  ℕ, zero, suc, ◌+◌, ◌-◌, ◌*◌, ◌/◌, ◌%◌, ◌^◌, ◌≤◌, ◌<◌, Bool, List, nat_eq, ok, guard-eq-ok,
  ok-injective, subst, ◌≡◌, refl, arith, Bool-cases, inl, inr, ap,
}
use llm_draftbench.Campaign.Amount.{
  strip, Exponent, finite, decimal, units, valid_amount, coefficient, ceiling_units, up, down,
  as_integer_ratio, numerator_of, denominator_of, rounded_up, scale,
}
use native.Mathlib.Nat.{
  div-add-mod, mod-lt, pow-zero, pow-suc, mul-pos, mul-le-mul_right, mul-lt-mul_of_pos_right,
  le_of_mul-le-mul_right, lt_of_mul-lt-mul_right,
}

pow-pos : (k p : ℕ) → 0 < p → 0 < p ^ k
pow-pos zero p h = omega (arith, pow-zero p)
pow-pos (suc k) p h = grind (arith, pow-suc p k, pow-pos k p h)

power-step : (p n m j k q : ℕ) → m * p ^ k ≡ q * p ^ j → n ≡ p * q → m * p ^ suc k ≡ n * p ^ j
power-step p n m j k q h e =
    omega
      (arith, pow-suc p k, ap (λ x. x * p) h, ap (λ x. x * p ^ j) e, ap (λ x. m * x) (pow-suc p k))

strip_lem : (k p n : ℕ) → (strip k p n).0 * p ^ k ≡ n * p ^ (strip k p n).1
unfolding strip
strip_lem zero p n = omega arith
strip_lem (suc k) p n = elim (Bool-cases (nat_eq (n % p) 0)) [
  | inl h ↦
      rw h (power-step p n _ _ k (n / p) (strip_lem k p (n / p)) (ground (arith, div-add-mod n p)))
  | inr h ↦ rw h refl
]

ceil_bounds : (a d : ℕ) → 0 < d → (a ≤ (a + d - 1) / d * d) × ((a + d - 1) / d * d < a + d)
ceil_bounds a d h = ground (arith, div-add-mod (a + d - 1) d, mod-lt (a + d - 1) h)

split-ten : (k : ℕ) → 10 ^ k ≡ 2 ^ k * 5 ^ k
split-ten zero = refl
split-ten (suc k) = omega (
  arith,
  pow-suc 10 k,
  pow-suc 2 k,
  pow-suc 5 k,
  split-ten k,
  ap (λ x. x * 5 ^ suc k) (pow-suc 2 k),
  ap (λ x. 2 ^ k * 2 * x) (pow-suc 5 k),
)

-- The ratio in lowest terms has the value of the decimal.
ratio_lem :
    (e : Exponent) (n : ℕ)
    → (as_integer_ratio e n).0 * denominator_of e ≡ numerator_of e n * (as_integer_ratio e n).1
unfolding as_integer_ratio
ratio_lem (up k) n = omega arith
ratio_lem (down k) n =
    let five = strip k 5 n in
    let two = strip k 2 five.0 in
    omega (
      arith,
      ap (λ x. two.0 * x) (split-ten k),
      ap (λ x. x * 5 ^ k) (strip_lem k 2 five.0),
      ap (λ x. x * 2 ^ two.1) (strip_lem k 5 n),
    )

ratio-pos : (e : Exponent) (n : ℕ) → 0 < (as_integer_ratio e n).1
unfolding as_integer_ratio
ratio-pos (up k) n = omega arith
ratio-pos (down k) n = mul-pos (pow-pos _ 2 (omega arith)) (pow-pos _ 5 (omega arith))

denominator-pos : (e : Exponent) → 0 < denominator_of e
denominator-pos (up k) = omega arith
denominator-pos (down k) = pow-pos k 10 (omega arith)

-- With a / d = n / m, the bounds at one denominator are those at the other.
same_bounds :
    (a d n m u : ℕ)
    → 0 < d
    → 0 < m
    → a * m ≡ n * d
    → a * scale ≤ u * d
    → u * d < a * scale + d
    → (n * scale ≤ u * m) × (u * m < n * scale + m)
same_bounds a d n m u pos some_m same low high = (
  le_of_mul-le-mul_right {k = d} (omega (arith, same, mul-le-mul_right m low)) pos,
  lt_of_mul-lt-mul_right d (omega (arith, same, mul-lt-mul_of_pos_right {k = m} high some_m)),
)

pub units_bounds :
    (e : Exponent) (n : ℕ)
    → let u = rounded_up (as_integer_ratio e n) in
      (numerator_of e n * scale ≤ u * denominator_of e)
      × (u * denominator_of e < numerator_of e n * scale + denominator_of e)
units_bounds e n =
    let (low, high) =
      ceil_bounds ((as_integer_ratio e n).0 * scale) (as_integer_ratio e n).1 (ratio-pos e n) in
    same_bounds (as_integer_ratio e n).0 (as_integer_ratio e n).1 (numerator_of e n)
      (denominator_of e) _ (ratio-pos e n) (denominator-pos e) (ratio_lem e n) low high

-- Units that cover an amount, and would not with one unit less.
abbrev pub Covers : Exponent → ℕ → ℕ → Type 0
Covers e n u =
    (numerator_of e n * scale ≤ u * denominator_of e)
    × (u * denominator_of e < numerator_of e n * scale + denominator_of e)

covered_range :
    (e : Exponent) (n u : ℕ)
    → 0 < numerator_of e n
    → numerator_of e n ≤ 50 * denominator_of e
    → Covers e n u
    → (0 < u) × (u ≤ ceiling_units)
covered_range e n u some_n most (low, high) =
    let below : u < 5000000000000001 = lt_of_mul-lt-mul_right (denominator_of e) (omega arith) in
    let zero_row : 0 * denominator_of e ≡ 0 = omega arith in
    (lt_of_mul-lt-mul_right (denominator_of e) (omega (arith, zero_row)), omega (arith, below))

-- Where `units` returns, the units are the least whole number that covers the amount, at least one,
-- and at most the ceiling.
pub units-Covers :
    (negative : Bool) (digits : List ℕ) (e : Exponent) (u : ℕ) (exact : ℕ × ℕ)
    → units (decimal (finite negative digits e)) ≡ ok (u, exact)
    → Covers e (coefficient digits) u × (0 < u) × (u ≤ ceiling_units)
unfolding units
units-Covers negative digits e u exact h =
    let (valid, same) = guard-eq-ok (valid_amount negative digits e) _ _ h in
    let n = coefficient digits in
    let eq : rounded_up (as_integer_ratio e n) ≡ u = ap (λ r. r.0) (ok-injective same) in
    let covers : Covers e n u = subst (Covers e n) eq (units_bounds e n) in
    let (positive, most) = covered_range e n u (ground arith) (ground arith) covers in
    (covers, positive, most)
