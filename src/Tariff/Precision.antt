-- ===== src/Tariff/Precision.antt =====
-- src/draftbench/adapters/token_budget.py: the precision of the decimal context of `token_cost`.
use llm_draftbench.Prelude.{
  ℕ, zero, suc, ◌+◌, ◌-◌, ◌*◌, ◌/◌, ◌^◌, ◌≤◌, ◌<◌, Bool, true, List, [], ◌∷◌, ◌&&◌, leb, ltb, all,
  is_nil, length, if◌then◌else◌, ◌≡◌, and-parts, leb→le, arith, ◌⊎◌, inl, inr, Bool-cases, ap,
}
use llm_draftbench.Campaign.Amount.{coefficient, coefficient_from}
use llm_draftbench.Tariff.Policy.{Terms, token_cost}
use native.Mathlib.Nat.{div-add-mod, mod-lt, pow-suc, mul-le-mul_right, pow-zero, pow-le-pow_right}

-- The digits of a string of `Money`, before its point and after it.
pub record Money : Type 0 where
  pub whole : List ℕ
  pub fraction : List ℕ

abbrev pub is_money : Money → Bool
is_money m =
    all (λ d. ltb d 10) m.whole && all (λ d. ltb d 10) m.fraction && leb (length m.fraction) 8

-- len(money)
abbrev pub money_length : Money → ℕ
money_length m =
    if is_nil m.fraction then length m.whole else length m.whole + 1 + length m.fraction

-- Decimal(money), in units of 10 ** -8
abbrev pub hundred_millionths : Money → ℕ
hundred_millionths m =
    coefficient m.whole * 10 ^ 8 + coefficient m.fraction * 10 ^ (8 - length m.fraction)

-- len(str(n)), with `n` as fuel: a division by 10 makes a positive number smaller.
pub digits_from : (fuel n : ℕ) → ℕ
digits_from zero n = 1
digits_from (suc fuel) n = let rest = digits_from fuel (n / 10) in if ltb n 10 then 1 else suc rest

abbrev pub number_length : ℕ → ℕ
number_length n = digits_from n n

abbrev pub larger : ℕ → ℕ → ℕ
larger a b = if leb a b then b else a

abbrev pub context_precision : Money → Money → (input output : ℕ) → ℕ
context_precision a b input output =
    larger (money_length a) (money_length b)
    + larger (number_length input) (number_length output)
    + 16

ten : 0 < 10
ten = ground arith

digits_lem : (fuel n : ℕ) → n ≤ fuel → n < 10 ^ digits_from fuel n
unfolding digits_from
digits_lem zero n h = omega (arith, h)
digits_lem (suc fuel) n h = elim (Bool-cases (ltb n 10)) [
  | inl small ↦ rw small (ground arith)
  | inr large ↦ rw large (
      let smaller = digits_lem fuel (n / 10) (ground (arith, div-add-mod n 10)) in
      omega
        (arith, smaller, div-add-mod n 10, mod-lt n (ten), pow-suc 10 (digits_from fuel (n / 10))))
]

zero-plus : (b : ℕ) → 0 + b ≡ b
zero-plus b = omega arith

suc-plus : (a b : ℕ) → suc a + b ≡ suc (a + b)
suc-plus a b = omega arith

pow-add : (a b : ℕ) → 10 ^ (a + b) ≡ 10 ^ a * 10 ^ b
pow-add zero b = omega (arith, pow-zero 10, ap (λ x. 10 ^ x) (zero-plus b))
pow-add (suc a) b = omega (
  arith,
  ap (λ x. 10 ^ x) (suc-plus a b),
  pow-suc 10 (a + b),
  pow-suc 10 a,
  pow-add a b,
  ap (λ x. x * 10 ^ b) (pow-suc 10 a),
)

next_digit : (n d : ℕ) → ltb d 10 ≡ true → n * 10 + d + 1 ≤ (n + 1) * 10
next_digit n d h = ground arith

coefficient_bound :
    (n : ℕ) (ds : List ℕ)
    → all (λ d. ltb d 10) ds ≡ true
    → coefficient_from n ds + 1 ≤ (n + 1) * 10 ^ length ds
coefficient_bound n [] h = omega (arith, pow-zero 10)
coefficient_bound n (d ∷ ds) h =
    let (digit, rest) = and-parts (ltb d 10) (all (λ e. ltb e 10) ds) h in
    omega (
      arith,
      coefficient_bound (n * 10 + d) ds rest,
      mul-le-mul_right (10 ^ length ds) (next_digit n d digit),
      ap (λ x. (n + 1) * x) (pow-suc 10 (length ds)),
    )

power-le : (a b : ℕ) → a ≤ b → 10 ^ a ≤ 10 ^ b
power-le a b h = pow-le-pow_right ten h

coefficient-bound :
    (ds : List ℕ) → all (λ d. ltb d 10) ds ≡ true → coefficient ds + 1 ≤ 10 ^ length ds
coefficient-bound ds h = omega (arith, coefficient_bound 0 ds h)

rest-plus : (k : ℕ) → k ≤ 8 → k + (8 - k) ≡ 8
rest-plus k h = omega (arith, h)

whole-le : (m : Money) → length m.whole + 8 ≤ money_length m + 8
whole-le m = ground arith

-- The fraction is below one.
fraction-bound :
    (ds : List ℕ)
    → all (λ d. ltb d 10) ds ≡ true
    → length ds ≤ 8
    → coefficient ds * 10 ^ (8 - length ds) + 1 ≤ 10 ^ 8
fraction-bound ds h short = omega (
  arith,
  mul-le-mul_right (10 ^ (8 - length ds)) (coefficient-bound ds h),
  pow-add (length ds) (8 - length ds),
  ap (λ x. 10 ^ x) (rest-plus (length ds) short),
  power-le 0 (8 - length ds) (omega arith),
)

hundred_millionths-bound :
    (m : Money) → is_money m ≡ true → hundred_millionths m < 10 ^ (money_length m + 8)
hundred_millionths-bound m h =
    let (digits, short) =
      and-parts (all (λ d. ltb d 10) m.whole && all (λ d. ltb d 10) m.fraction)
        (leb (length m.fraction) 8) h in
    let (whole, fraction) =
      and-parts (all (λ d. ltb d 10) m.whole) (all (λ d. ltb d 10) m.fraction) digits in
    omega (
      arith,
      mul-le-mul_right (10 ^ 8) (coefficient-bound m.whole whole),
      fraction-bound m.fraction fraction (leb→le _ 8 short),
      pow-add (length m.whole) 8,
      power-le (length m.whole + 8) (money_length m + 8) (whole-le m),
    )

product-bound : (a b x y l d : ℕ) → a < 10 ^ x → b < 10 ^ y → x ≤ l → y ≤ d → a * b < 10 ^ (l + d)
product-bound a b x y l d h k p q =
    let below : suc a ≤ 10 ^ l = omega (arith, h, power-le x l p) in
    let above : suc b ≤ 10 ^ d = omega (arith, k, power-le y d q) in
    omega (arith, mul-le-mul_right (suc b) below, mul-le-mul_right (10 ^ l) above, pow-add l d)

larger-left : (a b : ℕ) → a ≤ larger a b
larger-left a b = ground arith

larger-right : (a b : ℕ) → b ≤ larger a b
larger-right a b = ground arith

plus-le : (a b k : ℕ) → a ≤ b → a + k ≤ b + k
plus-le a b k h = omega (arith, h)

-- Five times the sum still fits.
rates-bound :
    (a b : Money) (input output : ℕ)
    → is_money a ≡ true
    → is_money b ≡ true
    → (hundred_millionths a * input + hundred_millionths b * output) * 5
      < 10 ^ context_precision a b input output
rates-bound a b input output ma mb =
    let l = larger (money_length a) (money_length b) in
    let d = larger (number_length input) (number_length output) in
    omega (
      arith,
      product-bound (hundred_millionths a) input _ (number_length input) (l + 8) d
          (hundred_millionths-bound a ma) (digits_lem input input (omega arith))
          (plus-le _ l 8 (larger-left (money_length a) (money_length b)))
          (larger-left (number_length input) (number_length output)),
      product-bound (hundred_millionths b) output _ (number_length output) (l + 8) d
          (hundred_millionths-bound b mb) (digits_lem output output (omega arith))
          (plus-le _ l 8 (larger-right (money_length a) (money_length b)))
          (larger-right (number_length input) (number_length output)),
      pow-suc 10 (l + 8 + d),
      power-le (suc (l + 8 + d)) (l + d + 16) (omega arith),
    )

-- Decimal arithmetic in the context of `token_cost` is exact: for rates that are strings of Money,
-- and the two denominators that the policies use, the sum has at most as many digits as the
-- precision, and so does the coefficient of the quotient, a decimal of that value.
pub token_cost-IsExact :
    (a b : Money) (t : Terms) (input output denominator : ℕ)
    → is_money a ≡ true
    → is_money b ≡ true
    → t.input_per_million ≡ hundred_millionths a
    → t.output_per_million ≡ hundred_millionths b
    → (denominator ≡ 1) ⊎ (denominator ≡ 2)
    → ((token_cost t input output denominator).numerator < 10 ^ context_precision a b input output)
      × ((q : ℕ) × (k : ℕ) × ((token_cost t input output denominator).numerator * 10 ^ k
            ≡ q * (token_cost t input output denominator).denominator)
          × (q < 10 ^ context_precision a b input output))
token_cost-IsExact a b t input output denominator ma mb ra rb h =
    let n = t.input_per_million * input + t.output_per_million * output in
    let fits : n * 5 < 10 ^ context_precision a b input output =
      rw (ra, rb) (rates-bound a b input output ma mb) in
    (
      omega (arith, fits),
      elim h [
        | inl one ↦ (n, 6, rw one (omega arith), omega (arith, fits))
        | inr two ↦ (n * 5, 7, rw two (omega arith), fits)
      ],
    )
