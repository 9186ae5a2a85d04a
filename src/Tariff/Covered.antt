-- ===== src/Tariff/Covered.antt =====
-- src/draftbench/adapters/: the requests that a policy admits cost at most what it allows.
use llm_draftbench.Prelude.{
  ℕ, ◌+◌, ◌*◌, ◌≤◌, Bool, true, false, Option, none, some, List, [], ◌∷◌, ◌&&◌, ◌||◌, leb, Result,
  ok, err, guard, ◌>>◌, and-parts, leb→le, ◌≡◌, refl, subst, length, sum_of, arith, nat_eq,
}
use llm_draftbench.Tariff.Policy.{
  Service, gpt6, anthropic, Terms, Cost, context_window, admit, validated, full_cost, affordable,
  admission_exhausted, token_cost,
}
use llm_draftbench.Tariff.Usage.{
  UsageError, invalid_usage, OpenaiUsage, AnthropicUsage, Reported, up_to, openai_estimate,
  openai_usage, openai_counts, openai_details, written, cached, anthropic_counts, anthropic_details,
  anthropic_usage, usage,
}
use llm_draftbench.Tariff.Typed.{Caps, validated-Caps, admit-Caps}
use native.Mathlib.Nat.{mul-le-mul_right}

-- The cost of an estimate, in the units of its denominator, which is 1000000.
abbrev pub worth : Result UsageError (Option Cost) → ℕ
worth (err e) = 0
worth (ok none) = 0
worth (ok (some c)) = c.numerator

-- The tokens of a usage that was read without an error.
abbrev pub accepted : ℕ → Result UsageError (Option Cost) → ℕ
accepted n (err e) = 0
accepted n (ok c) = n

abbrev pub tokens : (s : Service) → Option (Reported s) → ℕ
tokens s none = 0
tokens (gpt6 model effort window) (some u) = u.total_tokens
tokens (anthropic model thinking) (some u) = u.input_tokens + written u + cached u + u.output_tokens

abbrev pub estimated_cost : (s : Service) → Terms → Option (Reported s) → ℕ
estimated_cost s t native = worth (usage s t native)

abbrev pub used_tokens : (s : Service) → Terms → Option (Reported s) → ℕ
used_tokens s t native = accepted (tokens s native) (usage s t native)

guard-bound :
    (f : Result UsageError (Option Cost) → ℕ)
    → ((e : UsageError) → f (err e) ≡ 0)
    → (b : Bool) (k : Result UsageError (Option Cost)) (n : ℕ) → (b ≡ true → f k ≤ n)
    → f (guard b invalid_usage >> k) ≤ n
guard-bound f raised true k n h = h refl
guard-bound f raised false k n h = omega (arith, raised invalid_usage)

up_to-le : (n : ℕ) (o : Option ℕ) {m : ℕ} → up_to n o ≡ true → o ≡ some m → n ≤ m
up_to-le n o {m} h e = leb→le n m (subst (λ o. up_to n o ≡ true) e h)

sum-bound :
    {A : Type 0} (f : A → ℕ) (n : ℕ)
    → ((x : A) → f x ≤ n)
    → (xs : List A) → sum_of f xs ≤ length xs * n
sum-bound f n h [] = omega arith
sum-bound f n h (x ∷ xs) = omega (arith, h x, sum-bound f n h xs)

product : (k a b : ℕ) → a ≤ b → k * a ≤ k * b
product k a b h = omega (arith, mul-le-mul_right k h)

-- What one request costs at most, at the rates that the estimates use.
abbrev request_cost : Service → Terms → (window output : ℕ) → ℕ
request_cost (gpt6 model effort _) t window output =
    t.input_per_million * window + t.output_per_million * output
request_cost (anthropic model thinking) t window output =
    t.input_per_million * (2 * window) + t.output_per_million * output

estimate-worth :
    (t : Terms) (u : OpenaiUsage)
    → worth (openai_estimate t u)
      ≤ t.input_per_million * u.input_tokens + t.output_per_million * u.output_tokens
estimate-worth t u = ground arith

estimate-accepted : (t : Terms) (u : OpenaiUsage) (n : ℕ) → accepted n (openai_estimate t u) ≤ n
estimate-accepted t u n = ground arith

in-window : (on a b : Bool) → on ≡ false → (on || (a && b)) ≡ true → (a ≡ true) × (b ≡ true)
in-window true a b off h = cc
in-window false a b off h = and-parts a b h

nat_eq-true : (a b : ℕ) → nat_eq a b ≡ true → a ≡ b
nat_eq-true a b h = ground arith

-- What `openai_usage` answered is bounded by `n` if its last step is, for counts in the bounds.
openai-bound :
    (f : Result UsageError (Option Cost) → ℕ)
    → ((e : UsageError) → f (err e) ≡ 0)
    → (s : Service) (t : Terms) → t.tracking_only ≡ false
    → (c : Caps s t) (u : OpenaiUsage) (n : ℕ)
    → (u.total_tokens ≡ u.input_tokens + u.output_tokens
        → u.input_tokens ≤ c.window
        → u.output_tokens ≤ c.output
        → f (openai_estimate t u) ≤ n)
    → f (openai_usage s t u) ≤ n
openai-bound f raised s t off c u n h =
    guard-bound f raised (openai_counts s t u)
      (guard (openai_details u) invalid_usage >> openai_estimate t u) n
      λ counts. guard-bound f raised (openai_details u) (openai_estimate t u) n λ _.
        let (sum, inside) =
          and-parts (nat_eq u.total_tokens (u.input_tokens + u.output_tokens)) _ counts in
        let (i, o) =
          in-window t.tracking_only (up_to u.input_tokens (context_window s))
            (up_to u.output_tokens t.max_output_tokens) off inside in
        h (nat_eq-true _ _ sum) (up_to-le u.input_tokens (context_window s) i c.window_eq)
          (up_to-le u.output_tokens t.max_output_tokens o c.output_eq)

anthropic-bound :
    (f : Result UsageError (Option Cost) → ℕ)
    → ((e : UsageError) → f (err e) ≡ 0)
    → (s : Service) (t : Terms) (c : Caps s t) (u : AnthropicUsage) (n : ℕ)
    → (u.input_tokens + written u + cached u ≤ c.window
        → u.output_tokens ≤ c.output
        → f (ok (some (token_cost t (u.input_tokens + 2 * written u + cached u) u.output_tokens 1)))
          ≤ n)
    → f (anthropic_usage s t u) ≤ n
anthropic-bound f raised s t c u n h =
    let last =
      ok (some (token_cost t (u.input_tokens + 2 * written u + cached u) u.output_tokens 1)) in
    guard-bound f raised (anthropic_counts s t u)
      (guard (anthropic_details u) invalid_usage >> last) n
      λ counts. guard-bound f raised (anthropic_details u) last n λ _.
        let sum = up_to (u.input_tokens + written u + cached u) (context_window s) in
        let outer =
          and-parts
            (up_to u.input_tokens (context_window s)
              && up_to (written u) (context_window s)
              && up_to (cached u) (context_window s)
              && up_to u.output_tokens t.max_output_tokens)
            sum counts in
        let inner =
          and-parts
            (up_to u.input_tokens (context_window s)
              && up_to (written u) (context_window s)
              && up_to (cached u) (context_window s))
            (up_to u.output_tokens t.max_output_tokens) outer.0 in
        h (up_to-le (u.input_tokens + written u + cached u) (context_window s) outer.1 c.window_eq)
          (up_to-le u.output_tokens t.max_output_tokens inner.1 c.output_eq)

last-two :
    (a b c : Bool)
    → (guard a admission_exhausted >> (guard b admission_exhausted >> guard c admission_exhausted))
      ≡ ok tt
    → (b ≡ true) × (c ≡ true)
last-two false b c h = cc
last-two true false c h = cc
last-two true true false h = cc
last-two true true true h = (refl, refl)

same-bound : {o : Option ℕ} {m n : ℕ} → o ≡ some m → o ≡ some n → m ≡ n
same-bound h k = cc

module _ (t : Terms) (off : t.tracking_only ≡ false) where
  rates :
      (a b c d : ℕ)
      → a ≤ b
      → c ≤ d
      → t.input_per_million * a + t.output_per_million * c
        ≤ t.input_per_million * b + t.output_per_million * d
  rates a b c d h k =
      omega (arith, product t.input_per_million a b h, product t.output_per_million c d k)

  estimated_cost_bound :
      (s : Service) (c : Caps s t) (native : Option (Reported s))
      → estimated_cost s t native ≤ request_cost s t c.window c.output
  unfolding usage
  estimated_cost_bound s c none = omega arith
  estimated_cost_bound (gpt6 model effort window) c (some u) =
      openai-bound worth (λ e. refl) (gpt6 model effort window) t off c u _
        λ sum i o. omega (arith, estimate-worth t u, rates _ _ _ _ i o)
  estimated_cost_bound (anthropic model thinking) c (some u) =
      anthropic-bound worth (λ e. refl) (anthropic model thinking) t c u _
        λ i o. rates _ (2 * c.window) _ _ (omega (arith, i)) o

  used_tokens_bound :
      (s : Service) (c : Caps s t) (native : Option (Reported s))
      → used_tokens s t native ≤ c.window + c.output
  unfolding usage
  used_tokens_bound s c none = omega arith
  used_tokens_bound (gpt6 model effort window) c (some u) =
      openai-bound (accepted u.total_tokens) (λ e. refl) (gpt6 model effort window) t off c u _
        λ sum i o. omega (arith, estimate-accepted t u u.total_tokens, sum, i, o)
  used_tokens_bound (anthropic model thinking) c (some u) =
      anthropic-bound (accepted _) (λ e. refl) (anthropic model thinking) t c u _
        λ i o. omega (arith, i, o)

  full_cost_lem :
      (s : Service) (n window output bound : ℕ)
      → affordable (full_cost s t n window output) bound ≡ true
      → n * request_cost s t window output ≤ bound * 1000000
  full_cost_lem (gpt6 model effort w) n window output bound h = omega (arith, leb→le _ _ h)
  full_cost_lem (anthropic model thinking) n window output bound h = omega (arith, leb→le _ _ h)

  -- Once `admit` of a validated policy with caps let `count` requests through, what the providers
  -- say that as many requests used, as far as `_usage` accepts it, is within the policy: the upper
  -- estimates of the costs sum to at most `max_cost`, and the tokens to at most `max_total_tokens`.
  pub admit-Covers :
      (s : Service) (count bound total : ℕ) (natives : List (Option (Reported s)))
      → validated s t ≡ ok tt
      → admit s t count ≡ ok tt
      → t.max_cost ≡ some bound
      → t.max_total_tokens ≡ some total
      → length natives ≤ count
      → (sum_of (estimated_cost s t) natives ≤ bound * 1000000)
        × (sum_of (used_tokens s t) natives ≤ total)
  admit-Covers s count bound total natives valid admitted b_eq t_eq few =
      let c = validated-Caps s t off valid in
      let requests = leb count c.requests in
      let inside = leb (count * (c.window + c.output)) c.token_total in
      let paid = affordable (full_cost s t count c.window c.output) c.bound in
      let (within_total, within_cost) =
        last-two requests inside paid
          (subst (λ r. r ≡ ok tt) (admit-Caps s t count off c) admitted) in
      (
        omega (
          arith,
          sum-bound (estimated_cost s t) _ (estimated_cost_bound s c) natives,
          mul-le-mul_right (request_cost s t c.window c.output) few,
          full_cost_lem s count c.window c.output c.bound within_cost,
          same-bound c.bound_eq b_eq,
        ),
        omega (
          arith,
          sum-bound (used_tokens s t) _ (used_tokens_bound s c) natives,
          mul-le-mul_right (c.window + c.output) few,
          leb→le _ _ within_total,
          same-bound c.total_eq t_eq,
        ),
      )
