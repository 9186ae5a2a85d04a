-- ===== src/Tariff/Samples.antt =====
-- src/draftbench/adapters/: two policies and usages, and the theorems there.
use llm_draftbench.Prelude.{
  ◌<◌, ◌^◌, inr, ℕ, ◌*◌, ◌≤◌, false, none, some, List, [], ◌∷◌, ok, err, ◌≡◌, refl, ◌⊎◌, sum_of,
  arith, Option,
}
use llm_draftbench.Tariff.Policy.{
  token_cost, Service, gpt6, anthropic, gpt_6_astra, claude_sonnet_5, high, without, adaptive,
  public_docs, Terms, admit, validated, admission_exhausted, astra_requires_reasoning,
}
use llm_draftbench.Tariff.Usage.{OpenaiUsage, Reported, invalid_usage, usage}
use llm_draftbench.Tariff.Typed.{admit-Answer}
use llm_draftbench.Tariff.Precision.{Money, context_precision, token_cost-IsExact}
use llm_draftbench.Tariff.Covered.{estimated_cost, used_tokens, admit-Covers}

abbrev astra : Service
astra = gpt6 gpt_6_astra high (some 922000)

abbrev sonnet : Service
sonnet = anthropic claude_sonnet_5 adaptive

-- 10 and 50 USD for a million tokens, and at most 50 USD.
abbrev terms : Terms
terms = record {
  tracking_only = false;
  pricing_provenance = public_docs;
  input_per_million = 1000000000;
  output_per_million = 5000000000;
  max_cost = some 5000000000;
  max_output_tokens = some 1000;
  max_requests = some 30;
  max_total_tokens = some 2000000;
  max_input_bytes = some 100000;
  timeout_seconds = some 30;
}

abbrev report : ℕ → OpenaiUsage
report total = record {
  input_tokens = 900;
  output_tokens = 100;
  total_tokens = total;
  input_tokens_details = some (("cached_tokens", some 4) ∷ ("cache_write_tokens", none) ∷ []);
  output_tokens_details = none;
}

abbrev natives : List (Option (Reported astra))
natives = some (report 1000) ∷ some (report 1000) ∷ []

program : Unit {0}
unfolding admit validated usage
program = tt

validated-astra : validated astra terms ≡ ok tt
unfolding program
validated-astra = refl

validated-silent :
    validated (gpt6 gpt_6_astra without (some 922000)) terms ≡ err astra_requires_reasoning
unfolding program
validated-silent = refl

admit-two : admit astra terms 2 ≡ ok tt
unfolding program
admit-two = refl

admit-three : admit astra terms 3 ≡ err admission_exhausted
unfolding program
admit-three = refl

admit-sonnet : admit sonnet terms 1 ≡ ok tt
unfolding program
admit-sonnet = refl

usage-wrong : usage astra terms (some (report 999)) ≡ err invalid_usage
unfolding program
usage-wrong = refl

estimated_cost-report : estimated_cost astra terms (some (report 1000)) ≡ 1400000000000
unfolding program
estimated_cost-report = refl

admit-Answer_example :
    (admit astra terms 3 ≡ ok tt) ⊎ (admit astra terms 3 ≡ err admission_exhausted)
admit-Answer_example = admit-Answer astra terms 3 validated-astra

admit-Covers_example :
    (sum_of (estimated_cost astra terms) natives ≤ 5000000000 * 1000000)
    × (sum_of (used_tokens astra terms) natives ≤ 2000000)
admit-Covers_example =
    admit-Covers terms refl astra 2 5000000000 2000000 natives validated-astra admit-two refl refl
      (omega arith)

abbrev ten : Money
ten = record { whole = 1 ∷ 0 ∷ []; fraction = [] }

abbrev fifty : Money
fifty = record { whole = 5 ∷ 0 ∷ []; fraction = [] }

token_cost-IsExact_example :
    ((token_cost terms 4610000 3000 2).numerator < 10 ^ context_precision ten fifty 4610000 3000)
    × ((q : ℕ) × (k : ℕ) × ((token_cost terms 4610000 3000 2).numerator * 10 ^ k
          ≡ q * (token_cost terms 4610000 3000 2).denominator)
        × (q < 10 ^ context_precision ten fifty 4610000 3000))
token_cost-IsExact_example =
    token_cost-IsExact ten fifty terms 4610000 3000 2 refl refl refl refl (inr refl)
