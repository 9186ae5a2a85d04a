-- ===== src/Tariff/Policy.antt =====
-- src/draftbench/adapters/token_budget.py and pilot_policy.py: the policies of the two providers,
-- their validators and `admit`. Money is in units of 10 ** -8 USD, the smallest that its pattern has.
use llm_draftbench.Prelude.{
  ℕ, ◌+◌, ◌*◌, Bool, true, false, Option, none, some, ◌&&◌, not, leb, ltb, nat_eq, Result, ok, err,
  guard, ◌>>◌, ◌>>=◌, if◌then◌else◌,
}

-- The ValueErrors by their messages, `invalid_field` for a field out of its range, and the TypeError
-- of a comparison with None.
pub data PolicyError : Type 0 where
  invalid_field tracking_only_requires_no_caps tracking_tariff_required : PolicyError
  provider_output_setting_required positive_explicit_pricing_required : PolicyError
  context_mode_mismatch astra_requires_reasoning opus_requires_adaptive : PolicyError
  admission_exhausted type_error : PolicyError

pub data Gpt6Model : Type 0 where
  gpt_6_astra gpt_6_sol gpt_6_luna gpt_6_1_sol gpt_6_1_terra : Gpt6Model

pub data Reasoning : Type 0 where
  without low medium high xhigh max : Reasoning

pub data ClaudeModel : Type 0 where
  claude_opus_5_5 claude_sonnet_5 claude_sonnet_5_5 claude_haiku_5_5 claude_fable_5_1 : ClaudeModel

pub data Thinking : Type 0 where
  adaptive disabled : Thinking

pub data Provenance : Type 0 where
  public_docs operator_reviewed : Provenance

-- The fields of `GPT6Policy` or of `AnthropicPolicy`.
pub data Service : Type 0 where
  gpt6 : (model : Gpt6Model) (effort : Reasoning) (window : Option ℕ) → Service
  anthropic : (model : ClaudeModel) (thinking : Thinking) → Service

-- The fields of `PilotPolicy`.
pub record Terms : Type 0 where
  pub tracking_only : Bool
  pub pricing_provenance : Provenance
  pub input_per_million : ℕ
  pub output_per_million : ℕ
  pub max_cost : Option ℕ
  pub max_output_tokens : Option ℕ
  pub max_requests : Option ℕ
  pub max_total_tokens : Option ℕ
  pub max_input_bytes : Option ℕ
  pub timeout_seconds : Option ℕ

-- An exact amount of money, as a fraction.
pub record Cost : Type 0 where
  pub numerator : ℕ
  pub denominator : ℕ

abbrev pub context_window : Service → Option ℕ
context_window (gpt6 model effort window) = window
context_window (anthropic model thinking) = some 1000000

-- The value of a field that the code computes with.
abbrev pub needed {ℓ} : {A : Type ℓ} → Option A → Result PolicyError A
needed none = err type_error
needed (some x) = ok x

abbrev pub not_given : Option ℕ → Bool
not_given none = true
not_given (some n) = false

abbrev pub token_cost : Terms → (input output denominator : ℕ) → Cost
token_cost t input output denominator = record {
  numerator = t.input_per_million * input + t.output_per_million * output;
  denominator = 1000000 * denominator;
}

abbrev pub reserved_tokens : Service → Terms → Result PolicyError (Option ℕ)
reserved_tokens s t = if t.tracking_only then ok none else do
  window ← needed (context_window s)
  output ← needed t.max_output_tokens
  ok (some (window + output))

abbrev pub full_cost : Service → Terms → (count window output : ℕ) → Cost
full_cost (gpt6 model effort _) t count window output =
    token_cost t (count * window * 5) (count * output * 3) 2
full_cost (anthropic model thinking) t count window output =
    token_cost t (count * window * 2) (count * output) 1

abbrev pub reservation_total : Service → Terms → ℕ → Result PolicyError (Option Cost)
reservation_total s t count = if t.tracking_only then ok none else do
  window ← needed (context_window s)
  output ← needed t.max_output_tokens
  ok (some (full_cost s t count window output))

abbrev pub affordable : Cost → ℕ → Bool
affordable cost bound = leb cost.numerator (bound * cost.denominator)

unfoldable pub admit : Service → Terms → ℕ → Result PolicyError (Unit {0})
admit s t count = if t.tracking_only then ok tt else do
  requests ← needed t.max_requests
  guard (leb count requests) admission_exhausted
  reserved ← reserved_tokens s t
  tokens ← needed reserved
  total ← needed t.max_total_tokens
  guard (leb (count * tokens) total) admission_exhausted
  reservation ← reservation_total s t count
  cost ← needed reservation
  bound ← needed t.max_cost
  guard (affordable cost bound) admission_exhausted

-- The ranges of the fields: `none` where the field may be None.
abbrev pub between : ℕ → ℕ → Option ℕ → Bool
between least most none = true
between least most (some n) = leb least n && leb n most

abbrev pub positive : Option ℕ → Bool
positive none = true
positive (some n) = ltb 0 n

abbrev pub window_field : Service → Bool
window_field (gpt6 model effort none) = true
window_field (gpt6 model effort (some n)) = nat_eq n 922000
window_field (anthropic model thinking) = true

abbrev pub fields : Service → Terms → Bool
fields s t =
    positive t.max_output_tokens
    && between 1 30000 t.max_requests
    && positive t.max_total_tokens
    && between 1 100000 t.max_input_bytes
    && between 1 300 t.timeout_seconds
    && window_field s

-- Whether the output's bound is what a tracking policy must have.
abbrev pub tracking_output : Service → Option ℕ → Bool
tracking_output (gpt6 model effort window) output = not_given output
tracking_output (anthropic model thinking) none = false
tracking_output (anthropic model thinking) (some n) = nat_eq n 128000

abbrev pub reviewed : Provenance → Bool
reviewed public_docs = false
reviewed operator_reviewed = true

abbrev pub output_within : Option ℕ → Bool
output_within none = false
output_within (some n) = leb n 32768

abbrev pub cost_above_zero : Option ℕ → Bool
cost_above_zero none = false
cost_above_zero (some n) = ltb 0 n

abbrev pub no_caps : Terms → Bool
no_caps t =
    not_given t.max_cost
    && not_given t.max_requests
    && not_given t.max_total_tokens
    && not_given t.max_input_bytes
    && not_given t.timeout_seconds

abbrev pub all_caps : Terms → Bool
all_caps t =
    not (not_given t.max_cost)
    && not (not_given t.max_requests)
    && not (not_given t.max_total_tokens)
    && not (not_given t.max_input_bytes)
    && not (not_given t.timeout_seconds)

abbrev pub tracking_cap : Service → Terms → Result PolicyError (Unit {0})
tracking_cap s t = do
  guard (no_caps t) tracking_only_requires_no_caps
  guard (reviewed t.pricing_provenance) tracking_tariff_required
  guard (tracking_output s t.max_output_tokens) provider_output_setting_required

abbrev pub explicit_caps : Terms → Bool
explicit_caps t = all_caps t && output_within t.max_output_tokens && cost_above_zero t.max_cost

abbrev pub positive_cap : Service → Terms → Result PolicyError (Unit {0})
positive_cap s t =
    if t.tracking_only
    then tracking_cap s t
    else guard (explicit_caps t) positive_explicit_pricing_required

abbrev pub same_mode : Bool → Bool → Bool
same_mode true b = b
same_mode false b = not b

abbrev pub can_reason : Gpt6Model → Reasoning → Bool
can_reason gpt_6_astra without = false
can_reason gpt_6_astra _ = true
can_reason _ effort = true

abbrev pub can_think : ClaudeModel → Thinking → Bool
can_think claude_opus_5_5 disabled = false
can_think _ thinking = true

-- `effort` or `thinking_mode`
abbrev pub service_mode : Service → Terms → Result PolicyError (Unit {0})
service_mode (gpt6 model effort window) t = do
  guard (same_mode (not_given window) t.tracking_only) context_mode_mismatch
  guard (can_reason model effort) astra_requires_reasoning
service_mode (anthropic model thinking) t = guard (can_think model thinking) opus_requires_adaptive

unfoldable pub validated : Service → Terms → Result PolicyError (Unit {0})
validated s t = do guard (fields s t) invalid_field; positive_cap s t; service_mode s t
