-- ===== src/Tariff/Usage.antt =====
-- src/draftbench/adapters/openai_contract.py and anthropic_contract.py: `_usage`, which reads what a
-- provider says that a request used, for the policies of Tariff.Policy. Counts are naturals and the
-- mappings have the types that the code tests with type(); the first of the pair that `_usage`
-- returns is its argument, so that only the cost is kept.
use llm_draftbench.Prelude.{
  ℕ, ◌+◌, ◌*◌, Bool, true, false, Option, none, some, List, [], ◌∷◌, ◌&&◌, ◌||◌, not, leb, nat_eq,
  all, any, Result, ok, err, guard, ◌>>◌, if◌then◌else◌, String, ◌==◌,
}
use llm_draftbench.Tariff.Policy.{Service, gpt6, anthropic, Terms, Cost, context_window, token_cost}

pub data UsageError : Type 0 where
  invalid_usage : UsageError

-- A mapping of names to counts, where a count may be None.
abbrev pub Details : Type 0
Details = Option (List (String × Option ℕ))

pub record OpenaiUsage : Type 0 where
  pub input_tokens : ℕ
  pub output_tokens : ℕ
  pub total_tokens : ℕ
  pub input_tokens_details : Details
  pub output_tokens_details : Details

-- `others` are the keys that the code does not know.
pub record AnthropicUsage : Type 0 where
  pub input_tokens : ℕ
  pub output_tokens : ℕ
  pub cache_creation_input_tokens : Option ℕ
  pub cache_read_input_tokens : Option ℕ
  pub output_tokens_details : Details
  pub cache_creation : Details
  pub server_tool_use : Details
  pub inference_geo : Option String
  pub service_tier : Option String
  pub speed : Option String
  pub others : List (String × Option ℕ)

abbrev pub Reported : Service → Type 0
Reported (gpt6 model effort window) = OpenaiUsage
Reported (anthropic model thinking) = AnthropicUsage

-- A comparison with None raises a TypeError, which both functions turn into `invalid_usage`.
abbrev pub up_to : ℕ → Option ℕ → Bool
up_to n none = false
up_to n (some most) = leb n most

abbrev pub count_allowed : (most : ℕ) (allowed : List String) → String × Option ℕ → Bool
count_allowed most allowed (name, none) = true
count_allowed most allowed (name, some n) =
    leb n most && (any (λ other. name == other) allowed || nat_eq n 0)

abbrev pub details : Details → (most : ℕ) (allowed : List String) → Bool
details none most allowed = true
details (some counts) most allowed = all (count_allowed most allowed) counts

-- Whether a name has a count that is not zero.
abbrev pub has_count : String → Details → Bool
has_count name none = false
has_count name (some []) = false
has_count name (some ((other, none) ∷ counts)) = has_count name (some counts)
has_count name (some ((other, some n) ∷ counts)) =
    (name == other && not (nat_eq n 0)) || has_count name (some counts)

abbrev pub openai_long : Terms → Result UsageError (Option Cost)
openai_long t = if t.tracking_only then ok none else err invalid_usage

abbrev pub openai_short : Terms → OpenaiUsage → Result UsageError (Option Cost)
openai_short t u =
    if leb u.input_tokens 272000
    then ok (some (token_cost t u.input_tokens u.output_tokens 1))
    else openai_long t

abbrev pub openai_estimate : Terms → OpenaiUsage → Result UsageError (Option Cost)
openai_estimate t u =
    if has_count "cache_write_tokens" u.input_tokens_details then ok none else openai_short t u

abbrev pub openai_counts : Service → Terms → OpenaiUsage → Bool
openai_counts s t u =
    nat_eq u.total_tokens (u.input_tokens + u.output_tokens)
    && (t.tracking_only
        || (up_to u.input_tokens (context_window s) && up_to u.output_tokens t.max_output_tokens))

abbrev pub openai_details : OpenaiUsage → Bool
openai_details u =
    details u.input_tokens_details u.input_tokens ("cached_tokens" ∷ "cache_write_tokens" ∷ [])
    && details u.output_tokens_details u.output_tokens ("reasoning_tokens" ∷ [])

abbrev pub openai_usage : Service → Terms → OpenaiUsage → Result UsageError (Option Cost)
openai_usage s t u = do
  guard (openai_counts s t u) invalid_usage
  guard (openai_details u) invalid_usage
  openai_estimate t u

abbrev pub or_zero : Option ℕ → ℕ
or_zero none = 0
or_zero (some n) = n

abbrev pub total_count : List (String × Option ℕ) → ℕ
total_count [] = 0
total_count ((name, none) ∷ counts) = total_count counts
total_count ((name, some n) ∷ counts) = n + total_count counts

abbrev pub creation_counted : Details → ℕ → Bool
creation_counted none written = true
creation_counted (some counts) written = leb (total_count counts) written

abbrev pub setting : String → Option String → Bool
setting only none = true
setting only (some value) = value == only

abbrev pub written : AnthropicUsage → ℕ
written u = or_zero u.cache_creation_input_tokens

abbrev pub cached : AnthropicUsage → ℕ
cached u = or_zero u.cache_read_input_tokens

abbrev pub anthropic_counts : Service → Terms → AnthropicUsage → Bool
anthropic_counts s t u =
    up_to u.input_tokens (context_window s)
    && up_to (written u) (context_window s)
    && up_to (cached u) (context_window s)
    && up_to u.output_tokens t.max_output_tokens
    && up_to (u.input_tokens + written u + cached u) (context_window s)

abbrev pub anthropic_details : AnthropicUsage → Bool
anthropic_details u =
    details u.output_tokens_details u.output_tokens ("thinking_tokens" ∷ [])
    && details u.cache_creation (written u)
        ("ephemeral_5m_input_tokens" ∷ "ephemeral_1h_input_tokens" ∷ [])
    && creation_counted u.cache_creation (written u)
    && details u.server_tool_use 0 []
    && setting "global" u.inference_geo
    && setting "standard" u.service_tier
    && setting "standard" u.speed
    && all (count_allowed 0 []) u.others

-- Each test raises the same error.
abbrev pub anthropic_usage : Service → Terms → AnthropicUsage → Result UsageError (Option Cost)
anthropic_usage s t u = do
  guard (anthropic_counts s t u) invalid_usage
  guard (anthropic_details u) invalid_usage
  ok (some (token_cost t (u.input_tokens + 2 * written u + cached u) u.output_tokens 1))

-- The upper estimate of a request's cost, where there is one.
unfoldable pub usage : (s : Service) → Terms → Option (Reported s) → Result UsageError (Option Cost)
usage s t none = ok none
usage (gpt6 model effort window) t (some u) = openai_usage (gpt6 model effort window) t u
usage (anthropic model thinking) t (some u) = anthropic_usage (anthropic model thinking) t u
