-- ===== src/Scoring/Checks/Verdicts.antt =====
-- src/draftbench/scoring/deterministic.py: the checks that are decided from the texts alone.
use llm_draftbench.Prelude.{
  ℕ, String, Bool, true, false, Option, none, some, List, [], ◌∷◌, map, not, ◌&&◌, ◌||◌, ◌==◌, ltb,
  nat_eq, any, length, sum_of, is_nil, if◌then◌else◌,
}
use llm_draftbench.Prelude.Text.{codes, opt_eq}
use llm_draftbench.Scoring.Case.{
  CheckState, Relevance, Inventory, LengthCheck, LiteralCheck, Span, CitationCheck, FactCheck,
  Check,
}
use llm_draftbench.Scoring.Decisions.{text_of, span_matches, is_asserted}
use llm_draftbench.Scoring.Valid.{is_absent}

-- The fixed reason codes.
pub data Reason : Type 0 where
  nonempty_artifact unknown_unit length_below_minimum length_above_maximum : Reason
  length_within_bounds required_literal_present required_literal_missing : Reason
  forbidden_literal_present forbidden_literal_absent supplied_source_missing : Reason
  source_unavailable observed_span_mismatch source_irrelevant relevance_unknown : Reason
  citation_supported reference_span_mismatch expected_literal_unanchored : Reason
  observed_literal_unanchored unauthorized_nonfactual reference_annotation_missing : Reason
  reference_mismatch reference_match declared_inapplicable authorized_nonfactual : Reason
  empty_artifact : Reason

-- `_Result`
abbrev pub Verdict : Type 0
Verdict = CheckState × Reason

abbrev pub starts_with : List ℕ → List ℕ → Bool
starts_with [] ys = true
starts_with (x ∷ xs) [] = false
starts_with (x ∷ xs) (y ∷ ys) = nat_eq x y && starts_with xs ys

abbrev pub occurs : List ℕ → List ℕ → Bool
occurs xs [] = is_nil xs
occurs xs (y ∷ ys) = starts_with xs (y ∷ ys) || occurs xs ys

-- `literal in text`
abbrev pub contains : String → String → Bool
contains literal text = occurs (codes literal) (codes text)

-- The texts that a check looks at; none if it names a unit that is not there.
abbrev pub selected : Option String → List (String × String) → Option (List String)
selected none texts = some (map (λ t. t.1) texts)
selected (some i) texts = elim (text_of i texts) [ none ↦ none | some t ↦ some (t ∷ []) ]

abbrev pub below_minimum : ℕ → Option ℕ → Bool
below_minimum n none = false
below_minimum n (some low) = ltb n low

abbrev pub above_maximum : ℕ → Option ℕ → Bool
above_maximum n none = false
above_maximum n (some high) = ltb high n

abbrev pub total_length : List String → ℕ
total_length texts = sum_of (λ t. length (codes t)) texts

abbrev pub length_verdict : LengthCheck → ℕ → Verdict
length_verdict k n =
    if below_minimum n k.min_chars
    then (CheckState.fail, length_below_minimum)
    else if above_maximum n k.max_chars
    then (CheckState.fail, length_above_maximum)
    else (CheckState.pass, length_within_bounds)

abbrev pub literal_present : LiteralCheck → List String → Bool
literal_present k texts = any (contains k.literal) texts

abbrev pub on_texts : (List String → Verdict) → Option (List String) → Verdict
on_texts f none = (CheckState.invalid, unknown_unit)
on_texts f (some ts) = f ts

-- `_missing_source`
abbrev pub missing_source : Inventory → Verdict
missing_source Inventory.complete = (CheckState.fail, supplied_source_missing)
missing_source _ = (CheckState.unknown, source_unavailable)

abbrev pub is_irrelevant : Relevance → Bool
is_irrelevant Relevance.irrelevant = true
is_irrelevant _ = false

abbrev pub is_unknown : Relevance → Bool
is_unknown Relevance.unknown = true
is_unknown _ = false

abbrev pub is_there : String → List (String × String) → Bool
is_there i texts = elim (text_of i texts) [ none ↦ false | some t ↦ true ]

-- `_citation`
unfoldable pub citation_verdict :
    Inventory → List (String × String) → List (String × String) → CitationCheck → Verdict
citation_verdict state texts sources k =
    if not (span_matches k.span texts)
    then (CheckState.invalid, observed_span_mismatch)
    else if is_irrelevant k.relevance
    then (CheckState.fail, source_irrelevant)
    else if not (is_there k.source_id sources)
    then missing_source state
    else if is_unknown k.relevance
    then (CheckState.unknown, relevance_unknown)
    else (CheckState.pass, citation_supported)

-- A value that is there but not in the quote.
abbrev pub unanchored : Option String → String → Bool
unanchored none quote = false
unanchored (some v) quote = not (contains v quote)

-- `reference.item_id` is not the source that is named.
abbrev pub elsewhere : Option String → String → Bool
elsewhere none item = false
elsewhere (some s) item = not (item == s)

-- `_fact_reference_error`, of the reference span.
abbrev pub reference_error : List (String × String) → FactCheck → Option Span → Option Reason
reference_error sources k none = none
reference_error sources k (some reference) =
    if elsewhere k.source_id reference.item_id
    then some reference_span_mismatch
    else if not (is_there reference.item_id sources)
    then none
    else if not (span_matches reference sources)
    then some reference_span_mismatch
    else if unanchored k.expected_value reference.quote
    then some expected_literal_unanchored
    else if unanchored k.expected_unit reference.quote
    then some expected_literal_unanchored
    else none

-- A malformed annotation comes before what follows.
abbrev pub on_error : Option Reason → Verdict → Verdict
on_error (some reason) rest = (CheckState.invalid, reason)
on_error none rest = rest

-- What is left once the source is named and the annotation is well formed.
abbrev pub compare_fact : Inventory → List (String × String) → FactCheck → Option String → Verdict
compare_fact state sources k none = (CheckState.unknown, reference_annotation_missing)
compare_fact state sources k (some source_id) =
    if not (is_there source_id sources)
    then missing_source state
    else if is_absent k.reference_span || is_absent k.expected_value
    then (CheckState.unknown, reference_annotation_missing)
    else if is_unknown k.relevance
    then (CheckState.unknown, relevance_unknown)
    else if not
        (opt_eq (some k.observed_value) k.expected_value && opt_eq k.observed_unit k.expected_unit)
    then (CheckState.fail, reference_mismatch)
    else (CheckState.pass, reference_match)

-- `_fact`
unfoldable pub fact_verdict :
    Inventory → List (String × String) → List (String × String) → FactCheck → Verdict
fact_verdict state texts sources k =
    if not (span_matches k.span texts)
    then (CheckState.invalid, observed_span_mismatch)
    else if not (contains k.observed_value k.span.quote) || unanchored k.observed_unit k.span.quote
    then (CheckState.invalid, observed_literal_unanchored)
    else on_error (reference_error sources k k.reference_span) (
        if not (is_asserted k.assertion_mode)
        then (CheckState.fail, unauthorized_nonfactual)
        else if is_irrelevant k.relevance
        then (CheckState.fail, source_irrelevant)
        else compare_fact state sources k k.source_id)

-- `_constraint`, `_citation` or `_fact`, by the kind of the check.
unfoldable pub verdict_of :
    Inventory → List (String × String) → List (String × String) → Check → Verdict
unfolding citation_verdict fact_verdict
verdict_of state texts sources (Check.nonempty b) = (CheckState.pass, nonempty_artifact)
verdict_of state texts sources (Check.length b k) =
    on_texts (λ ts. length_verdict k (total_length ts)) (selected k.unit_id texts)
verdict_of state texts sources (Check.required_literal b k) =
    on_texts
      (λ ts.
        if literal_present k ts
        then (CheckState.pass, required_literal_present)
        else (CheckState.fail, required_literal_missing))
      (selected k.unit_id texts)
verdict_of state texts sources (Check.forbidden_literal b k) =
    on_texts
      (λ ts.
        if literal_present k ts
        then (CheckState.fail, forbidden_literal_present)
        else (CheckState.pass, forbidden_literal_absent))
      (selected k.unit_id texts)
verdict_of state texts sources (Check.citation b k) = citation_verdict state texts sources k
verdict_of state texts sources (Check.fact b k) = fact_verdict state texts sources k
