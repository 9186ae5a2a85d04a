-- ===== src/Scoring/Decisions.antt =====
-- src/draftbench/scoring/decisions.py and models.py: what a review's decision is worth.
use llm_draftbench.Prelude.{
  ℕ, zero, suc, ◌-◌, String, Bool, true, false, Option, none, some, List, [], ◌∷◌, not, ◌&&◌, ◌||◌,
  ◌==◌, leb, nat_eq, any, length, map, if◌then◌else◌,
}
use llm_draftbench.Prelude.Text.{codes}
use llm_draftbench.Scoring.Case.{
  CheckState, Applicability, AssertionMode, Severity, FindingKind, Decision, Span, CheckBase, Check,
  Finding, ReviewCheck, ReviewerAssessment, ScoreCase,
}

-- What `assess_decision` returns.
pub data Effective : Type 0 where
  pass edit block abstain measurement_error : Effective

-- `str.isspace`, by code point.
pub is_space : ℕ → Bool
is_space c =
    (leb 9 c && leb c 13)
    || (leb 28 c && leb c 32)
    || nat_eq c 133
    || nat_eq c 160
    || nat_eq c 5760
    || (leb 8192 c && leb c 8202)
    || nat_eq c 8232
    || nat_eq c 8233
    || nat_eq c 8239
    || nat_eq c 8287
    || nat_eq c 12288

-- `unit.content.strip()` is not empty.
unfoldable pub has_text : String → Bool
unfolding is_space
has_text s = any (λ c. not (is_space c)) (codes s)

abbrev pub drop : ℕ → List ℕ → List ℕ
drop zero xs = xs
drop (suc n) [] = []
drop (suc n) (x ∷ xs) = drop n xs

abbrev pub take : ℕ → List ℕ → List ℕ
take zero xs = []
take (suc n) [] = []
take (suc n) (x ∷ xs) = x ∷ take n xs

abbrev pub same_codes : List ℕ → List ℕ → Bool
same_codes [] [] = true
same_codes (x ∷ xs) (y ∷ ys) = nat_eq x y && same_codes xs ys
same_codes [] (y ∷ ys) = false
same_codes (x ∷ xs) [] = false

-- The dicts of texts, in which the last of two equal keys counts.
abbrev pub unit_texts : ScoreCase → List (String × String)
unit_texts c = map (λ u. (u.unit_id, u.content)) c.artifact.units

abbrev pub text_of : String → List (String × String) → Option String
text_of i [] = none
text_of i ((k, t) ∷ rest) = elim (text_of i rest) [
  | some later ↦ some later
  | none ↦ if k == i then some t else none
]

abbrev pub span_matches : Span → List (String × String) → Bool
span_matches span texts = elim (text_of span.item_id texts) [
  | none ↦ false
  | some text ↦
      leb span.end (length (codes text))
      && same_codes (take (span.end - span.start) (drop span.start (codes text))) (codes span.quote)
]

abbrev pub bad_span : List (String × String) → Finding → Bool
bad_span texts f = elim f.span [ none ↦ false | some span ↦ not (span_matches span texts) ]

abbrev pub is_required : Applicability → Bool
is_required Applicability.required = true
is_required _ = false

abbrev pub is_asserted : AssertionMode → Bool
is_asserted AssertionMode.asserted = true
is_asserted _ = false

abbrev pub base_of : Check → CheckBase
base_of (Check.nonempty b) = b
base_of (Check.length b k) = b
base_of (Check.required_literal b k) = b
base_of (Check.forbidden_literal b k) = b
base_of (Check.citation b k) = b
base_of (Check.fact b k) = b

-- A fact that its author was free to make up.
abbrev pub is_free : Check → Bool
is_free (Check.fact b k) = k.authorized_nonfactual && not (is_asserted k.assertion_mode)
is_free _ = false

abbrev pub required_check_ids : List Check → List String
required_check_ids [] = []
required_check_ids (c ∷ cs) =
    if is_required (base_of c).applicability && not (is_free c)
    then (base_of c).check_id ∷ required_check_ids cs
    else required_check_ids cs

-- `checks.get(check_id)`, of a dict in which the last of two equal keys counts.
abbrev pub state_of : String → List ReviewCheck → Option CheckState
state_of i [] = none
state_of i (c ∷ cs) = elim (state_of i cs) [
  | some s ↦ some s
  | none ↦ if c.check_id == i then some c.state else none
]

abbrev pub is_invalid : CheckState → Bool
is_invalid CheckState.invalid = true
is_invalid _ = false

abbrev pub is_failed : Option CheckState → Bool
is_failed (some CheckState.fail) = true
is_failed _ = false

abbrev pub is_passed : Option CheckState → Bool
is_passed (some CheckState.pass) = true
is_passed _ = false

abbrev pub is_decided : Option CheckState → Bool
is_decided s = is_passed s || is_failed s

abbrev pub is_material : Finding → Bool
is_material f =
    elim f.kind [ FindingKind.defect ↦ true | FindingKind.suggestion ↦ false ] && elim f.severity [
      | Severity.critical ↦ true
      | Severity.major ↦ true
      | Severity.minor ↦ false
      | Severity.suggestion ↦ false
    ]

abbrev pub is_empty : List String → Bool
is_empty [] = true
is_empty (x ∷ xs) = false

-- The reviewer's decision, which cannot be `error` where this is asked.
abbrev pub of_decision : Decision → Effective
of_decision Decision.pass = pass
of_decision Decision.edit = edit
of_decision Decision.block = block
of_decision Decision.abstain = abstain
of_decision Decision.error = measurement_error

abbrev pub says_error : Decision → Bool
says_error Decision.error = true
says_error _ = false

abbrev pub says_abstain : Decision → Bool
says_abstain Decision.abstain = true
says_abstain _ = false

abbrev pub says_pass : Decision → Bool
says_pass Decision.pass = true
says_pass _ = false

-- `_assess_decision`, of a review that is there.
unfoldable pub assess_review : ScoreCase → ReviewerAssessment → Effective
assess_review c r =
    let units = c.artifact.units in
    let required = required_check_ids c.rubric.checks in
    if says_error r.decision
    then measurement_error
    else if not (any (λ u. has_text u.content) units)
    then measurement_error
    else if any (λ k. is_invalid k.state) r.checks
    then measurement_error
    else if any (bad_span (unit_texts c)) r.findings
    then measurement_error
    else if says_abstain r.decision
    then abstain
    else if is_empty required || any (λ i. not (is_decided (state_of i r.checks))) required
    then measurement_error
    else if says_pass r.decision
        && (any (λ i. is_failed (state_of i r.checks)) required || any is_material r.findings)
    then measurement_error
    else of_decision r.decision

-- `_assess_decision`
unfoldable pub assess : ScoreCase → Effective
unfolding assess_review
assess c = elim c.review [ none ↦ measurement_error | some r ↦ assess_review c r ]
