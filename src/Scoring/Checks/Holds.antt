-- ===== src/Scoring/Checks/Holds.antt =====
-- src/draftbench/scoring/deterministic.py: what stands behind a check that passes.
use llm_draftbench.Prelude.{
  ℕ, ◌≤◌, String, Bool, true, false, Option, none, some, List, [], ◌∷◌, ◌++◌, ◌≡◌, ◌≢◌, ◌↔◌, ◌⊎◌,
  refl, arith, not, any, inl, inr, Bool-cases, Option-cases, if◌then◌else◌,
}
use llm_draftbench.Prelude.Text.{codes}
use llm_draftbench.Scoring.Case.{
  CheckState, Relevance, AssertionMode, Inventory, Span, LengthCheck, CitationCheck, FactCheck,
  Check,
}
use llm_draftbench.Scoring.Decisions.{text_of, span_matches, is_space}
use llm_draftbench.Scoring.Valid.{valid_span}
use llm_draftbench.Scoring.Checks.Verdicts.{
  Verdict, on_texts, length_verdict, is_irrelevant, is_unknown, is_there, below_minimum,
  above_maximum, missing_source, unanchored, selected, total_length, contains, citation_verdict,
}
use llm_draftbench.Scoring.Checks.Substrings.{Place, contains-Place, Quoted, span_matches-Quoted}

-- A literal stands in a text.
abbrev pub Stands : String → String → Type 0
Stands literal text = Place (codes literal) (codes text)

abbrev pub StandsIn : String → List String → Type 0
StandsIn literal [] = ⊥
StandsIn literal (t ∷ ts) = Stands literal t ⊎ StandsIn literal ts

abbrev pub AtLeast : Option ℕ → ℕ → Type 0
AtLeast none n = Unit {0}
AtLeast (some low) n = low ≤ n

abbrev pub AtMost : Option ℕ → ℕ → Type 0
AtMost none n = Unit {0}
AtMost (some high) n = n ≤ high

-- A unit that is there stands in the quote.
abbrev pub IfSome : Option String → String → Type 0
IfSome none quote = Unit {0}
IfSome (some v) quote = Stands v quote

pub record CitationHolds (texts sources : List (String × String)) (k : CitationCheck) : Type 0 where
  pub observed : Quoted texts k.span
  pub relevant : k.relevance ≡ Relevance.relevant
  pub text : String
  pub supplied : text_of k.source_id sources ≡ some text

-- The same value, with the same unit, stands in the quote of the artifact and in one of the source
-- that the fact names.
pub record FactHolds (texts sources : List (String × String)) (k : FactCheck) : Type 0 where
  pub asserted : k.assertion_mode ≡ AssertionMode.asserted
  pub relevant : k.relevance ≡ Relevance.relevant
  pub observed : Quoted texts k.span
  pub value : Stands k.observed_value k.span.quote
  pub unit : IfSome k.observed_unit k.span.quote
  pub reference : Span
  pub annotated : k.reference_span ≡ some reference
  pub named : k.source_id ≡ some reference.item_id
  pub quoted : Quoted sources reference
  pub same_value : k.expected_value ≡ some k.observed_value
  pub same_unit : k.expected_unit ≡ k.observed_unit
  pub anchored : Stands k.observed_value reference.quote
  pub unit_anchored : IfSome k.observed_unit reference.quote

-- A text has a character that is no white space.
pub record Written (text : String) : Type 0 where
  pub before : List ℕ
  pub char : ℕ
  pub after : List ℕ
  pub split : codes text ≡ before ++ (char ∷ after)
  pub visible : is_space char ≡ false

abbrev pub WrittenIn : List (String × String) → Type 0
WrittenIn [] = ⊥
WrittenIn (t ∷ ts) = Written t.1 ⊎ WrittenIn ts

-- What a check asks for.
abbrev pub Holds : List (String × String) → List (String × String) → Check → Type 0
Holds texts sources (Check.nonempty b) = WrittenIn texts
Holds texts sources (Check.length b k) =
    (ts : List String) × (selected k.unit_id texts ≡ some ts)
    × AtLeast k.min_chars (total_length ts)
    × AtMost k.max_chars (total_length ts)
Holds texts sources (Check.required_literal b k) =
    (ts : List String) × (selected k.unit_id texts ≡ some ts) × StandsIn k.literal ts
Holds texts sources (Check.forbidden_literal b k) =
    (ts : List String) × (selected k.unit_id texts ≡ some ts) × ¬ (StandsIn k.literal ts)
Holds texts sources (Check.citation b k) = CitationHolds texts sources k
Holds texts sources (Check.fact b k) = FactHolds texts sources k

-- One rung of the checks: the verdict of a test that fails is left aside.
pub skip :
    (t : Bool) (v w : Verdict)
    → v.0 ≢ CheckState.pass
    → (if t then v else w).0 ≡ CheckState.pass
    → (t ≡ false) × (w.0 ≡ CheckState.pass)
skip true v w n h = absurd (n h)
skip false v w n h = (refl, h)

pub choose :
    (t : Bool) (v w : Verdict)
    → w.0 ≢ CheckState.pass
    → (if t then v else w).0 ≡ CheckState.pass
    → t ≡ true
choose true v w n h = refl
choose false v w n h = absurd (n h)

pub fail_lem : CheckState.fail ≢ CheckState.pass
fail_lem h = cc

pub invalid_lem : CheckState.invalid ≢ CheckState.pass
invalid_lem h = cc

pub unknown_lem : CheckState.unknown ≢ CheckState.pass
unknown_lem h = cc

pub on_texts-pass :
    (f : List String → Verdict) (o : Option (List String))
    → (on_texts f o).0 ≡ CheckState.pass
    → (ts : List String) × (o ≡ some ts) × ((f ts).0 ≡ CheckState.pass)
on_texts-pass f none h = absurd (invalid_lem h)
on_texts-pass f (some ts) h = (ts, refl, h)

pub not-false : (b : Bool) → not b ≡ false → b ≡ true
not-false true h = refl
not-false false h = cc

pub there_lem :
    (i : String) (sources : List (String × String))
    → not (is_there i sources) ≡ false
    → (text : String) × (text_of i sources ≡ some text)
there_lem i sources h = elim (Option-cases (text_of i sources)) [
  | inl missing ↦ absurd (ground (arith, h, missing))
  | inr found ↦ found
]

pub relevant_lem :
    (r : Relevance) → is_irrelevant r ≡ false → is_unknown r ≡ false → r ≡ Relevance.relevant
relevant_lem Relevance.relevant h k = refl
relevant_lem Relevance.irrelevant h k = cc
relevant_lem Relevance.unknown h k = cc

pub missing_source-pass : (state : Inventory) → (missing_source state).0 ≢ CheckState.pass
missing_source-pass Inventory.complete h = cc
missing_source-pass Inventory.partial h = cc
missing_source-pass Inventory.unavailable h = cc

pub AtLeast-below : (n : ℕ) (low : Option ℕ) → (below_minimum n low ≡ false) ↔ AtLeast low n
AtLeast-below n none = (λ h. tt, λ h. refl)
AtLeast-below n (some low) = (λ h. ground arith, λ h. ground arith)

pub AtMost-above : (n : ℕ) (high : Option ℕ) → (above_maximum n high ≡ false) ↔ AtMost high n
AtMost-above n none = (λ h. tt, λ h. refl)
AtMost-above n (some high) = (λ h. ground arith, λ h. ground arith)

pub StandsIn-any :
    (literal : String) (ts : List String) → any (contains literal) ts ≡ true → StandsIn literal ts
StandsIn-any literal [] h = cc
StandsIn-any literal (t ∷ ts) h = elim (Bool-cases (contains literal t)) [
  | inl here ↦ inl ((contains-Place literal t).0 here)
  | inr away ↦ inr (StandsIn-any literal ts (ground (arith, h, away)))
]

pub any-StandsIn :
    (literal : String) (ts : List String) → StandsIn literal ts → any (contains literal) ts ≡ true
any-StandsIn literal [] h = absurd h
any-StandsIn literal (t ∷ ts) (inl here) = rw ((contains-Place literal t).1 here) refl
any-StandsIn literal (t ∷ ts) (inr there) = ground (arith, any-StandsIn literal ts there)

pub IfSome-unanchored :
    (v : Option String) (quote : String) → (unanchored v quote ≡ false) ↔ IfSome v quote
IfSome-unanchored none quote = (λ h. tt, λ h. refl)
IfSome-unanchored (some v) quote =
    (λ h. (contains-Place v quote).0 (ground arith), λ h. rw ((contains-Place v quote).1 h) refl)

pub length-AtLeast :
    (k : LengthCheck) (n : ℕ)
    → (length_verdict k n).0 ≡ CheckState.pass
    → AtLeast k.min_chars n × AtMost k.max_chars n
length-AtLeast k n h =
    let (low, rest) = skip (below_minimum n k.min_chars) _ _ fail_lem h in
    let (high, _) = skip (above_maximum n k.max_chars) _ _ fail_lem rest in
    ((AtLeast-below n k.min_chars).0 low, (AtMost-above n k.max_chars).0 high)

module _ (state : Inventory) (texts sources : List (String × String)) where
  pub citation-Holds :
      (k : CitationCheck)
      → valid_span k.span ≡ true
      → (citation_verdict state texts sources k).0 ≡ CheckState.pass
      → CitationHolds texts sources k
  unfolding citation_verdict
  citation-Holds k valid h =
      let (seen, h1) = skip (not (span_matches k.span texts)) _ _ invalid_lem h in
      let (relevant, h2) = skip (is_irrelevant k.relevance) _ _ fail_lem h1 in
      let (there, h3) =
        skip (not (is_there k.source_id sources)) _ _ (missing_source-pass state) h2 in
      let (known, _) = skip (is_unknown k.relevance) _ _ unknown_lem h3 in
      let (text, supplied) = there_lem k.source_id sources there in
      record {
        observed = (span_matches-Quoted texts k.span valid).0 (not-false _ seen);
        relevant = relevant_lem k.relevance relevant known;
        text = text;
        supplied = supplied;
      }
