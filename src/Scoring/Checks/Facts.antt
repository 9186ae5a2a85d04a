-- ===== src/Scoring/Checks/Facts.antt =====
-- src/draftbench/scoring/deterministic.py: a fact that passes, and what it asks for.
use llm_draftbench.Prelude.{
  String, Bool, true, false, Option, none, some, List, ◌≡◌, refl, sym, ap, ◌∙◌, subst, inl, inr,
  Option-cases, arith, not, ◌&&◌, ◌||◌, if◌then◌else◌, and-left, and-right, and-parts,
}
use llm_draftbench.Prelude.Text.{opt_eq, opt_eq→path, path→opt_eq, eq→path, eq_self}
use llm_draftbench.Scoring.Case.{CheckState, AssertionMode, Inventory, Span, FactCheck}
use llm_draftbench.Scoring.Decisions.{text_of, span_matches, is_asserted}
use llm_draftbench.Scoring.Valid.{is_absent, if_some, valid_span}
use llm_draftbench.Scoring.Checks.Verdicts.{
  Reason, reference_match, Verdict, reference_error, elsewhere, is_there, unanchored, on_error,
  contains, compare_fact, fact_verdict, is_irrelevant, is_unknown,
}
use llm_draftbench.Scoring.Checks.Substrings.{contains-Place, span_matches-Quoted}
use llm_draftbench.Scoring.Checks.Holds.{
  FactHolds, skip, fail_lem, invalid_lem, unknown_lem, not-false, relevant_lem, missing_source-pass,
  IfSome-unanchored,
}

or-false : (a b : Bool) → (a || b) ≡ false → (a ≡ false) × (b ≡ false)
or-false false b h = (refl, h)
or-false true b h = cc

on_error-pass :
    (o : Option Reason) (v : Verdict)
    → (on_error o v).0 ≡ CheckState.pass
    → (o ≡ none) × (v.0 ≡ CheckState.pass)
on_error-pass none v h = (refl, h)
on_error-pass (some r) v h = absurd (invalid_lem h)

asserted_lem : (m : AssertionMode) → not (is_asserted m) ≡ false → m ≡ AssertionMode.asserted
asserted_lem AssertionMode.asserted h = refl
asserted_lem AssertionMode.hypothetical h = cc
asserted_lem AssertionMode.fictional h = cc

-- What a reference annotation without a fault says of a source that is there.
record Anchored (sources : List (String × String)) (k : FactCheck) (source : String)
    (reference : Span) : Type 0 where
  named : reference.item_id ≡ source
  quoted : span_matches reference sources ≡ true
  value : unanchored k.expected_value reference.quote ≡ false
  unit : unanchored k.expected_unit reference.quote ≡ false

no_fault :
    (t : Bool) (r : Reason) (o : Option Reason)
    → ◌≡◌ {A = Option Reason} (if t then some r else o) none
    → (t ≡ false) × (o ≡ none)
no_fault true r o h = cc
no_fault false r o h = (refl, h)

skip_fault :
    (t : Bool) (o : Option Reason)
    → t ≡ false
    → ◌≡◌ {A = Option Reason} (if t then none else o) none
    → o ≡ none
skip_fault true o f h = cc
skip_fault false o f h = h

not_of_true : (b : Bool) → b ≡ true → not b ≡ false
not_of_true b h = rw h refl

span_matches-there :
    (s : Span) (texts : List (String × String))
    → span_matches s texts ≡ true
    → is_there s.item_id texts ≡ true
span_matches-there s texts h = elim (Option-cases (text_of s.item_id texts)) [
  | inl missing ↦ absurd (ground (arith, h, missing))
  | inr (t, found) ↦ rw (is_there, found) refl
]

some_lem {ℓ} : {A : Type ℓ} (o : Option A) → is_absent o ≡ false → (a : A) × (o ≡ some a)
some_lem none h = cc
some_lem (some a) h = (a, refl)

module _ (sources : List (String × String)) (k : FactCheck) where
  reference_error-Anchored :
      (source : String) (reference : Span)
      → k.source_id ≡ some source
      → is_there source sources ≡ true
      → reference_error sources k (some reference) ≡ none
      → Anchored sources k source reference
  reference_error-Anchored source reference named there h =
      let (here, h1) = no_fault (elsewhere k.source_id reference.item_id) _ _ h in
      let same =
        eq→path reference.item_id source
          (not-false _ (sym (ap (λ o. elsewhere o reference.item_id) named) ∙ here)) in
      let h2 =
        skip_fault (not (is_there reference.item_id sources)) _
          (not_of_true _ (subst (λ i. is_there i sources ≡ true) (sym same) there)) h1 in
      let (quoted, h3) = no_fault (not (span_matches reference sources)) _ _ h2 in
      let (value, h4) = no_fault (unanchored k.expected_value reference.quote) _ _ h3 in
      let (unit, _) = no_fault (unanchored k.expected_unit reference.quote) _ _ h4 in
      record { named = same; quoted = not-false _ quoted; value = value; unit = unit }

  Anchored-reference_error :
      (source : String) (reference : Span)
      → k.source_id ≡ some source
      → Anchored sources k source reference
      → reference_error sources k (some reference) ≡ none
  Anchored-reference_error source reference named a =
      let here : elsewhere k.source_id reference.item_id ≡ false =
        rw (named, a.named, eq_self source) refl in
      rw (here, span_matches-there reference sources a.quoted, a.quoted, a.value, a.unit) refl

  compare_fact-pass :
      (state : Inventory) (source : String)
      → (compare_fact state sources k (some source)).0 ≡ CheckState.pass
      → (is_there source sources ≡ true)
        × (is_absent k.reference_span ≡ false)
        × (is_unknown k.relevance ≡ false)
        × (k.expected_value ≡ some k.observed_value)
        × (k.expected_unit ≡ k.observed_unit)
  compare_fact-pass state source h =
      let (there, h1) = skip (not (is_there source sources)) _ _ (missing_source-pass state) h in
      let (annotated, h2) =
        skip (is_absent k.reference_span || is_absent k.expected_value) _ _ unknown_lem h1 in
      let (known, h3) = skip (is_unknown k.relevance) _ _ unknown_lem h2 in
      let (equal, _) =
        skip
          (not (
            opt_eq (some k.observed_value) k.expected_value
            && opt_eq k.observed_unit k.expected_unit))
          _ _ fail_lem h3 in
      let both = not-false _ equal in
      (
        not-false _ there,
        (or-false _ (is_absent k.expected_value) annotated).0,
        known,
        sym (
            opt_eq→path (some k.observed_value) k.expected_value
              (and-left _ (opt_eq k.observed_unit k.expected_unit) both)),
        sym (
            opt_eq→path k.observed_unit k.expected_unit
              (and-right (opt_eq (some k.observed_value) k.expected_value) _ both)),
      )

module _ (state : Inventory) (texts sources : List (String × String)) where
  pub fact-Holds :
      (k : FactCheck)
      → (valid_span k.span && if_some valid_span k.reference_span) ≡ true
      → (fact_verdict state texts sources k).0 ≡ CheckState.pass
      → FactHolds texts sources k
  unfolding fact_verdict
  fact-Holds k valid h =
      let (here, elsewhere_valid) = and-parts (valid_span k.span) _ valid in
      let (seen, h1) = skip (not (span_matches k.span texts)) _ _ invalid_lem h in
      let (anchored, h2) =
        skip
          (not (contains k.observed_value k.span.quote) || unanchored k.observed_unit k.span.quote)
          _ _ invalid_lem h1 in
      let (value, unit) = or-false (not (contains k.observed_value k.span.quote)) _ anchored in
      let (sound, h3) = on_error-pass (reference_error sources k k.reference_span) _ h2 in
      let (asserted, h4) = skip (not (is_asserted k.assertion_mode)) _ _ fail_lem h3 in
      let (relevant, h5) = skip (is_irrelevant k.relevance) _ _ fail_lem h4 in
      elim (Option-cases k.source_id) [
        | inl unnamed ↦ absurd (
            unknown_lem
              (subst (λ o. (compare_fact state sources k o).0 ≡ CheckState.pass) unnamed h5))
        | inr (source, named) ↦
            let (there, annotated, known, same_value, same_unit) =
              compare_fact-pass sources k state source
                (subst (λ o. (compare_fact state sources k o).0 ≡ CheckState.pass) named h5) in
            let (reference, is_reference) = some_lem k.reference_span annotated in
            let a =
              reference_error-Anchored sources k source reference named there
                (subst (λ o. reference_error sources k o ≡ none) is_reference sound) in
            record {
              asserted = asserted_lem k.assertion_mode asserted;
              relevant = relevant_lem k.relevance relevant known;
              observed = (span_matches-Quoted texts k.span here).0 (not-false _ seen);
              value = (contains-Place k.observed_value k.span.quote).0 (not-false _ value);
              unit = (IfSome-unanchored k.observed_unit k.span.quote).0 unit;
              reference = reference;
              annotated = is_reference;
              named = named ∙ ap some (sym a.named);
              quoted =
                  (span_matches-Quoted sources reference
                      (subst (λ o. if_some valid_span o ≡ true) is_reference elsewhere_valid)).0
                    a.quoted;
              same_value = same_value;
              same_unit = same_unit;
              anchored =
                  (IfSome-unanchored (some k.observed_value) reference.quote).0
                    (subst (λ o. unanchored o reference.quote ≡ false) same_value a.value);
              unit_anchored =
                  (IfSome-unanchored k.observed_unit reference.quote).0
                    (subst (λ o. unanchored o reference.quote ≡ false) same_unit a.unit);
            }
      ]

  pub Holds-fact :
      (k : FactCheck)
      → (valid_span k.span && if_some valid_span k.reference_span) ≡ true
      → FactHolds texts sources k
      → fact_verdict state texts sources k ≡ (CheckState.pass, reference_match)
  unfolding fact_verdict
  Holds-fact k valid f =
      let (here, elsewhere_valid) = and-parts (valid_span k.span) _ valid in
      let observed = (span_matches-Quoted texts k.span here).1 f.observed in
      let quoted : span_matches f.reference sources ≡ true =
        (span_matches-Quoted sources f.reference
            (subst (λ o. if_some valid_span o ≡ true) f.annotated elsewhere_valid)).1
          f.quoted in
      let sound : reference_error sources k (some f.reference) ≡ none =
        Anchored-reference_error sources k f.reference.item_id f.reference f.named (record {
          named = refl;
          quoted = quoted;
          value =
              rw f.same_value
                ((IfSome-unanchored (some k.observed_value) f.reference.quote).1 f.anchored);
          unit =
              rw f.same_unit
                ((IfSome-unanchored k.observed_unit f.reference.quote).1 f.unit_anchored);
        }) in
      rw
        (
          observed,
          (contains-Place k.observed_value k.span.quote).1 f.value,
          (IfSome-unanchored k.observed_unit k.span.quote).1 f.unit,
          f.annotated,
          sound,
          f.asserted,
          f.relevant,
          f.named,
          span_matches-there f.reference sources quoted,
          f.same_value,
          f.same_unit,
          eq_self k.observed_value,
          path→opt_eq k.observed_unit k.observed_unit refl,
        )
        refl
