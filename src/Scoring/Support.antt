-- ===== src/Scoring/Support.antt =====
-- src/draftbench/scoring/decisions.py: what stands behind a pass.
use llm_draftbench.Prelude.{
  String, Bool, true, false, Option, none, some, List, [], ◌∷◌, not, ◌&&◌, ◌||◌, any, all, ◌≡◌,
  refl, ◌↔◌, arith, if◌then◌else◌, and-left, and-right, ap, sym, ◌∙◌,
}
use llm_draftbench.Scoring.Case.{CheckState, Decision, ReviewerAssessment, ReviewCheck, ScoreCase}
use llm_draftbench.Scoring.Decisions.{
  Effective, pass, abstain, measurement_error, has_text, unit_texts, bad_span, required_check_ids,
  state_of, is_invalid, is_failed, is_passed, is_decided, is_material, is_empty, of_decision,
  says_error, says_abstain, says_pass, assess_review, assess,
}

-- A review that supports its pass: every required check is there and passes, with one at least, no
-- finding is a major or critical defect, and the artifact and the evidence are sound.
pub record IsSupported (c : ScoreCase) (r : ReviewerAssessment) : Type 0 where
  pub says : says_pass r.decision ≡ true
  pub text : any (λ u. has_text u.content) c.artifact.units ≡ true
  pub valid : all (λ k. not (is_invalid k.state)) r.checks ≡ true
  pub spans : all (λ f. not (bad_span (unit_texts c) f)) r.findings ≡ true
  pub covered : is_empty (required_check_ids c.rubric.checks) ≡ false
  pub passed :
      all (λ i. is_passed (state_of i r.checks)) (required_check_ids c.rubric.checks) ≡ true
  pub clean : all (λ f. not (is_material f)) r.findings ≡ true

-- The tests of `assess_review`, in its order.
abbrev ladder : (e t v s a q m : Bool) → Effective → Effective
ladder e t v s a q m x =
    if e
    then measurement_error
    else if t
    then measurement_error
    else if v
    then measurement_error
    else if s
    then measurement_error
    else if a
    then abstain
    else if q
    then measurement_error
    else if m
    then measurement_error
    else x

-- All seven tests are passed.
record Passed (e t v s a q m : Bool) (x : Effective) : Type 0 where
  no_error : e ≡ false
  text : t ≡ false
  valid : v ≡ false
  spans : s ≡ false
  no_abstention : a ≡ false
  covered : q ≡ false
  consistent : m ≡ false
  verdict : x ≡ pass

ladder-Passed :
    (e t v s a q m : Bool) (x : Effective) → ladder e t v s a q m x ≡ pass → Passed e t v s a q m x
ladder-Passed false false false false false false false x h = record {
  no_error = refl;
  text = refl;
  valid = refl;
  spans = refl;
  no_abstention = refl;
  covered = refl;
  consistent = refl;
  verdict = h;
}
ladder-Passed true t v s a q m x h = cc
ladder-Passed false true v s a q m x h = cc
ladder-Passed false false true s a q m x h = cc
ladder-Passed false false false true a q m x h = cc
ladder-Passed false false false false true q m x h = cc
ladder-Passed false false false false false true m x h = cc
ladder-Passed false false false false false false true x h = cc

decided-pass : (d : Decision) → of_decision d ≡ pass → says_pass d ≡ true
decided-pass Decision.pass h = refl
decided-pass Decision.edit h = cc
decided-pass Decision.block h = cc
decided-pass Decision.abstain h = cc
decided-pass Decision.error h = cc

pass-decided :
    (d : Decision)
    → says_pass d ≡ true
    → (of_decision d ≡ pass) × (says_error d ≡ false) × (says_abstain d ≡ false)
pass-decided Decision.pass h = (refl, refl, refl)
pass-decided Decision.edit h = cc
pass-decided Decision.block h = cc
pass-decided Decision.abstain h = cc
pass-decided Decision.error h = cc

or-false : (a b : Bool) → (a || b) ≡ false → (a ≡ false) × (b ≡ false)
or-false false b h = (refl, h)
or-false true b h = cc

-- Quantifiers under a negation.
module _ {A : Type 0} (p : A → Bool) where
  all-not : (xs : List A) → any p xs ≡ false → all (λ x. not (p x)) xs ≡ true
  all-not [] h = refl
  all-not (x ∷ xs) h = ground (arith, all-not xs)

  any-not : (xs : List A) → all (λ x. not (p x)) xs ≡ true → any p xs ≡ false
  any-not [] h = refl
  any-not (x ∷ xs) h = ground (arith, any-not xs)

passed_lem :
    (o : Option CheckState) → not (is_decided o) ≡ false → is_failed o ≡ false → is_passed o ≡ true
passed_lem o h k = ground arith

required_passed :
    (checks : List ReviewCheck) (ids : List String)
    → any (λ i. not (is_decided (state_of i checks))) ids ≡ false
    → any (λ i. is_failed (state_of i checks)) ids ≡ false
    → all (λ i. is_passed (state_of i checks)) ids ≡ true
required_passed checks [] h k = refl
required_passed checks (i ∷ is) h k =
    ground (arith, h, k, required_passed checks is, passed_lem (state_of i checks))

only_passed :
    (o : Option CheckState)
    → is_passed o ≡ true
    → (not (is_decided o) ≡ false) × (is_failed o ≡ false)
only_passed (some CheckState.pass) h = (refl, refl)
only_passed (some CheckState.fail) h = cc
only_passed (some CheckState.unknown) h = cc
only_passed (some CheckState.inapplicable) h = cc
only_passed (some CheckState.invalid) h = cc
only_passed none h = cc

passed_required :
    (checks : List ReviewCheck) (ids : List String)
    → all (λ i. is_passed (state_of i checks)) ids ≡ true
    → (any (λ i. not (is_decided (state_of i checks))) ids ≡ false)
      × (any (λ i. is_failed (state_of i checks)) ids ≡ false)
passed_required checks [] h = (refl, refl)
passed_required checks (i ∷ is) h =
    let (a, b) = passed_required checks is (and-right (is_passed (state_of i checks)) _ h) in
    let (p, q) =
      only_passed (state_of i checks)
        (and-left _ (all (λ j. is_passed (state_of j checks)) is) h) in
    (rw (p, a) refl, rw (q, b) refl)

module _ (c : ScoreCase) (r : ReviewerAssessment) where
  abbrev undecided : Bool
  undecided = any (λ i. not (is_decided (state_of i r.checks))) (required_check_ids c.rubric.checks)

  abbrev failing : Bool
  failing = any (λ i. is_failed (state_of i r.checks)) (required_check_ids c.rubric.checks)

  supported_lem : assess_review c r ≡ pass → IsSupported c r
  unfolding assess_review
  supported_lem h =
      let p =
        ladder-Passed (says_error r.decision) (not (any (λ u. has_text u.content) c.artifact.units))
          (any (λ k. is_invalid k.state) r.checks) (any (bad_span (unit_texts c)) r.findings)
          (says_abstain r.decision) (is_empty (required_check_ids c.rubric.checks) || undecided)
          (says_pass r.decision && (failing || any is_material r.findings)) (of_decision r.decision)
          h in
      let says = decided-pass r.decision p.verdict in
      let (some_required, decided) =
        or-false (is_empty (required_check_ids c.rubric.checks)) undecided p.covered in
      let (no_failure, clean) =
        or-false failing (any is_material r.findings) (ground (arith, says, p.consistent)) in
      record {
        says = says;
        text = ground (arith, p.text);
        valid = all-not (λ k. is_invalid k.state) r.checks p.valid;
        spans = all-not (bad_span (unit_texts c)) r.findings p.spans;
        covered = some_required;
        passed = required_passed r.checks (required_check_ids c.rubric.checks) decided no_failure;
        clean = all-not is_material r.findings clean;
      }

  support_lem : IsSupported c r → assess_review c r ≡ pass
  unfolding assess_review
  support_lem s =
      let (is_pass, no_error, no_abstention) = pass-decided r.decision s.says in
      let (decided, no_failure) =
        passed_required r.checks (required_check_ids c.rubric.checks) s.passed in
      rw
        (
          no_error,
          s.text,
          any-not (λ k. is_invalid k.state) r.checks s.valid,
          any-not (bad_span (unit_texts c)) r.findings s.spans,
          no_abstention,
          s.covered,
          decided,
          no_failure,
          any-not is_material r.findings s.clean,
          s.says,
          is_pass,
        )
        refl

assess-review :
    (c : ScoreCase) (r : ReviewerAssessment) → c.review ≡ some r → assess c ≡ assess_review c r
unfolding assess
assess-review c r h = ap (λ o. elim o [ none ↦ measurement_error | some x ↦ assess_review c x ]) h

-- A case is assessed as a pass exactly if its review says pass and supports it.
pub assess-IsSupported :
    (c : ScoreCase) (r : ReviewerAssessment)
    → c.review ≡ some r
    → (assess c ≡ pass) ↔ IsSupported c r
assess-IsSupported c r h = (
  λ p. supported_lem c r (sym (assess-review c r h) ∙ p),
  λ s. assess-review c r h ∙ support_lem c r s,
)
