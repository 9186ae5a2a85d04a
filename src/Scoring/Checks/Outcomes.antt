-- ===== src/Scoring/Checks/Outcomes.antt =====
-- src/draftbench/scoring/deterministic.py: what the outcome of `score_deterministic` says.
use llm_draftbench.Prelude.{
  String, Bool, true, false, List, [], ◌∷◌, map, not, ◌&&◌, ◌||◌, ◌≡◌, ◌↔◌, refl, sym, ap, ◌∙◌,
  subst, arith, any, all, keep, length, is_nil, if◌then◌else◌, ok, and-left, and-right, and-intro,
  and-parts, not-true,
}
use llm_draftbench.Prelude.Text.{distinct}
use llm_draftbench.Scoring.Case.{CheckState, ScoringUnit, Applicability, Check, ScoreCase}
use llm_draftbench.Scoring.Decisions.{has_text, is_required, is_free, base_of, required_check_ids}
use llm_draftbench.Scoring.Valid.{Digests, check_ids, valid_case, valid_check}
use llm_draftbench.Scoring.Validity.{valid-fresh, valid-checks}
use llm_draftbench.Scoring.Checks.Verdicts.{verdict_of}
use llm_draftbench.Scoring.Checks.Deterministic.{
  Evidence, evidence_of, evaluate, no_states, rows_of, state_is_pass, state_is_fail,
  state_is_invalid, is_declared, invalid, fail, unassessed, pass, outcome_of, Deterministic,
  deterministic_of, score_deterministic,
}
use llm_draftbench.Scoring.Checks.Holds.{Holds, WrittenIn}
use llm_draftbench.Scoring.Checks.Applied.{any-WrittenIn}
use llm_draftbench.Scoring.Checks.Passing.{verdict-Holds}
use llm_draftbench.Scoring.Checks.Owed.{
  is_owed, distinct-Agrees, not-false, states_of, required_states-rows, length-rows, state_total,
  state_total-count_states,
}

-- Every check of the list holds.
abbrev pub AllHold : List (String × String) → List (String × String) → List Check → Type 0
AllHold texts sources [] = Unit {0}
AllHold texts sources (k ∷ ks) = Holds texts sources k × AllHold texts sources ks

-- There is text and a check that is owed, and every check that is owed holds.
pub record Passes (c : ScoreCase) : Type 0 where
  pub text : any (λ u. has_text u.content) c.artifact.units ≡ true
  pub owed : is_nil (keep is_owed c.rubric.checks) ≡ false
  pub hold : AllHold (evidence_of c).texts (evidence_of c).sources (keep is_owed c.rubric.checks)

record Passed (empty : Bool) (states : List CheckState) : Type 0 where
  full : empty ≡ false
  some_state : is_nil states ≡ false
  passed : all state_is_pass states ≡ true

rungs :
    (e i f n u : Bool)
    → (if e || i then invalid else if f then fail else if n || u then unassessed else pass) ≡ pass
    → (e ≡ false) × (n ≡ false) × (u ≡ false)
rungs false false false false false h = (refl, refl, refl)
rungs true i f n u h = cc
rungs false true f n u h = cc
rungs false false true n u h = cc
rungs false false false true u h = cc
rungs false false false false true h = cc

all_passed :
    (ss : List CheckState)
    → any (λ s. not (state_is_pass s)) ss ≡ false
    → all state_is_pass ss ≡ true
all_passed [] h = refl
all_passed (s ∷ ss) h = ground (arith, h, all_passed ss)

only_passed :
    (ss : List CheckState)
    → all state_is_pass ss ≡ true
    → (any state_is_invalid ss ≡ false)
      × (any state_is_fail ss ≡ false)
      × (any (λ s. not (state_is_pass s)) ss ≡ false)
only_passed [] h = (refl, refl, refl)
only_passed (CheckState.pass ∷ ss) h = only_passed ss h
only_passed (CheckState.fail ∷ ss) h = cc
only_passed (CheckState.unknown ∷ ss) h = cc
only_passed (CheckState.inapplicable ∷ ss) h = cc
only_passed (CheckState.invalid ∷ ss) h = cc

outcome_of-Passed :
    (empty : Bool) (states : List CheckState)
    → (outcome_of empty states ≡ pass) ↔ Passed empty states
outcome_of-Passed empty states = (
  λ h.
      let (full, some_state, passed) =
        rungs empty (any state_is_invalid states) (any state_is_fail states) (is_nil states) _ h in
      record { full = full; some_state = some_state; passed = all_passed states passed },
  λ p.
      let (valid, unfailed, passed) = only_passed states p.passed in
      rw (p.full, valid, unfailed, p.some_state, passed) refl,
)

required_lem : (a : Applicability) → is_required a ≡ true → is_declared a ≡ false
required_lem Applicability.required h = refl
required_lem Applicability.optional h = cc
required_lem Applicability.inapplicable h = cc

evaluate-owed :
    (e : Evidence) (k : Check)
    → e.empty ≡ false
    → is_owed k ≡ true
    → evaluate e k ≡ verdict_of e.state e.texts e.sources k
unfolding evaluate
evaluate-owed e k full owed =
    let required = and-left (is_required (base_of k).applicability) _ owed in
    let asserted = and-right _ (not (is_free k)) owed in
    let declared : is_declared (base_of k).applicability ≡ false =
      required_lem (base_of k).applicability required in
    rw (declared, not-true (is_free k) asserted, full) refl

passed-state : (s : CheckState) → (state_is_pass s ≡ true) ↔ (s ≡ CheckState.pass)
passed-state CheckState.pass = (λ h. refl, λ h. refl)
passed-state CheckState.fail = (λ h. cc, λ h. cc)
passed-state CheckState.unknown = (λ h. cc, λ h. cc)
passed-state CheckState.inapplicable = (λ h. cc, λ h. cc)
passed-state CheckState.invalid = (λ h. cc, λ h. cc)

-- A check that is owed and valid.
abbrev is_sound : Check → Bool
is_sound k = is_owed k && valid_check k

all-keep : (ks : List Check) → all valid_check ks ≡ true → all is_sound (keep is_owed ks) ≡ true
all-keep [] h = refl
all-keep (k ∷ ks) h = ground (arith, h, all-keep ks)

module _ (e : Evidence) (full : e.empty ≡ false) (written : WrittenIn e.texts) where
  state-Holds :
      (k : Check)
      → is_sound k ≡ true
      → (state_is_pass (evaluate e k).0 ≡ true) ↔ Holds e.texts e.sources k
  state-Holds k sound =
      let (owed, valid) = and-parts (is_owed k) (valid_check k) sound in
      let same = ap (λ v. v.0) (evaluate-owed e k full owed) in
      let (there, back) = verdict-Holds e.state e.texts e.sources k written valid in
      let (is_pass, passes) = passed-state (evaluate e k).0 in
      (λ h. there (sym same ∙ is_pass h), λ h. passes (same ∙ back h))

  states-AllHold :
      (ks : List Check)
      → all is_sound ks ≡ true
      → (all state_is_pass (map (λ k. (evaluate e k).0) ks) ≡ true) ↔ AllHold e.texts e.sources ks
  states-AllHold [] h = (λ x. tt, λ x. refl)
  states-AllHold (k ∷ ks) h =
      let here = state-Holds k (and-left _ (all is_sound ks) h) in
      let rest = states-AllHold ks (and-right (is_sound k) _ h) in
      (
        λ x. (
          here.0 (and-left _ (all state_is_pass (map (λ k. (evaluate e k).0) ks)) x),
          rest.0 (and-right (state_is_pass (evaluate e k).0) _ x),
        ),
        λ x. and-intro _ _ (here.1 x.0) (rest.1 x.1),
      )

is_nil-map {ℓ κ} :
    {A : Type ℓ} {B : Type κ} (f : A → B) (xs : List A) → is_nil (map f xs) ≡ is_nil xs
is_nil-map f [] = refl
is_nil-map f (x ∷ xs) = refl

any-texts :
    (units : List ScoringUnit)
    → any (λ (t : String × String). has_text t.1) (map (λ u. (u.unit_id, u.content)) units)
      ≡ any (λ u. has_text u.content) units
any-texts [] = refl
any-texts (u ∷ us) = ap (λ b. has_text u.content || b) (any-texts us)

outcome-Passes :
    (c : ScoreCase)
    → distinct (check_ids c.rubric.checks) ≡ true
    → all valid_check c.rubric.checks ≡ true
    → ((deterministic_of c).outcome ≡ pass) ↔ Passes c
unfolding deterministic_of
outcome-Passes c fresh valid =
    let e = evidence_of c in
    let owed = keep is_owed c.rubric.checks in
    let states =
      required_states-rows e (required_check_ids c.rubric.checks) c.rubric.checks
        (distinct-Agrees c.rubric.checks fresh) in
    let written = any-texts c.artifact.units in
    let texts = any-WrittenIn e.texts in
    let sound = all-keep c.rubric.checks valid in
    let (there, back) = outcome_of-Passed e.empty (states_of e c.rubric.checks) in
    (
      λ h.
          let p = there (subst (λ ss. outcome_of e.empty ss ≡ pass) states h) in
          record {
            text = sym written ∙ not-false _ p.full;
            owed = sym (is_nil-map (λ k. (evaluate e k).0) owed) ∙ p.some_state;
            hold = (states-AllHold e p.full (texts.0 (not-false _ p.full)) owed sound).0 p.passed;
          },
      λ p.
          let full : e.empty ≡ false = ap (λ b. not b) (written ∙ p.text) in
          subst (λ ss. outcome_of e.empty ss ≡ pass) (sym states)
            (back (record {
              full = full;
              some_state = is_nil-map (λ k. (evaluate e k).0) owed ∙ p.owed;
              passed = (states-AllHold e full (texts.0 (written ∙ p.text)) owed sound).1 p.hold;
            })),
    )

states-state_total :
    (c : ScoreCase) → state_total (deterministic_of c).states ≡ length c.rubric.checks
unfolding deterministic_of
states-state_total c =
    let rows = rows_of (evidence_of c) c.rubric.checks in
    omega
      (arith, state_total-count_states rows no_states, length-rows (evidence_of c) c.rubric.checks)

-- `score_deterministic` returns for every valid case. Each check of the rubric has a row and is
-- counted once among the states, and the outcome is a pass exactly if there is text and a required
-- check, and what each required check asks for holds; a fact that may be made up is not required.
pub score_deterministic-Passes :
    (digests : Digests) (c : ScoreCase)
    → valid_case digests c ≡ true
    → (d : Deterministic) × (score_deterministic digests c ≡ ok d)
      × (length d.checks ≡ length c.rubric.checks)
      × (state_total d.states ≡ length c.rubric.checks)
      × ((d.outcome ≡ pass) ↔ Passes c)
unfolding score_deterministic deterministic_of
score_deterministic-Passes digests c valid = (
  deterministic_of c,
  rw valid refl,
  length-rows (evidence_of c) c.rubric.checks,
  states-state_total c,
  outcome-Passes c (valid-fresh digests c valid) (valid-checks digests c valid),
)
