-- ===== src/Scoring/Checks/Applied.antt =====
-- src/draftbench/scoring/deterministic.py: `_evaluate` of a case's check, and what makes it pass.
use llm_draftbench.Prelude.{
  ℕ, String, Bool, true, false, List, [], ◌∷◌, ◌++◌, not, ◌&&◌, any, ◌≡◌, ◌≢◌, ◌↔◌, refl, ap, inl,
  inr, arith, Bool-cases,
}
use llm_draftbench.Prelude.Text.{codes}
use llm_draftbench.Scoring.Case.{CheckState, Applicability, AssertionMode, Check, ScoreCase}
use llm_draftbench.Scoring.Decisions.{is_space, has_text, is_free, is_asserted, base_of}
use llm_draftbench.Scoring.Valid.{valid_check}
use llm_draftbench.Scoring.Checks.Deterministic.{evidence_of, is_declared, evaluate}
use llm_draftbench.Scoring.Checks.Holds.{Written, WrittenIn, Holds, skip, invalid_lem}
use llm_draftbench.Scoring.Checks.Owed.{not-false}
use llm_draftbench.Scoring.Checks.Passing.{verdict-Holds}

-- A character that is no white space, and where it stands.
record Visible (xs : List ℕ) : Type 0 where
  before : List ℕ
  char : ℕ
  after : List ℕ
  split : xs ≡ before ++ (char ∷ after)
  visible : is_space char ≡ false

any-Visible : (xs : List ℕ) → any (λ c. not (is_space c)) xs ≡ true → Visible xs
any-Visible [] h = cc
any-Visible (x ∷ xs) h = elim (Bool-cases (is_space x)) [
  | inl space ↦
      let v = any-Visible xs (ground (arith, h, space)) in
      record {
        before = x ∷ v.before;
        char = v.char;
        after = v.after;
        split = ap (λ ys. x ∷ ys) v.split;
        visible = v.visible;
      }
  | inr visible ↦ record { before = []; char = x; after = xs; split = refl; visible = visible }
]

visible-any :
    (before after : List ℕ) (c : ℕ)
    → is_space c ≡ false
    → any (λ d. not (is_space d)) (before ++ (c ∷ after)) ≡ true
visible-any [] after c h = rw h refl
visible-any (x ∷ before) after c h = ground (arith, visible-any before after c h)

has_text-Written : (s : String) → (has_text s ≡ true) ↔ Written s
unfolding has_text
has_text-Written s = (
  λ h.
      let v = any-Visible (codes s) h in
      record {
        before = v.before;
        char = v.char;
        after = v.after;
        split = v.split;
        visible = v.visible;
      },
  λ w. rw w.split (visible-any w.before w.after w.char w.visible),
)

pub any-WrittenIn :
    (texts : List (String × String))
    → (any (λ (t : String × String). has_text t.1) texts ≡ true) ↔ WrittenIn texts
any-WrittenIn [] = (λ h. cc, λ h. absurd h)
any-WrittenIn (t ∷ ts) = (
  λ h. elim (Bool-cases (has_text t.1)) [
    | inl here ↦ inl ((has_text-Written t.1).0 here)
    | inr away ↦ inr ((any-WrittenIn ts).0 (ground (arith, h, away)))
  ],
  λ w. elim w [
    | inl here ↦ rw ((has_text-Written t.1).1 here) refl
    | inr there ↦ ground (arith, (any-WrittenIn ts).1 there)
  ],
)

-- A fact that its author was free to make up.
abbrev pub Free : Check → Type 0
Free (Check.fact b k) =
    (k.assertion_mode ≢ AssertionMode.asserted) × (k.authorized_nonfactual ≡ true)
Free (Check.nonempty b) = ⊥
Free (Check.length b k) = ⊥
Free (Check.required_literal b k) = ⊥
Free (Check.forbidden_literal b k) = ⊥
Free (Check.citation b k) = ⊥

-- A check applies unless its rubric or its author's freedom says that it does not.
pub record Applies (k : Check) : Type 0 where
  pub declared : (base_of k).applicability ≢ Applicability.inapplicable
  pub bound : ¬ (Free k)

declared_lem : (a : Applicability) → (is_declared a ≡ false) ↔ (a ≢ Applicability.inapplicable)
declared_lem Applicability.required = (λ h e. cc, λ h. refl)
declared_lem Applicability.optional = (λ h e. cc, λ h. refl)
declared_lem Applicability.inapplicable = (λ h. cc, λ h. absurd (h refl))

free_fact :
    (m : AssertionMode) (b : Bool)
    → ((b && not (is_asserted m)) ≡ false) ↔ ¬ ((m ≢ AssertionMode.asserted) × (b ≡ true))
free_fact AssertionMode.asserted b = (λ h f. f.0 refl, λ h. ground arith)
free_fact AssertionMode.hypothetical true = (λ h. cc, λ h. absurd (h (λ e. cc, refl)))
free_fact AssertionMode.hypothetical false = (λ h f. let e = f.1 in cc, λ h. refl)
free_fact AssertionMode.fictional true = (λ h. cc, λ h. absurd (h (λ e. cc, refl)))
free_fact AssertionMode.fictional false = (λ h f. let e = f.1 in cc, λ h. refl)

free_lem : (k : Check) → (is_free k ≡ false) ↔ ¬ (Free k)
free_lem (Check.fact b k) = free_fact k.assertion_mode k.authorized_nonfactual
free_lem (Check.nonempty b) = (λ h f. f, λ h. refl)
free_lem (Check.length b k) = (λ h f. f, λ h. refl)
free_lem (Check.required_literal b k) = (λ h f. f, λ h. refl)
free_lem (Check.forbidden_literal b k) = (λ h f. f, λ h. refl)
free_lem (Check.citation b k) = (λ h f. f, λ h. refl)

inapplicable_lem : CheckState.inapplicable ≢ CheckState.pass
inapplicable_lem h = cc

not-not : (b : Bool) → b ≡ true → not b ≡ false
not-not b h = rw h refl

-- A check of a case passes exactly if it applies, some text has a character that is no white space,
-- and what the check asks for holds: bounds on the length, a literal that stands in a text or in
-- none, a quote at its place and a relevant source that is supplied, or the same value and unit in
-- a quote of the artifact and in one of the named source, each at its place.
pub evaluate-Holds :
    (c : ScoreCase) (k : Check)
    → valid_check k ≡ true
    → ((evaluate (evidence_of c) k).0 ≡ CheckState.pass) ↔ (
        Applies k
        × WrittenIn (evidence_of c).texts
        × Holds (evidence_of c).texts (evidence_of c).sources k)
unfolding evaluate
evaluate-Holds c k valid =
    let e = evidence_of c in
    let texts = any-WrittenIn e.texts in
    (
      λ h.
          let (declared, h1) =
            skip (is_declared (base_of k).applicability) _ _ inapplicable_lem h in
          let (bound, h2) = skip (is_free k) _ _ inapplicable_lem h1 in
          let (full, h3) = skip e.empty _ _ invalid_lem h2 in
          let written = texts.0 (not-false _ full) in
          (
            record {
              declared = (declared_lem (base_of k).applicability).0 declared;
              bound = (free_lem k).0 bound;
            },
            written,
            (verdict-Holds e.state e.texts e.sources k written valid).0 h3,
          ),
      λ (applies, written, holds).
          rw
            (
              (declared_lem (base_of k).applicability).1 applies.declared,
              (free_lem k).1 applies.bound,
              texts.1 written,
            )
            ((verdict-Holds e.state e.texts e.sources k written valid).1 holds),
    )
