-- ===== src/Scoring/Validity.antt =====
-- src/draftbench/scoring/models.py: what is known of a case that passed the validators.
use llm_draftbench.Prelude.{◌≡◌, true, all, and-parts}
use llm_draftbench.Prelude.Text.{distinct}
use llm_draftbench.Scoring.Case.{ScoreCase}
use llm_draftbench.Scoring.Valid.{
  Digests, check_ids, valid_check, valid_case, valid_rubric, valid_reference, valid_review,
  valid_alignment, valid_bindings, if_some,
}

module _ (digests : Digests) (c : ScoreCase) (valid : valid_case digests c ≡ true) where
  -- The validators, one by one.
  pub valid_parts :
      (valid_rubric c.rubric ≡ true)
      × (valid_reference c.reference ≡ true)
      × (if_some valid_review c.review ≡ true)
      × (if_some valid_alignment c.alignment ≡ true)
      × (valid_bindings c ≡ true)
  unfolding valid_case
  valid_parts =
      let (fields, rest) = and-parts _ _ valid in
      let (_, bound) = and-parts _ _ rest in
      let (_, f1) = and-parts _ _ fields in
      let (rubric, f2) = and-parts _ _ f1 in
      let (reference, f3) = and-parts _ _ f2 in
      let (review, alignment) = and-parts _ _ f3 in (rubric, reference, review, alignment, bound)

  -- No two checks have the same name.
  pub valid-fresh : distinct (check_ids c.rubric.checks) ≡ true
  valid-fresh = (and-parts _ _ valid_parts.0).1

  pub valid-checks : all valid_check c.rubric.checks ≡ true
  valid-checks = (and-parts _ _ (and-parts _ _ valid_parts.0).0).1
