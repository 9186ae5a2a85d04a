-- ===== src/Scoring/Checks/Passing.antt =====
-- src/draftbench/scoring/deterministic.py: a check passes exactly if what it asks for holds.
use llm_draftbench.Prelude.{String, Bool, true, false, List, ◌≡◌, ◌↔◌, refl}
use llm_draftbench.Scoring.Case.{CheckState, Inventory, CitationCheck, Check}
use llm_draftbench.Scoring.Checks.Verdicts.{
  is_there, verdict_of, literal_present, selected, total_length, citation_verdict,
}
use llm_draftbench.Scoring.Valid.{valid_span, valid_check}
use llm_draftbench.Scoring.Checks.Substrings.{span_matches-Quoted}
use llm_draftbench.Scoring.Checks.Facts.{fact-Holds, Holds-fact}
use llm_draftbench.Scoring.Checks.Holds.{
  CitationHolds, Holds, WrittenIn, skip, choose, fail_lem, on_texts-pass, AtLeast-below,
  AtMost-above, StandsIn-any, any-StandsIn, length-AtLeast, citation-Holds,
}

absent_lem : (b : Bool) → (b ≡ true → ⊥) → b ≡ false
absent_lem true n = absurd (n refl)
absent_lem false n = refl

module _ (state : Inventory) (texts sources : List (String × String)) where
  Holds-citation :
      (k : CitationCheck)
      → valid_span k.span ≡ true
      → CitationHolds texts sources k
      → (citation_verdict state texts sources k).0 ≡ CheckState.pass
  unfolding citation_verdict
  Holds-citation k valid c =
      let observed = (span_matches-Quoted texts k.span valid).1 c.observed in
      let there : is_there k.source_id sources ≡ true = rw (is_there, c.supplied) refl in
      rw (observed, c.relevant, there) refl

  -- The verdict on a check of texts with something in them.
  pub verdict-Holds :
      (k : Check)
      → WrittenIn texts
      → valid_check k ≡ true
      → ((verdict_of state texts sources k).0 ≡ CheckState.pass) ↔ Holds texts sources k
  unfolding verdict_of
  verdict-Holds (Check.nonempty b) written valid = (λ h. written, λ h. refl)
  verdict-Holds (Check.length b k) written valid = (
    λ h.
        let (ts, there, v) = on_texts-pass _ (selected k.unit_id texts) h in
        let (low, high) = length-AtLeast k (total_length ts) v in (ts, there, low, high),
    λ (ts, there, low, high).
        rw
          (
            there,
            (AtLeast-below (total_length ts) k.min_chars).1 low,
            (AtMost-above (total_length ts) k.max_chars).1 high,
          )
          refl,
  )
  verdict-Holds (Check.required_literal b k) written valid = (
    λ h.
        let (ts, there, v) = on_texts-pass _ (selected k.unit_id texts) h in
        (ts, there, StandsIn-any k.literal ts (choose (literal_present k ts) _ _ fail_lem v)),
    λ (ts, there, s). rw (there, any-StandsIn k.literal ts s) refl,
  )
  verdict-Holds (Check.forbidden_literal b k) written valid = (
    λ h.
        let (ts, there, v) = on_texts-pass _ (selected k.unit_id texts) h in
        let (absent, _) = skip (literal_present k ts) _ _ fail_lem v in
        (ts, there, λ s. let yes = any-StandsIn k.literal ts s in cc),
    λ (ts, there, s).
        rw (there, absent_lem (literal_present k ts) (λ yes. s (StandsIn-any k.literal ts yes)))
          refl,
  )
  verdict-Holds (Check.citation b k) written valid =
      (citation-Holds state texts sources k valid, Holds-citation k valid)
  verdict-Holds (Check.fact b k) written valid = (
    fact-Holds state texts sources k valid,
    λ f. rw (Holds-fact state texts sources k valid f) refl,
  )
