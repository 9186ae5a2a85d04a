-- ===== src/Scoring/Match/Tallies.antt =====
-- src/draftbench/scoring/findings.py: the counts and rates of `score_findings`.
use llm_draftbench.Prelude.{
  suc, ◌+◌, ◌≤◌, String, true, Option, none, some, List, [], ◌∷◌, map, ◌≡◌, refl, sym, ap, ◌∙◌,
  subst, arith, all, length, ok, ok-injective, and-parts,
}
use llm_draftbench.Prelude.Text.{member, distinct}
use llm_draftbench.Scoring.Case.{FindingJudgment, Alignment, Finding, ScoreCase}
use llm_draftbench.Scoring.Rate.{rate_of, rate_lem}
use llm_draftbench.Scoring.Scope.{scope_of}
use llm_draftbench.Scoring.Cohort.{distinct_count}
use llm_draftbench.Scoring.Valid.{
  Digests, valid_case, valid_findings, valid_reference, valid_alignment, valid_bindings,
  valid_judgment, knows_findings, if_some, finding_ids, review_findings,
}
use llm_draftbench.Scoring.Validity.{valid_parts}
use llm_draftbench.Scoring.Match.Alignments.{
  predictions, aligned, alignment_scope, judgments_of, PredictionRow, taken_of,
}
use llm_draftbench.Scoring.Match.Findings.{
  row_spurious, row_ambiguous, row_unassessed, is_pending, rows_in, FindingScores, context_of,
  rows_of_case, unmatched_ids, critical_ids, counts_of, findings_of, score_findings,
  review_coverage, measured, is_fully_assessed, is_recall_assessed, sorted_ids, row_ids,
}
use llm_draftbench.Scoring.Match.Matching.{is_sound, Resolved}
use llm_draftbench.Scoring.Match.OneToOne.{
  resolve-Resolved, taken-distinct, taken-known, length-taken, rows-Split,
}
use llm_draftbench.Scoring.Match.LeftOut.{distinct-count, length-left_out, length-keep}

-- The scores once the three rates are given.
abbrev scores_from : ScoreCase → List PredictionRow → FindingScores
scores_from c rows =
    let n = counts_of c rows in
    record {
      reference_scope = scope_of c.reference;
      alignment_scope = alignment_scope c;
      coverage = review_coverage c;
      measurement_valid = measured c rows;
      counts = n;
      precision = rate_of n.matched n.predictions (is_fully_assessed c rows);
      recall = rate_of n.matched n.reference_defects (is_recall_assessed c rows);
      critical_recall = rate_of n.critical_matched n.critical_defects (is_recall_assessed c rows);
      pending_finding_ids = sorted_ids (row_ids (rows_in is_pending rows));
      ambiguous_finding_ids = sorted_ids (row_ids (rows_in row_ambiguous rows));
      unmatched_defect_ids = sorted_ids (unmatched_ids c rows);
    }

-- The counts agree: a defect is matched once at most, and each prediction is in one state.
pub record Tallied (c : ScoreCase) (s : FindingScores) : Type 0 where
  pub resolved :
      s.counts.matched + s.counts.spurious + s.counts.unassessed + s.counts.ambiguous
      ≡ length (predictions c)
  pub inventory : s.counts.matched + s.counts.unmatched_defects ≡ length c.reference.defects
  pub critical : s.counts.critical_matched ≤ s.counts.critical_defects
  pub predicted : s.counts.predictions ≡ length (predictions c)

module _ (c : ScoreCase) (claims : List String) (rows : List PredictionRow)
    (run : Resolved (context_of c claims) claims rows)
    (whole : length rows ≡ length (predictions c))
    (fresh : distinct (finding_ids c.reference.defects) ≡ true) where
  taken-fresh : distinct (taken_of rows) ≡ true
  taken-fresh = taken-distinct run (λ d. omega arith)

  matched_lem : distinct_count (taken_of rows) ≡ length (taken_of rows)
  matched_lem = distinct-count (taken_of rows) taken-fresh

  length-map : (fs : List Finding) → length (finding_ids fs) ≡ length fs
  length-map [] = refl
  length-map (f ∷ fs) = ap (λ n. suc n) (length-map fs)

  inventory_lem :
      distinct_count (taken_of rows) + length (unmatched_ids c rows) ≡ length c.reference.defects
  inventory_lem = omega (
    arith,
    matched_lem,
    length-map c.reference.defects,
    length-left_out (taken_of rows) (finding_ids c.reference.defects) taken-fresh fresh
        (taken-known run),
  )

  resolved_lem :
      distinct_count (taken_of rows)
        + length (rows_in row_spurious rows)
        + length (rows_in row_unassessed rows)
        + length (rows_in row_ambiguous rows)
      ≡ length (predictions c)
  resolved_lem = omega (arith, matched_lem, length-taken run, (rows-Split rows).whole, whole)

  findings_of-Tallied : (s : FindingScores) × (findings_of c rows ≡ ok s) × Tallied c s
  unfolding findings_of
  findings_of-Tallied = (
    scores_from c rows,
    rw
        (
          rate_lem (counts_of c rows).matched (counts_of c rows).predictions
              (is_fully_assessed c rows) (omega (arith, resolved_lem)),
          rate_lem (counts_of c rows).matched (counts_of c rows).reference_defects
              (is_recall_assessed c rows) (omega (arith, inventory_lem)),
          rate_lem (counts_of c rows).critical_matched (counts_of c rows).critical_defects
              (is_recall_assessed c rows)
              (length-keep (λ d. member d (taken_of rows)) (critical_ids c)),
        )
        refl,
    record {
      resolved = resolved_lem;
      inventory = inventory_lem;
      critical = length-keep (λ d. member d (taken_of rows)) (critical_ids c);
      predicted = refl;
    },
  )

sound_all :
    (c : ScoreCase) (js : List FindingJudgment)
    → all valid_judgment js ≡ true
    → all (knows_findings c) js ≡ true
    → all (is_sound (finding_ids c.reference.defects)) js ≡ true
sound_all c [] h k = refl
sound_all c (j ∷ js) h k =
    let (valid, rest) = and-parts (valid_judgment j) (all valid_judgment js) h in
    let (known, others) = and-parts (knows_findings c j) (all (knows_findings c) js) k in
    let (_, defects) = and-parts (member j.finding_id (finding_ids (review_findings c))) _ known in
    rw (valid, defects) (sound_all c js rest others)

aligned_sound :
    (c : ScoreCase) (o : Option Alignment)
    → if_some valid_alignment o ≡ true
    → if_some (λ a. all (knows_findings c) a.judgments) o ≡ true
    → all (is_sound (finding_ids c.reference.defects)) (aligned o) ≡ true
aligned_sound c none h k = refl
aligned_sound c (some a) h k =
    let (shaped, _) = and-parts _ (distinct (map (λ j. j.finding_id) a.judgments)) h in
    let (_, valid) = and-parts _ (all valid_judgment a.judgments) shaped in
    sound_all c a.judgments valid k

judgments_sound :
    (c : ScoreCase)
    → (if_some valid_alignment c.alignment ≡ true)
    → valid_bindings c ≡ true
    → all (is_sound (finding_ids c.reference.defects)) (judgments_of c) ≡ true
judgments_sound c valid bound =
    let (_, known) =
      and-parts _ (if_some (λ a. all (knows_findings c) a.judgments) c.alignment) bound in
    aligned_sound c c.alignment valid known

fresh_defects :
    (c : ScoreCase)
    → valid_reference c.reference ≡ true
    → distinct (finding_ids c.reference.defects) ≡ true
fresh_defects c valid =
    let (_, findings) = and-parts _ (valid_findings c.reference.defects) valid in
    (and-parts _ (distinct (finding_ids c.reference.defects)) findings).1

-- `score_findings` returns for every valid case: no lookup and no rate raises. Each prediction is
-- counted in one state, each defect of the reference is matched once or left unmatched, so no two
-- predictions match one defect, and no more critical defects are matched than there are.
pub score_findings-Tallied :
    (digests : Digests) (c : ScoreCase)
    → valid_case digests c ≡ true
    → (s : FindingScores) × (score_findings digests c ≡ ok s) × Tallied c s
unfolding score_findings rows_of_case
score_findings-Tallied digests c valid =
    let (rubric, reference, review, alignment, bound) = valid_parts digests c valid in
    let sound = judgments_sound c alignment bound in
    let (claims, _, claimed, _, _, _) = resolve-Resolved (context_of c []) (predictions c) sound in
    let (again, rows, reclaimed, ran, run, whole) =
      resolve-Resolved (context_of c claims) (predictions c) sound in
    let same = ok-injective (sym reclaimed ∙ claimed) in
    let (s, scored, tallied) =
      findings_of-Tallied c claims rows
        (subst (λ l. Resolved (context_of c claims) l rows) same run) whole
        (fresh_defects c reference) in
    (s, rw (valid, claimed, ran) scored, tallied)
