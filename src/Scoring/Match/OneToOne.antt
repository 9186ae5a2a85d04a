-- ===== src/Scoring/Match/OneToOne.antt =====
-- src/draftbench/scoring/findings.py: the defects that the loop takes are distinct, and known.
use llm_draftbench.Prelude.{
  suc, ◌+◌, ◌≤◌, String, true, false, List, [], ◌∷◌, ◌++◌, ◌≡◌, refl, sym, ap, subst, arith, all,
  length, ok,
}
use llm_draftbench.Prelude.Text.{member, distinct, eq_self}
use llm_draftbench.Scoring.Case.{Finding}
use llm_draftbench.Scoring.Valid.{finding_ids}
use llm_draftbench.Scoring.Match.Findings.{
  row_matched, row_spurious, row_ambiguous, row_unassessed, is_pending, rows_in,
}
use llm_draftbench.Scoring.Match.Alignments.{
  judgment_of, claims_of, count_of, Context, PredictionRow, resolve, taken_of,
}
use llm_draftbench.Scoring.Match.Matching.{
  is_sound, judgment_of-entry, nothing, one, Resolved, done, more, round-IsTaken,
}

-- The loop returns, for sound judgments.
pub resolve-Resolved :
    (x : Context) (fs : List Finding)
    → all (is_sound (finding_ids x.defects)) x.judgments ≡ true
    → (claims : List String) × (rows : List PredictionRow) × (claims_of x.judgments fs ≡ ok claims)
      × (resolve x fs ≡ ok rows)
      × Resolved x claims rows
      × (length rows ≡ length fs)
unfolding resolve
resolve-Resolved x [] sound = ([], [], refl, refl, done, refl)
resolve-Resolved x (f ∷ fs) sound =
    let (here, row, claimed, went, taken) =
      round-IsTaken x f (judgment_of f.finding_id x.judgments) (λ j e.
        judgment_of-entry (is_sound (finding_ids x.defects)) f.finding_id x.judgments j sound e) in
    let (claims, rows, rest, ran, resolved, same) = resolve-Resolved x fs sound in
    (
      here ++ claims,
      row ∷ rows,
      rw (claimed, rest) refl,
      rw (went, ran) refl,
      more taken resolved,
      ap (λ n. suc n) same,
    )

count_of-append :
    (d : String) (xs ys : List String) → count_of d (xs ++ ys) ≡ count_of d xs + count_of d ys
count_of-append d [] ys = omega arith
count_of-append d (x ∷ xs) ys = ground (arith, count_of-append d xs ys)

-- What is taken is claimed.
taken-count_of :
    {x : Context} {claims : List String} {rows : List PredictionRow}
    → Resolved x claims rows
    → (d : String) → member d (taken_of rows) ≡ true
    → 1 ≤ count_of d claims
taken-count_of done d m = cc
taken-count_of (more {here} {claims} {row} {rows} (nothing _ empty) rest) d m =
    let m' = subst (λ t. member d (t ++ taken_of rows) ≡ true) empty m in
    omega (arith, count_of-append d here claims, taken-count_of rest d m')
taken-count_of (more {here} {claims} {row} {rows} (one e _ takes claimed few known) rest) d m =
    let m' = subst (λ t. member d (t ++ taken_of rows) ≡ true) takes m in
    subst (λ h. 1 ≤ count_of d (h ++ claims)) (sym claimed)
      (ground (arith, m', taken-count_of rest d))

pub taken-distinct :
    {x : Context} {claims : List String} {rows : List PredictionRow}
    → Resolved x claims rows
    → ((d : String) → count_of d claims ≤ count_of d x.claims)
    → distinct (taken_of rows) ≡ true
taken-distinct done within = refl
taken-distinct (more {here} {claims} {row} {rows} (nothing _ empty) rest) within =
    subst (λ t. distinct (t ++ taken_of rows) ≡ true) (sym empty)
      (taken-distinct rest (λ d. omega (arith, within d, count_of-append d here claims)))
taken-distinct {x = x} (more {here} {claims} {row} {rows} (one e _ takes claimed few known) rest)
      within =
    let bound = subst (λ h. count_of e (h ++ claims) ≤ count_of e x.claims) claimed (within e) in
    let none_left : count_of e claims ≡ 0 = ground (arith, bound, few, eq_self e) in
    let fresh : member e (taken_of rows) ≡ false =
      ground (arith, none_left, taken-count_of rest e) in
    subst (λ t. distinct (t ++ taken_of rows) ≡ true) (sym takes)
      (rw (distinct, fresh)
        (taken-distinct rest (λ d. omega (arith, within d, count_of-append d here claims))))

-- A defect that is taken is one of the reference's.
pub taken-known :
    {x : Context} {claims : List String} {rows : List PredictionRow}
    → Resolved x claims rows
    → all (λ d. member d (finding_ids x.defects)) (taken_of rows) ≡ true
taken-known done = refl
taken-known {x = x} (more {row} {rows} (nothing _ empty) rest) =
    subst (λ t. all (λ d. member d (finding_ids x.defects)) (t ++ taken_of rows) ≡ true) (sym empty)
      (taken-known rest)
taken-known {x = x} (more {row} {rows} (one e _ takes claimed few known) rest) =
    subst (λ t. all (λ d. member d (finding_ids x.defects)) (t ++ taken_of rows) ≡ true) (sym takes)
      (rw known (taken-known rest))

pub length-taken :
    {x : Context} {claims : List String} {rows : List PredictionRow}
    → Resolved x claims rows
    → length (taken_of rows) ≡ length (rows_in row_matched rows)
length-taken done = refl
length-taken (more {row} {rows} (nothing idle empty) rest) =
    subst (λ t. length (t ++ taken_of rows) ≡ length (rows_in row_matched (row ∷ rows))) (sym empty)
      (ground (arith, idle, length-taken rest))
length-taken (more {row} {rows} (one e found takes _ _ _) rest) =
    subst (λ t. length (t ++ taken_of rows) ≡ length (rows_in row_matched (row ∷ rows))) (sym takes)
      (ground (arith, found, length-taken rest))

-- Each row is in one state, and pending in two of them.
pub record Split (rows : List PredictionRow) : Type 0 where
  pub whole :
      length (rows_in row_matched rows)
        + length (rows_in row_spurious rows)
        + length (rows_in row_unassessed rows)
        + length (rows_in row_ambiguous rows)
      ≡ length rows
  pub open_rows :
      length (rows_in is_pending rows)
      ≡ length (rows_in row_unassessed rows) + length (rows_in row_ambiguous rows)

pub rows-Split : (rows : List PredictionRow) → Split rows
rows-Split [] = record { whole = omega arith; open_rows = omega arith }
rows-Split (r ∷ rs) =
    let s = rows-Split rs in
    record { whole = ground (arith, s.whole); open_rows = ground (arith, s.open_rows) }
