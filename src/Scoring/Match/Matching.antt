-- ===== src/Scoring/Match/Matching.antt =====
-- src/draftbench/scoring/findings.py: a defect is matched by one prediction at most.
use llm_draftbench.Prelude.{
  ◌≤◌, String, Bool, true, false, Option, none, some, List, [], ◌∷◌, ◌++◌, not, ◌&&◌, ◌||◌, ◌==◌,
  ◌≡◌, refl, sym, ◌∙◌, subst, inl, inr, arith, ltb, nat_eq, all, length, if◌then◌else◌, ok, ◌>>=◌,
  and-left, and-right, and-parts, Bool-cases, Option-cases,
}
use llm_draftbench.Prelude.Text.{member}
use llm_draftbench.Scoring.Case.{
  Finding, JudgmentState, matched, spurious, ambiguous, unassessed, FindingJudgment,
}
use llm_draftbench.Scoring.Valid.{finding_ids, is_matched, valid_judgment}
use llm_draftbench.Scoring.Match.Findings.{row_matched}
use llm_draftbench.Scoring.Match.Alignments.{
  judgment_of, defect_of, first_of, claim_of, count_of, Context, PredictionRow, row_of, match_row,
  judged_row, round,
}

-- A judgment that the validators let pass, of the defects there are.
abbrev pub is_sound : List String → FindingJudgment → Bool
is_sound defects j = valid_judgment j && all (λ d. member d defects) j.defect_ids

none-some {ℓ} : {A : Type ℓ} {a : A} → ◌≡◌ {A = Option A} none (some a) → ⊥
none-some h = cc

some-injective {ℓ} : {A : Type ℓ} {a b : A} → ◌≡◌ {A = Option A} (some a) (some b) → a ≡ b
some-injective h = cc

chosen_lem :
    (p : FindingJudgment → Bool) (k : FindingJudgment) (t : Bool) (j : FindingJudgment)
    → p k ≡ true
    → ◌≡◌ {A = Option FindingJudgment} (if t then some k else none) (some j)
    → p j ≡ true
chosen_lem p k true j h g = subst (λ x. p x ≡ true) (some-injective g) h
chosen_lem p k false j h g = absurd (none-some g)

-- A dict's value is an entry of its list.
pub judgment_of-entry :
    (p : FindingJudgment → Bool) (i : String) (js : List FindingJudgment) (j : FindingJudgment)
    → all p js ≡ true
    → judgment_of i js ≡ some j
    → p j ≡ true
judgment_of-entry p i [] j h g = cc
judgment_of-entry p i (k ∷ ks) j h g = elim (Option-cases (judgment_of i ks)) [
  | inl missing ↦
      chosen_lem p k (k.finding_id == i) j (and-left _ (all p ks) h) (ground (arith, g, missing))
  | inr (later, e) ↦ judgment_of-entry p i ks j (and-right (p k) _ h) (ground (arith, g, e))
]

defect_of-member :
    (i : String) (fs : List Finding)
    → member i (finding_ids fs) ≡ true
    → (f : Finding) × (defect_of i fs ≡ some f)
defect_of-member i [] h = cc
defect_of-member i (f ∷ fs) h = elim (Option-cases (defect_of i fs)) [
  | inr (later, e) ↦ (later, rw e refl)
  | inl missing ↦ elim (Bool-cases (f.finding_id == i)) [
    | inl same ↦ (f, rw (missing, same) refl)
    | inr other ↦
        let (g, found) = defect_of-member i fs (ground (arith, h, other)) in
        absurd (none-some (sym missing ∙ found))
  ]
]

one_id : (ds : List String) → nat_eq (length ds) 1 ≡ true → (d : String) × (ds ≡ d ∷ [])
one_id [] h = cc
one_id (d ∷ []) h = (d, refl)
one_id (d ∷ e ∷ ds) h = absurd (ground (arith, h))

-- What a round may take: nothing, or the one defect that its judgment claims and no other does.
pub data IsTaken (x : Context) (claims : List String) (row : PredictionRow) : Type 0 where
  nothing : row_matched row.state ≡ false → row.taken ≡ [] → IsTaken x claims row
  one :
      (d : String)
      → row_matched row.state ≡ true
      → row.taken ≡ d ∷ []
      → claims ≡ d ∷ []
      → count_of d x.claims ≤ 1
      → member d (finding_ids x.defects) ≡ true
      → IsTaken x claims row

-- The rounds of the loop, with what each judgment claims.
pub data Resolved (x : Context) : List String → List PredictionRow → Type 0 where
  done : Resolved x [] []
  more :
      {here claims : List String} {row : PredictionRow} {rows : List PredictionRow}
      → IsTaken x here row
      → Resolved x claims rows
      → Resolved x (here ++ claims) (row ∷ rows)

module _ (x : Context) (f : Finding) where
  ranked :
      (d : String) (many usable same : Bool)
      → (many ≡ false → count_of d x.claims ≤ 1)
      → member d (finding_ids x.defects) ≡ true
      → IsTaken x (d ∷ []) (
          if many
          then record {
            finding_id = f.finding_id;
            state = ambiguous;
            category_valid = same;
            taken = [];
          }
          else if usable
          then record {
            finding_id = f.finding_id;
            state = matched;
            category_valid = same;
            taken = d ∷ [];
          }
          else record {
            finding_id = f.finding_id;
            state = unassessed;
            category_valid = same;
            taken = [];
          })
  ranked d true usable same few known = nothing refl refl
  ranked d false true same few known = one d refl refl refl (few refl) known
  ranked d false false same few known = nothing refl refl

  judged-IsTaken :
      (state : JudgmentState) (ds : List String)
      → (is_matched state ≡ true
          → (d : String) × (ds ≡ d ∷ []) × (member d (finding_ids x.defects) ≡ true))
      → (here : List String) × (row : PredictionRow) × ((if is_matched state
            then (first_of ds >>= λ d. ok (d ∷ []))
            else ok [])
          ≡ ok here)
        × (judged_row x f state ds ≡ ok row)
        × IsTaken x here row
  judged-IsTaken matched ds named =
      let (d, only, known) = named refl in
      let (defect, found) = defect_of-member d x.defects known in
      (
        d ∷ [],
        match_row x f d defect,
        rw only refl,
        rw (only, found) refl,
        ranked d (ltb 1 (count_of d x.claims))
            (x.attributed
              && not (member f.finding_id x.bad_predictions)
              && not (member d x.bad_defects)
              && f.category == defect.category)
            (f.category == defect.category) (λ n. ground arith) known,
      )
  judged-IsTaken ambiguous ds named = ([], row_of f ambiguous, refl, refl, nothing refl refl)
  judged-IsTaken unassessed ds named = ([], row_of f unassessed, refl, refl, nothing refl refl)
  judged-IsTaken spurious ds named =
      elim (Bool-cases (x.attributed && not (member f.finding_id x.bad_predictions))) [
        | inl usable ↦ ([], row_of f spurious, refl, rw usable refl, nothing refl refl)
        | inr unusable ↦ ([], row_of f unassessed, refl, rw unusable refl, nothing refl refl)
      ]

  sound_named :
      (j : FindingJudgment)
      → is_sound (finding_ids x.defects) j ≡ true
      → is_matched j.state ≡ true
      → (d : String) × (j.defect_ids ≡ d ∷ []) × (member d (finding_ids x.defects) ≡ true)
  sound_named j sound is =
      let (valid, known) = and-parts _ _ sound in
      let (shape, _) = and-parts _ _ valid in
      let (_, single) =
        and-parts _ (not (is_matched j.state) || nat_eq (length j.defect_ids) 1) shape in
      let (d, only) = one_id j.defect_ids (ground (arith, single, is)) in
      (d, only, ground (arith, only, known))

  -- A round returns, and so does the claim of its judgment.
  pub round-IsTaken :
      (o : Option FindingJudgment)
      → ((j : FindingJudgment) → o ≡ some j → is_sound (finding_ids x.defects) j ≡ true)
      → (here : List String) × (row : PredictionRow) × (claim_of o ≡ ok here)
        × (round x f o ≡ ok row)
        × IsTaken x here row
  round-IsTaken none sound = ([], row_of f unassessed, refl, refl, nothing refl refl)
  round-IsTaken (some j) sound = judged-IsTaken j.state j.defect_ids (sound_named j (sound j refl))
