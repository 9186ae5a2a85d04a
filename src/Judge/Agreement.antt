-- ===== src/Judge/Agreement.antt =====
-- src/draftbench/judge/report.py and panel.py: `_agreement` of two judges, and `summary`.
use llm_draftbench.Prelude.{
  ℕ, suc, ◌+◌, ◌*◌, String, Bool, true, false, Option, none, some, List, [], ◌∷◌, map, ◌&&◌, ◌≡◌,
  ◌≢◌, ◌↔◌, refl, ap, ◌∙◌, and-parts, and-intro, subst, arith, ◌⊎◌, inl, inr, length, if◌then◌else◌,
}
use llm_draftbench.Prelude.Sorting.{sort_by}
use llm_draftbench.Judge.Panel.{Presentation, Panel}
use llm_draftbench.Judge.Orders.{length-sort}
use llm_draftbench.Judge.Run.{RunState, report_of}
use llm_draftbench.Judge.Dispatch.{
  pairwise, pointwise, RunCall, ids_of, pointwise_work, work_of, selected_of,
}
use llm_draftbench.Judge.Tally.{Choice, Record, verdict_for}

pub record Agreement : Type 0 where
  pub compared : ℕ
  pub agree : ℕ

abbrev pub is_scored : Option Choice → Bool
is_scored (some Choice.a) = true
is_scored (some Choice.b) = true
is_scored (some Choice.tie) = true
is_scored _ = false

abbrev pub same_choice : Option Choice → Option Choice → Bool
same_choice (some Choice.a) (some Choice.a) = true
same_choice (some Choice.b) (some Choice.b) = true
same_choice (some Choice.tie) (some Choice.tie) = true
same_choice _ _ = false

-- One round of the loop, of two choices that may be missing.
abbrev pub compare_choices : Option Choice → Option Choice → Agreement → Agreement
compare_choices c d n =
    if is_scored c && is_scored d
    then record {
      compared = suc n.compared;
      agree = if same_choice c d then suc n.agree else n.agree;
    }
    else n

module _ (first second : String → Option Choice) where
  unfoldable pub agreement_from : List Presentation → Agreement → Agreement
  agreement_from [] n = n
  agreement_from (p ∷ ps) n =
      agreement_from ps (compare_choices (first p.presentation_id) (second p.presentation_id) n)

-- `_agreement`, of one pair of judges and one criterion; its rate is `agree / compared`.
unfoldable pub agreement_of : Panel → List Record → String → String → String → Agreement
unfolding agreement_from
agreement_of p records first second criterion =
    agreement_from (verdict_for records first criterion) (verdict_for records second criterion)
      p.body.presentations (record { compared = 0; agree = 0 })

-- A verdict that is there and is not `unknown`.
pub Scored : Option Choice → Type 0
Scored none = ⊥
Scored (some c) = c ≢ Choice.unknown

-- Both judges are scored on a presentation.
pub Compared : (first second : String → Option Choice) → Presentation → Type 0
Compared first second p = Scored (first p.presentation_id) × Scored (second p.presentation_id)

-- Both chose the same.
pub Agreed : (first second : String → Option Choice) → Presentation → Type 0
Agreed first second p =
    (c : Choice) × (c ≢ Choice.unknown)
    × (first p.presentation_id ≡ some c)
    × (second p.presentation_id ≡ some c)

-- `Counted P xs n`: the property holds of n entries of the list, and of no other.
pub data Counted {A : Type 0} (P : A → Type 0) : List A → ℕ → Type 0 where
  nothing : Counted P [] 0
  counts : (x : A) (xs : List A) (n : ℕ) → P x → Counted P xs n → Counted P (x ∷ xs) (suc n)
  passes : (x : A) (xs : List A) (n : ℕ) → ¬ P x → Counted P xs n → Counted P (x ∷ xs) n

scored_lem : (c : Option Choice) → (is_scored c ≡ true) ↔ Scored c
unfolding Scored
scored_lem none = (λ h. cc, λ h. absurd h)
scored_lem (some Choice.a) = (λ h e. cc, λ h. refl)
scored_lem (some Choice.b) = (λ h e. cc, λ h. refl)
scored_lem (some Choice.tie) = (λ h e. cc, λ h. refl)
scored_lem (some Choice.unknown) = (λ h. cc, λ h. absurd (h refl))

and_lem :
    {P Q : Type 0} (x y : Bool) → (x ≡ true) ↔ P → (y ≡ true) ↔ Q → ((x && y) ≡ true) ↔ (P × Q)
and_lem x y (f, g) (h, k) =
    (λ e. let (l, r) = and-parts x y e in (f l, h r), λ (p, q). and-intro x y (g p) (k q))

AgreedOn : Option Choice → Option Choice → Type 0
AgreedOn c d = (x : Choice) × (x ≢ Choice.unknown) × (c ≡ some x) × (d ≡ some x)

same_choice-AgreedOn : (c d : Option Choice) → same_choice c d ≡ true → AgreedOn c d
unfolding AgreedOn
same_choice-AgreedOn (some Choice.a) (some Choice.a) h = (Choice.a, λ e. cc, refl, refl)
same_choice-AgreedOn (some Choice.b) (some Choice.b) h = (Choice.b, λ e. cc, refl, refl)
same_choice-AgreedOn (some Choice.tie) (some Choice.tie) h = (Choice.tie, λ e. cc, refl, refl)
same_choice-AgreedOn _ _ h = cc

some-same_choice : (x : Choice) → x ≢ Choice.unknown → same_choice (some x) (some x) ≡ true
some-same_choice Choice.a h = refl
some-same_choice Choice.b h = refl
some-same_choice Choice.tie h = refl
some-same_choice Choice.unknown h = absurd (h refl)

same_choice-scored :
    (c d : Option Choice) → same_choice c d ≡ true → (is_scored c && is_scored d) ≡ true
same_choice-scored c d h = ground (arith, h)

abbrev one_if : Bool → ℕ → ℕ
one_if t n = if t then suc n else n

Counted-one_if :
    {A : Type 0} (P : A → Type 0) (x : A) (xs : List A) (t : Bool) (n : ℕ)
    → (t ≡ true) ↔ P x
    → Counted P xs n
    → Counted P (x ∷ xs) (one_if t n)
Counted-one_if P x xs true n (f, g) k = Counted.counts x xs n (f refl) k
Counted-one_if P x xs false n (f, g) k = Counted.passes x xs n (λ p. let h = g p in cc) k

step_lem :
    (c d : Option Choice) (n : Agreement) (k m : ℕ)
    → ((compare_choices c d n).compared + k ≡ n.compared + one_if (is_scored c && is_scored d) k)
      × ((compare_choices c d n).agree + m ≡ n.agree + one_if (same_choice c d) m)
step_lem c d n k m = ground (arith, same_choice-scored c d)

module _ (first second : String → Option Choice) where
  compared_lem :
      (p : Presentation)
      → ((is_scored (first p.presentation_id) && is_scored (second p.presentation_id)) ≡ true)
        ↔ Compared first second p
  unfolding Compared
  compared_lem p =
      and_lem _ _ (scored_lem (first p.presentation_id)) (scored_lem (second p.presentation_id))

  agreed_lem :
      (p : Presentation)
      → (same_choice (first p.presentation_id) (second p.presentation_id) ≡ true)
        ↔ Agreed first second p
  unfolding Agreed AgreedOn
  agreed_lem p = (
    same_choice-AgreedOn (first p.presentation_id) (second p.presentation_id),
    λ (x, known, here, there). rw (here, there) (some-same_choice x known),
  )

  -- What the loop adds to its counters.
  record Adds (ps : List Presentation) (n after : Agreement) : Type 0 where
    compared : ℕ
    agree : ℕ
    compared_counted : Counted (Compared first second) ps compared
    agree_counted : Counted (Agreed first second) ps agree
    compared_eq : after.compared ≡ n.compared + compared
    agree_eq : after.agree ≡ n.agree + agree

  agreement_from-Adds :
      (ps : List Presentation) (n : Agreement) → Adds ps n (agreement_from first second ps n)
  unfolding agreement_from
  agreement_from-Adds [] n = record {
    compared = 0;
    agree = 0;
    compared_counted = Counted.nothing;
    agree_counted = Counted.nothing;
    compared_eq = omega arith;
    agree_eq = omega arith;
  }
  agreement_from-Adds (p ∷ ps) n =
      let c = first p.presentation_id in
      let d = second p.presentation_id in
      let rest = agreement_from-Adds ps (compare_choices c d n) in
      record {
        compared = one_if (is_scored c && is_scored d) rest.compared;
        agree = one_if (same_choice c d) rest.agree;
        compared_counted = Counted-one_if _ p ps _ _ (compared_lem p) rest.compared_counted;
        agree_counted = Counted-one_if _ p ps _ _ (agreed_lem p) rest.agree_counted;
        compared_eq = rest.compared_eq ∙ (step_lem c d n rest.compared rest.agree).0;
        agree_eq = rest.agree_eq ∙ (step_lem c d n rest.compared rest.agree).1;
      }

-- `compared` counts the presentations on which both judges are scored, and `agree` those on which
-- both chose the same, `a`, `b` or a tie.
pub agreement_of-Counted :
    (p : Panel) (records : List Record) (first second criterion : String)
    → Counted
        (Compared (verdict_for records first criterion) (verdict_for records second criterion))
        p.body.presentations
        (agreement_of p records first second criterion).compared
      × Counted
          (Agreed (verdict_for records first criterion) (verdict_for records second criterion))
          p.body.presentations
          (agreement_of p records first second criterion).agree
unfolding agreement_of
agreement_of-Counted p records first second criterion =
    let f = verdict_for records first criterion in
    let g = verdict_for records second criterion in
    let ps = p.body.presentations in
    let r = agreement_from-Adds f g ps (record { compared = 0; agree = 0 }) in
    (
      subst (Counted (Compared f g) ps) (omega (arith, r.compared_eq)) r.compared_counted,
      subst (Counted (Agreed f g) ps) (omega (arith, r.agree_eq)) r.agree_counted,
    )

-- `planned_requests` of `summary`, which is what is approved.
abbrev pub summary_requests : Panel → ℕ
summary_requests p =
    (if p.body.pairwise then length p.body.presentations else length p.body.candidates)
    * length p.body.judges

-- `planned_requests` of `build_report`.
abbrev pub report_requests : Panel → ℕ
report_requests p = length p.body.presentations * length p.body.judges

length-map {ℓ κ} :
    {A : Type ℓ} {B : Type κ} (f : A → B) (xs : List A) → length (map f xs) ≡ length xs
length-map f [] = refl
length-map f (x ∷ xs) = ap (λ n. suc n) (length-map f xs)

length-ids : (cs : List (String × String)) → length (ids_of cs) ≡ length cs
length-ids [] = refl
length-ids (c ∷ cs) = ap (λ n. suc n) (length-ids cs)

length-pointwise : (ids : List String) → length (pointwise_work 1 ids) ≡ length ids
length-pointwise [] = refl
length-pointwise (i ∷ is) = ap (λ n. suc n) (length-pointwise is)

-- A run of all judges plans the requests that `summary` tells before it is approved: on a pairwise
-- panel, and on a brief panel with one repetition.
pub planned-summary :
    (p : Panel) (c : RunCall) (st : RunState)
    → c.judges ≡ none
    → ((c.mode ≡ pairwise) × (p.body.pairwise ≡ true))
      ⊎ ((c.mode ≡ pointwise) × (c.reps ≡ 1) × (p.body.pairwise ≡ false))
    → (report_of (work_of p c) (selected_of p c.judges) st).planned_requests ≡ summary_requests p
planned-summary p c st all_judges (inl (paired, panel)) =
    rw (all_judges, paired, panel)
      (ap (λ n. n * length p.body.judges) (length-map _ p.body.presentations))
planned-summary p c st all_judges (inr (alone, once, panel)) =
    let ids = sort_by (λ i. i) (ids_of p.body.candidates) in
    rw (all_judges, alone, once, panel)
      (ap (λ n. n * length p.body.judges)
        (length-pointwise ids
          ∙ length-sort (ids_of p.body.candidates)
          ∙ length-ids p.body.candidates))
