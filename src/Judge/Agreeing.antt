-- ===== src/Judge/Agreeing.antt =====
-- src/draftbench/judge/report.py: `_tally` returns, and its counts agree.
use llm_draftbench.Prelude.{
  ℕ, ◌+◌, ◌*◌, ◌≤◌, String, Bool, true, false, Option, none, some, List, [], ◌∷◌, ◌++◌, map, not,
  ◌&&◌, ◌==◌, ◌≡◌, refl, sym, ap, ◌∙◌, arith, inl, inr, Bool-cases, all, keep, length, ok,
  and-parts,
}
use llm_draftbench.Prelude.Text.{member, distinct, eq→path, eq_comm}
use llm_draftbench.Judge.Panel.{Presentation, Panel}
use llm_draftbench.Judge.Dispatch.{ids_of}
use llm_draftbench.Judge.Games.{Comparison}
use llm_draftbench.Judge.Tally.{
  Choice, Record, verdict_for, Tallies, no_tallies, tally_choice, is_excluded, tally_all, wins_for,
  JudgeTally, scored, ranked_ids, judge_tally, tally_judge, judge_tally,
}
use llm_draftbench.Judge.Orders.{member-sort, distinct-sort}
use llm_draftbench.Judge.Played.{is_between, IsPlayed, strength_games-IsPlayed}
use llm_draftbench.Judge.Totals.{
  included, tally_all-IsTallied, pairs_lem, both_lem, wins_total, total_wins, total_wins-map,
}

-- The tally of n presentations: each is counted once; the wins of the candidates add up to one for
-- each scored presentation, and so do the games; a pair with both orders takes two of those, and is consistent or biased
-- at most once.
pub record Agrees (n : ℕ) (t : JudgeTally) : Type 0 where
  pub counted : scored t.counts + t.counts.unknown + t.counts.missing ≡ n
  pub played : IsPlayed t.scored_presentations t.games
  pub presentations : t.scored_presentations ≡ scored t.counts
  pub shared : total_wins t.wins ≡ 2 * t.scored_presentations
  pub pairs : t.pairs_consistent + t.pairs_position_biased ≤ t.pairs_with_both_orders
  pub both : 2 * t.pairs_with_both_orders ≤ t.scored_presentations

apart_lem : (x y : String) (seen : List String) → (x == y) ≡ true → member y seen ≡ member x seen
apart_lem x y seen e = ap (λ z. member z seen) (sym (eq→path x y e))

member-keep :
    (x : String) (exclude ids : List String)
    → member x (keep (λ i. not (member i exclude)) ids) ≡ (member x ids && not (member x exclude))
member-keep x exclude [] = refl
member-keep x exclude (i ∷ is) = ground (arith, member-keep x exclude is, apart_lem i x exclude)

distinct-keep :
    (exclude ids : List String)
    → distinct ids ≡ true
    → distinct (keep (λ i. not (member i exclude)) ids) ≡ true
distinct-keep exclude [] h = refl
distinct-keep exclude (i ∷ is) h =
    ground (arith, h, distinct-keep exclude is, member-keep i exclude is)

-- A presentation shows two candidates, which are not one.
abbrev pub is_among : List String → Presentation → Bool
is_among ids p = member p.a ids && member p.b ids && not (p.a == p.b)

abbrev won_by : List String → List Comparison → Bool
won_by ids cs = all (is_between ids) cs

won_by-append :
    (ids : List String) (xs ys : List Comparison)
    → won_by ids xs ≡ true
    → won_by ids ys ≡ true
    → won_by ids (xs ++ ys) ≡ true
won_by-append ids [] ys h k = k
won_by-append ids (x ∷ xs) ys h k = ground (arith, h, won_by-append ids xs ys)

choice-won_by :
    (ids : List String) (p : Presentation) (c : Option Choice) (t : Tallies)
    → is_among ids p ≡ true
    → won_by ids t.comparisons ≡ true
    → won_by ids (tally_choice p c t).comparisons ≡ true
choice-won_by ids p none t h k = k
choice-won_by ids p (some Choice.unknown) t h k = k
choice-won_by ids p (some Choice.a) t h k = won_by-append ids t.comparisons _ k (ground (arith, h))
choice-won_by ids p (some Choice.b) t h k =
    won_by-append ids t.comparisons _ k (ground (arith, h, eq_comm p.a p.b))
choice-won_by ids p (some Choice.tie) t h k =
    won_by-append ids t.comparisons _ k (ground (arith, h, eq_comm p.a p.b))

among_ranked :
    (p : Panel) (exclude : List String) (q : Presentation)
    → is_among (ids_of p.body.candidates) q ≡ true
    → is_excluded exclude q ≡ false
    → is_among (ranked_ids p exclude) q ≡ true
among_ranked p exclude q h n =
    let ids = ids_of p.body.candidates in
    let kept = keep (λ i. not (member i exclude)) ids in
    rw
      (
        member-sort q.a kept,
        member-sort q.b kept,
        member-keep q.a exclude ids,
        member-keep q.b exclude ids,
      )
      (ground (arith, h, n))

tally_all-won_by :
    (panel : Panel) (choice : String → Option Choice) (exclude : List String)
    (ps : List Presentation) (t : Tallies)
    → all (is_among (ids_of panel.body.candidates)) ps ≡ true
    → won_by (ranked_ids panel exclude) t.comparisons ≡ true
    → won_by (ranked_ids panel exclude) (tally_all choice exclude ps t).comparisons ≡ true
unfolding tally_all
tally_all-won_by panel choice exclude [] t h k = k
tally_all-won_by panel choice exclude (p ∷ ps) t h k =
    let (here, rest) =
      and-parts (is_among (ids_of panel.body.candidates) p)
        (all (is_among (ids_of panel.body.candidates)) ps) h in
    elim (Bool-cases (is_excluded exclude p)) [
      | inl out ↦ rw (tally_all, out) (tally_all-won_by panel choice exclude ps t rest k)
      | inr counts ↦
          rw (tally_all, counts)
            (tally_all-won_by panel choice exclude ps (tally_choice p (choice p.presentation_id) t)
              rest
              (choice-won_by (ranked_ids panel exclude) p (choice p.presentation_id) t
                (among_ranked panel exclude p here counts) k))
    ]

all-winners :
    (ids : List String) (cs : List Comparison)
    → won_by ids cs ≡ true
    → all (λ c. member c.winner ids) cs ≡ true
all-winners ids [] h = refl
all-winners ids (c ∷ cs) h = ground (arith, h, all-winners ids cs)

-- No lookup of `_tally` and of its `bradley_terry` raises on a panel whose presentations show two
-- different candidates each, and the counts agree: each presentation that is not excluded is
-- counted once, the games of the pairs and the wins of the candidates grow by one for each that is
-- scored, and no pair is consistent and biased.
pub tally_judge-Agrees :
    (p : Panel) (records : List Record) (judge criterion : String) (exclude : List String)
    → distinct (ids_of p.body.candidates) ≡ true
    → all (is_among (ids_of p.body.candidates)) p.body.presentations ≡ true
    → (t : JudgeTally) × (tally_judge p records judge criterion exclude ≡ ok t)
      × Agrees (length (included exclude p.body.presentations)) t
unfolding tally_judge
tally_judge-Agrees p records judge criterion exclude fresh among =
    let ids = ranked_ids p exclude in
    let t =
      tally_all (verdict_for records judge criterion) exclude p.body.presentations no_tallies in
    let i =
      tally_all-IsTallied (verdict_for records judge criterion) exclude p.body.presentations 0
        no_tallies (record { counted = omega arith; weighed = omega arith; shown = omega arith }) in
    let between =
      tally_all-won_by p (verdict_for records judge criterion) exclude p.body.presentations
        no_tallies among refl in
    let won = all-winners ids t.comparisons between in
    let (games, returned, played) =
      strength_games-IsPlayed ids (scored t.counts) t.comparisons between i.weighed in
    let shared =
      total_wins-map (λ x. wins_for x t.comparisons) ids
      ∙ wins_total ids t.comparisons
          (distinct-sort (keep (λ x. not (member x exclude)) (ids_of p.body.candidates))
            (distinct-keep exclude (ids_of p.body.candidates) fresh))
          won in
    (
      judge_tally games (map (λ x. (x, wins_for x t.comparisons)) ids) t,
      rw (returned, won) refl,
      record {
        counted = omega (arith, i.counted);
        played = played;
        presentations = refl;
        shared = shared ∙ i.weighed;
        pairs = pairs_lem t.by_pair;
        both = omega (arith, both_lem t.by_pair, i.shown);
      },
    )
