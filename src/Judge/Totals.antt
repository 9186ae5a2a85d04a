-- ===== src/Judge/Totals.antt =====
-- src/draftbench/judge/report.py: the counts of `_tally` agree.
use llm_draftbench.Prelude.{
  ℕ, suc, ◌+◌, ◌*◌, ◌≤◌, String, true, false, Option, none, some, List, [], ◌∷◌, ◌++◌, map, not,
  ◌&&◌, ◌||◌, ◌==◌, ◌≡◌, refl, sym, ap, ◌∙◌, subst, arith, inl, inr, Bool-cases, all, keep, length,
  length-append, sum_of, if◌then◌else◌, and-parts,
}
use llm_draftbench.Prelude.Text.{member, distinct, eq→path, eq_comm}
use llm_draftbench.Judge.Panel.{Presentation}
use llm_draftbench.Judge.Games.{Comparison}
use llm_draftbench.Judge.Tally.{
  Choice, PairSeen, chosen, tied, PairOutcomes, Tallies, add_outcome, tally_choice, is_excluded,
  tally_all, is_consistent, is_biased, has_both, pairs_with, wins_for, scored,
}

-- The presentations that are not excluded.
abbrev pub included : List String → List Presentation → List Presentation
included exclude ps = keep (λ p. not (is_excluded exclude p)) ps

abbrev pub weight_of : List Comparison → ℕ
weight_of cs = sum_of (λ c. c.weight) cs

abbrev pub seen_in : List PairOutcomes → ℕ
seen_in ps = sum_of (λ p. length p.outcomes) ps

seen_in-add_outcome :
    (f s : String) (o : PairSeen) (ps : List PairOutcomes)
    → seen_in (add_outcome f s o ps) ≡ suc (seen_in ps)
seen_in-add_outcome f s o [] = omega arith
seen_in-add_outcome f s o (p ∷ ps) =
    ground (arith, length-append p.outcomes (o ∷ []), seen_in-add_outcome f s o ps)

weight_of-append : (xs ys : List Comparison) → weight_of (xs ++ ys) ≡ weight_of xs + weight_of ys
weight_of-append [] ys = omega arith
weight_of-append (x ∷ xs) ys = omega (arith, weight_of-append xs ys)

-- After n presentations: each is counted once, each scored one weighs one win, and is seen once.
pub record IsTallied (n : ℕ) (t : Tallies) : Type 0 where
  pub counted : scored t.counts + t.counts.unknown + t.counts.missing ≡ n
  pub weighed : weight_of t.comparisons ≡ 2 * scored t.counts
  pub shown : seen_in t.by_pair ≡ scored t.counts

choice-IsTallied :
    (p : Presentation) (c : Option Choice) (n : ℕ) (t : Tallies)
    → IsTallied n t
    → IsTallied (suc n) (tally_choice p c t)
choice-IsTallied p none n t i = ground (arith, i)
choice-IsTallied p (some Choice.unknown) n t i = ground (arith, i)
choice-IsTallied p (some Choice.a) n t i = record {
  counted = omega (arith, i.counted);
  weighed = omega (
    arith,
    i.weighed,
    weight_of-append t.comparisons (record { winner = p.a; loser = p.b; weight = 2 } ∷ []),
  );
  shown = omega (arith, i.shown, seen_in-add_outcome p.first p.second (chosen p.a true) t.by_pair);
}
choice-IsTallied p (some Choice.b) n t i = record {
  counted = omega (arith, i.counted);
  weighed = omega (
    arith,
    i.weighed,
    weight_of-append t.comparisons (record { winner = p.b; loser = p.a; weight = 2 } ∷ []),
  );
  shown = omega (arith, i.shown, seen_in-add_outcome p.first p.second (chosen p.b false) t.by_pair);
}
choice-IsTallied p (some Choice.tie) n t i = record {
  counted = omega (arith, i.counted);
  weighed = omega (
    arith,
    i.weighed,
    weight_of-append t.comparisons (
        record { winner = p.a; loser = p.b; weight = 1 }
        ∷ record { winner = p.b; loser = p.a; weight = 1 }
        ∷ []),
  );
  shown = omega (arith, i.shown, seen_in-add_outcome p.first p.second tied t.by_pair);
}

pub tally_all-IsTallied :
    (choice : String → Option Choice) (exclude : List String) (ps : List Presentation) (n : ℕ)
    (t : Tallies)
    → IsTallied n t
    → IsTallied (length (included exclude ps) + n) (tally_all choice exclude ps t)
unfolding tally_all
tally_all-IsTallied choice exclude [] n t i = subst (λ m. IsTallied m t) (omega arith) i
tally_all-IsTallied choice exclude (p ∷ ps) n t i = elim (Bool-cases (is_excluded exclude p)) [
  | inl out ↦
      let same : length (included exclude (p ∷ ps)) ≡ length (included exclude ps) =
        ground (arith, out) in
      subst (λ m. IsTallied (m + n) (tally_all choice exclude (p ∷ ps) t)) (sym same)
        (rw out (tally_all-IsTallied choice exclude ps n t i))
  | inr counts ↦
      let next = tally_choice p (choice p.presentation_id) t in
      let more : length (included exclude ps) + suc n ≡ length (included exclude (p ∷ ps)) + n =
        ground (arith, counts) in
      subst (λ m. IsTallied m (tally_all choice exclude (p ∷ ps) t)) more
        (rw counts (
          tally_all-IsTallied choice exclude ps (suc n) next
            (choice-IsTallied p (choice p.presentation_id) n t i)))
]

-- What a pair's outcomes may be.
record Exclusive (os : List PairSeen) : Type 0 where
  apart : (is_consistent os && is_biased os) ≡ false
  both : ((is_consistent os || is_biased os) && not (has_both os)) ≡ false

exclusive : (os : List PairSeen) → Exclusive os
exclusive [] = record { apart = refl; both = refl }
exclusive (chosen c p ∷ chosen d q ∷ []) = record { apart = ground arith; both = ground arith }
exclusive (tied ∷ tied ∷ []) = record { apart = refl; both = refl }
exclusive (tied ∷ chosen d q ∷ []) = record { apart = refl; both = refl }
exclusive (chosen c p ∷ tied ∷ []) = record { apart = refl; both = refl }
exclusive (tied ∷ []) = record { apart = refl; both = refl }
exclusive (chosen c p ∷ []) = record { apart = refl; both = refl }
exclusive (tied ∷ tied ∷ x ∷ os) = record { apart = refl; both = refl }
exclusive (tied ∷ chosen d q ∷ x ∷ os) = record { apart = refl; both = refl }
exclusive (chosen c p ∷ tied ∷ x ∷ os) = record { apart = refl; both = refl }
exclusive (chosen c p ∷ chosen d q ∷ x ∷ os) = record { apart = refl; both = refl }

has_both-length : (os : List PairSeen) → has_both os ≡ true → length os ≡ 2
has_both-length [] h = cc
has_both-length (x ∷ []) h = cc
has_both-length (x ∷ y ∷ []) h = refl
has_both-length (x ∷ y ∷ z ∷ os) h = cc

-- Pairs that are consistent or biased have both orders, and no pair is both.
pub pairs_lem :
    (ps : List PairOutcomes)
    → pairs_with is_consistent ps + pairs_with is_biased ps ≤ pairs_with has_both ps
pairs_lem [] = omega arith
pairs_lem (p ∷ ps) = let e = exclusive p.outcomes in ground (arith, e.apart, e.both, pairs_lem ps)

pub both_lem : (ps : List PairOutcomes) → 2 * pairs_with has_both ps ≤ seen_in ps
both_lem [] = omega arith
both_lem (p ∷ ps) = ground (arith, has_both-length p.outcomes, both_lem ps)

add_absent :
    (w : String) (x : ℕ) (f : String → ℕ) (ids : List String)
    → member w ids ≡ false
    → sum_of (λ i. if w == i then x + f i else f i) ids ≡ sum_of f ids
add_absent w x f [] h = refl
add_absent w x f (i ∷ is) h = ground (arith, h, eq_comm i w, add_absent w x f is)

add_win :
    (w : String) (x : ℕ) (f : String → ℕ) (ids : List String)
    → distinct ids ≡ true
    → member w ids ≡ true
    → sum_of (λ i. if w == i then x + f i else f i) ids ≡ x + sum_of f ids
add_win w x f [] d h = cc
add_win w x f (i ∷ is) d h = elim (Bool-cases (w == i)) [
  | inl here ↦
      let away : member w is ≡ false =
        subst (λ v. member v is ≡ false) (sym (eq→path w i here)) (ground (arith, d)) in
      ground (arith, here, add_absent w x f is away)
  | inr other ↦ ground (arith, d, h, other, eq_comm i w, add_win w x f is)
]

no_wins : (ids : List String) → sum_of (λ i. wins_for i []) ids ≡ 0
no_wins [] = refl
no_wins (i ∷ is) = omega (arith, no_wins is)

-- Distinct names share the wins out.
pub wins_total :
    (ids : List String) (cs : List Comparison)
    → distinct ids ≡ true
    → all (λ c. member c.winner ids) cs ≡ true
    → sum_of (λ i. wins_for i cs) ids ≡ weight_of cs
wins_total ids [] d h = no_wins ids
wins_total ids (c ∷ cs) d h =
    let (here, rest) = and-parts (member c.winner ids) (all (λ c. member c.winner ids) cs) h in
    add_win c.winner c.weight (λ i. wins_for i cs) ids d here
    ∙ ap (λ n. c.weight + n) (wins_total ids cs d rest)

abbrev pub total_wins : List (String × ℕ) → ℕ
total_wins ws = sum_of (λ w. w.1) ws

pub total_wins-map :
    (f : String → ℕ) (ids : List String) → total_wins (map (λ i. (i, f i)) ids) ≡ sum_of f ids
total_wins-map f [] = refl
total_wins-map f (i ∷ is) = ap (λ n. f i + n) (total_wins-map f is)
