-- ===== src/Judge/Tally.antt =====
-- src/draftbench/judge/report.py: `_tally`, `_wins` and the `games` of `bradley_terry`. Weights are
-- counted in halves. The strengths, which are floats, are left out, and so is what their arithmetic
-- may raise.
use llm_draftbench.Prelude.{
  ℕ, suc, ◌+◌, String, Bool, true, false, Option, none, some, List, [], ◌∷◌, ◌++◌, map, not, ◌&&◌,
  ◌||◌, ◌==◌, all, keep, length, if◌then◌else◌, Result, ok, guard, ◌>>=◌, ◌>>◌,
}
use llm_draftbench.Prelude.Text.{member, joined}
use llm_draftbench.Prelude.Sorting.{sort_by}
use llm_draftbench.Judge.Panel.{Presentation, Panel}
use llm_draftbench.Judge.Games.{Comparison, TallyError, key_error, Games, games_of, strength_games}
use llm_draftbench.Judge.Dispatch.{ids_of}

pub data Choice : Type 0 where
  a b tie unknown : Choice

-- The part of a successful record that is tallied.
pub record Record : Type 0 where
  pub key : String
  pub verdicts : List (String × Choice)

abbrev pub record_of : String → List Record → Option Record
record_of k [] = none
record_of k (r ∷ rs) = elim (record_of k rs) [
  | some later ↦ some later
  | none ↦ if r.key == k then some r else none
]

abbrev pub choice_in : String → List (String × Choice) → Option Choice
choice_in criterion [] = none
choice_in criterion ((k, c) ∷ rest) = elim (choice_in criterion rest) [
  | some later ↦ some later
  | none ↦ if k == criterion then some c else none
]

-- The choice of a judge in a presentation.
abbrev pub verdict_for : List Record → String → String → String → Option Choice
verdict_for records judge criterion presentation =
    elim (record_of (joined presentation (joined ":" judge)) records) [
      | none ↦ none
      | some r ↦ choice_in criterion r.verdicts
    ]

pub record Counts : Type 0 where
  pub a : ℕ
  pub b : ℕ
  pub tie : ℕ
  pub unknown : ℕ
  pub missing : ℕ

-- What one order of a pair said: a candidate, and whether it stood first, or a tie.
pub data PairSeen : Type 0 where
  chosen : String → Bool → PairSeen
  tied : PairSeen

pub record PairOutcomes : Type 0 where
  pub first : String
  pub second : String
  pub outcomes : List PairSeen

pub record Tallies : Type 0 where
  pub counts : Counts
  pub comparisons : List Comparison
  pub by_pair : List PairOutcomes

abbrev pub no_tallies : Tallies
no_tallies = record {
  counts = record { a = 0; b = 0; tie = 0; unknown = 0; missing = 0 };
  comparisons = [];
  by_pair = [];
}

-- `by_pair.setdefault(pair, []).append(outcome)`
abbrev pub add_outcome : String → String → PairSeen → List PairOutcomes → List PairOutcomes
add_outcome f s o [] = record { first = f; second = s; outcomes = o ∷ [] } ∷ []
add_outcome f s o (p ∷ ps) =
    if p.first == f && p.second == s
    then record p { outcomes = p.outcomes ++ (o ∷ []) } ∷ ps
    else p ∷ add_outcome f s o ps

-- One round of the loop.
abbrev pub tally_choice : Presentation → Option Choice → Tallies → Tallies
tally_choice p none t = record t { counts = record t.counts { missing = suc t.counts.missing } }
tally_choice p (some Choice.unknown) t = record t {
  counts = record t.counts { unknown = suc t.counts.unknown };
}
tally_choice p (some Choice.a) t = record {
  counts = record t.counts { a = suc t.counts.a };
  comparisons = t.comparisons ++ (record { winner = p.a; loser = p.b; weight = 2 } ∷ []);
  by_pair = add_outcome p.first p.second (chosen p.a true) t.by_pair;
}
tally_choice p (some Choice.b) t = record {
  counts = record t.counts { b = suc t.counts.b };
  comparisons = t.comparisons ++ (record { winner = p.b; loser = p.a; weight = 2 } ∷ []);
  by_pair = add_outcome p.first p.second (chosen p.b false) t.by_pair;
}
tally_choice p (some Choice.tie) t = record {
  counts = record t.counts { tie = suc t.counts.tie };
  comparisons =
      t.comparisons
      ++ (record { winner = p.a; loser = p.b; weight = 1 }
          ∷ record { winner = p.b; loser = p.a; weight = 1 }
          ∷ []);
  by_pair = add_outcome p.first p.second tied t.by_pair;
}

abbrev pub is_excluded : List String → Presentation → Bool
is_excluded exclude p = member p.a exclude || member p.b exclude

module _ (choice : String → Option Choice) (exclude : List String) where
  unfoldable pub tally_all : List Presentation → Tallies → Tallies
  tally_all [] t = t
  tally_all (p ∷ ps) t =
      tally_all ps
        (if is_excluded exclude p then t else tally_choice p (choice p.presentation_id) t)

abbrev pub same_place : Bool → Bool → Bool
same_place true q = q
same_place false q = not q

-- The two orders of a pair name one candidate, or both say a tie.
abbrev pub is_consistent : List PairSeen → Bool
is_consistent (chosen c p ∷ chosen d q ∷ []) = c == d
is_consistent (tied ∷ tied ∷ []) = true
is_consistent _ = false

-- They name one position, and so two candidates.
abbrev pub is_biased : List PairSeen → Bool
is_biased (chosen c p ∷ chosen d q ∷ []) = not (c == d) && same_place p q
is_biased _ = false

abbrev pub has_both : List PairSeen → Bool
has_both (x ∷ y ∷ []) = true
has_both _ = false

abbrev pub pairs_with : (List PairSeen → Bool) → List PairOutcomes → ℕ
pairs_with t ps = length (keep (λ p. t p.outcomes) ps)

-- `wins[i]`
abbrev pub wins_for : String → List Comparison → ℕ
wins_for i [] = 0
wins_for i (c ∷ cs) = if c.winner == i then c.weight + wins_for i cs else wins_for i cs

-- `_wins`: a winner that is not in `ids` is a missing key.
abbrev pub wins_of : List String → List Comparison → Result TallyError (List (String × ℕ))
wins_of ids cs = do
  guard (all (λ c. member c.winner ids) cs) key_error
  ok (map (λ i. (i, wins_for i cs)) ids)

pub record JudgeTally : Type 0 where
  pub counts : Counts
  pub scored_presentations : ℕ
  pub pairs_with_both_orders : ℕ
  pub pairs_consistent : ℕ
  pub pairs_position_biased : ℕ
  pub games : Option (List Games)
  pub wins : List (String × ℕ)
  pub comparisons : List Comparison

abbrev pub scored : Counts → ℕ
scored n = n.a + n.b + n.tie

-- `sorted(set(panel["candidates"]) - exclude)`
abbrev pub ranked_ids : Panel → List String → List String
ranked_ids p exclude =
    sort_by (λ i. i) (keep (λ i. not (member i exclude)) (ids_of p.body.candidates))

-- What `_tally` returns.
abbrev pub judge_tally : Option (List Games) → List (String × ℕ) → Tallies → JudgeTally
judge_tally games wins t = record {
  counts = t.counts;
  scored_presentations = scored t.counts;
  pairs_with_both_orders = pairs_with has_both t.by_pair;
  pairs_consistent = pairs_with is_consistent t.by_pair;
  pairs_position_biased = pairs_with is_biased t.by_pair;
  games = games;
  wins = wins;
  comparisons = t.comparisons;
}

abbrev pub tally_from : List String → Tallies → Result TallyError JudgeTally
tally_from ids t = do
  games ← strength_games ids (scored t.counts) t.comparisons
  wins ← wins_of ids t.comparisons
  ok (judge_tally games wins t)

-- `_tally`
unfoldable pub tally_judge :
    Panel → List Record → String → String → List String → Result TallyError JudgeTally
unfolding tally_all sort_by games_of
tally_judge p records judge criterion exclude =
    tally_from (ranked_ids p exclude)
      (tally_all (verdict_for records judge criterion) exclude p.body.presentations no_tallies)
