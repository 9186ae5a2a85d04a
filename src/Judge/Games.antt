-- ===== src/Judge/Games.antt =====
-- src/draftbench/judge/report.py: the `games` of `bradley_terry`. Weights are counted in halves.
use llm_draftbench.Prelude.{
  ℕ, zero, suc, ◌+◌, String, Bool, Option, none, some, List, [], ◌∷◌, ◌++◌, ◌&&◌, ◌||◌, ◌==◌, any,
  if◌then◌else◌, Result, ok, guard, ◌>>=◌, ◌>>◌,
}
use llm_draftbench.Prelude.Text.{member}

-- A win of the first over the second, in halves.
pub record Comparison : Type 0 where
  pub winner : String
  pub loser : String
  pub weight : ℕ

pub data TallyError : Type 0 where
  key_error : TallyError

-- The games of a pair of candidates, in halves.
pub record Games : Type 0 where
  pub left : String
  pub right : String
  pub played : ℕ

-- `combinations(ids, 2)`, each with `SMOOTHING`, a half. The keys of `games` are sorted, so that a
-- pair of names is one key in both orders.
abbrev pub games_with : String → List String → List Games
games_with i [] = []
games_with i (j ∷ js) = record { left = i; right = j; played = 1 } ∷ games_with i js

abbrev pub first_games : List String → List Games
first_games [] = []
first_games (i ∷ is) = games_with i is ++ first_games is

abbrev pub is_pair : Comparison → Games → Bool
is_pair c g =
    (g.left == c.winner && g.right == c.loser) || (g.left == c.loser && g.right == c.winner)

abbrev pub add_game : Comparison → List Games → List Games
add_game c [] = []
add_game c (g ∷ gs) =
    if is_pair c g then record g { played = g.played + c.weight } ∷ gs else g ∷ add_game c gs

-- The loop of `bradley_terry` over the comparisons: a winner that is not in `ids`, or a pair that
-- is not in `games`, is a missing key.
unfoldable pub games_of :
    List String → List Comparison → List Games → Result TallyError (List Games)
games_of ids [] gs = ok gs
games_of ids (c ∷ cs) gs = do
  guard (member c.winner ids) key_error
  guard (any (is_pair c) gs) key_error
  games_of ids cs (add_game c gs)

-- The games behind the strengths, of a tally with something scored.
abbrev pub strength_games :
    List String → ℕ → List Comparison → Result TallyError (Option (List Games))
strength_games ids zero cs = ok none
strength_games ids (suc n) cs = do games ← games_of ids cs (first_games ids); ok (some games)
