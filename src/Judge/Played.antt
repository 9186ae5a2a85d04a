-- ===== src/Judge/Played.antt =====
-- src/draftbench/judge/report.py: the games of `bradley_terry`, which hold every pair.
use llm_draftbench.Prelude.{
  ℕ, zero, suc, ◌+◌, ◌*◌, String, Bool, true, false, Option, none, some, List, [], ◌∷◌, ◌++◌, not,
  ◌&&◌, ◌||◌, ◌==◌, ◌≡◌, refl, sym, ap, ◌∙◌, subst, arith, inl, inr, Bool-cases, any, all, length,
  length-append, sum_of, and-parts, ok,
}
use llm_draftbench.Prelude.Text.{member, eq→path, eq_comm}
use llm_draftbench.Judge.Totals.{weight_of}
use llm_draftbench.Judge.Games.{
  Comparison, Games, games_with, first_games, is_pair, add_game, games_of, strength_games,
}

-- A comparison of two of the candidates, which are not one.
abbrev pub is_between : List String → Comparison → Bool
is_between ids c = member c.winner ids && member c.loser ids && not (c.winner == c.loser)

any-append {ℓ} :
    {A : Type ℓ} (t : A → Bool) (xs ys : List A) → any t (xs ++ ys) ≡ (any t xs || any t ys)
any-append t [] ys = refl
any-append t (x ∷ xs) ys = ground (arith, any-append t xs ys)

won_with :
    (c : Comparison) (i : String) (js : List String)
    → (i == c.winner) ≡ true
    → member c.loser js ≡ true
    → any (is_pair c) (games_with i js) ≡ true
won_with c i [] h k = cc
won_with c i (j ∷ js) h k = ground (arith, h, k, won_with c i js h, eq_comm j c.loser)

lost_with :
    (c : Comparison) (i : String) (js : List String)
    → (i == c.loser) ≡ true
    → member c.winner js ≡ true
    → any (is_pair c) (games_with i js) ≡ true
lost_with c i [] h k = cc
lost_with c i (j ∷ js) h k = ground (arith, h, k, lost_with c i js h, eq_comm j c.winner)

sum_of-append :
    (f : Games → ℕ) (xs ys : List Games) → sum_of f (xs ++ ys) ≡ sum_of f xs + sum_of f ys
sum_of-append f [] ys = omega arith
sum_of-append f (x ∷ xs) ys = omega (arith, sum_of-append f xs ys)

-- Two names that are not one do not both equal a third.
apart : (i w l : String) → (i == w) ≡ true → (w == l) ≡ false → (i == l) ≡ false
apart i w l h n = subst (λ x. (x == l) ≡ false) (sym (eq→path i w h)) n

between-first_games :
    (c : Comparison) (ids : List String)
    → is_between ids c ≡ true
    → any (is_pair c) (first_games ids) ≡ true
between-first_games c [] h = cc
between-first_games c (i ∷ is) h =
    rw (any-append (is_pair c) (games_with i is) (first_games is))
      (elim (Bool-cases (i == c.winner)) [
        | inl here ↦ ground (
          arith,
          h,
          won_with c i is here,
          apart i c.winner c.loser here,
          eq_comm i c.loser,
          eq_comm i c.winner,
        )
        | inr other ↦ elim (Bool-cases (i == c.loser)) [
          | inl here ↦ ground (arith, h, other, lost_with c i is here, eq_comm i c.winner)
          | inr away ↦ ground (
            arith,
            h,
            other,
            away,
            between-first_games c is,
            eq_comm i c.winner,
            eq_comm i c.loser,
          )
        ]
      ])

module _ (c : Comparison) where
  add_game-pair :
      (d : Comparison) (gs : List Games) → any (is_pair d) (add_game c gs) ≡ any (is_pair d) gs
  add_game-pair d [] = refl
  add_game-pair d (g ∷ gs) = elim (Bool-cases (is_pair c g)) [
    | inl here ↦ rw here refl
    | inr away ↦ rw away (ap (λ b. is_pair d g || b) (add_game-pair d gs))
  ]

  add_game-length : (gs : List Games) → length (add_game c gs) ≡ length gs
  add_game-length [] = refl
  add_game-length (g ∷ gs) = elim (Bool-cases (is_pair c g)) [
    | inl here ↦ rw here refl
    | inr away ↦ rw away (ap (λ n. suc n) (add_game-length gs))
  ]

  add_game-played :
      (gs : List Games)
      → any (is_pair c) gs ≡ true
      → sum_of (λ g. g.played) (add_game c gs) ≡ sum_of (λ g. g.played) gs + c.weight
  add_game-played [] h = cc
  add_game-played (g ∷ gs) h = elim (Bool-cases (is_pair c g)) [
    | inl here ↦ rw here (omega arith)
    | inr away ↦
        rw away
          (omega (arith, add_game-played gs (subst (λ b. (b || any (is_pair c) gs) ≡ true) away h)))
  ]

-- The loop returns, and has counted each comparison once.
games_of-returns :
    (ids : List String) (cs : List Comparison) (gs : List Games)
    → all (is_between ids) cs ≡ true
    → ((c : Comparison) → is_between ids c ≡ true → any (is_pair c) gs ≡ true)
    → (r : List Games) × (games_of ids cs gs ≡ ok r)
      × (length r ≡ length gs)
      × (sum_of (λ g. g.played) r ≡ sum_of (λ g. g.played) gs + weight_of cs)
unfolding games_of
games_of-returns ids [] gs h pairs = (gs, refl, refl, omega arith)
games_of-returns ids (c ∷ cs) gs h pairs =
    let (here, rest) = and-parts (is_between ids c) (all (is_between ids) cs) h in
    let found = pairs c here in
    let winner : member c.winner ids ≡ true = ground (arith, here) in
    let (r, returned, long, played) =
      games_of-returns ids cs (add_game c gs) rest
        (λ d between. add_game-pair c d gs ∙ pairs d between) in
    (
      r,
      rw (winner, found) returned,
      long ∙ add_game-length c gs,
      omega (arith, played, add_game-played c gs found),
    )

games_with-played :
    (i : String) (js : List String)
    → sum_of (λ g. g.played) (games_with i js) ≡ length (games_with i js)
games_with-played i [] = refl
games_with-played i (j ∷ js) = omega (arith, games_with-played i js)

played-append :
    (xs ys : List Games)
    → sum_of (λ g. g.played) xs ≡ length xs
    → sum_of (λ g. g.played) ys ≡ length ys
    → sum_of (λ g. g.played) (xs ++ ys) ≡ length (xs ++ ys)
played-append xs ys h k =
    omega (arith, h, k, sum_of-append (λ g. g.played) xs ys, length-append xs ys)

first_games-played :
    (ids : List String) → sum_of (λ g. g.played) (first_games ids) ≡ length (first_games ids)
first_games-played [] = refl
first_games-played (i ∷ is) =
    played-append (games_with i is) (first_games is) (games_with-played i is)
      (first_games-played is)

-- The games of a tally: none without something scored, else a half for each pair and one for each
-- that is scored.
pub IsPlayed : ℕ → Option (List Games) → Type 0
IsPlayed n none = n ≡ 0
IsPlayed n (some gs) = sum_of (λ g. g.played) gs ≡ length gs + 2 * n

pub strength_games-IsPlayed :
    (ids : List String) (n : ℕ) (cs : List Comparison)
    → all (is_between ids) cs ≡ true
    → weight_of cs ≡ 2 * n
    → (o : Option (List Games)) × (strength_games ids n cs ≡ ok o) × IsPlayed n o
unfolding IsPlayed
strength_games-IsPlayed ids zero cs h w = (none, refl, refl)
strength_games-IsPlayed ids (suc n) cs h w =
    let (r, returned, long, played) =
      games_of-returns ids cs (first_games ids) h (λ c. between-first_games c ids) in
    (some r, rw returned refl, omega (arith, long, played, w, first_games-played ids))
