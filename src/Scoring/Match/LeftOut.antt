-- ===== src/Scoring/Match/LeftOut.antt =====
-- src/draftbench/scoring/findings.py: what a list without repeats leaves out of another.
use llm_draftbench.Prelude.{
  suc, ◌+◌, ◌≤◌, String, Bool, true, false, List, [], ◌∷◌, not, ◌==◌, ◌≡◌, refl, sym, ap, subst,
  inl, inr, arith, all, keep, length, Bool-cases,
}
use llm_draftbench.Prelude.Text.{member, distinct, eq→path, eq_comm}
use llm_draftbench.Scoring.Cohort.{distinct_count}

pub distinct-count : (xs : List String) → distinct xs ≡ true → distinct_count xs ≡ length xs
distinct-count [] h = refl
distinct-count (x ∷ xs) h = ground (arith, h, distinct-count xs)

-- The entries of `ds` that `ms` leaves out.
abbrev pub left_out : List String → List String → List String
left_out ms ds = keep (λ d. not (member d ms)) ds

-- One more entry of `ms`, which `ds` has once, leaves one fewer out.
left_out-absent :
    (m : String) (ms ds : List String) → member m ds ≡ false → left_out (m ∷ ms) ds ≡ left_out ms ds
left_out-absent m ms [] h = refl
left_out-absent m ms (d ∷ ds) h = ground (arith, h, eq_comm m d, left_out-absent m ms ds)

left_out-cons :
    (m : String) (ms ds : List String)
    → distinct ds ≡ true
    → member m ds ≡ true
    → member m ms ≡ false
    → suc (length (left_out (m ∷ ms) ds)) ≡ length (left_out ms ds)
left_out-cons m ms [] h k n = cc
left_out-cons m ms (d ∷ ds) h k n = elim (Bool-cases (m == d)) [
  | inl same ↦
      let e = eq→path m d same in
      let away : member m ds ≡ false =
        subst (λ x. member x ds ≡ false) (sym e) (ground (arith, h)) in
      let fresh = subst (λ x. member x ms ≡ false) e n in
      ground (arith, same, fresh, left_out-absent m ms ds away)
  | inr other ↦
      let rest =
        left_out-cons m ms ds (ground (arith, h)) (ground (arith, k, other, eq_comm d m)) n in
      ground (arith, other, rest)
]

left_out-none : (ds : List String) → left_out [] ds ≡ ds
left_out-none [] = refl
left_out-none (d ∷ ds) = ap (λ es. d ∷ es) (left_out-none ds)

-- Distinct entries of a list without repeats, and what they leave out, are the whole.
pub length-left_out :
    (ms ds : List String)
    → distinct ms ≡ true
    → distinct ds ≡ true
    → all (λ m. member m ds) ms ≡ true
    → length ms + length (left_out ms ds) ≡ length ds
length-left_out [] ds h k n = omega (arith, ap length (left_out-none ds))
length-left_out (m ∷ ms) ds h k n =
    ground (arith, h, n, left_out-cons m ms ds k, length-left_out ms ds)

pub length-keep : (p : String → Bool) (xs : List String) → length (keep p xs) ≤ length xs
length-keep p [] = omega arith
length-keep p (x ∷ xs) = ground (arith, length-keep p xs)
