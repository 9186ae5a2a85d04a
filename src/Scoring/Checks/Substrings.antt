-- ===== src/Scoring/Checks/Substrings.antt =====
-- src/draftbench/scoring/deterministic.py and models.py: `literal in text`, and the place of a quote.
use llm_draftbench.Prelude.{
  ℕ, zero, suc, ◌+◌, ◌-◌, ◌≤◌, String, true, List, [], ◌∷◌, ◌++◌, ◌&&◌, ◌≡◌, ◌↔◌, refl, arith, inl,
  inr, Bool-cases, Option-cases, nat_eq, nat_eq_refl, length, length-append, ap, sym, ◌∙◌, subst,
  and-left, and-right, and-intro, leb, leb→le, le→leb, some,
}
use llm_draftbench.Prelude.Text.{codes}
use llm_draftbench.Scoring.Case.{Span}
use llm_draftbench.Scoring.Decisions.{drop, take, same_codes, text_of, span_matches}
use llm_draftbench.Scoring.Valid.{valid_span}
use llm_draftbench.Scoring.Checks.Verdicts.{starts_with, occurs, contains}

starts_with-prefix :
    (xs ys : List ℕ) → starts_with xs ys ≡ true → (after : List ℕ) × (ys ≡ xs ++ after)
starts_with-prefix [] ys h = (ys, refl)
starts_with-prefix (x ∷ xs) [] h = cc
starts_with-prefix (x ∷ xs) (y ∷ ys) h =
    let (after, same) = starts_with-prefix xs ys (and-right (nat_eq x y) _ h) in
    let eq : y ≡ x = ground arith in (after, rw (same, eq) refl)

prefix-starts_with : (xs after : List ℕ) → starts_with xs (xs ++ after) ≡ true
prefix-starts_with [] after = refl
prefix-starts_with (x ∷ xs) after = rw (nat_eq_refl x) (prefix-starts_with xs after)

-- The places where `xs` stands in `ys`.
pub record Place (xs ys : List ℕ) : Type 0 where
  pub before : List ℕ
  pub after : List ℕ
  pub split : ys ≡ before ++ (xs ++ after)

occurs-Place : (xs ys : List ℕ) → occurs xs ys ≡ true → Place xs ys
occurs-Place [] [] h = record { before = []; after = []; split = refl }
occurs-Place (x ∷ xs) [] h = cc
occurs-Place xs (y ∷ ys) h = elim (Bool-cases (starts_with xs (y ∷ ys))) [
  | inl s ↦
      let (after, same) = starts_with-prefix xs (y ∷ ys) s in
      record { before = []; after = after; split = same }
  | inr n ↦
      let p = occurs-Place xs ys (ground (arith, h, n)) in
      record { before = y ∷ p.before; after = p.after; split = ap (λ zs. y ∷ zs) p.split }
]

occurs-append : (xs before after : List ℕ) → occurs xs (before ++ (xs ++ after)) ≡ true
occurs-append [] [] [] = refl
occurs-append [] [] (y ∷ ys) = refl
occurs-append (x ∷ xs) [] after = rw (nat_eq_refl x, prefix-starts_with xs after) refl
occurs-append xs (y ∷ before) after = ground (arith, occurs-append xs before after)

-- A literal is in a text exactly if the text is something, the literal, and something.
pub contains-Place :
    (literal text : String) → (contains literal text ≡ true) ↔ Place (codes literal) (codes text)
contains-Place literal text = (
  occurs-Place (codes literal) (codes text),
  λ p.
      subst (λ ys. occurs (codes literal) ys ≡ true) (sym p.split)
        (occurs-append (codes literal) p.before p.after),
)

pub same_codes→path : (xs ys : List ℕ) → same_codes xs ys ≡ true → xs ≡ ys
same_codes→path [] [] h = refl
same_codes→path (x ∷ xs) (y ∷ ys) h =
    let same = same_codes→path xs ys (and-right (nat_eq x y) _ h) in
    let eq : x ≡ y = ground arith in rw (same, eq) refl
same_codes→path [] (y ∷ ys) h = cc
same_codes→path (x ∷ xs) [] h = cc

pub same_codes_refl : (xs : List ℕ) → same_codes xs xs ≡ true
same_codes_refl [] = refl
same_codes_refl (x ∷ xs) = rw (nat_eq_refl x) (same_codes_refl xs)

take-drop : (n : ℕ) (xs : List ℕ) → xs ≡ take n xs ++ drop n xs
take-drop zero xs = refl
take-drop (suc n) [] = refl
take-drop (suc n) (x ∷ xs) = ap (λ ys. x ∷ ys) (take-drop n xs)

length-take : (n : ℕ) (xs : List ℕ) → n ≤ length xs → length (take n xs) ≡ n
length-take zero xs h = refl
length-take (suc n) [] h = omega (arith, h)
length-take (suc n) (x ∷ xs) h = ap (λ k. suc k) (length-take n xs (omega (arith, h)))

length-drop : (n : ℕ) (xs : List ℕ) → length (drop n xs) ≡ length xs - n
length-drop zero xs = omega arith
length-drop (suc n) [] = omega arith
length-drop (suc n) (x ∷ xs) = omega (arith, length-drop n xs)

drop-append : (before rest : List ℕ) → drop (length before) (before ++ rest) ≡ rest
drop-append [] rest = refl
drop-append (x ∷ before) rest = drop-append before rest

take-append : (quote after : List ℕ) → take (length quote) (quote ++ after) ≡ quote
take-append [] after = refl
take-append (x ∷ quote) after = ap (λ ys. x ∷ ys) (take-append quote after)

-- The quote stands in the text from `start` up to `end`.
pub record IsQuoted (span : Span) (text : String) : Type 0 where
  pub place : Place (codes span.quote) (codes text)
  pub starts : length place.before ≡ span.start
  pub ends : span.start + length (codes span.quote) ≡ span.end

abbrev slice : ℕ → ℕ → List ℕ → List ℕ
slice start end xs = take (end - start) (drop start xs)

slice-IsQuoted :
    (span : Span) (text : String)
    → span.start ≤ span.end
    → (leb span.end (length (codes text))
        && same_codes (slice span.start span.end (codes text)) (codes span.quote))
      ≡ true
    → IsQuoted span text
slice-IsQuoted span text order h =
    let xs = codes text in
    let n = span.end - span.start in
    let within =
      leb→le span.end (length xs)
        (and-left _ (same_codes (slice span.start span.end xs) (codes span.quote)) h) in
    let same =
      same_codes→path (slice span.start span.end xs) (codes span.quote)
        (and-right (leb span.end (length xs)) _ h) in
    record {
      place = record {
        before = take span.start xs;
        after = drop n (drop span.start xs);
        split =
            take-drop span.start xs
            ∙ ap (λ ys. take span.start xs ++ ys)
                (take-drop n (drop span.start xs)
                  ∙ ap (λ ys. ys ++ drop n (drop span.start xs)) same);
      };
      starts = length-take span.start xs (omega (arith, within, order));
      ends =
          subst (λ ys. span.start + length ys ≡ span.end) same
            (omega (
              arith,
              within,
              order,
              length-drop span.start xs,
              length-take n (drop span.start xs)
                  (omega (arith, within, order, length-drop span.start xs)),
            ));
    }

IsQuoted-slice :
    (span : Span) (text : String)
    → IsQuoted span text
    → (leb span.end (length (codes text))
        && same_codes (slice span.start span.end (codes text)) (codes span.quote))
      ≡ true
IsQuoted-slice span text q =
    let before = q.place.before in
    let quote = codes span.quote in
    let cut : slice span.start span.end (codes text) ≡ quote =
      rw (q.place.split, sym q.starts, drop-append before (quote ++ q.place.after))
        (subst (λ n. take n (quote ++ q.place.after) ≡ quote) (omega (arith, q.ends, q.starts))
          (take-append quote q.place.after)) in
    and-intro (leb span.end (length (codes text))) _
      (le→leb span.end (length (codes text)) (
        omega (
          arith,
          q.ends,
          q.starts,
          ap length q.place.split,
          length-append before (quote ++ q.place.after),
          length-append quote q.place.after,
        )))
      (subst (λ ys. same_codes ys quote ≡ true) (sym cut) (same_codes_refl quote))

-- A span matches the text that it names exactly if its quote stands there, from its start up to
-- its end, where the start is not past the end.
pub span_matches-IsQuoted :
    (span : Span) (texts : List (String × String)) (text : String)
    → span.start ≤ span.end
    → text_of span.item_id texts ≡ some text
    → (span_matches span texts ≡ true) ↔ IsQuoted span text
span_matches-IsQuoted span texts text order found =
    rw (span_matches, found) (slice-IsQuoted span text order, IsQuoted-slice span text)

-- The quote of a span stands in the text that it names, from its start up to its end.
pub record Quoted (texts : List (String × String)) (span : Span) : Type 0 where
  pub text : String
  pub found : text_of span.item_id texts ≡ some text
  pub quoted : IsQuoted span text

pub span_matches-Quoted :
    (texts : List (String × String)) (span : Span)
    → valid_span span ≡ true
    → (span_matches span texts ≡ true) ↔ Quoted texts span
span_matches-Quoted texts span valid =
    let order : span.start ≤ span.end = ground (arith, valid) in
    (
      λ h. elim (Option-cases (text_of span.item_id texts)) [
        | inl missing ↦ absurd (ground (arith, h, missing))
        | inr (text, found) ↦ record {
          text = text;
          found = found;
          quoted = (span_matches-IsQuoted span texts text order found).0 h;
        }
      ],
      λ q. (span_matches-IsQuoted span texts q.text order q.found).1 q.quoted,
    )
