-- ===== src/Judge/Orders.antt =====
-- src/draftbench/judge/panel.py: each two candidates are shown in both orders, once each.
use llm_draftbench.Prelude.{
  ℕ, suc, ◌+◌, ◌*◌, String, Bool, true, false, List, [], ◌∷◌, ◌++◌, not, ◌&&◌, ◌||◌, ◌==◌, ◌≡◌,
  refl, ap, ◌∙◌, subst, arith, length, length-append, if◌then◌else◌,
}
use llm_draftbench.Prelude.Text.{member, distinct, eq→path, eq_comm}
use llm_draftbench.Prelude.Sorting.{insert_by, sort_by}
use llm_draftbench.Judge.Panel.{Presentation, present_with, presentations_of}

-- How often `a` is shown first and `b` second.
abbrev pub shown : String → String → List Presentation → ℕ
shown a b [] = 0
shown a b (p ∷ ps) = if p.a == a && p.b == b then suc (shown a b ps) else shown a b ps

abbrev pub one_if : Bool → ℕ
one_if true = 1
one_if false = 0

-- Equal names have the same members and the same equals.
apart :
    (x y : String) (ys : List String) → (x == y) ≡ true → member x ys ≡ false → member y ys ≡ false
apart x y ys e h = subst (λ z. member z ys ≡ false) (eq→path x y e) h

join : (x a b : String) → (x == a) ≡ true → (x == b) ≡ (a == b)
join x a b e = ap (λ z. z == b) (eq→path x a e)

shown-append :
    (a b : String) (ps qs : List Presentation) → shown a b (ps ++ qs) ≡ shown a b ps + shown a b qs
shown-append a b [] qs = omega arith
shown-append a b (p ∷ ps) qs = ground (arith, shown-append a b ps qs)

shown-present_with :
    (a b x : String) (ys : List String)
    → distinct ys ≡ true
    → shown a b (present_with x ys)
      ≡ one_if (x == a && member b ys) + one_if (x == b && member a ys)
shown-present_with a b x [] h = ground arith
shown-present_with a b x (y ∷ ys) h =
    ground (arith, h, apart y a ys, apart y b ys, shown-present_with a b x ys)

pub shown-presentations_of :
    (a b : String) (ids : List String)
    → distinct ids ≡ true
    → shown a b (presentations_of ids) ≡ one_if (member a ids && member b ids && not (a == b))
unfolding presentations_of
shown-presentations_of a b [] h = refl
shown-presentations_of a b (x ∷ xs) h = ground (
  arith,
  h,
  apart x a xs,
  apart x b xs,
  join x a b,
  join x b a,
  eq_comm a b,
  shown-append a b (present_with x xs) (presentations_of xs),
  shown-present_with a b x xs,
  shown-presentations_of a b xs,
)

length-present_with : (x : String) (ys : List String) → length (present_with x ys) ≡ 2 * length ys
length-present_with x [] = omega arith
length-present_with x (y ∷ ys) = omega (arith, length-present_with x ys)

-- n candidates have n (n - 1) presentations.
pub length-presentations_of :
    (ids : List String) → length (presentations_of ids) + length ids ≡ length ids * length ids
unfolding presentations_of
length-presentations_of [] = omega arith
length-presentations_of (x ∷ xs) = omega (
  arith,
  length-append (present_with x xs) (presentations_of xs),
  length-present_with x xs,
  length-presentations_of xs,
)

-- Sorting names keeps them.
member-insert :
    (x y : String) (ys : List String) → member x (insert_by (λ i. i) y ys) ≡ (y == x || member x ys)
unfolding insert_by
member-insert x y [] = refl
member-insert x y (z ∷ zs) = ground (arith, member-insert x y zs)

pub member-sort : (x : String) (ys : List String) → member x (sort_by (λ i. i) ys) ≡ member x ys
unfolding sort_by
member-sort x [] = refl
member-sort x (y ∷ ys) =
    member-insert x y (sort_by (λ i. i) ys) ∙ ap (λ b. y == x || b) (member-sort x ys)

distinct-insert :
    (y : String) (ys : List String)
    → distinct ys ≡ true
    → member y ys ≡ false
    → distinct (insert_by (λ i. i) y ys) ≡ true
unfolding insert_by
distinct-insert y [] h n = refl
distinct-insert y (z ∷ zs) h n =
    ground (arith, h, n, distinct-insert y zs, member-insert z y zs, eq_comm y z)

pub distinct-sort : (ys : List String) → distinct ys ≡ true → distinct (sort_by (λ i. i) ys) ≡ true
unfolding sort_by
distinct-sort [] h = refl
distinct-sort (y ∷ ys) h =
    distinct-insert y (sort_by (λ i. i) ys) (distinct-sort ys (ground (arith, h)))
      (member-sort y ys ∙ ground (arith, h))

length-insert : (y : String) (ys : List String) → length (insert_by (λ i. i) y ys) ≡ suc (length ys)
unfolding insert_by
length-insert y [] = refl
length-insert y (z ∷ zs) = ground (arith, length-insert y zs)

pub length-sort : (ys : List String) → length (sort_by (λ i. i) ys) ≡ length ys
unfolding sort_by
length-sort [] = refl
length-sort (y ∷ ys) = length-insert y (sort_by (λ i. i) ys) ∙ ap (λ n. suc n) (length-sort ys)
