-- ===== src/Prelude/Text.antt =====
-- Texts that the program only compares, and sets of them as lists.
use Prim.Native.Nat.{ℕ}
use Prim.Native.Char.{code}
use Prim.Native.String.{String, ◌++◌}
use mathlib.Core.Path.{◌≡◌, refl, sym, ◌∙◌}
use mathlib.Core.Bool.{Bool, true, false, ◌&&◌, ◌||◌}
use mathlib.Core.Option.{Option, none, some}
use mathlib.Core.List.{List, [], ◌∷◌}
use native.Mathlib.Omega.{arith}
use text.Mathlib.Text.{◌==◌}
use text.Mathlib.TextEquality.{eq_iff}
use llm_draftbench.Prelude.Lists.{all}
use llm_draftbench.Prelude.Tests.{and-intro, or-true}

-- The code points of a text.
abbrev pub codes : String → List ℕ
codes String.[] = []
codes (String.◌∷◌ c s) = code c ∷ codes s

-- `a + b`
abbrev pub joined : String → String → String
joined a b = a ++ b

-- Equality of values that may be missing (`None`).
abbrev pub opt_eq : Option String → Option String → Bool
opt_eq none none = true
opt_eq (some a) (some b) = a == b
opt_eq _ _ = false

pub eq→path : (a b : String) → (a == b) ≡ true → a ≡ b
eq→path a b h = (eq_iff a b).0 h

pub opt_eq→path : (a b : Option String) → opt_eq a b ≡ true → a ≡ b
opt_eq→path none none h = refl
opt_eq→path (some a) (some b) h = ground (arith, eq_iff a b)
opt_eq→path none (some b) h = cc
opt_eq→path (some a) none h = cc

pub path→opt_eq : (a b : Option String) → a ≡ b → opt_eq a b ≡ true
path→opt_eq none none h = refl
path→opt_eq (some a) (some b) h = ground (arith, eq_iff a b)
path→opt_eq none (some b) h = cc
path→opt_eq (some a) none h = cc

-- `x in xs`
abbrev pub member : String → List String → Bool
member x [] = false
member x (y ∷ ys) = y == x || member x ys

-- `set(xs) == set(ys)`
abbrev pub same_set : List String → List String → Bool
same_set xs ys = all (λ x. member x ys) xs && all (λ y. member y xs) ys

-- `len(xs) == len(set(xs))`
abbrev pub distinct : List String → Bool
distinct [] = true
distinct (x ∷ xs) = elim (member x xs) [ true ↦ false | false ↦ distinct xs ]

-- A member of a list whose entries all pass a test passes it.
pub all-member :
    (p : String → Bool) (xs : List String) (x : String)
    → all p xs ≡ true
    → member x xs ≡ true
    → p x ≡ true
all-member p [] x h m = cc
all-member p (y ∷ ys) x h m = ground (arith, eq_iff y x, all-member p ys x)

-- Entries that pass one test pass a weaker one.
pub all_mono :
    (p q : String → Bool) (xs : List String)
    → ((x : String) → p x ≡ true → q x ≡ true)
    → all p xs ≡ true
    → all q xs ≡ true
all_mono p q [] f h = refl
all_mono p q (x ∷ xs) f h = ground (arith, f x, all_mono p q xs f)

-- A set that gains `x` on one side and `x` on the other.
pub same_set-cons :
    (x : String) (xs ys : List String) → same_set xs ys ≡ true → same_set (x ∷ xs) (x ∷ ys) ≡ true
same_set-cons x xs ys h = ground (
  arith,
  eq_iff x x,
  all_mono (λ z. member z ys) (λ z. member z (x ∷ ys)) xs (λ z k. ground arith),
  all_mono (λ z. member z xs) (λ z. member z (x ∷ xs)) ys (λ z k. ground arith),
)

-- A member of the right side may join the left side.
pub same_set-cons_left :
    (x : String) (xs ys : List String)
    → member x ys ≡ true
    → same_set xs ys ≡ true
    → same_set (x ∷ xs) ys ≡ true
same_set-cons_left x xs ys m h =
    ground (arith, all_mono (λ z. member z xs) (λ z. member z (x ∷ xs)) ys (λ z k. ground arith))

pub eq_comm : (a b : String) → (a == b) ≡ (b == a)
eq_comm a b = ground (arith, eq_iff a b, eq_iff b a)

pub eq_self : (a : String) → (a == a) ≡ true
eq_self a = ground (arith, eq_iff a a)

pub same_set-member :
    (x : String) (xs ys : List String)
    → same_set xs ys ≡ true
    → member x ys ≡ true
    → member x xs ≡ true
same_set-member x xs ys h m = all-member (λ y. member y xs) ys x (ground arith) m

-- A member of the left side may join the right side.
pub same_set-cons_right :
    (x : String) (xs ys : List String)
    → member x xs ≡ true
    → same_set xs ys ≡ true
    → same_set xs (x ∷ ys) ≡ true
same_set-cons_right x xs ys m h =
    ground (arith, all_mono (λ z. member z ys) (λ z. member z (x ∷ ys)) xs (λ z k. ground arith))

pub all-of_member :
    (p : String → Bool) (xs : List String)
    → ((x : String) → member x xs ≡ true → p x ≡ true)
    → all p xs ≡ true
all-of_member p [] h = refl
all-of_member p (x ∷ xs) h =
    ground (arith, eq_iff x x, h x, all-of_member p xs (λ y m. h y (or-true (x == y) m)))

-- Lists with the same members are the same set.
pub same_set-ext :
    (xs ys : List String) → ((x : String) → member x xs ≡ member x ys) → same_set xs ys ≡ true
same_set-ext xs ys h =
    and-intro (all (λ x. member x ys) xs) (all (λ y. member y xs) ys)
      (all-of_member (λ x. member x ys) xs (λ x m. sym (h x) ∙ m))
      (all-of_member (λ y. member y xs) ys (λ y m. h y ∙ m))
