-- ===== src/Ledger/Plan/Traversal.antt =====
-- src/draftbench/ledger.py: the traversal of `_validate_plan` ends.
use llm_draftbench.Prelude.{
  ℕ, zero, suc, ◌+◌, ◌-◌, ◌≤◌, String, Bool, true, false, some, List, [], ◌∷◌, ◌++◌, length,
  length-append, ◌==◌, ◌≡◌, refl, arith, nat_eq, if◌then◌else◌, Bool-cases, inl, inr, sym, ◌∙◌,
}
use llm_draftbench.Ledger.Types.{Row}
use llm_draftbench.Ledger.Plan.{Table, get_or, update, visit, kahn, degrees, roots}

-- The items whose degree has not fallen to zero.
abbrev waiting : Table ℕ → ℕ
waiting [] = 0
waiting ((k, n) ∷ t) = if nat_eq n 0 then waiting t else suc (waiting t)

-- A visit lets in no more items than it takes from those that wait.
waiting-update : (c : String) (t : Table ℕ) → waiting (update c (λ n. n - 1) t) ≤ waiting t
waiting-update c [] = omega arith
waiting-update c ((k, n) ∷ t) = elim (Bool-cases (k == c)) [
  | inl h ↦ rw h (ground arith)
  | inr h ↦ rw h (ground (arith, waiting-update c t))
]

here_one :
    (k c : String) (n : ℕ) (t : Table ℕ)
    → (k == c) ≡ true
    → (if k == c then n else get_or c 0 t) ≡ 1
    → n ≡ 1
here_one k c n t here h = sym (rw here refl) ∙ h

later_one :
    (k c : String) (n : ℕ) (t : Table ℕ)
    → (k == c) ≡ false
    → (if k == c then n else get_or c 0 t) ≡ 1
    → get_or c 0 t ≡ 1
later_one k c n t elsewhere h = sym (rw elsewhere refl) ∙ h

waiting-ready :
    (c : String) (t : Table ℕ)
    → get_or c 0 t ≡ 1
    → suc (waiting (update c (λ n. n - 1) t)) ≤ waiting t
waiting-ready c [] h = absurd (omega (arith, h))
waiting-ready c ((k, n) ∷ t) h = elim (Bool-cases (k == c)) [
  | inl here ↦ rw here (ground (arith, here_one k c n t here h))
  | inr elsewhere ↦ rw elsewhere (ground (arith, waiting-ready c t (later_one k c n t elsewhere h)))
]

let_in :
    (c : String) (degree : Table ℕ) (ready : List String) (b : Bool)
    → nat_eq (get_or c 0 degree) 1 ≡ b
    → length (if b then ready ++ c ∷ [] else ready) + waiting (update c (λ n. n - 1) degree)
      ≤ length ready + waiting degree
let_in c degree ready true h =
    omega (arith, waiting-ready c degree (ground (arith, h)), length-append ready (c ∷ []))
let_in c degree ready false h = omega (arith, waiting-update c degree)

-- The loop over the children lets in no more than it takes.
visit_lem :
    (cs : List String) (degree : Table ℕ) (ready : List String)
    → length (visit cs degree ready).1 + waiting (visit cs degree ready).0
      ≤ length ready + waiting degree
unfolding visit
visit_lem [] degree ready = omega arith
visit_lem (c ∷ cs) degree ready =
    let next = update c (λ n. n - 1) degree in
    let queue = if nat_eq (get_or c 0 degree) 1 then ready ++ c ∷ [] else ready in
    omega
      (arith, visit_lem cs next queue, let_in c degree ready (nat_eq (get_or c 0 degree) 1) refl)

kahn_ends :
    (fuel : ℕ) (children : Table (List String)) (degree : Table ℕ) (ready : List String) (seen : ℕ)
    → length ready + waiting degree ≤ fuel
    → (n : ℕ) × (kahn fuel children degree ready seen ≡ some n)
unfolding kahn
kahn_ends fuel children degree [] seen h = (seen, refl)
kahn_ends zero children degree (w ∷ ready) seen h = absurd (omega (arith, h))
kahn_ends (suc fuel) children degree (w ∷ ready) seen h =
    kahn_ends fuel children _ _ (seen + 1)
      (omega (arith, h, visit_lem (get_or w [] children) degree ready))

roots-waiting : (t : Table ℕ) → length (roots t) + waiting t ≡ length t
roots-waiting [] = omega arith
roots-waiting ((k, n) ∷ t) = ground (arith, roots-waiting t)

length-degrees : (plan : List Row) → length (degrees plan) ≡ length plan
length-degrees [] = refl
length-degrees (r ∷ rs) = omega (arith, length-degrees rs)

-- The traversal of a plan ends, whatever the children: the fuel of one round for each row is never
-- short, so that `validate_plan` refuses a plan for its content alone.
pub kahn-plan :
    (plan : List Row) (children : Table (List String))
    → (n : ℕ) × (kahn (length plan) children (degrees plan) (roots (degrees plan)) 0 ≡ some n)
kahn-plan plan children =
    kahn_ends (length plan) children (degrees plan) (roots (degrees plan)) 0
      (omega (arith, roots-waiting (degrees plan), length-degrees plan))
