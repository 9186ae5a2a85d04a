-- ===== src/Scoring/Checks/Owed.antt =====
-- src/draftbench/scoring/deterministic.py: the checks that have to pass, and their rows.
use llm_draftbench.Prelude.{
  ℕ, suc, ◌+◌, String, Bool, true, false, List, [], ◌∷◌, map, not, ◌&&◌, ◌≡◌, refl, sym, ap, ◌∙◌,
  subst, arith, keep, length, if◌then◌else◌, inl, inr, Bool-cases,
}
use llm_draftbench.Prelude.Text.{member, distinct, eq_self, eq_comm}
use llm_draftbench.Scoring.Case.{CheckState, Check}
use llm_draftbench.Scoring.Decisions.{is_required, is_free, base_of, required_check_ids}
use llm_draftbench.Scoring.Valid.{check_ids}
use llm_draftbench.Scoring.Checks.Deterministic.{
  Evidence, evaluate, CheckRow, StateCounts, count_state, count_states, rows_of, required_states,
}

-- A check that has to pass: required, and no fact that its author was free to make up.
abbrev pub is_owed : Check → Bool
is_owed k = is_required (base_of k).applicability && not (is_free k)

-- What the names in `ids` say of each check.
abbrev pub Agrees : List String → List Check → Type 0
Agrees ids [] = Unit {0}
Agrees ids (k ∷ ks) = (member (base_of k).check_id ids ≡ is_owed k) × Agrees ids ks

member-required :
    (x : String) (ks : List Check)
    → member x (check_ids ks) ≡ false
    → member x (required_check_ids ks) ≡ false
member-required x [] h = refl
member-required x (k ∷ ks) h = ground (arith, h, member-required x ks)

Agrees-cons :
    (x : String) (ids : List String) (ks : List Check)
    → member x (check_ids ks) ≡ false
    → Agrees ids ks
    → Agrees (x ∷ ids) ks
Agrees-cons x ids [] h a = tt
Agrees-cons x ids (k ∷ ks) h a = (
  ground (arith, h, a.0, eq_comm x (base_of k).check_id),
  Agrees-cons x ids ks (ground (arith, h)) a.1,
)

pub distinct-Agrees :
    (ks : List Check) → distinct (check_ids ks) ≡ true → Agrees (required_check_ids ks) ks
distinct-Agrees [] h = tt
distinct-Agrees (k ∷ ks) h =
    let id = (base_of k).check_id in
    let fresh : member id (check_ids ks) ≡ false = ground (arith, h) in
    let rest = distinct-Agrees ks (ground (arith, h)) in
    elim (Bool-cases (is_owed k)) [
      | inl owed ↦
          subst (λ ids. Agrees ids (k ∷ ks))
            (sym (ap (λ b. if b then id ∷ required_check_ids ks else required_check_ids ks) owed))
            (rw (eq_self id) (sym owed), Agrees-cons id (required_check_ids ks) ks fresh rest)
      | inr free ↦
          subst (λ ids. Agrees ids (k ∷ ks))
            (sym (ap (λ b. if b then id ∷ required_check_ids ks else required_check_ids ks) free))
            (member-required id ks fresh ∙ sym free, rest)
    ]

-- The states of the checks that are owed.
pub not-false : (b : Bool) → not b ≡ false → b ≡ true
not-false true h = refl
not-false false h = cc

module _ (e : Evidence) where
  abbrev pub states_of : List Check → List CheckState
  states_of ks = map (λ k. (evaluate e k).0) (keep is_owed ks)

  pub required_states-rows :
      (ids : List String) (ks : List Check)
      → Agrees ids ks
      → required_states ids (rows_of e ks) ≡ states_of ks
  required_states-rows ids [] a = refl
  required_states-rows ids (k ∷ ks) a = ground (arith, a.0, required_states-rows ids ks a.1)

  pub length-rows : (ks : List Check) → length (rows_of e ks) ≡ length ks
  length-rows [] = refl
  length-rows (k ∷ ks) = ap (λ n. suc n) (length-rows ks)

abbrev pub state_total : StateCounts → ℕ
state_total n = n.pass + n.fail + n.unknown + n.inapplicable + n.invalid

state_total-count_state :
    (s : CheckState) (n : StateCounts) → state_total (count_state s n) ≡ suc (state_total n)
state_total-count_state CheckState.pass n = omega arith
state_total-count_state CheckState.fail n = omega arith
state_total-count_state CheckState.unknown n = omega arith
state_total-count_state CheckState.inapplicable n = omega arith
state_total-count_state CheckState.invalid n = omega arith

pub state_total-count_states :
    (rows : List CheckRow) (n : StateCounts)
    → state_total (count_states rows n) ≡ length rows + state_total n
state_total-count_states [] n = omega arith
state_total-count_states (r ∷ rs) n =
    omega (
      arith,
      state_total-count_states rs (count_state r.state n),
      state_total-count_state r.state n,
    )
