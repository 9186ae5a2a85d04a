-- ===== src/Ledger/Invariant/Rank.antt =====
-- src/draftbench/ledger.py: the bound on the number of events, `6 * len(plan) + 3 * len(retry_rows)`.
use llm_draftbench.Prelude.{
  ◌+◌, ◌*◌, ◌≤◌, String, Bool, true, false, Option, none, some, List, [], ◌∷◌, not, ◌&&◌, ◌==◌, ◌≡◌,
  refl, ap, arith, length, ok, guard-eq-ok, >>=-eq-ok, eq_iff, Bool-cases, inl, inr, and-right,
}
use llm_draftbench.Prelude.Text.{member, eq→path, eq_comm}
use llm_draftbench.Ledger.Types.{State, planned, Row, Event}
use llm_draftbench.Ledger.Plan.{check_rows, validate_plan, row_ok}
use llm_draftbench.Ledger.Tables.{find_row, find_event, is_some}
use llm_draftbench.Ledger.Invariant.{rank, rank_of, total_rank}

rank-le : (s : State) → rank s ≤ 6
rank-le planned = omega arith
rank-le _ = omega arith

rank_of-le : (o : Option Event) → rank_of o ≤ 6
rank_of-le none = omega arith
rank_of-le (some e) = rank-le e.state

pub total_rank-le : (es : List Event) (rs : List Row) → total_rank es rs ≤ 6 * length rs
total_rank-le es [] = omega arith
total_rank-le es (r ∷ rs) = omega (arith, total_rank-le es rs, rank_of-le (find_event r.work_id es))

-- No work item stands twice in the plan.
abbrev pub unique_rows : List Row → Bool
unique_rows [] = true
unique_rows (r ∷ rs) = not (is_some (find_row r.work_id rs)) && unique_rows rs

row_fresh : (known : List String) (r : Row) → row_ok known r ≡ true → member r.work_id known ≡ false
unfolding row_ok
row_fresh known r h = ground arith

check_rows-fresh :
    (known : List String) (rs : List Row) {k : List String} (w : String)
    → check_rows known rs ≡ ok k
    → member w known ≡ true
    → find_row w rs ≡ none
unfolding check_rows
check_rows-fresh known [] w h m = refl
check_rows-fresh known (r ∷ rs) w h m =
    let (row, rest) = guard-eq-ok (row_ok known r) _ _ h in
    ground (
      arith,
      row_fresh known r row,
      eq_iff r.work_id w,
      check_rows-fresh (r.work_id ∷ known) rs w rest,
    )

check_rows_unique :
    (known : List String) (rs : List Row) {k : List String}
    → check_rows known rs ≡ ok k
    → unique_rows rs ≡ true
unfolding check_rows
check_rows_unique known [] h = refl
check_rows_unique known (r ∷ rs) h =
    let (row, rest) = guard-eq-ok (row_ok known r) _ _ h in
    ground (
      arith,
      eq_iff r.work_id r.work_id,
      check_rows-fresh (r.work_id ∷ known) rs r.work_id rest,
      check_rows_unique (r.work_id ∷ known) rs rest,
    )

pub validate_plan_unique : (rs : List Row) → validate_plan rs ≡ ok tt → unique_rows rs ≡ true
unfolding validate_plan
validate_plan_unique rs h =
    let (size, h₁) = guard-eq-ok _ _ _ h in
    let (known, rows, h₂) = >>=-eq-ok (check_rows [] rs) _ h₁ in check_rows_unique [] rs rows

module _ (e : Event) (es : List Event) where
  total_rank_absent :
      (rs : List Row) → find_row e.work_id rs ≡ none → total_rank (e ∷ es) rs ≡ total_rank es rs
  total_rank_absent [] h = refl
  total_rank_absent (r ∷ rs) h =
      ground (arith, eq_iff r.work_id e.work_id, eq_iff e.work_id r.work_id, total_rank_absent rs)

  -- One more event of a planned work item changes one summand.
  pub total_rank-cons :
      (rs : List Row)
      → unique_rows rs ≡ true
      → is_some (find_row e.work_id rs) ≡ true
      → total_rank (e ∷ es) rs + rank_of (find_event e.work_id es) ≡ total_rank es rs + rank e.state
  total_rank-cons [] u k = cc
  total_rank-cons (r ∷ rs) u k = elim (Bool-cases (r.work_id == e.work_id)) [
    | inl here ↦
        let named = eq→path r.work_id e.work_id here in
        let gone : find_row r.work_id rs ≡ none = ground arith in
        let same = ap (λ w. rank_of (find_event w es)) named in
        rw (eq_comm e.work_id r.work_id, here)
          (omega (arith, same, total_rank_absent rs (rw named at gone)))
    | inr later ↦
        rw (eq_comm e.work_id r.work_id, later)
          (omega (arith, total_rank-cons rs (and-right _ _ u) (rw later at k)))
  ]
