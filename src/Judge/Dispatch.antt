-- ===== src/Judge/Dispatch.antt =====
-- src/draftbench/judge/run.py: `run`, its checks before the loop and the work it plans.
use llm_draftbench.Prelude.{
  ℕ, suc, zero, String, Bool, true, false, Option, none, some, List, [], ◌∷◌, ◌++◌, map, not, ◌&&◌,
  ◌||◌, ◌==◌, leb, nat_eq, keep, length, is_nil, Result, ok, err, guard, ◌>>◌,
}
use llm_draftbench.Prelude.Text.{member, joined}
use llm_draftbench.Prelude.Sorting.{sort_by}
use llm_draftbench.Scoring.Cohort.{distinct_count}
use llm_draftbench.Judge.Error.{
  JudgeError, approval_mismatch, invalid_mode, unknown_judge, pointwise_only_panel,
  invalid_max_requests,
}
use llm_draftbench.Judge.Judges.{Judge}
use llm_draftbench.Judge.Panel.{Panel}
use llm_draftbench.Judge.Run.{Work, LedgerRow, Reply, RunReport, each_judge, started, finish}

pub data Mode : Type 0 where
  pairwise pointwise : Mode

-- The arguments of `run`.
pub record RunCall : Type 0 where
  pub approve : String
  pub judges : Option (List String)
  pub max_requests : Option ℕ
  pub mode : Mode
  pub reps : ℕ

-- The numbers that `reps` may reach, in decimal.
abbrev pub rep_names : List String
rep_names = "1" ∷ "2" ∷ "3" ∷ "4" ∷ "5" ∷ "6" ∷ "7" ∷ "8" ∷ "9" ∷ "10" ∷ []

abbrev pub first_reps : ℕ → List String → List String
first_reps zero names = []
first_reps (suc n) [] = []
first_reps (suc n) (r ∷ rs) = r ∷ first_reps n rs

abbrev pub pointwise_work : ℕ → List String → List Work
pointwise_work reps [] = []
pointwise_work reps (c ∷ cs) =
    map
      (λ r. record { presentation_id = joined "pw:" (joined c (joined ":" r)); candidate = some c })
      (first_reps reps rep_names)
    ++ pointwise_work reps cs

abbrev pub ids_of : List (String × String) → List String
ids_of [] = []
ids_of ((i, body) ∷ rest) = i ∷ ids_of rest

abbrev pub work_of : Panel → RunCall → List Work
work_of p c = elim c.mode [
  | pointwise ↦ pointwise_work c.reps (sort_by (λ i. i) (ids_of p.body.candidates))
  | pairwise ↦
      map (λ x. record { presentation_id = x.presentation_id; candidate = none })
        p.body.presentations
]

abbrev pub is_pairwise : Mode → Bool
is_pairwise pairwise = true
is_pairwise pointwise = false

abbrev pub selected_of : Panel → Option (List String) → List Judge
selected_of p none = p.body.judges
selected_of p (some names) = keep (λ j. member j.judge_id names) p.body.judges

-- Every name that is asked for is a judge.
abbrev pub all_selected : Panel → Option (List String) → Bool
all_selected p none = true
all_selected p (some names) = nat_eq (length (selected_of p (some names))) (distinct_count names)

abbrev pub valid_limit : Option ℕ → Bool
valid_limit none = true
valid_limit (some n) = leb 1 n

-- The checks, which come before the run's lock.
unfoldable pub check_call : Panel → RunCall → Result JudgeError (Unit {0})
check_call p c = do
  guard (c.approve == p.digest) approval_mismatch
  guard (leb 1 c.reps && leb c.reps 10) invalid_mode
  guard (all_selected p c.judges) unknown_judge
  guard (not (is_pairwise c.mode) || p.body.pairwise) pointwise_only_panel
  guard (not (is_nil (selected_of p c.judges))) unknown_judge
  guard (valid_limit c.max_requests) invalid_max_requests

-- A check that raises leaves the ledger alone.
abbrev pub after_checks :
    Result JudgeError (Unit {0})
    → List LedgerRow
    → List LedgerRow × Result JudgeError RunReport
    → List LedgerRow × Result JudgeError RunReport
after_checks (err e) ledger rest = (ledger, err e)
after_checks (ok _) ledger rest = rest

module _ (invoke : ℕ → Judge → Work → Result JudgeError Reply) where
  -- `run`, with the ledger before and after it.
  unfoldable pub run :
      Panel → RunCall → List LedgerRow → List LedgerRow × Result JudgeError RunReport
  unfolding check_call each_judge sort_by
  run p c ledger =
      let ws = work_of p c in
      let js = selected_of p c.judges in
      after_checks (check_call p c) ledger
        (finish ws js (each_judge invoke c.max_requests ws js (started ledger)))

-- Any runs of a panel, one after the other, each with its judges' answers.
pub record Session : Type 0 where
  pub call : RunCall
  pub invoke : ℕ → Judge → Work → Result JudgeError Reply

unfoldable pub runs : Panel → List Session → List LedgerRow → List LedgerRow
unfolding run
runs p [] ledger = ledger
runs p (s ∷ ss) ledger = runs p ss (run s.invoke p s.call ledger).0
