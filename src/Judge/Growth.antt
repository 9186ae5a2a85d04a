-- ===== src/Judge/Growth.antt =====
-- src/draftbench/judge/run.py: what a run sends, and what the ledger gains.
use llm_draftbench.Prelude.{
  ℕ, suc, ◌≤◌, false, Option, none, some, List, [], ◌∷◌, ◌++◌, ◌≡◌, arith, length, Result, ok, err,
}
use llm_draftbench.Judge.Error.{JudgeError}
use llm_draftbench.Judge.Judges.{Judge}
use llm_draftbench.Judge.Panel.{Panel}
use llm_draftbench.Judge.Run.{Work, LedgerRow, Reply, at_limit, RunReport}
use llm_draftbench.Judge.Once.{sent_row}

abbrev pub Within : Option ℕ → ℕ → Type 0
Within none n = Unit {0}
Within (some limit) n = n ≤ limit

-- The rows of the requests `first`, `first + 1`, and so on, in their order: each row is what the
-- judge answered to the request of its number, a success or a failure.
pub data Answers (invoke : ℕ → Judge → Work → Result JudgeError Reply)
    : ℕ → List LedgerRow → Type 0 where
  nothing : (first : ℕ) → Answers invoke first []
  answer :
      (first : ℕ) (j : Judge) (w : Work) (r : Reply) (rows : List LedgerRow)
      → invoke first j w ≡ ok r
      → Answers invoke (suc first) rows
      → Answers invoke first (sent_row j w r ∷ rows)

-- After the old rows, the ledger has those of the `sent` requests.
pub record Appends (invoke : ℕ → Judge → Work → Result JudgeError Reply) (limit : Option ℕ)
    (before after : List LedgerRow) (sent : ℕ) : Type 0 where
  pub new : List LedgerRow
  pub grown : after ≡ before ++ new
  pub answers : Answers invoke 0 new
  pub each_row : length new ≡ sent
  pub within : Within limit sent

-- What a run tells of the number of its requests, if it returns.
pub Tells : ℕ → Result JudgeError RunReport → Type 0
Tells sent (ok r) = r.sent_this_invocation ≡ sent
Tells sent (err e) = Unit {0}

pub Within-suc : (limit : Option ℕ) (n : ℕ) → at_limit limit n ≡ false → Within limit (suc n)
Within-suc none n h = tt
Within-suc (some limit) n h = ground arith

pub Within-zero : (limit : Option ℕ) → Within limit 0
Within-zero none = tt
Within-zero (some limit) = omega arith
