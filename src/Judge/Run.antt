-- ===== src/Judge/Run.antt =====
-- src/draftbench/judge/run.py: the loop that sends every presentation to every judge. The answer of
-- a judge, `_invoke`, is a parameter: it may raise, and it is asked with the number of requests
-- sent so far.
use llm_draftbench.Prelude.{
  ℕ, suc, ◌*◌, String, Bool, true, false, Option, none, some, List, [], ◌∷◌, ◌++◌, ◌||◌, ◌==◌, leb,
  nat_eq, length, sum_of, if◌then◌else◌, Result, ok, err,
}
use llm_draftbench.Prelude.Text.{member, joined}
use llm_draftbench.Judge.Error.{JudgeError}
use llm_draftbench.Judge.Judges.{Judge}

-- One entry of `work`: a presentation, or one repetition of a candidate alone.
pub record Work : Type 0 where
  pub presentation_id : String
  pub candidate : Option String

-- One line of the ledger; its time, its usage and its verdicts are the judge's.
pub record LedgerRow : Type 0 where
  pub key : String
  pub judge_id : String
  pub presentation_id : String
  pub success : Bool

-- What `_invoke` returns: a success, or an error code.
pub data Reply : Type 0 where
  success : Reply
  failure : String → Reply

pub data Halt : Type 0 where
  max_requests auth_rejected : Halt
  raised : JudgeError → Halt

pub record RunState : Type 0 where
  pub ledger : List LedgerRow
  pub done : List String
  pub sent : ℕ
  pub halted : Option Halt

abbrev pub key_of : Judge → Work → String
key_of j w = joined w.presentation_id (joined ":" j.judge_id)

-- The keys of `latest_success`.
abbrev pub success_keys : List LedgerRow → List String
success_keys [] = []
success_keys (r ∷ rs) = if r.success then r.key ∷ success_keys rs else success_keys rs

abbrev pub is_halted : Option Halt → Bool
is_halted none = false
is_halted (some h) = true

-- `max_requests is not None and sent >= max_requests`
abbrev pub at_limit : Option ℕ → ℕ → Bool
at_limit none sent = false
at_limit (some n) sent = leb n sent

abbrev pub is_success : Reply → Bool
is_success success = true
is_success (failure code) = false

abbrev pub halt_of : Reply → Option Halt
halt_of success = none
halt_of (failure code) = if code == "auth_rejected" then some auth_rejected else none

-- The answer is appended to the ledger before anything else is sent.
abbrev pub record_reply : Judge → Work → RunState → Result JudgeError Reply → RunState
record_reply j w st (err e) = record st { halted = some (raised e) }
record_reply j w st (ok r) = record {
  ledger =
      st.ledger
      ++ (record {
        key = key_of j w;
        judge_id = j.judge_id;
        presentation_id = w.presentation_id;
        success = is_success r;
      }
          ∷ []);
  done = if is_success r then key_of j w ∷ st.done else st.done;
  sent = suc st.sent;
  halted = halt_of r;
}

module _ (invoke : ℕ → Judge → Work → Result JudgeError Reply) (limit : Option ℕ) where
  -- One round of the inner loop; once the run is halted, `break` skips the rest.
  unfoldable pub step : Judge → RunState → Work → RunState
  step j st w =
      if is_halted st.halted || member (key_of j w) st.done
      then st
      else if at_limit limit st.sent
      then record st { halted = some max_requests }
      else record_reply j w st (invoke st.sent j w)

  unfoldable pub each_work : Judge → List Work → RunState → RunState
  unfolding step
  each_work j [] st = st
  each_work j (w ∷ ws) st = each_work j ws (step j st w)

  unfoldable pub each_judge : List Work → List Judge → RunState → RunState
  unfolding each_work
  each_judge ws [] st = st
  each_judge ws (j ∷ js) st = each_judge ws js (each_work j ws st)

abbrev pub started : List LedgerRow → RunState
started ledger = record { ledger = ledger; done = success_keys ledger; sent = 0; halted = none }

-- `completed`
abbrev pub completed_by : List String → Judge → List Work → ℕ
completed_by done j [] = 0
completed_by done j (w ∷ ws) =
    if member (key_of j w) done then suc (completed_by done j ws) else completed_by done j ws

abbrev pub completed_of : List String → List Work → List Judge → ℕ
completed_of done ws js = sum_of (λ j. completed_by done j ws) js

pub record RunReport : Type 0 where
  pub planned_requests : ℕ
  pub completed_requests : ℕ
  pub sent_this_invocation : ℕ
  pub halted : Option Halt
  pub complete : Bool

abbrev pub report_of : List Work → List Judge → RunState → RunReport
report_of ws js st =
    let planned = length ws * length js in
    let completed = completed_of st.done ws js in
    record {
      planned_requests = planned;
      completed_requests = completed;
      sent_this_invocation = st.sent;
      halted = st.halted;
      complete = nat_eq completed planned;
    }

-- The ledger is what it is, whether the run returns or raises.
abbrev pub ended :
    Option Halt → List LedgerRow → RunReport → List LedgerRow × Result JudgeError RunReport
ended (some (raised e)) ledger report = (ledger, err e)
ended (some max_requests) ledger report = (ledger, ok report)
ended (some auth_rejected) ledger report = (ledger, ok report)
ended none ledger report = (ledger, ok report)

abbrev pub finish : List Work → List Judge → RunState → List LedgerRow × Result JudgeError RunReport
finish ws js st = ended st.halted st.ledger (report_of ws js st)
