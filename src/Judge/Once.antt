-- ===== src/Judge/Once.antt =====
-- src/draftbench/judge/run.py: what succeeded is not sent again.
use llm_draftbench.Prelude.{
  ℕ, String, Bool, true, false, Option, none, some, List, [], ◌∷◌, ◌++◌, not, ◌&&◌, ◌||◌, ◌==◌, ◌≡◌,
  refl, sym, ◌∙◌, subst, arith, inl, inr, Bool-cases, Result, ok, err,
}
use llm_draftbench.Prelude.Text.{member, eq_comm}
use llm_draftbench.Judge.Error.{JudgeError}
use llm_draftbench.Judge.Judges.{Judge}
use llm_draftbench.Judge.Panel.{Panel}
use llm_draftbench.Judge.Run.{
  Work, LedgerRow, Reply, Halt, max_requests, raised, auth_rejected, RunState, key_of, success_keys,
  is_halted, at_limit, is_success, record_reply, step, each_work, each_judge, started, finish,
  ended, report_of, RunReport,
}
use llm_draftbench.Judge.Dispatch.{
  RunCall, Session, check_call, after_checks, work_of, selected_of, run, runs,
}

abbrev pub has_key : String → List LedgerRow → Bool
has_key k [] = false
has_key k (r ∷ rs) = r.key == k || has_key k rs

-- No row has the key of an earlier success.
abbrev pub once : List LedgerRow → Bool
once [] = true
once (r ∷ rs) = (not r.success || not (has_key r.key rs)) && once rs

has_key-append :
    (k : String) (rs : List LedgerRow) (r : LedgerRow)
    → has_key k (rs ++ (r ∷ [])) ≡ (has_key k rs || r.key == k)
has_key-append k [] r = ground arith
has_key-append k (x ∷ xs) r = ground (arith, has_key-append k xs r)

success_keys-append :
    (k : String) (rs : List LedgerRow) (r : LedgerRow)
    → member k (success_keys (rs ++ (r ∷ [])))
      ≡ (member k (success_keys rs) || r.success && r.key == k)
success_keys-append k [] r = ground arith
success_keys-append k (x ∷ xs) r = ground (arith, success_keys-append k xs r)

once-append :
    (rs : List LedgerRow) (r : LedgerRow)
    → once rs ≡ true
    → member r.key (success_keys rs) ≡ false
    → once (rs ++ (r ∷ [])) ≡ true
once-append [] r h n = ground arith
once-append (x ∷ xs) r h n =
    ground (arith, h, n, once-append xs r, has_key-append x.key xs r, eq_comm x.key r.key)

-- `done` has the keys of the successes, and none was sent again.
record IsOnce (st : RunState) : Type 0 where
  tracked : (k : String) → member k st.done ≡ member k (success_keys st.ledger)
  single : once st.ledger ≡ true

abbrev pub sent_row : Judge → Work → Reply → LedgerRow
sent_row j w r = record {
  key = key_of j w;
  judge_id = j.judge_id;
  presentation_id = w.presentation_id;
  success = is_success r;
}

pub or-right : (a b : Bool) → (a || b) ≡ false → b ≡ false
or-right false b h = h
or-right true b h = cc

record_reply-IsOnce :
    (j : Judge) (w : Work) (st : RunState) (r : Result JudgeError Reply)
    → member (key_of j w) st.done ≡ false
    → IsOnce st
    → IsOnce (record_reply j w st r)
record_reply-IsOnce j w st (err e) n i = record { tracked = i.tracked; single = i.single }
record_reply-IsOnce j w st (ok r) n i = record {
  tracked = λ k. ground (arith, i.tracked k, success_keys-append k st.ledger (sent_row j w r));
  single = once-append st.ledger (sent_row j w r) i.single (sym (i.tracked (key_of j w)) ∙ n);
}

step-IsOnce :
    (invoke : ℕ → Judge → Work → Result JudgeError Reply) (limit : Option ℕ) (j : Judge) (w : Work)
    (st : RunState)
    → IsOnce st
    → IsOnce (step invoke limit j st w)
unfolding step
step-IsOnce invoke limit j w st i =
    elim (Bool-cases (is_halted st.halted || member (key_of j w) st.done)) [
      | inl skipped ↦ rw skipped i
      | inr open_row ↦ elim (Bool-cases (at_limit limit st.sent)) [
        | inl full ↦ rw (open_row, full) (record { tracked = i.tracked; single = i.single })
        | inr free ↦
            rw (open_row, free)
              (record_reply-IsOnce j w st (invoke st.sent j w)
                (or-right (is_halted st.halted) _ open_row) i)
      ]
    ]

-- The loops keep what a round keeps.
module _ (invoke : ℕ → Judge → Work → Result JudgeError Reply) (limit : Option ℕ)
    {P : RunState → Type 0}
    (kept : (j : Judge) (w : Work) (st : RunState) → P st → P (step invoke limit j st w)) where
  pub each_work-keeps :
      (j : Judge) (ws : List Work) (st : RunState) → P st → P (each_work invoke limit j ws st)
  unfolding each_work
  each_work-keeps j [] st p = p
  each_work-keeps j (w ∷ ws) st p = each_work-keeps j ws (step invoke limit j st w) (kept j w st p)

  pub each_judge-keeps :
      (ws : List Work) (js : List Judge) (st : RunState)
      → P st
      → P (each_judge invoke limit ws js st)
  unfolding each_judge
  each_judge-keeps ws [] st p = p
  each_judge-keeps ws (j ∷ js) st p =
      each_judge-keeps ws js (each_work invoke limit j ws st) (each_work-keeps j ws st p)

pub ended-ledger :
    (h : Option Halt) (ledger : List LedgerRow) (report : RunReport)
    → (ended h ledger report).0 ≡ ledger
ended-ledger none ledger report = refl
ended-ledger (some max_requests) ledger report = refl
ended-ledger (some auth_rejected) ledger report = refl
ended-ledger (some (raised e)) ledger report = refl

checked-once :
    (o : Result JudgeError (Unit {0})) (ledger : List LedgerRow)
    (rest : List LedgerRow × Result JudgeError RunReport)
    → once ledger ≡ true
    → once rest.0 ≡ true
    → once (after_checks o ledger rest).0 ≡ true
checked-once (ok x) ledger rest h k = k
checked-once (err e) ledger rest h k = h

run-once :
    (invoke : ℕ → Judge → Work → Result JudgeError Reply) (p : Panel) (c : RunCall)
    (ledger : List LedgerRow)
    → once ledger ≡ true
    → once (run invoke p c ledger).0 ≡ true
unfolding run
run-once invoke p c ledger h =
    let ws = work_of p c in
    let js = selected_of p c.judges in
    let st = each_judge invoke c.max_requests ws js (started ledger) in
    let start : IsOnce (started ledger) = record { tracked = λ k. refl; single = h } in
    let i =
      each_judge-keeps invoke c.max_requests (step-IsOnce invoke c.max_requests) ws js
        (started ledger) start in
    checked-once (check_call p c) ledger (finish ws js st) h (
      subst (λ l. once l ≡ true) (sym (ended-ledger st.halted st.ledger (report_of ws js st)))
        i.single)

-- Whatever runs come after one another, with whatever answers, errors and limits, no request that
-- succeeded is sent again: no row of the ledger has the key of an earlier success.
pub runs-once :
    (p : Panel) (ss : List Session) (ledger : List LedgerRow)
    → once ledger ≡ true
    → once (runs p ss ledger) ≡ true
unfolding runs
runs-once p [] ledger h = h
runs-once p (s ∷ ss) ledger h =
    runs-once p ss (run s.invoke p s.call ledger).0 (run-once s.invoke p s.call ledger h)
