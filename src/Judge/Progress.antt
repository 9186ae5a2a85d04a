-- ===== src/Judge/Progress.antt =====
-- src/draftbench/judge/run.py: when a run is complete.
use llm_draftbench.Prelude.{
  ℕ, suc, ◌*◌, ◌≤◌, String, Bool, true, false, Option, none, some, List, [], ◌∷◌, ◌||◌, ◌≡◌, refl,
  sym, ap, subst, arith, ◌⊎◌, inl, inr, Bool-cases, length, nat_eq_refl, Result, ok,
}
use llm_draftbench.Prelude.Text.{member, eq_self}
use llm_draftbench.Judge.Error.{JudgeError}
use llm_draftbench.Judge.Judges.{Judge}
use llm_draftbench.Judge.Panel.{Panel}
use llm_draftbench.Judge.Run.{
  Work, LedgerRow, Reply, success, max_requests, RunState, key_of, is_halted, at_limit,
  record_reply, step, each_work, each_judge, started, finish, report_of, RunReport, completed_by,
  completed_of,
}
use llm_draftbench.Judge.Dispatch.{RunCall, check_call, work_of, selected_of, run}
use llm_draftbench.Judge.Once.{each_work-keeps, each_judge-keeps}
use llm_draftbench.Judge.Growth.{Within, Within-suc, Within-zero}

-- A run that halts at its limit has sent as many.
abbrev Paused : Option ℕ → RunState → Type 0
Paused limit st = (st.halted ≡ none) ⊎ ((st.halted ≡ some max_requests) × (limit ≡ some st.sent))

at_limit-within :
    (limit : Option ℕ) (n : ℕ) → at_limit limit n ≡ true → Within limit n → limit ≡ some n
at_limit-within none n h k = cc
at_limit-within (some l) n h k = ap some (ground arith)

clash : (b : Bool) → b ≡ true → b ≡ false → ⊥
clash b h k = cc

paused_lem : true ≡ false → ⊥
paused_lem h = cc

completed_by-le :
    (done : List String) (j : Judge) (ws : List Work) → completed_by done j ws ≤ length ws
completed_by-le done j [] = omega arith
completed_by-le done j (w ∷ ws) = ground (arith, completed_by-le done j ws)

module _ (invoke : ℕ → Judge → Work → Result JudgeError Reply) (limit : Option ℕ)
    (answers : (n : ℕ) (j : Judge) (w : Work) → invoke n j w ≡ ok success) where
  step-halted :
      (j : Judge) (w : Work) (st : RunState)
      → is_halted st.halted ≡ true
      → step invoke limit j st w ≡ st
  unfolding step
  step-halted j w st h = rw h refl

  -- The three ways of a round.
  step-cases :
      (j : Judge) (w : Work) (st : RunState)
      → ((step invoke limit j st w ≡ st)
          × ((is_halted st.halted || member (key_of j w) st.done) ≡ true))
        ⊎ ((step invoke limit j st w ≡ record st { halted = some max_requests })
            ⊎ (step invoke limit j st w ≡ record_reply j w st (ok success)))
  unfolding step
  step-cases j w st = elim (Bool-cases (is_halted st.halted || member (key_of j w) st.done)) [
    | inl skipped ↦ inl (rw skipped refl, skipped)
    | inr open_row ↦ elim (Bool-cases (at_limit limit st.sent)) [
      | inl full ↦ inr (inl (rw (open_row, full) refl))
      | inr free ↦ inr (inr (rw (open_row, free, answers st.sent j w) refl))
    ]
  ]

  step-done :
      (j : Judge) (w : Work) (st : RunState)
      → is_halted (step invoke limit j st w).halted ≡ false
      → member (key_of j w) (step invoke limit j st w).done ≡ true
  step-done j w st h = elim (step-cases j w st) [
    | inl (same, skipped) ↦
        let running = subst (λ s. is_halted s.halted ≡ false) same h in
        subst (λ s. member (key_of j w) s.done ≡ true) (sym same) (ground (arith, skipped, running))
    | inr (inl paused) ↦ absurd (paused_lem (subst (λ s. is_halted s.halted ≡ false) paused h))
    | inr (inr sent) ↦
        subst (λ s. member (key_of j w) s.done ≡ true) (sym sent) (rw (eq_self (key_of j w)) refl)
  ]

  step-keeps_done :
      (k : String) (j : Judge) (w : Work) (st : RunState)
      → member k st.done ≡ true
      → member k (step invoke limit j st w).done ≡ true
  step-keeps_done k j w st h = elim (step-cases j w st) [
    | inl (same, _) ↦ subst (λ s. member k s.done ≡ true) (sym same) h
    | inr (inl paused) ↦ subst (λ s. member k s.done ≡ true) (sym paused) h
    | inr (inr sent) ↦ subst (λ s. member k s.done ≡ true) (sym sent) (ground (arith, h))
  ]

  each_work-halted :
      (j : Judge) (ws : List Work) (st : RunState)
      → is_halted st.halted ≡ true
      → each_work invoke limit j ws st ≡ st
  unfolding each_work
  each_work-halted j [] st h = refl
  each_work-halted j (w ∷ ws) st h = rw (step-halted j w st h) (each_work-halted j ws st h)

  each_judge-halted :
      (ws : List Work) (js : List Judge) (st : RunState)
      → is_halted st.halted ≡ true
      → each_judge invoke limit ws js st ≡ st
  unfolding each_judge
  each_judge-halted ws [] st h = refl
  each_judge-halted ws (j ∷ js) st h =
      rw (each_work-halted j ws st h) (each_judge-halted ws js st h)

  -- A run that is not halted at its end never was.
  running :
      (st final : RunState)
      → (is_halted st.halted ≡ true → final ≡ st)
      → is_halted final.halted ≡ false
      → is_halted st.halted ≡ false
  running st final same h = elim (Bool-cases (is_halted st.halted)) [
    | inr goes ↦ goes
    | inl stopped ↦ absurd (
        clash (is_halted st.halted) stopped
          (subst (λ s. is_halted s.halted ≡ false) (same stopped) h))
  ]

  each_work-done :
      (j : Judge) (ws : List Work) (st : RunState)
      → is_halted (each_work invoke limit j ws st).halted ≡ false
      → completed_by (each_work invoke limit j ws st).done j ws ≡ length ws
  unfolding each_work
  each_work-done j [] st h = refl
  each_work-done j (w ∷ ws) st h =
      let next = step invoke limit j st w in
      let goes = running next (each_work invoke limit j ws next) (each_work-halted j ws next) h in
      let there =
        each_work-keeps invoke limit (step-keeps_done (key_of j w)) j ws next
          (step-done j w st goes) in
      rw there (ap (λ n. suc n) (each_work-done j ws next h))

  completed_mono :
      (j : Judge) (ws : List Work) (done later : List String)
      → ((k : String) → member k done ≡ true → member k later ≡ true)
      → completed_by done j ws ≡ length ws
      → completed_by later j ws ≡ length ws
  completed_mono j [] done later keep h = refl
  completed_mono j (w ∷ ws) done later keep h =
      ground (
        arith,
        h,
        completed_by-le done j ws,
        keep (key_of j w),
        completed_mono j ws done later keep,
      )

  each_judge-done :
      (ws : List Work) (js : List Judge) (st : RunState)
      → is_halted (each_judge invoke limit ws js st).halted ≡ false
      → completed_of (each_judge invoke limit ws js st).done ws js ≡ length ws * length js
  unfolding each_judge
  each_judge-done ws [] st h = omega arith
  each_judge-done ws (j ∷ js) st h =
      let next = each_work invoke limit j ws st in
      let final = each_judge invoke limit ws js next in
      let goes = running next final (each_judge-halted ws js next) h in
      let mine =
        completed_mono j ws next.done final.done
          (λ k. each_judge-keeps invoke limit (step-keeps_done k) ws js next)
          (each_work-done j ws st goes) in
      omega (arith, mine, each_judge-done ws js next h)

  step-Paused :
      (j : Judge) (w : Work) (st : RunState)
      → Paused limit st × Within limit st.sent
      → Paused limit (step invoke limit j st w) × Within limit (step invoke limit j st w).sent
  unfolding step
  step-Paused j w st (p, within) =
      elim (Bool-cases (is_halted st.halted || member (key_of j w) st.done)) [
        | inl skipped ↦ rw skipped (p, within)
        | inr open_row ↦ elim (Bool-cases (at_limit limit st.sent)) [
          | inl full ↦
              rw (open_row, full) (inr (refl, at_limit-within limit st.sent full within), within)
          | inr free ↦
              rw (open_row, free, answers st.sent j w) (inl refl, Within-suc limit st.sent free)
        ]
      ]

-- What a run that may go on reports.
abbrev Reports : Option ℕ → List LedgerRow × Result JudgeError RunReport → Type 0
Reports limit o =
    (r : RunReport) × (o.1 ≡ ok r) × ((r.complete ≡ true) ⊎ (limit ≡ some r.sent_this_invocation))

finish-Reports :
    (limit : Option ℕ) (ws : List Work) (js : List Judge) (st : RunState)
    → Paused limit st
    → (is_halted st.halted ≡ false → completed_of st.done ws js ≡ length ws * length js)
    → Reports limit (finish ws js st)
finish-Reports limit ws js st (inl goes) whole =
    let done = whole (rw goes refl) in
    (report_of ws js st, rw goes refl, inl (rw done (nat_eq_refl (length ws * length js))))
finish-Reports limit ws js st (inr (paused, same)) whole =
    (report_of ws js st, rw paused refl, inr same)

-- Once the checks pass and every judge answers with success, a run returns, and it is complete or
-- has sent as many requests as it may: runs with a limit go on until all is done.
pub run-Reports :
    (invoke : ℕ → Judge → Work → Result JudgeError Reply) (p : Panel) (c : RunCall)
    (ledger : List LedgerRow)
    → check_call p c ≡ ok tt
    → ((n : ℕ) (j : Judge) (w : Work) → invoke n j w ≡ ok success)
    → (r : RunReport) × ((run invoke p c ledger).1 ≡ ok r)
      × ((r.complete ≡ true) ⊎ (c.max_requests ≡ some r.sent_this_invocation))
unfolding run
run-Reports invoke p c ledger fine answers =
    let ws = work_of p c in
    let js = selected_of p c.judges in
    let (paused, _) =
      each_judge-keeps invoke c.max_requests
        {P = λ s. Paused c.max_requests s × Within c.max_requests s.sent}
        (step-Paused invoke c.max_requests answers) ws js (started ledger)
        (inl refl, Within-zero c.max_requests) in
    rw fine (
      finish-Reports c.max_requests ws js (each_judge invoke c.max_requests ws js (started ledger))
        paused (each_judge-done invoke c.max_requests answers ws js (started ledger)))
