-- ===== src/Ledger/Recovery/Outcome.antt =====
-- src/draftbench/ledger.py: `recover` on a valid ledger.
use llm_draftbench.Prelude.{true, none, [], ◌≡◌, refl, ap, ◌∙◌, ok, ◌>>=◌}
use llm_draftbench.Prelude.Sorting.{sort_by}
use llm_draftbench.Ledger.Types.{Db}
use llm_draftbench.Ledger.Session.{Ledger, no_faults, committed}
use llm_draftbench.Ledger.Transaction.{IsOpen, transaction-open}
use llm_draftbench.Ledger.Operations.{in_flight_rows, recover_rows, recover_body, recover}
use llm_draftbench.Ledger.Invariant.{IsValid}
use llm_draftbench.Ledger.Recovery.Sweep.{sweep, none_left}

recover_rows-of :
    (l : Ledger) (after : Db)
    → IsOpen l
    → recover_rows (sort_by (λ e. e.work_id) (in_flight_rows l.db l.db.plan)) l.db ≡ ok after
    → recover no_faults l ≡ (ok tt, record l { db = after })
unfolding recover recover_body
recover_rows-of l after o ran =
    transaction-open true recover_body l o ∙ ap (λ r. committed none l (r >>= λ d. ok (tt, d))) ran

recover_nothing :
    (l : Ledger) → IsOpen l → in_flight_rows l.db l.db.plan ≡ [] → recover no_faults l ≡ (ok tt, l)
unfolding sort_by recover_rows
recover_nothing l o h =
    recover_rows-of l l.db o (ap (λ rows. recover_rows (sort_by (λ e. e.work_id) rows) l.db) h)

-- On an open, writable and valid ledger, with no fault, `recover` succeeds and leaves no work item
-- of the plan in flight, and a second `recover` changes nothing.
pub recover_exact :
    (l : Ledger)
    → IsValid l.db
    → IsOpen l
    → let after = (recover no_faults l).1 in
      ((recover no_faults l).0 ≡ ok tt)
      × (in_flight_rows after.db after.db.plan ≡ [])
      × (recover no_faults after ≡ (ok tt, after))
recover_exact l valid o =
    let s = sweep l.db valid in
    let left = none_left l.db valid in
    let done = recover_rows-of l s.after o s.ran in
    rw done (
      refl,
      left,
      recover_nothing (record l { db = s.after })
          (record { not_closed = o.not_closed; writable = o.writable }) left,
    )
