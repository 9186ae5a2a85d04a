-- ===== src/Ledger/Guarantees.antt =====
-- src/draftbench/ledger.py: what the ledger promises its callers, whatever they call.
use llm_draftbench.Prelude.{String, Bool, true, none, some, List, ◌≡◌, all, if◌then◌else◌, ok}
use llm_draftbench.Prelude.Text.{member}
use llm_draftbench.Ledger.Types.{
  reserved, in_flight, result_saved, completed, failed, limited, state_eq, Row, Event, Db,
  failure_codes,
}
use llm_draftbench.Ledger.Ident.{is_digest}
use llm_draftbench.Ledger.Tables.{find_event, is_some, is_completed, dependencies_of}
use llm_draftbench.Ledger.Session.{Ledger, Faults, no_faults}
use llm_draftbench.Ledger.Operations.{start, record_result, complete, fail}
use llm_draftbench.Ledger.History.{verify, verify_history}
use llm_draftbench.Ledger.History.Scan.{settled-of_Settled}
use llm_draftbench.Ledger.Preservation.Progress.{moved}
use llm_draftbench.Ledger.Transaction.{IsOpen}
use llm_draftbench.Ledger.Exact.{
  appended_if, start_exact, record_result_exact, complete_exact, fail_exact,
}
use llm_draftbench.Ledger.Invariant.{IsValid}
use llm_draftbench.Ledger.Calls.{Call, run}
use llm_draftbench.Ledger.Calls.Create.{create, create-IsValid}
use llm_draftbench.Ledger.Calls.Validity.{run-IsValid}
use llm_draftbench.Ledger.Calls.Traces.{Grows, Grows-LogRule, run-log, is_final, final-LogRule}

verify_history-IsValid : (db : Db) → IsValid db → verify_history db ≡ ok tt
unfolding verify_history
verify_history-IsValid db v =
    rw (v.attempts_ok, v.scanned, settled-of_Settled db v.seen v.all_settled)

pub verify-IsValid : (db : Db) → IsValid db → verify db ≡ ok tt
unfolding verify
verify-IsValid db v =
    rw (v.version_ok, v.schema_ok, v.manifest_ok, v.plan_ok, verify_history-IsValid db v)

-- From a database that `create` accepted, any sequence of calls, failed ones and faults included,
-- leaves one that `_verify` accepts.
pub verify-run :
    (plan : List Row) (digest : String) (l : Ledger) (calls : List (Faults × Call))
    → create plan digest ≡ ok l
    → verify (run calls l).db ≡ ok tt
verify-run plan digest l calls made =
    verify-IsValid (run calls l).db (run-IsValid calls l (create-IsValid plan digest made))

-- After any sequence of calls, a work item whose newest event names an attempt, so that it was
-- reserved, has all of its dependencies completed.
pub run-dependencies :
    (plan : List Row) (digest : String) (l : Ledger) (calls : List (Faults × Call)) (w : String)
    (e : Event)
    → create plan digest ≡ ok l
    → find_event w (run calls l).db.events ≡ some e
    → is_some e.attempt_id ≡ true
    → all
        (λ d. is_completed (find_event d (run calls l).db.events))
        (dependencies_of (run calls l).db w)
      ≡ true
run-dependencies plan digest l calls w e made =
    (run-IsValid calls l (create-IsValid plan digest made)).ready w e

-- The log of any ledger only grows, whatever is called and whatever fails: each new event is a move
-- of `_MOVES` from the newest event of its work item, and no event is changed or removed.
pub run-Grows :
    (calls : List (Faults × Call)) (l : Ledger) → Grows l.db.events (run calls l).db.events
run-Grows calls l = run-log (Grows-LogRule l.db.events) calls l Grows.same

-- Once the newest event of a work item completed, failed, limited, skipped or blocked it, that
-- event stays its newest, whatever is called.
pub run-final :
    (calls : List (Faults × Call)) (l : Ledger) (w : String) (c : Event)
    → is_final c.state ≡ true
    → find_event w l.db.events ≡ some c
    → find_event w (run calls l).db.events ≡ some c
run-final calls l w c end h = run-log (final-LogRule w c end) calls l h

-- On an open, writable and valid ledger, with no fault, an attempt's `start`, `record_result`,
-- `complete` and `fail` append their one event if the attempt stands at the state that the method
-- moves from. Otherwise they raise `ledger_invalid_transition` and change nothing.
pub methods_exact :
    (l : Ledger) (w : String) (c : Event) (i result code : String) (is_limited : Bool)
    → IsValid l.db
    → IsOpen l
    → find_event w l.db.events ≡ some c
    → c.attempt_id ≡ some i
    → is_digest result ≡ true
    → member code failure_codes ≡ true
    → (start no_faults i l
        ≡ appended_if (state_eq c.state reserved) (moved l.db c i in_flight none none) l)
      × (record_result no_faults i result l
          ≡ appended_if
              (state_eq c.state in_flight)
              (moved l.db c i result_saved (some result) none)
              l)
      × (complete no_faults i l
          ≡ appended_if (state_eq c.state result_saved) (moved l.db c i completed none none) l)
      × (fail no_faults i code is_limited l
          ≡ appended_if
              (state_eq c.state in_flight)
              (moved l.db c i (if is_limited then limited else failed) none (some code))
              l)
methods_exact l w c i result code is_limited valid o newest id hex known = (
  start_exact l valid o w c i newest id,
  record_result_exact l valid o w c i newest id result hex,
  complete_exact l valid o w c i newest id,
  fail_exact l valid o w c i newest id code is_limited known,
)
