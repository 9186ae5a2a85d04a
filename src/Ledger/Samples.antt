-- ===== src/Ledger/Samples.antt =====
-- src/draftbench/ledger.py: small ledgers, what the program does on them, and the theorems there.
use llm_draftbench.Prelude.{
  ℕ, String, true, false, none, some, List, [], ◌∷◌, ◌++◌, ◌≡◌, refl, map, all, ok, err,
}
use llm_draftbench.Prelude.Sorting.{sort_by}
use llm_draftbench.Ledger.Types.{
  dependency_unresolved, retry_already_used, invalid_plan, writer, reviewer, State, planned,
  reserved, in_flight, result_saved, completed, failed, uncertain, unavailable, Row, Event,
}
use llm_draftbench.Ledger.Ident.{is_identifier, is_digest, is_attempt}
use llm_draftbench.Ledger.Plan.{validate_plan, kahn, degrees, roots}
use llm_draftbench.Ledger.Plan.Traversal.{kahn-plan}
use llm_draftbench.Ledger.Tables.{find_event, is_completed, dependencies_of}
use llm_draftbench.Ledger.Invariant.{IsValid}
use llm_draftbench.Ledger.Preservation.Progress.{moved}
use llm_draftbench.Ledger.Transaction.{IsOpen}
use llm_draftbench.Ledger.Recovery.Outcome.{recover_exact}
use llm_draftbench.Ledger.Exact.{appended_if}
use llm_draftbench.Ledger.Calls.Validity.{run-IsValid}
use llm_draftbench.Ledger.Calls.Traces.{Grows}
use llm_draftbench.Ledger.Guarantees.{
  verify-run, run-dependencies, run-Grows, run-final, methods_exact,
}
use llm_draftbench.Ledger.Schema.{insert_event, insert_attempt, insert_reconciliation, insert_retry}
use llm_draftbench.Ledger.Session.{Ledger, Faults, no_faults, transaction, close}
use llm_draftbench.Ledger.Policy.{admitted}
use llm_draftbench.Ledger.History.{verify, verify_history, scan, scan_event, scan_attempts, moves}
use llm_draftbench.Ledger.Operations
use llm_draftbench.Ledger.Operations.{
  reserve_body, transition_body, skip_body, recover_rows, recover_body, reconcile_new,
  reconcile_from, in_flight_rows, reconcile_body, authorize_body,
}
use llm_draftbench.Ledger.Calls.{Call, call, run}
use llm_draftbench.Ledger.Calls.Create.{create, seed, create-IsValid}

abbrev hex_a : String
hex_a = "aaaaaaaaaaaaaaaaaaaaaaaaaaaaaaaa"

abbrev hex_b : String
hex_b = "bbbbbbbbbbbbbbbbbbbbbbbbbbbbbbbb"

abbrev digest : String
digest = "0123456789abcdef0123456789abcdef0123456789abcdef0123456789abcdef"

-- A draft, and a review that waits for it.
abbrev sample_plan : List Row
sample_plan =
    record { work_id = "draft"; case_id = "case-1"; role = writer; dependencies = [] }
    ∷ record {
      work_id = "review";
      case_id = "case-1";
      role = reviewer;
      dependencies = "draft" ∷ [];
    }
    ∷ []

abbrev cyclic_plan : List Row
cyclic_plan =
    record { work_id = "a"; case_id = "c"; role = writer; dependencies = "b" ∷ [] }
    ∷ record { work_id = "b"; case_id = "c"; role = writer; dependencies = "a" ∷ [] }
    ∷ []

-- All that a test has to run.
program : Unit {0}
unfolding is_identifier is_digest is_attempt validate_plan create seed verify verify_history scan
    scan_event scan_attempts moves transaction insert_event insert_attempt insert_reconciliation
    insert_retry admitted reserve_body transition_body skip_body recover_rows recover_body
    reconcile_new reconcile_from reconcile_body authorize_body sort_by run call Operations.reserve
    Operations.start Operations.record_result Operations.complete Operations.fail Operations.skip
    Operations.recover Operations.reconcile_result Operations.authorize_unsent_retry close
program = tt

abbrev opened : Ledger
opened = record {
  closed = false;
  readonly = false;
  db = record {
    user_version = 1;
    schema_version = 1;
    manifest_digest = digest;
    plan = sample_plan;
    attempts = [];
    events = seed sample_plan [];
    reconciliations = [];
    retries = [];
  };
}

created : create sample_plan digest ≡ ok opened
unfolding program
created = refl

create_cyclic : create cyclic_plan digest ≡ err invalid_plan
unfolding program
create_cyclic = refl

abbrev quietly : List Call → List (Faults × Call)
quietly = map (λ c. (no_faults, c))

abbrev draft_done : List Call
draft_done =
    Call.reserve none hex_a "draft" digest
    ∷ Call.start hex_a
    ∷ Call.record_result hex_a digest
    ∷ Call.complete hex_a
    ∷ []

-- The draft is lost twice, sent again once, and reconciled.
abbrev draft_lost : List Call
draft_lost =
    Call.reserve none hex_a "draft" digest
    ∷ Call.start hex_a
    ∷ Call.recover
    ∷ Call.authorize_unsent_retry hex_a digest digest
    ∷ Call.start hex_a
    ∷ Call.recover
    ∷ Call.authorize_unsent_retry hex_a digest digest
    ∷ Call.reconcile_result hex_a digest digest
    ∷ Call.complete hex_a
    ∷ []

states : Ledger → List State
states l = map (λ e. e.state) l.db.events

states-draft_lost :
    states (run (quietly draft_lost) opened)
    ≡ completed ∷ result_saved ∷ uncertain ∷ in_flight ∷ reserved ∷ uncertain ∷ in_flight ∷ reserved
      ∷ planned ∷ planned ∷ []
unfolding program states
states-draft_lost = refl

verify-draft_lost : verify (run (quietly draft_lost) opened).db ≡ ok tt
unfolding program
verify-draft_lost = refl

second_retry :
    (call no_faults (Call.authorize_unsent_retry hex_a digest digest) (
      run
        (quietly (
          Call.reserve none hex_a "draft" digest
          ∷ Call.start hex_a
          ∷ Call.recover
          ∷ Call.authorize_unsent_retry hex_a digest digest
          ∷ Call.start hex_a
          ∷ Call.recover
          ∷ []))
        opened)).0
    ≡ err retry_already_used
unfolding program
second_retry = refl

review_too_early :
    (call no_faults (Call.reserve none hex_b "review" digest) opened).0 ≡ err dependency_unresolved
unfolding program
review_too_early = refl

verify-run_example : verify (run (quietly draft_lost) opened).db ≡ ok tt
verify-run_example = verify-run sample_plan digest opened (quietly draft_lost) created

abbrev review_reserved : List (Faults × Call)
review_reserved = quietly (draft_done ++ Call.reserve none hex_b "review" digest ∷ [])

abbrev review_event : Event
review_event = record {
  event_id = 7;
  work_id = "review";
  state = reserved;
  attempt_id = some hex_b;
  request_digest = some digest;
  result_digest = none;
  error_code = none;
}

newest-review : find_event "review" (run review_reserved opened).db.events ≡ some review_event
unfolding program
newest-review = refl

run-dependencies_example :
    all
      (λ d. is_completed (find_event d (run review_reserved opened).db.events))
      (dependencies_of (run review_reserved opened).db "review")
    ≡ true
run-dependencies_example =
    run-dependencies sample_plan digest opened review_reserved "review" review_event created
      newest-review refl

run-Grows_example : Grows opened.db.events (run review_reserved opened).db.events
run-Grows_example = run-Grows review_reserved opened

abbrev draft_event : Event
draft_event = record {
  event_id = 6;
  work_id = "draft";
  state = completed;
  attempt_id = some hex_a;
  request_digest = some digest;
  result_digest = some digest;
  error_code = none;
}

newest-draft : find_event "draft" (run (quietly draft_done) opened).db.events ≡ some draft_event
unfolding program
newest-draft = refl

abbrev noise : List (Faults × Call)
noise =
    quietly (Call.start hex_a ∷ Call.recover ∷ Call.skip "draft" unavailable "input_unknown" ∷ [])

run-final_example :
    find_event "draft" (run noise (run (quietly draft_done) opened)).db.events ≡ some draft_event
run-final_example =
    run-final noise (run (quietly draft_done) opened) "draft" draft_event refl newest-draft

draft_reserved : Ledger
draft_reserved = run (quietly (Call.reserve none hex_a "draft" digest ∷ [])) opened

abbrev reserved_event : Event
reserved_event = record {
  event_id = 3;
  work_id = "draft";
  state = reserved;
  attempt_id = some hex_a;
  request_digest = some digest;
  result_digest = none;
  error_code = none;
}

newest-draft_reserved : find_event "draft" draft_reserved.db.events ≡ some reserved_event
unfolding program draft_reserved
newest-draft_reserved = refl

draft_reserved-IsValid : IsValid draft_reserved.db
unfolding draft_reserved
draft_reserved-IsValid =
    run-IsValid (quietly (Call.reserve none hex_a "draft" digest ∷ [])) opened
      (create-IsValid sample_plan digest created)

draft_reserved-IsOpen : IsOpen draft_reserved
unfolding program draft_reserved
draft_reserved-IsOpen = record { not_closed = refl; writable = refl }

digest-hex : is_digest digest ≡ true
unfolding program
digest-hex = refl

methods_exact_example :
    (Operations.start no_faults hex_a draft_reserved
      ≡ appended_if true
          (moved draft_reserved.db reserved_event hex_a in_flight none none)
          draft_reserved)
    × (Operations.record_result no_faults hex_a digest draft_reserved
        ≡ appended_if false
            (moved draft_reserved.db reserved_event hex_a result_saved (some digest) none)
            draft_reserved)
    × (Operations.complete no_faults hex_a draft_reserved
        ≡ appended_if false
            (moved draft_reserved.db reserved_event hex_a completed none none)
            draft_reserved)
    × (Operations.fail no_faults hex_a "adapter_failed" false draft_reserved
        ≡ appended_if false
            (moved draft_reserved.db reserved_event hex_a failed none (some "adapter_failed"))
            draft_reserved)
methods_exact_example =
    methods_exact draft_reserved "draft" reserved_event hex_a digest "adapter_failed" false
      draft_reserved-IsValid draft_reserved-IsOpen newest-draft_reserved refl digest-hex refl

kahn-plan_example :
    (n : ℕ) × (kahn 2
        (("draft", "review" ∷ []) ∷ [])
        (degrees sample_plan)
        (roots (degrees sample_plan))
        0
      ≡ some n)
kahn-plan_example = kahn-plan sample_plan (("draft", "review" ∷ []) ∷ [])

draft_flying : Ledger
draft_flying = run (quietly (Call.reserve none hex_a "draft" digest ∷ Call.start hex_a ∷ [])) opened

draft_flying-IsValid : IsValid draft_flying.db
unfolding draft_flying
draft_flying-IsValid =
    run-IsValid (quietly (Call.reserve none hex_a "draft" digest ∷ Call.start hex_a ∷ [])) opened
      (create-IsValid sample_plan digest created)

draft_flying-IsOpen : IsOpen draft_flying
unfolding program draft_flying
draft_flying-IsOpen = record { not_closed = refl; writable = refl }

-- One attempt is in flight here.
draft_flying_rows : states draft_flying ≡ in_flight ∷ reserved ∷ planned ∷ planned ∷ []
unfolding program states draft_flying
draft_flying_rows = refl

recover_exact_example :
    ((Operations.recover no_faults draft_flying).0 ≡ ok tt)
    × (in_flight_rows
          (Operations.recover no_faults draft_flying).1.db
          (Operations.recover no_faults draft_flying).1.db.plan
        ≡ [])
    × (Operations.recover no_faults (Operations.recover no_faults draft_flying).1
        ≡ (ok tt, (Operations.recover no_faults draft_flying).1))
recover_exact_example = recover_exact draft_flying draft_flying-IsValid draft_flying-IsOpen
