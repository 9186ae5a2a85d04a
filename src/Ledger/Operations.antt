-- ===== src/Ledger/Operations.antt =====
-- src/draftbench/ledger.py: the methods of `Ledger` that change the database. Each has a body,
-- which runs inside the transaction, and the method, which checks its arguments first.
use llm_draftbench.Prelude.{
  ℕ, ◌+◌, String, Bool, true, Option, none, some, List, [], ◌∷◌, not, ◌||◌, ◌&&◌, ◌==◌, nat_eq, leb,
  ltb, any, length, if◌then◌else◌, Result, ok, err, guard, ◌>>=◌, ◌>>◌,
}
use llm_draftbench.Prelude.Text.{opt_eq}
use llm_draftbench.Prelude.Sorting.{sort_by}
use llm_draftbench.Ledger.Types.{
  LedgerError, invalid_transition, unknown_work, unknown_attempt, dependency_unresolved,
  retry_already_used, reconciliation_mismatch, invalid_state, State, planned, reserved, in_flight,
  result_saved, completed, failed, limited, uncertain, unavailable, blocked, state_eq, Row, Event,
  Reconciliation, Db, failure_codes, skip_codes,
}
use llm_draftbench.Ledger.Ident.{check_identifier, check_attempt, check_digest, check_code}
use llm_draftbench.Ledger.Tables.{
  find_event, find_attempt, find_reconciliation, find_retry, is_some, is_completed, current,
  current_by_attempt, dependencies_of, next_event_id, fetch,
}
use llm_draftbench.Ledger.Schema.{insert_event, insert_attempt, insert_reconciliation, insert_retry}
use llm_draftbench.Ledger.Session.{Ledger, Faults, Body, transaction, checked}
use llm_draftbench.Ledger.History.{verify}
use llm_draftbench.Ledger.Policy.{Policy, admitted}

-- `_append`
abbrev pub event : Db → String → State → (attempt request result code : Option String) → Event
event db work state attempt request result code = record {
  event_id = next_event_id db.events;
  work_id = work;
  state = state;
  attempt_id = attempt;
  request_digest = request;
  result_digest = result;
  error_code = code;
}

-- The dependencies that the view shows short of completion; one that it lacks is not among them.
abbrev pub unresolved : Db → String → Bool
unresolved db work =
    any (λ d. is_some (current db d) && not (is_completed (current db d))) (dependencies_of db work)

-- `uuid` is what `uuid.uuid4().hex` returns.
unfoldable pub reserve_body : Option Policy → String → String → String → Body String
reserve_body policy uuid work request db = do
  c ← fetch (current db work) unknown_work
  guard (state_eq c.state planned) invalid_transition
  guard (not (unresolved db work)) dependency_unresolved
  admitted policy (length db.attempts + 1)
  db₁ ← insert_attempt db (record { attempt_id = uuid; work_id = work; request_digest = request })
  db₂ ← insert_event db₁ (event db₁ work reserved (some uuid) (some request) none none)
  ok (uuid, db₂)

unfoldable pub transition_body :
    String → State → State → (result code : Option String) → Body (Unit {0})
transition_body attempt source target result code db = do
  a ← fetch (find_attempt attempt db.attempts) unknown_attempt
  c ← fetch (current db a.work_id) unknown_work
  guard (state_eq c.state source && opt_eq c.attempt_id (some attempt)) invalid_transition
  db₁ ← insert_event db (
      event db c.work_id target (some attempt) c.request_digest
        (if state_eq target completed then c.result_digest else result) code)
  ok (tt, db₁)

unfoldable pub skip_body : String → State → String → Body (Unit {0})
skip_body work state code db = do
  c ← fetch (current db work) unknown_work
  guard (state_eq c.state planned) invalid_transition
  db₁ ← insert_event db (event db work state none none none (some code))
  ok (tt, db₁)

abbrev pub if_in_flight : Option Event → List Event → List Event
if_in_flight none l = l
if_in_flight (some e) l = if state_eq e.state in_flight then e ∷ l else l

-- `SELECT * FROM current_states WHERE state='in_flight'`
abbrev pub in_flight_rows : Db → List Row → List Event
in_flight_rows db [] = []
in_flight_rows db (r ∷ rs) = if_in_flight (find_event r.work_id db.events) (in_flight_rows db rs)

unfoldable pub recover_rows : List Event → Db → Result LedgerError Db
recover_rows [] db = ok db
recover_rows (c ∷ cs) db = do
  db₁ ←
      insert_event db
        (event db c.work_id uncertain c.attempt_id c.request_digest none (some "interrupted"))
  recover_rows cs db₁

unfoldable pub recover_body : Body (Unit {0})
recover_body db = do
  db₁ ← recover_rows (sort_by (λ e. e.work_id) (in_flight_rows db db.plan)) db
  ok (tt, db₁)

-- The schema's version after the tables of reconciliation are there.
abbrev pub with_reconciliations : Db → Db
with_reconciliations db = record db {
  user_version = if nat_eq db.user_version 1 then 2 else db.user_version;
}

abbrev pub with_retries : Db → Db
with_retries db = record db { user_version = if ltb db.user_version 3 then 3 else db.user_version }

-- An earlier reconciliation of the attempt, which version 1 has no table for.
abbrev pub reconciliation_of : Db → String → Option Reconciliation
reconciliation_of db attempt =
    if leb 2 db.user_version then find_reconciliation attempt db.reconciliations else none

unfoldable pub reconcile_new : Event → (attempt result receipt : String) → Body (Unit {0})
reconcile_new c attempt result receipt db = do
  guard (state_eq c.state uncertain) invalid_transition
  db₁ ←
      insert_reconciliation (with_reconciliations db)
        (record { attempt_id = attempt; receipt_digest = receipt; result_digest = result })
  db₂ ←
      insert_event db₁
        (event db₁ c.work_id result_saved (some attempt) c.request_digest (some result) none)
  verify db₂
  ok (tt, db₂)

-- A second reconciliation of an attempt does nothing, if it says the same as the first.
unfoldable pub reconcile_from :
    Option Reconciliation → Event → (attempt result receipt : String) → Body (Unit {0})
reconcile_from none c attempt result receipt db = reconcile_new c attempt result receipt db
reconcile_from (some r) c attempt result receipt db =
    if r.result_digest == result && r.receipt_digest == receipt
    then ok (tt, db)
    else err reconciliation_mismatch

unfoldable pub reconcile_body : (attempt result receipt : String) → Body (Unit {0})
reconcile_body attempt result receipt db = do
  c ← fetch (current_by_attempt db attempt db.plan) invalid_transition
  reconcile_from (reconciliation_of db attempt) c attempt result receipt db

abbrev pub retry_used : Db → String → Bool
retry_used db attempt = leb 3 db.user_version && is_some (find_retry attempt db.retries)

abbrev pub newest_event_id : Option Event → ℕ
newest_event_id none = 0
newest_event_id (some e) = e.event_id

unfoldable pub authorize_body : (attempt receipt evidence : String) → Body ℕ
authorize_body attempt receipt evidence db = do
  c ← fetch (current_by_attempt db attempt db.plan) invalid_transition
  guard (state_eq c.state uncertain) invalid_transition
  guard (not (retry_used db attempt)) retry_already_used
  db₁ ← insert_retry (with_retries db) (record {
    attempt_id = attempt;
    uncertain_event_id = newest_event_id (find_event c.work_id db.events);
    receipt_digest = receipt;
    evidence_digest = evidence;
  })
  db₂ ← insert_event db₁ (event db₁ c.work_id reserved (some attempt) c.request_digest none none)
  verify db₂
  ok (1, db₂)

module _ (faults : Faults) where
  unfoldable pub reserve :
      Option Policy → (uuid work request : String) → Ledger → Result LedgerError String × Ledger
  reserve policy uuid work request =
      checked (do check_identifier work; check_digest request)
        (transaction faults true (reserve_body policy uuid work request))

  unfoldable pub start : String → Ledger → Result LedgerError (Unit {0}) × Ledger
  start attempt =
      checked (check_attempt attempt)
        (transaction faults true (transition_body attempt reserved in_flight none none))

  unfoldable pub record_result :
      (attempt result : String) → Ledger → Result LedgerError (Unit {0}) × Ledger
  record_result attempt result =
      checked (do check_digest result; check_attempt attempt)
        (transaction faults true
          (transition_body attempt in_flight result_saved (some result) none))

  unfoldable pub complete : String → Ledger → Result LedgerError (Unit {0}) × Ledger
  complete attempt =
      checked (check_attempt attempt)
        (transaction faults true (transition_body attempt result_saved completed none none))

  unfoldable pub fail :
      (attempt code : String) → Bool → Ledger → Result LedgerError (Unit {0}) × Ledger
  fail attempt code is_limited =
      checked (do check_code code failure_codes; check_attempt attempt)
        (transaction faults true (
          transition_body attempt in_flight (if is_limited then limited else failed) none
            (some code)))

  unfoldable pub skip : String → State → String → Ledger → Result LedgerError (Unit {0}) × Ledger
  skip work state code =
      checked
        (do
          check_identifier work
          guard (state_eq state unavailable || state_eq state blocked) invalid_state
          check_code code skip_codes)
        (transaction faults true (skip_body work state code))

  unfoldable pub recover : Ledger → Result LedgerError (Unit {0}) × Ledger
  recover = transaction faults true recover_body

  unfoldable pub reconcile_result :
      (attempt result receipt : String) → Ledger → Result LedgerError (Unit {0}) × Ledger
  reconcile_result attempt result receipt =
      checked (do check_attempt attempt; check_digest result; check_digest receipt)
        (transaction faults true (reconcile_body attempt result receipt))

  unfoldable pub authorize_unsent_retry :
      (attempt receipt evidence : String) → Ledger → Result LedgerError ℕ × Ledger
  authorize_unsent_retry attempt receipt evidence =
      checked (do check_attempt attempt; check_digest receipt; check_digest evidence)
        (transaction faults true (authorize_body attempt receipt evidence))
