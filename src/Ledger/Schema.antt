-- ===== src/Ledger/Schema.antt =====
-- src/draftbench/ledger.py: the CHECK constraints, foreign keys and BEFORE INSERT triggers of the
-- three schemas. Each insert either adds its row or raises what `_database_error` makes of an
-- IntegrityError. The triggers that refuse UPDATE and DELETE have no counterpart: no operation
-- here removes or changes a row.
use llm_draftbench.Prelude.{
  ℕ, String, Bool, true, false, Option, none, some, List, [], ◌∷◌, not, ◌&&◌, ◌||◌, ◌==◌, nat_eq,
  leb, Result, ok, guard, ◌>>◌, ◌≡◌,
}
use llm_draftbench.Prelude.Text.{opt_eq, member}
use llm_draftbench.Ledger.Types.{
  LedgerError, invalid_transition, State, planned, reserved, in_flight, result_saved, completed,
  failed, limited, uncertain, unavailable, blocked, state_eq, Attempt, Event, Reconciliation, Retry,
  Db, failure_codes, skip_codes,
}
use llm_draftbench.Ledger.Ident.{is_digest, is_attempt}
use llm_draftbench.Ledger.Tables.{
  find_row, find_attempt, attempt_of, find_reconciliation, find_retry, is_some, current,
  current_by_attempt, dependencies_done,
}

abbrev pub is_none : Option String → Bool
is_none x = not (is_some x)

abbrev pub null_or_hex : Option String → Bool
null_or_hex none = true
null_or_hex (some d) = is_digest d

abbrev pub code_in : Option String → List String → Bool
code_in none codes = false
code_in (some c) codes = member c codes

-- `attempt_id IS NOT NULL AND request_digest IS NOT NULL`
abbrev pub is_bound : Event → Bool
is_bound e = is_some e.attempt_id && is_some e.request_digest

abbrev pub is_unbound : Event → Bool
is_unbound e = is_none e.attempt_id && is_none e.request_digest && is_none e.result_digest

-- The table constraint of `events`, by state.
abbrev pub state_columns : State → Event → Bool
state_columns planned e = is_unbound e && is_none e.error_code
state_columns unavailable e = is_unbound e && code_in e.error_code skip_codes
state_columns blocked e = is_unbound e && code_in e.error_code skip_codes
state_columns reserved e = is_bound e && is_none e.result_digest && is_none e.error_code
state_columns in_flight e = is_bound e && is_none e.result_digest && is_none e.error_code
state_columns result_saved e = is_bound e && is_some e.result_digest && is_none e.error_code
state_columns completed e = is_bound e && is_some e.result_digest && is_none e.error_code
state_columns failed e = is_bound e && is_none e.result_digest && code_in e.error_code failure_codes
state_columns limited e =
    is_bound e && is_none e.result_digest && code_in e.error_code failure_codes
state_columns uncertain e =
    is_bound e && is_none e.result_digest && code_in e.error_code ("interrupted" ∷ [])

-- What the table keeps of a row that was let in.
abbrev pub WellFormed : Event → Type 0
WellFormed e = (state_columns e.state e ≡ true) × (null_or_hex e.result_digest ≡ true)

abbrev pub events_check : Event → Bool
events_check e =
    state_columns e.state e && null_or_hex e.request_digest && null_or_hex e.result_digest

abbrev pub keyed : Db → Option String → Bool
keyed db none = true
keyed db (some i) = is_some (find_attempt i db.attempts)

-- The foreign keys of `events`.
abbrev pub events_keys : Db → Event → Bool
events_keys db e = is_some (find_row e.work_id db.plan) && keyed db e.attempt_id

-- The attempt row that a reservation names.
abbrev names_attempt : Db → Event → Bool
names_attempt db e = elim e.attempt_id [
  | none ↦ false
  | some i ↦ elim (find_attempt i db.attempts) [
    | none ↦ false
    | some a ↦ a.work_id == e.work_id && opt_eq e.request_digest (some a.request_digest)
  ]
]

-- `r.attempt_id=c.attempt_id AND r.result_digest=NEW.result_digest`
abbrev reconciled : Db → Event → Event → Bool
reconciled db c e = elim c.attempt_id [
  | none ↦ false
  | some i ↦ elim (find_reconciliation i db.reconciliations) [
    | none ↦ false
    | some r ↦ opt_eq e.result_digest (some r.result_digest)
  ]
]

-- `r.attempt_id=c.attempt_id AND r.uncertain_event_id=(SELECT max(event_id) …)`
abbrev retry_granted : Db → Event → Bool
retry_granted db c = elim c.attempt_id [
  | none ↦ false
  | some i ↦ elim (find_retry i db.retries) [
    | none ↦ false
    | some r ↦ nat_eq r.uncertain_event_id c.event_id
  ]
]

-- The moves of `events_guard` from the newest event `c` to `e`. SQL equality with a NULL is not
-- true, hence `is_some`.
abbrev pub same_attempt : Event → Event → Bool
same_attempt c e =
    is_some c.attempt_id
    && opt_eq c.attempt_id e.attempt_id
    && is_some c.request_digest
    && opt_eq c.request_digest e.request_digest

abbrev pub guarded_move : Db → Event → State → State → Event → Bool
guarded_move db c planned unavailable e = not (is_some (attempt_of e.work_id db.attempts))
guarded_move db c planned blocked e = not (is_some (attempt_of e.work_id db.attempts))
guarded_move db c planned reserved e = names_attempt db e && dependencies_done db e.work_id
guarded_move db c reserved in_flight e = same_attempt c e
guarded_move db c in_flight result_saved e = same_attempt c e
guarded_move db c in_flight failed e = same_attempt c e
guarded_move db c in_flight limited e = same_attempt c e
guarded_move db c in_flight uncertain e = same_attempt c e
guarded_move db c uncertain result_saved e =
    same_attempt c e && leb 2 db.user_version && reconciled db c e
guarded_move db c uncertain reserved e =
    same_attempt c e && leb 3 db.user_version && retry_granted db c
guarded_move db c result_saved completed e =
    same_attempt c e && is_some c.result_digest && opt_eq c.result_digest e.result_digest
guarded_move _ _ _ _ _ = false

abbrev pub move_from : Db → Option Event → Event → Bool
move_from db none e = false
move_from db (some c) e = guarded_move db c c.state e.state e

-- The trigger `events_guard`.
abbrev pub events_guard : Db → Event → Bool
events_guard db e = move_from db (current db e.work_id) e

-- INSERT INTO events
unfoldable pub insert_event : Db → Event → Result LedgerError Db
insert_event db e = do
  guard (events_guard db e) invalid_transition
  guard (events_check e && events_keys db e) invalid_transition
  ok (record db { events = e ∷ db.events })

-- The trigger `attempts_guard`.
abbrev pub attempts_guard : Db → Attempt → Bool
attempts_guard db a =
    not (is_some (find_attempt a.attempt_id db.attempts))
    && not (is_some (attempt_of a.work_id db.attempts))
    && elim (current db a.work_id) [ none ↦ false | some c ↦ state_eq c.state planned ]
    && dependencies_done db a.work_id

abbrev pub attempts_check : Db → Attempt → Bool
attempts_check db a =
    is_attempt a.attempt_id && is_digest a.request_digest && is_some (find_row a.work_id db.plan)

-- INSERT INTO attempts
unfoldable pub insert_attempt : Db → Attempt → Result LedgerError Db
insert_attempt db a = do
  guard (attempts_guard db a) invalid_transition
  guard (attempts_check db a) invalid_transition
  ok (record db { attempts = a ∷ db.attempts })

abbrev is_uncertain : Option Event → Bool
is_uncertain none = false
is_uncertain (some c) = state_eq c.state uncertain

-- INSERT INTO reconciliations, with its trigger, primary key and foreign key.
unfoldable pub insert_reconciliation : Db → Reconciliation → Result LedgerError Db
insert_reconciliation db r = do
  guard (is_uncertain (current_by_attempt db r.attempt_id db.plan)) invalid_transition
  guard
      (is_digest r.receipt_digest
        && is_digest r.result_digest
        && is_some (find_attempt r.attempt_id db.attempts)
        && not (is_some (find_reconciliation r.attempt_id db.reconciliations)))
      invalid_transition
  ok (record db { reconciliations = r ∷ db.reconciliations })

abbrev pub is_latest_uncertain : Option Event → ℕ → Bool
is_latest_uncertain none n = false
is_latest_uncertain (some c) n = state_eq c.state uncertain && nat_eq n c.event_id

abbrev retries_event : ℕ → List Retry → Bool
retries_event n [] = false
retries_event n (r ∷ rs) = nat_eq r.uncertain_event_id n || retries_event n rs

-- INSERT INTO dispatch_retries, with its trigger, keys and UNIQUE column.
unfoldable pub insert_retry : Db → Retry → Result LedgerError Db
insert_retry db r = do
  guard
      (not (is_some (find_retry r.attempt_id db.retries))
        && is_latest_uncertain (current_by_attempt db r.attempt_id db.plan) r.uncertain_event_id)
      invalid_transition
  guard
      (is_digest r.receipt_digest
        && is_digest r.evidence_digest
        && is_some (find_attempt r.attempt_id db.attempts)
        && not (retries_event r.uncertain_event_id db.retries))
      invalid_transition
  ok (record db { retries = r ∷ db.retries })
