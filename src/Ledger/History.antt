-- ===== src/Ledger/History.antt =====
-- src/draftbench/ledger.py: `_verify` and `_verify_history`, which judge a database before any of
-- it is shown. The dictionaries `latest` and the sets of the loop are lists, newest entry first.
-- What `_verify` asks of SQLite itself (the stored schema text, `quick_check`,
-- `foreign_key_check`) is not part of the model; nor is the `LIMIT` of the attempts, which a list
-- that passes the checks never reaches.
pub mod Scan
use llm_draftbench.Prelude.{
  ℕ, ◌+◌, ◌*◌, String, Bool, true, false, Option, none, some, List, [], ◌∷◌, map, not, ◌&&◌, ◌||◌,
  ◌==◌, nat_eq, leb, all, length, if◌then◌else◌, Result, ok, err, err, guard, ◌>>=◌, ◌>>◌,
}
use llm_draftbench.Prelude.Text.{opt_eq, member, same_set}
use llm_draftbench.Ledger.Types.{
  LedgerError, corrupt, version, State, planned, reserved, in_flight, result_saved, completed,
  failed, limited, uncertain, unavailable, blocked, state_eq, Attempt, Event, Reconciliation, Retry,
  Db,
}
use llm_draftbench.Ledger.Ident.{is_digest, is_attempt, check_digest}
use llm_draftbench.Ledger.Plan.{validate_plan}
use llm_draftbench.Ledger.Tables.{
  find_row, find_event, attempt_of, find_reconciliation, find_retry, is_some, is_completed,
  dependencies_of,
}

-- `_MOVES`
unfoldable pub moves : State → State → Bool
moves planned reserved = true
moves planned unavailable = true
moves planned blocked = true
moves reserved in_flight = true
moves in_flight result_saved = true
moves in_flight failed = true
moves in_flight limited = true
moves in_flight uncertain = true
moves result_saved completed = true
moves uncertain result_saved = true
moves uncertain reserved = true
moves _ _ = false

-- What the loop over the events has gathered.
pub record Seen : Type 0 where
  pub count : ℕ
  pub latest : List Event
  pub reserved : List String
  pub recovered : List String
  pub retried : List String

abbrev pub nothing_seen : Seen
nothing_seen = record { count = 0; latest = []; reserved = []; recovered = []; retried = [] }

abbrev pub recovery_rows : Db → List Reconciliation
recovery_rows db = if leb 2 db.user_version then db.reconciliations else []

abbrev pub retry_rows : Db → List Retry
retry_rows db = if nat_eq db.user_version 3 then db.retries else []

-- `state not in _MOVES.get(previous["state"], set())`, or the first event of the work item.
abbrev pub allowed : Option Event → Event → Bool
allowed none e = state_eq e.state planned
allowed (some p) e = moves p.state e.state

abbrev pub was_uncertain : Option Event → Bool
was_uncertain none = false
was_uncertain (some p) = state_eq p.state uncertain

abbrev pub is_retry : Option Event → Event → Bool
is_retry previous e = was_uncertain previous && state_eq e.state reserved

abbrev id_of : Option Event → ℕ
id_of none = 0
id_of (some p) = p.event_id

abbrev pub valid_retry : Option Event → Option Retry → Bool
valid_retry previous none = false
valid_retry previous (some r) =
    nat_eq r.uncertain_event_id (id_of previous)
    && is_digest r.receipt_digest
    && is_digest r.evidence_digest

abbrev pub valid_recovery : Event → Option Reconciliation → Bool
valid_recovery e none = false
valid_recovery e (some r) =
    opt_eq (some r.result_digest) e.result_digest && is_digest r.receipt_digest

-- The lookup by `row["attempt_id"]`, which may be `None`.
abbrev pub retry_of : Db → Event → Option Retry
retry_of db e = elim e.attempt_id [ none ↦ none | some i ↦ find_retry i (retry_rows db) ]

abbrev pub recovery_of : Db → Event → Option Reconciliation
recovery_of db e = elim e.attempt_id [
  | none ↦ none
  | some i ↦ find_reconciliation i (recovery_rows db)
]

abbrev pub is_recovery : Option Event → Event → Bool
is_recovery previous e = was_uncertain previous && not (state_eq e.state reserved)

-- A move out of `uncertain` has its receipt.
abbrev pub receipted : Db → Option Event → Event → Bool
receipted db previous e =
    if is_retry previous e
    then valid_retry previous (retry_of db e)
    else if was_uncertain previous
    then valid_recovery e (recovery_of db e)
    else true

-- An event that names an attempt names the one of its work item.
abbrev pub binds : Db → Event → Bool
binds db e = elim e.attempt_id [
  | none ↦ true
  | some i ↦ elim (attempt_of e.work_id db.attempts) [
    | none ↦ false
    | some a ↦ a.attempt_id == i && opt_eq (some a.request_digest) e.request_digest
  ]
]

-- A reservation is the first of its work item or a retry, and its dependencies are completed.
abbrev pub reservable : Db → Seen → Option Event → Event → Bool
reservable db s previous e =
    if state_eq e.state reserved
    then (not (member e.work_id s.reserved) || is_retry previous e)
      && all (λ d. is_completed (find_event d s.latest)) (dependencies_of db e.work_id)
    else true

abbrev result_of : Option Event → Option String
result_of none = none
result_of (some p) = p.result_digest

-- A completion has the result that was saved.
abbrev pub completes : Option Event → Event → Bool
completes previous e =
    if state_eq e.state completed
    then is_some previous && opt_eq e.result_digest (result_of previous)
    else true

abbrev pub id_list : Event → List String → List String
id_list e ids = elim e.attempt_id [ none ↦ ids | some i ↦ i ∷ ids ]

abbrev pub within : Db → ℕ → Bool
within db n = leb n (6 * length db.plan + 3 * length (retry_rows db))

-- One round of the loop over the events.
unfoldable pub scan_event : Db → Seen → Event → Result LedgerError Seen
scan_event db s e = do
  guard (within db (s.count + 1) && is_some (find_row e.work_id db.plan)) corrupt
  let previous = find_event e.work_id s.latest
  guard (allowed previous e) corrupt
  guard (receipted db previous e) corrupt
  guard (binds db e) corrupt
  guard (reservable db s previous e) corrupt
  guard (completes previous e) corrupt
  ok (record {
    count = s.count + 1;
    latest = e ∷ s.latest;
    reserved = if state_eq e.state reserved then e.work_id ∷ s.reserved else s.reserved;
    recovered = if is_recovery previous e then id_list e s.recovered else s.recovered;
    retried = if is_retry previous e then id_list e s.retried else s.retried;
  })

-- The loop: the oldest event, last in the list, is read first.
unfoldable pub scan : Db → List Event → Result LedgerError Seen
scan db [] = ok nothing_seen
scan db (e ∷ older) = do s ← scan db older; scan_event db s e

-- The loop that fills `attempts`.
unfoldable pub scan_attempts : Db → List Attempt → Result LedgerError (Unit {0})
scan_attempts db [] = ok tt
scan_attempts db (a ∷ older) = do
  scan_attempts db older
  guard (is_some (find_row a.work_id db.plan) && not (is_some (attempt_of a.work_id older))) corrupt
  guard (is_attempt a.attempt_id && is_digest a.request_digest) corrupt

abbrev pub keys : List Event → List String
keys = map (λ e. e.work_id)

abbrev pub settled : Db → Seen → Bool
settled db s =
    same_set s.retried (map (λ r. r.attempt_id) (retry_rows db))
    && same_set s.recovered (map (λ r. r.attempt_id) (recovery_rows db))
    && same_set (keys s.latest) (map (λ r. r.work_id) db.plan)
    && same_set (map (λ a. a.work_id) db.attempts) s.reserved

unfoldable pub verify_history : Db → Result LedgerError (Unit {0})
verify_history db = do
  scan_attempts db db.attempts
  s ← scan db db.events
  guard (settled db s) corrupt

-- What `_verify` raises where a check of the rows fails.
abbrev as_corrupt : Result LedgerError (Unit {0}) → Result LedgerError (Unit {0})
as_corrupt (ok u) = ok u
as_corrupt (err e) = err corrupt

abbrev pub known_version : Db → Bool
known_version db = nat_eq db.user_version 1 || nat_eq db.user_version 2 || nat_eq db.user_version 3

unfoldable pub verify : Db → Result LedgerError (Unit {0})
verify db = do
  guard (known_version db) (if nat_eq db.user_version 0 then corrupt else version)
  guard (nat_eq db.schema_version 1) version
  as_corrupt (do check_digest db.manifest_digest; validate_plan db.plan; verify_history db)
