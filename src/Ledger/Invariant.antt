-- ===== src/Ledger/Invariant.antt =====
-- src/draftbench/ledger.py: what holds of every database that the methods leave behind.
pub mod Rank
pub mod Grow
pub mod Kept
use llm_draftbench.Prelude.{
  ℕ, ◌+◌, ◌*◌, ◌≤◌, String, Bool, true, false, Option, none, some, List, [], ◌∷◌, not, ◌&&◌, ◌≡◌,
  nat_eq, all, length, sum_of, ok,
}
use llm_draftbench.Prelude.Text.{opt_eq}
use llm_draftbench.Ledger.Types.{
  State, planned, reserved, in_flight, result_saved, completed, failed, limited, uncertain,
  unavailable, blocked, Row, Attempt, Event, Db,
}
use llm_draftbench.Ledger.Ident.{is_digest}
use llm_draftbench.Ledger.Plan.{validate_plan}
use llm_draftbench.Ledger.Tables.{
  find_event, find_attempt, attempt_of, is_some, is_completed, dependencies_of,
}
use llm_draftbench.Ledger.Schema.{WellFormed}
use llm_draftbench.Ledger.History.Scan.{Settled}
use llm_draftbench.Ledger.History.{
  Seen, known_version, retry_rows, recovery_rows, scan, scan_attempts, settled,
}

-- How many events a work item may have had, retries aside, when it has come to a state.
abbrev pub rank : State → ℕ
rank planned = 1
rank reserved = 2
rank in_flight = 3
rank uncertain = 4
rank result_saved = 5
rank completed = 6
rank failed = 4
rank limited = 4
rank unavailable = 2
rank blocked = 2

abbrev pub rank_of : Option Event → ℕ
rank_of none = 0
rank_of (some e) = rank e.state

abbrev pub total_rank : List Event → List Row → ℕ
total_rank es = sum_of (λ r. rank_of (find_event r.work_id es))

-- The newest event of `d` completed it.
abbrev pub done : List Event → String → Bool
done es d = is_completed (find_event d es)

abbrev pub holds : Option Event → String → Bool
holds none i = false
holds (some e) i = opt_eq e.attempt_id (some i)

pub record IsValid (db : Db) : Type 0 where
  pub version_ok : known_version db ≡ true
  pub schema_ok : nat_eq db.schema_version 1 ≡ true
  pub manifest_ok : is_digest db.manifest_digest ≡ true
  pub plan_ok : validate_plan db.plan ≡ ok tt
  pub attempts_ok : scan_attempts db db.attempts ≡ ok tt
  pub seen : Seen
  pub scanned : scan db db.events ≡ ok seen
  pub all_settled : Settled db seen
  pub recovery_table : recovery_rows db ≡ db.reconciliations
  pub retry_table : retry_rows db ≡ db.retries
  pub budget : length db.events ≤ total_rank db.events db.plan + 3 * length db.retries
  pub held :
      (w : String) (a : Attempt)
      → attempt_of w db.attempts ≡ some a
      → holds (find_event w db.events) a.attempt_id ≡ true
  pub found :
      (w : String) (a : Attempt)
      → attempt_of w db.attempts ≡ some a
      → find_attempt a.attempt_id db.attempts ≡ some a
  pub ready :
      (w : String) (c : Event)
      → find_event w db.events ≡ some c
      → is_some c.attempt_id ≡ true
      → all (done db.events) (dependencies_of db w) ≡ true
  pub columns : (w : String) (c : Event) → find_event w db.events ≡ some c → WellFormed c
