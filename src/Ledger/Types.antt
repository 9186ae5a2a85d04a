-- ===== src/Ledger/Types.antt =====
-- src/draftbench/ledger.py: the states, the rows of the tables, and what is raised.
use llm_draftbench.Prelude.{
  ℕ, zero, suc, String, Bool, true, Option, List, [], ◌∷◌, ◌≡◌, refl, sym, ap, ◌∙◌, arith, nat_eq,
}

-- The codes of `LedgerError`, and of the other subclasses of ValueError that its callers raise
-- around a transaction: `policy_exhausted` is a provider policy's, the last five are the campaign's.
pub data LedgerError : Type 0 where
  invalid_identifier invalid_digest invalid_code invalid_plan invalid_state : LedgerError
  invalid_transition unknown_work unknown_attempt dependency_unresolved : LedgerError
  admission_exhausted policy_exhausted retry_already_used reconciliation_mismatch : LedgerError
  busy corrupt io unsafe_path requires_recovery exists closed readonly version : LedgerError
  campaign_currency tracking_requires_no_reservation campaign_invalid_upper_bound : LedgerError
  campaign_binding_mismatch campaign_exhausted : LedgerError

pub data State : Type 0 where
  planned reserved in_flight result_saved completed : State
  failed limited uncertain unavailable blocked : State

-- The position of a state in `STATES`.
abbrev pub index : State → ℕ
index planned = 0
index reserved = 1
index in_flight = 2
index result_saved = 3
index completed = 4
index failed = 5
index limited = 6
index uncertain = 7
index unavailable = 8
index blocked = 9

abbrev pub state_eq : State → State → Bool
state_eq a b = nat_eq (index a) (index b)

abbrev of_index : ℕ → State
of_index zero = planned
of_index (suc zero) = reserved
of_index (suc (suc zero)) = in_flight
of_index (suc (suc (suc zero))) = result_saved
of_index (suc (suc (suc (suc zero)))) = completed
of_index (suc (suc (suc (suc (suc zero))))) = failed
of_index (suc (suc (suc (suc (suc (suc zero)))))) = limited
of_index (suc (suc (suc (suc (suc (suc (suc zero))))))) = uncertain
of_index (suc (suc (suc (suc (suc (suc (suc (suc zero)))))))) = unavailable
of_index (suc (suc (suc (suc (suc (suc (suc (suc (suc n))))))))) = blocked

of_index-index : (s : State) → of_index (index s) ≡ s
of_index-index planned = refl
of_index-index _ = refl

index_eq : (m n : ℕ) → nat_eq m n ≡ true → m ≡ n
index_eq m n h = ground arith

pub state_eq→path : (a b : State) → state_eq a b ≡ true → a ≡ b
state_eq→path a b h =
    sym (of_index-index a) ∙ ap of_index (index_eq (index a) (index b) h) ∙ of_index-index b

pub data Role : Type 0 where
  writer reviewer revision : Role

pub record Row : Type 0 where
  pub work_id : String
  pub case_id : String
  pub role : Role
  pub dependencies : List String

pub record Attempt : Type 0 where
  pub attempt_id : String
  pub work_id : String
  pub request_digest : String

pub record Event : Type 0 where
  pub event_id : ℕ
  pub work_id : String
  pub state : State
  pub attempt_id : Option String
  pub request_digest : Option String
  pub result_digest : Option String
  pub error_code : Option String

pub record Reconciliation : Type 0 where
  pub attempt_id : String
  pub receipt_digest : String
  pub result_digest : String

pub record Retry : Type 0 where
  pub attempt_id : String
  pub uncertain_event_id : ℕ
  pub receipt_digest : String
  pub evidence_digest : String

-- The database. Tables that only grow hold their newest row first; `user_version` says which
-- schema's triggers are in force.
pub record Db : Type 0 where
  pub user_version : ℕ
  pub schema_version : ℕ
  pub manifest_digest : String
  pub plan : List Row
  pub attempts : List Attempt
  pub events : List Event
  pub reconciliations : List Reconciliation
  pub retries : List Retry

abbrev pub failure_codes : List String
failure_codes = "adapter_failed" ∷ "adapter_limited" ∷ "invalid_adapter_output" ∷ []

abbrev pub skip_codes : List String
skip_codes =
    "input_unavailable" ∷ "input_unknown" ∷ "input_invalid" ∷ "input_inapplicable"
    ∷ "dependency_unresolved" ∷ []

abbrev pub max_plan_rows : ℕ
max_plan_rows = 30000
