-- ===== src/Ledger/Preservation/Receipts.antt =====
-- src/draftbench/ledger.py: what the two receipts, a reconciliation and a retry, have in common.
use llm_draftbench.Prelude.{
  ℕ, String, true, false, Option, none, some, List, [], ◌∷◌, ◌||◌, ◌≡◌, refl, subst, arith, nat_eq,
  leb, ltb, if◌then◌else◌, Bool-cases, ◌⊎◌, inl, inr, eq_iff,
}
use llm_draftbench.Prelude.Text.{opt_eq}
use llm_draftbench.Ledger.Types.{
  reserved, result_saved, uncertain, Event, Row, Reconciliation, Retry, Db,
}
use llm_draftbench.Ledger.Tables.{
  find_event, find_reconciliation, find_retry, is_some, if_attempt, current_by_attempt,
}
use llm_draftbench.Ledger.History.{moves}

pub uncertain_moves : (moves uncertain result_saved ≡ true) × (moves uncertain reserved ≡ true)
unfolding moves
uncertain_moves = (refl, refl)

if_attempt-cases :
    (o : Option Event) (i : String) (rest : Option Event) (c : Event)
    → if_attempt o i rest ≡ some c
    → ((o ≡ some c) × (opt_eq c.attempt_id (some i) ≡ true)) ⊎ (rest ≡ some c)
if_attempt-cases none i rest c h = inr h
if_attempt-cases (some e) i rest c h = elim (Bool-cases (opt_eq e.attempt_id (some i))) [
  | inl here ↦
      let only : ◌≡◌ {A = Option Event} (some e) (some c) = rw here at h in
      let same : e ≡ c = cc in
      inl (only, subst (λ x. opt_eq x.attempt_id (some i) ≡ true) same here)
  | inr other ↦ inr (rw other at h)
]

-- The row that `current_states WHERE attempt_id=?` gives.
pub current_by_attempt-newest :
    (db : Db) (i : String) (rs : List Row) (c : Event)
    → current_by_attempt db i rs ≡ some c
    → (w : String) × (find_event w db.events ≡ some c) × (opt_eq c.attempt_id (some i) ≡ true)
current_by_attempt-newest db i [] c h = cc
current_by_attempt-newest db i (r ∷ rs) c h =
    elim (if_attempt-cases (find_event r.work_id db.events) i (current_by_attempt db i rs) c h) [
      | inl (found, here) ↦ (r.work_id, found, here)
      | inr later ↦ current_by_attempt-newest db i rs c later
    ]

-- Adding to a table whose key is new keeps what is found.
pub find_reconciliation-cons :
    (r : Reconciliation) (rs : List Reconciliation) (i : String) (q : Reconciliation)
    → is_some (find_reconciliation r.attempt_id rs) ≡ false
    → find_reconciliation i rs ≡ some q
    → find_reconciliation i (r ∷ rs) ≡ some q
find_reconciliation-cons r rs i q fresh h = ground (arith, eq_iff r.attempt_id i)

pub find_retry-cons :
    (r : Retry) (rs : List Retry) (i : String) (q : Retry)
    → is_some (find_retry r.attempt_id rs) ≡ false
    → find_retry i rs ≡ some q
    → find_retry i (r ∷ rs) ≡ some q
find_retry-cons r rs i q fresh h = ground (arith, eq_iff r.attempt_id i)

-- What the upgrade of the schema leaves of the version.
pub upgraded :
    (v : ℕ)
    → (nat_eq v 1 || nat_eq v 2 || nat_eq v 3) ≡ true
    → (leb 2 (if nat_eq v 1 then 2 else v) ≡ true)
      × ((nat_eq (if nat_eq v 1 then 2 else v) 1
            || nat_eq (if nat_eq v 1 then 2 else v) 2
            || nat_eq (if nat_eq v 1 then 2 else v) 3)
          ≡ true)
      × (nat_eq (if nat_eq v 1 then 2 else v) 3 ≡ nat_eq v 3)
upgraded v h = (ground arith, ground arith, ground arith)

pub upgraded_3 :
    (v : ℕ) → (nat_eq v 1 || nat_eq v 2 || nat_eq v 3) ≡ true → (if ltb v 3 then 3 else v) ≡ 3
upgraded_3 v h = ground arith
