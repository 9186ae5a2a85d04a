-- ===== src/Ledger/Tables.antt =====
-- src/draftbench/ledger.py: reading the tables, and the view `current_states`.
use llm_draftbench.Prelude.{
  ◌>>=◌, ◌≡◌, refl, ℕ, ◌+◌, String, Bool, true, false, Option, none, some, List, [], ◌∷◌, ◌==◌, all,
  if◌then◌else◌, Result, ok, err,
}
use llm_draftbench.Prelude.Text.{opt_eq}
use llm_draftbench.Ledger.Types.{
  LedgerError, completed, state_eq, Row, Attempt, Event, Reconciliation, Retry, Db,
}

abbrev pub find_row : String → List Row → Option Row
find_row w [] = none
find_row w (r ∷ rs) = if r.work_id == w then some r else find_row w rs

-- The newest event of a work item.
abbrev pub find_event : String → List Event → Option Event
find_event w [] = none
find_event w (e ∷ es) = if e.work_id == w then some e else find_event w es

abbrev pub find_attempt : String → List Attempt → Option Attempt
find_attempt i [] = none
find_attempt i (a ∷ as') = if a.attempt_id == i then some a else find_attempt i as'

-- The attempt of a work item: the column `work_id` is UNIQUE.
abbrev pub attempt_of : String → List Attempt → Option Attempt
attempt_of w [] = none
attempt_of w (a ∷ as') = if a.work_id == w then some a else attempt_of w as'

abbrev pub find_reconciliation : String → List Reconciliation → Option Reconciliation
find_reconciliation i [] = none
find_reconciliation i (r ∷ rs) = if r.attempt_id == i then some r else find_reconciliation i rs

abbrev pub find_retry : String → List Retry → Option Retry
find_retry i [] = none
find_retry i (r ∷ rs) = if r.attempt_id == i then some r else find_retry i rs

abbrev pub is_some {ℓ} : {A : Type ℓ} → Option A → Bool
is_some none = false
is_some (some a) = true

-- A row of `current_states`: the plan joined with the newest event.
abbrev pub current : Db → String → Option Event
current db w = elim (find_row w db.plan) [ none ↦ none | some r ↦ find_event w db.events ]

abbrev pub if_attempt : Option Event → String → Option Event → Option Event
if_attempt none i rest = rest
if_attempt (some e) i rest = if opt_eq e.attempt_id (some i) then some e else rest

-- `fetchone` over `current_states WHERE attempt_id=?`
abbrev pub current_by_attempt : Db → String → List Row → Option Event
current_by_attempt db i [] = none
current_by_attempt db i (r ∷ rs) =
    if_attempt (find_event r.work_id db.events) i (current_by_attempt db i rs)

abbrev pub dependencies_of : Db → String → List String
dependencies_of db w = elim (find_row w db.plan) [ none ↦ [] | some r ↦ r.dependencies ]

abbrev pub is_completed : Option Event → Bool
is_completed none = false
is_completed (some e) = state_eq e.state completed

-- No dependency is missing from the view or short of completion.
abbrev pub dependencies_done : Db → String → Bool
dependencies_done db w = all (λ d. is_completed (current db d)) (dependencies_of db w)

-- AUTOINCREMENT
abbrev pub next_event_id : List Event → ℕ
next_event_id [] = 1
next_event_id (e ∷ es) = e.event_id + 1

-- `fetchone()` with `None` raised as an error.
abbrev pub fetch {ℓ} : {A : Type ℓ} → Option A → LedgerError → Result LedgerError A
fetch none e = err e
fetch (some a) e = ok a

-- Inversion of a fetch, alone and in a block.
pub fetch-eq-ok {ℓ} :
    {A : Type ℓ} (o : Option A) (e : LedgerError) {a : A} → fetch o e ≡ ok a → o ≡ some a
fetch-eq-ok none e h = cc
fetch-eq-ok (some a) e h = cc

pub fetched {ℓ κ} :
    {A : Type ℓ} {B : Type κ} (o : Option A) (e : LedgerError) (f : A → Result LedgerError B)
    {b : B}
    → (fetch o e >>= f) ≡ ok b
    → (a : A) × (o ≡ some a) × (f a ≡ ok b)
fetched none e f h = cc
fetched (some a) e f h = (a, refl, h)
