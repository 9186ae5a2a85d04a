-- ===== src/Ledger/Invariant/Kept.antt =====
-- src/draftbench/ledger.py: an event that keeps the attempt of the one before it, and leaves the
-- other tables alone.
use llm_draftbench.Prelude.{
  ℕ, ◌+◌, ◌≤◌, String, true, false, some, List, [], ◌∷◌, ◌&&◌, ◌==◌, ◌≡◌, refl, sym, subst, ◌∙◌,
  arith, map, Bool-cases, inl, inr,
}
use llm_draftbench.Prelude.Text.{member, same_set, same_set-cons_left, eq→path}
use llm_draftbench.Ledger.Types.{
  State, planned, reserved, in_flight, result_saved, completed, failed, limited, uncertain,
  unavailable, blocked, state_eq, Row, Attempt, Event, Reconciliation, Retry, Db,
}
use llm_draftbench.Ledger.Tables.{find_row, find_event, attempt_of, is_some}
use llm_draftbench.Ledger.Schema.{WellFormed}
use llm_draftbench.Ledger.History.{scan_attempts, moves, binds, completes, keys}
use llm_draftbench.Ledger.History.Scan.{gathered, Settled, grown}
use llm_draftbench.Ledger.Invariant.{IsValid, rank, holds}
use llm_draftbench.Ledger.Invariant.Grow.{Growth, grown-IsValid, newest-before, newest-facts}

-- The loop over the attempts reads the plan alone.
pub scan_attempts-grown :
    (db : Db) (v : ℕ) (attempts : List Attempt) (rows : List Reconciliation) (retries : List Retry)
    (events : List Event) (list : List Attempt)
    → scan_attempts (grown db v attempts rows retries events) list ≡ scan_attempts db list
unfolding scan_attempts
scan_attempts-grown db v attempts rows retries events [] = refl
scan_attempts-grown db v attempts rows retries events (a ∷ list) =
    rw (scan_attempts-grown db v attempts rows retries events list)

pub binds-same :
    (db : Db) (e c : Event)
    → e.work_id ≡ c.work_id
    → e.attempt_id ≡ c.attempt_id
    → e.request_digest ≡ c.request_digest
    → binds db c ≡ true
    → binds db e ≡ true
binds-same db e c w i d h = ground arith

-- Every move but a retry raises the rank.
pub rank-lt :
    (a b : State)
    → moves a b ≡ true
    → (state_eq a uncertain && state_eq b reserved) ≡ false
    → 1 + rank a ≤ rank b
unfolding moves
rank-lt planned reserved m h = omega arith
rank-lt planned unavailable m h = omega arith
rank-lt planned blocked m h = omega arith
rank-lt reserved in_flight m h = omega arith
rank-lt in_flight result_saved m h = omega arith
rank-lt in_flight failed m h = omega arith
rank-lt in_flight limited m h = omega arith
rank-lt in_flight uncertain m h = omega arith
rank-lt result_saved completed m h = omega arith
rank-lt uncertain result_saved m h = omega arith
rank-lt uncertain reserved m h = cc
rank-lt _ _ m h = cc

find_row-member :
    (w : String) (rs : List Row)
    → is_some (find_row w rs) ≡ true
    → member w (map (λ r. r.work_id) rs) ≡ true
find_row-member w [] h = cc
find_row-member w (r ∷ rs) h = ground (arith, find_row-member w rs)

module _ {db : Db} (valid : IsValid db) (e c : Event)
    (before : find_event e.work_id db.events ≡ some c) where
  -- The keys of `latest` are still those of the plan.
  pub keys-settled : same_set (keys (e ∷ valid.seen.latest)) (map (λ r. r.work_id) db.plan) ≡ true
  keys-settled =
      same_set-cons_left e.work_id (keys valid.seen.latest) (map (λ r. r.work_id) db.plan)
        (find_row-member e.work_id db.plan (newest-facts valid e.work_id c before).1)
        valid.all_settled.planned_all

  -- Whoever has the attempt of the plan still shows it.
  pub held-same :
      e.attempt_id ≡ c.attempt_id
      → (w : String) (a : Attempt) → attempt_of w db.attempts ≡ some a
      → holds (find_event w (e ∷ db.events)) a.attempt_id ≡ true
  held-same same w a found = elim (Bool-cases (e.work_id == w)) [
    | inl here ↦
        let last : find_event w db.events ≡ some c =
          subst (λ z. find_event z db.events ≡ some c) (eq→path e.work_id w here) before in
        let old : holds (some c) a.attempt_id ≡ true = rw last at (valid.held w a found) in
        rw (here, same) old
    | inr other ↦ rw other (valid.held w a found)
  ]

pub record Kept {db : Db} (valid : IsValid db) (e c : Event) : Type 0 where
  pub before : find_event e.work_id db.events ≡ some c
  pub moved : moves c.state e.state ≡ true
  pub columns : WellFormed e
  pub same_id : e.attempt_id ≡ c.attempt_id
  pub same_request : e.request_digest ≡ c.request_digest
  pub calm : state_eq c.state uncertain ≡ false
  pub not_reserved : state_eq e.state reserved ≡ false
  pub result : completes (some c) e ≡ true

module _ {db : Db} (valid : IsValid db) (e c : Event) (k : Kept valid e c) where
  named : c.work_id ≡ e.work_id
  named = (newest-facts valid e.work_id c k.before).2

  binds-kept : binds db e ≡ true
  binds-kept =
      let old = (newest-facts valid e.work_id c k.before).0 in
      binds-same db e c (sym named) k.same_id k.same_request old

  Settled-kept : Settled (record db { events = e ∷ db.events }) (gathered valid.seen e)
  Settled-kept =
      let prev = newest-before valid e.work_id c k.before in
      record {
        retried_all = rw (prev, k.calm) valid.all_settled.retried_all;
        recovered_all = rw (prev, k.calm) valid.all_settled.recovered_all;
        planned_all = keys-settled valid e c k.before;
        reserved_all = rw k.not_reserved valid.all_settled.reserved_all;
      }

  kept-Growth : Growth valid db.user_version db.attempts db.reconciliations db.retries e c
  kept-Growth = record {
    extends = record {
      attempt = λ w a h. h;
      recovery = λ i r h. h;
      retry = λ i r h. h;
      longer = omega arith;
    };
    before = k.before;
    moved = k.moved;
    columns = k.columns;
    version_ok = valid.version_ok;
    attempts_ok = scan_attempts-grown db _ _ _ _ _ db.attempts ∙ valid.attempts_ok;
    receipt = rw k.calm;
    bound = binds-kept;
    first = λ r. cc (k.not_reserved);
    prepared = λ h. valid.ready e.work_id c k.before (rw k.same_id at h);
    result = k.result;
    all_settled = Settled-kept;
    recovery_table = valid.recovery_table;
    retry_table = valid.retry_table;
    spent = omega (arith, rank-lt c.state e.state k.moved (rw k.calm));
    held = held-same valid e c k.before k.same_id;
    found = valid.found;
  }

  pub kept-IsValid : IsValid (record db { events = e ∷ db.events })
  kept-IsValid = grown-IsValid valid _ _ _ _ e c kept-Growth
