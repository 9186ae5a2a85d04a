-- ===== src/Ledger/Exact.antt =====
-- src/draftbench/ledger.py: what `start`, `record_result`, `complete` and `fail` do on an open,
-- writable ledger, in every state of the attempt.
use llm_draftbench.Prelude.{
  String, Bool, true, none, some, ◌∷◌, ◌≡◌, ap, ◌∙◌, if◌then◌else◌, Result, ok, err,
}
use llm_draftbench.Prelude.Text.{member}
use llm_draftbench.Ledger.Types.{
  LedgerError, invalid_transition, reserved, in_flight, result_saved, completed, failed, limited,
  state_eq, Event, failure_codes,
}
use llm_draftbench.Ledger.Ident.{is_digest}
use llm_draftbench.Ledger.Tables.{find_event}
use llm_draftbench.Ledger.Transaction.{IsOpen, transaction-open, committed-if}
use llm_draftbench.Ledger.Session.{Ledger, no_faults, Body, transaction, committed}
use llm_draftbench.Ledger.Operations.{start, record_result, complete, fail}
use llm_draftbench.Ledger.Invariant.{IsValid}
use llm_draftbench.Ledger.Preservation.Progress.{
  Owned-newest, moved, start-exact, record_result-exact, complete-exact, fail-exact,
}

abbrev pub Outcome : Type 0
Outcome = Result LedgerError (Unit {0}) × Ledger

-- The event is appended, or the call is refused and nothing changes.
abbrev pub appended_if : Bool → Event → Ledger → Outcome
appended_if t e l =
    if t
    then (ok tt, record l { db = record l.db { events = e ∷ l.db.events } })
    else (err invalid_transition, l)

method-exact :
    (body : Body (Unit {0})) (l : Ledger) (t : Bool) (e : Event)
    → IsOpen l
    → body l.db
      ≡ (if t then ok (tt, record l.db { events = e ∷ l.db.events }) else err invalid_transition)
    → transaction no_faults true body l ≡ appended_if t e l
method-exact body l t e o h =
    transaction-open true body l o
    ∙ ap (committed none l) h
    ∙ committed-if l t tt (record l.db { events = e ∷ l.db.events }) invalid_transition

module _ (l : Ledger) (valid : IsValid l.db) (o : IsOpen l) (w : String) (c : Event) (i : String)
    (newest : find_event w l.db.events ≡ some c) (id : c.attempt_id ≡ some i) where
  pub start_exact :
      start no_faults i l
      ≡ appended_if (state_eq c.state reserved) (moved l.db c i in_flight none none) l
  unfolding start
  start_exact =
      rw (Owned-newest valid w c i newest id).hex_id
        (method-exact _ l (state_eq c.state reserved) _ o (start-exact valid w c i newest id))

  pub record_result_exact :
      (result : String)
      → is_digest result ≡ true
      → record_result no_faults i result l
        ≡ appended_if
            (state_eq c.state in_flight)
            (moved l.db c i result_saved (some result) none)
            l
  unfolding record_result
  record_result_exact result hex =
      rw (hex, (Owned-newest valid w c i newest id).hex_id)
        (method-exact _ l (state_eq c.state in_flight) _ o
          (record_result-exact valid w c i newest id result hex))

  pub complete_exact :
      complete no_faults i l
      ≡ appended_if (state_eq c.state result_saved) (moved l.db c i completed none none) l
  unfolding complete
  complete_exact =
      rw (Owned-newest valid w c i newest id).hex_id (
        method-exact _ l (state_eq c.state result_saved) _ o (complete-exact valid w c i newest id))

  pub fail_exact :
      (code : String) (is_limited : Bool)
      → member code failure_codes ≡ true
      → fail no_faults i code is_limited l
        ≡ appended_if
            (state_eq c.state in_flight)
            (moved l.db c i (if is_limited then limited else failed) none (some code))
            l
  unfolding fail
  fail_exact code is_limited known =
      rw (known, (Owned-newest valid w c i newest id).hex_id)
        (method-exact _ l (state_eq c.state in_flight) _ o
          (fail-exact valid w c i newest id code is_limited known))
