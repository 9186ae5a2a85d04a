-- ===== src/Ledger/Calls/Traces.antt =====
-- src/draftbench/ledger.py: the event log through whole calls. It only grows, and each new event
-- is a move of `_MOVES` from the newest event of its work item.
use llm_draftbench.Prelude.{
  ◌+◌, String, Bool, true, false, Option, none, some, List, [], ◌∷◌, ◌≡◌, refl, sym, ap, subst,
  length, ok, >>=-eq-ok, guard-eq-ok, ok-injective, ◌==◌, not, ◌&&◌, Bool-cases, inl, inr,
  if◌then◌else◌,
}
use llm_draftbench.Prelude.Sorting.{sort_by}
use llm_draftbench.Prelude.Text.{opt_eq, eq→path}
use llm_draftbench.Ledger.Types.{
  State, planned, reserved, uncertain, completed, result_saved, failed, limited, unavailable,
  blocked, state_eq, Event, Attempt, Reconciliation, Retry, Db,
}
use llm_draftbench.Ledger.Tables.{find_event, find_attempt, current, current_by_attempt, fetched}
use llm_draftbench.Ledger.Schema.{insert_event, insert_attempt, insert_reconciliation, insert_retry}
use llm_draftbench.Ledger.Session.{Ledger, Faults}
use llm_draftbench.Ledger.Policy.{Policy, admitted}
use llm_draftbench.Ledger.History.{moves, verify}
use llm_draftbench.Ledger.Operations.{
  event, unresolved, reserve_body, transition_body, skip_body, in_flight_rows, recover_rows,
  recover_body, with_reconciliations, with_retries, reconcile_new, reconcile_from, reconcile_body,
  retry_used, newest_event_id, authorize_body, reconciliation_of,
}
use llm_draftbench.Ledger.Preservation.{Inserted-of-insert_event}
use llm_draftbench.Ledger.Preservation.Moves.{guarded_move-moves}
use llm_draftbench.Ledger.Preservation.Reserve.{Added-of-insert_attempt}
use llm_draftbench.Ledger.Preservation.Reconcile.{Filed-of-insert_reconciliation}
use llm_draftbench.Ledger.Preservation.Retrying.{Granted-of-insert_retry}
use llm_draftbench.Ledger.Calls.{Call, run}
use llm_draftbench.Ledger.Calls.Validity.{KeepsOf, run-Preserves}

-- A predicate of the log that each legal event keeps.
pub record LogRule (Q : List Event → Type 0) : Type 0 where
  pub push :
      (es : List Event) (e c : Event)
      → find_event e.work_id es ≡ some c
      → moves c.state e.state ≡ true
      → Q es
      → Q (e ∷ es)

module _ {Q : List Event → Type 0} (rule : LogRule Q) where
  insert_event-Q :
      (db : Db) (e : Event) {after : Db}
      → Q db.events
      → insert_event db e ≡ ok after
      → Q after.events
  insert_event-Q db e q h =
      let i = Inserted-of-insert_event db e h in
      subst (λ (d : Db). Q d.events) (sym i.result)
        (rule.push db.events e i.last i.before
          (guarded_move-moves db i.last e i.last.state e.state i.move) q)

  reserve-Q :
      (policy : Option Policy) (uuid work request : String)
      → KeepsOf (λ db. Q db.events) (reserve_body policy uuid work request)
  unfolding reserve_body
  reserve-Q policy uuid work request db p q h =
      let (c, _, h₁) = fetched (current db work) _ _ h in
      let (_, h₂) = guard-eq-ok (state_eq c.state planned) _ _ h₁ in
      let (_, h₃) = guard-eq-ok (not (unresolved db work)) _ _ h₂ in
      let (_, _, h₄) = >>=-eq-ok (admitted policy (length db.attempts + 1)) _ h₃ in
      let a : Attempt = record { attempt_id = uuid; work_id = work; request_digest = request } in
      let (db₁, added, h₅) = >>=-eq-ok (insert_attempt db a) _ h₄ in
      let (db₂, inserted, h₆) =
        >>=-eq-ok (insert_event db₁ (event db₁ work reserved (some uuid) (some request) none none))
          _ h₅ in
      subst (λ (d : Db). Q d.events) (ap (λ r. r.1) (ok-injective h₆))
        (insert_event-Q db₁ _
          (subst Q (sym (ap Db.events (Added-of-insert_attempt db a added).result)) q) inserted)

  transition-Q :
      (attempt : String) (source target : State) (result code : Option String)
      → KeepsOf (λ db. Q db.events) (transition_body attempt source target result code)
  unfolding transition_body
  transition-Q attempt source target result code db p q h =
      let (a, _, h₁) = fetched (find_attempt attempt db.attempts) _ _ h in
      let (c, _, h₂) = fetched (current db a.work_id) _ _ h₁ in
      let (_, h₃) =
        guard-eq-ok (state_eq c.state source && opt_eq c.attempt_id (some attempt)) _ _ h₂ in
      let e =
        event db c.work_id target (some attempt) c.request_digest
          (if state_eq target completed then c.result_digest else result) code in
      let (db₁, inserted, h₄) = >>=-eq-ok (insert_event db e) _ h₃ in
      subst (λ (d : Db). Q d.events) (ap (λ r. r.1) (ok-injective h₄))
        (insert_event-Q db e q inserted)

  skip-Q :
      (work : String) (state : State) (code : String)
      → KeepsOf (λ db. Q db.events) (skip_body work state code)
  unfolding skip_body
  skip-Q work state code db p q h =
      let (c, _, h₁) = fetched (current db work) _ _ h in
      let (_, h₂) = guard-eq-ok (state_eq c.state planned) _ _ h₁ in
      let e = event db work state none none none (some code) in
      let (db₁, inserted, h₃) = >>=-eq-ok (insert_event db e) _ h₂ in
      subst (λ (d : Db). Q d.events) (ap (λ r. r.1) (ok-injective h₃))
        (insert_event-Q db e q inserted)

  recover_rows-Q :
      (cs : List Event) (db : Db) {after : Db}
      → Q db.events
      → recover_rows cs db ≡ ok after
      → Q after.events
  unfolding recover_rows
  recover_rows-Q [] db q h = subst (λ (d : Db). Q d.events) (ok-injective h) q
  recover_rows-Q (c ∷ cs) db q h =
      let e =
        event db c.work_id uncertain c.attempt_id c.request_digest none (some "interrupted") in
      let (db₁, inserted, rest) = >>=-eq-ok (insert_event db e) _ h in
      recover_rows-Q cs db₁ (insert_event-Q db e q inserted) rest

  recover-Q : KeepsOf (λ db. Q db.events) recover_body
  unfolding recover_body
  recover-Q db p q h =
      let rows = sort_by (λ (e : Event). e.work_id) (in_flight_rows db db.plan) in
      let (db₁, done, h₁) = >>=-eq-ok (recover_rows rows db) _ h in
      subst (λ (d : Db). Q d.events) (ap (λ r. r.1) (ok-injective h₁))
        (recover_rows-Q rows db q done)

  reconcile_from-Q :
      (known : Option Reconciliation) (c : Event) (attempt result receipt : String)
      → KeepsOf (λ db. Q db.events) (reconcile_from known c attempt result receipt)
  unfolding reconcile_from reconcile_new
  reconcile_from-Q none c attempt result receipt db p q h =
      let r : Reconciliation = record {
        attempt_id = attempt;
        receipt_digest = receipt;
        result_digest = result;
      } in
      let (_, h₁) = guard-eq-ok (state_eq c.state uncertain) _ _ h in
      let (db₁, filed, h₂) = >>=-eq-ok (insert_reconciliation (with_reconciliations db) r) _ h₁ in
      let e = event db₁ c.work_id result_saved (some attempt) c.request_digest (some result) none in
      let (db₂, inserted, h₃) = >>=-eq-ok (insert_event db₁ e) _ h₂ in
      let (_, _, h₄) = >>=-eq-ok (verify db₂) _ h₃ in
      subst (λ (d : Db). Q d.events) (ap (λ r. r.1) (ok-injective h₄))
        (insert_event-Q db₁ e
          (subst Q
            (sym (
              ap Db.events
                (Filed-of-insert_reconciliation (with_reconciliations db) r filed).result))
            q)
          inserted)
  reconcile_from-Q (some r) c attempt result receipt db p q h =
      elim (Bool-cases (r.result_digest == result && r.receipt_digest == receipt)) [
        | inl same ↦ subst (λ (d : Db). Q d.events) (ap (λ r. r.1) (ok-injective (rw same at h))) q
        | inr other ↦ cc (other)
      ]

  reconcile-Q :
      (attempt result receipt : String)
      → KeepsOf (λ db. Q db.events) (reconcile_body attempt result receipt)
  unfolding reconcile_body
  reconcile-Q attempt result receipt db p q h =
      let (c, _, h₁) = fetched (current_by_attempt db attempt db.plan) _ _ h in
      reconcile_from-Q (reconciliation_of db attempt) c attempt result receipt db p q h₁

  authorize-Q :
      (attempt receipt evidence : String)
      → KeepsOf (λ db. Q db.events) (authorize_body attempt receipt evidence)
  unfolding authorize_body
  authorize-Q attempt receipt evidence db p q h =
      let (c, _, h₁) = fetched (current_by_attempt db attempt db.plan) _ _ h in
      let (_, h₂) = guard-eq-ok (state_eq c.state uncertain) _ _ h₁ in
      let (_, h₃) = guard-eq-ok (not (retry_used db attempt)) _ _ h₂ in
      let r : Retry = record {
        attempt_id = attempt;
        uncertain_event_id = newest_event_id (find_event c.work_id db.events);
        receipt_digest = receipt;
        evidence_digest = evidence;
      } in
      let (db₁, added, h₄) = >>=-eq-ok (insert_retry (with_retries db) r) _ h₃ in
      let e = event db₁ c.work_id reserved (some attempt) c.request_digest none none in
      let (db₂, inserted, h₅) = >>=-eq-ok (insert_event db₁ e) _ h₄ in
      let (_, _, h₆) = >>=-eq-ok (verify db₂) _ h₅ in
      subst (λ (d : Db). Q d.events) (ap (λ r. r.1) (ok-injective h₆))
        (insert_event-Q db₁ e
          (subst Q (sym (ap Db.events (Granted-of-insert_retry (with_retries db) r added).result))
            q)
          inserted)

  -- Whatever is called, the log keeps `Q`.
  pub run-log :
      (calls : List (Faults × Call)) (l : Ledger) → Q l.db.events → Q (run calls l).db.events
  run-log = run-Preserves (record {
    reserve = reserve-Q;
    transition =
        λ attempt source target result code _ _. transition-Q attempt source target result code;
    skip = λ work state code _. skip-Q work state code;
    recover = recover-Q;
    reconcile = reconcile-Q;
    authorize = authorize-Q;
  })

-- A log that grew from another by legal moves.
pub data Grows (es : List Event) : List Event → Type 0 where
  same : Grows es es
  push :
      {fs : List Event} (e c : Event)
      → Grows es fs
      → find_event e.work_id fs ≡ some c
      → moves c.state e.state ≡ true
      → Grows es (e ∷ fs)

-- What stands at the end of the moves stays the newest event.
abbrev pub is_final : State → Bool
is_final completed = true
is_final failed = true
is_final limited = true
is_final unavailable = true
is_final blocked = true
is_final _ = false

final-moves : (a b : State) → is_final a ≡ true → moves a b ≡ false
unfolding moves
final-moves completed b h = refl
final-moves failed b h = refl
final-moves limited b h = refl
final-moves unavailable b h = refl
final-moves blocked b h = refl
final-moves _ b h = cc

pub Grows-LogRule : (es : List Event) → LogRule (Grows es)
Grows-LogRule es = record { push = λ fs e c before moved g. Grows.push e c g before moved }

pub final-LogRule :
    (w : String) (c : Event) → is_final c.state ≡ true → LogRule (λ es. find_event w es ≡ some c)
final-LogRule w c end = record {
  push = λ es e d before moved h. elim (Bool-cases (e.work_id == w)) [
    | inl here ↦
        let last = subst (λ z. find_event z es ≡ some d) (eq→path e.work_id w here) before in
        let same : c ≡ d = cc in
        cc (
          subst (λ (x : Event). moves x.state e.state ≡ true) (sym same) moved,
          final-moves c.state e.state end,
        )
    | inr other ↦ rw other h
  ];
}
