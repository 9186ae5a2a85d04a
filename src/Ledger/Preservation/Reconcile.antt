-- ===== src/Ledger/Preservation/Reconcile.antt =====
-- src/draftbench/ledger.py: `reconcile_result` keeps the invariant.
use llm_draftbench.Prelude.{
  ℕ, String, true, false, Option, none, some, ◌∷◌, ◌&&◌, ◌==◌, ◌≡◌, refl, sym, ap, subst, ◌∙◌,
  arith, map, not, length, leb, Result, ok, ◌>>=◌, guard-eq-ok, >>=-eq-ok, ok-injective, and-left,
  and-right, not-true, Bool-cases, inl, inr,
}
use llm_draftbench.Prelude.Text.{opt_eq, opt_eq→path, same_set, same_set-cons, eq_self}
use llm_draftbench.Ledger.Types.{
  LedgerError, reserved, result_saved, uncertain, state_eq, state_eq→path, Event, Reconciliation,
  Db,
}
use llm_draftbench.Ledger.Ident.{is_digest}
use llm_draftbench.Ledger.Tables.{
  find_event, find_attempt, find_reconciliation, is_some, current_by_attempt, fetched,
}
use llm_draftbench.Ledger.Schema.{insert_event, insert_reconciliation, WellFormed}
use llm_draftbench.Ledger.History.{
  moves, known_version, retry_rows, recovery_rows, verify, valid_recovery, recovery_of,
}
use llm_draftbench.Ledger.History.Scan.{gathered, grown, Settled}
use llm_draftbench.Ledger.Operations.{
  event, with_reconciliations, reconciliation_of, reconcile_new, reconcile_from, reconcile_body,
}
use llm_draftbench.Ledger.Invariant.{IsValid, rank}
use llm_draftbench.Ledger.Invariant.Grow.{Growth, grown-IsValid, newest-before, newest-facts}
use llm_draftbench.Ledger.Invariant.Kept.{scan_attempts-grown, keys-settled, held-same, binds-same}
use llm_draftbench.Ledger.Preservation.{Inserted-of-insert_event}
use llm_draftbench.Ledger.Preservation.Methods.{Keeps, of_newest}
use llm_draftbench.Ledger.Preservation.Receipts.{
  uncertain_moves, current_by_attempt-newest, find_reconciliation-cons, upgraded,
}

module _ {db : Db} (valid : IsValid db) (v : ℕ) (r : Reconciliation) (e c : Event) where
  abbrev saved : Db
  saved = grown db v db.attempts (r ∷ db.reconciliations) db.retries (e ∷ db.events)

  -- The event that a reconciliation appends.
  pub record Reconciles : Type 0 where
    at_least : leb 2 v ≡ true
    version_ok : known_version saved ≡ true
    same_retries : retry_rows saved ≡ retry_rows db
    fresh : is_some (find_reconciliation r.attempt_id db.reconciliations) ≡ false
    before : find_event e.work_id db.events ≡ some c
    was_uncertain : c.state ≡ uncertain
    is_saved : e.state ≡ result_saved
    columns : WellFormed e
    id : e.attempt_id ≡ some r.attempt_id
    same_id : e.attempt_id ≡ c.attempt_id
    same_request : e.request_digest ≡ c.request_digest
    result : e.result_digest ≡ some r.result_digest
    hex_receipt : is_digest r.receipt_digest ≡ true

  module _ (t : Reconciles) where
    named : e.work_id ≡ c.work_id
    named = sym (newest-facts valid e.work_id c t.before).2

    unsure : state_eq c.state uncertain ≡ true
    unsure = ap (λ s. state_eq s uncertain) t.was_uncertain

    not_reserved : state_eq e.state reserved ≡ false
    not_reserved = ap (λ s. state_eq s reserved) t.is_saved

    same_retried : (gathered valid.seen e).retried ≡ valid.seen.retried
    same_retried = rw (newest-before valid e.work_id c t.before, unsure, not_reserved)

    one_recovered : (gathered valid.seen e).recovered ≡ r.attempt_id ∷ valid.seen.recovered
    one_recovered = rw (newest-before valid e.work_id c t.before, unsure, not_reserved, t.id)

    table : recovery_rows saved ≡ r ∷ db.reconciliations
    table = rw t.at_least

    ids : same_set valid.seen.recovered (map (λ q. q.attempt_id) db.reconciliations) ≡ true
    ids = rw valid.recovery_table at valid.all_settled.recovered_all

    receipt_found : recovery_of saved e ≡ some r
    receipt_found = rw (t.id, t.at_least, eq_self r.attempt_id)

    receipt_good : valid_recovery e (some r) ≡ true
    receipt_good = rw (t.result, eq_self r.result_digest, t.hex_receipt)

    Settled-saved : Settled saved (gathered valid.seen e)
    Settled-saved = record {
      retried_all =
          subst (λ l. same_set l (map (λ q. q.attempt_id) (retry_rows saved)) ≡ true)
            (sym same_retried)
            (subst (λ l. same_set valid.seen.retried (map (λ q. q.attempt_id) l) ≡ true)
              (sym t.same_retries) valid.all_settled.retried_all);
      recovered_all =
          subst (λ l. same_set l (map (λ q. q.attempt_id) (recovery_rows saved)) ≡ true)
            (sym one_recovered)
            (subst
              (λ l.
                same_set (r.attempt_id ∷ valid.seen.recovered) (map (λ q. q.attempt_id) l) ≡ true)
              (sym table) (same_set-cons r.attempt_id _ _ ids));
      planned_all = keys-settled valid e c t.before;
      reserved_all = rw not_reserved valid.all_settled.reserved_all;
    }

    reconcile-Growth : Growth valid v db.attempts (r ∷ db.reconciliations) db.retries e c
    reconcile-Growth = record {
      extends = record {
        attempt = λ w a h. h;
        recovery = λ i q h. rw t.at_least (
            find_reconciliation-cons r db.reconciliations i q t.fresh
              (rw valid.recovery_table at h));
        retry = λ i q h. rw t.same_retries h;
        longer = omega (arith, ap length t.same_retries);
      };
      before = t.before;
      moved =
          subst (λ s. moves s e.state ≡ true) (sym t.was_uncertain)
            (subst (λ s. moves uncertain s ≡ true) (sym t.is_saved) uncertain_moves.0);
      columns = t.columns;
      version_ok = t.version_ok;
      attempts_ok = scan_attempts-grown db _ _ _ _ _ db.attempts ∙ valid.attempts_ok;
      receipt = rw (unsure, not_reserved) (ap (valid_recovery e) receipt_found ∙ receipt_good);
      bound =
          binds-same db e c named t.same_id t.same_request
            (newest-facts valid e.work_id c t.before).0;
      first = λ is_reserved. cc (not_reserved);
      prepared = λ h. valid.ready e.work_id c t.before (rw t.same_id at h);
      result = rw t.is_saved;
      all_settled = Settled-saved;
      recovery_table = rw t.at_least;
      retry_table = t.same_retries ∙ valid.retry_table;
      spent = omega (arith, ap rank t.was_uncertain, ap rank t.is_saved);
      held = held-same valid e c t.before t.same_id;
      found = valid.found;
    }

  pub reconcile-IsValid : Reconciles → IsValid saved
  reconcile-IsValid t = grown-IsValid valid _ _ _ _ e c (reconcile-Growth t)

-- What the trigger and the constraints say of a row that was added to `reconciliations`.
pub record Filed (db : Db) (r : Reconciliation) (after : Db) : Type 0 where
  pub fresh : is_some (find_reconciliation r.attempt_id db.reconciliations) ≡ false
  pub hex_receipt : is_digest r.receipt_digest ≡ true
  pub result : after ≡ record db { reconciliations = r ∷ db.reconciliations }

pub Filed-of-insert_reconciliation :
    (db : Db) (r : Reconciliation) {after : Db}
    → insert_reconciliation db r ≡ ok after
    → Filed db r after
unfolding insert_reconciliation
Filed-of-insert_reconciliation db r h =
    let (_, h₁) = guard-eq-ok _ _ _ h in
    let (checks, h₂) =
      guard-eq-ok
        (is_digest r.receipt_digest
          && is_digest r.result_digest
          && is_some (find_attempt r.attempt_id db.attempts)
          && not (is_some (find_reconciliation r.attempt_id db.reconciliations)))
        _ _ h₁ in
    record {
      fresh = not-true _ (and-right _ _ checks);
      hex_receipt = and-left _ _ (and-left _ _ (and-left _ _ checks));
      result = sym (ok-injective h₂);
    }

abbrev verified : Db → Result LedgerError (Unit {0} × Db)
verified db = verify db >>= λ _. ok (tt, db)

reconcile_new-IsValid :
    (db : Db) (c : Event) (w attempt result receipt : String) (p : Unit {0} × Db)
    → IsValid db
    → find_event w db.events ≡ some c
    → opt_eq c.attempt_id (some attempt) ≡ true
    → reconcile_new c attempt result receipt db ≡ ok p
    → IsValid p.1
unfolding reconcile_new
reconcile_new-IsValid db c w attempt result receipt p valid found id h =
    let r : Reconciliation = record {
      attempt_id = attempt;
      receipt_digest = receipt;
      result_digest = result;
    } in
    let up : Db = with_reconciliations db in
    let (at_uncertain, h₁) = guard-eq-ok (state_eq c.state uncertain) _ _ h in
    let (db₁, filed, h₂) = >>=-eq-ok (insert_reconciliation up r) _ h₁ in
    let t = Filed-of-insert_reconciliation up r filed in
    let d₁ : Db = record up { reconciliations = r ∷ up.reconciliations } in
    let e = event d₁ c.work_id result_saved (some attempt) c.request_digest (some result) none in
    let h₃ =
      subst
        (λ (d : Db).
          (insert_event d
              (event d c.work_id result_saved (some attempt) c.request_digest (some result) none)
            >>= λ db₂. verified db₂)
          ≡ ok p)
        t.result h₂ in
    let (db₂, inserted, h₄) = >>=-eq-ok (insert_event d₁ e) _ h₃ in
    let (_, _, h₅) = >>=-eq-ok (verify db₂) _ h₄ in
    let i = Inserted-of-insert_event d₁ e inserted in
    let version = upgraded db.user_version valid.version_ok in
    subst IsValid (sym i.result ∙ ap (λ q. q.1) (ok-injective h₅)) (
      reconcile-IsValid valid up.user_version r e c (record {
        at_least = version.0;
        version_ok = version.1;
        same_retries = rw version.2;
        fresh = t.fresh;
        before = of_newest valid w c found;
        was_uncertain = state_eq→path c.state uncertain at_uncertain;
        is_saved = refl;
        columns = i.columns;
        id = refl;
        same_id = sym (opt_eq→path c.attempt_id (some attempt) id);
        same_request = refl;
        result = refl;
        hex_receipt = t.hex_receipt;
      }))

reconcile_from-IsValid :
    (known : Option Reconciliation) (db : Db) (c : Event) (w attempt result receipt : String)
    (p : Unit {0} × Db)
    → IsValid db
    → find_event w db.events ≡ some c
    → opt_eq c.attempt_id (some attempt) ≡ true
    → reconcile_from known c attempt result receipt db ≡ ok p
    → IsValid p.1
unfolding reconcile_from
reconcile_from-IsValid none db c w attempt result receipt p valid found id h =
    reconcile_new-IsValid db c w attempt result receipt p valid found id h
reconcile_from-IsValid (some r) db c w attempt result receipt p valid found id h =
    elim (Bool-cases (r.result_digest == result && r.receipt_digest == receipt)) [
      | inl same ↦ subst IsValid (ap (λ q. q.1) (ok-injective (rw same at h))) valid
      | inr other ↦ cc (other)
    ]

pub reconcile_body-Keeps :
    (attempt result receipt : String) → Keeps (reconcile_body attempt result receipt)
unfolding reconcile_body
reconcile_body-Keeps attempt result receipt db p valid h =
    let (c, shown, h₁) = fetched (current_by_attempt db attempt db.plan) _ _ h in
    let (w, found, id) = current_by_attempt-newest db attempt db.plan c shown in
    reconcile_from-IsValid (reconciliation_of db attempt) db c w attempt result receipt p valid
      found id h₁
