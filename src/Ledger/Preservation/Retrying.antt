-- ===== src/Ledger/Preservation/Retrying.antt =====
-- src/draftbench/ledger.py: `authorize_unsent_retry` keeps the invariant.
use llm_draftbench.Prelude.{
  ℕ, String, true, false, none, some, List, [], ◌∷◌, ◌&&◌, ◌≡◌, refl, sym, ap, subst, ◌∙◌, arith,
  map, not, length, nat_eq_refl, Result, ok, ◌>>=◌, guard-eq-ok, >>=-eq-ok, ok-injective, and-left,
  and-right, not-true, Option-cases, inl, inr,
}
use llm_draftbench.Prelude.Text.{
  opt_eq→path, member, same_set, same_set-cons, same_set-cons_right, eq_self,
}
use llm_draftbench.Ledger.Types.{
  LedgerError, reserved, uncertain, state_eq, state_eq→path, Event, Attempt, Retry, Db,
}
use llm_draftbench.Ledger.Ident.{is_digest}
use llm_draftbench.Ledger.Tables.{
  find_event, attempt_of, find_retry, is_some, current_by_attempt, fetched,
}
use llm_draftbench.Ledger.Schema.{insert_event, insert_retry, WellFormed, is_latest_uncertain}
use llm_draftbench.Ledger.History.{binds, moves, verify, valid_retry, retry_of}
use llm_draftbench.Ledger.History.Scan.{gathered, grown, Settled}
use llm_draftbench.Ledger.Operations.{
  event, with_retries, retry_used, newest_event_id, authorize_body,
}
use llm_draftbench.Ledger.Invariant.{IsValid, rank}
use llm_draftbench.Ledger.Invariant.Grow.{Growth, grown-IsValid, newest-before, newest-facts}
use llm_draftbench.Ledger.Invariant.Kept.{scan_attempts-grown, keys-settled, held-same, binds-same}
use llm_draftbench.Ledger.Preservation.{Inserted-of-insert_event}
use llm_draftbench.Ledger.Preservation.Methods.{Keeps, of_newest}
use llm_draftbench.Ledger.Preservation.Receipts.{
  uncertain_moves, current_by_attempt-newest, find_retry-cons, upgraded_3,
}

attempt_of-some :
    (w : String) (list : List Attempt) (a : Attempt)
    → attempt_of w list ≡ some a
    → member w (map (λ b. b.work_id) list) ≡ true
attempt_of-some w [] a h = cc
attempt_of-some w (b ∷ list) a h = ground (arith, attempt_of-some w list a)

-- A work item whose newest event names an attempt has one.
binds-member :
    (db : Db) (c : Event) (i : String)
    → c.attempt_id ≡ some i
    → binds db c ≡ true
    → member c.work_id (map (λ b. b.work_id) db.attempts) ≡ true
binds-member db c i id h = elim (Option-cases (attempt_of c.work_id db.attempts)) [
  | inl gone ↦ ground arith
  | inr (a, found) ↦ attempt_of-some c.work_id db.attempts a found
]

module _ {db : Db} (valid : IsValid db) (r : Retry) (e c : Event) where
  abbrev retrying : Db
  retrying = grown db 3 db.attempts db.reconciliations (r ∷ db.retries) (e ∷ db.events)

  -- The event that a retry appends.
  pub record Retries : Type 0 where
    pub fresh : is_some (find_retry r.attempt_id db.retries) ≡ false
    pub before : find_event e.work_id db.events ≡ some c
    pub was_uncertain : c.state ≡ uncertain
    pub is_reserved : e.state ≡ reserved
    pub columns : WellFormed e
    pub id : e.attempt_id ≡ some r.attempt_id
    pub same_id : e.attempt_id ≡ c.attempt_id
    pub same_request : e.request_digest ≡ c.request_digest
    pub last : r.uncertain_event_id ≡ c.event_id
    pub hex_receipt : is_digest r.receipt_digest ≡ true
    pub hex_evidence : is_digest r.evidence_digest ≡ true

  module _ (t : Retries) where
    named : e.work_id ≡ c.work_id
    named = sym (newest-facts valid e.work_id c t.before).2

    bound_before : binds db c ≡ true
    bound_before = (newest-facts valid e.work_id c t.before).0

    unsure : state_eq c.state uncertain ≡ true
    unsure = ap (λ s. state_eq s uncertain) t.was_uncertain

    again : state_eq e.state reserved ≡ true
    again = ap (λ s. state_eq s reserved) t.is_reserved

    one_retried : (gathered valid.seen e).retried ≡ r.attempt_id ∷ valid.seen.retried
    one_retried = rw (newest-before valid e.work_id c t.before, unsure, again, t.id)

    same_recovered : (gathered valid.seen e).recovered ≡ valid.seen.recovered
    same_recovered = rw (newest-before valid e.work_id c t.before, unsure, again)

    one_reserved : (gathered valid.seen e).reserved ≡ e.work_id ∷ valid.seen.reserved
    one_reserved = rw again

    has_attempt : member e.work_id (map (λ a. a.work_id) db.attempts) ≡ true
    has_attempt =
        subst (λ w. member w (map (λ a. a.work_id) db.attempts) ≡ true) (sym named)
          (binds-member db c r.attempt_id (sym t.same_id ∙ t.id) bound_before)

    ids : same_set valid.seen.retried (map (λ q. q.attempt_id) db.retries) ≡ true
    ids = rw valid.retry_table at valid.all_settled.retried_all

    recovered_ids :
        same_set valid.seen.recovered (map (λ q. q.attempt_id) db.reconciliations) ≡ true
    recovered_ids = rw valid.recovery_table at valid.all_settled.recovered_all

    receipt_found : retry_of retrying e ≡ some r
    receipt_found = rw (t.id, eq_self r.attempt_id)

    receipt_good : valid_retry (some c) (some r) ≡ true
    receipt_good = rw (t.last, nat_eq_refl c.event_id, t.hex_receipt, t.hex_evidence)

    Settled-retrying : Settled retrying (gathered valid.seen e)
    Settled-retrying = record {
      retried_all =
          subst (λ l. same_set l (map (λ q. q.attempt_id) (r ∷ db.retries)) ≡ true)
            (sym one_retried) (same_set-cons r.attempt_id _ _ ids);
      recovered_all =
          subst (λ l. same_set l (map (λ q. q.attempt_id) db.reconciliations) ≡ true)
            (sym same_recovered) recovered_ids;
      planned_all = keys-settled valid e c t.before;
      reserved_all =
          subst (λ l. same_set (map (λ a. a.work_id) db.attempts) l ≡ true) (sym one_reserved)
            (same_set-cons_right e.work_id _ _ has_attempt valid.all_settled.reserved_all);
    }

    retry-Growth : Growth valid 3 db.attempts db.reconciliations (r ∷ db.retries) e c
    retry-Growth = record {
      extends = record {
        attempt = λ w a h. h;
        recovery = λ i q h. rw valid.recovery_table at h;
        retry = λ i q h. find_retry-cons r db.retries i q t.fresh (rw valid.retry_table at h);
        longer = omega (arith, ap length valid.retry_table);
      };
      before = t.before;
      moved =
          subst (λ s. moves s e.state ≡ true) (sym t.was_uncertain)
            (subst (λ s. moves uncertain s ≡ true) (sym t.is_reserved) uncertain_moves.1);
      columns = t.columns;
      version_ok = refl;
      attempts_ok = scan_attempts-grown db _ _ _ _ _ db.attempts ∙ valid.attempts_ok;
      receipt = rw (unsure, again) (ap (valid_retry (some c)) receipt_found ∙ receipt_good);
      bound = binds-same db e c named t.same_id t.same_request bound_before;
      first = λ is_reserved. ground (arith, unsure, again);
      prepared = λ h. valid.ready e.work_id c t.before (rw t.same_id at h);
      result = rw t.is_reserved;
      all_settled = Settled-retrying;
      recovery_table = refl;
      retry_table = refl;
      spent = omega (arith, ap rank t.was_uncertain, ap rank t.is_reserved);
      held = held-same valid e c t.before t.same_id;
      found = valid.found;
    }

  pub retry-IsValid : Retries → IsValid retrying
  retry-IsValid t = grown-IsValid valid _ _ _ _ e c (retry-Growth t)

-- What the trigger and the constraints say of a row that was added to `dispatch_retries`.
pub record Granted (db : Db) (r : Retry) (after : Db) : Type 0 where
  pub fresh : is_some (find_retry r.attempt_id db.retries) ≡ false
  pub hex_receipt : is_digest r.receipt_digest ≡ true
  pub hex_evidence : is_digest r.evidence_digest ≡ true
  pub result : after ≡ record db { retries = r ∷ db.retries }

pub Granted-of-insert_retry :
    (db : Db) (r : Retry) {after : Db} → insert_retry db r ≡ ok after → Granted db r after
unfolding insert_retry
Granted-of-insert_retry db r h =
    let (guarded, h₁) =
      guard-eq-ok
        (not (is_some (find_retry r.attempt_id db.retries))
          && is_latest_uncertain (current_by_attempt db r.attempt_id db.plan) r.uncertain_event_id)
        _ _ h in
    let (checks, h₂) = guard-eq-ok _ _ _ h₁ in
    let hex = and-left _ _ (and-left _ _ checks) in
    record {
      fresh = not-true _ (and-left _ _ guarded);
      hex_receipt = and-left _ _ hex;
      hex_evidence = and-right _ _ hex;
      result = sym (ok-injective h₂);
    }

abbrev granted : Db → Result LedgerError (ℕ × Db)
granted db = verify db >>= λ _. ok (1, db)

pub authorize_body-Keeps :
    (attempt receipt evidence : String) → Keeps (authorize_body attempt receipt evidence)
unfolding authorize_body
authorize_body-Keeps attempt receipt evidence db p valid h =
    let (c, shown, h₁) = fetched (current_by_attempt db attempt db.plan) _ _ h in
    let (w, found, id) = current_by_attempt-newest db attempt db.plan c shown in
    let (at_uncertain, h₂) = guard-eq-ok (state_eq c.state uncertain) _ _ h₁ in
    let (_, h₃) = guard-eq-ok (not (retry_used db attempt)) _ _ h₂ in
    let newest = of_newest valid w c found in
    let r : Retry = record {
      attempt_id = attempt;
      uncertain_event_id = newest_event_id (find_event c.work_id db.events);
      receipt_digest = receipt;
      evidence_digest = evidence;
    } in
    let up : Db = with_retries db in
    let (db₁, added, h₄) = >>=-eq-ok (insert_retry up r) _ h₃ in
    let t = Granted-of-insert_retry up r added in
    let d₁ : Db = record up { retries = r ∷ up.retries } in
    let e = event d₁ c.work_id reserved (some attempt) c.request_digest none none in
    let h₅ =
      subst
        (λ (d : Db).
          (insert_event d (event d c.work_id reserved (some attempt) c.request_digest none none)
            >>= λ db₂. granted db₂)
          ≡ ok p)
        t.result h₄ in
    let (db₂, inserted, h₆) = >>=-eq-ok (insert_event d₁ e) _ h₅ in
    let (_, _, h₇) = >>=-eq-ok (verify db₂) _ h₆ in
    let i = Inserted-of-insert_event d₁ e inserted in
    let at_3 = upgraded_3 db.user_version valid.version_ok in
    let grown_3 = retry-IsValid valid r e c (record {
      fresh = t.fresh;
      before = newest;
      was_uncertain = state_eq→path c.state uncertain at_uncertain;
      is_reserved = refl;
      columns = i.columns;
      id = refl;
      same_id = sym (opt_eq→path c.attempt_id (some attempt) id);
      same_request = refl;
      last = ap newest_event_id newest;
      hex_receipt = t.hex_receipt;
      hex_evidence = t.hex_evidence;
    }) in
    subst IsValid (sym i.result ∙ ap (λ q. q.1) (ok-injective h₇)) (
      subst
        (λ v. IsValid (grown db v db.attempts db.reconciliations (r ∷ db.retries) (e ∷ db.events)))
        (sym at_3) grown_3)
