-- ===== src/Ledger/Preservation/Reserve.antt =====
-- src/draftbench/ledger.py: `reserve` keeps the invariant.
use llm_draftbench.Prelude.{
  ◌+◌, String, true, false, Option, none, some, List, [], ◌∷◌, ◌==◌, ◌≡◌, refl, sym, ap, subst, ◌∙◌,
  arith, map, not, length, Result, ok, ◌>>=◌, guard-eq-ok, >>=-eq-ok, ok-injective, and-left,
  and-right, not-true, Bool-cases, inl, inr, eq_iff,
}
use llm_draftbench.Prelude.Text.{
  member, same_set, same_set-cons, same_set-member, eq_self, all_mono,
}
use llm_draftbench.Ledger.Types.{
  LedgerError, planned, reserved, uncertain, state_eq, state_eq→path, Event, Attempt, Db,
}
use llm_draftbench.Ledger.Ident.{is_digest, is_attempt}
use llm_draftbench.Ledger.Tables.{
  find_row, find_event, find_attempt, attempt_of, is_some, is_completed, current, dependencies_of,
  dependencies_done, fetched,
}
use llm_draftbench.Ledger.Schema.{
  insert_event, insert_attempt, attempts_guard, attempts_check, WellFormed,
}
use llm_draftbench.Ledger.History.{scan_attempts, moves}
use llm_draftbench.Ledger.History.Scan.{gathered, grown, Settled}
use llm_draftbench.Ledger.Policy.{Policy, admitted}
use llm_draftbench.Ledger.Operations.{event, unresolved, reserve_body}
use llm_draftbench.Ledger.Invariant.{IsValid, rank, done, holds}
use llm_draftbench.Ledger.Invariant.Grow.{Growth, grown-IsValid, newest-before, newest-facts}
use llm_draftbench.Ledger.Invariant.Kept.{scan_attempts-grown, keys-settled}
use llm_draftbench.Ledger.Preservation.{Inserted-of-insert_event, current-newest}
use llm_draftbench.Ledger.Preservation.Methods.{Keeps}

planned_reserved : moves planned reserved ≡ true
unfolding moves
planned_reserved = refl

current-completed :
    (db : Db) (d : String) → is_completed (current db d) ≡ true → done db.events d ≡ true
current-completed db d h = ground arith

attempt_of-member :
    (w : String) (list : List Attempt)
    → is_some (attempt_of w list) ≡ false
    → member w (map (λ a. a.work_id) list) ≡ false
attempt_of-member w [] h = refl
attempt_of-member w (a ∷ list) h = ground (arith, attempt_of-member w list)

-- What the trigger and the constraints say of a row that was added to `attempts`.
pub record Added (db : Db) (a : Attempt) (after : Db) : Type 0 where
  pub fresh_id : is_some (find_attempt a.attempt_id db.attempts) ≡ false
  pub fresh_work : is_some (attempt_of a.work_id db.attempts) ≡ false
  pub resolved : dependencies_done db a.work_id ≡ true
  pub hex_id : is_attempt a.attempt_id ≡ true
  pub hex_request : is_digest a.request_digest ≡ true
  pub planned_work : is_some (find_row a.work_id db.plan) ≡ true
  pub result : after ≡ record db { attempts = a ∷ db.attempts }

pub Added-of-insert_attempt :
    (db : Db) (a : Attempt) {after : Db} → insert_attempt db a ≡ ok after → Added db a after
unfolding insert_attempt
Added-of-insert_attempt db a h =
    let (guarded, h₁) = guard-eq-ok (attempts_guard db a) _ _ h in
    let (checks, h₂) = guard-eq-ok (attempts_check db a) _ _ h₁ in
    let two = and-left _ _ guarded in
    let keys = and-left _ _ two in
    record {
      fresh_id = not-true _ (and-left _ _ keys);
      fresh_work = not-true _ (and-right _ _ keys);
      resolved = and-right _ _ guarded;
      hex_id = and-left _ _ (and-left _ _ checks);
      hex_request = and-right _ _ (and-left _ _ checks);
      planned_work = and-right _ _ checks;
      result = sym (ok-injective h₂);
    }

module _ {db : Db} (valid : IsValid db) (a : Attempt) (e c : Event) where
  -- The event that reserves the work item of `a`.
  record Reserves : Type 0 where
    before : find_event e.work_id db.events ≡ some c
    was_planned : c.state ≡ planned
    is_reserved : e.state ≡ reserved
    columns : WellFormed e
    work : a.work_id ≡ e.work_id
    id : e.attempt_id ≡ some a.attempt_id
    request : e.request_digest ≡ some a.request_digest
    fresh_id : is_some (find_attempt a.attempt_id db.attempts) ≡ false
    fresh_work : is_some (attempt_of e.work_id db.attempts) ≡ false
    resolved : dependencies_done db e.work_id ≡ true
    hex_id : is_attempt a.attempt_id ≡ true
    hex_request : is_digest a.request_digest ≡ true

  module _ (r : Reserves) where
    calm : state_eq c.state uncertain ≡ false
    calm = ap (λ s. state_eq s uncertain) r.was_planned

    reserving : state_eq e.state reserved ≡ true
    reserving = ap (λ s. state_eq s reserved) r.is_reserved

    here : (a.work_id == e.work_id) ≡ true
    here = rw r.work (eq_self e.work_id)

    not_yet : member e.work_id valid.seen.reserved ≡ false
    not_yet = elim (Bool-cases (member e.work_id valid.seen.reserved)) [
      | inl twice ↦ cc (
        attempt_of-member e.work_id db.attempts r.fresh_work,
        same_set-member e.work_id (map (λ b. b.work_id) db.attempts) valid.seen.reserved
            valid.all_settled.reserved_all twice,
      )
      | inr once ↦ once
    ]

    attempts_reserved :
        scan_attempts
          (grown db db.user_version (a ∷ db.attempts) db.reconciliations db.retries (e ∷ db.events))
          (a ∷ db.attempts)
        ≡ ok tt
    unfolding scan_attempts
    attempts_reserved =
        rw
          (
            scan_attempts-grown db db.user_version (a ∷ db.attempts) db.reconciliations db.retries
                (e ∷ db.events) db.attempts,
            valid.attempts_ok,
            r.work,
            (newest-facts valid e.work_id c r.before).1,
            r.fresh_work,
          )
          (rw (r.hex_id, r.hex_request))

    joined :
        same_set (a.work_id ∷ map (λ b. b.work_id) db.attempts) (e.work_id ∷ valid.seen.reserved)
        ≡ true
    joined =
        let works = map (λ (b : Attempt). b.work_id) db.attempts in
        subst (λ w. same_set (w ∷ works) (e.work_id ∷ valid.seen.reserved) ≡ true) (sym r.work)
          (same_set-cons e.work_id works valid.seen.reserved valid.all_settled.reserved_all)

    gained : (gathered valid.seen e).reserved ≡ e.work_id ∷ valid.seen.reserved
    gained = rw reserving

    Settled-reserved :
        Settled
          (grown db db.user_version (a ∷ db.attempts) db.reconciliations db.retries (e ∷ db.events))
          (gathered valid.seen e)
    Settled-reserved =
        let prev = newest-before valid e.work_id c r.before in
        record {
          retried_all = rw (prev, calm) valid.all_settled.retried_all;
          recovered_all = rw (prev, calm) valid.all_settled.recovered_all;
          planned_all = keys-settled valid e c r.before;
          reserved_all =
              subst (λ l. same_set (a.work_id ∷ map (λ b. b.work_id) db.attempts) l ≡ true)
                (sym gained) joined;
        }

    held_reserved :
        (w : String) (b : Attempt)
        → attempt_of w (a ∷ db.attempts) ≡ some b
        → holds (find_event w (e ∷ db.events)) b.attempt_id ≡ true
    held_reserved w b found = elim (Bool-cases (e.work_id == w)) [
      | inl same ↦ ground (arith, eq_self a.attempt_id, r.id, r.work)
      | inr other ↦ rw other (valid.held w b (rw (r.work, other) at found))
    ]

    found_reserved :
        (w : String) (b : Attempt)
        → attempt_of w (a ∷ db.attempts) ≡ some b
        → find_attempt b.attempt_id (a ∷ db.attempts) ≡ some b
    found_reserved w b h = elim (Bool-cases (a.work_id == w)) [
      | inl same ↦ ground (arith, eq_self a.attempt_id)
      | inr other ↦
          let old = valid.found w b (rw other at h) in
          ground (arith, r.fresh_id, eq_iff a.attempt_id b.attempt_id, old)
    ]

    reserve-Growth :
        Growth valid db.user_version (a ∷ db.attempts) db.reconciliations db.retries e c
    reserve-Growth = record {
      extends = record {
        attempt = λ w b h. elim (Bool-cases (a.work_id == w)) [
          | inl named ↦ ground (arith, r.fresh_work, r.work, eq_iff a.work_id w)
          | inr other ↦ rw other h
        ];
        recovery = λ i r h. h;
        retry = λ i r h. h;
        longer = omega arith;
      };
      before = r.before;
      moved =
          subst (λ s. moves s e.state ≡ true) (sym r.was_planned)
            (subst (λ s. moves planned s ≡ true) (sym r.is_reserved) planned_reserved);
      columns = r.columns;
      version_ok = valid.version_ok;
      attempts_ok = attempts_reserved;
      receipt = rw calm;
      bound = ground (arith, eq_self a.attempt_id, eq_self a.request_digest, here);
      first = λ _. rw not_yet;
      prepared = λ _.
          all_mono (λ d. is_completed (current db d)) (done db.events)
            (dependencies_of db e.work_id) (λ d h. current-completed db d h) r.resolved;
      result = rw r.is_reserved;
      all_settled = Settled-reserved;
      recovery_table = valid.recovery_table;
      retry_table = valid.retry_table;
      spent = omega (arith, ap rank r.was_planned, ap rank r.is_reserved);
      held = held_reserved;
      found = found_reserved;
    }

abbrev reserved_as : String → Db → Result LedgerError (String × Db)
reserved_as uuid db = ok (uuid, db)

pub reserve_body-Keeps :
    (policy : Option Policy) (uuid work request : String)
    → Keeps (reserve_body policy uuid work request)
unfolding reserve_body
reserve_body-Keeps policy uuid work request db r valid h =
    let (c, now, h₁) = fetched (current db work) _ _ h in
    let (at_planned, h₂) = guard-eq-ok (state_eq c.state planned) _ _ h₁ in
    let (_, h₃) = guard-eq-ok (not (unresolved db work)) _ _ h₂ in
    let (_, _, h₄) = >>=-eq-ok (admitted policy (length db.attempts + 1)) _ h₃ in
    let a : Attempt = record { attempt_id = uuid; work_id = work; request_digest = request } in
    let (db₁, added, h₅) = >>=-eq-ok (insert_attempt db a) _ h₄ in
    let t = Added-of-insert_attempt db a added in
    let d₁ : Db = record db { attempts = a ∷ db.attempts } in
    let e = event d₁ work reserved (some uuid) (some request) none none in
    let h₆ =
      subst
        (λ (d : Db).
          (insert_event d (event d work reserved (some uuid) (some request) none none) >>= λ db₂.
          reserved_as uuid db₂)
          ≡ ok r)
        t.result h₅ in
    let (db₂, inserted, h₇) = >>=-eq-ok (insert_event d₁ e) _ h₆ in
    let i = Inserted-of-insert_event d₁ e inserted in
    subst IsValid (sym i.result ∙ ap (λ p. p.1) (ok-injective h₇)) (
      grown-IsValid valid _ _ _ _ e c (
        reserve-Growth valid a e c (record {
          before = current-newest db work c now;
          was_planned = state_eq→path c.state planned at_planned;
          is_reserved = refl;
          columns = i.columns;
          work = refl;
          id = refl;
          request = refl;
          fresh_id = t.fresh_id;
          fresh_work = t.fresh_work;
          resolved = t.resolved;
          hex_id = t.hex_id;
          hex_request = t.hex_request;
        })))
