-- ===== src/Ledger/History/Scan.antt =====
-- src/draftbench/ledger.py: the loop of `_verify_history`, round by round. What it accepts under
-- some tables it accepts under tables that have more rows.
use llm_draftbench.Prelude.{
  ℕ, ◌+◌, ◌≤◌, String, Bool, true, false, Option, some, List, [], ◌∷◌, ◌≡◌, sym, ap, subst, map,
  ◌==◌, ◌∙◌, arith, length, if◌then◌else◌, ok, >>=-eq-ok, guard-eq-ok, ok-injective, Bool-cases,
  Option-cases, inl, inr, and-left, and-right, le→leb, leb→le,
}
use llm_draftbench.Prelude.Text.{eq→path, same_set}
use llm_draftbench.Ledger.Types.{Db, Event, Attempt, Reconciliation, Retry, reserved, state_eq}
use llm_draftbench.Ledger.Tables.{
  find_row, find_event, attempt_of, find_reconciliation, find_retry, is_some,
}
use llm_draftbench.Ledger.History.{
  Seen, within, allowed, receipted, binds, reservable, completes, is_recovery, is_retry,
  was_uncertain, retry_rows, recovery_rows, scan_event, scan, id_list, keys, settled, retry_of,
  recovery_of, valid_retry, valid_recovery,
}

-- What the loop has gathered after a round.
abbrev pub gathered : Seen → Event → Seen
gathered s e = record {
  count = s.count + 1;
  latest = e ∷ s.latest;
  reserved = if state_eq e.state reserved then e.work_id ∷ s.reserved else s.reserved;
  recovered =
      if is_recovery (find_event e.work_id s.latest) e then id_list e s.recovered else s.recovered;
  retried = if is_retry (find_event e.work_id s.latest) e then id_list e s.retried else s.retried;
}

-- The checks of a round, passed.
pub record Accepts (db : Db) (s : Seen) (e : Event) : Type 0 where
  pub room : within db (s.count + 1) ≡ true
  pub known : is_some (find_row e.work_id db.plan) ≡ true
  pub moved : allowed (find_event e.work_id s.latest) e ≡ true
  pub receipt : receipted db (find_event e.work_id s.latest) e ≡ true
  pub bound : binds db e ≡ true
  pub ready : reservable db s (find_event e.work_id s.latest) e ≡ true
  pub result : completes (find_event e.work_id s.latest) e ≡ true

pub scan_event-of_Accepts :
    (db : Db) (s : Seen) (e : Event) → Accepts db s e → scan_event db s e ≡ ok (gathered s e)
unfolding scan_event
scan_event-of_Accepts db s e a =
    rw (a.room, a.known) (rw a.moved (rw a.receipt (rw a.bound (rw a.ready (rw a.result)))))

module _ (db : Db) (s : Seen) (e : Event) {t : Seen} where
  pub Accepts-of-scan_event : scan_event db s e ≡ ok t → Accepts db s e × (t ≡ gathered s e)
  unfolding scan_event
  Accepts-of-scan_event h =
      let (p, h₁) = guard-eq-ok _ _ _ h in
      let (m, h₂) = guard-eq-ok _ _ _ h₁ in
      let (r, h₃) = guard-eq-ok _ _ _ h₂ in
      let (b, h₄) = guard-eq-ok _ _ _ h₃ in
      let (y, h₅) = guard-eq-ok _ _ _ h₄ in
      let (c, h₆) = guard-eq-ok _ _ _ h₅ in
      (
        record {
          room = and-left _ _ p;
          known = and-right _ _ p;
          moved = m;
          receipt = r;
          bound = b;
          ready = y;
          result = c;
        },
        sym (ok-injective h₆),
      )

two_tests :
    (a u : Bool) {x x' y y' : Bool}
    → (x ≡ true → x' ≡ true)
    → (y ≡ true → y' ≡ true)
    → (if a then x else if u then y else true) ≡ true
    → (if a then x' else if u then y' else true) ≡ true
two_tests true u f g h = f h
two_tests false true f g h = g h
two_tests false false f g h = h

-- The tables of `db` with another version, more rows, and one more event.
module _ (db : Db) (v : ℕ) (attempts : List Attempt) (rows : List Reconciliation)
    (retries : List Retry) (events : List Event) where
  abbrev pub grown : Db
  grown = record db {
    user_version = v;
    attempts = attempts;
    reconciliations = rows;
    retries = retries;
    events = events;
  }

  -- What is found is still found.
  pub record Extends : Type 0 where
    pub attempt :
        (w : String) (a : Attempt)
        → attempt_of w db.attempts ≡ some a
        → attempt_of w attempts ≡ some a
    pub recovery :
        (i : String) (r : Reconciliation)
        → find_reconciliation i (recovery_rows db) ≡ some r
        → find_reconciliation i (recovery_rows grown) ≡ some r
    pub retry :
        (i : String) (r : Retry)
        → find_retry i (retry_rows db) ≡ some r
        → find_retry i (retry_rows grown) ≡ some r
    pub longer : length (retry_rows db) ≤ length (retry_rows grown)

  module _ (x : Extends) where
    within-grown : (n : ℕ) → within db n ≡ true → within grown n ≡ true
    within-grown n h = le→leb _ _ (omega (arith, leb→le _ _ h, x.longer))

    binds-grown : (e : Event) → binds db e ≡ true → binds grown e ≡ true
    binds-grown e h = grind (arith, x.attempt)

    retry_of-grown : (e : Event) (r : Retry) → retry_of db e ≡ some r → retry_of grown e ≡ some r
    retry_of-grown e r h = grind (arith, x.retry)

    recovery_of-grown :
        (e : Event) (r : Reconciliation) → recovery_of db e ≡ some r → recovery_of grown e ≡ some r
    recovery_of-grown e r h = grind (arith, x.recovery)

    valid_retry-grown :
        (p : Option Event) (e : Event)
        → valid_retry p (retry_of db e) ≡ true
        → valid_retry p (retry_of grown e) ≡ true
    valid_retry-grown p e h = elim (Option-cases (retry_of db e)) [
      | inl gone ↦ cc (ap (valid_retry p) gone)
      | inr (r, found) ↦ ap (valid_retry p) (retry_of-grown e r found ∙ sym found) ∙ h
    ]

    valid_recovery-grown :
        (e : Event)
        → valid_recovery e (recovery_of db e) ≡ true
        → valid_recovery e (recovery_of grown e) ≡ true
    valid_recovery-grown e h = elim (Option-cases (recovery_of db e)) [
      | inl gone ↦ cc (ap (valid_recovery e) gone)
      | inr (r, found) ↦ ap (valid_recovery e) (recovery_of-grown e r found ∙ sym found) ∙ h
    ]

    receipted-grown :
        (p : Option Event) (e : Event) → receipted db p e ≡ true → receipted grown p e ≡ true
    receipted-grown p e =
        two_tests (is_retry p e) (was_uncertain p) (valid_retry-grown p e) (valid_recovery-grown e)

    scan_event-grown :
        (s : Seen) (e : Event) {t : Seen} → scan_event db s e ≡ ok t → scan_event grown s e ≡ ok t
    scan_event-grown s e h =
        let (a, same) = Accepts-of-scan_event db s e h in
        scan_event-of_Accepts grown s e (record {
          room = within-grown (s.count + 1) a.room;
          known = a.known;
          moved = a.moved;
          receipt = receipted-grown (find_event e.work_id s.latest) e a.receipt;
          bound = binds-grown e a.bound;
          ready = a.ready;
          result = a.result;
        })
        ∙ ap ok (sym same)

    -- The loop accepts under the larger tables what it accepted, with the same result.
    pub scan-grown : (es : List Event) {s : Seen} → scan db es ≡ ok s → scan grown es ≡ ok s
    unfolding scan
    scan-grown [] h = h
    scan-grown (e ∷ es) h =
        let (t, before, now) = >>=-eq-ok (scan db es) (λ s. scan_event db s e) h in
        rw (scan-grown es before) (scan_event-grown t e now)

-- `latest` and `count` after the loop: the events themselves, newest first.
pub scan-latest :
    (db : Db) (es : List Event) {s : Seen}
    → scan db es ≡ ok s
    → (s.latest ≡ es) × (s.count ≡ length es)
unfolding scan
scan-latest db [] h = (ap Seen.latest (sym (ok-injective h)), ap Seen.count (sym (ok-injective h)))
scan-latest db (e ∷ es) h =
    let (t, before, now) = >>=-eq-ok (scan db es) (λ s. scan_event db s e) h in
    let (a, same) = Accepts-of-scan_event db t e now in
    let (l, c) = scan-latest db es before in
    (ap Seen.latest same ∙ ap (λ x. e ∷ x) l, ap Seen.count same ∙ omega (arith, c))

-- The newest event of a work item passed its checks.
pub scan-newest :
    (db : Db) (es : List Event) (w : String) (c : Event) {s : Seen}
    → scan db es ≡ ok s
    → find_event w es ≡ some c
    → (binds db c ≡ true) × (is_some (find_row w db.plan) ≡ true) × (c.work_id ≡ w)
unfolding scan
scan-newest db [] w c h found = cc
scan-newest db (e ∷ es) w c h found =
    let (t, before, now) = >>=-eq-ok (scan db es) (λ s. scan_event db s e) h in
    let (a, same) = Accepts-of-scan_event db t e now in
    elim (Bool-cases (e.work_id == w)) [
      | inl here ↦
          let only : ◌≡◌ {A = Option Event} (some e) (some c) = rw here at found in
          let q : e ≡ c = cc in
          let named = eq→path e.work_id w here in
          (
            subst (λ z. binds db z ≡ true) q a.bound,
            subst (λ z. is_some (find_row z db.plan) ≡ true) named a.known,
            sym (ap Event.work_id q) ∙ named,
          )
      | inr later ↦ scan-newest db es w c before (rw later at found)
    ]

-- The tests after the loops, passed.
pub record Settled (db : Db) (s : Seen) : Type 0 where
  pub retried_all : same_set s.retried (map (λ r. r.attempt_id) (retry_rows db)) ≡ true
  pub recovered_all : same_set s.recovered (map (λ r. r.attempt_id) (recovery_rows db)) ≡ true
  pub planned_all : same_set (keys s.latest) (map (λ r. r.work_id) db.plan) ≡ true
  pub reserved_all : same_set (map (λ a. a.work_id) db.attempts) s.reserved ≡ true

pub settled-of_Settled : (db : Db) (s : Seen) → Settled db s → settled db s ≡ true
settled-of_Settled db s t = rw (t.retried_all, t.recovered_all, t.planned_all, t.reserved_all)
