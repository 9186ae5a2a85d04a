-- ===== src/Ledger/Preservation/Progress.antt =====
-- src/draftbench/ledger.py: from a valid database the triggers and constraints let every move
-- through that the methods ask for.
use llm_draftbench.Prelude.{
  String, Bool, true, false, Option, none, some, List, [], ◌∷◌, ◌&&◌, ◌==◌, ◌≡◌, refl, sym, ap,
  subst, ◌∙◌, arith, not, ok, err, guard-eq-ok, guard-true, >>=-eq-ok, Bool-cases, Option-cases,
  inl, inr, and-left, and-right, and-intro, if◌then◌else◌, eq_iff,
}
use llm_draftbench.Prelude.Text.{opt_eq, opt_eq→path, path→opt_eq, member}
use llm_draftbench.Ledger.Types.{
  invalid_transition, State, reserved, in_flight, result_saved, completed, failed, limited,
  state_eq, state_eq→path, Event, Attempt, Db, failure_codes,
}
use llm_draftbench.Ledger.Ident.{is_digest, is_attempt}
use llm_draftbench.Ledger.Tables.{find_row, find_event, find_attempt, attempt_of, is_some, current}
use llm_draftbench.Ledger.Schema.{
  insert_event, events_guard, move_from, guarded_move, state_columns, WellFormed, null_or_hex,
  same_attempt, keyed,
}
use llm_draftbench.Ledger.History.{scan_attempts, binds}
use llm_draftbench.Ledger.Operations.{event, transition_body}
use llm_draftbench.Ledger.Invariant.{IsValid}
use llm_draftbench.Ledger.Invariant.Grow.{newest-facts}

-- The digests in the table of attempts are digests.
attempt_of-hex :
    (db : Db) (w : String) (list : List Attempt) (a : Attempt)
    → scan_attempts db list ≡ ok tt
    → attempt_of w list ≡ some a
    → (is_attempt a.attempt_id && is_digest a.request_digest) ≡ true
unfolding scan_attempts
attempt_of-hex db w [] a h found = cc
attempt_of-hex db w (b ∷ list) a h found =
    let (u, older, h₁) = >>=-eq-ok (scan_attempts db list) _ h in
    let (_, h₂) =
      guard-eq-ok
        (is_some (find_row b.work_id db.plan) && not (is_some (attempt_of b.work_id list))) _ _
        h₁ in
    elim (Bool-cases (b.work_id == w)) [
      | inl here ↦
          let only : ◌≡◌ {A = Option Attempt} (some b) (some a) = rw here at found in
          let same : b ≡ a = cc in
          subst (λ (z : Attempt). (is_attempt z.attempt_id && is_digest z.request_digest) ≡ true)
            same (guard-true (is_attempt b.attempt_id && is_digest b.request_digest) _ h₂)
      | inr later ↦ attempt_of-hex db w list a older (rw later at found)
    ]

-- What a work item's newest event says of its attempt, once it has one.
pub record Owned (db : Db) (w : String) (c : Event) (i : String) : Type 0 where
  pub attempt : Attempt
  pub row : find_attempt i db.attempts ≡ some attempt
  pub work : attempt.work_id ≡ w
  pub request : c.request_digest ≡ some attempt.request_digest
  pub hex : is_digest attempt.request_digest ≡ true
  pub hex_id : is_attempt i ≡ true
  pub shown : current db w ≡ some c
  pub named : c.work_id ≡ w

attempt_of-work :
    (w : String) (list : List Attempt) (a : Attempt) → attempt_of w list ≡ some a → a.work_id ≡ w
attempt_of-work w [] a h = cc
attempt_of-work w (b ∷ list) a h = ground (arith, eq_iff b.work_id w, attempt_of-work w list a)

shown_row :
    (db : Db) (w : String)
    → is_some (find_row w db.plan) ≡ true
    → current db w ≡ find_event w db.events
shown_row db w h = ground arith

-- The attempt that an event names is the one of its work item.
bound_attempt :
    (db : Db) (c : Event) (i : String)
    → c.attempt_id ≡ some i
    → binds db c ≡ true
    → (a : Attempt) × (attempt_of c.work_id db.attempts ≡ some a)
      × (a.attempt_id ≡ i)
      × (c.request_digest ≡ some a.request_digest)
bound_attempt db c i id h = elim (Option-cases (attempt_of c.work_id db.attempts)) [
  | inl gone ↦ absurd (ground arith)
  | inr (a, found) ↦ (
    a,
    found,
    ground (arith, eq_iff a.attempt_id i),
    ground (arith, opt_eq→path (some a.request_digest) c.request_digest),
  )
]

pub Owned-newest :
    {db : Db} (valid : IsValid db) (w : String) (c : Event) (i : String)
    → find_event w db.events ≡ some c
    → c.attempt_id ≡ some i
    → Owned db w c i
Owned-newest {db} valid w c i newest id =
    let (bound, known, named) = newest-facts valid w c newest in
    let (a, found, same, request) = bound_attempt db c i id bound in
    let hex = attempt_of-hex db c.work_id db.attempts a valid.attempts_ok found in
    record {
      attempt = a;
      row = subst (λ z. find_attempt z db.attempts ≡ some a) same (valid.found c.work_id a found);
      work = attempt_of-work c.work_id db.attempts a found ∙ named;
      request = request;
      hex = and-right _ _ hex;
      hex_id = subst (λ z. is_attempt z ≡ true) same (and-left _ _ hex);
      shown = shown_row db w known ∙ newest;
      named = named;
    }

-- An insert that the trigger and the table constraint allow, of an event with the attempt of the
-- one before it, succeeds.
pub insert_event-ok :
    {db : Db} (valid : IsValid db) (w : String) (c : Event) (i : String) (e : Event)
    → Owned db w c i
    → e.work_id ≡ w
    → e.attempt_id ≡ some i
    → e.request_digest ≡ c.request_digest
    → guarded_move db c c.state e.state e ≡ true
    → state_columns e.state e ≡ true
    → null_or_hex e.result_digest ≡ true
    → is_some (find_row w db.plan) ≡ true
    → insert_event db e ≡ ok (record db { events = e ∷ db.events })
unfolding insert_event
insert_event-ok {db} valid w c i e o work id request move columns result known =
    let shown : current db e.work_id ≡ some c =
      subst (λ z. current db z ≡ some c) (sym work) o.shown in
    let allowed : events_guard db e ≡ true = ap (λ x. move_from db x e) shown ∙ move in
    let hex : null_or_hex e.request_digest ≡ true = ap null_or_hex (request ∙ o.request) ∙ o.hex in
    let row : is_some (find_row e.work_id db.plan) ≡ true =
      subst (λ z. is_some (find_row z db.plan) ≡ true) (sym work) known in
    let key : keyed db e.attempt_id ≡ true = ap (keyed db) id ∙ ap is_some o.row in
    rw allowed (rw (columns, hex, result, row, key))

-- The event that `_transition` appends.
abbrev pub moved : Db → Event → (attempt : String) → State → (result code : Option String) → Event
moved db c attempt target result code =
    event db c.work_id target (some attempt) c.request_digest
      (if state_eq target completed then c.result_digest else result) code

saved_result :
    (s : State) (c : Event)
    → state_eq s result_saved ≡ true
    → state_columns s c ≡ true
    → is_some c.result_digest ≡ true
saved_result result_saved c h k = and-right _ _ (and-left _ _ k)
saved_result _ c h k = cc

module _ {db : Db} (valid : IsValid db) (w : String) (c : Event) (i : String)
    (newest : find_event w db.events ≡ some c) (id : c.attempt_id ≡ some i) where
  own : Owned db w c i
  own = Owned-newest valid w c i newest id

  pub requested : is_some c.request_digest ≡ true
  requested = ap is_some own.request

  pub same_attempt_self :
      (e : Event)
      → e.attempt_id ≡ some i
      → e.request_digest ≡ c.request_digest
      → same_attempt c e ≡ true
  same_attempt_self e ei ed =
      let both = own.request in
      and-intro _ _
        (and-intro _ _
          (and-intro _ _ (ap is_some id) (path→opt_eq c.attempt_id e.attempt_id (id ∙ sym ei)))
          requested)
        (path→opt_eq c.request_digest e.request_digest (sym ed))

  -- `_transition` appends its event exactly when the attempt stands at the source.
  transition_body-exact :
      (source target : State) (result code : Option String)
      → (state_eq c.state source ≡ true
          → (guarded_move db c c.state target (moved db c i target result code) ≡ true)
            × WellFormed (moved db c i target result code))
      → transition_body i source target result code db ≡ (
          if state_eq c.state source
          then ok (tt, record db { events = moved db c i target result code ∷ db.events })
          else err invalid_transition)
  unfolding transition_body
  transition_body-exact source target result code legal =
      let at_work : current db own.attempt.work_id ≡ some c =
        ap (current db) own.work ∙ own.shown in
      let self : opt_eq c.attempt_id (some i) ≡ true = path→opt_eq c.attempt_id (some i) id in
      rw own.row (
        rw (at_work, self)
          (elim (Bool-cases (state_eq c.state source)) [
            | inl here ↦
                let (move, columns) = legal here in
                rw here (
                  rw (
                    insert_event-ok valid w c i (moved db c i target result code) own own.named refl
                      refl move columns.0 columns.1 (newest-facts valid w c newest).1))
            | inr other ↦ rw other
          ]))

  guarded :
      (source target : State) (e : Event)
      → state_eq c.state source ≡ true
      → guarded_move db c source target e ≡ true
      → guarded_move db c c.state target e ≡ true
  guarded source target e here h =
      subst (λ s. guarded_move db c s target e ≡ true) (sym (state_eq→path c.state source here)) h

  pub start-exact : transition_body i reserved in_flight none none db ≡ (
      if state_eq c.state reserved
      then ok (tt, record db { events = moved db c i in_flight none none ∷ db.events })
      else err invalid_transition)
  start-exact = transition_body-exact reserved in_flight none none (λ here. (
    guarded reserved in_flight (moved db c i in_flight none none) here
        (same_attempt_self (moved db c i in_flight none none) refl refl),
    (rw requested, refl),
  ))

  pub record_result-exact :
      (result : String)
      → is_digest result ≡ true
      → transition_body i in_flight result_saved (some result) none db ≡ (
          if state_eq c.state in_flight
          then ok
              (tt, record db { events = moved db c i result_saved (some result) none ∷ db.events })
          else err invalid_transition)
  record_result-exact result hex =
      transition_body-exact in_flight result_saved (some result) none (λ here. (
        guarded in_flight result_saved (moved db c i result_saved (some result) none) here
            (same_attempt_self (moved db c i result_saved (some result) none) refl refl),
        (rw requested, hex),
      ))

  pub complete-exact : transition_body i result_saved completed none none db ≡ (
      if state_eq c.state result_saved
      then ok (tt, record db { events = moved db c i completed none none ∷ db.events })
      else err invalid_transition)
  complete-exact = transition_body-exact result_saved completed none none (λ here.
      let columns = valid.columns w c newest in
      let result = saved_result c.state c here columns.0 in
      let e = moved db c i completed none none in
      (
        guarded result_saved completed e here (
            and-intro _ _ (and-intro _ _ (same_attempt_self e refl refl) result)
              (path→opt_eq c.result_digest c.result_digest refl)),
        (rw (requested, result), columns.1),
      ))

  pub fail-exact :
      (code : String) (is_limited : Bool)
      → member code failure_codes ≡ true
      → (let target = if is_limited then limited else failed in
          transition_body i in_flight target none (some code) db ≡ (
            if state_eq c.state in_flight
            then ok (tt, record db { events = moved db c i target none (some code) ∷ db.events })
            else err invalid_transition))
  fail-exact code true known =
      let e = moved db c i limited none (some code) in
      transition_body-exact in_flight limited none (some code) (λ here. (
        guarded in_flight limited e here (same_attempt_self e refl refl),
        (rw (requested, known), refl),
      ))
  fail-exact code false known =
      let e = moved db c i failed none (some code) in
      transition_body-exact in_flight failed none (some code) (λ here. (
        guarded in_flight failed e here (same_attempt_self e refl refl),
        (rw (requested, known), refl),
      ))
