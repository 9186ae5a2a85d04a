-- ===== src/Ledger/Preservation/Methods.antt =====
-- src/draftbench/ledger.py: `_transition`, `skip` and `recover` keep the invariant.
use llm_draftbench.Prelude.{
  String, false, Option, none, some, List, [], ◌∷◌, ◌&&◌, ◌≡◌, refl, sym, ap, subst, ◌∙◌, ok,
  guard-eq-ok, >>=-eq-ok, ok-injective, and-left, if◌then◌else◌,
}
use llm_draftbench.Prelude.Text.{opt_eq}
use llm_draftbench.Prelude.Sorting.{sort_by}
use llm_draftbench.Ledger.Types.{
  State, planned, reserved, completed, uncertain, state_eq, state_eq→path, Event, Db,
}
use llm_draftbench.Ledger.Tables.{find_event, find_attempt, current, fetched}
use llm_draftbench.Ledger.Schema.{insert_event}
use llm_draftbench.Ledger.Session.{Body}
use llm_draftbench.Ledger.Operations.{
  event, transition_body, skip_body, in_flight_rows, recover_rows, recover_body,
}
use llm_draftbench.Ledger.Invariant.{IsValid}
use llm_draftbench.Ledger.Invariant.Grow.{newest-facts}
use llm_draftbench.Ledger.Preservation.Moves.{guarded_move-calm}
use llm_draftbench.Ledger.Preservation.{insert_event-IsValid, current-newest}

-- What a body returns is valid.
abbrev pub Keeps : {A : Type 0} → Body A → Type 0
Keeps {A} body = (db : Db) (r : A × Db) → IsValid db → body db ≡ ok r → IsValid r.1

pub of_newest :
    {db : Db} (valid : IsValid db) (w : String) (c : Event)
    → find_event w db.events ≡ some c
    → find_event c.work_id db.events ≡ some c
of_newest {db} valid w c h =
    subst (λ z. find_event z db.events ≡ some c) (sym (newest-facts valid w c h).2) h

only_newest :
    (db : Db) (w : String) (c d : Event)
    → find_event w db.events ≡ some c
    → find_event w db.events ≡ some d
    → c ≡ d
only_newest db w c d h k = cc

pub transition_body-Keeps :
    (attempt : String) (source target : State) (result code : Option String)
    → state_eq source uncertain ≡ false
    → state_eq target reserved ≡ false
    → Keeps (transition_body attempt source target result code)
unfolding transition_body
transition_body-Keeps attempt source target result code calm other db r valid h =
    let (a, found, h₁) = fetched (find_attempt attempt db.attempts) _ _ h in
    let (c, now, h₂) = fetched (current db a.work_id) _ _ h₁ in
    let (test, h₃) =
      guard-eq-ok (state_eq c.state source && opt_eq c.attempt_id (some attempt)) _ _ h₂ in
    let (db', inserted, h₄) =
      >>=-eq-ok
        (insert_event db (
          event db c.work_id target (some attempt) c.request_digest
            (if state_eq target completed then c.result_digest else result) code))
        _ h₃ in
    let newest = of_newest valid a.work_id c (current-newest db a.work_id c now) in
    let at_source = state_eq→path c.state source (and-left _ _ test) in
    let still = ap (λ s. state_eq s uncertain) at_source ∙ calm in
    subst IsValid (ap (λ p. p.1) (ok-injective h₄)) (
      insert_event-IsValid _ valid inserted
        (λ d last _.
          subst (λ x. state_eq x.state uncertain ≡ false) (only_newest db c.work_id c d newest last)
            still)
        other)

pub skip_body-Keeps :
    (work : String) (state : State) (code : String)
    → state_eq state reserved ≡ false
    → Keeps (skip_body work state code)
unfolding skip_body
skip_body-Keeps work state code other db r valid h =
    let (c, now, h₁) = fetched (current db work) _ _ h in
    let (test, h₂) = guard-eq-ok (state_eq c.state planned) _ _ h₁ in
    let (db', inserted, h₃) =
      >>=-eq-ok (insert_event db (event db work state none none none (some code))) _ h₂ in
    let still = ap (λ s. state_eq s uncertain) (state_eq→path c.state planned test) in
    subst IsValid (ap (λ p. p.1) (ok-injective h₃)) (
      insert_event-IsValid _ valid inserted
        (λ d last _.
          subst (λ x. state_eq x.state uncertain ≡ false)
            (only_newest db work c d (current-newest db work c now) last) still)
        other)

pub recover_rows-IsValid :
    (cs : List Event) (db : Db) {after : Db}
    → IsValid db
    → recover_rows cs db ≡ ok after
    → IsValid after
unfolding recover_rows
recover_rows-IsValid [] db valid h = subst IsValid (ok-injective h) valid
recover_rows-IsValid (c ∷ cs) db valid h =
    let e = event db c.work_id uncertain c.attempt_id c.request_digest none (some "interrupted") in
    let (db', inserted, rest) = >>=-eq-ok (insert_event db e) _ h in
    recover_rows-IsValid cs db'
      (insert_event-IsValid e valid inserted
        (λ d last move. guarded_move-calm db d e d.state uncertain move refl refl) refl)
      rest

pub recover_body-Keeps : Keeps recover_body
unfolding recover_body
recover_body-Keeps db r valid h =
    let rows = sort_by (λ e. e.work_id) (in_flight_rows db db.plan) in
    let (db', done, end) = >>=-eq-ok (recover_rows rows db) _ h in
    subst IsValid (ap (λ p. p.1) (ok-injective end)) (recover_rows-IsValid rows db valid done)
