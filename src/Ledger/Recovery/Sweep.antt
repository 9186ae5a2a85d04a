-- ===== src/Ledger/Recovery/Sweep.antt =====
-- src/draftbench/ledger.py: `recover` marks each attempt in flight once, and succeeds.
use llm_draftbench.Prelude.{
  String, Bool, true, false, Option, none, some, List, [], ◌∷◌, ◌==◌, ◌≡◌, refl, sym, ap, subst,
  ◌∙◌, ok, Bool-cases, Option-cases, inl, inr, and-left,
}
use llm_draftbench.Prelude.Text.{eq_self, eq→path}
use llm_draftbench.Prelude.Sorting.{sort_by}
use llm_draftbench.Ledger.Types.{
  State, in_flight, uncertain, state_eq, state_eq→path, Row, Event, Db,
}
use llm_draftbench.Ledger.Tables.{find_event, find_row, is_some}
use llm_draftbench.Ledger.Schema.{state_columns, guarded_move, insert_event}
use llm_draftbench.Ledger.Operations.{event, if_in_flight, in_flight_rows, recover_rows}
use llm_draftbench.Ledger.Invariant.{IsValid}
use llm_draftbench.Ledger.Invariant.Grow.{newest-facts}
use llm_draftbench.Ledger.Preservation.Methods.{recover_rows-IsValid}
use llm_draftbench.Ledger.Preservation.Progress.{
  Owned-newest, insert_event-ok, same_attempt_self, requested,
}
use llm_draftbench.Ledger.Recovery.{Live, Live-cons, other_work, Live-sort, is_some-sort}
use llm_draftbench.Ledger.Recovery.Rows.{Live-in_flight, in_flight-present}
use llm_draftbench.Ledger.Invariant.Rank.{validate_plan_unique}

abbrev pub interrupted : Db → Event → Event
interrupted db c =
    event db c.work_id uncertain c.attempt_id c.request_digest none (some "interrupted")

flying_attempt :
    (s : State) (c : Event)
    → state_eq s in_flight ≡ true
    → state_columns s c ≡ true
    → is_some c.attempt_id ≡ true
flying_attempt in_flight c h k = and-left _ _ (and-left _ _ (and-left _ _ k))
flying_attempt _ c h k = cc

the_attempt : (o : Option String) → is_some o ≡ true → (i : String) × (o ≡ some i)
the_attempt none h = cc
the_attempt (some i) h = (i, refl)

mark-ok :
    (db : Db) (valid : IsValid db) (c : Event)
    → find_event c.work_id db.events ≡ some c
    → state_eq c.state in_flight ≡ true
    → insert_event db (interrupted db c) ≡ ok (record db { events = interrupted db c ∷ db.events })
mark-ok db valid c newest flying =
    let (i, id) =
      the_attempt c.attempt_id
        (flying_attempt c.state c flying (valid.columns c.work_id c newest).0) in
    let e = interrupted db c in
    let move : guarded_move db c c.state uncertain e ≡ true =
      subst (λ s. guarded_move db c s uncertain e ≡ true)
        (sym (state_eq→path c.state in_flight flying))
        (same_attempt_self valid c.work_id c i newest id e id refl) in
    insert_event-ok valid c.work_id c i e (Owned-newest valid c.work_id c i newest id) refl id refl
      move (rw (id, requested valid c.work_id c i newest id) refl) refl
      (newest-facts valid c.work_id c newest).1

abbrev pub is_flying : Option Event → Bool
is_flying none = false
is_flying (some e) = state_eq e.state in_flight

-- What `recover_rows` leaves: the rows of the list are no longer in flight, all else is as it was.
pub record Swept (db : Db) (cs : List Event) : Type 0 where
  pub after : Db
  pub ran : recover_rows cs db ≡ ok after
  pub plan : after.plan ≡ db.plan
  pub marked :
      (w : String)
      → is_some (find_event w cs) ≡ true
      → is_flying (find_event w after.events) ≡ false
  pub kept :
      (w : String) → find_event w cs ≡ none → find_event w after.events ≡ find_event w db.events

own_event : (e : Event) (es : List Event) → find_event e.work_id (e ∷ es) ≡ some e
own_event e es = rw (eq_self e.work_id) refl

foreign_event :
    (e : Event) (es : List Event) (w : String)
    → (e.work_id == w) ≡ false
    → find_event w (e ∷ es) ≡ find_event w es
foreign_event e es w other = rw other refl

pub recover_rows-Swept : (cs : List Event) (db : Db) → IsValid db → Live db.events cs → Swept db cs
unfolding recover_rows
recover_rows-Swept [] db valid l = record {
  after = db;
  ran = refl;
  plan = refl;
  marked = λ w h. cc;
  kept = λ w h. refl;
}
recover_rows-Swept (c ∷ cs) db valid (newest, flying, alone, rest) =
    let e = interrupted db c in
    let next : Db = record db { events = e ∷ db.events } in
    let inserted = mark-ok db valid c newest flying in
    let valid' : IsValid next = recover_rows-IsValid (c ∷ []) db valid (rw inserted refl) in
    let s = recover_rows-Swept cs next valid' (Live-cons e db.events cs alone rest) in
    record {
      after = s.after;
      ran = rw inserted s.ran;
      plan = s.plan;
      marked = λ w h. elim (Bool-cases (c.work_id == w)) [
        | inl here ↦
            subst (λ z. is_flying (find_event z s.after.events) ≡ false) (eq→path c.work_id w here)
              (ap is_flying (s.kept c.work_id alone ∙ own_event e db.events) ∙ refl)
        | inr other ↦ s.marked w (rw other at h)
      ];
      kept = λ w h.
          let (other, later) = other_work w c cs h in
          s.kept w later ∙ foreign_event e db.events w other;
    }

not_flying : (o : Option Event) (l : List Event) → is_flying o ≡ false → if_in_flight o l ≡ l
not_flying none l h = refl
not_flying (some e) l h = rw h refl

first_row : (r : Row) (rs : List Row) → is_some (find_row r.work_id (r ∷ rs)) ≡ true
first_row r rs = rw (eq_self r.work_id) refl

row_later :
    (w : String) (r : Row) (rs : List Row)
    → is_some (find_row w rs) ≡ true
    → is_some (find_row w (r ∷ rs)) ≡ true
row_later w r rs h = elim (Bool-cases (r.work_id == w)) [
  | inl here ↦ rw here refl
  | inr other ↦ rw other h
]

no_rows :
    (db : Db) (rs : List Row)
    → ((w : String) → is_some (find_row w rs) ≡ true → is_flying (find_event w db.events) ≡ false)
    → in_flight_rows db rs ≡ []
no_rows db [] h = refl
no_rows db (r ∷ rs) h =
    not_flying (find_event r.work_id db.events) (in_flight_rows db rs)
      (h r.work_id (first_row r rs))
    ∙ no_rows db rs (λ w k. h w (row_later w r rs k))

flying_event :
    (o : Option Event)
    → is_flying o ≡ true
    → (c : Event) × (o ≡ some c) × (state_eq c.state in_flight ≡ true)
flying_event none h = cc
flying_event (some c) h = (c, refl, h)

not_some : {A : Type 0} {o : Option A} → o ≡ none → is_some o ≡ true → ⊥
not_some h k = cc

module _ (db : Db) (valid : IsValid db) where
  abbrev rows : List Event
  rows = sort_by (λ e. e.work_id) (in_flight_rows db db.plan)

  pub sweep : Swept db rows
  sweep = recover_rows-Swept rows db valid (
      Live-sort db.events (in_flight_rows db db.plan)
        (Live-in_flight db valid db.plan (validate_plan_unique db.plan valid.plan_ok)))

  -- What is not among the rows was not in flight.
  unswept :
      (w : String)
      → is_some (find_row w db.plan) ≡ true
      → find_event w rows ≡ none
      → is_flying (find_event w db.events) ≡ false
  unswept w known gone = elim (Bool-cases (is_flying (find_event w db.events))) [
    | inl flying ↦
        let (c, newest, is_live) = flying_event (find_event w db.events) flying in
        absurd (
          not_some gone (
            is_some-sort w (in_flight_rows db db.plan)
            ∙ in_flight-present db valid w c db.plan newest is_live known))
    | inr calm ↦ calm
  ]

  calm_after :
      (w : String)
      → is_some (find_row w db.plan) ≡ true
      → is_flying (find_event w sweep.after.events) ≡ false
  calm_after w known = elim (Option-cases (find_event w rows)) [
    | inl gone ↦ ap is_flying (sweep.kept w gone) ∙ unswept w known gone
    | inr (c, found) ↦ sweep.marked w (ap is_some found)
  ]

  pub none_left : in_flight_rows sweep.after sweep.after.plan ≡ []
  none_left =
      no_rows sweep.after sweep.after.plan
        (λ w k. calm_after w (subst (λ p. is_some (find_row w p) ≡ true) sweep.plan k))
