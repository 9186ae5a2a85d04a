-- ===== src/Ledger/Recovery/Rows.antt =====
-- src/draftbench/ledger.py: the rows that `recover` takes.
use llm_draftbench.Prelude.{
  String, Bool, true, false, Option, none, some, List, [], ◌∷◌, ◌==◌, not, ◌≡◌, refl, sym, ap,
  subst, ◌∙◌, if◌then◌else◌, Bool-cases, Option-cases, inl, inr, and-left, and-right,
}
use llm_draftbench.Prelude.Text.{eq_self, eq→path}
use llm_draftbench.Ledger.Types.{in_flight, state_eq, Row, Event, Db}
use llm_draftbench.Ledger.Tables.{find_event, find_row, is_some}
use llm_draftbench.Ledger.Operations.{if_in_flight, in_flight_rows}
use llm_draftbench.Ledger.Invariant.{IsValid}
use llm_draftbench.Ledger.Invariant.Rank.{unique_rows}
use llm_draftbench.Ledger.Invariant.Grow.{newest-facts}
use llm_draftbench.Ledger.Recovery.{Live, some-none}

other_row :
    (w : String) (r : Row) (rs : List Row)
    → find_row w (r ∷ rs) ≡ none
    → ((r.work_id == w) ≡ false) × (find_row w rs ≡ none)
other_row w r rs h = elim (Bool-cases (r.work_id == w)) [
  | inl here ↦ absurd (some-none r (rw here at h))
  | inr other ↦ (other, rw other at h)
]

absent_row : (o : Option Row) → not (is_some o) ≡ true → o ≡ none
absent_row none h = refl
absent_row (some r) h = cc

skipped :
    (b : Bool) (w : String) (e : Event) (l : List Event)
    → (e.work_id == w) ≡ false
    → find_event w l ≡ none
    → find_event w (if b then e ∷ l else l) ≡ none
skipped true w e l other h = rw other h
skipped false w e l other h = h

-- The list that a row is put before is searched on, where the row is another's.
found_first :
    (b : Bool) (e : Event) (w : String) (l : List Event)
    → is_some (find_event w l) ≡ true
    → is_some (find_event w (if b then e ∷ l else l)) ≡ true
found_first false e w l h = h
found_first true e w l h = elim (Bool-cases (e.work_id == w)) [
  | inl here ↦ rw here refl
  | inr other ↦ rw other h
]

found_later :
    (o : Option Event) (w : String) (l : List Event)
    → is_some (find_event w l) ≡ true
    → is_some (find_event w (if_in_flight o l)) ≡ true
found_later none w l h = h
found_later (some e) w l h = found_first (state_eq e.state in_flight) e w l h

found_here :
    (c : Event) (w : String) (l : List Event)
    → state_eq c.state in_flight ≡ true
    → (c.work_id == w) ≡ true
    → is_some (find_event w (if_in_flight (some c) l)) ≡ true
found_here c w l flying here = rw flying (rw here refl)

later_row :
    (w : String) (r : Row) (rs : List Row)
    → (r.work_id == w) ≡ false
    → is_some (find_row w (r ∷ rs)) ≡ true
    → is_some (find_row w rs) ≡ true
later_row w r rs other h = rw other at h

module _ (db : Db) (valid : IsValid db) where
  in_flight-absent :
      (w : String) (rs : List Row)
      → find_row w rs ≡ none
      → find_event w (in_flight_rows db rs) ≡ none
  in_flight-absent w [] h = refl
  in_flight-absent w (r ∷ rs) h =
      let (other, later) = other_row w r rs h in
      elim (Option-cases (find_event r.work_id db.events)) [
        | inl gone ↦
            subst (λ o. find_event w (if_in_flight o (in_flight_rows db rs)) ≡ none) (sym gone)
              (in_flight-absent w rs later)
        | inr (e, newest) ↦
            subst (λ o. find_event w (if_in_flight o (in_flight_rows db rs)) ≡ none) (sym newest)
              (skipped (state_eq e.state in_flight) w e _
                (ap (λ k. k == w) (newest-facts valid r.work_id e newest).2 ∙ other)
                (in_flight-absent w rs later))
      ]

  Live-if :
      (b : Bool) (e : Event) (l : List Event)
      → state_eq e.state in_flight ≡ b
      → find_event e.work_id db.events ≡ some e
      → find_event e.work_id l ≡ none
      → Live db.events l
      → Live db.events (if b then e ∷ l else l)
  Live-if true e l flying newest alone rest = (newest, flying, alone, rest)
  Live-if false e l flying newest alone rest = rest

  pub Live-in_flight :
      (rs : List Row) → unique_rows rs ≡ true → Live db.events (in_flight_rows db rs)
  Live-in_flight [] u = tt
  Live-in_flight (r ∷ rs) u =
      let rest = Live-in_flight rs (and-right _ _ u) in
      elim (Option-cases (find_event r.work_id db.events)) [
        | inl gone ↦
            subst (λ o. Live db.events (if_in_flight o (in_flight_rows db rs))) (sym gone) rest
        | inr (e, newest) ↦
            let named = (newest-facts valid r.work_id e newest).2 in
            subst (λ o. Live db.events (if_in_flight o (in_flight_rows db rs))) (sym newest)
              (Live-if (state_eq e.state in_flight) e _ refl
                (subst (λ w. find_event w db.events ≡ some e) (sym named) newest)
                (subst (λ w. find_event w (in_flight_rows db rs) ≡ none) (sym named)
                  (in_flight-absent r.work_id rs (absent_row _ (and-left _ _ u))))
                rest)
      ]

  -- A row whose newest event is in flight is among those that `recover` takes.
  pub in_flight-present :
      (w : String) (c : Event) (rs : List Row)
      → find_event w db.events ≡ some c
      → state_eq c.state in_flight ≡ true
      → is_some (find_row w rs) ≡ true
      → is_some (find_event w (in_flight_rows db rs)) ≡ true
  in_flight-present w c [] newest flying h = cc
  in_flight-present w c (r ∷ rs) newest flying h = elim (Bool-cases (r.work_id == w)) [
    | inl here ↦
        subst (λ o. is_some (find_event w (if_in_flight o (in_flight_rows db rs))) ≡ true)
          (sym newest ∙ ap (λ z. find_event z db.events) (sym (eq→path r.work_id w here)))
          (found_here c w (in_flight_rows db rs) flying
            (ap (λ z. z == w) (newest-facts valid w c newest).2 ∙ eq_self w))
    | inr other ↦
        found_later (find_event r.work_id db.events) w (in_flight_rows db rs)
          (in_flight-present w c rs newest flying (later_row w r rs other h))
  ]
