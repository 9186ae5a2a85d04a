-- ===== src/Ledger/Recovery.antt =====
-- src/draftbench/ledger.py: `recover` succeeds, and leaves no attempt in flight.
pub mod Rows
pub mod Sweep
pub mod Outcome
use llm_draftbench.Prelude.{
  String, Bool, true, false, Option, none, some, List, [], ◌∷◌, ◌&&◌, ◌||◌, ◌==◌, not, ◌≡◌, refl,
  sym, ap, subst, ◌∙◌, arith, ok, if◌then◌else◌, Bool-cases, Option-cases, inl, inr, and-left,
  and-right,
}
use llm_draftbench.Prelude.Text.{eq_comm, eq_self, eq→path}
use llm_draftbench.Prelude.Sorting.{text_le, sort_by, insert_by}
use llm_draftbench.Ledger.Types.{
  State, in_flight, uncertain, state_eq, state_eq→path, Row, Event, Db,
}
use llm_draftbench.Ledger.Tables.{find_event, find_row, is_some}
use llm_draftbench.Ledger.Operations.{event, if_in_flight, in_flight_rows, recover_rows}
use llm_draftbench.Ledger.Invariant.{IsValid}
use llm_draftbench.Ledger.Invariant.Rank.{unique_rows}
use llm_draftbench.Ledger.Invariant.Grow.{newest-facts}

-- Newest events of different work items, all in flight.
abbrev pub Live : List Event → List Event → Type 0
Live es [] = Unit
Live es (c ∷ cs) =
    (find_event c.work_id es ≡ some c)
    × (state_eq c.state in_flight ≡ true)
    × (find_event c.work_id cs ≡ none)
    × Live es cs

pub some-none : {A : Type 0} (a : A) → ◌≡◌ {A = Option A} (some a) none → ⊥
some-none a h = cc

pub other_work :
    (w : String) (c : Event) (cs : List Event)
    → find_event w (c ∷ cs) ≡ none
    → ((c.work_id == w) ≡ false) × (find_event w cs ≡ none)
other_work w c cs h = elim (Bool-cases (c.work_id == w)) [
  | inl here ↦ absurd (some-none c (rw here at h))
  | inr other ↦ (other, rw other at h)
]

pub Live-cons :
    (e : Event) (es cs : List Event)
    → find_event e.work_id cs ≡ none
    → Live es cs
    → Live (e ∷ es) cs
Live-cons e es [] h l = tt
Live-cons e es (c ∷ cs) h (newest, flying, alone, rest) =
    let (other, later) = other_work e.work_id c cs h in
    (rw (eq_comm e.work_id c.work_id ∙ other) newest, flying, alone, Live-cons e es cs later rest)

is_some-cons :
    (b : Bool) (x : Event) (o p : Option Event)
    → is_some o ≡ is_some p
    → is_some (if b then some x else o) ≡ is_some (if b then some x else p)
is_some-cons true x o p h = refl
is_some-cons false x o p h = h

is_some-swap :
    (a b : Bool) (x y : Event) (o p : Option Event)
    → is_some p ≡ is_some (if a then some x else o)
    → is_some (if b then some y else p) ≡ is_some (if a then some x else if b then some y else o)
is_some-swap true true x y o p h = refl
is_some-swap true false x y o p h = h
is_some-swap false true x y o p h = refl
is_some-swap false false x y o p h = h

is_some-insert :
    (w : String) (x : Event) (ys : List Event)
    → is_some (find_event w (insert_by (λ e. e.work_id) x ys)) ≡ is_some (find_event w (x ∷ ys))
unfolding insert_by
is_some-insert w x [] = refl
is_some-insert w x (y ∷ ys) = elim (Bool-cases (text_le x.work_id y.work_id)) [
  | inl h ↦ rw h refl
  | inr h ↦ rw h (
      is_some-swap (x.work_id == w) (y.work_id == w) x y (find_event w ys) _
        (is_some-insert w x ys))
]

pub is_some-sort :
    (w : String) (xs : List Event)
    → is_some (find_event w (sort_by (λ e. e.work_id) xs)) ≡ is_some (find_event w xs)
unfolding sort_by
is_some-sort w [] = refl
is_some-sort w (x ∷ xs) =
    is_some-insert w x (sort_by (λ e. e.work_id) xs)
    ∙ is_some-cons (x.work_id == w) x _ _ (is_some-sort w xs)

pub absent : (o : Option Event) → is_some o ≡ false → o ≡ none
absent none h = refl
absent (some a) h = cc

pub present : (o : Option Event) → o ≡ none → is_some o ≡ false
present none h = refl
present (some a) h = cc

missing :
    (y x : Event) (ys : List Event)
    → (y.work_id == x.work_id) ≡ false
    → find_event y.work_id ys ≡ none
    → is_some (find_event y.work_id (x ∷ ys)) ≡ false
missing y x ys other h = rw (eq_comm x.work_id y.work_id ∙ other) (present _ h)

Live-insert :
    (es ys : List Event) (x : Event) → Live es (x ∷ ys) → Live es (insert_by (λ e. e.work_id) x ys)
unfolding insert_by
Live-insert es [] x l = l
Live-insert es (y ∷ ys) x (newest, flying, alone, (newest', flying', alone', rest)) =
    elim (Bool-cases (text_le x.work_id y.work_id)) [
      | inl h ↦ rw h (newest, flying, alone, (newest', flying', alone', rest))
      | inr h ↦
          let (other, later) = other_work x.work_id y ys alone in
          let none_before : is_some (find_event y.work_id (insert_by (λ e. e.work_id) x ys))
              ≡ false =
            is_some-insert y.work_id x ys ∙ missing y x ys other alone' in
          rw h (
            newest',
            flying',
            absent _ none_before,
            Live-insert es ys x (newest, flying, later, rest),
          )
    ]

pub Live-sort : (es xs : List Event) → Live es xs → Live es (sort_by (λ e. e.work_id) xs)
unfolding sort_by
Live-sort es [] l = tt
Live-sort es (x ∷ xs) (newest, flying, alone, rest) =
    Live-insert es (sort_by (λ e. e.work_id) xs) x
      (newest, flying, absent _ (is_some-sort x.work_id xs ∙ present _ alone), Live-sort es xs rest)
