-- ===== src/Ledger/Preservation.antt =====
-- src/draftbench/ledger.py: what an accepted insert into `events` says, and the inserts that keep
-- the attempt. The operations follow in the modules below.
pub mod Moves
pub mod Methods
pub mod Reserve
pub mod Receipts
pub mod Reconcile
pub mod Retrying
pub mod Progress
use llm_draftbench.Prelude.{
  String, Bool, true, false, Option, none, some, List, [], ◌∷◌, ◌&&◌, ◌≡◌, refl, sym, ap, ◌∙◌, ap,
  subst, ◌∙◌, arith, Result, ok, guard, ◌>>=◌, ◌>>◌, guard-eq-ok, ok-injective, and-left, and-right,
  Option-cases, inl, inr,
}
use llm_draftbench.Prelude.Text.{opt_eq, opt_eq→path, path→opt_eq}
use llm_draftbench.Ledger.Types.{State, uncertain, reserved, state_eq, Event, Row, Db}
use llm_draftbench.Ledger.Tables.{find_row, find_event, current, is_some}
use llm_draftbench.Ledger.Schema.{
  insert_event, events_guard, move_from, guarded_move, events_check, events_keys, WellFormed,
}
use llm_draftbench.Ledger.History.{moves, completes}
use llm_draftbench.Ledger.Invariant.{IsValid}
use llm_draftbench.Ledger.Invariant.Kept.{Kept, kept-IsValid}
use llm_draftbench.Ledger.Preservation.Moves.{
  guarded_move-moves, guarded_move-completes, guarded_move-same,
}

-- An insert that the trigger, the constraints and the foreign keys let pass.
pub record Inserted (db : Db) (e : Event) (after : Db) : Type 0 where
  pub last : Event
  pub before : find_event e.work_id db.events ≡ some last
  pub move : guarded_move db last last.state e.state e ≡ true
  pub columns : WellFormed e
  pub result : after ≡ record db { events = e ∷ db.events }

pub current-newest :
    (db : Db) (w : String) (c : Event) → current db w ≡ some c → find_event w db.events ≡ some c
current-newest db w c h = ground arith

guard_last :
    (db : Db) (e : Event)
    → events_guard db e ≡ true
    → (c : Event) × (current db e.work_id ≡ some c) × (guarded_move db c c.state e.state e ≡ true)
guard_last db e h = elim (Option-cases (current db e.work_id)) [
  | inl gone ↦ cc (ap (λ o. move_from db o e) gone)
  | inr (c, found) ↦ (c, found, ap (λ o. move_from db o e) (sym found) ∙ h)
]

pub Inserted-of-insert_event :
    (db : Db) (e : Event) {after : Db} → insert_event db e ≡ ok after → Inserted db e after
unfolding insert_event
Inserted-of-insert_event db e h =
    let (guarded, h₁) = guard-eq-ok (events_guard db e) _ _ h in
    let (checks, h₂) = guard-eq-ok (events_check e && events_keys db e) _ _ h₁ in
    let (c, found, move) = guard_last db e guarded in
    record {
      last = c;
      before = current-newest db e.work_id c found;
      move = move;
      columns =
          (and-left _ _ (and-left _ _ (and-left _ _ checks)), and-right _ _ (and-left _ _ checks));
      result = sym (ok-injective h₂);
    }

-- Every move but those out of `uncertain` and into `reserved` keeps the invariant.
pub insert_event-IsValid :
    {db : Db} (e : Event) {after : Db}
    → IsValid db
    → insert_event db e ≡ ok after
    → ((c : Event)
        → find_event e.work_id db.events ≡ some c
        → guarded_move db c c.state e.state e ≡ true
        → state_eq c.state uncertain ≡ false)
    → state_eq e.state reserved ≡ false
    → IsValid after
insert_event-IsValid {db} e valid h calm other =
    let i = Inserted-of-insert_event db e h in
    let (same_id, same_request) =
      guarded_move-same db i.last e i.last.state e.state i.move other
        (valid.columns e.work_id i.last i.before).0 i.columns.0 in
    subst IsValid (sym i.result) (
      kept-IsValid valid e i.last (record {
        before = i.before;
        moved = guarded_move-moves db i.last e i.last.state e.state i.move;
        columns = i.columns;
        same_id = sym same_id;
        same_request = sym same_request;
        calm = calm i.last i.before i.move;
        not_reserved = other;
        result = guarded_move-completes db i.last e i.last.state e.state i.move;
      }))
