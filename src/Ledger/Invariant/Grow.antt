-- ===== src/Ledger/Invariant/Grow.antt =====
-- src/draftbench/ledger.py: one more event, with the rows that came with it, keeps the invariant.
use llm_draftbench.Prelude.{
  ℕ, ◌+◌, ◌*◌, ◌≤◌, String, true, false, Option, some, List, ◌∷◌, not, ◌||◌, ◌==◌, ◌≡◌, refl, sym,
  ap, subst, ◌∙◌, arith, all, length, ok, Bool-cases, inl, inr, and-left, and-intro, le→leb,
}
use llm_draftbench.Prelude.Text.{member, all_mono, eq→path}
use llm_draftbench.Ledger.Types.{
  State, completed, reserved, state_eq, Attempt, Event, Reconciliation, Retry, Db,
}
use llm_draftbench.Ledger.Tables.{
  find_row, find_event, find_attempt, attempt_of, is_some, dependencies_of,
}
use llm_draftbench.Ledger.Schema.{state_columns, WellFormed}
use llm_draftbench.Ledger.History.{
  known_version, retry_rows, recovery_rows, scan, scan_attempts, moves, receipted, binds, is_retry,
  completes, within, reservable,
}
use llm_draftbench.Ledger.History.Scan.{
  Accepts, gathered, Settled, grown, Extends, scan-grown, scan-latest, scan-newest,
  scan_event-of_Accepts,
}
use llm_draftbench.Ledger.Invariant.{IsValid, rank, rank_of, total_rank, done, holds}
use llm_draftbench.Ledger.Invariant.Rank.{total_rank-le, total_rank-cons, validate_plan_unique}

-- A completed work item makes no move.
moves_completed : (a b : State) → state_eq a completed ≡ true → moves a b ≡ false
unfolding moves
moves_completed completed b h = refl
moves_completed _ b h = cc

-- What was completed stays so.
pub done-cons :
    (es : List Event) (e c : Event) (d : String)
    → find_event e.work_id es ≡ some c
    → moves c.state e.state ≡ true
    → done es d ≡ true
    → done (e ∷ es) d ≡ true
done-cons es e c d before moved h = elim (Bool-cases (e.work_id == d)) [
  | inl here ↦
      let last : find_event d es ≡ some c =
        subst (λ w. find_event w es ≡ some c) (eq→path _ d here) before in
      let over : state_eq c.state completed ≡ true = rw last at h in
      cc (moves_completed c.state e.state over)
  | inr other ↦ rw other h
]

-- The newest event is the one put in front, or the one that was newest.
pub newest-cons {ℓ} :
    (P : Event → Type ℓ) (e : Event) (es : List Event) (w : String) (x : Event)
    → (e.work_id ≡ w → P e)
    → (find_event w es ≡ some x → P x)
    → find_event w (e ∷ es) ≡ some x
    → P x
newest-cons P e es w x new old found = elim (Bool-cases (e.work_id == w)) [
  | inl here ↦
      let only : ◌≡◌ {A = Option Event} (some e) (some x) = rw here at found in
      let same : e ≡ x = cc in subst P same (new (eq→path e.work_id w here))
  | inr other ↦ old (rw other at found)
]

reserved_attempt :
    (s : State) (e : Event)
    → state_eq s reserved ≡ true
    → state_columns s e ≡ true
    → is_some e.attempt_id ≡ true
reserved_attempt reserved e r h = and-left _ _ (and-left _ _ (and-left _ _ h))
reserved_attempt _ e r h = cc

module _ {db : Db} (valid : IsValid db) where
  pub newest-before :
      (w : String) (c : Event)
      → find_event w db.events ≡ some c
      → find_event w valid.seen.latest ≡ some c
  newest-before w c h = ap (find_event w) (scan-latest db db.events valid.scanned).0 ∙ h

  pub newest-facts :
      (w : String) (c : Event)
      → find_event w db.events ≡ some c
      → (binds db c ≡ true) × (is_some (find_row w db.plan) ≡ true) × (c.work_id ≡ w)
  newest-facts w c h = scan-newest db db.events w c valid.scanned h

module _ {db : Db} (valid : IsValid db) (v : ℕ) (attempts : List Attempt)
    (rows : List Reconciliation) (retries : List Retry) (e c : Event) where
  abbrev after : Db
  after = grown db v attempts rows retries (e ∷ db.events)

  -- What an operation shows of the event that it appends.
  pub record Growth : Type 0 where
    pub extends : Extends db v attempts rows retries (e ∷ db.events)
    pub before : find_event e.work_id db.events ≡ some c
    pub moved : moves c.state e.state ≡ true
    pub columns : WellFormed e
    pub version_ok : known_version after ≡ true
    pub attempts_ok : scan_attempts after attempts ≡ ok tt
    pub receipt : receipted after (some c) e ≡ true
    pub bound : binds after e ≡ true
    pub first :
        state_eq e.state reserved ≡ true
        → (not (member e.work_id valid.seen.reserved) || is_retry (some c) e) ≡ true
    pub prepared :
        is_some e.attempt_id ≡ true → all (done db.events) (dependencies_of db e.work_id) ≡ true
    pub result : completes (some c) e ≡ true
    pub all_settled : Settled after (gathered valid.seen e)
    pub recovery_table : recovery_rows after ≡ rows
    pub retry_table : retry_rows after ≡ retries
    pub spent : 1 + 3 * length db.retries + rank c.state ≤ rank e.state + 3 * length retries
    pub held :
        (w : String) (a : Attempt)
        → attempt_of w attempts ≡ some a
        → holds (find_event w (e ∷ db.events)) a.attempt_id ≡ true
    pub found :
        (w : String) (a : Attempt)
        → attempt_of w attempts ≡ some a
        → find_attempt a.attempt_id attempts ≡ some a

  module _ (g : Growth) where
    prev : find_event e.work_id valid.seen.latest ≡ some c
    prev = newest-before valid e.work_id c g.before

    known : is_some (find_row e.work_id db.plan) ≡ true
    known = (newest-facts valid e.work_id c g.before).1

    budget-grown : length (e ∷ db.events) ≤ total_rank (e ∷ db.events) db.plan + 3 * length retries
    budget-grown =
        let sum =
          total_rank-cons e db.events db.plan (validate_plan_unique db.plan valid.plan_ok) known in
        let last = ap rank_of g.before in omega (arith, valid.budget, g.spent, sum, last)

    room : within after (valid.seen.count + 1) ≡ true
    room =
        let counted = (scan-latest db db.events valid.scanned).1 in
        let table = ap length g.retry_table in
        le→leb _ _
          (omega (arith, budget-grown, counted, table, total_rank-le (e ∷ db.events) db.plan))

    ready_now : reservable after valid.seen (some c) e ≡ true
    ready_now = elim (Bool-cases (state_eq e.state reserved)) [
      | inl is_reserved ↦
          let latest = (scan-latest db db.events valid.scanned).0 in
          let has = reserved_attempt e.state e is_reserved g.columns.0 in
          let ready =
            subst (λ es. all (done es) (dependencies_of db e.work_id) ≡ true) (sym latest)
              (g.prepared has) in
          rw is_reserved (and-intro _ _ (rw is_reserved at (g.first is_reserved)) ready)
      | inr other ↦ rw other
    ]

    accepted : Accepts after valid.seen e
    accepted = record {
      room = room;
      known = known;
      moved = rw prev g.moved;
      receipt = rw prev g.receipt;
      bound = g.bound;
      ready = rw prev ready_now;
      result = rw prev g.result;
    }

    scanned-grown : scan after (e ∷ db.events) ≡ ok (gathered valid.seen e)
    unfolding scan
    scanned-grown =
        rw (scan-grown db v attempts rows retries (e ∷ db.events) g.extends db.events valid.scanned)
          (scan_event-of_Accepts after valid.seen e accepted)

    ready-grown :
        (w : String) (x : Event)
        → find_event w (e ∷ db.events) ≡ some x
        → is_some x.attempt_id ≡ true
        → all (done db.events) (dependencies_of db w) ≡ true
    ready-grown w x found has =
        newest-cons
          (λ y. is_some y.attempt_id ≡ true → all (done db.events) (dependencies_of db w) ≡ true) e
          db.events w x
          (λ named has'.
            subst (λ z. all (done db.events) (dependencies_of db z) ≡ true) named (g.prepared has'))
          (valid.ready w x) found has

    columns-grown : (w : String) (x : Event) → find_event w (e ∷ db.events) ≡ some x → WellFormed x
    columns-grown w x found =
        newest-cons WellFormed e db.events w x (λ _. g.columns) (valid.columns w x) found

    pub grown-IsValid : IsValid after
    grown-IsValid = record {
      version_ok = g.version_ok;
      schema_ok = valid.schema_ok;
      manifest_ok = valid.manifest_ok;
      plan_ok = valid.plan_ok;
      attempts_ok = g.attempts_ok;
      seen = gathered valid.seen e;
      scanned = scanned-grown;
      all_settled = g.all_settled;
      recovery_table = g.recovery_table;
      retry_table = g.retry_table;
      budget = budget-grown;
      held = g.held;
      found = g.found;
      ready = λ w x found has.
          all_mono (done db.events) (done (e ∷ db.events)) (dependencies_of db w)
            (λ d. done-cons db.events e c d g.before g.moved) (ready-grown w x found has);
      columns = columns-grown;
    }
