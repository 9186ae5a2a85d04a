-- ===== src/Ledger/Calls/Create.antt =====
-- src/draftbench/ledger.py: the database that `create` writes. Making the file, and what undoes it
-- after a failure, are left to the file system.
use llm_draftbench.Prelude.{
  ℕ, ◌+◌, ◌*◌, ◌≤◌, String, Bool, true, false, Option, none, some, List, [], ◌∷◌, map, ◌||◌, ◌==◌,
  ◌≡◌, refl, ap, subst, ◌∙◌, arith, length, le→leb, Result, ok, ◌>>◌, >>=-eq-ok, guard-eq-ok,
  ok-injective, Bool-cases, inl, inr, and-left, and-right, not, or-true,
}
use native.Mathlib.Numerals.{add-one}
use llm_draftbench.Prelude.Text.{member, same_set-ext, eq_self, eq_comm}
use llm_draftbench.Ledger.Types.{LedgerError, State, planned, reserved, state_eq, Row, Event, Db}
use llm_draftbench.Ledger.Ident.{is_digest, check_digest}
use llm_draftbench.Ledger.Plan.{validate_plan}
use llm_draftbench.Ledger.Tables.{find_row, find_event, is_some, next_event_id}
use llm_draftbench.Ledger.Schema.{WellFormed}
use llm_draftbench.Ledger.Session.{Ledger}
use llm_draftbench.Ledger.History.{Seen, keys, scan, scan_attempts, within}
use llm_draftbench.Ledger.History.Scan.{scan_event-of_Accepts, gathered}
use llm_draftbench.Ledger.Invariant.{IsValid, rank, rank_of, total_rank}
use llm_draftbench.Ledger.Invariant.Grow.{newest-cons}
use llm_draftbench.Ledger.Invariant.Rank.{unique_rows, validate_plan_unique}

abbrev pub planned_event : ℕ → String → Event
planned_event i work = record {
  event_id = i;
  work_id = work;
  state = planned;
  attempt_id = none;
  request_digest = none;
  result_digest = none;
  error_code = none;
}

-- INSERT INTO events for each row of the plan.
unfoldable pub seed : List Row → List Event → List Event
seed [] es = es
seed (r ∷ rs) es = seed rs (planned_event (next_event_id es) r.work_id ∷ es)

abbrev pub initial : List Row → String → Db
initial plan digest = record {
  user_version = 1;
  schema_version = 1;
  manifest_digest = digest;
  plan = plan;
  attempts = [];
  events = seed plan [];
  reconciliations = [];
  retries = [];
}

unfoldable pub create : List Row → String → Result LedgerError Ledger
create plan digest = do
  validate_plan plan
  check_digest digest
  ok (record { closed = false; readonly = false; db = initial plan digest })

length-seed : (rs : List Row) (es : List Event) → length (seed rs es) ≡ length rs + length es
unfolding seed
length-seed [] es = omega arith
length-seed (r ∷ rs) es =
    omega (arith, length-seed rs (planned_event (next_event_id es) r.work_id ∷ es))

member-seed :
    (w : String) (rs : List Row) (es : List Event)
    → member w (keys (seed rs es)) ≡ (member w (map (λ r. r.work_id) rs) || member w (keys es))
unfolding seed
member-seed w [] es = refl
member-seed w (r ∷ rs) es =
    ground (arith, member-seed w rs (planned_event (next_event_id es) r.work_id ∷ es))

find_event-keys : (w : String) (es : List Event) → is_some (find_event w es) ≡ member w (keys es)
find_event-keys w [] = refl
find_event-keys w (e ∷ es) = ground (arith, find_event-keys w es)

-- Each event of a new database is of a work item with no attempt.
abbrev Blank : Event → Type 0
Blank c = (WellFormed c) × (c.attempt_id ≡ none)

seed-Blank :
    (rs : List Row) (es : List Event) (w : String) (c : Event)
    → (find_event w es ≡ some c → Blank c)
    → find_event w (seed rs es) ≡ some c
    → Blank c
unfolding seed
seed-Blank [] es w c old h = old h
seed-Blank (r ∷ rs) es w c old h =
    let e = planned_event (next_event_id es) r.work_id in
    seed-Blank rs (e ∷ es) w c (newest-cons Blank e es w c (λ _. ((refl, refl), refl)) old) h

-- The rows are those of the plan, each with no event yet.
abbrev Open : List Row → List Event → List Row → Type 0
Open plan es [] = Unit
Open plan es (r ∷ rs) =
    (is_some (find_row r.work_id plan) ≡ true) × (find_event r.work_id es ≡ none) × Open plan es rs

Open-cons :
    (plan : List Row) (es : List Event) (e : Event) (rs : List Row)
    → find_row e.work_id rs ≡ none
    → Open plan es rs
    → Open plan (e ∷ es) rs
Open-cons plan es e [] h o = tt
Open-cons plan es e (r ∷ rs) h o = elim (Bool-cases (r.work_id == e.work_id)) [
  | inl same ↦ let gone : ◌≡◌ {A = Option Row} (some r) none = rw same at h in cc
  | inr other ↦
      (o.0, rw (eq_comm e.work_id r.work_id, other) o.1, Open-cons plan es e rs (rw other at h) o.2)
]

Open-plan :
    (plan rs : List Row)
    → ((w : String) → is_some (find_row w rs) ≡ true → is_some (find_row w plan) ≡ true)
    → Open plan [] rs
Open-plan plan [] h = tt
Open-plan plan (r ∷ rs) h =
    (h r.work_id (rw (eq_self r.work_id)), refl, Open-plan plan rs (λ w k. h w (ground arith)))

row_gone :
    (r : Row) (rs : List Row)
    → not (is_some (find_row r.work_id rs)) ≡ true
    → find_row r.work_id rs ≡ none
row_gone r rs h = ground arith

module _ (db : Db) where
  abbrev plain : List Event → Seen
  plain es = record { count = length es; latest = es; reserved = []; recovered = []; retried = [] }

  plain-gathered :
      (es : List Event) (e : Event)
      → find_event e.work_id es ≡ none
      → state_eq e.state reserved ≡ false
      → gathered (plain es) e ≡ plain (e ∷ es)
  plain-gathered es e f r = rw (f, r, add-one)

  scan_planned :
      (es : List Event) (i : ℕ) (work : String)
      → scan db es ≡ ok (plain es)
      → is_some (find_row work db.plan) ≡ true
      → find_event work es ≡ none
      → within db (length es + 1) ≡ true
      → scan db (planned_event i work ∷ es) ≡ ok (plain (planned_event i work ∷ es))
  unfolding scan
  scan_planned es i work h k f n =
      let e = planned_event i work in
      rw h (
        scan_event-of_Accepts db (plain es) e (record {
          room = n;
          known = k;
          moved = rw f;
          receipt = rw f;
          bound = refl;
          ready = refl;
          result = refl;
        })
        ∙ ap ok (plain-gathered es e f refl))

  scan-seed :
      (rs : List Row) (es : List Event)
      → scan db es ≡ ok (plain es)
      → Open db.plan es rs
      → unique_rows rs ≡ true
      → length rs + length es ≤ 6 * length db.plan
      → scan db (seed rs es) ≡ ok (plain (seed rs es))
  unfolding seed
  scan-seed [] es h o u n = h
  scan-seed (r ∷ rs) es h o u n =
      let e = planned_event (next_event_id es) r.work_id in
      scan-seed rs (e ∷ es)
        (scan_planned es (next_event_id es) r.work_id h o.0 o.1 (le→leb _ _ (omega arith)))
        (Open-cons db.plan es e rs (row_gone r rs (and-left _ _ u)) o.2) (and-right _ _ u)
        (omega arith)

rank-ge : (s : State) → 1 ≤ rank s
rank-ge planned = omega arith
rank-ge _ = omega arith

rank_of-ge : (o : Option Event) → is_some o ≡ true → 1 ≤ rank_of o
rank_of-ge none h = cc
rank_of-ge (some e) h = rank-ge e.state

or_false : (b : Bool) → (b || false) ≡ b
or_false true = refl
or_false false = refl

total_rank-ge :
    (es : List Event) (rs : List Row)
    → ((w : String) → member w (map (λ r. r.work_id) rs) ≡ true → is_some (find_event w es) ≡ true)
    → length rs ≤ total_rank es rs
total_rank-ge es [] h = omega arith
total_rank-ge es (r ∷ rs) h = omega (
  arith,
  total_rank-ge es rs (λ w m. h w (or-true (r.work_id == w) m)),
  rank_of-ge (find_event r.work_id es) (h r.work_id (rw (eq_self r.work_id))),
)

module _ (plan : List Row) (digest : String) (p : validate_plan plan ≡ ok tt)
    (d : is_digest digest ≡ true) where
  same_keys : (w : String) → member w (keys (seed plan [])) ≡ member w (map (λ r. r.work_id) plan)
  same_keys w = member-seed w plan [] ∙ or_false (member w (map (λ r. r.work_id) plan))

  pub initial-IsValid : IsValid (initial plan digest)
  unfolding scan_attempts
  initial-IsValid = record {
    version_ok = refl;
    schema_ok = refl;
    manifest_ok = d;
    plan_ok = p;
    attempts_ok = refl;
    seen = plain (initial plan digest) (seed plan []);
    scanned =
        scan-seed (initial plan digest) plan [] (unfold scan in refl)
          (Open-plan plan plan (λ w k. k)) (validate_plan_unique plan p) (omega arith);
    all_settled = record {
      retried_all = refl;
      recovered_all = refl;
      planned_all = same_set-ext _ _ same_keys;
      reserved_all = refl;
    };
    recovery_table = refl;
    retry_table = refl;
    budget = omega (
      arith,
      length-seed plan [],
      total_rank-ge (seed plan []) plan (λ w m. find_event-keys w (seed plan []) ∙ same_keys w ∙ m),
    );
    held = λ w a found. cc;
    found = λ w a found. cc;
    ready = λ w c found has. cc (ap is_some (seed-Blank plan [] w c (λ h. cc) found).1);
    columns = λ w c found. (seed-Blank plan [] w c (λ h. cc) found).0;
  }

pub create-IsValid :
    (plan : List Row) (digest : String) {l : Ledger} → create plan digest ≡ ok l → IsValid l.db
unfolding create
create-IsValid plan digest h =
    let (u, p, h₁) = >>=-eq-ok (validate_plan plan) _ h in
    let (d, h₂) = guard-eq-ok (is_digest digest) _ _ h₁ in
    subst (λ (l : Ledger). IsValid l.db) (ok-injective h₂) (initial-IsValid plan digest p d)
