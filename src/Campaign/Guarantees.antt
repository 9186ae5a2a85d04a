-- ===== src/Campaign/Guarantees.antt =====
-- src/draftbench/campaign.py: what the shared budget promises the runs that use it.
use llm_draftbench.Prelude.{
  ℕ, ◌≤◌, String, Bool, true, false, Option, none, some, List, [], ◌∷◌, not, ◌==◌, ◌&&◌, ◌||◌, leb,
  nat_eq, Result, ok, err, ◌≡◌, ◌≢◌, refl, ok-injective, subst, sym, ap, ◌∙◌, Bool-cases, inl, inr,
  arith,
}
use llm_draftbench.Prelude.Text.{eq→path}
use llm_draftbench.Ledger.Types.{LedgerError}
use llm_draftbench.Ledger.Ident.{is_attempt, check_attempt}
use llm_draftbench.Ledger.Session.{Faults, no_faults}
use llm_draftbench.Ledger.Transaction.{IsOpen, transaction-open}
use llm_draftbench.Ledger.Tables.{is_some}
use llm_draftbench.Campaign.Amount.{ceiling_units}
use llm_draftbench.Campaign.Budget.{
  Reservation, BudgetDb, Budget, Claim, find_reservation, total, is_tracking, ceiling_known, verify,
  create, reserve, reserve_body, reserve_from, reservation, quote, identity_body, Call, run,
}
use llm_draftbench.Campaign.Grown.{Grown, Grown-trans, Granted, Outcome}
use llm_draftbench.Campaign.Outcomes.{reserve-Outcome}

-- A call leaves the flags of the object and makes its budget grow.
record Keeps (b after : Budget) : Type 0 where
  closed : after.closed ≡ b.closed
  readonly : after.readonly ≡ b.readonly
  grown : Grown b.db after.db

Outcome-Keeps :
    {bind : Claim → Option (ℕ × ℕ) → String} {c : Claim} {b : Budget}
    (r : Result LedgerError String × Budget)
    → Outcome bind c b r
    → Keeps b r.1
Outcome-Keeps _ (Outcome.refused e) = record { closed = refl; readonly = refl; grown = Grown.same }
Outcome-Keeps _ (Outcome.granted i after g) = record {
  closed = ap (λ h. h.closed) g.handle;
  readonly = ap (λ h. h.readonly) g.handle;
  grown = g.reserved.grown;
}
Outcome-Keeps _ (Outcome.uncertain e i after g) = record {
  closed = ap (λ h. h.closed) g.handle;
  readonly = ap (λ h. h.readonly) g.handle;
  grown = g.reserved.grown;
}

run-Keeps :
    (bind : Claim → Option (ℕ × ℕ) → String) (calls : List Call) (b : Budget)
    → Keeps b (run bind calls b)
unfolding run
run-Keeps bind [] b = record { closed = refl; readonly = refl; grown = Grown.same }
run-Keeps bind (c ∷ cs) b =
    let one = Outcome-Keeps _ (reserve-Outcome bind c.reading c.writing c.claim b) in
    let rest = run-Keeps bind cs (reserve bind c.reading c.writing c.claim b).1 in
    record {
      closed = rest.closed ∙ one.closed;
      readonly = rest.readonly ∙ one.readonly;
      grown = Grown-trans one.grown rest.grown;
    }

find-Grown :
    {start db : BudgetDb} (i : String) (r : Reservation)
    → Grown start db
    → find_reservation i start.reservations ≡ some r
    → find_reservation i db.reservations ≡ some r
find-Grown i r Grown.same h = h
find-Grown i r (Grown.push {db = d} s g free fits) h = elim (Bool-cases (s.attempt_id == i)) [
  | inl here ↦
      let gone : find_reservation i d.reservations ≡ none =
        subst (λ x. find_reservation x d.reservations ≡ none) (eq→path s.attempt_id i here) free in
      cc (gone, find-Grown i r g h)
  | inr elsewhere ↦ rw elsewhere (find-Grown i r g h)
]

-- What `verify` asks of a database.
record Sound (db : BudgetDb) : Type 0 where
  known :
      ((nat_eq db.user_version 1 || nat_eq db.user_version 2)
        && db.currency == "USD"
        && ceiling_known (is_tracking db) db.ceiling)
      ≡ true
  named : check_attempt db.campaign_id ≡ ok tt
  covered : (is_tracking db || leb (total db.reservations) ceiling_units) ≡ true

verify-Sound : (db : BudgetDb) → Sound db → verify db ≡ ok tt
unfolding verify
verify-Sound db s = rw (s.known, s.named, s.covered) refl

tracks :
    (t : Bool) (ceiling : Option ℕ) → ceiling_known t ceiling ≡ true → not (is_some ceiling) ≡ t
tracks true none h = refl
tracks false (some n) h = refl
tracks true (some n) h = cc
tracks false none h = cc

Sound-Grown : {start db : BudgetDb} → Grown start db → Sound start → Sound db
Sound-Grown Grown.same s = s
Sound-Grown (Grown.push {db = d} r g free fits) s =
    let before = Sound-Grown g s in
    record {
      known = before.known;
      named = before.named;
      covered =
          subst (λ t. (t || leb (total (r ∷ d.reservations)) ceiling_units) ≡ true)
            (tracks (is_tracking d) d.ceiling (ground (arith, before.known))) fits;
    }

ceiling-Grown : {start db : BudgetDb} → Grown start db → db.ceiling ≡ start.ceiling
ceiling-Grown Grown.same = refl
ceiling-Grown (Grown.push r g free fits) = ceiling-Grown g

capped-fits :
    (ceiling : Option ℕ) (t : ℕ)
    → ceiling ≡ some ceiling_units
    → (not (is_some ceiling) || leb t ceiling_units) ≡ true
    → t ≤ ceiling_units
capped-fits none t limit h = cc
capped-fits (some n) t limit h = ground (arith, h)

total-Grown :
    {start db : BudgetDb}
    → Grown start db
    → start.ceiling ≡ some ceiling_units
    → total start.reservations ≤ ceiling_units
    → total db.reservations ≤ ceiling_units
total-Grown Grown.same limit h = h
total-Grown (Grown.push {db = d} r g free fits) limit h =
    ground
      (arith, capped-fits d.ceiling (total (r ∷ d.reservations)) (ceiling-Grown g ∙ limit) fits)

create-Sound : (uuid : String) (t : Bool) → check_attempt uuid ≡ ok tt → Sound (create uuid t).db
create-Sound uuid true h = record { known = refl; named = h; covered = refl }
create-Sound uuid false h = record { known = refl; named = h; covered = refl }

-- From a budget that `create` made, any calls of `reserve`, with any faults, leave a database that
-- `_verify` accepts, and one with a ceiling never holds more than 50 USD in reservations.
pub run-ceiling :
    (bind : Claim → Option (ℕ × ℕ) → String) (uuid : String) (calls : List Call)
    → is_attempt uuid ≡ true
    → (verify (run bind calls (create uuid true)).db ≡ ok tt)
      × (verify (run bind calls (create uuid false)).db ≡ ok tt)
      × (total (run bind calls (create uuid false)).db.reservations ≤ ceiling_units)
run-ceiling bind uuid calls hex =
    let known : check_attempt uuid ≡ ok tt = rw hex refl in
    (
      verify-Sound _ (
          Sound-Grown (run-Keeps bind calls (create uuid true)).grown
            (create-Sound uuid true known)),
      verify-Sound _ (
          Sound-Grown (run-Keeps bind calls (create uuid false)).grown
            (create-Sound uuid false known)),
      total-Grown (run-Keeps bind calls (create uuid false)).grown refl (omega arith),
    )

-- A reservation is never changed or removed, whatever is called.
pub run-reservation :
    (bind : Claim → Option (ℕ × ℕ) → String) (calls : List Call) (b : Budget) (i : String)
    (r : Reservation)
    → find_reservation i b.db.reservations ≡ some r
    → find_reservation i (run bind calls b).db.reservations ≡ some r
run-reservation bind calls b i r h = find-Grown i r (run-Keeps bind calls b).grown h

granted_lem :
    (bind : Claim → Option (ℕ × ℕ) → String) (c : Claim) (b : Budget) (i : String)
    (r : Result LedgerError String × Budget)
    → Outcome bind c b r
    → r.0 ≡ ok i
    → Granted bind c b r.1 i
granted_lem bind c b i _ (Outcome.refused e) h = cc
granted_lem bind c b i _ (Outcome.uncertain e j after g) h = cc
granted_lem bind c b i _ (Outcome.granted j after g) h =
    subst (Granted bind c b after) (ok-injective h) g

module _ (bind : Claim → Option (ℕ × ℕ) → String) (c : Claim) (b after later : Budget) (i : String)
    (g : Granted bind c b after i) (kept : Keeps after later) where
  still-IsOpen : IsOpen later
  still-IsOpen = record {
    not_closed = kept.closed ∙ ap (λ h. h.closed) g.handle ∙ g.not_closed;
    writable = kept.readonly ∙ ap (λ h. h.readonly) g.handle ∙ g.writable;
  }

  same_ceiling : later.db.ceiling ≡ b.db.ceiling
  same_ceiling = ceiling-Grown (Grown-trans g.reserved.grown kept.grown)

  still_held : find_reservation c.attempt_id later.db.reservations ≡ some g.reserved.held
  still_held = find-Grown c.attempt_id g.reserved.held kept.grown g.reserved.found

  granted_again : reserve bind no_faults no_faults c later ≡ (ok i, later)
  unfolding reserve reserve_body reserve_from
  granted_again =
      let r = reservation c (bind c g.exact) g.units in
      let quoted : quote (not (is_some later.db.ceiling)) c.upper_bound ≡ ok (g.units, g.exact) =
        subst (λ o. quote (not (is_some o)) c.upper_bound ≡ ok (g.units, g.exact))
          (sym same_ceiling) g.quoted in
      rw
        (
          g.claimed,
          transaction-open false identity_body later still-IsOpen,
          quoted,
          transaction-open true (reserve_body (not (is_some later.db.ceiling)) r) later
              still-IsOpen,
          still_held,
          g.reserved.bound,
          g.id,
        )
        refl

-- A claim that was granted is granted again after any calls, with no fault, and nothing changes:
-- the same attempt is not charged twice.
pub reserve_again :
    (bind : Claim → Option (ℕ × ℕ) → String) (reading writing : Faults) (c : Claim)
    (calls : List Call) (b : Budget) (i : String)
    → (reserve bind reading writing c b).0 ≡ ok i
    → let later = run bind calls (reserve bind reading writing c b).1 in
      reserve bind no_faults no_faults c later ≡ (ok i, later)
reserve_again bind reading writing c calls b i h =
    granted_again bind c b _ _ i
      (granted_lem bind c b i _ (reserve-Outcome bind reading writing c b) h)
      (run-Keeps bind calls _)

uncertain_lem :
    (bind : Claim → Option (ℕ × ℕ) → String) (c : Claim) (b : Budget) (e : LedgerError)
    (r : Result LedgerError String × Budget)
    → Outcome bind c b r
    → r.0 ≡ err e
    → r.1 ≢ b
    → (i : String) × Granted bind c b r.1 i
uncertain_lem bind c b e _ (Outcome.refused x) h changed = absurd (changed refl)
uncertain_lem bind c b e _ (Outcome.granted i after g) h changed = cc
uncertain_lem bind c b e _ (Outcome.uncertain x i after g) h changed = (i, g)

-- A claim whose call raised although it changed the budget, at a COMMIT that was durable, is not
-- lost: after any calls it is granted, with no fault, and nothing changes, so that the attempt is
-- charged once.
pub reserve_uncertain :
    (bind : Claim → Option (ℕ × ℕ) → String) (reading writing : Faults) (c : Claim)
    (calls : List Call) (b : Budget) (e : LedgerError)
    → (reserve bind reading writing c b).0 ≡ err e
    → (reserve bind reading writing c b).1 ≢ b
    → let later = run bind calls (reserve bind reading writing c b).1 in
      (i : String) × (reserve bind no_faults no_faults c later ≡ (ok i, later))
reserve_uncertain bind reading writing c calls b e h changed =
    let (i, g) = uncertain_lem bind c b e _ (reserve-Outcome bind reading writing c b) h changed in
    (i, granted_again bind c b _ _ i g (run-Keeps bind calls _))
