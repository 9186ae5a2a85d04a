-- ===== src/Campaign/Grown.antt =====
-- src/draftbench/campaign.py: what a call of `reserve` does to the table of reservations.
use llm_draftbench.Prelude.{
  ℕ, ◌+◌, String, Bool, true, false, Option, none, some, List, ◌∷◌, not, ◌||◌, ◌==◌, leb, ltb,
  if◌then◌else◌, Result, ok, err, ◌≡◌, refl, arith, and-left, Option-cases, inl, inr, >>=-eq-ok,
  guard-eq-ok, ok-injective, subst, sym, ap, ◌∙◌,
}
use llm_draftbench.Prelude.Text.{eq_self}
use llm_draftbench.Ledger.Types.{LedgerError, campaign_binding_mismatch}
use llm_draftbench.Ledger.Tables.{is_some}
use llm_draftbench.Campaign.Amount.{ceiling_units}
use llm_draftbench.Campaign.Budget.{
  Reservation, BudgetDb, Budget, Claim, find_reservation, units_of, total, reservations_guard,
  reservations_check, insert_reservation, reserve_new, reserve_from, reserve_body, quote,
  check_claim, reservation,
}

abbrev pub within_ceiling : BudgetDb → Reservation → Bool
within_ceiling db r = not (is_some db.ceiling) || leb (total (r ∷ db.reservations)) ceiling_units

-- A budget that grew from another by reservations of attempts without one, under the ceiling.
pub data Grown (start : BudgetDb) : BudgetDb → Type 0 where
  same : Grown start start
  push :
      {db : BudgetDb} (r : Reservation)
      → Grown start db
      → find_reservation r.attempt_id db.reservations ≡ none
      → within_ceiling db r ≡ true
      → Grown start (record db { reservations = r ∷ db.reservations })

pub Grown-trans : {a b c : BudgetDb} → Grown a b → Grown b c → Grown a c
Grown-trans g same = g
Grown-trans g (push r h free fits) = push r (Grown-trans g h) free fits

-- A reservation that returned: the budget holds it, with the binding that was asked for.
pub record Reserved (r : Reservation) (before after : BudgetDb) : Type 0 where
  pub grown : Grown before after
  pub held : Reservation
  pub found : find_reservation r.attempt_id after.reservations ≡ some held
  pub bound : (held.binding == r.binding) ≡ true

absent : {A : Type 0} (x : Option A) → not (is_some x) ≡ true → x ≡ none
absent none h = refl
absent (some a) h = cc

insert_lem :
    (db after : BudgetDb) (r : Reservation)
    → insert_reservation db r ≡ ok after
    → (find_reservation r.attempt_id db.reservations ≡ none)
      × (after ≡ record db { reservations = r ∷ db.reservations })
unfolding insert_reservation
insert_lem db after r h =
    let (free, rest) = guard-eq-ok (reservations_guard db r) _ _ h in
    let (_, done) = guard-eq-ok (reservations_check db r) _ _ rest in
    (absent _ (and-left _ _ free), sym (ok-injective done))

fits_new :
    (b : Bool) (t u : ℕ)
    → (b || not (ltb ceiling_units (t + u))) ≡ true
    → (b || leb (u + t) ceiling_units) ≡ true
fits_new b t u h = ground arith

found-new :
    (r : Reservation) (rs : List Reservation) → find_reservation r.attempt_id (r ∷ rs) ≡ some r
found-new r rs = rw (eq_self r.attempt_id) refl

reserve_new_lem :
    (db after : BudgetDb) (r : Reservation) (i : String)
    → reserve_new (not (is_some db.ceiling)) r db ≡ ok (i, after)
    → Reserved r db after × (i ≡ r.attempt_id)
unfolding reserve_new
reserve_new_lem db after r i h =
    let (fits, rest) = guard-eq-ok _ _ _ h in
    let (db₁, inserted, done) = >>=-eq-ok (insert_reservation db r) _ rest in
    let (free, made) = insert_lem db db₁ r inserted in
    let to_after : record db { reservations = r ∷ db.reservations } ≡ after =
      sym made ∙ ap (λ p. p.1) (ok-injective done) in
    (
      subst (Reserved r db) to_after (record {
        grown =
            Grown.push r Grown.same free
              (fits_new (not (is_some db.ceiling)) (total db.reservations) (units_of r.units) fits);
        held = r;
        found = found-new r db.reservations;
        bound = eq_self r.binding;
      }),
      ap (λ p. p.0) (sym (ok-injective done)),
    )

repeated_lem :
    (db after : BudgetDb) (r old : Reservation) (i : String) (t : Bool)
    → find_reservation r.attempt_id db.reservations ≡ some old
    → (old.binding == r.binding) ≡ t
    → if◌then◌else◌ {A = Result LedgerError (String × BudgetDb)} t
        (ok (r.attempt_id, db))
        (err campaign_binding_mismatch)
      ≡ ok (i, after)
    → Reserved r db after × (i ≡ r.attempt_id)
repeated_lem db after r old i true found bound h =
    let unchanged : db ≡ after = ap (λ p. p.1) (ok-injective h) in
    (
      subst (Reserved r db) unchanged
          (record { grown = Grown.same; held = old; found = found; bound = bound }),
      ap (λ p. p.0) (sym (ok-injective h)),
    )
repeated_lem db after r old i false found bound h = cc

pub reserve_body_lem :
    (db after : BudgetDb) (r : Reservation) (i : String)
    → reserve_body (not (is_some db.ceiling)) r db ≡ ok (i, after)
    → Reserved r db after × (i ≡ r.attempt_id)
unfolding reserve_body reserve_from
reserve_body_lem db after r i h =
    elim (Option-cases (find_reservation r.attempt_id db.reservations)) [
      | inl free ↦
          reserve_new_lem db after r i
            (subst (λ x. reserve_from x (not (is_some db.ceiling)) r db ≡ ok (i, after)) free h)
      | inr (old, found) ↦
          repeated_lem db after r old i (old.binding == r.binding) found refl
            (subst (λ x. reserve_from x (not (is_some db.ceiling)) r db ≡ ok (i, after)) found h)
    ]

-- The reservation that a claim asks of a budget whose `ceiling_usd` is known.
pub record Granted (bind : Claim → Option (ℕ × ℕ) → String) (c : Claim) (b after : Budget)
    (i : String) : Type 0 where
  pub not_closed : b.closed ≡ false
  pub writable : b.readonly ≡ false
  pub claimed : check_claim c ≡ ok tt
  pub units : Option ℕ
  pub exact : Option (ℕ × ℕ)
  pub quoted : quote (not (is_some b.db.ceiling)) c.upper_bound ≡ ok (units, exact)
  pub reserved : Reserved (reservation c (bind c exact) units) b.db after.db
  pub id : i ≡ c.attempt_id
  pub handle : after ≡ record b { db = after.db }

-- A call of `reserve` changes nothing, or it is granted.
pub data Outcome (bind : Claim → Option (ℕ × ℕ) → String) (c : Claim) (b : Budget)
    : Result LedgerError String × Budget → Type 0 where
  refused : (e : LedgerError) → Outcome bind c b (err e, b)
  granted :
      (i : String) (after : Budget) → Granted bind c b after i → Outcome bind c b (ok i, after)
  uncertain :
      (e : LedgerError) (i : String) (after : Budget)
      → Granted bind c b after i
      → Outcome bind c b (err e, after)
