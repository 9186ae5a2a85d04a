-- ===== src/Campaign/Exact.antt =====
-- src/draftbench/campaign.py: what `reserve` does, on every branch, in a budget with a ceiling.
use llm_draftbench.Prelude.{
  ℕ, ◌+◌, ◌≤◌, ◌<◌, String, Bool, true, false, Option, none, some, ◌∷◌, not, ◌==◌, ◌&&◌, ◌||◌, leb,
  ltb, nat_eq, if◌then◌else◌, Result, ok, err, ◌≡◌, refl, ap, ◌∙◌, guard-eq-ok, guard, ◌>>◌, ◌>>=◌,
  arith,
}
use llm_draftbench.Ledger.Types.{
  LedgerError, campaign_exhausted, campaign_binding_mismatch, invalid_transition, corrupt,
  invalid_identifier, invalid_digest, campaign_currency,
}
use llm_draftbench.Ledger.Ident.{check_attempt, is_attempt, is_digest, is_identifier}
use llm_draftbench.Ledger.Session.{no_faults, committed}
use llm_draftbench.Ledger.Transaction.{IsOpen, transaction-open, committed-if}
use llm_draftbench.Ledger.Tables.{is_some}
use llm_draftbench.Campaign.Amount.{UpperBound, Decimal, decimal, finite, units, ceiling_units}
use llm_draftbench.Campaign.Rounding.{units-Covers}
use llm_draftbench.Campaign.Budget.{
  Reservation, BudgetDb, Budget, Claim, find_reservation, units_of, units_check, total, is_tracking,
  ceiling_known, verify, reserve, reserve_body, reserve_from, reserve_new, reservation,
  insert_reservation, reservations_guard, reservations_check, check_claim, identity_body,
}

-- The first reservation of an attempt is taken if it fits under the ceiling. Another one of the
-- same attempt changes nothing.
abbrev pub answer :
    Option Reservation → Reservation → ℕ → Budget → Result LedgerError String × Budget
answer none r n b =
    if leb (total b.db.reservations + n) ceiling_units
    then (ok r.attempt_id, record b { db = record b.db { reservations = r ∷ b.db.reservations } })
    else (err campaign_exhausted, b)
answer (some old) r n b =
    if old.binding == r.binding then (ok r.attempt_id, b) else (err campaign_binding_mismatch, b)

-- A budget that `verify` accepts and that has a ceiling.
pub record IsCapped (db : BudgetDb) : Type 0 where
  pub untracked : is_tracking db ≡ false
  pub limit : db.ceiling ≡ some ceiling_units

capped :
    (t : Bool) (ceiling : Option ℕ)
    → ceiling_known t ceiling ≡ true
    → is_some ceiling ≡ true
    → (t ≡ false) × (ceiling ≡ some ceiling_units)
capped true none h k = cc
capped true (some n) h k = cc
capped false none h k = cc
capped false (some n) h k = (refl, ap some (ground arith))

pub verify-IsCapped : (db : BudgetDb) → verify db ≡ ok tt → is_some db.ceiling ≡ true → IsCapped db
unfolding verify
verify-IsCapped db h k =
    let (known, _) =
      guard-eq-ok
        ((nat_eq db.user_version 1 || nat_eq db.user_version 2)
          && db.currency == "USD"
          && ceiling_known (is_tracking db) db.ceiling)
        corrupt
        (do
          check_attempt db.campaign_id
          guard (is_tracking db || leb (total db.reservations) ceiling_units) corrupt)
        h in
    let (a, b) = capped (is_tracking db) db.ceiling (ground (arith, known)) k in
    record { untracked = a; limit = b }

both_guards :
    {A : Type 0} (s t : Bool) (d e : LedgerError) (k : Result LedgerError A)
    → s ≡ true
    → t ≡ true
    → (guard s d >> (guard t e >> k)) ≡ k
both_guards true true d e k p q = refl
both_guards true false d e k p q = cc
both_guards false t d e k p q = cc

guarded_if :
    {A B : Type 0} (s t : Bool) (e : LedgerError) (m : Result LedgerError A) (a : A)
    (f : A → Result LedgerError B)
    → s ≡ t
    → (t ≡ true → m ≡ ok a)
    → (guard s e >> (m >>= f)) ≡ (if t then f a else err e)
guarded_if true true e m a f p q = ap (λ x. x >>= f) (q refl)
guarded_if false false e m a f p q = refl
guarded_if true false e m a f p q = cc
guarded_if false true e m a f p q = cc

not-ltb : (s : ℕ) → (false || not (ltb ceiling_units s)) ≡ leb s ceiling_units
not-ltb s = ground arith

module _ (db : BudgetDb) (r : Reservation) (n : ℕ) (is_capped : IsCapped db)
    (priced : r.units ≡ some n) (checked : reservations_check db r ≡ true)
    (free : find_reservation r.attempt_id db.reservations ≡ none) where
  allowed : total db.reservations + n ≤ ceiling_units → reservations_guard db r ≡ true
  allowed fits = rw (free, is_capped.limit, priced) (ground (arith, is_capped.untracked, fits))

  insert_exact :
      (total db.reservations + n ≤ ceiling_units)
      → insert_reservation db r ≡ ok (record db { reservations = r ∷ db.reservations })
  unfolding insert_reservation
  insert_exact fits =
      both_guards (reservations_guard db r) (reservations_check db r) invalid_transition
        invalid_transition _ (allowed fits) checked

  new_exact : reserve_new false r db ≡ (
      if leb (total db.reservations + n) ceiling_units
      then ok (r.attempt_id, record db { reservations = r ∷ db.reservations })
      else err campaign_exhausted)
  unfolding reserve_new
  new_exact =
      guarded_if (false || not (ltb ceiling_units (total db.reservations + units_of r.units)))
        (leb (total db.reservations + n) ceiling_units) campaign_exhausted (insert_reservation db r)
        (record db { reservations = r ∷ db.reservations }) (λ d. ok (r.attempt_id, d))
        (rw priced (not-ltb (total db.reservations + n))) (λ h. insert_exact (ground (arith, h)))

five_guards :
    (a b c d e f : Bool) (x y z : LedgerError)
    → (guard a x >> (guard b x >> (guard c y >> (guard d y >> (guard e y >> guard f z))))) ≡ ok tt
    → (a && c && d && e && b) ≡ true
five_guards true true true true true f x y z h = refl
five_guards true true true true false f x y z h = cc
five_guards true true true false e f x y z h = cc
five_guards true true false d e f x y z h = cc
five_guards true false c d e f x y z h = cc
five_guards false b c d e f x y z h = cc

units_range :
    (bound : UpperBound) (n : ℕ) (exact : ℕ × ℕ)
    → units bound ≡ ok (n, exact)
    → (0 < n) × (n ≤ ceiling_units)
unfolding units
units_range UpperBound.nothing n exact h = cc
units_range UpperBound.other n exact h = cc
units_range (decimal Decimal.special) n exact h = cc
units_range (decimal (finite negative digits e)) n exact h =
    let (_, positive, most) = units-Covers negative digits e n exact h in (positive, most)

claim_check :
    (a r q g p d : Bool) (tracking : Bool) (n : ℕ)
    → (a && r && q && g && p) ≡ true
    → d ≡ true
    → tracking ≡ false
    → (0 < n) × (n ≤ ceiling_units)
    → (a && r && q && g && p && d && units_check tracking (some n)) ≡ true
claim_check true true true true true true false n h k t (positive, most) =
    ground (arith, positive, most)
claim_check _ _ _ _ _ _ _ n h k t range = ground (arith, h, k, t, range)

-- What `check_claim` lets pass, and what `units` makes, satisfies the CHECK constraints.
claimed_check :
    (db : BudgetDb) (c : Claim) (binding : String) (n : ℕ)
    → check_claim c ≡ ok tt
    → is_digest binding ≡ true
    → is_tracking db ≡ false
    → (0 < n) × (n ≤ ceiling_units)
    → reservations_check db (reservation c binding (some n)) ≡ true
claimed_check db c binding n claimed hex untracked range =
    claim_check (is_attempt c.attempt_id) (is_digest c.run_digest) (is_digest c.request_digest)
      (is_digest c.config_digest) (is_identifier c.provider) (is_digest binding) (is_tracking db) n
      (five_guards (is_attempt c.attempt_id) (is_identifier c.provider) (is_digest c.run_digest)
        (is_digest c.request_digest) (is_digest c.config_digest) (c.currency == "USD")
        invalid_identifier invalid_digest campaign_currency claimed)
      hex untracked range

committed-answer :
    (b : Budget) (r : Reservation) (n : ℕ) (o : Option Reservation)
    → (o ≡ none
        → reserve_new false r b.db ≡ (
            if leb (total b.db.reservations + n) ceiling_units
            then ok (r.attempt_id, record b.db { reservations = r ∷ b.db.reservations })
            else err campaign_exhausted))
    → committed none b (reserve_from o false r b.db) ≡ answer o r n b
unfolding reserve_from
committed-answer b r n none new =
    ap (committed none b) (new refl)
    ∙ committed-if b (leb (total b.db.reservations + n) ceiling_units) r.attempt_id _
        campaign_exhausted
committed-answer b r n (some old) new =
    committed-if b (old.binding == r.binding) r.attempt_id b.db campaign_binding_mismatch

-- In an open budget that `_verify` accepts and that has a ceiling, with no fault, a valid claim is
-- answered by the ceiling and the earlier reservation alone: no trigger and no CHECK refuses what
-- the method lets pass, given that `bind` makes digests.
pub reserve_exact :
    (bind : Claim → Option (ℕ × ℕ) → String) (c : Claim) (b : Budget) (n : ℕ) (exact : ℕ × ℕ)
    → IsOpen b
    → verify b.db ≡ ok tt
    → is_some b.db.ceiling ≡ true
    → check_claim c ≡ ok tt
    → units c.upper_bound ≡ ok (n, exact)
    → is_digest (bind c (some exact)) ≡ true
    → reserve bind no_faults no_faults c b
      ≡ answer
          (find_reservation c.attempt_id b.db.reservations)
          (reservation c (bind c (some exact)) (some n))
          n
          b
unfolding reserve reserve_body
reserve_exact bind c b n exact o verified has_ceiling claimed priced digest =
    let is_capped = verify-IsCapped b.db verified has_ceiling in
    let r = reservation c (bind c (some exact)) (some n) in
    rw
      (
        claimed,
        transaction-open false identity_body b o,
        has_ceiling,
        priced,
        transaction-open true (reserve_body false r) b o,
      )
      (committed-answer b r n (find_reservation c.attempt_id b.db.reservations) (λ free.
        new_exact b.db r n is_capped refl
          (claimed_check b.db c (bind c (some exact)) n claimed digest is_capped.untracked
            (units_range c.upper_bound n exact priced))
          free))
