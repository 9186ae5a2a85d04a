-- ===== src/Campaign/Budget.antt =====
-- src/draftbench/campaign.py: `CampaignBudget`, its tables with their constraints and triggers, and
-- its methods. SHA-256 of the canonical bytes of a claim is the parameter `bind`.
use llm_draftbench.Prelude.{
  ℕ, ◌+◌, String, Bool, true, false, Option, none, some, List, [], ◌∷◌, not, ◌&&◌, ◌||◌, ◌==◌,
  nat_eq, leb, ltb, if◌then◌else◌, Result, ok, err, guard, ◌>>=◌, ◌>>◌,
}
use llm_draftbench.Ledger.Types.{
  LedgerError, corrupt, invalid_transition, campaign_currency, campaign_exhausted,
  campaign_binding_mismatch, tracking_requires_no_reservation,
}
use llm_draftbench.Ledger.Ident.{
  is_attempt, is_digest, is_identifier, check_attempt, check_digest, check_identifier,
}
use llm_draftbench.Ledger.Session.{Handle, Faults, BodyOn, transaction, checked}
use llm_draftbench.Ledger.Tables.{is_some}
use llm_draftbench.Campaign.Amount.{UpperBound, nothing, units, ceiling_units}

pub record Reservation : Type 0 where
  pub attempt_id : String
  pub run_digest : String
  pub request_digest : String
  pub config_digest : String
  pub provider : String
  pub binding : String
  pub units : Option ℕ

-- The row of `campaign` and the table of reservations, newest first.
pub record BudgetDb : Type 0 where
  pub user_version : ℕ
  pub campaign_id : String
  pub currency : String
  pub ceiling : Option ℕ
  pub reservations : List Reservation

abbrev pub Budget : Type 0
Budget = Handle BudgetDb

-- What a caller hands to `reserve`.
pub record Claim : Type 0 where
  pub attempt_id : String
  pub run_digest : String
  pub request_digest : String
  pub config_digest : String
  pub provider : String
  pub currency : String
  pub upper_bound : UpperBound

abbrev pub find_reservation : String → List Reservation → Option Reservation
find_reservation i [] = none
find_reservation i (r ∷ rs) = if r.attempt_id == i then some r else find_reservation i rs

abbrev pub units_of : Option ℕ → ℕ
units_of none = 0
units_of (some n) = n

-- `coalesce(sum(units),0)`
abbrev pub total : List Reservation → ℕ
total [] = 0
total (r ∷ rs) = units_of r.units + total rs

-- `NEW.units + … > (SELECT ceiling …)`, which is not true of a NULL.
abbrev pub over_ceiling : Option ℕ → Option ℕ → ℕ → Bool
over_ceiling (some limit) (some n) spent = ltb limit (n + spent)
over_ceiling _ _ spent = false

abbrev pub is_tracking : BudgetDb → Bool
is_tracking db = nat_eq db.user_version 2

-- The trigger `reservations_guard` of either schema.
abbrev pub reservations_guard : BudgetDb → Reservation → Bool
reservations_guard db r =
    not (is_some (find_reservation r.attempt_id db.reservations))
    && (is_tracking db || not (over_ceiling db.ceiling r.units (total db.reservations)))

-- The CHECK of `units` in either schema.
abbrev pub units_check : Bool → Option ℕ → Bool
units_check true none = true
units_check true (some n) = false
units_check false none = false
units_check false (some n) = ltb 0 n && leb n ceiling_units

abbrev pub reservations_check : BudgetDb → Reservation → Bool
reservations_check db r =
    is_attempt r.attempt_id
    && is_digest r.run_digest
    && is_digest r.request_digest
    && is_digest r.config_digest
    && is_identifier r.provider
    && is_digest r.binding
    && units_check (is_tracking db) r.units

-- INSERT INTO reservations
unfoldable pub insert_reservation : BudgetDb → Reservation → Result LedgerError BudgetDb
insert_reservation db r = do
  guard (reservations_guard db r) invalid_transition
  guard (reservations_check db r) invalid_transition
  ok (record db { reservations = r ∷ db.reservations })

-- `uuid` is what `uuid.uuid4().hex` returns.
abbrev pub create : (uuid : String) → (tracking_only : Bool) → Budget
create uuid tracking_only = record {
  closed = false;
  readonly = false;
  db = record {
    user_version = if tracking_only then 2 else 1;
    campaign_id = uuid;
    currency = "USD";
    ceiling = if tracking_only then none else some ceiling_units;
    reservations = [];
  };
}

-- `rows[0]["ceiling"] != (None if tracking else _CEILING)`
abbrev pub ceiling_known : Bool → Option ℕ → Bool
ceiling_known true none = true
ceiling_known true (some n) = false
ceiling_known false none = false
ceiling_known false (some n) = nat_eq n ceiling_units

unfoldable pub verify : BudgetDb → Result LedgerError (Unit {0})
verify db = do
  guard
      ((nat_eq db.user_version 1 || nat_eq db.user_version 2)
        && db.currency == "USD"
        && ceiling_known (is_tracking db) db.ceiling)
      corrupt
  check_attempt db.campaign_id
  guard (is_tracking db || leb (total db.reservations) ceiling_units) corrupt

-- `self.identity["ceiling_usd"] is None`
abbrev pub identity_body : BodyOn BudgetDb Bool
identity_body db = ok (not (is_some db.ceiling), db)

-- The units to reserve, and the exact ratio that the binding covers.
abbrev pub Quote : Type 0
Quote = Option ℕ × Option (ℕ × ℕ)

abbrev pub no_reservation : UpperBound → Result LedgerError Quote
no_reservation nothing = ok (none, none)
no_reservation _ = err tracking_requires_no_reservation

abbrev pub quote : Bool → UpperBound → Result LedgerError Quote
quote true bound = no_reservation bound
quote false bound = do (n, exact) ← units bound; ok (some n, some exact)

abbrev pub check_claim : Claim → Result LedgerError (Unit {0})
check_claim c = do
  check_attempt c.attempt_id
  check_identifier c.provider
  check_digest c.run_digest
  check_digest c.request_digest
  check_digest c.config_digest
  guard (c.currency == "USD") campaign_currency

unfoldable pub reserve_new : Bool → Reservation → BodyOn BudgetDb String
reserve_new tracking r db = do
  guard (tracking || not (ltb ceiling_units (total db.reservations + units_of r.units)))
      campaign_exhausted
  db₁ ← insert_reservation db r
  ok (r.attempt_id, db₁)

-- A second reservation of an attempt does nothing, if its binding is that of the first.
unfoldable pub reserve_from : Option Reservation → Bool → Reservation → BodyOn BudgetDb String
reserve_from none tracking r db = reserve_new tracking r db
reserve_from (some old) tracking r db =
    if old.binding == r.binding then ok (r.attempt_id, db) else err campaign_binding_mismatch

unfoldable pub reserve_body : Bool → Reservation → BodyOn BudgetDb String
reserve_body tracking r db =
    reserve_from (find_reservation r.attempt_id db.reservations) tracking r db

abbrev pub reservation : Claim → (binding : String) → Option ℕ → Reservation
reservation c binding n = record {
  attempt_id = c.attempt_id;
  run_digest = c.run_digest;
  request_digest = c.request_digest;
  config_digest = c.config_digest;
  provider = c.provider;
  binding = binding;
  units = n;
}

module _ (bind : Claim → Option (ℕ × ℕ) → String) where
  abbrev pub reserve_quoted :
      Faults → Claim → Bool → Result LedgerError Quote → Budget → Result LedgerError String × Budget
  reserve_quoted faults c tracking (err e) b = (err e, b)
  reserve_quoted faults c tracking (ok (n, exact)) b =
      transaction faults true (reserve_body tracking (reservation c (bind c exact) n)) b

  abbrev pub reserve_known :
      Faults → Claim → Result LedgerError Bool × Budget → Result LedgerError String × Budget
  reserve_known faults c (err e, b) = (err e, b)
  reserve_known faults c (ok tracking, b) =
      reserve_quoted faults c tracking (quote tracking c.upper_bound) b

  -- `reading` is what the transaction of `identity` meets, `writing` that of the reservation.
  unfoldable pub reserve :
      (reading writing : Faults) → Claim → Budget → Result LedgerError String × Budget
  reserve reading writing c =
      checked (check_claim c)
        (λ b. reserve_known writing c (transaction reading false identity_body b))

-- The calls of `reserve` that a budget gets, one after another.
pub record Call : Type 0 where
  pub reading : Faults
  pub writing : Faults
  pub claim : Claim

unfoldable pub run : (Claim → Option (ℕ × ℕ) → String) → List Call → Budget → Budget
run bind [] b = b
run bind (c ∷ cs) b = run bind cs (reserve bind c.reading c.writing c.claim b).1
