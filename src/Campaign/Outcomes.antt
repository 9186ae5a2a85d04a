-- ===== src/Campaign/Outcomes.antt =====
-- src/draftbench/campaign.py: a call of `reserve` changes nothing, or it is granted.
use llm_draftbench.Prelude.{
  ℕ, String, Bool, true, false, Option, not, Result, ok, err, ◌≡◌, refl, ok-injective, subst, sym,
  ap, ◌∙◌,
}
use llm_draftbench.Ledger.Types.{LedgerError}
use llm_draftbench.Ledger.Session.{Faults, transaction, checked}
use llm_draftbench.Ledger.Transaction
use llm_draftbench.Ledger.Transaction.{Returned, transaction-Outcome}
use llm_draftbench.Ledger.Tables.{is_some}
use llm_draftbench.Campaign.Budget.{
  Budget, Claim, reserve_body, reserve_quoted, reserve_known, reserve, quote, Quote, check_claim,
  identity_body, reservation,
}
use llm_draftbench.Campaign.Grown.{Reserved, Granted, Outcome, reserve_body_lem}

module _ (bind : Claim → Option (ℕ × ℕ) → String) (c : Claim) (b : Budget)
    (claimed : check_claim c ≡ ok tt) where
  written-Granted :
      (n : Option ℕ) (exact : Option (ℕ × ℕ)) (i : String) (after : Budget)
      → quote (not (is_some b.db.ceiling)) c.upper_bound ≡ ok (n, exact)
      → Returned true
          (reserve_body (not (is_some b.db.ceiling)) (reservation c (bind c exact) n))
          b
          i
          after
      → Granted bind c b after i
  written-Granted n exact i after quoted ret =
      let (reserved, id) =
        reserve_body_lem b.db ret.db (reservation c (bind c exact) n) i ret.ran in
      let to_db : ret.db ≡ after.db = sym (ap (λ h. h.db) ret.kept) in
      record {
        not_closed = ret.not_closed;
        writable = ret.allowed;
        claimed = claimed;
        units = n;
        exact = exact;
        quoted = quoted;
        reserved = subst (Reserved (reservation c (bind c exact) n) b.db) to_db reserved;
        id = id;
        handle = ret.kept ∙ ap (λ d. record b { db = d }) to_db;
      }

  written-Outcome :
      (n : Option ℕ) (exact : Option (ℕ × ℕ)) (r : Result LedgerError String × Budget)
      → quote (not (is_some b.db.ceiling)) c.upper_bound ≡ ok (n, exact)
      → Transaction.Outcome true
          (reserve_body (not (is_some b.db.ceiling)) (reservation c (bind c exact) n))
          b
          r
      → Outcome bind c b r
  written-Outcome n exact _ quoted (Transaction.Outcome.raised e) = Outcome.refused e
  written-Outcome n exact _ quoted (Transaction.Outcome.returned i after ret) =
      Outcome.granted i after (written-Granted n exact i after quoted ret)
  written-Outcome n exact _ quoted (Transaction.Outcome.uncertain e i after ret) =
      Outcome.uncertain e i after (written-Granted n exact i after quoted ret)

  quoted-Outcome :
      (writing : Faults) (q : Result LedgerError Quote)
      → quote (not (is_some b.db.ceiling)) c.upper_bound ≡ q
      → Outcome bind c b (reserve_quoted bind writing c (not (is_some b.db.ceiling)) q b)
  quoted-Outcome writing (err e) quoted = Outcome.refused e
  quoted-Outcome writing (ok (n, exact)) quoted =
      written-Outcome n exact _ quoted (transaction-Outcome writing true _ b)

  read_lem :
      (tracking : Bool) (after : Budget)
      → Returned false identity_body b tracking after
      → (not (is_some b.db.ceiling) ≡ tracking) × (b ≡ after)
  read_lem tracking after ret =
      let same : (not (is_some b.db.ceiling), b.db) ≡ (tracking, ret.db) = ok-injective ret.ran in
      (ap (λ p. p.0) same, ap (λ d. record b { db = d }) (ap (λ p. p.1) same) ∙ sym ret.kept)

  known-Outcome :
      (writing : Faults) (r : Result LedgerError Bool × Budget)
      → Transaction.Outcome false identity_body b r
      → Outcome bind c b (reserve_known bind writing c r)
  known-Outcome writing _ (Transaction.Outcome.raised e) = Outcome.refused e
  known-Outcome writing _ (Transaction.Outcome.returned tracking after ret) =
      let (known, unchanged) = read_lem tracking after ret in
      subst (λ (p : Bool × Budget). Outcome bind c b (reserve_known bind writing c (ok p.0, p.1)))
        (λ i. (known i, unchanged i)) (quoted-Outcome writing _ refl)
  known-Outcome writing _ (Transaction.Outcome.uncertain e tracking after ret) =
      subst (λ h. Outcome bind c b (err e, h)) (read_lem tracking after ret).1 (Outcome.refused e)

checked-Outcome :
    (bind : Claim → Option (ℕ × ℕ) → String) (reading writing : Faults) (c : Claim) (b : Budget)
    (r : Result LedgerError (Unit {0}))
    → check_claim c ≡ r
    → Outcome bind c b (
        checked r (λ h. reserve_known bind writing c (transaction reading false identity_body h)) b)
checked-Outcome bind reading writing c b (err e) claimed = Outcome.refused e
checked-Outcome bind reading writing c b (ok u) claimed =
    known-Outcome bind c b claimed writing _ (transaction-Outcome reading false identity_body b)

pub reserve-Outcome :
    (bind : Claim → Option (ℕ × ℕ) → String) (reading writing : Faults) (c : Claim) (b : Budget)
    → Outcome bind c b (reserve bind reading writing c b)
unfolding reserve
reserve-Outcome bind reading writing c b =
    checked-Outcome bind reading writing c b (check_claim c) refl
